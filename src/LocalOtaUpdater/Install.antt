-- ===== src/LocalOtaUpdater/Install.antt =====
-- A whole upload against what it promises: the image is written and confirmed, or nothing is reported.
use multisensory_device.Base.{
  ℕ, ◌≡◌, Bool, true, false, not, ◌&&◌, Option, none, some, List, [], ◌∷◌, arith, ◌==◌,
  if◌then◌else◌, length, Bool-cases, inl, inr, sym, subst,
}
use multisensory_device.Base.Text.{codes}
use multisensory_device.LocalOtaUpdater.{
  Update, WebServer, file_start, file_write, file_end, LocalOtaUpdater, ends_with, is_authorized,
  start_upload, write_upload, end_upload, handle_upload,
}

module _ (web : WebServer) (u : Update) where
  -- What an upload promises: the flash with the whole image, if every part of it was taken. A part comes with
  -- the clock at its arrival.
  unfoldable pub write_all : List (List ℕ × ℕ) → u.Flash → Option u.Flash
  write_all [] g = some g
  write_all ((buf, now) ∷ parts) g =
      let (count, g1) = u.write g buf in
      let rest = write_all parts g1 in if count == length buf then rest else none

  unfoldable pub confirm : Option u.Flash → Option u.Flash
  confirm none = none
  confirm (some g) = let (ok, g1) = u.finish g in if ok then some g1 else none

  unfoldable pub opened : List ℕ → u.Flash → Option u.Flash
  opened filename g =
      let (started, g1) = u.begin_update g in
      if ends_with (codes ".bin") filename && started then some g1 else none

  unfoldable pub write_from : List (List ℕ × ℕ) → Option u.Flash → Option u.Flash
  write_from parts none = none
  write_from parts (some g) = write_all parts g

  unfoldable pub install : Bool → List ℕ → List (List ℕ × ℕ) → u.Flash → Option u.Flash
  install authorized filename parts g =
      confirm (write_from parts (if authorized then opened filename g else none))

  -- The calls of the handler for one request: its start, its parts and its end.
  unfoldable pub write_parts :
      web.Request → List (List ℕ × ℕ) → LocalOtaUpdater → u.Flash → LocalOtaUpdater × u.Flash
  write_parts request [] o g = (o, g)
  write_parts request ((buf, now) ∷ parts) o g =
      let (o1, g1) =
        handle_upload web u request record { status = file_write; filename = []; buf = buf } now o
          g in
      write_parts request parts o1 g1

  unfoldable pub upload :
      web.Request
      → List ℕ
      → List (List ℕ × ℕ)
      → ℕ
      → ℕ
      → LocalOtaUpdater
      → u.Flash
      → LocalOtaUpdater × u.Flash
  upload request filename parts begun ended o g =
      let (o1, g1) =
        handle_upload web u request record { status = file_start; filename = filename; buf = [] }
          begun o g in
      let (o2, g2) = write_parts request parts o1 g1 in
      handle_upload web u request record { status = file_end; filename = filename; buf = [] } ended
        o2 g2

  abbrev pub is_accepted : LocalOtaUpdater → Bool
  is_accepted o = o.upload_finished_ok && not o.upload_error

  abbrev pub is_some : Option u.Flash → Bool
  is_some none = false
  is_some (some g) = true

  abbrev pub image_or : Option u.Flash → u.Flash → u.Flash
  image_or none g = g
  image_or (some g1) g = g1

  -- The state of an upload that goes on, for the rest of it that `expected` says.
  abbrev Follows : web.Request → Option u.Flash → LocalOtaUpdater × u.Flash → Type 0
  Follows request none (o, g) =
      (o.server ≡ true) × (o.upload_error ≡ true) × (o.upload_finished_ok ≡ false)
  Follows request (some g1) (o, g) =
      (o.server ≡ true)
      × (is_authorized web request o ≡ true)
      × (o.upload_authorized ≡ true)
      × (o.upload_error ≡ false)
      × (o.upload_finished_ok ≡ false)
      × (g ≡ g1)

  write_failed :
      (request : web.Request) (buf : List ℕ) (now : ℕ) (o : LocalOtaUpdater) (g : u.Flash)
      → Follows request none (o, g)
      → Follows request none (
          handle_upload web u request
            record { status = file_write; filename = []; buf = buf }
            now
            o
            g)
  unfolding handle_upload write_upload is_authorized
  write_failed request buf now o g h = ground (arith, h)

  parts_failed :
      (request : web.Request) (parts : List (List ℕ × ℕ)) (o : LocalOtaUpdater) (g : u.Flash)
      → Follows request none (o, g)
      → Follows request none (write_parts request parts o g)
  unfolding write_parts
  parts_failed request [] o g h = h
  parts_failed request ((buf, now) ∷ parts) o g h =
      let result =
        handle_upload web u request record { status = file_write; filename = []; buf = buf } now o
          g in
      parts_failed request parts result.0 result.1 (write_failed request buf now o g h)

  write_taken :
      (request : web.Request) (buf : List ℕ) (now : ℕ) (o : LocalOtaUpdater) (g g1 : u.Flash)
      → Follows request (some g1) (o, g)
      → ((u.write g1 buf).0 == length buf) ≡ true
      → Follows request (some (u.write g1 buf).1) (
          handle_upload web u request
            record { status = file_write; filename = []; buf = buf }
            now
            o
            g)
  unfolding handle_upload write_upload is_authorized
  write_taken request buf now o g g1 h k = ground (arith, h, k)

  write_short :
      (request : web.Request) (buf : List ℕ) (now : ℕ) (o : LocalOtaUpdater) (g g1 : u.Flash)
      → Follows request (some g1) (o, g)
      → ((u.write g1 buf).0 == length buf) ≡ false
      → Follows request none (
          handle_upload web u request
            record { status = file_write; filename = []; buf = buf }
            now
            o
            g)
  unfolding handle_upload write_upload is_authorized
  write_short request buf now o g g1 h k = ground (arith, h, k)

  write_parts-Follows :
      (request : web.Request) (parts : List (List ℕ × ℕ)) (o : LocalOtaUpdater) (g g1 : u.Flash)
      → Follows request (some g1) (o, g)
      → Follows request (write_all parts g1) (write_parts request parts o g)
  unfolding write_parts write_all
  write_parts-Follows request [] o g g1 h = h
  write_parts-Follows request ((buf, now) ∷ parts) o g g1 h =
      let (o', g') =
        handle_upload web u request record { status = file_write; filename = []; buf = buf } now o
          g in
      let rest = λ (taken : Bool).
        Follows request (if taken then write_all parts (u.write g1 buf).1 else none)
          (write_parts request parts o' g') in
      elim (Bool-cases ((u.write g1 buf).0 == length buf))
        as (λ _. rest ((u.write g1 buf).0 == length buf)) [
          | inl taken ↦ subst rest (sym taken) (
              write_parts-Follows request parts o' g' (u.write g1 buf).1
                (write_taken request buf now o g g1 h taken))
          | inr short ↦
              subst rest (sym short)
                (parts_failed request parts o' g' (write_short request buf now o g g1 h short))
        ]

  end_upload-confirm :
      (request : web.Request) (filename : List ℕ) (now : ℕ) (expected : Option u.Flash)
      (o : LocalOtaUpdater) (g : u.Flash)
      → Follows request expected (o, g)
      → let (o', g') =
          handle_upload web u request
            record { status = file_end; filename = filename; buf = [] }
            now
            o
            g in
        (is_accepted o' ≡ is_some (confirm expected))
        × (o'.status.last_update_ok ≡ is_accepted o')
        × (o'.status.in_progress ≡ false)
        × (g' ≡ image_or (confirm expected) g')
  unfolding handle_upload end_upload is_authorized confirm
  end_upload-confirm request filename now none o g h = ground (arith, h)
  end_upload-confirm request filename now (some g1) o g h = ground (arith, h)

  start_upload-Follows :
      (request : web.Request) (filename : List ℕ) (now : ℕ) (o : LocalOtaUpdater) (g : u.Flash)
      → o.server ≡ true
      → Follows request (if is_authorized web request o then opened filename g else none) (
          handle_upload web u request
            record { status = file_start; filename = filename; buf = [] }
            now
            o
            g)
  unfolding handle_upload start_upload is_authorized opened
  start_upload-Follows request filename now o g h = ground (arith, h)

  write_from-Follows :
      (request : web.Request) (parts : List (List ℕ × ℕ)) (expected : Option u.Flash)
      (o : LocalOtaUpdater) (g : u.Flash)
      → Follows request expected (o, g)
      → Follows request (write_from parts expected) (write_parts request parts o g)
  unfolding write_from
  write_from-Follows request parts none o g h = parts_failed request parts o g h
  write_from-Follows request parts (some g1) o g h = write_parts-Follows request parts o g g1 h

  -- Once the page is set up, an upload is accepted exactly if its request has the administrator's credentials,
  -- the file name ends in ".bin", the update starts, every part is written in full and the image is confirmed;
  -- the flash is then the one that these calls leave, whatever the updater's state was before. The status
  -- reports the acceptance and no longer an upload in progress.
  pub upload_installs :
      (request : web.Request) (filename : List ℕ) (parts : List (List ℕ × ℕ)) (begun ended : ℕ)
      (o : LocalOtaUpdater) (g : u.Flash)
      → o.server ≡ true
      → let (o', g') = upload request filename parts begun ended o g in
        let promised = install (is_authorized web request o) filename parts g in
        (is_accepted o' ≡ is_some promised)
        × (o'.status.last_update_ok ≡ is_accepted o')
        × (o'.status.in_progress ≡ false)
        × (g' ≡ image_or promised g')
  unfolding upload install
  upload_installs request filename parts begun ended o g h =
      let (o1, g1) =
        handle_upload web u request record { status = file_start; filename = filename; buf = [] }
          begun o g in
      let (o2, g2) = write_parts request parts o1 g1 in
      let first = if is_authorized web request o then opened filename g else none in
      end_upload-confirm request filename ended (write_from parts first) o2 g2 (
        write_from-Follows request parts first o1 g1
          (start_upload-Follows request filename begun o g h))
