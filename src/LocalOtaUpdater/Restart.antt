-- ===== src/LocalOtaUpdater/Restart.antt =====
-- Who can change the flash, and when the device restarts.
use multisensory_device.Base.{
  ℕ, ◌<◌, ◌≡◌, ◌∙◌, ap, refl, true, false, not, some, List, [], ◌∷◌, arith, if◌then◌else◌, u32_mod,
  add32, ltb, All,
}
use multisensory_device.Backoff.{reached-not}
use multisensory_device.LocalOtaUpdater.{
  Update, WebServer, HttpUpload, UploadStatus, file_start, file_write, file_end, file_aborted,
  LocalOtaUpdater, restarting, update_failed, is_authorized, start_upload, write_upload, end_upload,
  abort_upload, handle_upload, finish_request, update,
}
use multisensory_device.LocalOtaUpdater.Install.{
  upload, write_parts, install, is_accepted, is_some, upload_installs,
}

-- A call of one of the two handlers, with the clock.
pub data Call (web : WebServer) : Type 0 where
  part : web.Request → HttpUpload → ℕ → Call web
  finished : web.Request → ℕ → Call web

module _ (web : WebServer) (u : Update) where
  unfoldable pub run : List (Call web) → LocalOtaUpdater → u.Flash → LocalOtaUpdater × u.Flash
  run [] o g = (o, g)
  run (part request piece now ∷ calls) o g =
      let (o1, g1) = handle_upload web u request piece now o g in run calls o1 g1
  run (finished request now ∷ calls) o g =
      let (o1, answer) = finish_request web request now o in run calls o1 g

  abbrev request_of : Call web → web.Request
  request_of (part request piece now) = request
  request_of (finished request now) = request

  -- A call of somebody without the credentials.
  abbrev pub IsStranger : List ℕ → List ℕ → Call web → Type 0
  IsStranger username password call = web.authenticates (request_of call) username password ≡ false

  abbrev Kept : LocalOtaUpdater → u.Flash → LocalOtaUpdater × u.Flash → Type 0
  Kept o g (o', g') =
      (g' ≡ g)
      × (o'.restart_pending ≡ o.restart_pending)
      × (o'.restart_at_ms ≡ o.restart_at_ms)
      × (o'.username ≡ o.username)
      × (o'.password ≡ o.password)

  part-Kept :
      (request : web.Request) (status : UploadStatus) (filename buf : List ℕ) (now : ℕ)
      (o : LocalOtaUpdater) (g : u.Flash)
      → u.is_running g ≡ false
      → web.authenticates request o.username o.password ≡ false
      → Kept o g (
          handle_upload web u request
            record { status = status; filename = filename; buf = buf }
            now
            o
            g)
  unfolding handle_upload start_upload write_upload end_upload abort_upload is_authorized
  part-Kept request file_start filename buf now o g h k = ground (arith, h, k)
  part-Kept request file_write filename buf now o g h k = ground (arith, h, k)
  part-Kept request file_end filename buf now o g h k = ground (arith, h, k)
  part-Kept request file_aborted filename buf now o g h k = ground (arith, h, k)

  finish-Kept :
      (request : web.Request) (now : ℕ) (o : LocalOtaUpdater)
      → web.authenticates request o.username o.password ≡ false
      → (finish_request web request now o).0 ≡ o
  unfolding finish_request is_authorized
  finish-Kept request now o h = ground (arith, h)

  run-Kept :
      (username password : List ℕ) (calls : List (Call web)) (o : LocalOtaUpdater) (g : u.Flash)
      → u.is_running g ≡ false
      → o.username ≡ username
      → o.password ≡ password
      → All (IsStranger username password) calls
      → Kept o g (run calls o g)
  unfolding run
  run-Kept username password [] o g idle hu hp h = (refl, refl, refl, refl, refl)
  run-Kept username password (part request piece now ∷ calls) o g idle hu hp (h, hs) =
      let (o1, g1) = handle_upload web u request piece now o g in
      let kept =
        part-Kept request piece.status piece.filename piece.buf now o g idle
          (ground (arith, h, hu, hp)) in
      let rest =
        run-Kept username password calls o1 g1 (ground (arith, kept, idle))
          (ground (arith, kept, hu)) (ground (arith, kept, hp)) hs in
      ground (arith, kept, rest)
  run-Kept username password (finished request now ∷ calls) o g idle hu hp (h, hs) =
      let (o1, answer) = finish_request web request now o in
      let kept = finish-Kept request now o (ground (arith, h, hu, hp)) in
      let rest =
        run-Kept username password calls o1 g (idle) (ground (arith, kept, hu))
          (ground (arith, kept, hp)) hs in
      ground (arith, kept, rest)

  -- While no update runs, no sequence of calls by requests without the administrator's credentials changes the
  -- flash or makes the device restart, whatever the calls upload and in whatever order they come.
  pub strangers_change_nothing :
      (calls : List (Call web)) (o : LocalOtaUpdater) (g : u.Flash) (now : ℕ)
      → u.is_running g ≡ false
      → All (IsStranger o.username o.password) calls
      → ((run calls o g).1 ≡ g) × (update now (run calls o g).0 ≡ update now o)
  unfolding update
  strangers_change_nothing calls o g now idle h =
      let kept = run-Kept o.username o.password calls o g idle refl refl h in ground (arith, kept)

  -- What an upload leaves alone.
  abbrev Settled : LocalOtaUpdater → LocalOtaUpdater → Type 0
  Settled o o' =
      (o'.server ≡ o.server)
      × (o'.configured ≡ o.configured)
      × (o'.username ≡ o.username)
      × (o'.password ≡ o.password)
      × (o'.restart_pending ≡ o.restart_pending)
      × (o'.restart_at_ms ≡ o.restart_at_ms)

  part-Settled :
      (request : web.Request) (status : UploadStatus) (filename buf : List ℕ) (now : ℕ)
      (o : LocalOtaUpdater) (g : u.Flash)
      → Settled o
          (handle_upload web u request
            record { status = status; filename = filename; buf = buf }
            now
            o
            g).0
  unfolding handle_upload start_upload write_upload end_upload abort_upload
  part-Settled request file_start filename buf now o g = ground arith
  part-Settled request file_write filename buf now o g = ground arith
  part-Settled request file_end filename buf now o g = ground arith
  part-Settled request file_aborted filename buf now o g = ground arith

  parts-Settled :
      (request : web.Request) (parts : List (List ℕ × ℕ)) (o : LocalOtaUpdater) (g : u.Flash)
      → Settled o (write_parts web u request parts o g).0
  unfolding write_parts
  parts-Settled request [] o g = (refl, refl, refl, refl, refl, refl)
  parts-Settled request ((buf, now) ∷ parts) o g =
      let (o1, g1) =
        handle_upload web u request record { status = file_write; filename = []; buf = buf } now o
          g in
      let first = part-Settled request file_write [] buf now o g in
      let rest = parts-Settled request parts o1 g1 in ground (arith, first, rest)

  upload-Settled :
      (request : web.Request) (filename : List ℕ) (parts : List (List ℕ × ℕ)) (begun ended : ℕ)
      (o : LocalOtaUpdater) (g : u.Flash)
      → Settled o (upload web u request filename parts begun ended o g).0
  unfolding upload
  upload-Settled request filename parts begun ended o g =
      let (o1, g1) =
        handle_upload web u request record { status = file_start; filename = filename; buf = [] }
          begun o g in
      let (o2, g2) = write_parts web u request parts o1 g1 in
      let first = part-Settled request file_start filename [] begun o g in
      let middle = parts-Settled request parts o1 g1 in
      let last = part-Settled request file_end filename [] ended o2 g2 in
      ground (arith, first, middle, last)

  -- The answer to the administrator.
  finish_answer :
      (request : web.Request) (now later : ℕ) (o : LocalOtaUpdater)
      → is_authorized web request o ≡ true
      → now < u32_mod
      → later < 2147483648
      → ((finish_request web request now o).1
          ≡ some (if is_accepted web u o then restarting else update_failed))
        × (update (add32 now later) (finish_request web request now o).0
            ≡ (if is_accepted web u o then not (ltb later 750) else update (add32 now later) o))
  unfolding finish_request update
  finish_answer request now later o h k l =
      ground (arith, h, reached-not now 750 later k (omega arith) l)

  -- After a whole upload by the administrator, the request is answered with "restarting" exactly if the image
  -- was installed; then the device restarts at every tick from 750 ms after the answer on, for the next
  -- 2 ^ 31 milliseconds, also where the clock wraps around, and at no tick before. Otherwise the answer is
  -- "update failed" and the upload changes no restart.
  pub accepted_upload_restarts :
      (request : web.Request) (filename : List ℕ) (parts : List (List ℕ × ℕ))
      (begun ended now later : ℕ) (o : LocalOtaUpdater) (g : u.Flash)
      → is_authorized web request o ≡ true
      → now < u32_mod
      → later < 2147483648
      → let o1 = (upload web u request filename parts begun ended o g).0 in
        let installed = is_some web u (install web u true filename parts g) in
        let (o2, answer) = finish_request web request now o1 in
        (answer ≡ some (if installed then restarting else update_failed))
        × (update (add32 now later) o2
            ≡ (if installed then not (ltb later 750) else update (add32 now later) o))
  unfolding is_authorized update
  accepted_upload_restarts request filename parts begun ended now later o g h k l =
      let (o1, g1) = upload web u request filename parts begun ended o g in
      let kept = upload-Settled request filename parts begun ended o g in
      let (same, _, _, _) =
        upload_installs web u request filename parts begun ended o g (ground (arith, h)) in
      let promised = same ∙ ap (λ b. is_some web u (install web u b filename parts g)) h in
      let (answer, ticks) = finish_answer request now later o1 (ground (arith, kept, h)) k l in
      (
        answer ∙ ap (λ b. some (if b then restarting else update_failed)) promised,
        ticks
            ∙ ap (λ b. if b then not (ltb later 750) else update (add32 now later) o1) promised
            ∙ ap
                (λ b.
                  if is_some web u (install web u true filename parts g)
                  then not (ltb later 750)
                  else b)
                (ground (arith, kept)),
      )
