-- ===== src/LocalOtaUpdater/Tests.antt =====
-- The theorems on uploads, over a flash that is the list of its bytes and takes everything, and a server whose
-- request 1 has the credentials.
use multisensory_device.Base.{
  ℕ, ◌≡◌, refl, true, false, not, some, List, [], ◌∷◌, ◌++◌, arith, add32, ltb, ◌==◌, if◌then◌else◌,
  length,
}
use multisensory_device.Base.Text.{codes}
use multisensory_device.LocalOtaUpdater.{
  Update, WebServer, LocalOtaUpdater, file_start, restarting, update_failed, is_authorized,
  finish_request, update,
}
use multisensory_device.LocalOtaUpdater.Install.{
  upload, install, is_accepted, is_some, image_or, upload_installs,
}
use multisensory_device.LocalOtaUpdater.Restart.{
  Call, part, finished, run, strangers_change_nothing, accepted_upload_restarts,
}

abbrev flash : Update
flash = record {
  Flash = List ℕ;
  begin_update = λ g. (true, []);
  write = λ g buf. (length buf, g ++ buf);
  finish = λ g. (true, g);
  is_running = λ g. false;
  abort = λ g. [];
}

abbrev web : WebServer
web = record { Request = ℕ; authenticates = λ request username password. request == 1 }

abbrev set_up : LocalOtaUpdater
set_up = record {
  server = true;
  username = codes "admin";
  password = codes "secret";
  status = record {
    enabled = true;
    in_progress = false;
    last_update_ok = false;
    last_activity_ms = 0;
  };
  configured = true;
  upload_authorized = false;
  upload_error = false;
  upload_finished_ok = false;
  restart_pending = false;
  restart_at_ms = 0;
}

abbrev image : List (List ℕ × ℕ)
image = (10 ∷ 20 ∷ [], 1000) ∷ (30 ∷ [], 1100) ∷ []

authorized_run : is_authorized web 1 set_up ≡ true
unfolding is_authorized
authorized_run = refl

upload_installs_example :
    let (o', g') = upload web flash 1 (codes "firmware.bin") image 900 1200 set_up (5 ∷ []) in
    let promised =
      install web flash (is_authorized web 1 set_up) (codes "firmware.bin") image (5 ∷ []) in
    (is_accepted web flash o' ≡ is_some web flash promised)
    × (o'.status.last_update_ok ≡ is_accepted web flash o')
    × (o'.status.in_progress ≡ false)
    × (g' ≡ image_or web flash promised g')
upload_installs_example =
    upload_installs web flash 1 (codes "firmware.bin") image 900 1200 set_up (5 ∷ []) refl

abbrev calls : List (Call web)
calls =
    part 2 (record { status = file_start; filename = codes "firmware.bin"; buf = [] }) 900
    ∷ finished 2 1000
    ∷ []

strangers_change_nothing_example :
    ((run web flash calls set_up (5 ∷ [])).1 ≡ 5 ∷ [])
    × (update 2000 (run web flash calls set_up (5 ∷ [])).0 ≡ update 2000 set_up)
strangers_change_nothing_example =
    strangers_change_nothing web flash calls set_up (5 ∷ []) 2000 refl (refl, (refl, tt))

accepted_upload_restarts_example :
    let o1 = (upload web flash 1 (codes "firmware.bin") image 900 1200 set_up (5 ∷ [])).0 in
    let installed =
      is_some web flash (install web flash true (codes "firmware.bin") image (5 ∷ [])) in
    let (o2, answer) = finish_request web 1 1300 o1 in
    (answer ≡ some (if installed then restarting else update_failed))
    × (update (add32 1300 800) o2
        ≡ (if installed then not (ltb 800 750) else update (add32 1300 800) set_up))
accepted_upload_restarts_example =
    accepted_upload_restarts web flash 1 (codes "firmware.bin") image 900 1200 1300 800 set_up
      (5 ∷ []) authorized_run (omega arith) (omega arith)
