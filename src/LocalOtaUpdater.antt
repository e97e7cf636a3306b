-- ===== src/LocalOtaUpdater.antt =====
-- web/LocalOTAUpdater.h and .cpp: the upload of a firmware by the local web page. The lines for the serial
-- log are left out.
pub mod Install
pub mod Restart
mod Tests
use multisensory_device.Base.{
  ℕ, Bool, true, false, not, ◌&&◌, ◌||◌, Option, none, some, List, [], ◌∷◌, leb, ◌==◌,
  if◌then◌else◌, length, add32, same_text,
}
use multisensory_device.Base.Text.{codes, starts_with}
use multisensory_device.Backoff.{reached}
use multisensory_device.RuntimeStatus.{OtaStatus}

-- What is used of the Update library, which is not part of the repository: a write says how many bytes it
-- took.
pub record Update : Type 1 where
  pub Flash : Type 0
  pub begin_update : Flash → Bool × Flash
  pub write : Flash → List ℕ → ℕ × Flash
  pub finish : Flash → Bool × Flash
  pub is_running : Flash → Bool
  pub abort : Flash → Flash

-- What is used of the WebServer library, which is not part of the repository either: the request that is
-- being handled has the credentials or has them not.
pub record WebServer : Type 1 where
  pub Request : Type 0
  pub authenticates : Request → List ℕ → List ℕ → Bool

pub data UploadStatus : Type 0 where
  file_start : UploadStatus
  file_write : UploadStatus
  file_end : UploadStatus
  file_aborted : UploadStatus

pub record HttpUpload : Type 0 where
  pub status : UploadStatus
  pub filename : List ℕ
  pub buf : List ℕ

-- The answers with codes 503, 401, 200 and 400.
pub data Response : Type 0 where
  ota_disabled : Response
  challenge : Response
  restarting : Response
  update_failed : Response

-- `server` says that the pointer to the server is set.
pub record LocalOtaUpdater : Type 0 where
  pub server : Bool
  pub username : List ℕ
  pub password : List ℕ
  pub status : OtaStatus
  pub configured : Bool
  pub upload_authorized : Bool
  pub upload_error : Bool
  pub upload_finished_ok : Bool
  pub restart_pending : Bool
  pub restart_at_ms : ℕ

abbrev has_real_value : List ℕ → Bool
has_real_value value = not (length value == 0) && not (starts_with (codes "YOUR_") value)

abbrev pub restart_delay_ms : ℕ
restart_delay_ms = 750

-- String::endsWith
unfoldable pub ends_with : List ℕ → List ℕ → Bool
ends_with suffix [] = same_text [] suffix
ends_with suffix (c ∷ s) = same_text (c ∷ s) suffix || ends_with suffix s

unfoldable pub begin : List ℕ → List ℕ → LocalOtaUpdater → Bool × LocalOtaUpdater
begin username password o =
    let configured = has_real_value username && has_real_value password in
    (
      configured,
      record o {
        server = true;
        username = username;
        password = password;
        configured = configured;
        status = record o.status { enabled = configured };
      },
    )

unfoldable pub update : ℕ → LocalOtaUpdater → Bool
update now o = o.restart_pending && reached now o.restart_at_ms

module _ (web : WebServer) where
  -- The result of `authenticate`, and the answer that it sends with `send_challenge`.
  unfoldable pub is_authorized : web.Request → LocalOtaUpdater → Bool
  is_authorized request o =
      o.configured && o.server && web.authenticates request o.username o.password

  unfoldable pub refusal : web.Request → LocalOtaUpdater → Option Response
  refusal request o =
      if not o.server
      then none
      else if not o.configured
      then some ota_disabled
      else if web.authenticates request o.username o.password
      then none
      else some challenge

  unfoldable pub finish_request :
      web.Request → ℕ → LocalOtaUpdater → LocalOtaUpdater × Option Response
  finish_request request now o =
      if not (is_authorized request o)
      then (o, refusal request o)
      else if o.upload_finished_ok && not o.upload_error
      then (
        record o { restart_pending = true; restart_at_ms = add32 now restart_delay_ms },
        some restarting,
      )
      else (o, some update_failed)

  module _ (u : Update) where
    abbrev stopped : u.Flash → u.Flash
    stopped g = if u.is_running g then u.abort g else g

    unfoldable pub start_upload :
        web.Request → List ℕ → ℕ → LocalOtaUpdater → u.Flash → LocalOtaUpdater × u.Flash
    start_upload request filename now o g =
        let authorized = is_authorized request o in
        let error = not authorized || not (ends_with (codes ".bin") filename) in
        let (started, g1) = u.begin_update g in
        let o1 = record o {
          upload_authorized = authorized;
          upload_error = error;
          upload_finished_ok = false;
          status = record o.status {
            in_progress = authorized && not error;
            last_update_ok = false;
            last_activity_ms = now;
          };
        } in
        if error then (o1, g) else (record o1 { upload_error = not started }, g1)

    unfoldable pub write_upload :
        web.Request → List ℕ → ℕ → LocalOtaUpdater → u.Flash → LocalOtaUpdater × u.Flash
    write_upload request buf now o g =
        let authorized = o.upload_authorized && is_authorized request o in
        let (count, g1) = u.write g buf in
        let active = record o {
          upload_authorized = authorized;
          status = record o.status { last_activity_ms = now };
        } in
        if not authorized || o.upload_error
        then (
          record active {
            upload_error = true;
            status = record active.status { in_progress = false };
          },
          stopped g,
        )
        else if count == length buf
        then (active, g1)
        else (record active { upload_error = true }, g1)

    unfoldable pub end_upload :
        web.Request → ℕ → LocalOtaUpdater → u.Flash → LocalOtaUpdater × u.Flash
    end_upload request now o g =
        let authorized = o.upload_authorized && is_authorized request o in
        let (ok, g1) = u.finish g in
        let ended = λ (finished : Bool). record o.status {
          in_progress = false;
          last_update_ok = finished;
          last_activity_ms = now;
        } in
        if authorized && not o.upload_error
        then (
          record o {
            upload_authorized = authorized;
            upload_finished_ok = ok;
            upload_error = not ok;
            status = ended ok;
          },
          g1,
        )
        else (
          record o { upload_authorized = authorized; status = ended o.upload_finished_ok },
          stopped g,
        )

    unfoldable pub abort_upload : ℕ → LocalOtaUpdater → u.Flash → LocalOtaUpdater × u.Flash
    abort_upload now o g = (
      record o {
        upload_error = true;
        upload_finished_ok = false;
        status = record o.status {
          in_progress = false;
          last_update_ok = false;
          last_activity_ms = now;
        };
      },
      stopped g,
    )

    abbrev step :
        UploadStatus
        → web.Request
        → HttpUpload
        → ℕ
        → LocalOtaUpdater
        → u.Flash
        → LocalOtaUpdater × u.Flash
    step file_start request upload now o g = start_upload request upload.filename now o g
    step file_write request upload now o g = write_upload request upload.buf now o g
    step file_end request upload now o g = end_upload request now o g
    step file_aborted request upload now o g = abort_upload now o g

    unfoldable pub handle_upload :
        web.Request → HttpUpload → ℕ → LocalOtaUpdater → u.Flash → LocalOtaUpdater × u.Flash
    handle_upload request upload now o g =
        if not o.server then (o, g) else step upload.status request upload now o g
