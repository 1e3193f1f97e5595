-- ===== src/Scanner/Dialog.antt =====
-- The dialog that scans one image: frontend/src/features/scanner/components/scan-dialog.tsx, with ScanJob of
-- features/scanner/types.ts. The replies of the server and the jobs that the query loads are inputs.
pub mod Phases
mod Tests
use vps_monitor.Common.{
  ℕ, Text, text_eq, Option, none, some, List, [], ◌∷◌, ◌++◌, Bool, true, false, not, ◌&&◌, ◌||◌,
  if◌then◌else◌,
}
use vps_monitor.Common.Dict.{get, set}
use vps_monitor.Scanner.{
  ScanJobStatus, pending, pulling_scanner, scanning, complete, failed, cancelled, expired,
}
use vps_monitor.Scanner.Markdown.{ScanResult, ScannerType}

pub record ScanJob : Type 0 where
  pub id : Text
  pub image_ref : Text
  pub host : Text
  pub scanner : ScannerType
  pub status : ScanJobStatus
  pub progress : Option Text
  pub result : Option ScanResult
  pub created_at : ℕ
  pub error : Option Text

pub data Effect : Type 0 where
  start_sent : ScannerType → Effect
  cancel_sent : Text → Effect

-- `is_pending` is that the request of the scan has no reply yet, and `jobs` is what the query has loaded.
pub record ScanDialog : Type 0 where
  pub is_open : Bool
  pub scanner : ScannerType
  pub job_id : Option Text
  pub started : Bool
  pub rescan_blocked : Bool
  pub is_pending : Bool
  pub jobs : List (Text × ScanJob)
  pub effects : List Effect

abbrev pub initial : ScannerType → List (Text × ScanJob) → ScanDialog
initial scanner jobs = record {
  is_open = false;
  scanner = scanner;
  job_id = none;
  started = false;
  rescan_blocked = false;
  is_pending = false;
  jobs = jobs;
  effects = [];
}

abbrev pub job_of : Option Text → List (Text × ScanJob) → Option ScanJob
job_of none jobs = none
job_of (some id) jobs = get id jobs

abbrev pub is_scanning : ScanJobStatus → Bool
is_scanning complete = false
is_scanning failed = false
is_scanning cancelled = false
is_scanning _ = true

abbrev pub is_failed : ScanJobStatus → Bool
is_failed failed = true
is_failed cancelled = true
is_failed _ = false

pub data Panel : Type 0 where
  blocked_panel start_panel scanning_panel failed_panel empty_panel : Panel
  results_panel : ScanResult → Panel

abbrev pub results_of : Option ScanResult → Panel
results_of none = empty_panel
results_of (some r) = results_panel r

abbrev pub job_panel : Option ScanJob → Panel
job_panel none = empty_panel
job_panel (some job) =
    if is_scanning job.status
    then scanning_panel
    else if is_failed job.status
    then failed_panel
    else results_of job.result

-- What the dialog shows.
unfoldable pub panel : ScanDialog → Panel
panel s =
    if s.rescan_blocked
    then blocked_panel
    else if not s.started
    then start_panel
    else job_panel (job_of s.job_id s.jobs)

abbrev pub shows_start : Panel → Bool
shows_start start_panel = true
shows_start _ = false

abbrev pub shows_scanning : Panel → Bool
shows_scanning scanning_panel = true
shows_scanning _ = false

abbrev pub shows_failed : Panel → Bool
shows_failed failed_panel = true
shows_failed _ = false

abbrev pub handle_cancel : Option Text → ScanDialog → ScanDialog
handle_cancel none s = s
handle_cancel (some id) s = record s { effects = s.effects ++ cancel_sent id ∷ [] }

pub data Input : Type 0 where
  opened closed : Input
  scanner_chosen : ScannerType → Input
  start_pressed cancel_pressed retry_pressed : Input
  -- The reply to the request of a scan: a job, a RescanBlockedError, another error.
  start_succeeded : Text → Input
  start_refused start_failed : Input
  job_loaded : Text → ScanJob → Input

-- A button works where it is shown, and a reply comes to a request.
unfoldable pub handle : Input → ScanDialog → ScanDialog
unfolding panel
handle opened s = record s { is_open = true }
handle closed s =
    if s.is_open
    then record s { is_open = false; job_id = none; started = false; rescan_blocked = false }
    else s
handle (scanner_chosen scanner) s =
    if s.is_open && shows_start (panel s) then record s { scanner = scanner } else s
handle start_pressed s =
    if s.is_open && shows_start (panel s) && not s.is_pending
    then record s { is_pending = true; effects = s.effects ++ start_sent s.scanner ∷ [] }
    else s
handle cancel_pressed s =
    if s.is_open && shows_scanning (panel s) then handle_cancel s.job_id s else s
handle retry_pressed s =
    if s.is_open && shows_failed (panel s) then record s { started = false; job_id = none } else s
handle (start_succeeded id) s =
    if s.is_pending then record s { is_pending = false; job_id = some id; started = true } else s
handle start_refused s =
    if s.is_pending then record s { is_pending = false; rescan_blocked = true } else s
handle start_failed s = if s.is_pending then record s { is_pending = false } else s
handle (job_loaded id job) s = record s { jobs = set id job s.jobs }
