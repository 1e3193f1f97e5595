-- ===== src/Scanner/Dialog/Phases.antt =====
-- The abstract machine of the dialog that scans one image:
-- frontend/src/features/scanner/components/scan-dialog.tsx.
use vps_monitor.Common.{
  Text, Option, none, some, List, [], ◌∷◌, ◌++◌, Bool, true, false, ◌&&◌, if◌then◌else◌, ◌≡◌, refl,
  ap, ◌∙◌, is_some,
}
use vps_monitor.Common.Dict.{get, set}
use vps_monitor.Scanner.{
  ScanJobStatus, pending, pulling_scanner, scanning, complete, failed, cancelled, expired,
}
use vps_monitor.Scanner.Markdown.{ScannerType, ScanResult}
use vps_monitor.Scanner.Dialog.{
  ScanJob, Effect, start_sent, cancel_sent, results_of, job_panel, ScanDialog, initial, panel,
  shows_start, shows_failed, shows_scanning, handle_cancel, Input, opened, closed, scanner_chosen,
  start_pressed, cancel_pressed, retry_pressed, start_succeeded, start_refused, start_failed,
  job_loaded, handle,
}

-- Nothing asked for, a request without a reply, a request that was refused, or a job.
pub data Phase : Type 0 where
  idle requesting blocked : Phase
  running : Text → Phase

-- `sent` is what was asked of the server.
pub record Machine : Type 0 where
  pub phase : Phase
  pub is_open : Bool
  pub scanner : ScannerType
  pub jobs : List (Text × ScanJob)
  pub sent : List Effect

abbrev pub underway : ScanJobStatus → Bool
underway pending = true
underway pulling_scanner = true
underway scanning = true
underway expired = true
underway complete = false
underway failed = false
underway cancelled = false

-- The job is loaded, and has neither ended nor been given up.
abbrev pub is_underway : Option ScanJob → Bool
is_underway none = false
is_underway (some job) = underway job.status

abbrev pub is_lost : ScanJobStatus → Bool
is_lost failed = true
is_lost cancelled = true
is_lost pending = false
is_lost pulling_scanner = false
is_lost scanning = false
is_lost expired = false
is_lost complete = false

-- The job is loaded, and has ended without a result.
abbrev pub has_failed : Option ScanJob → Bool
has_failed none = false
has_failed (some job) = is_lost job.status

-- Closing leaves everything but a request that is out.
abbrev pub after_close : Phase → Phase
after_close requesting = requesting
after_close _ = idle

abbrev pub start : Machine → Machine
start m = elim m.phase [
  | idle ↦ record m { phase = requesting; sent = m.sent ++ start_sent m.scanner ∷ [] }
  | requesting ↦ m
  | blocked ↦ m
  | running id ↦ m
]

abbrev pub choose : ScannerType → Machine → Machine
choose scanner m = elim m.phase [
  | idle ↦ record m { scanner = scanner }
  | requesting ↦ record m { scanner = scanner }
  | blocked ↦ m
  | running id ↦ m
]

abbrev pub cancel : Machine → Machine
cancel m = elim m.phase [
  | idle ↦ m
  | requesting ↦ m
  | blocked ↦ m
  | running id ↦
      if is_underway (get id m.jobs) then record m { sent = m.sent ++ cancel_sent id ∷ [] } else m
]

abbrev pub retry : Machine → Machine
retry m = elim m.phase [
  | idle ↦ m
  | requesting ↦ m
  | blocked ↦ m
  | running id ↦ if has_failed (get id m.jobs) then record m { phase = idle } else m
]

-- A reply to the request leads to the phase.
abbrev pub replied : Phase → Phase → Phase
replied p requesting = p
replied p idle = idle
replied p blocked = blocked
replied p (running id) = running id

-- The gestures work while the dialog is open.
unfoldable pub next : Input → Machine → Machine
next opened m = record m { is_open = true }
next closed m = if m.is_open then record m { is_open = false; phase = after_close m.phase } else m
next (scanner_chosen scanner) m = if m.is_open then choose scanner m else m
next start_pressed m = if m.is_open then start m else m
next cancel_pressed m = if m.is_open then cancel m else m
next retry_pressed m = if m.is_open then retry m else m
next (start_succeeded id) m = record m { phase = replied (running id) m.phase }
next start_refused m = record m { phase = replied blocked m.phase }
next start_failed m = record m { phase = replied idle m.phase }
next (job_loaded id job) m = record m { jobs = set id job m.jobs }

abbrev is_requesting : Phase → Bool
is_requesting requesting = true
is_requesting _ = false

abbrev is_blocked : Phase → Bool
is_blocked blocked = true
is_blocked _ = false

abbrev job_id_of : Phase → Option Text
job_id_of (running id) = some id
job_id_of _ = none

-- The dialog of a machine: its flags and its job are those of the phase.
abbrev pub dialog_of : Machine → ScanDialog
dialog_of m = record {
  is_open = m.is_open;
  scanner = m.scanner;
  job_id = job_id_of m.phase;
  started = is_some (job_id_of m.phase);
  rescan_blocked = is_blocked m.phase;
  is_pending = is_requesting m.phase;
  jobs = m.jobs;
  effects = m.sent;
}

abbrev pub at_first : ScannerType → List (Text × ScanJob) → Machine
at_first scanner jobs = record {
  phase = idle;
  is_open = false;
  scanner = scanner;
  jobs = jobs;
  sent = [];
}

dialog_of-if :
    (b : Bool) (m n : Machine)
    → (if b then dialog_of m else dialog_of n) ≡ dialog_of (if b then m else n)
dialog_of-if true m n = refl
dialog_of-if false m n = refl

results_hide :
    (o : Option ScanResult)
    → (shows_start (results_of o) ≡ false)
      × ((shows_scanning (results_of o) ≡ false) × (shows_failed (results_of o) ≡ false))
results_hide none = (refl, (refl, refl))
results_hide (some r) = (refl, (refl, refl))

job_lem :
    (v : ScanJobStatus) (job : ScanJob)
    → (shows_start (job_panel (some (record job { status = v }))) ≡ false)
      × ((shows_scanning (job_panel (some (record job { status = v }))) ≡ underway v)
          × (shows_failed (job_panel (some (record job { status = v }))) ≡ is_lost v))
job_lem pending job = (refl, (refl, refl))
job_lem pulling_scanner job = (refl, (refl, refl))
job_lem scanning job = (refl, (refl, refl))
job_lem expired job = (refl, (refl, refl))
job_lem failed job = (refl, (refl, refl))
job_lem cancelled job = (refl, (refl, refl))
job_lem complete job = results_hide job.result

job_panel_lem :
    (o : Option ScanJob)
    → (shows_start (job_panel o) ≡ false)
      × ((shows_scanning (job_panel o) ≡ is_underway o)
          × (shows_failed (job_panel o) ≡ has_failed o))
job_panel_lem none = (refl, (refl, refl))
job_panel_lem (some job) = job_lem job.status job

-- A machine in the phase, open or not.
abbrev in_phase : Phase → Bool → Machine → Machine
in_phase p o m = record m { phase = p; is_open = o }

-- An input does to the dialog of a machine what it does to the machine.
abbrev Agrees : Input → Machine → Type 0
Agrees i m = handle i (dialog_of m) ≡ dialog_of (next i m)

closed-Agrees : (p : Phase) (o : Bool) (m : Machine) → Agrees closed (in_phase p o m)
unfolding handle next
closed-Agrees p false m = refl
closed-Agrees idle true m = refl
closed-Agrees requesting true m = refl
closed-Agrees blocked true m = refl
closed-Agrees (running id) true m = refl

chosen-Agrees :
    (scanner : ScannerType) (p : Phase) (o : Bool) (m : Machine)
    → Agrees (scanner_chosen scanner) (in_phase p o m)
unfolding handle next panel
chosen-Agrees scanner p false m = refl
chosen-Agrees scanner idle true m = refl
chosen-Agrees scanner requesting true m = refl
chosen-Agrees scanner blocked true m = refl
chosen-Agrees scanner (running id) true m =
    ap
      (λ b.
        if b
        then record (dialog_of (in_phase (running id) true m)) { scanner = scanner }
        else dialog_of (in_phase (running id) true m))
      (job_panel_lem (get id m.jobs)).0

started-Agrees : (p : Phase) (o : Bool) (m : Machine) → Agrees start_pressed (in_phase p o m)
unfolding handle next panel
started-Agrees p false m = refl
started-Agrees idle true m = refl
started-Agrees requesting true m = refl
started-Agrees blocked true m = refl
started-Agrees (running id) true m =
    ap
      (λ b.
        if b && true
        then record (dialog_of (in_phase (running id) true m)) {
          is_pending = true;
          effects = m.sent ++ start_sent m.scanner ∷ [];
        }
        else dialog_of (in_phase (running id) true m))
      (job_panel_lem (get id m.jobs)).0

cancelled-Agrees : (p : Phase) (o : Bool) (m : Machine) → Agrees cancel_pressed (in_phase p o m)
unfolding handle next panel
cancelled-Agrees p false m = refl
cancelled-Agrees idle true m = refl
cancelled-Agrees requesting true m = refl
cancelled-Agrees blocked true m = refl
cancelled-Agrees (running id) true m =
    let n = in_phase (running id) true m in
    ap (λ b. if b then handle_cancel (some id) (dialog_of n) else dialog_of n)
      (job_panel_lem (get id m.jobs)).1.0
    ∙ dialog_of-if (is_underway (get id m.jobs)) (record n { sent = m.sent ++ cancel_sent id ∷ [] })
        n

retried-Agrees : (p : Phase) (o : Bool) (m : Machine) → Agrees retry_pressed (in_phase p o m)
unfolding handle next panel
retried-Agrees p false m = refl
retried-Agrees idle true m = refl
retried-Agrees requesting true m = refl
retried-Agrees blocked true m = refl
retried-Agrees (running id) true m =
    let n = in_phase (running id) true m in
    ap (λ b. if b then record (dialog_of n) { started = false; job_id = none } else dialog_of n)
      (job_panel_lem (get id m.jobs)).1.1
    ∙ dialog_of-if (has_failed (get id m.jobs)) (record n { phase = idle }) n

succeeded-Agrees :
    (id : Text) (p : Phase) (m : Machine) → Agrees (start_succeeded id) (in_phase p m.is_open m)
unfolding handle next
succeeded-Agrees id idle m = refl
succeeded-Agrees id requesting m = refl
succeeded-Agrees id blocked m = refl
succeeded-Agrees id (running j) m = refl

refused-Agrees : (p : Phase) (m : Machine) → Agrees start_refused (in_phase p m.is_open m)
unfolding handle next
refused-Agrees idle m = refl
refused-Agrees requesting m = refl
refused-Agrees blocked m = refl
refused-Agrees (running j) m = refl

failed-Agrees : (p : Phase) (m : Machine) → Agrees start_failed (in_phase p m.is_open m)
unfolding handle next
failed-Agrees idle m = refl
failed-Agrees requesting m = refl
failed-Agrees blocked m = refl
failed-Agrees (running j) m = refl

handle-Agrees : (i : Input) (m : Machine) → Agrees i m
unfolding handle next
handle-Agrees opened m = refl
handle-Agrees closed m = closed-Agrees m.phase m.is_open m
handle-Agrees (scanner_chosen scanner) m = chosen-Agrees scanner m.phase m.is_open m
handle-Agrees start_pressed m = started-Agrees m.phase m.is_open m
handle-Agrees cancel_pressed m = cancelled-Agrees m.phase m.is_open m
handle-Agrees retry_pressed m = retried-Agrees m.phase m.is_open m
handle-Agrees (start_succeeded id) m = succeeded-Agrees id m.phase m
handle-Agrees start_refused m = refused-Agrees m.phase m
handle-Agrees start_failed m = failed-Agrees m.phase m
handle-Agrees (job_loaded id job) m = refl

abbrev pub handle_all : List Input → ScanDialog → ScanDialog
handle_all [] s = s
handle_all (i ∷ is) s = handle_all is (handle i s)

abbrev pub run : List Input → Machine → Machine
run [] m = m
run (i ∷ is) m = run is (next i m)

handle_all-dialog_of :
    (is : List Input) (m : Machine) → handle_all is (dialog_of m) ≡ dialog_of (run is m)
handle_all-dialog_of [] m = refl
handle_all-dialog_of (i ∷ is) m =
    ap (handle_all is) (handle-Agrees i m) ∙ handle_all-dialog_of is (next i m)

-- Whatever is pressed, replied and loaded, in whatever order, the dialog is that of a machine with four phases, and
-- has asked the server for what the machine has: a start, while the dialog is open, leads from the idle
-- phase to a request and from no other phase; the reply to a request, also after a close, leads to the job, to
-- a refusal or back, and a reply to none changes nothing; a cancellation is asked for only while a loaded job is under
-- way, and changes nothing; a retry leaves only a job that has failed or was cancelled; and a close leaves a job or
-- a refusal.
pub handle_all-run :
    (scanner : ScannerType) (jobs : List (Text × ScanJob)) (is : List Input)
    → handle_all is (initial scanner jobs) ≡ dialog_of (run is (at_first scanner jobs))
handle_all-run scanner jobs is = handle_all-dialog_of is (at_first scanner jobs)
