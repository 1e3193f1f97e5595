-- ===== src/Scanner/Dialog/Tests.antt =====
-- Sessions with the dialog of a scan, and the sums of two scans.
use vps_monitor.Common.{codes, text_eq, none, some, List, [], ◌∷◌, ◌≡◌, refl, ℕ, ◌+◌}
use vps_monitor.Common.Dict.{get, set}
use vps_monitor.Scanner.{expired, SeverityLevel, critical, complete}
use vps_monitor.Scanner.Markdown.{grype, ScanResult}
use vps_monitor.Scanner.Dialog.{
  ScanJob, initial, panel, scanning_panel, Input, opened, closed, start_pressed, start_succeeded,
  retry_pressed, cancel_pressed, job_loaded, handle, start_sent, cancel_sent,
}
use vps_monitor.Scanner.Dialog.Phases.{dialog_of, run, at_first, handle_all, handle_all-run}
use vps_monitor.Scanner.Bulk.{
  BulkScanJob, amount, aggregate_summary, sum_of, jobs_of, aggregate_summary-sum_of,
}

abbrev old_job : ScanJob
old_job = record {
  id = codes "j1";
  image_ref = codes "nginx";
  host = codes "web";
  scanner = grype;
  status = expired;
  progress = none;
  result = none;
  created_at = 1;
  error = none;
}

abbrev session : List Input
session =
    opened
    ∷ start_pressed
    ∷ start_pressed
    ∷ closed
    ∷ start_succeeded (codes "j1")
    ∷ job_loaded (codes "j1") old_job
    ∷ retry_pressed
    ∷ opened
    ∷ []

handle_all-run_example :
    handle_all session (initial grype []) ≡ dialog_of (run session (at_first grype []))
handle_all-run_example = handle_all-run grype [] session

-- A reply after the dialog was closed starts it, and a job that has expired is shown as running on.
reopened : panel (handle_all session (initial grype [])) ≡ scanning_panel
unfolding handle panel text_eq get set
reopened = refl

one_request :
    (handle_all (cancel_pressed ∷ []) (handle_all session (initial grype []))).effects
    ≡ start_sent grype ∷ cancel_sent (codes "j1") ∷ []
unfolding handle panel text_eq get set
one_request = refl

abbrev result : ℕ → ScanResult
result n = record {
  id = codes "r";
  image_ref = codes "nginx";
  host = codes "web";
  scanner = grype;
  vulnerabilities = [];
  summary = record {
    critical = n;
    high = 2;
    medium = 0;
    low = 0;
    negligible = 0;
    unknown = 1;
    total = n + 3;
  };
  started_at = 1;
  completed_at = 2;
  duration_ms = 3;
  error = none;
}

abbrev bulk : BulkScanJob
bulk = record {
  id = codes "b";
  jobs =
      record old_job { result = some (result 4) }
      ∷ old_job
      ∷ record old_job { result = some (result 5) }
      ∷ [];
  total_images = 3;
  completed = 2;
  failed = 0;
  status = complete;
  created_at = 1;
}

aggregate_summary_example :
    ((l : SeverityLevel)
      → amount l (aggregate_summary (some bulk)) ≡ sum_of (amount l) (jobs_of (some bulk)))
    × ((aggregate_summary (some bulk)).total ≡ sum_of (λ s. s.total) (jobs_of (some bulk)))
aggregate_summary_example = aggregate_summary-sum_of (some bulk)

nine_critical : amount critical (aggregate_summary (some bulk)) ≡ 9
unfolding aggregate_summary
nine_critical = refl
