-- ===== src/Scanner/Bulk.antt =====
-- The dialog that scans all images: frontend/src/features/scanner/components/bulk-scan-dialog.tsx, what it
-- shows of the jobs, with BulkScanJob of features/scanner/types.ts.
use vps_monitor.Common.{
  count, ◌∙◌, ℕ, ◌+◌, Text, codes, includes, Option, none, some, List, [], ◌∷◌, Bool, true, false,
  if◌then◌else◌, filter, length, ◌≡◌, ◌≤◌, refl, arith,
}
use vps_monitor.Scanner.{
  SeverityLevel, critical, high, medium, low, negligible, unknown, ScanJobStatus, complete, failed,
  cancelled, pending, pulling_scanner, scanning, expired,
}
use vps_monitor.Scanner.Markdown.{ScanResult, SeveritySummary}
use vps_monitor.Scanner.Dialog.{ScanJob}

pub record BulkScanJob : Type 0 where
  pub id : Text
  pub jobs : List ScanJob
  pub total_images : ℕ
  pub completed : ℕ
  pub failed : ℕ
  pub status : ScanJobStatus
  pub created_at : ℕ

abbrev zeros : SeveritySummary
zeros = record {
  critical = 0;
  high = 0;
  medium = 0;
  low = 0;
  negligible = 0;
  unknown = 0;
  total = 0;
}

abbrev pub accumulated : Option ScanResult → SeveritySummary → SeveritySummary
accumulated none s = s
accumulated (some r) s = record {
  critical = s.critical + r.summary.critical;
  high = s.high + r.summary.high;
  medium = s.medium + r.summary.medium;
  low = s.low + r.summary.low;
  negligible = s.negligible + r.summary.negligible;
  unknown = s.unknown + r.summary.unknown;
  total = s.total + r.summary.total;
}

unfoldable pub accumulate : SeveritySummary → List ScanJob → SeveritySummary
accumulate s [] = s
accumulate s (j ∷ js) = accumulate (accumulated j.result s) js

abbrev pub jobs_of : Option BulkScanJob → List ScanJob
jobs_of none = []
jobs_of (some b) = b.jobs

unfoldable pub aggregate_summary : Option BulkScanJob → SeveritySummary
unfolding accumulate
aggregate_summary b = accumulate zeros (jobs_of b)

-- `j.error?.includes("image_unchanged")`.
abbrev pub is_unchanged : Option Text → Bool
is_unchanged none = false
is_unchanged (some e) = includes e (codes "image_unchanged")

unfoldable pub skipped_count : List ScanJob → ℕ
skipped_count jobs = length (filter (λ j. is_unchanged j.error) jobs)

pub data Badge : Type 0 where
  vulnerable_badge : ℕ → Badge
  skipped_badge failed_badge cancelled_badge spinner : Badge

abbrev pub unfinished_badge : ScanJobStatus → Bool → Badge
unfinished_badge failed unchanged = if unchanged then skipped_badge else failed_badge
unfinished_badge cancelled unchanged = cancelled_badge
unfinished_badge _ unchanged = spinner

abbrev complete_badge : Option ScanResult → Badge
complete_badge none = spinner
complete_badge (some r) = vulnerable_badge r.summary.total

abbrev badge_of : ScanJobStatus → Option ScanResult → Bool → Badge
badge_of complete result unchanged = complete_badge result
badge_of status result unchanged = unfinished_badge status unchanged

-- The end of a job's row.
unfoldable pub job_badge : ScanJob → Badge
job_badge j = badge_of j.status j.result (is_unchanged j.error)

-- The number of a level in a summary.
abbrev pub amount : SeverityLevel → SeveritySummary → ℕ
amount critical s = s.critical
amount high s = s.high
amount medium s = s.medium
amount low s = s.low
amount negligible s = s.negligible
amount unknown s = s.unknown

abbrev found : (SeveritySummary → ℕ) → Option ScanResult → ℕ
found f none = 0
found f (some r) = f r.summary

-- The sum over the jobs that have a result.
abbrev pub sum_of : (SeveritySummary → ℕ) → List ScanJob → ℕ
sum_of f [] = 0
sum_of f (j ∷ js) = found f j.result + sum_of f js

amount-accumulated :
    (l : SeverityLevel) (o : Option ScanResult) (s : SeveritySummary)
    → amount l (accumulated o s) ≡ amount l s + found (amount l) o
amount-accumulated critical none s = omega arith
amount-accumulated critical (some r) s = refl
amount-accumulated high none s = omega arith
amount-accumulated high (some r) s = refl
amount-accumulated medium none s = omega arith
amount-accumulated medium (some r) s = refl
amount-accumulated low none s = omega arith
amount-accumulated low (some r) s = refl
amount-accumulated negligible none s = omega arith
amount-accumulated negligible (some r) s = refl
amount-accumulated unknown none s = omega arith
amount-accumulated unknown (some r) s = refl

total-accumulated :
    (o : Option ScanResult) (s : SeveritySummary)
    → (accumulated o s).total ≡ s.total + found (λ x. x.total) o
total-accumulated none s = omega arith
total-accumulated (some r) s = refl

-- A number of a summary that an accumulation adds to is the sum of the jobs' at the end.
accumulate_sum :
    (f : SeveritySummary → ℕ)
    → ((o : Option ScanResult) (s : SeveritySummary) → f (accumulated o s) ≡ f s + found f o)
    → (s : SeveritySummary) (js : List ScanJob) → f (accumulate s js) ≡ f s + sum_of f js
unfolding accumulate
accumulate_sum f h s [] = omega arith
accumulate_sum f h s (j ∷ js) =
    let step = h j.result s in
    let rest = accumulate_sum f h (accumulated j.result s) js in omega (arith, step, rest)

zero_plus : (n : ℕ) → 0 + n ≡ n
zero_plus n = omega arith

zero_amount : (l : SeverityLevel) (n : ℕ) → amount l zeros + n ≡ n
zero_amount critical n = zero_plus n
zero_amount high n = zero_plus n
zero_amount medium n = zero_plus n
zero_amount low n = zero_plus n
zero_amount negligible n = zero_plus n
zero_amount unknown n = zero_plus n

-- The summary of a bulk scan has, for each level and in total, the sum of the numbers of the results that its
-- jobs have; without a job all are 0.
pub aggregate_summary-sum_of :
    (b : Option BulkScanJob)
    → ((l : SeverityLevel) → amount l (aggregate_summary b) ≡ sum_of (amount l) (jobs_of b))
      × ((aggregate_summary b).total ≡ sum_of (λ s. s.total) (jobs_of b))
unfolding aggregate_summary
aggregate_summary-sum_of b = (
  λ l. accumulate_sum (amount l) (amount-accumulated l) zeros (jobs_of b) ∙ zero_amount l _,
  accumulate_sum (λ s. s.total) total-accumulated zeros (jobs_of b) ∙ zero_plus _,
)

abbrev is_skipped : Badge → Bool
is_skipped skipped_badge = true
is_skipped _ = false

is_skipped-badge_of :
    (status : ScanJobStatus) (result : Option ScanResult)
    → is_skipped (badge_of status result false) ≡ false
is_skipped-badge_of pending result = refl
is_skipped-badge_of pulling_scanner result = refl
is_skipped-badge_of scanning result = refl
is_skipped-badge_of complete none = refl
is_skipped-badge_of complete (some r) = refl
is_skipped-badge_of failed result = refl
is_skipped-badge_of cancelled result = refl
is_skipped-badge_of expired result = refl

-- The number of skipped images that is shown is not less than that of the rows with the badge for it.
pub skipped_count_lem :
    (jobs : List ScanJob) → count (λ j. is_skipped (job_badge j)) jobs ≤ skipped_count jobs
unfolding skipped_count job_badge
skipped_count_lem [] = omega arith
skipped_count_lem (j ∷ js) =
    ground (arith, skipped_count_lem js, is_skipped-badge_of j.status j.result)
