-- ===== src/Scanner/Jobs.antt =====
-- The observation of running jobs: the polling of useScanJob and useSBOMJob, and useObservedSBOMJobs, of
-- frontend/src/features/scanner/hooks/use-scan-query.ts. A render gives the observed jobs in order, with
-- the status that the queries know.
use vps_monitor.Common.{
  number, count-append, ℕ, ◌+◌, Text, truthy, text_eq, text_eq_iff, Option, none, some, List, [],
  ◌∷◌, ◌++◌, Bool, true, false, not, ◌&&◌, ◌||◌, if◌then◌else◌, filter, any, all, count, ◌≡◌, refl,
  arith,
}
use vps_monitor.Common.Sets.{has, has-filter, has-append}
use vps_monitor.Scanner.{ScanJobStatus, complete, failed, cancelled}

unfoldable pub is_terminal : ScanJobStatus → Bool
is_terminal complete = true
is_terminal failed = true
is_terminal cancelled = true
is_terminal _ = false

-- `refetchInterval` of a job's query, where `none` is that it is not asked for again.
unfoldable pub sbom_refetch_interval : Option ScanJobStatus → Option ℕ
unfolding is_terminal
sbom_refetch_interval none = some 2000
sbom_refetch_interval (some status) = if is_terminal status then none else some 2000

-- The reply for a scan job: the status of its `job`, else of its `bulkJob`.
unfoldable pub scan_refetch_interval :
    Option (Option ScanJobStatus × Option ScanJobStatus) → Option ℕ
unfolding sbom_refetch_interval
scan_refetch_interval none = some 2000
scan_refetch_interval (some (some status, bulk)) = sbom_refetch_interval (some status)
scan_refetch_interval (some (none, some status)) = sbom_refetch_interval (some status)
scan_refetch_interval (some (none, none)) = none

-- An observed job: its id, and the status of its query's data.
pub record Observed : Type 0 where
  pub id : Text
  pub status : Option ScanJobStatus

pub data Effect : Type 0 where
  -- The toast and the two invalidated queries.
  sbom_saved : Effect
  terminal_job : Text → Effect

-- The handled ids that are still observed.
unfoldable pub prune : List Observed → List Text → List Text
prune jobs = filter (λ id. any (λ job. text_eq job.id id) jobs)

abbrev is_done : Option ScanJobStatus → Bool
is_done none = false
is_done (some status) = is_terminal status

abbrev effects_of : Option ScanJobStatus → Text → List Effect
effects_of (some complete) id = sbom_saved ∷ terminal_job id ∷ []
effects_of _ id = terminal_job id ∷ []

-- One turn of the loop over the queries.
unfoldable pub observe : Observed → List Text × List Effect → List Text × List Effect
unfolding is_terminal
observe job (handled, effects) =
    if not (truthy job.id) || has job.id handled || not (is_done job.status)
    then (handled, effects)
    else (handled ++ job.id ∷ [], effects ++ effects_of job.status job.id)

unfoldable pub observe_all : List Observed → List Text × List Effect → List Text × List Effect
unfolding observe
observe_all [] s = s
observe_all (job ∷ jobs) s = observe_all jobs (observe job s)

-- The effects of a render: the one on the ids, and the one on the queries.
unfoldable pub render : List Observed → List Text × List Effect → List Text × List Effect
unfolding prune observe_all
render jobs (handled, effects) = observe_all jobs (prune jobs handled, effects)

abbrev pub renders : List (List Observed) → List Text × List Effect → List Text × List Effect
renders [] s = s
renders (jobs ∷ more) s = renders more (render jobs s)

-- The call of onTerminalJob for the id.
abbrev pub calls : Text → Effect → Bool
calls id sbom_saved = false
calls id (terminal_job j) = text_eq id j

-- The job is observed, and is seen at its end.
abbrev pub observed : Text → List Observed → Bool
observed id = any (λ job. text_eq job.id id)

abbrev pub seen_done : Text → List Observed → Bool
seen_done id = any (λ job. text_eq job.id id && is_done job.status)

pub count-effects_of :
    (id j : Text) (o : Option ScanJobStatus)
    → count (calls id) (effects_of o j) ≡ number (text_eq id j)
count-effects_of id j none = refl
count-effects_of id j (some status) = ground arith

-- What one turn does to the handled ids and to the calls.
has-observe :
    (id : Text) (job : Observed) (s : List Text × List Effect)
    → truthy id ≡ true
    → has id (observe job s).0 ≡ (has id s.0 || (text_eq job.id id && is_done job.status))
unfolding observe has
has-observe id job (handled, effects) t =
    ground
      (arith, has-append id handled (job.id ∷ []), text_eq_iff id job.id, text_eq_iff job.id id)

count-observe :
    (id : Text) (job : Observed) (s : List Text × List Effect)
    → count (calls id) (observe job s).1 + number (has id s.0)
      ≡ count (calls id) s.1 + number (has id (observe job s).0)
unfolding observe has
count-observe id job (handled, effects) = ground (
  arith,
  count-append (calls id) effects (effects_of job.status job.id),
  count-effects_of id job.id job.status,
  has-append id handled (job.id ∷ []),
  text_eq_iff id job.id,
)

has-observe_all :
    (id : Text) (jobs : List Observed) (s : List Text × List Effect)
    → truthy id ≡ true
    → has id (observe_all jobs s).0 ≡ (has id s.0 || seen_done id jobs)
unfolding observe_all
has-observe_all id [] s t = ground arith
has-observe_all id (job ∷ jobs) s t =
    ground (arith, has-observe_all id jobs (observe job s) t, has-observe id job s t)

count-observe_all :
    (id : Text) (jobs : List Observed) (s : List Text × List Effect)
    → count (calls id) (observe_all jobs s).1 + number (has id s.0)
      ≡ count (calls id) s.1 + number (has id (observe_all jobs s).0)
unfolding observe_all
count-observe_all id [] s = refl
count-observe_all id (job ∷ jobs) s =
    omega (arith, count-observe_all id jobs (observe job s), count-observe id job s)

has-prune :
    (id : Text) (jobs : List Observed) (handled : List Text)
    → observed id jobs ≡ true
    → has id (prune jobs handled) ≡ has id handled
unfolding prune
has-prune id jobs handled h =
    ground (arith, has-filter id (λ j. any (λ job. text_eq job.id j) jobs) handled)

step_has :
    (id : Text) (jobs : List Observed) (s : List Text × List Effect)
    → truthy id ≡ true
    → observed id jobs ≡ true
    → has id (render jobs s).0 ≡ (has id s.0 || seen_done id jobs)
unfolding render
step_has id jobs (handled, effects) t o =
    ground
      (arith, has-observe_all id jobs (prune jobs handled, effects) t, has-prune id jobs handled o)

step_count :
    (id : Text) (jobs : List Observed) (s : List Text × List Effect)
    → observed id jobs ≡ true
    → count (calls id) (render jobs s).1 + number (has id s.0)
      ≡ count (calls id) s.1 + number (has id (render jobs s).0)
unfolding render
step_count id jobs (handled, effects) o =
    ground
      (arith, count-observe_all id jobs (prune jobs handled, effects), has-prune id jobs handled o)

-- A job whose id is not empty and that stays observed is reported once, in whatever renders: if it
-- was not handled before, onTerminalJob is called for it exactly once if a render saw it complete,
-- failed or cancelled, and not at all otherwise; if it was handled before, it is not called again.
pub calls-renders :
    (id : Text) (rs : List (List Observed)) (s : List Text × List Effect)
    → truthy id ≡ true
    → all (observed id) rs ≡ true
    → count (calls id) (renders rs s).1
      ≡ count (calls id) s.1 + (if has id s.0 then 0 else number (any (seen_done id) rs))
calls-renders id [] s t o = ground arith
calls-renders id (jobs ∷ rs) (handled, effects) t o = ground (
  arith,
  calls-renders id rs (render jobs (handled, effects)) t,
  step_has id jobs (handled, effects) t,
  step_count id jobs (handled, effects),
)
