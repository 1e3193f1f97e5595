-- ===== src/Logs/Filter.antt =====
-- What the filter keeps, and the counts by level.
use vps_monitor.Common.{
  ℕ, suc, ◌+◌, ◌≤◌, Text, truthy, includes, Option, none, some, List, [], ◌∷◌, Bool, true, false,
  not, ◌&&◌, ◌||◌, filter, count, length, ◌≡◌, refl, sym, ap, ◌∙◌, arith,
}
use vps_monitor.Logs.{
  LogLevel, trace, debug, info, warn, warning, error, fatal, panic, unknown, StreamFilter, only,
  both, LogLevelFilter, all_levels, level, LogEntry, LogFilterOptions, same_level, same_stream,
  by_level, by_term, by_stream, filter_logs, LevelCounts, bump, count_from, count_logs_by_level,
  get_log_level_priority, is_error_log,
}

-- An entry passes each criterion that is set.
abbrev passes_level : LogLevelFilter → LogEntry → Bool
passes_level all_levels log = true
passes_level (level v) log = same_level log.level v

abbrev passes_stream : Option StreamFilter → LogEntry → Bool
passes_stream none log = true
passes_stream (some both) log = true
passes_stream (some (only v)) log = same_stream log.stream v

abbrev pub passes : (Text → Text) → LogFilterOptions → LogEntry → Bool
passes to_lower options log =
    passes_level options.level log
    && (not (truthy options.search_term)
        || includes (to_lower log.message) (to_lower options.search_term))
    && passes_stream options.stream log

filter-filter {ℓ} :
    {A : Type ℓ} (p q : A → Bool) (xs : List A)
    → filter q (filter p xs) ≡ filter (λ x. p x && q x) xs
filter-filter p q [] = refl
filter-filter p q (x ∷ xs) = ground (arith, filter-filter p q xs)

filter_ext {ℓ} :
    {A : Type ℓ} (p q : A → Bool)
    → ((x : A) → p x ≡ q x)
    → (xs : List A) → filter p xs ≡ filter q xs
filter_ext p q h [] = refl
filter_ext p q h (x ∷ xs) = ground (arith, h x, filter_ext p q h xs)

filter-true {ℓ} : {A : Type ℓ} (xs : List A) → filter (λ x. true) xs ≡ xs
filter-true [] = refl
filter-true (x ∷ xs) = ap (◌∷◌ x) (filter-true xs)

by_level-filter :
    (f : LogLevelFilter) (logs : List LogEntry) → by_level f logs ≡ filter (passes_level f) logs
unfolding by_level
by_level-filter all_levels logs = sym (filter-true logs)
by_level-filter (level v) logs = refl

by_stream-filter :
    (f : Option StreamFilter) (logs : List LogEntry)
    → by_stream f logs ≡ filter (passes_stream f) logs
unfolding by_stream
by_stream-filter none logs = sym (filter-true logs)
by_stream-filter (some both) logs = sym (filter-true logs)
by_stream-filter (some (only v)) logs = refl

passes_term : (Text → Text) → Text → LogEntry → Bool
passes_term to_lower term log = not (truthy term) || includes (to_lower log.message) (to_lower term)

by_term-filter :
    (to_lower : Text → Text) (term : Text) (logs : List LogEntry)
    → by_term to_lower term logs ≡ filter (passes_term to_lower term) logs
unfolding by_term passes_term
by_term-filter to_lower [] logs = sym (filter-true logs)
by_term-filter to_lower (c ∷ term) logs = refl

-- The three passes of the filter keep, in order, the entries that meet all the criteria at once.
pub filter_logs_lem :
    (to_lower : Text → Text) (logs : List LogEntry) (options : LogFilterOptions)
    → filter_logs to_lower logs options ≡ filter (passes to_lower options) logs
unfolding filter_logs passes_term
filter_logs_lem to_lower logs options =
    by_stream-filter options.stream _
    ∙ ap (filter (passes_stream options.stream)) (
        by_term-filter to_lower options.search_term (by_level options.level logs)
        ∙ ap (filter (passes_term to_lower options.search_term))
            (by_level-filter options.level logs)
        ∙ filter-filter (passes_level options.level) (passes_term to_lower options.search_term)
            logs)
    ∙ filter-filter
        (λ log. passes_level options.level log && passes_term to_lower options.search_term log)
        (passes_stream options.stream) logs

count_from_lem :
    (counts : LevelCounts) (logs : List LogEntry) (v : LogLevel)
    → count_from counts logs v ≡ counts v + count (λ log. same_level log.level v) logs
unfolding count_from bump
count_from_lem counts [] v = omega arith
count_from_lem counts (log ∷ logs) v = ground (arith, count_from_lem (bump log.level counts) logs v)

-- The number at a level is the number of entries with it.
pub count_logs_by_level_lem :
    (logs : List LogEntry) (v : LogLevel)
    → count_logs_by_level logs v ≡ count (λ log. same_level log.level v) logs
unfolding count_logs_by_level
count_logs_by_level_lem logs v = omega (arith, count_from_lem (λ v. 0) logs v)

-- The sum over all the levels.
abbrev pub total : LevelCounts → ℕ
total k = k trace + k debug + k info + k warn + k warning + k error + k fatal + k panic + k unknown

total-bump : (v : LogLevel) (k : LevelCounts) → total (bump v k) ≡ suc (total k)
unfolding bump
total-bump trace k = omega arith
total-bump v k = omega arith

total-count_from :
    (k : LevelCounts) (logs : List LogEntry) → total (count_from k logs) ≡ total k + length logs
unfolding count_from
total-count_from k [] = omega arith
total-count_from k (log ∷ logs) =
    omega (arith, total-count_from (bump log.level k) logs, total-bump log.level k)

-- The counts add up to the number of entries.
pub total-count_logs_by_level :
    (logs : List LogEntry) → total (count_logs_by_level logs) ≡ length logs
unfolding count_logs_by_level
total-count_logs_by_level logs = omega (arith, total-count_from (λ v. 0) logs)

-- The level of an error has a strictly higher priority than the level of an entry that is none.
pub priority_order :
    (a b : LogEntry)
    → is_error_log a ≡ true
    → is_error_log b ≡ false
    → suc (get_log_level_priority b.level) ≤ get_log_level_priority a.level
unfolding is_error_log get_log_level_priority
priority_order a b h k = ground arith
