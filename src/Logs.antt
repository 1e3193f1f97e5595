-- ===== src/Logs.antt =====
-- frontend/src/types/logs.ts: log entries, their levels, the filter and the counts. Lower case is
-- the runtime's, a parameter.
pub mod Filter
pub mod Stream
pub mod Search
pub mod Control
pub mod Download
pub mod Page
pub mod Line
mod Tests
use vps_monitor.Common.{
  ℕ, zero, suc, Text, codes, truthy, text_eq, includes, Option, none, some, List, [], ◌∷◌, Bool,
  true, false, not, ◌||◌, if◌then◌else◌, filter, ◌==◌,
}

pub data LogLevel : Type 0 where
  trace debug info warn warning error fatal panic unknown : LogLevel

pub data LogStream : Type 0 where
  stdout stderr : LogStream

-- `"stdout" | "stderr" | "both"`.
pub data StreamFilter : Type 0 where
  only : LogStream → StreamFilter
  both : StreamFilter

-- `LogLevel | "ALL"`.
pub data LogLevelFilter : Type 0 where
  all_levels : LogLevelFilter
  level : LogLevel → LogLevelFilter

pub record LogEntry : Type 0 where
  pub timestamp : Text
  pub level : LogLevel
  pub message : Text
  pub stream : LogStream
  pub raw : Text

pub record LogFilterOptions : Type 0 where
  pub level : LogLevelFilter
  pub search_term : Text
  pub since : Option Text
  pub until : Option Text
  pub stream : Option StreamFilter

-- The level's position in the declaration, by which levels are compared.
abbrev rank : LogLevel → ℕ
rank trace = 0
rank debug = 1
rank info = 2
rank warn = 3
rank warning = 4
rank error = 5
rank fatal = 6
rank panic = 7
rank unknown = 8

-- `===` on levels.
abbrev pub same_level : LogLevel → LogLevel → Bool
same_level a b = rank a == rank b

abbrev pub same_stream : LogStream → LogStream → Bool
same_stream stdout stdout = true
same_stream stdout stderr = false
same_stream stderr stdout = false
same_stream stderr stderr = true

unfoldable pub get_log_level_priority : LogLevel → ℕ
get_log_level_priority trace = 0
get_log_level_priority debug = 1
get_log_level_priority info = 2
get_log_level_priority warn = 3
get_log_level_priority warning = 3
get_log_level_priority error = 4
get_log_level_priority fatal = 5
get_log_level_priority panic = 5
get_log_level_priority unknown = 2

unfoldable pub is_error_log : LogEntry → Bool
is_error_log log =
    same_level log.level error || same_level log.level fatal || same_level log.level panic

unfoldable pub is_warning_log : LogEntry → Bool
is_warning_log log = same_level log.level warn || same_level log.level warning

by_level : LogLevelFilter → List LogEntry → List LogEntry
by_level all_levels logs = logs
by_level (level v) logs = filter (λ log. same_level log.level v) logs

by_term : (Text → Text) → Text → List LogEntry → List LogEntry
by_term to_lower term logs =
    if truthy term
    then filter (λ log. includes (to_lower log.message) (to_lower term)) logs
    else logs

by_stream : Option StreamFilter → List LogEntry → List LogEntry
by_stream none logs = logs
by_stream (some both) logs = logs
by_stream (some (only v)) logs = filter (λ log. same_stream log.stream v) logs

unfoldable pub filter_logs : (Text → Text) → List LogEntry → LogFilterOptions → List LogEntry
unfolding by_level by_term by_stream
filter_logs to_lower logs options =
    by_stream options.stream (by_term to_lower options.search_term (by_level options.level logs))

-- Record<LogLevel, number>.
abbrev pub LevelCounts : Type 0
LevelCounts = LogLevel → ℕ

-- `counts[level]++`.
bump : LogLevel → LevelCounts → LevelCounts
bump v counts w = if same_level v w then suc (counts w) else counts w

count_from : LevelCounts → List LogEntry → LevelCounts
unfolding bump
count_from counts [] = counts
count_from counts (log ∷ logs) = count_from (bump log.level counts) logs

unfoldable pub count_logs_by_level : List LogEntry → LevelCounts
unfolding count_from
count_logs_by_level logs = count_from (λ v. 0) logs
