-- ===== src/Containers.antt =====
-- frontend/src/features/containers/types.ts and components/container-utils.ts: the container
-- records and the helpers of the container views. Percentages and byte counts are integers in a
-- unit of their own, since the views only compare them.
pub mod Grouping
pub mod Samples
pub mod Uptime
mod Tests
use vps_monitor.Common.{
  ℕ, ℤ, negsuc, Text, codes, starts_with, drop, take, or_else, Option, none, some, List, [], ◌∷◌,
  Bool, true, false, if◌then◌else◌,
}

pub data SortDirection : Type 0 where
  asc desc : SortDirection

pub data GroupByOption : Type 0 where
  by_none by_compose : GroupByOption

pub data ContainerActionType : Type 0 where
  start stop restart remove : ContainerActionType

pub data StatsInterval : Type 0 where
  hour_1 hour_12 : StatsInterval

pub data SortColumn : Type 0 where
  name state uptime created cpu ram : SortColumn

pub data Metric : Type 0 where
  cpu memory : Metric

pub data Runtime : Type 0 where
  docker pm2 process : Runtime

pub record Port : Type 0 where
  pub ip : Option Text
  pub private_port : ℕ
  pub public_port : Option ℕ
  pub type : Text

pub record Pm2Info : Type 0 where
  pub id : ℕ
  pub pid : ℕ
  pub namespace : Option Text
  pub script_path : Option Text
  pub cwd : Option Text
  pub interpreter : Option Text
  pub restart_count : ℕ
  pub cpu_percent : ℤ
  pub memory_bytes : ℤ

pub record ProcessInfo : Type 0 where
  pub pid : ℕ
  pub ppid : Option ℕ
  pub port : ℕ
  pub name : Text
  pub cmdline : Option Text
  pub exe_path : Option Text
  pub directory : Option Text

pub record HistoricalStats : Type 0 where
  pub cpu_1h : ℤ
  pub memory_1h : ℤ
  pub cpu_12h : ℤ
  pub memory_12h : ℤ

-- `created` is in seconds since 1970.
pub record ContainerInfo : Type 0 where
  pub id : Text
  pub names : List Text
  pub image : Text
  pub image_id : Text
  pub command : Text
  pub ports : Option (List Port)
  pub created : ℕ
  pub state : Text
  pub status : Text
  pub labels : Option (List (Text × Text))
  pub host : Text
  pub runtime : Option Runtime
  pub pm2 : Option Pm2Info
  pub process : Option ProcessInfo
  pub historical_stats : Option HistoricalStats

-- `name.startsWith("/") ? name.slice(1) : name`.
abbrev pub strip_slash : Text → Text
strip_slash s = if starts_with s (codes "/") then drop 1 s else s

unfoldable pub format_container_name : List Text → Text
format_container_name [] = codes "—"
format_container_name (primary ∷ rest) = strip_slash primary

unfoldable pub get_container_url_identifier : ContainerInfo → Text
get_container_url_identifier c = elim c.names [
  | [] ↦ take 12 c.id
  | first ∷ rest ↦ strip_slash first
]

-- `container.runtime === "pm2"`.
abbrev pub is_pm2 : Option Runtime → Bool
is_pm2 none = false
is_pm2 (some Runtime.docker) = false
is_pm2 (some Runtime.pm2) = true
is_pm2 (some Runtime.process) = false

-- `container.runtime === "process"`.
abbrev pub is_process : Option Runtime → Bool
is_process none = false
is_process (some Runtime.docker) = false
is_process (some Runtime.pm2) = false
is_process (some Runtime.process) = true

stats_value : HistoricalStats → StatsInterval → Metric → ℤ
stats_value stats hour_1 Metric.cpu = stats.cpu_1h
stats_value stats hour_1 memory = stats.memory_1h
stats_value stats hour_12 Metric.cpu = stats.cpu_12h
stats_value stats hour_12 memory = stats.memory_12h

pm2_value : Pm2Info → Metric → Option ℤ
pm2_value info Metric.cpu = some info.cpu_percent
pm2_value info memory = none

recorded_value : Option HistoricalStats → StatsInterval → Metric → Option ℤ
unfolding stats_value
recorded_value none interval metric = none
recorded_value (some stats) interval metric = some (stats_value stats interval metric)

unfoldable pub get_historical_value : ContainerInfo → StatsInterval → Metric → Option ℤ
unfolding pm2_value recorded_value
get_historical_value c interval metric =
    let recorded = recorded_value c.historical_stats interval metric in
    if is_pm2 c.runtime
    then elim c.pm2 [ none ↦ recorded | some info ↦ pm2_value info metric ]
    else recorded

pub record StateCounts : Type 0 where
  pub running : ℕ
  pub exited : ℕ
  pub paused : ℕ
  pub restarting : ℕ
  pub dead : ℕ
  pub other : ℕ

unfoldable pub get_initial_state_counts : StateCounts
get_initial_state_counts = record {
  running = 0;
  exited = 0;
  paused = 0;
  restarting = 0;
  dead = 0;
  other = 0;
}
