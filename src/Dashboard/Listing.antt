-- ===== src/Dashboard/Listing.antt =====
-- The list of frontend/src/features/containers/components/containers-dashboard.tsx: which
-- containers match the filters, their order, and the counts by state. Lower case and the order of
-- texts are the runtime's, a parameter.
pub mod Order
pub mod Counts
use vps_monitor.Common.{
  suc, ℕ, ℤ, pos, negsuc, Text, codes, truthy, trim, text_eq, starts_with, includes, or_else,
  Option, none, some, List, [], ◌∷◌, Bool, true, false, ◌&&◌, ◌||◌, not, if◌then◌else◌, filter, any,
  leb_ℤ, compare_ℤ, Ordering, ◌*◌, ◌-ℤ◌, is_some,
}
use vps_monitor.Common.Sort.{sort}
use vps_monitor.Containers.{
  ContainerInfo, SortColumn, SortDirection, asc, desc, StatsInterval, StateCounts, Metric, memory,
  Pm2Info, format_container_name, get_historical_value, get_initial_state_counts, is_pm2,
  is_process,
}

-- String.prototype.toLowerCase and String.prototype.localeCompare.
pub record Locale : Type 0 where
  pub to_lower : Text → Text
  pub compare : Text → Text → Ordering

-- The values that the filters read.
pub record Filters : Type 0 where
  pub search_term : Text
  pub host_filter : Text
  pub state_filter : Text
  pub range : Option (Option ℤ × Option ℤ)

-- The type of getSortValue: a number or a string.
pub data SortValue : Type 0 where
  number : ℤ → SortValue
  string : Text → SortValue

-- The date range test; `date` is the creation time in milliseconds.
unfoldable pub matches_date_range : Option (Option ℤ × Option ℤ) → ℤ → Bool
matches_date_range none date = true
matches_date_range (some (none, none)) date = false
matches_date_range (some (none, some to)) date = leb_ℤ date to
matches_date_range (some (some from, none)) date = leb_ℤ from date
matches_date_range (some (some from, some to)) date = leb_ℤ from date && leb_ℤ date to

-- `Option<number> ?? -1`.
abbrev pub or_minus_one : Option ℤ → SortValue
or_minus_one v = number (or_else v (negsuc 0))

abbrev pub pm2_cpu : Option Pm2Info → Option ℤ
pm2_cpu none = none
pm2_cpu (some info) = some info.cpu_percent

abbrev pub pm2_memory : Option Pm2Info → Option ℤ
pm2_memory none = none
pm2_memory (some info) = some info.memory_bytes

module _ (l : Locale) where
  unfoldable pub matches_search : Text → ContainerInfo → Bool
  matches_search term c =
      let search = l.to_lower (trim term) in
      not (truthy search)
      || starts_with (l.to_lower c.id) search
      || includes (l.to_lower c.image) search
      || any (λ name. includes (l.to_lower name) search) c.names

  -- matchesFilters; the flag is includeStateFilter.
  unfoldable pub matches_filters : Filters → Bool → ContainerInfo → Bool
  unfolding matches_search matches_date_range
  matches_filters f include_state c =
      matches_search f.search_term c
      && (text_eq f.host_filter (codes "all") || text_eq c.host f.host_filter)
      && matches_date_range f.range (pos (c.created * 1000))
      && (if include_state
          then text_eq f.state_filter (codes "all") || text_eq (l.to_lower c.state) f.state_filter
          else true)

  -- getSortValue; `now` is Date.now().
  unfoldable pub get_sort_value : ℤ → StatsInterval → ContainerInfo → SortColumn → SortValue
  get_sort_value now interval c SortColumn.name =
      string (l.to_lower (format_container_name c.names))
  get_sort_value now interval c SortColumn.state = string (l.to_lower c.state)
  get_sort_value now interval c SortColumn.uptime = number (now -ℤ pos (c.created * 1000))
  get_sort_value now interval c SortColumn.created = number (pos c.created)
  get_sort_value now interval c SortColumn.cpu =
      if is_pm2 c.runtime
      then or_minus_one (pm2_cpu c.pm2)
      else if is_process c.runtime
      then number (negsuc 0)
      else or_minus_one (get_historical_value c interval Metric.cpu)
  get_sort_value now interval c SortColumn.ram =
      if is_pm2 c.runtime
      then or_minus_one (pm2_memory c.pm2)
      else if is_process c.runtime
      then number (negsuc 0)
      else or_minus_one (get_historical_value c interval memory)

  -- The ascending comparison of two sort values. A difference with a string in it is NaN, which
  -- sorts as 0.
  unfoldable pub compare_values : SortValue → SortValue → Ordering
  compare_values (string a) (string b) = l.compare a b
  compare_values (number a) (number b) = compare_ℤ a b
  compare_values (string a) (number b) = Ordering.eq
  compare_values (number a) (string b) = Ordering.eq

  unfoldable pub compare_containers :
      ℤ → StatsInterval → SortColumn → SortDirection → ContainerInfo → ContainerInfo → Ordering
  unfolding compare_values
  compare_containers now interval column asc a b =
      compare_values (get_sort_value now interval a column) (get_sort_value now interval b column)
  compare_containers now interval column desc a b =
      compare_values (get_sort_value now interval b column) (get_sort_value now interval a column)

  unfoldable pub filtered_containers :
      Filters
      → ℤ
      → StatsInterval
      → SortColumn
      → SortDirection
      → List ContainerInfo
      → List ContainerInfo
  filtered_containers f now interval column direction cs =
      sort (compare_containers now interval column direction) (filter (matches_filters f true) cs)

  -- The branches of the stateCounts loop.
  unfoldable pub count_state : Text → StateCounts → StateCounts
  count_state state k =
      if text_eq state (codes "running")
      then record k { running = suc k.running }
      else if text_eq state (codes "exited")
      then record k { exited = suc k.exited }
      else if text_eq state (codes "paused")
      then record k { paused = suc k.paused }
      else if text_eq state (codes "restarting")
      then record k { restarting = suc k.restarting }
      else if text_eq state (codes "dead")
      then record k { dead = suc k.dead }
      else record k { other = suc k.other }

  count_states : Filters → StateCounts → List ContainerInfo → StateCounts
  unfolding count_state
  count_states f k [] = k
  count_states f k (c ∷ cs) =
      count_states f (if matches_filters f false c then count_state (l.to_lower c.state) k else k)
        cs

  unfoldable pub state_counts : Filters → List ContainerInfo → StateCounts
  unfolding count_states
  state_counts f cs = count_states f get_initial_state_counts cs
