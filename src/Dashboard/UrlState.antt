-- ===== src/Dashboard/UrlState.antt =====
-- frontend/src/features/containers/hooks/use-containers-dashboard-url-state.ts: the parameters of
-- the dashboard that live in the URL. A Date is its time value in milliseconds; the parameters are
-- what the query-state library has parsed, and `setParams` merges the updates into them.
pub mod Parsers
pub mod Laws
use vps_monitor.Common.{
  ℕ, ℤ, pos, Text, codes, or_text, or_else, text_eq, Option, none, some, List, [], ◌∷◌, Bool, true,
  false, not, ◌&&◌, ◌||◌, if◌then◌else◌, max_ℤ, eqb_ℤ, length, ◌==◌,
}
use vps_monitor.Containers.{
  SortDirection, asc, desc, SortColumn, GroupByOption, by_none, by_compose, StatsInterval, hour_1,
  hour_12,
}

pub record DashboardUrlParams : Type 0 where
  pub search : Text
  pub state : Text
  pub host : Text
  pub sort : SortDirection
  pub sort_by : SortColumn
  pub group : GroupByOption
  pub interval : StatsInterval
  pub page : ℤ
  pub page_size : ℤ
  pub from : Option ℤ
  pub to : Option ℤ
  pub expanded : List Text

-- Partial<DashboardUrlParams>: `none` where the key is absent.
pub record Updates : Type 0 where
  pub search : Option Text
  pub state : Option Text
  pub host : Option Text
  pub sort : Option SortDirection
  pub sort_by : Option SortColumn
  pub group : Option GroupByOption
  pub interval : Option StatsInterval
  pub page : Option ℤ
  pub page_size : Option ℤ
  pub from : Option (Option ℤ)
  pub to : Option (Option ℤ)
  pub expanded : Option (List Text)

abbrev pub no_updates : Updates
no_updates = record {
  search = none;
  state = none;
  host = none;
  sort = none;
  sort_by = none;
  group = none;
  interval = none;
  page = none;
  page_size = none;
  from = none;
  to = none;
  expanded = none;
}

-- The defaults of searchParamsConfig.
abbrev pub default_params : DashboardUrlParams
default_params = record {
  search = [];
  state = codes "all";
  host = codes "all";
  sort = desc;
  sort_by = SortColumn.created;
  group = by_none;
  interval = hour_1;
  page = pos 1;
  page_size = pos 10;
  from = none;
  to = none;
  expanded = [];
}

-- `left.every((value, index) => value === right[index])`.
every_equal : List Text → List Text → Bool
every_equal [] right = true
every_equal (x ∷ left) [] = false
every_equal (x ∷ left) (y ∷ right) = text_eq x y && every_equal left right

are_string_arrays_equal : List Text → List Text → Bool
unfolding every_equal
are_string_arrays_equal left right =
    if not (length left == length right) then false else every_equal left right

are_dates_equal : Option ℤ → Option ℤ → Bool
are_dates_equal none none = true
are_dates_equal none (some b) = false
are_dates_equal (some a) none = false
are_dates_equal (some a) (some b) = eqb_ℤ a b

-- `===` on the values of the enumerations.
same_direction : SortDirection → SortDirection → Bool
same_direction asc asc = true
same_direction desc desc = true
same_direction _ _ = false

same_group : GroupByOption → GroupByOption → Bool
same_group by_none by_none = true
same_group by_compose by_compose = true
same_group _ _ = false

same_interval : StatsInterval → StatsInterval → Bool
same_interval hour_1 hour_1 = true
same_interval hour_12 hour_12 = true
same_interval _ _ = false

same_column : SortColumn → SortColumn → Bool
same_column SortColumn.name SortColumn.name = true
same_column SortColumn.state SortColumn.state = true
same_column SortColumn.uptime SortColumn.uptime = true
same_column SortColumn.created SortColumn.created = true
same_column SortColumn.cpu SortColumn.cpu = true
same_column SortColumn.ram SortColumn.ram = true
same_column _ _ = false

-- An entry of the updates differs from the current value.
abbrev pub changed : {A : Type 0} → (A → A → Bool) → A → Option A → Bool
changed same current none = false
changed same current (some next) = not (same current next)

unfoldable pub has_dashboard_param_changes : DashboardUrlParams → Updates → Bool
unfolding are_string_arrays_equal are_dates_equal same_direction same_group same_interval
    same_column
has_dashboard_param_changes current updates =
    changed text_eq current.search updates.search
    || changed text_eq current.state updates.state
    || changed text_eq current.host updates.host
    || changed same_direction current.sort updates.sort
    || changed same_column current.sort_by updates.sort_by
    || changed same_group current.group updates.group
    || changed same_interval current.interval updates.interval
    || changed eqb_ℤ current.page updates.page
    || changed eqb_ℤ current.page_size updates.page_size
    || changed are_dates_equal current.from updates.from
    || changed are_dates_equal current.to updates.to
    || changed are_string_arrays_equal current.expanded updates.expanded

-- `setParams(updates)`: an absent key keeps its value.
unfoldable pub set_params : DashboardUrlParams → Updates → DashboardUrlParams
set_params current updates = record {
  search = or_else updates.search current.search;
  state = or_else updates.state current.state;
  host = or_else updates.host current.host;
  sort = or_else updates.sort current.sort;
  sort_by = or_else updates.sort_by current.sort_by;
  group = or_else updates.group current.group;
  interval = or_else updates.interval current.interval;
  page = or_else updates.page current.page;
  page_size = or_else updates.page_size current.page_size;
  from = or_else updates.from current.from;
  to = or_else updates.to current.to;
  expanded = or_else updates.expanded current.expanded;
}

unfoldable pub update_params : DashboardUrlParams → Updates → DashboardUrlParams
update_params params updates =
    if has_dashboard_param_changes params updates then set_params params updates else params

-- The calls that the hook hands out. A date range is a pair of open ends.
pub data Request : Type 0 where
  set_search_term set_state_filter set_host_filter : Text → Request
  set_sort_direction : SortDirection → Request
  set_sort_by : SortColumn → Request
  set_group_by : GroupByOption → Request
  set_stats_interval : StatsInterval → Request
  set_date_range : Option (Option ℤ × Option ℤ) → Request
  clear_date_range : Request
  set_page set_page_size : ℤ → Request
  set_expanded_groups : List Text → Request

abbrev range_from : Option (Option ℤ × Option ℤ) → Option ℤ
range_from none = none
range_from (some (a, b)) = a

abbrev range_to : Option (Option ℤ × Option ℤ) → Option ℤ
range_to none = none
range_to (some (a, b)) = b

-- What each call passes to updateParams. Math.floor leaves an integer as it is.
unfoldable pub updates_of : Request → Updates
updates_of (set_search_term v) = record no_updates { search = some v; page = some (pos 1) }
updates_of (set_state_filter v) = record no_updates {
  state = some (or_text v (codes "all"));
  page = some (pos 1);
}
updates_of (set_host_filter v) = record no_updates {
  host = some (or_text v (codes "all"));
  page = some (pos 1);
}
updates_of (set_sort_direction v) = record no_updates { sort = some v }
updates_of (set_sort_by v) = record no_updates { sort_by = some v }
updates_of (set_group_by v) = record no_updates { group = some v; page = some (pos 1) }
updates_of (set_stats_interval v) = record no_updates { interval = some v }
updates_of (set_date_range r) = record no_updates {
  from = some (range_from r);
  to = some (range_to r);
  page = some (pos 1);
}
updates_of clear_date_range = record no_updates {
  from = some none;
  to = some none;
  page = some (pos 1);
}
updates_of (set_page v) = record no_updates { page = some (max_ℤ (pos 1) v) }
updates_of (set_page_size v) = record no_updates {
  page_size = some (max_ℤ (pos 1) v);
  page = some (pos 1);
}
updates_of (set_expanded_groups v) = record no_updates { expanded = some v }

unfoldable pub handle : DashboardUrlParams → Request → DashboardUrlParams
unfolding update_params updates_of
handle params r = update_params params (updates_of r)

-- The range shown in the picker.
unfoldable pub date_range : DashboardUrlParams → Option (Option ℤ × Option ℤ)
date_range params = elim params.from [
  | none ↦ elim params.to [ none ↦ none | some b ↦ some (none, some b) ]
  | some a ↦ some (some a, params.to)
]
