-- ===== src/Dashboard/UrlState/Parsers.antt =====
-- The parsers of frontend/src/features/containers/hooks/use-containers-dashboard-url-state.ts for
-- the enumerations in the URL.
use vps_monitor.Common.{
  Text, codes, text_eq, text_eq_iff, Option, none, some, ◌≡◌, ◌↔◌, if◌then◌else◌, arith,
}
use vps_monitor.Containers.{
  SortDirection, asc, desc, SortColumn, GroupByOption, by_none, by_compose, StatsInterval, hour_1,
  hour_12,
}

unfoldable pub serialize_sort_direction : SortDirection → Text
serialize_sort_direction asc = codes "asc"
serialize_sort_direction desc = codes "desc"

unfoldable pub parse_sort_direction : Text → Option SortDirection
parse_sort_direction value =
    if text_eq value (codes "asc")
    then some asc
    else if text_eq value (codes "desc")
    then some desc
    else none

unfoldable pub serialize_group_by : GroupByOption → Text
serialize_group_by by_none = codes "none"
serialize_group_by by_compose = codes "compose"

unfoldable pub parse_group_by : Text → Option GroupByOption
parse_group_by value =
    if text_eq value (codes "none")
    then some by_none
    else if text_eq value (codes "compose")
    then some by_compose
    else none

unfoldable pub serialize_stats_interval : StatsInterval → Text
serialize_stats_interval hour_1 = codes "1h"
serialize_stats_interval hour_12 = codes "12h"

unfoldable pub parse_stats_interval : Text → Option StatsInterval
parse_stats_interval value =
    if text_eq value (codes "1h")
    then some hour_1
    else if text_eq value (codes "12h")
    then some hour_12
    else none

unfoldable pub serialize_sort_column : SortColumn → Text
serialize_sort_column SortColumn.name = codes "name"
serialize_sort_column SortColumn.state = codes "state"
serialize_sort_column SortColumn.uptime = codes "uptime"
serialize_sort_column SortColumn.created = codes "created"
serialize_sort_column SortColumn.cpu = codes "cpu"
serialize_sort_column SortColumn.ram = codes "ram"

unfoldable pub parse_sort_column : Text → Option SortColumn
parse_sort_column value =
    if text_eq value (codes "name")
    then some SortColumn.name
    else if text_eq value (codes "state")
    then some SortColumn.state
    else if text_eq value (codes "uptime")
    then some SortColumn.uptime
    else if text_eq value (codes "created")
    then some SortColumn.created
    else if text_eq value (codes "cpu")
    then some SortColumn.cpu
    else if text_eq value (codes "ram")
    then some SortColumn.ram
    else none

-- A parser accepts exactly the texts that the serialiser writes, as the values they stand for.
abbrev pub Inverts : {A : Type 0} → (Text → Option A) → (A → Text) → Type 0
Inverts {A} parse serialize = (t : Text) (v : A) → (parse t ≡ some v) ↔ (t ≡ serialize v)

parse_sort_direction-Inverts : Inverts parse_sort_direction serialize_sort_direction
unfolding parse_sort_direction serialize_sort_direction
parse_sort_direction-Inverts t asc =
    ground (arith, text_eq_iff t (codes "asc"), text_eq_iff t (codes "desc"))
parse_sort_direction-Inverts t desc =
    ground (arith, text_eq_iff t (codes "asc"), text_eq_iff t (codes "desc"))

parse_group_by-Inverts : Inverts parse_group_by serialize_group_by
unfolding parse_group_by serialize_group_by
parse_group_by-Inverts t by_none =
    ground (arith, text_eq_iff t (codes "none"), text_eq_iff t (codes "compose"))
parse_group_by-Inverts t by_compose =
    ground (arith, text_eq_iff t (codes "none"), text_eq_iff t (codes "compose"))

parse_stats_interval-Inverts : Inverts parse_stats_interval serialize_stats_interval
unfolding parse_stats_interval serialize_stats_interval
parse_stats_interval-Inverts t hour_1 =
    ground (arith, text_eq_iff t (codes "1h"), text_eq_iff t (codes "12h"))
parse_stats_interval-Inverts t hour_12 =
    ground (arith, text_eq_iff t (codes "1h"), text_eq_iff t (codes "12h"))

parse_sort_column-Inverts : Inverts parse_sort_column serialize_sort_column
unfolding parse_sort_column serialize_sort_column
parse_sort_column-Inverts t SortColumn.name = ground (
  arith,
  text_eq_iff t (codes "name"),
  text_eq_iff t (codes "state"),
  text_eq_iff t (codes "uptime"),
  text_eq_iff t (codes "created"),
  text_eq_iff t (codes "cpu"),
  text_eq_iff t (codes "ram"),
)
parse_sort_column-Inverts t v = ground (
  arith,
  text_eq_iff t (codes "name"),
  text_eq_iff t (codes "state"),
  text_eq_iff t (codes "uptime"),
  text_eq_iff t (codes "created"),
  text_eq_iff t (codes "cpu"),
  text_eq_iff t (codes "ram"),
)

-- Every parser of the URL's enumerations accepts exactly what its serialiser writes.
pub parsers-Inverts :
    Inverts parse_sort_direction serialize_sort_direction
    × Inverts parse_group_by serialize_group_by
    × Inverts parse_stats_interval serialize_stats_interval
    × Inverts parse_sort_column serialize_sort_column
parsers-Inverts = (
  parse_sort_direction-Inverts, parse_group_by-Inverts, parse_stats_interval-Inverts,
  parse_sort_column-Inverts,
)
