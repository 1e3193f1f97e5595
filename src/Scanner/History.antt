-- ===== src/Scanner/History.antt =====
-- The history of scans: the page of frontend/src/features/scanner/components/scan-history-page.tsx, the
-- request of api/get-scan-history.ts, and what sbom-history-page.tsx beside it does otherwise. Pages and
-- counts are natural numbers; the text of a number is the runtime's, a parameter.
pub mod Pages
pub mod Request
mod Tests
use vps_monitor.Common.{
  ℕ, suc, ◌+◌, ◌-◌, Text, codes, truthy, text_eq, Option, none, some, List, [], ◌∷◌, ◌++◌, map,
  Bool, true, false, not, ◌&&◌, ◌||◌, if◌then◌else◌, leb, ltb, or_else, ◌==◌,
}
use vps_monitor.Common.Dict.{get, set}
use vps_monitor.Common.Sets.{add_all}

pub data SortBy : Type 0 where
  completed_at summary_total summary_critical : SortBy

pub data SortDir : Type 0 where
  asc desc : SortDir

abbrev pub sort_text : SortBy → Text
sort_text completed_at = codes "completed_at"
sort_text summary_total = codes "summary_total"
sort_text summary_critical = codes "summary_critical"

abbrev pub dir_text : SortDir → Text
dir_text asc = codes "asc"
dir_text desc = codes "desc"

pub record Params : Type 0 where
  pub page : ℕ
  pub page_size : ℕ
  pub sort_by : SortBy
  pub sort_dir : SortDir

-- What the query has loaded: the page that the server answers with, and how many there are.
pub record Loaded : Type 0 where
  pub page : ℕ
  pub total_pages : ℕ

pub record History : Type 0 where
  pub params : Params
  pub image_filter : Text
  pub host_filter : Text
  pub severity_filter : Text
  pub loaded : Option Loaded

abbrev pub opened : History
opened = record {
  params = record { page = 1; page_size = 20; sort_by = completed_at; sort_dir = desc };
  image_filter = [];
  host_filter = [];
  severity_filter = [];
  loaded = none;
}

unfoldable pub toggle_sort : SortBy → Params → Params
toggle_sort by prev = record prev {
  sort_by = by;
  sort_dir = elim prev.sort_dir [ desc ↦ asc | asc ↦ desc ];
}

pub data AriaSort : Type 0 where
  unsorted ascending descending : AriaSort

unfoldable pub get_aria_sort : Params → SortBy → AriaSort
get_aria_sort params by =
    if not (text_eq (sort_text params.sort_by) (sort_text by))
    then unsorted
    else elim params.sort_dir [ asc ↦ ascending | desc ↦ descending ]

abbrev pub on_page : ℕ → Params → Params
on_page n prev = record prev { page = n }

-- `v === "all" ? "" : v`.
abbrev pub unless_all : Text → Text
unless_all v = if text_eq v (codes "all") then [] else v

unfoldable pub clear_filters : History → History
clear_filters s = record s {
  image_filter = [];
  host_filter = [];
  severity_filter = [];
  params = on_page 1 s.params;
  loaded = none;
}

-- What the user does, and a reply to the current query. With another query nothing is loaded until its
-- reply comes.
pub data Input : Type 0 where
  image_typed host_picked severity_picked : Text → Input
  cleared : Input
  sorted : SortBy → Input
  previous next : Input
  replied : Loaded → Input

-- The buttons are there where more than one page is loaded, and pressed unless disabled.
abbrev pub previous_enabled : Option Loaded → Bool
previous_enabled none = false
previous_enabled (some l) = ltb 1 l.total_pages && not (leb l.page 1)

abbrev pub next_enabled : Option Loaded → Bool
next_enabled none = false
next_enabled (some l) = ltb 1 l.total_pages && not (leb l.total_pages l.page)

unfoldable pub handle : Input → History → History
unfolding toggle_sort clear_filters
handle (image_typed v) s = record s { image_filter = v; params = on_page 1 s.params; loaded = none }
handle (host_picked v) s = record s {
  host_filter = unless_all v;
  params = on_page 1 s.params;
  loaded = none;
}
handle (severity_picked v) s = record s {
  severity_filter = unless_all v;
  params = on_page 1 s.params;
  loaded = none;
}
handle cleared s = clear_filters s
handle (sorted by) s = record s { params = toggle_sort by s.params; loaded = none }
handle previous s =
    if previous_enabled s.loaded
    then record s { params = on_page (s.params.page - 1) s.params; loaded = none }
    else s
handle next s =
    if next_enabled s.loaded
    then record s { params = on_page (s.params.page + 1) s.params; loaded = none }
    else s
handle (replied l) s = record s { loaded = some l }

-- The parameters of the query, where `none` is undefined.
pub record Query : Type 0 where
  pub params : Params
  pub image : Option Text
  pub host : Option Text
  pub min_severity : Option Text

-- `value || undefined`.
abbrev pub or_undefined : Text → Option Text
or_undefined [] = none
or_undefined (c ∷ s) = some (c ∷ s)

unfoldable pub query : History → Query
query s = record {
  params = s.params;
  image = or_undefined s.image_filter;
  host = or_undefined s.host_filter;
  min_severity =
      if text_eq s.severity_filter (codes "all") || text_eq s.severity_filter []
      then none
      else some s.severity_filter;
}

-- `if (value) searchParams.set(key, value)`.
abbrev pub set_text : Text → Option Text → List (Text × Text) → List (Text × Text)
set_text key none m = m
set_text key (some []) m = m
set_text key (some (c ∷ v)) m = set key (c ∷ v) m

abbrev pub set_number : (ℕ → Text) → Text → ℕ → List (Text × Text) → List (Text × Text)
set_number print key n m = if n == 0 then m else set key (print n) m

-- The search parameters of `getScanHistory`; the page sets no dates.
unfoldable pub search_params : (ℕ → Text) → Query → List (Text × Text)
search_params print q = set (codes "sort_dir") (dir_text q.params.sort_dir) (
    set (codes "sort_by") (sort_text q.params.sort_by) (
      set_number print (codes "page_size") q.params.page_size (
        set_number print (codes "page") q.params.page (
          set_text (codes "min_severity") q.min_severity
            (set_text (codes "host") q.host (set_text (codes "image") q.image []))))))

-- The sums on the page, and the hosts to choose from.
unfoldable pub total : List ℕ → ℕ
total [] = 0
total (n ∷ ns) = n + total ns

unfoldable pub unique_hosts : List Text → List Text
unique_hosts hosts = add_all hosts []

-- `formatCounts` of the page of SBOMs, over the formats of the loaded results.
unfoldable pub format_counts : List Text → List (Text × ℕ) → List (Text × ℕ)
format_counts [] counts = counts
format_counts (f ∷ fs) counts = format_counts fs (set f (or_else (get f counts) 0 + 1) counts)
