-- ===== src/Scanner/Table.antt =====
-- The results table of frontend/src/features/scanner/components/scan-results-table.tsx: the search and
-- the order of the rows.
use mathlib.Core.List.{Perm}
use vps_monitor.Common.{
  ℕ, ◌≤◌, sym, refl, [], ◌∷◌, not, Text, truthy, includes, List, Bool, true, false, ◌||◌,
  if◌then◌else◌, filter, All, All-filter_of, Ordering, compare, ◌≡◌, arith, subst, fun_ext,
}
use vps_monitor.Common.Sort.{
  AreInOrder, IsSorted-AreInOrder, is_gt, sort, IsConsistent, sort-perm, sort-All, sort-IsSorted,
  on-IsConsistent, flip-IsConsistent, compare-IsConsistent,
}
use vps_monitor.Dashboard.Listing.{Locale}
use vps_monitor.Containers.{SortDirection, asc, desc}
use vps_monitor.Scanner.{
  SeverityLevel, critical, high, medium, low, negligible, unknown, Vulnerability, severity_text,
  severity_order,
}

pub data SortField : Type 0 where
  severity id package_name : SortField

pub record TableState : Type 0 where
  pub search_text : Text
  pub sort_field : SortField
  pub sort_dir : SortDirection

abbrev same_field : SortField → SortField → Bool
same_field severity severity = true
same_field id id = true
same_field package_name package_name = true
same_field _ _ = false

abbrev opposite : SortDirection → SortDirection
opposite asc = desc
opposite desc = asc

unfoldable pub toggle_sort : SortField → TableState → TableState
toggle_sort field s =
    if same_field s.sort_field field
    then record s { sort_dir = opposite s.sort_dir }
    else record s { sort_field = field; sort_dir = asc }

-- `-cmp`.
abbrev pub negate : Ordering → Ordering
negate Ordering.lt = Ordering.gt
negate Ordering.eq = Ordering.eq
negate Ordering.gt = Ordering.lt

-- How far a severity is from the worst.
abbrev pub rank : SeverityLevel → ℕ
rank critical = 0
rank high = 1
rank medium = 2
rank low = 3
rank negligible = 4
rank unknown = 5

severity_order-rank : (v : SeverityLevel) → severity_order v ≡ rank v
unfolding severity_order
severity_order-rank critical = refl
severity_order-rank high = refl
severity_order-rank medium = refl
severity_order-rank low = refl
severity_order-rank negligible = refl
severity_order-rank unknown = refl

severity_lem :
    (a b : SeverityLevel)
    → is_gt (compare (severity_order a) (severity_order b)) ≡ false
    → rank a ≤ rank b
unfolding severity_order
severity_lem a b h =
    let e = severity_order-rank a in let e' = severity_order-rank b in ground (arith, h, e, e')

module _ (l : Locale) where
  unfoldable pub matches : Text → Vulnerability → Bool
  matches s v =
      includes (l.to_lower v.id) s
      || includes (l.to_lower v.package_name) s
      || includes (l.to_lower (severity_text v.severity)) s

  unfoldable pub compare_by : SortField → Vulnerability → Vulnerability → Ordering
  compare_by severity a b = compare (severity_order a.severity) (severity_order b.severity)
  compare_by id a b = l.compare a.id b.id
  compare_by package_name a b = l.compare a.package_name b.package_name

  unfoldable pub directed : SortField → SortDirection → Vulnerability → Vulnerability → Ordering
  unfolding compare_by
  directed field asc a b = compare_by field a b
  directed field desc a b = negate (compare_by field a b)

  unfoldable pub found : Text → List Vulnerability → List Vulnerability
  unfolding matches
  found s items = if truthy s then filter (matches (l.to_lower s)) items else items

  unfoldable pub filtered : TableState → List Vulnerability → List Vulnerability
  unfolding directed found
  filtered s items = sort (directed s.sort_field s.sort_dir) (found s.search_text items)

  -- What the language says of localeCompare.
  pub record IsCollation : Type 0 where
    pub consistent : IsConsistent l.compare
    pub symmetric : (a b : Text) → l.compare b a ≡ negate (l.compare a b)

  compare_by-IsConsistent : IsCollation → (field : SortField) → IsConsistent (compare_by field)
  unfolding compare_by
  compare_by-IsConsistent k severity =
      on-IsConsistent compare (λ v. severity_order v.severity) compare-IsConsistent
  compare_by-IsConsistent k id = on-IsConsistent l.compare (λ v. v.id) k.consistent
  compare_by-IsConsistent k package_name =
      on-IsConsistent l.compare (λ v. v.package_name) k.consistent

  compare_by-negate :
      IsCollation
      → (field : SortField) (a b : Vulnerability)
      → compare_by field b a ≡ negate (compare_by field a b)
  unfolding compare_by
  compare_by-negate k severity a b = ground arith
  compare_by-negate k id a b = k.symmetric a.id b.id
  compare_by-negate k package_name a b = k.symmetric a.package_name b.package_name

  directed-IsConsistent :
      IsCollation → (field : SortField) (dir : SortDirection) → IsConsistent (directed field dir)
  unfolding directed
  directed-IsConsistent k field asc = compare_by-IsConsistent k field
  directed-IsConsistent k field desc =
      subst IsConsistent (fun_ext (λ a. fun_ext (λ b. compare_by-negate k field a b)))
        (flip-IsConsistent (compare_by field) (compare_by-IsConsistent k field))

  All-true :
      (p : Vulnerability → Bool) (items : List Vulnerability)
      → All (λ v. (true || p v) ≡ true) items
  All-true p [] = tt
  All-true p (v ∷ items) = (refl, All-true p items)

  All-found :
      (t : Text) (items : List Vulnerability)
      → All (λ v. (not (truthy t) || matches (l.to_lower t) v) ≡ true) (found t items)
  unfolding found
  All-found [] items = All-true (matches (l.to_lower [])) items
  All-found (c ∷ t) items =
      All-filter_of (λ v. matches (l.to_lower (c ∷ t)) v ≡ true) (matches (l.to_lower (c ∷ t)))
        (λ v h. h) items

  -- In ascending order, the one row may stand before the other: the worse severity first, and names and
  -- packages by the order of texts.
  abbrev pub MayStandBefore : SortField → Vulnerability → Vulnerability → Type 0
  MayStandBefore severity a b = rank a.severity ≤ rank b.severity
  MayStandBefore id a b = is_gt (l.compare a.id b.id) ≡ false
  MayStandBefore package_name a b = is_gt (l.compare a.package_name b.package_name) ≡ false

  -- The order of a direction.
  abbrev pub IsInOrder : SortField → SortDirection → Vulnerability → Vulnerability → Type 0
  IsInOrder field asc a b = MayStandBefore field a b
  IsInOrder field desc a b = MayStandBefore field b a

  compare_by_lem :
      (field : SortField) (a b : Vulnerability)
      → is_gt (compare_by field a b) ≡ false
      → MayStandBefore field a b
  unfolding compare_by
  compare_by_lem severity a b h = severity_lem a.severity b.severity h
  compare_by_lem id a b h = h
  compare_by_lem package_name a b h = h

  directed_lem :
      IsCollation
      → (field : SortField) (dir : SortDirection) (a b : Vulnerability)
      → is_gt (directed field dir a b) ≡ false
      → IsInOrder field dir a b
  unfolding directed
  directed_lem k field asc a b h = compare_by_lem field a b h
  directed_lem k field desc a b h =
      compare_by_lem field b a
        (subst (λ o. is_gt o ≡ false) (sym (compare_by-negate k field a b)) h)

  -- What the table promises: the vulnerabilities that the search finds, each once, in the order of the
  -- chosen field and direction.
  pub record IsTable (s : TableState) (items rows : List Vulnerability) : Type 0 where
    pub same : Perm rows (found s.search_text items)
    pub matching :
        All (λ v. (not (truthy s.search_text) || matches (l.to_lower s.search_text) v) ≡ true) rows
    pub sorted : AreInOrder (IsInOrder s.sort_field s.sort_dir) rows

  -- If the order of texts is a collation, the table holds the vulnerabilities that the search finds, each
  -- once, in the order of the chosen field and direction.
  pub filtered-IsTable :
      (s : TableState) (items : List Vulnerability)
      → IsCollation
      → IsTable s items (filtered s items)
  unfolding filtered
  filtered-IsTable s items k =
      let cmp = directed s.sort_field s.sort_dir in
      let p = matches (l.to_lower s.search_text) in
      record {
        same = sort-perm cmp (found s.search_text items);
        matching =
            sort-All cmp (λ v. (not (truthy s.search_text) || p v) ≡ true)
              (found s.search_text items) (All-found s.search_text items);
        sorted =
            IsSorted-AreInOrder cmp (IsInOrder s.sort_field s.sort_dir)
              (sort cmp (found s.search_text items)) (directed_lem k s.sort_field s.sort_dir)
              (sort-IsSorted cmp (directed-IsConsistent k s.sort_field s.sort_dir)
                (found s.search_text items));
      }
