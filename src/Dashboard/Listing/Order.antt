-- ===== src/Dashboard/Listing/Order.antt =====
-- The filtered list: what it holds, and in which order.
use mathlib.Core.List.{Perm}
use mathlib.Core.Path.{ap₂}
use vps_monitor.Containers.{
  format_container_name, is_pm2, is_process, Runtime, docker, pm2, process, memory, Metric,
  get_historical_value, ContainerInfo, SortColumn, SortDirection, asc, desc, StatsInterval,
}
use vps_monitor.Common.{
  ℕ, ◌≤◌, ◌*◌, ◌-ℤ◌, Text, Option, none, some, negsuc, leb_ℤ, if◌then◌else◌, ◌∙◌, ℤ, List, Bool,
  true, false, filter, All, All-filter_of, compare_ℤ, ◌≡◌, refl, arith, pos, subst, fun_ext, sym,
}
use vps_monitor.Common.Sort.{
  AreInOrder, IsSorted-AreInOrder, sort, is_gt, IsConsistent, sort-perm, sort-All, sort-IsSorted,
  filter-sort, on-IsConsistent, flip-IsConsistent,
}
use vps_monitor.Dashboard.Listing.{
  Locale, Filters, or_minus_one, pm2_cpu, pm2_memory, SortValue, number, string, get_sort_value,
  compare_values, compare_containers, matches_filters, filtered_containers,
}

-- One text may stand before another.
abbrev pub MayPrecede : Locale → Text → Text → Type 0
MayPrecede l s t = is_gt (l.compare s t) ≡ false

-- What is shown of the use of the processor or of the memory: nothing for a process, what PM2 says of its own, and
-- otherwise the recorded average.
abbrev pub usage_of : Option ℤ → Option ℤ → Option Runtime → Option ℤ
usage_of own recorded (some pm2) = own
usage_of own recorded (some process) = none
usage_of own recorded _ = recorded

abbrev pub usage : ContainerInfo → StatsInterval → SortColumn → Option ℤ
usage c interval SortColumn.ram =
    usage_of (pm2_memory c.pm2) (get_historical_value c interval memory) c.runtime
usage c interval _ = usage_of (pm2_cpu c.pm2) (get_historical_value c interval Metric.cpu) c.runtime

-- No use that is known counts as -1.
abbrev pub amount : Option ℤ → ℤ
amount none = negsuc 0
amount (some n) = n

-- In ascending order, the one container may stand before the other: names and states by the order of texts in
-- lower case, times and uses from the least on, where the least uptime is the latest creation.
abbrev pub MayStandBefore :
    Locale → StatsInterval → SortColumn → ContainerInfo → ContainerInfo → Type 0
MayStandBefore l interval SortColumn.name a b =
    MayPrecede l (l.to_lower (format_container_name a.names))
      (l.to_lower (format_container_name b.names))
MayStandBefore l interval SortColumn.state a b =
    MayPrecede l (l.to_lower a.state) (l.to_lower b.state)
MayStandBefore l interval SortColumn.uptime a b = b.created ≤ a.created
MayStandBefore l interval SortColumn.created a b = a.created ≤ b.created
MayStandBefore l interval SortColumn.cpu a b =
    leb_ℤ (amount (usage a interval SortColumn.cpu)) (amount (usage b interval SortColumn.cpu))
    ≡ true
MayStandBefore l interval SortColumn.ram a b =
    leb_ℤ (amount (usage a interval SortColumn.ram)) (amount (usage b interval SortColumn.ram))
    ≡ true

-- The order of a direction.
abbrev pub IsInOrder :
    Locale → StatsInterval → SortColumn → SortDirection → ContainerInfo → ContainerInfo → Type 0
IsInOrder l interval column asc a b = MayStandBefore l interval column a b
IsInOrder l interval column desc a b = MayStandBefore l interval column b a

compare_ℤ-leb : (m n : ℤ) → is_gt (compare_ℤ m n) ≡ false → leb_ℤ m n ≡ true
compare_ℤ-leb m n h = ground (arith, h)

amount-usage : (o : Option ℤ) → or_minus_one o ≡ number (amount o)
amount-usage none = refl
amount-usage (some n) = refl

abbrev usage_value : ContainerInfo → Option Runtime → Option ℤ → Option ℤ → SortValue
usage_value c r own recorded =
    if is_pm2 r
    then or_minus_one own
    else if is_process r
    then number (negsuc 0)
    else or_minus_one recorded

usage_value_lem :
    (c : ContainerInfo) (r : Option Runtime) (own recorded : Option ℤ)
    → usage_value c r own recorded ≡ number (amount (usage_of own recorded r))
usage_value_lem c none own recorded = amount-usage recorded
usage_value_lem c (some docker) own recorded = amount-usage recorded
usage_value_lem c (some pm2) own recorded = amount-usage own
usage_value_lem c (some process) own recorded = refl

compare_ℤ-IsConsistent : IsConsistent compare_ℤ
compare_ℤ-IsConsistent = record { asym = λ x y h. ground arith; trans = λ x y z h k. ground arith }

abbrev value_of : SortValue → ℤ
value_of (number n) = n
value_of (string s) = pos 0

numeric-IsConsistent :
    (l : Locale) (g : ContainerInfo → SortValue)
    → ((c : ContainerInfo) → g c ≡ number (value_of (g c)))
    → IsConsistent (λ a b. compare_values l (g a) (g b))
unfolding compare_values
numeric-IsConsistent l g n =
    subst IsConsistent (fun_ext (λ a. fun_ext (λ b. sym (ap₂ (compare_values l) (n a) (n b)))))
      (on-IsConsistent compare_ℤ (λ c. value_of (g c)) compare_ℤ-IsConsistent)

uptime_lem :
    (now : ℤ) (a b : ℕ)
    → is_gt (compare_ℤ (now -ℤ pos (a * 1000)) (now -ℤ pos (b * 1000))) ≡ false
    → b ≤ a
unfolding ◌-ℤ◌
uptime_lem now a b h = ground (arith, h)

usage_lem :
    (l : Locale) {u v : SortValue} {m n : ℤ}
    → u ≡ number m
    → v ≡ number n
    → is_gt (compare_values l u v) ≡ false
    → leb_ℤ m n ≡ true
unfolding compare_values
usage_lem l {m} {n} p q h =
    compare_ℤ-leb m n (sym (ap₂ (λ x y. is_gt (compare_values l x y)) p q) ∙ h)

module _ (l : Locale) (now : ℤ) (interval : StatsInterval) where
  -- Every column compares consistently if the runtime's order of texts does.
  column-IsConsistent :
      IsConsistent l.compare
      → (column : SortColumn)
      → IsConsistent (λ a b.
        compare_values l
          (get_sort_value l now interval a column)
          (get_sort_value l now interval b column))
  unfolding compare_values get_sort_value
  column-IsConsistent k SortColumn.name =
      on-IsConsistent l.compare (λ c. l.to_lower (format_container_name c.names)) k
  column-IsConsistent k SortColumn.state = on-IsConsistent l.compare (λ c. l.to_lower c.state) k
  column-IsConsistent k SortColumn.uptime =
      numeric-IsConsistent l (λ c. get_sort_value l now interval c SortColumn.uptime) (λ c. refl)
  column-IsConsistent k SortColumn.created =
      numeric-IsConsistent l (λ c. get_sort_value l now interval c SortColumn.created) (λ c. refl)
  column-IsConsistent k SortColumn.cpu =
      numeric-IsConsistent l (λ c. get_sort_value l now interval c SortColumn.cpu)
        (λ c. ground arith)
  column-IsConsistent k SortColumn.ram =
      numeric-IsConsistent l (λ c. get_sort_value l now interval c SortColumn.ram)
        (λ c. ground arith)

  compare_containers-IsConsistent :
      IsConsistent l.compare
      → (column : SortColumn) (direction : SortDirection)
      → IsConsistent (compare_containers l now interval column direction)
  unfolding compare_containers
  compare_containers-IsConsistent k column asc = column-IsConsistent k column
  compare_containers-IsConsistent k column desc =
      flip-IsConsistent
        (λ a b.
          compare_values l (get_sort_value l now interval a column)
            (get_sort_value l now interval b column))
        (column-IsConsistent k column)

  -- The comparison of the sort values is the order of the column.
  column_lem :
      (column : SortColumn) (a b : ContainerInfo)
      → is_gt (
          compare_values l
            (get_sort_value l now interval a column)
            (get_sort_value l now interval b column))
        ≡ false
      → MayStandBefore l interval column a b
  unfolding compare_values get_sort_value
  column_lem SortColumn.name a b h = h
  column_lem SortColumn.state a b h = h
  column_lem SortColumn.uptime a b h = uptime_lem now a.created b.created h
  column_lem SortColumn.created a b h = ground (arith, h)
  column_lem SortColumn.cpu a b h =
      usage_lem l
        (usage_value_lem a a.runtime (pm2_cpu a.pm2) (get_historical_value a interval Metric.cpu))
        (usage_value_lem b b.runtime (pm2_cpu b.pm2) (get_historical_value b interval Metric.cpu)) h
  column_lem SortColumn.ram a b h =
      usage_lem l
        (usage_value_lem a a.runtime (pm2_memory a.pm2) (get_historical_value a interval memory))
        (usage_value_lem b b.runtime (pm2_memory b.pm2) (get_historical_value b interval memory)) h

  compare_containers_lem :
      (column : SortColumn) (direction : SortDirection) (a b : ContainerInfo)
      → is_gt (compare_containers l now interval column direction a b) ≡ false
      → IsInOrder l interval column direction a b
  unfolding compare_containers
  compare_containers_lem column asc a b h = column_lem column a b h
  compare_containers_lem column desc a b h = column_lem column b a h

  module _ (f : Filters) (column : SortColumn) (direction : SortDirection)
      (cs : List ContainerInfo) where
    -- What the list promises: the containers that match, each once, in the order asked for.
    pub record IsListing (rows : List ContainerInfo) : Type 0 where
      pub same : Perm rows (filter (matches_filters l f true) cs)
      pub matching : All (λ c. matches_filters l f true c ≡ true) rows
      pub sorted : AreInOrder (IsInOrder l interval column direction) rows

    -- If the order of texts is consistent, then for every column and direction the filtered list holds the
    -- containers that match, each once, in the order asked for.
    pub filtered_containers-IsListing :
        IsConsistent l.compare
        → IsListing (filtered_containers l f now interval column direction cs)
    unfolding filtered_containers
    filtered_containers-IsListing k =
        let cmp = compare_containers l now interval column direction in
        let kept = filter (matches_filters l f true) cs in
        record {
          same = sort-perm cmp kept;
          matching =
              sort-All cmp (λ c. matches_filters l f true c ≡ true) kept
                (All-filter_of (λ c. matches_filters l f true c ≡ true) (matches_filters l f true)
                  (λ c h. h) cs);
          sorted =
              IsSorted-AreInOrder cmp (IsInOrder l interval column direction) (sort cmp kept)
                (compare_containers_lem column direction)
                (sort-IsSorted cmp (compare_containers-IsConsistent k column direction) kept);
        }

    -- Containers of a class within which the comparison finds no order are listed in the order in
    -- which they came.
    pub filtered_containers_stable :
        (p : ContainerInfo → Bool)
        → ((a b : ContainerInfo)
            → p a ≡ true
            → p b ≡ true
            → is_gt (compare_containers l now interval column direction a b) ≡ false)
        → filter p (filtered_containers l f now interval column direction cs)
          ≡ filter p (filter (matches_filters l f true) cs)
    unfolding filtered_containers
    filtered_containers_stable p tied =
        filter-sort (compare_containers l now interval column direction) p tied
          (filter (matches_filters l f true) cs)
