-- ===== src/Scanner/History/Pages.antt =====
-- The pages of the scan history, and the counts of the formats of the loaded SBOMs.
use vps_monitor.Scanner.History.{
  format_counts, Loaded, History, opened, Input, image_typed, host_picked, severity_picked, cleared,
  sorted, previous, next, replied, handle, toggle_sort, clear_filters, previous_enabled,
  next_enabled,
}
use vps_monitor.Common.{
  ℕ, ◌+◌, ◌-◌, ◌≤◌, max, Text, text_eq, text_eq_iff, Option, none, some, List, [], ◌∷◌, true,
  or_else, ◌≡◌, refl, arith, count,
}
use vps_monitor.Common.Dict.{get, set, get-set}

abbrev pub IsGesture : Input → Type 0
IsGesture (replied l) = ⊥
IsGesture _ = Unit

-- The states of the page, where the server answers a query with the page that the query asks for.
pub data Session : History → Type 0 where
  begun : Session opened
  acted : {s : History} (i : Input) → IsGesture i → Session s → Session (handle i s)
  answered :
      {s : History} (n : ℕ)
      → Session s
      → Session (handle (replied (record { page = s.params.page; total_pages = n })) s)

abbrev Asked : Option Loaded → ℕ → Type 0
Asked none page = Unit
Asked (some l) page = l.page ≡ page

abbrev IsPaged : History → Type 0
IsPaged s = (1 ≤ s.params.page) × Asked s.loaded s.params.page

previous_lem :
    (o : Option Loaded) (page : ℕ) → Asked o page → previous_enabled o ≡ true → 1 ≤ page - 1
previous_lem none page h e = ground (arith, e)
previous_lem (some l) page h e = ground (arith, e, h)

handle-IsPaged : (i : Input) (s : History) → IsGesture i → IsPaged s → IsPaged (handle i s)
unfolding handle clear_filters toggle_sort
handle-IsPaged (image_typed v) s g h = (omega arith, tt)
handle-IsPaged (host_picked v) s g h = (omega arith, tt)
handle-IsPaged (severity_picked v) s g h = (omega arith, tt)
handle-IsPaged cleared s g h = (omega arith, tt)
handle-IsPaged (sorted by) s g h = (h.0, tt)
handle-IsPaged previous s g h = ground (arith, h, previous_lem s.loaded s.params.page h.1)
handle-IsPaged next s g h = ground (arith, h)
handle-IsPaged (replied l) s g h = absurd g

Session-IsPaged : (s : History) → Session s → IsPaged s
unfolding handle
Session-IsPaged _ begun = (omega arith, tt)
Session-IsPaged _ (acted {s} i g t) = handle-IsPaged i s g (Session-IsPaged s t)
Session-IsPaged _ (answered {s} n t) = ((Session-IsPaged s t).0, refl)

next_lem :
    (o : Option Loaded) (l : Loaded) (page : ℕ)
    → o ≡ some l
    → Asked o page
    → next_enabled o ≡ true
    → page + 1 ≤ l.total_pages
next_lem none l page e h n = ground (arith, n)
next_lem (some m) l page e h n = ground (arith, e, h, n)

-- In any session in which the server answers a query with the page asked for, the page is never below
-- 1, whatever buttons are pressed in whatever order, and going on from a loaded page does not lead past
-- the last one.
pub page_bounds :
    (s : History) (l : Loaded)
    → Session s
    → s.loaded ≡ some l
    → (1 ≤ s.params.page)
      × ((1 ≤ (handle previous s).params.page)
          × ((handle next s).params.page ≤ max s.params.page l.total_pages))
unfolding handle
page_bounds s l t e =
    let h = Session-IsPaged s t in
    (
      h.0,
      ((handle-IsPaged previous s tt h).0, ground (arith, next_lem s.loaded l s.params.page e h.1)),
    )

count-format_counts :
    (f : Text) (fs : List Text) (counts : List (Text × ℕ))
    → or_else (get f (format_counts fs counts)) 0
      ≡ or_else (get f counts) 0 + count (λ g. text_eq g f) fs
unfolding format_counts
count-format_counts f [] counts = omega arith
count-format_counts f (g ∷ fs) counts = ground (
  arith,
  count-format_counts f fs (set g (or_else (get g counts) 0 + 1) counts),
  get-set g f (or_else (get g counts) 0 + 1) counts,
  text_eq_iff g f,
)
