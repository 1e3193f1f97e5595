-- ===== src/Dashboard/Buttons.antt =====
-- The page buttons of frontend/src/features/containers/components/containers-pagination.tsx, for pages
-- that are not negative.
use vps_monitor.Common.{
  ℕ, zero, suc, ◌+◌, ◌-◌, ◌≤◌, Option, none, some, List, [], ◌∷◌, Bool, true, false, not, ◌&&◌,
  ◌||◌, if◌then◌else◌, ◌==◌, ltb, leb, ◌≡◌, refl, arith, subst, ◌<◌, Bool-cases, inl, inr,
}

pub data Button : Type 0 where
  number : ℕ → Button
  ellipsis : Button

-- `handlePageClick`: the page that is changed to, if any.
unfoldable pub handle_page_click : ℕ → ℕ → ℕ → Option ℕ
handle_page_click page total_pages next_page =
    if ltb next_page 1 || ltb total_pages next_page || next_page == page
    then none
    else some next_page

-- So many numbers after the first one given.
unfoldable pub numbers : ℕ → ℕ → List Button
numbers n zero = []
numbers n (suc k) = number (suc n) ∷ numbers (suc n) k

abbrev shown_if : Bool → Button → List Button → List Button
shown_if true b rest = b ∷ rest
shown_if false b rest = rest

unfoldable pub render_pagination_numbers : ℕ → ℕ → List Button
unfolding numbers
render_pagination_numbers page total_pages =
    if leb total_pages 7
    then numbers 0 total_pages
    else number 1
      ∷ shown_if (ltb 3 page) ellipsis (
          shown_if (ltb 2 page) (number (page - 1)) (
            shown_if (not (page == 1) && not (page == total_pages)) (number page) (
              shown_if (ltb page (total_pages - 1)) (number (page + 1))
                (shown_if (ltb page (total_pages - 2)) ellipsis (number total_pages ∷ [])))))

-- After a number, a row goes on with the next number, or with an ellipsis and a number further on; it
-- ends at the total.
abbrev pub IsRow : ℕ → ℕ → List Button → Type 0
IsRow total n [] = n ≡ total
IsRow total n (number m ∷ row) = (m ≡ suc n) × IsRow total m row
IsRow total n (ellipsis ∷ number m ∷ row) = (n + 2 ≤ m) × IsRow total m row
IsRow total n (ellipsis ∷ _) = ⊥

-- The button of the page stands in the row.
abbrev pub stands : ℕ → List Button → Bool
stands page [] = false
stands page (number m ∷ row) = page == m || stands page row
stands page (ellipsis ∷ row) = stands page row

numbers-IsRow : (n k : ℕ) → IsRow (n + k) n (numbers n k)
unfolding numbers
numbers-IsRow n zero = omega arith
numbers-IsRow n (suc k) =
    let e : suc n + k ≡ n + suc k = omega arith in
    (refl, subst (λ t. IsRow t (suc n) (numbers (suc n) k)) e (numbers-IsRow (suc n) k))

stands-numbers : (page n k : ℕ) → suc n ≤ page → page ≤ n + k → stands page (numbers n k) ≡ true
unfolding numbers
stands-numbers page n zero lo hi = absurd (omega arith)
stands-numbers page n (suc k) lo hi = elim (Bool-cases (page == suc n)) [
  | inl e ↦ ground (arith, e)
  | inr e ↦
      let next : suc (suc n) ≤ page = ground arith in
      let end : page ≤ suc n + k = omega arith in
      ground (arith, stands-numbers page (suc n) k next end)
]

-- The buttons after the page's own.
after_page-IsRow :
    (page total_pages : ℕ)
    → page < total_pages
    → IsRow total_pages page (
        shown_if
          (ltb page (total_pages - 1))
          (number (page + 1))
          (shown_if (ltb page (total_pages - 2)) ellipsis (number total_pages ∷ [])))
after_page-IsRow page total_pages lt = elim (Bool-cases (ltb page (total_pages - 1))) [
  | inl e ↦ elim (Bool-cases (ltb page (total_pages - 2))) [
    | inl e' ↦ rw (e, e') (ground arith)
    | inr e' ↦ rw (e, e') (ground arith)
  ]
  | inr e ↦ let e' : ltb page (total_pages - 2) ≡ false = ground arith in rw (e, e') (ground arith)
]

-- The buttons between the first one and the page's own.
before_page-IsRow :
    (page total_pages : ℕ) (row : List Button)
    → 1 ≤ page
    → (page ≡ 1 → IsRow total_pages 1 row)
    → (2 ≤ page → IsRow total_pages (page - 1) row)
    → IsRow total_pages 1
        (shown_if (ltb 3 page) ellipsis (shown_if (ltb 2 page) (number (page - 1)) row))
before_page-IsRow page total_pages row lo one more = elim (Bool-cases (ltb 3 page)) [
  | inl e ↦
      let e' : ltb 2 page ≡ true = ground arith in rw (e, e') (ground arith, more (ground arith))
  | inr e ↦ elim (Bool-cases (ltb 2 page)) [
    | inl e' ↦ let three : page - 1 ≡ 2 = ground arith in rw (e, e') (three, more (ground arith))
    | inr e' ↦ elim (Bool-cases (page == 1)) [
      | inl one_page ↦ let first : page ≡ 1 = ground arith in rw (e, e') (one first)
      | inr not_one ↦
          let second : page - 1 ≡ 1 = ground arith in
          rw (e, e') (subst (λ n. IsRow total_pages n row) second (more (ground arith)))
    ]
  ]
]

-- The buttons from the page's own on.
abbrev from_page : ℕ → ℕ → List Button
from_page page total_pages = shown_if (not (page == 1) && not (page == total_pages)) (number page) (
    shown_if (ltb page (total_pages - 1)) (number (page + 1))
      (shown_if (ltb page (total_pages - 2)) ellipsis (number total_pages ∷ [])))

from_first-IsRow :
    (page total_pages : ℕ)
    → page ≡ 1
    → 8 ≤ total_pages
    → IsRow total_pages 1 (from_page page total_pages)
from_first-IsRow page total_pages one many =
    let e : (page == 1) ≡ true = ground arith in
    rw e (
      subst
        (λ n. IsRow total_pages n (
          shown_if (ltb page (total_pages - 1)) (number (page + 1))
            (shown_if (ltb page (total_pages - 2)) ellipsis (number total_pages ∷ []))))
        one (after_page-IsRow page total_pages (omega arith)))

from_page-IsRow :
    (page total_pages : ℕ)
    → 2 ≤ page
    → page ≤ total_pages
    → IsRow total_pages (page - 1) (from_page page total_pages)
from_page-IsRow page total_pages lo hi =
    let e : (page == 1) ≡ false = ground arith in
    elim (Bool-cases (page == total_pages)) [
      | inl last ↦
          let e1 : ltb page (total_pages - 1) ≡ false = ground arith in
          let e2 : ltb page (total_pages - 2) ≡ false = ground arith in
          rw (e, last, e1, e2) (ground arith)
      | inr inner ↦
          let step : page ≡ suc (page - 1) = omega arith in
          rw (e, inner) (step, after_page-IsRow page total_pages (ground arith))
    ]

stands-shown_if :
    (page : ℕ) (b : Bool) (x : Button) (row : List Button)
    → stands page row ≡ true
    → stands page (shown_if b x row) ≡ true
stands-shown_if page true (number m) row h = ground (arith, h)
stands-shown_if page true ellipsis row h = h
stands-shown_if page false x row h = h

stands-from_page :
    (page total_pages : ℕ) → (page == 1) ≡ false → stands page (from_page page total_pages) ≡ true
stands-from_page page total_pages other = elim (Bool-cases (page == total_pages)) [
  | inl last ↦
      rw (other, last)
        (stands-shown_if page (ltb page (total_pages - 1)) (number (page + 1))
          (shown_if (ltb page (total_pages - 2)) ellipsis (number total_pages ∷ []))
          (stands-shown_if page (ltb page (total_pages - 2)) ellipsis (number total_pages ∷ [])
            (rw last refl)))
  | inr inner ↦ rw (other, inner) (ground arith)
]

or_right : (a b : Bool) → (a ≡ false → b ≡ true) → (a || b) ≡ true
or_right true b h = refl
or_right false b h = h refl

abbrev pub first : List Button → Option Button
first [] = none
first (b ∷ row) = some b

first-numbers : (k : ℕ) → 1 ≤ k → first (numbers 0 k) ≡ some (number 1)
unfolding numbers
first-numbers zero h = absurd (omega arith)
first-numbers (suc k) h = refl

-- For a page in range, the row of buttons starts at 1 and ends at the last page, leaves out numbers only
-- where an ellipsis stands, and has no ellipsis where nothing is left out; the page's own button stands
-- in it.
pub render_pagination_numbers-IsRow :
    (page total_pages : ℕ)
    → 1 ≤ page
    → page ≤ total_pages
    → (first (render_pagination_numbers page total_pages) ≡ some (number 1))
      × (IsRow total_pages 0 (render_pagination_numbers page total_pages)
          × (stands page (render_pagination_numbers page total_pages) ≡ true))
unfolding render_pagination_numbers
render_pagination_numbers-IsRow page total_pages lo hi = elim (Bool-cases (leb total_pages 7)) [
  | inl few ↦
      let e : 0 + total_pages ≡ total_pages = omega arith in
      rw few (
        first-numbers total_pages (omega arith),
        (
          subst (λ t. IsRow t 0 (numbers 0 total_pages)) e (numbers-IsRow 0 total_pages),
          stands-numbers page 0 total_pages lo (omega arith),
        ),
      )
  | inr many ↦
      let eight : 8 ≤ total_pages = ground arith in
      rw many (
        refl,
        (
          (
            refl,
            before_page-IsRow page total_pages (from_page page total_pages) lo
                (λ one. from_first-IsRow page total_pages one eight)
                (λ more. from_page-IsRow page total_pages more hi),
          ),
          or_right (page == 1)
              (stands page (
                shown_if (ltb 3 page) ellipsis
                  (shown_if (ltb 2 page) (number (page - 1)) (from_page page total_pages))))
              (λ other.
                stands-shown_if page (ltb 3 page) ellipsis
                  (shown_if (ltb 2 page) (number (page - 1)) (from_page page total_pages))
                  (stands-shown_if page (ltb 2 page) (number (page - 1))
                    (from_page page total_pages) (stands-from_page page total_pages other))),
        ),
      )
]
