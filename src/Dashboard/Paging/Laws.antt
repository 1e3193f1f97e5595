-- ===== src/Dashboard/Paging/Laws.antt =====
-- With a positive page and page size the pages cut the list into consecutive parts.
use native.Mathlib.Nat.{le-div_iff_mul-le}
use vps_monitor.Common.{
  ◌==◌, Bool-cases, inl, inr, take_all, drop-nil, take-add, take-nil, ℕ, zero, suc, ◌+◌, ◌-◌, ◌*◌,
  ◌/◌, ◌≤◌, ◌<◌, min, pos, ◌+ℤ◌, ◌-ℤ◌, ◌*ℤ◌, List, [], ◌∷◌, ◌++◌, length, take, drop, ◌≡◌, ◌≢◌,
  refl, sym, ap, ◌∙◌, arith, drop-drop, length-drop,
}
use vps_monitor.Dashboard.Paging.{
  finite, total_pages, clamp_page, start_index, end_index, page_items,
}

pos_pred : (p : ℕ) → pos (suc p) -ℤ pos 1 ≡ pos p
unfolding ◌-ℤ◌
pos_pred p = ground arith

pos_mul : (a b : ℕ) → pos a *ℤ pos b ≡ pos (a * b)
unfolding ◌*ℤ◌
pos_mul a b = ground arith

pos_add : (a b : ℕ) → pos a +ℤ pos b ≡ pos (a + b)
unfolding ◌+ℤ◌
pos_add a b = ground arith

module _ {ℓ} {A : Type ℓ} where
  take-min : (s : ℕ) (xs : List A) → take (min s (length xs)) xs ≡ take s xs
  take-min zero xs = let e : min 0 (length xs) ≡ 0 = omega arith in rw e refl
  take-min (suc s) [] = let e : min (suc s) 0 ≡ 0 = omega arith in rw e refl
  take-min (suc s) (x ∷ xs) =
      let e : min (suc s) (suc (length xs)) ≡ suc (min s (length xs)) = omega arith in
      rw e (ap (◌∷◌ x) (take-min s xs))

  slice_pos :
      (a s : ℕ) (xs : List A)
      → take (min (a + s) (length xs) - min a (length xs)) (drop (min a (length xs)) xs)
        ≡ take s (drop a xs)
  slice_pos zero s xs =
      let e : min 0 (length xs) ≡ 0 = omega arith in
      let e' : min (0 + s) (length xs) - 0 ≡ min s (length xs) = omega arith in
      rw (e, e') (take-min s xs)
  slice_pos (suc a) s [] =
      let e : min (suc a + s) 0 - min (suc a) 0 ≡ 0 = omega arith in rw e (sym (take-nil s))
  slice_pos (suc a) s (x ∷ xs) =
      let e : min (suc a) (suc (length xs)) ≡ suc (min a (length xs)) = omega arith in
      let e' : min (suc a + s) (suc (length xs)) - suc (min a (length xs))
          ≡ min (a + s) (length xs) - min a (length xs) =
        omega arith in
      rw (e, e') (slice_pos a s xs)

  -- On a positive page the slice is the page's part of the list.
  page_items_pos :
      (xs : List A) (p s : ℕ) → page_items xs (pos (suc p)) (pos s) ≡ take s (drop (p * s) xs)
  unfolding page_items
  page_items_pos xs p s = rw (pos_pred p, pos_mul p s, pos_add (p * s) s) (slice_pos (p * s) s xs)

  -- The items of `k` pages from the page after the first `p` ones on.
  abbrev pub pages : List A → ℕ → ℕ → ℕ → List A
  pages xs s p zero = []
  pages xs s p (suc k) = page_items xs (pos (suc p)) (pos s) ++ pages xs s (suc p) k

  pages-take : (xs : List A) (s p k : ℕ) → pages xs s p k ≡ take (k * s) (drop (p * s) xs)
  pages-take xs s p zero = let e : 0 * s ≡ 0 = omega arith in rw e refl
  pages-take xs s p (suc k) =
      let e : suc k * s ≡ s + k * s = omega arith in
      let e' : suc p * s ≡ p * s + s = omega arith in
      rw (
        e,
        take-add s (k * s) (drop (p * s) xs),
        page_items_pos xs p s,
        pages-take xs s (suc p) k,
        e',
        drop-drop s (p * s) xs,
      )

ceil_covers : (n j : ℕ) → n ≤ (n + j) / suc j * suc j
ceil_covers n j = omega arith

ceil_tight : (n j q : ℕ) → q < (n + j) / suc j → q * suc j < n
ceil_tight n j q h = grind arith

total_pages_pos :
    (n j total : ℕ)
    → n ≢ 0
    → total_pages n (pos (suc j)) ≡ finite (pos total)
    → (n + j) / suc j ≡ total
unfolding total_pages
total_pages_pos n j total ne e = ground arith

-- With a page size of at least 1, the pages from the first to the last, one after the other, are
-- the whole list.
pub pages_cover {ℓ} :
    {A : Type ℓ} (xs : List A) (size total : ℕ)
    → 1 ≤ size
    → total_pages (length xs) (pos size) ≡ finite (pos total)
    → pages xs size 0 total ≡ xs
pages_cover xs zero total h e = absurd (omega arith)
pages_cover [] (suc j) total h e =
    pages-take [] (suc j) 0 total
    ∙ ap (take (total * suc j)) (drop-nil (0 * suc j))
    ∙ take-nil (total * suc j)
pages_cover (x ∷ xs) (suc j) total h e =
    let q = total_pages_pos (suc (length xs)) j total (omega arith) e in
    let z : 0 * suc j ≡ 0 = omega arith in
    pages-take (x ∷ xs) (suc j) 0 total
    ∙ rw z (take_all (total * suc j) (x ∷ xs) (rw (← q) (ceil_covers (suc (length xs)) j)))

module _ {ℓ} {A : Type ℓ} where
  -- The numbers shown above a page are the positions of its first and last item, counted from 1; the
  -- page has between one item and as many as its size.
  pub record IsShown (xs : List A) (size first last : ℕ) (items : List A) : Type ℓ where
    pub starts : 1 ≤ first
    pub ordered : first ≤ last
    pub ends : last ≤ length xs
    pub fits : last + 1 - first ≤ size
    pub part : items ≡ take (last + 1 - first) (drop (first - 1) xs)

  take_shorter : (m s : ℕ) (xs : List A) → m ≡ min s (length xs) → take s xs ≡ take m xs
  take_shorter m s xs e = rw e (sym (take-min s xs))

  IsShown-part :
      (xs : List A) (j p : ℕ)
      → p * suc j < length xs
      → IsShown xs
          (suc j)
          (p * suc j + 1)
          (min (p * suc j + suc j) (length xs))
          (page_items xs (pos (suc p)) (pos (suc j)))
  IsShown-part xs j p h = record {
    starts = omega arith;
    ordered = omega arith;
    ends = omega arith;
    fits = omega arith;
    part =
        let e : p * suc j + 1 - 1 ≡ p * suc j = omega arith in
        page_items_pos xs p (suc j)
        ∙ rw e (
            take_shorter _ (suc j) (drop (p * suc j) xs)
              (omega (arith, length-drop (p * suc j) xs)));
  }

start_index_pos : (n p s : ℕ) → n ≢ 0 → start_index n (pos (suc p)) (pos s) ≡ pos (p * s + 1)
unfolding start_index
start_index_pos n p s ne = rw (pos_pred p, pos_mul p s, pos_add (p * s) 1) (ground arith)

end_index_pos : (n p s : ℕ) → n ≢ 0 → end_index n (pos (suc p)) (pos s) ≡ pos (min (p * s + s) n)
unfolding end_index
end_index_pos n p s ne = rw (pos_mul (suc p) s) (ground arith)

-- With a page size of at least 1, on every page from the first to the last of a list that is not
-- empty, the shown numbers are the positions of the page's first and last item, the page holds
-- exactly the items between them, and they are at least one and at most as many as the page size.
pub page_items-IsShown {ℓ} :
    {A : Type ℓ} (xs : List A) (size total page : ℕ)
    → 1 ≤ size
    → 1 ≤ length xs
    → total_pages (length xs) (pos size) ≡ finite (pos total)
    → 1 ≤ page
    → page ≤ total
    → (first : ℕ) × (last : ℕ) × (start_index (length xs) (pos page) (pos size) ≡ pos first)
      × (end_index (length xs) (pos page) (pos size) ≡ pos last)
      × IsShown xs size first last (page_items xs (pos page) (pos size))
page_items-IsShown xs zero total page h ne e lo hi = absurd (omega arith)
page_items-IsShown xs (suc j) total zero h ne e lo hi = absurd (omega arith)
page_items-IsShown xs (suc j) total (suc p) h ne e lo hi =
    let q = total_pages_pos (length xs) j total (omega arith) e in
    (
      p * suc j + 1,
      min (p * suc j + suc j) (length xs),
      start_index_pos (length xs) p (suc j) (omega arith),
      end_index_pos (length xs) p (suc j) (omega arith),
      IsShown-part xs j p (ceil_tight (length xs) j p (omega arith)),
    )

clamp_page_pos :
    (total page : ℕ)
    → 1 ≤ total
    → 1 ≤ page
    → clamp_page (finite (pos total)) (pos page) ≡ pos (min page total)
unfolding clamp_page
clamp_page_pos total page h k = ground arith

ceil_pos : (n j : ℕ) → n ≢ 0 → 1 ≤ (n + j) / suc j
ceil_pos n j ne = (le-div_iff_mul-le {x = 1} (omega arith)).1 (omega arith)

-- With a positive page size there is at least one page, and the effect leads a positive page that is
-- too large to the last one and leaves any other.
pub clamp_page_bounds :
    (n size page : ℕ)
    → 1 ≤ size
    → 1 ≤ page
    → (total : ℕ) × (total_pages n (pos size) ≡ finite (pos total))
      × (1 ≤ total)
      × (clamp_page (total_pages n (pos size)) (pos page) ≡ pos (min page total))
unfolding total_pages
clamp_page_bounds n zero page h k = absurd (omega arith)
clamp_page_bounds n (suc j) page h k = elim (Bool-cases (n == 0)) [
  | inl empty ↦ (1, rw empty refl, omega arith, rw empty (clamp_page_pos 1 page (omega arith) k))
  | inr full ↦
      let total = (n + j) / suc j in
      let some_page : 1 ≤ total = ceil_pos n j (ground arith) in
      (total, rw full refl, some_page, rw full (clamp_page_pos total page some_page k))
]
