-- ===== src/Common/Sort.antt =====
-- Array.prototype.sort: a stable sort by a comparator, whose negative, zero and positive results
-- are `lt`, `eq` and `gt`.
use Prim.Native.Nat.{ℕ, compare, Ordering}
use mathlib.Core.Path.{◌≡◌, refl}
use mathlib.Core.Logic.{inl, inr}
use mathlib.Core.Bool.{Bool, true, false}
use mathlib.Core.List.{List, [], ◌∷◌, map, Perm}
use native.Mathlib.Omega.{arith}
use vps_monitor.Common.Tests.{if◌then◌else◌, Bool-cases}
use vps_monitor.Common.Lists.{All, filter}
use mathlib.Core.List.Perm

abbrev pub is_gt : Ordering → Bool
is_gt Ordering.gt = true
is_gt _ = false

-- The comparator with its two arguments exchanged.
abbrev pub flip {ℓ} : {A : Type ℓ} → (A → A → Ordering) → A → A → Ordering
flip cmp a b = cmp b a

module _ {ℓ} {A : Type ℓ} (cmp : A → A → Ordering) where
  unfoldable pub insert : A → List A → List A
  insert x [] = x ∷ []
  insert x (y ∷ ys) = if is_gt (cmp x y) then y ∷ insert x ys else x ∷ y ∷ ys

  unfoldable pub sort : List A → List A
  unfolding insert
  sort [] = []
  sort (x ∷ xs) = insert x (sort xs)

  -- No element is greater than one that stands after it.
  abbrev pub IsSorted : List A → Type ℓ
  IsSorted [] = Unit
  IsSorted (x ∷ xs) = All (λ y. is_gt (cmp x y) ≡ false) xs × IsSorted xs

  -- What the language asks of a comparator.
  pub record IsConsistent : Type ℓ where
    pub asym : (x y : A) → is_gt (cmp x y) ≡ true → is_gt (cmp y x) ≡ false
    pub trans :
        (x y z : A) → is_gt (cmp x y) ≡ false → is_gt (cmp y z) ≡ false → is_gt (cmp x z) ≡ false

  insert-perm : (x : A) (ys : List A) → Perm (insert x ys) (x ∷ ys)
  unfolding insert
  insert-perm x [] = Perm.refl _
  insert-perm x (y ∷ ys) = elim (Bool-cases (is_gt (cmp x y))) [
    | inl past ↦ rw past (Perm.trans (Perm.cons y (insert-perm x ys)) (Perm.swap x y ys))
    | inr here ↦ rw here (Perm.refl _)
  ]

  -- Sorting keeps the elements.
  pub sort-perm : (xs : List A) → Perm (sort xs) xs
  unfolding sort
  sort-perm [] = Perm.refl _
  sort-perm (x ∷ xs) = Perm.trans (insert-perm x (sort xs)) (Perm.cons x (sort-perm xs))

  insert-All {κ} : (P : A → Type κ) (x : A) (ys : List A) → P x → All P ys → All P (insert x ys)
  unfolding insert
  insert-All P x [] p h = (p, tt)
  insert-All P x (y ∷ ys) p h = ground (arith, insert-All P x ys p h.1)

  All-above :
      IsConsistent
      → (x y : A) (ys : List A) → is_gt (cmp x y) ≡ false
      → All (λ z. is_gt (cmp y z) ≡ false) ys
      → All (λ z. is_gt (cmp x z) ≡ false) ys
  All-above c x y [] h a = tt
  All-above c x y (z ∷ ys) h a = (c.trans x y z h a.0, All-above c x y ys h a.1)

  insert-IsSorted : IsConsistent → (x : A) (ys : List A) → IsSorted ys → IsSorted (insert x ys)
  unfolding insert
  insert-IsSorted c x [] s = (tt, tt)
  insert-IsSorted c x (y ∷ ys) s = elim (Bool-cases (is_gt (cmp x y))) [
    | inl past ↦ rw past (
      insert-All (λ z. is_gt (cmp y z) ≡ false) x ys (c.asym x y past) s.0,
      insert-IsSorted c x ys s.1,
    )
    | inr here ↦ rw here ((here, All-above c x y ys here s.0), s)
  ]

  -- What holds of every element holds after sorting.
  pub sort-All {κ} : (P : A → Type κ) (xs : List A) → All P xs → All P (sort xs)
  unfolding sort
  sort-All P [] h = tt
  sort-All P (x ∷ xs) h = insert-All P x (sort xs) h.0 (sort-All P xs h.1)

  -- The result is in order, for a consistent comparator.
  pub sort-IsSorted : IsConsistent → (xs : List A) → IsSorted (sort xs)
  unfolding sort
  sort-IsSorted c [] = tt
  sort-IsSorted c (x ∷ xs) = insert-IsSorted c x (sort xs) (sort-IsSorted c xs)

  insert_sorted :
      (x : A) (ys : List A) → All (λ y. is_gt (cmp x y) ≡ false) ys → insert x ys ≡ x ∷ ys
  unfolding insert
  insert_sorted x [] h = refl
  insert_sorted x (y ∷ ys) h = rw (h.0)

  -- A list in order is left as it is.
  pub sort_of_IsSorted : (xs : List A) → IsSorted xs → sort xs ≡ xs
  unfolding sort
  sort_of_IsSorted [] s = refl
  sort_of_IsSorted (x ∷ xs) s = rw (sort_of_IsSorted xs s.1) (insert_sorted x xs s.0)

  module _ (p : A → Bool) where
    -- The elements that pass compare as equal.
    abbrev pub IsTied : Type ℓ
    IsTied = (x y : A) → p x ≡ true → p y ≡ true → is_gt (cmp x y) ≡ false

    filter-insert :
        IsTied
        → (x : A) (ys : List A)
        → filter p (insert x ys) ≡ (if p x then x ∷ filter p ys else filter p ys)
    unfolding insert
    filter-insert t x [] = refl
    filter-insert t x (y ∷ ys) = ground (arith, filter-insert t x ys, t x y)

    -- Elements that compare as equal keep their order.
    pub filter-sort : IsTied → (xs : List A) → filter p (sort xs) ≡ filter p xs
    unfolding sort
    filter-sort t [] = refl
    filter-sort t (x ∷ xs) = ground (arith, filter-insert t x (sort xs), filter-sort t xs)

module _ {ℓ κ} {A : Type ℓ} {B : Type κ} (cmp : B → B → Ordering) (f : A → B) where
  All_gt-map :
      (x : A) (ys : List A)
      → All (λ y. is_gt (cmp (f x) (f y)) ≡ false) ys
      → All (λ z. is_gt (cmp (f x) z) ≡ false) (map f ys)
  All_gt-map x [] h = tt
  All_gt-map x (y ∷ ys) h = (h.0, All_gt-map x ys h.1)

  -- A list that is in order by the images is mapped to a list in order.
  pub IsSorted-map : (xs : List A) → IsSorted (λ a b. cmp (f a) (f b)) xs → IsSorted cmp (map f xs)
  IsSorted-map [] s = tt
  IsSorted-map (x ∷ xs) s = (All_gt-map x xs s.0, IsSorted-map xs s.1)

-- A comparator that is consistent on the images is so on the elements.
pub on-IsConsistent {ℓ κ} :
    {A : Type ℓ} {B : Type κ} (cmp : B → B → Ordering) (f : A → B)
    → IsConsistent cmp
    → IsConsistent (λ a b. cmp (f a) (f b))
on-IsConsistent cmp f c = record {
  asym = λ x y. c.asym (f x) (f y);
  trans = λ x y z. c.trans (f x) (f y) (f z);
}

-- Exchanging the arguments keeps a comparator consistent.
pub flip-IsConsistent {ℓ} :
    {A : Type ℓ} (cmp : A → A → Ordering) → IsConsistent cmp → IsConsistent (flip cmp)
flip-IsConsistent cmp c = record {
  asym = λ x y h. c.asym y x h;
  trans = λ x y z h k. c.trans z y x k h;
}

-- Numbers in ascending order.
pub compare-IsConsistent : IsConsistent {A = ℕ} compare
compare-IsConsistent = record { asym = λ x y h. ground arith; trans = λ x y z h k. ground arith }

-- Each element is in order with all the elements after it.
abbrev pub AreInOrder {ℓ} : {A : Type ℓ} → (A → A → Type 0) → List A → Type ℓ
AreInOrder R [] = Unit
AreInOrder R (x ∷ xs) = All (R x) xs × AreInOrder R xs

All-implied {ℓ} :
    {A : Type ℓ} (P Q : A → Type 0) (xs : List A) → ((x : A) → P x → Q x) → All P xs → All Q xs
All-implied P Q [] k h = tt
All-implied P Q (x ∷ xs) k h = (k x h.0, All-implied P Q xs k h.1)

-- A sorted list is in every order that the comparison keeps.
pub IsSorted-AreInOrder {ℓ} :
    {A : Type ℓ} (cmp : A → A → Ordering) (R : A → A → Type 0) (xs : List A)
    → ((x y : A) → is_gt (cmp x y) ≡ false → R x y)
    → IsSorted cmp xs
    → AreInOrder R xs
IsSorted-AreInOrder cmp R [] k h = tt
IsSorted-AreInOrder cmp R (x ∷ xs) k h = (
  All-implied (λ y. is_gt (cmp x y) ≡ false) (R x) xs (k x) h.0,
  IsSorted-AreInOrder cmp R xs k h.1,
)
