-- ===== src/Common/Sets.antt =====
-- A JavaScript Set of strings, and an array of strings used as one: the members in the order in
-- which they were added.
use mathlib.Core.Path.{◌≡◌, refl}
use mathlib.Core.Bool.{Bool, false, not, ◌&&◌, ◌||◌}
use mathlib.Core.List.{List, [], ◌∷◌, ◌++◌}
use native.Mathlib.Omega.{arith}
use vps_monitor.Common.Tests.{if◌then◌else◌}
use vps_monitor.Common.Lists.{filter}
use vps_monitor.Common.Strings.{Text, text_eq, text_eq_iff}

-- `set.has(k)`, and `array.includes(k)`.
unfoldable pub has : Text → List Text → Bool
has k [] = false
has k (x ∷ xs) = text_eq k x || has k xs

-- `set.add(k)`.
unfoldable pub add : Text → List Text → List Text
add k xs = if has k xs then xs else xs ++ k ∷ []

-- `set.delete(k)`, and `array.filter((value) => value !== k)`.
unfoldable pub delete : Text → List Text → List Text
delete k = filter (λ x. not (text_eq x k))

-- `new Set([...xs, ...ys])`.
unfoldable pub add_all : List Text → List Text → List Text
unfolding add
add_all [] xs = xs
add_all (y ∷ ys) xs = add_all ys (add y xs)

pub has-append : (k : Text) (xs ys : List Text) → has k (xs ++ ys) ≡ (has k xs || has k ys)
unfolding has
has-append k [] ys = refl
has-append k (x ∷ xs) ys = ground (arith, has-append k xs ys)

pub has-add : (k j : Text) (xs : List Text) → has k (add j xs) ≡ (text_eq k j || has k xs)
unfolding add has
has-add k j xs = ground (arith, has-append k xs (j ∷ []), text_eq_iff k j)

pub has-add_all : (k : Text) (ys xs : List Text) → has k (add_all ys xs) ≡ (has k ys || has k xs)
unfolding add_all has
has-add_all k [] xs = refl
has-add_all k (y ∷ ys) xs = ground (arith, has-add_all k ys (add y xs), has-add k y xs)

pub has-delete :
    (k j : Text) (xs : List Text) → has k (delete j xs) ≡ (not (text_eq k j) && has k xs)
unfolding delete has
has-delete k j [] = ground arith
has-delete k j (x ∷ xs) =
    ground (arith, has-delete k j xs, text_eq_iff k j, text_eq_iff k x, text_eq_iff x j)

-- Membership and a predicate on the members.
pub has-filter :
    (k : Text) (p : Text → Bool) (xs : List Text) → has k (filter p xs) ≡ (p k && has k xs)
unfolding has
has-filter k p [] = ground arith
has-filter k p (x ∷ xs) = ground (arith, has-filter k p xs, text_eq_iff k x)
