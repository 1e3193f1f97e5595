-- ===== src/Common/Dict.antt =====
-- A JavaScript object or Map with string keys: the entries in the order in which their keys were
-- first set. (An object lists integer keys first; no statement depends on that order.)
use mathlib.Core.Path.{◌≡◌, refl}
use mathlib.Core.Bool.{false, ◌||◌}
use mathlib.Core.Option.{Option, none, some}
use mathlib.Core.List.{List, [], ◌∷◌, map}
use native.Mathlib.Omega.{arith}
use vps_monitor.Common.Tests.{if◌then◌else◌}
use vps_monitor.Common.Lists.{All}
use vps_monitor.Common.Strings.{Text, text_eq, text_eq_iff, text_eq_refl}
use vps_monitor.Common.Sets.{has}

module _ {ℓ} {V : Type ℓ} where
  unfoldable pub get : Text → List (Text × V) → Option V
  get k [] = none
  get k ((j, v) ∷ m) = if text_eq j k then some v else get k m

  unfoldable pub set : Text → V → List (Text × V) → List (Text × V)
  set k v [] = (k, v) ∷ []
  set k v ((j, w) ∷ m) = if text_eq j k then (j, v) ∷ m else (j, w) ∷ set k v m

  -- `delete object[k]`.
  unfoldable pub erase : Text → List (Text × V) → List (Text × V)
  erase k [] = []
  erase k ((j, w) ∷ m) = if text_eq j k then erase k m else (j, w) ∷ erase k m

  -- Sets each entry of the first dictionary in the second, from the first entry on.
  unfoldable pub set_all : List (Text × V) → List (Text × V) → List (Text × V)
  unfolding set
  set_all [] m = m
  set_all ((k, v) ∷ e) m = set_all e (set k v m)

  unfoldable pub erase_all : List Text → List (Text × V) → List (Text × V)
  unfolding erase
  erase_all [] m = m
  erase_all (k ∷ ks) m = erase_all ks (erase k m)

  unfoldable pub keys : List (Text × V) → List Text
  keys = map (λ e. e.0)

  -- The keys are distinct.
  abbrev pub IsDict : List (Text × V) → Type 0
  IsDict [] = Unit
  IsDict ((k, v) ∷ m) = (has k (keys m) ≡ false) × IsDict m

  pub get-set :
      (k j : Text) (v : V) (m : List (Text × V))
      → get j (set k v m) ≡ (if text_eq k j then some v else get j m)
  unfolding get set
  get-set k j v [] = refl
  get-set k j v ((i, w) ∷ m) =
      ground (arith, text_eq_iff k j, text_eq_iff i k, text_eq_iff i j, get-set k j v m)

  pub get-erase :
      (k j : Text) (m : List (Text × V))
      → get j (erase k m) ≡ (if text_eq k j then none else get j m)
  unfolding get erase
  get-erase k j [] = ground arith
  get-erase k j ((i, w) ∷ m) =
      ground (arith, text_eq_iff k j, text_eq_iff i k, text_eq_iff i j, get-erase k j m)

  pub get-erase_all :
      (ks : List Text) (j : Text) (m : List (Text × V))
      → get j (erase_all ks m) ≡ (if has j ks then none else get j m)
  unfolding erase_all has
  get-erase_all [] j m = refl
  get-erase_all (k ∷ ks) j m =
      ground
        (arith, get-erase_all ks j (erase k m), get-erase k j m, text_eq_iff k j, text_eq_iff j k)

  has-keys-set :
      (j k : Text) (v : V) (m : List (Text × V))
      → has j (keys (set k v m)) ≡ (text_eq j k || has j (keys m))
  unfolding has keys set
  has-keys-set j k v [] = refl
  has-keys-set j k v ((i, w) ∷ m) =
      ground (arith, has-keys-set j k v m, text_eq_iff i k, text_eq_iff j i, text_eq_iff j k)

  -- Setting a key keeps the keys distinct.
  pub set-IsDict : (k : Text) (v : V) (m : List (Text × V)) → IsDict m → IsDict (set k v m)
  unfolding set has keys
  set-IsDict k v [] d = (refl, tt)
  set-IsDict k v ((i, w) ∷ m) d =
      ground (arith, set-IsDict k v m d.1, has-keys-set i k v m, text_eq_iff i k)

  pub get-not_has : (j : Text) (m : List (Text × V)) → has j (keys m) ≡ false → get j m ≡ none
  unfolding get has keys
  get-not_has j [] h = refl
  get-not_has j ((i, w) ∷ m) h = ground (arith, get-not_has j m, text_eq_iff i j, text_eq_iff j i)

  -- A dictionary that is set over another one wins.
  pub get-set_all :
      (e : List (Text × V)) (j : Text) (m : List (Text × V))
      → IsDict e
      → get j (set_all e m) ≡ (if has j (keys e) then get j e else get j m)
  unfolding set_all get has keys
  get-set_all [] j m d = refl
  get-set_all ((k, v) ∷ e) j m d =
      ground
        (arith, get-set_all e j (set k v m) d.1, get-set k j v m, text_eq_iff k j, text_eq_iff j k)

  All-get_weaken :
      (k : Text) (v : V) (m e : List (Text × V))
      → has k (keys e) ≡ false
      → All (λ x. get x.0 m ≡ some x.1) e
      → All (λ x. get x.0 ((k, v) ∷ m) ≡ some x.1) e
  unfolding get has keys
  All-get_weaken k v m [] h a = tt
  All-get_weaken k v m ((i, w) ∷ e) h a =
      ground (arith, All-get_weaken k v m e, text_eq_iff k i, text_eq_iff i k)

  -- Each entry of a dictionary is what its key looks up.
  pub IsDict-All_get : (m : List (Text × V)) → IsDict m → All (λ x. get x.0 m ≡ some x.1) m
  unfolding get
  IsDict-All_get [] d = tt
  IsDict-All_get ((k, v) ∷ m) d =
      (rw (text_eq_refl k) refl, All-get_weaken k v m m d.0 (IsDict-All_get m d.1))
