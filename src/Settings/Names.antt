-- ===== src/Settings/Names.antt =====
-- The names of the docker hosts in the settings.
use vps_monitor.Common.{
  ℕ, zero, suc, ◌<◌, Text, truthy, text_eq, text_eq_iff, Option, none, some, List, [], ◌∷◌, ◌++◌,
  true, false, length, get_elem?, All, ◌≡◌, refl, arith,
}
use vps_monitor.Settings.{
  DockerHost, EditingHost, Section, env_hosts, original_file_hosts, has_name, has_env, has_other,
  remove_at, set_at, Input, config_loaded,
}

-- The names are distinct.
abbrev pub AreDistinct : List EditingHost → Type 0
AreDistinct [] = Unit
AreDistinct (h ∷ hs) = (has_name h.name hs ≡ false) × AreDistinct hs

-- The host has a name and an address, and its name is not one of the environment's.
abbrev pub IsProper : List DockerHost → EditingHost → Type 0
IsProper envs h = (truthy h.name ≡ true) × ((truthy h.host ≡ true) × (has_env h.name envs ≡ false))

abbrev pub InRange : Option ℕ → ℕ → Type 0
InRange none n = Unit
InRange (some i) n = i < n

-- The list can be saved: distinct names, none of them the environment's, no empty field; and the row that
-- is edited is a row of the list.
pub record IsValid (s : Section) : Type 0 where
  pub distinct : AreDistinct s.file_hosts
  pub proper : All (IsProper (env_hosts s.config)) s.file_hosts
  pub editing : InRange s.editing_index (length s.file_hosts)

-- A configuration of the server with such names.
abbrev pub IsConfig : List DockerHost → Type 0
IsConfig hosts =
    AreDistinct (original_file_hosts hosts)
    × All (IsProper (env_hosts hosts)) (original_file_hosts hosts)

abbrev pub IsGood : Input → Type 0
IsGood (config_loaded hosts) = IsConfig hosts
IsGood _ = Unit

pub has_name-remove_at :
    (n : Text) (i : ℕ) (hs : List EditingHost)
    → has_name n hs ≡ false
    → has_name n (remove_at i hs) ≡ false
unfolding remove_at
has_name-remove_at n i [] h = refl
has_name-remove_at n zero (g ∷ hs) h = ground (arith, h)
has_name-remove_at n (suc i) (g ∷ hs) h = ground (arith, h, has_name-remove_at n i hs)

pub remove_at-AreDistinct :
    (i : ℕ) (hs : List EditingHost) → AreDistinct hs → AreDistinct (remove_at i hs)
unfolding remove_at
remove_at-AreDistinct i [] h = tt
remove_at-AreDistinct zero (g ∷ hs) h = h.1
remove_at-AreDistinct (suc i) (g ∷ hs) h =
    (has_name-remove_at g.name i hs h.0, remove_at-AreDistinct i hs h.1)

module _ {κ} (P : EditingHost → Type κ) where
  pub All-remove_at : (i : ℕ) (hs : List EditingHost) → All P hs → All P (remove_at i hs)
  unfolding remove_at
  All-remove_at i [] h = tt
  All-remove_at zero (g ∷ hs) h = h.1
  All-remove_at (suc i) (g ∷ hs) h = (h.0, All-remove_at i hs h.1)

  pub All-set_at :
      (i : ℕ) (g : EditingHost) (hs : List EditingHost) → P g → All P hs → All P (set_at i g hs)
  unfolding set_at
  All-set_at zero g [] p h = (p, tt)
  All-set_at (suc i) g [] p h = tt
  All-set_at zero g (k ∷ hs) p h = (p, h.1)
  All-set_at (suc i) g (k ∷ hs) p h = (h.0, All-set_at i g hs p h.1)

has_name-set_at :
    (n : Text) (i : ℕ) (g : EditingHost) (hs : List EditingHost)
    → has_name n hs ≡ false
    → text_eq g.name n ≡ false
    → has_name n (set_at i g hs) ≡ false
unfolding set_at
has_name-set_at n zero g [] h e = ground (arith, e)
has_name-set_at n (suc i) g [] h e = refl
has_name-set_at n zero g (k ∷ hs) h e = ground (arith, h, e)
has_name-set_at n (suc i) g (k ∷ hs) h e = ground (arith, h, e, has_name-set_at n i g hs)

text_eq_sym : (s t : Text) → text_eq s t ≡ false → text_eq t s ≡ false
text_eq_sym s t h = ground (arith, h, text_eq_iff s t, text_eq_iff t s)

pub set_at-AreDistinct :
    (i : ℕ) (g : EditingHost) (hs : List EditingHost)
    → has_other i g.name hs ≡ false
    → AreDistinct hs
    → AreDistinct (set_at i g hs)
unfolding set_at
set_at-AreDistinct zero g [] o h = (refl, tt)
set_at-AreDistinct (suc i) g [] o h = tt
set_at-AreDistinct zero g (k ∷ hs) o h = (o, h.1)
set_at-AreDistinct (suc i) g (k ∷ hs) o h =
    let apart : text_eq k.name g.name ≡ false = ground (arith, o) in
    (
      has_name-set_at k.name i g hs h.0 (text_eq_sym k.name g.name apart),
      set_at-AreDistinct i g hs (ground (arith, o)) h.1,
    )

has_name-append :
    (n : Text) (hs : List EditingHost) (g : EditingHost)
    → has_name n hs ≡ false
    → text_eq g.name n ≡ false
    → has_name n (hs ++ g ∷ []) ≡ false
has_name-append n [] g h e = ground (arith, e)
has_name-append n (k ∷ hs) g h e = ground (arith, h, e, has_name-append n hs g)

pub append-AreDistinct :
    (hs : List EditingHost) (g : EditingHost)
    → has_name g.name hs ≡ false
    → AreDistinct hs
    → AreDistinct (hs ++ g ∷ [])
append-AreDistinct [] g o h = (refl, tt)
append-AreDistinct (k ∷ hs) g o h =
    let apart : text_eq k.name g.name ≡ false = ground (arith, o) in
    (
      has_name-append k.name hs g h.0 (text_eq_sym k.name g.name apart),
      append-AreDistinct hs g (ground (arith, o)) h.1,
    )

pub get_elem?-InRange :
    (hs : List EditingHost) (i : ℕ) (h : EditingHost) → get_elem? hs i ≡ some h → i < length hs
get_elem?-InRange [] i h e = ground (arith, e)
get_elem?-InRange (k ∷ hs) zero h e = omega arith
get_elem?-InRange (k ∷ hs) (suc i) h e = omega (arith, get_elem?-InRange hs i h e)
