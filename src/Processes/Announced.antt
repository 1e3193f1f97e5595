-- ===== src/Processes/Announced.antt =====
-- How often a kill is announced.
use vps_monitor.Common.{
  ℕ, ◌+◌, Text, text_eq, text_eq_iff, List, [], ◌∷◌, false, ◌||◌, if◌then◌else◌, any, count,
  count-append, number, ◌≡◌, refl, arith,
}
use vps_monitor.Common.Sets.{has, has-add}
use vps_monitor.Processes.{Announcer, announce, announce_all, replied, handle}

abbrev pub fresh : Announcer
fresh = record { announced = []; timer = false; toasts = [] }

abbrev pub replies : List (List Text) → Announcer → Announcer
replies [] s = s
replies (keys ∷ more) s = replies more (handle (replied keys) s)

-- How often the key was announced.
abbrev pub times : Text → Announcer → ℕ
times k s = count (text_eq k) s.toasts

has-announce :
    (k key : Text) (s : Announcer)
    → has k (announce key s).announced ≡ (text_eq k key || has k s.announced)
unfolding announce
has-announce k key s = ground (arith, has-add k key s.announced, text_eq_iff k key)

times-announce :
    (k key : Text) (s : Announcer)
    → times k (announce key s) + number (has k s.announced)
      ≡ times k s + number (has k (announce key s).announced)
unfolding announce
times-announce k key s = ground (
  arith,
  has-add k key s.announced,
  count-append (text_eq k) s.toasts (key ∷ []),
  text_eq_iff k key,
)

has-announce_all :
    (k : Text) (keys : List Text) (s : Announcer)
    → has k (announce_all keys s).announced ≡ (has k keys || has k s.announced)
unfolding announce_all has
has-announce_all k [] s = refl
has-announce_all k (key ∷ keys) s =
    ground (arith, has-announce_all k keys (announce key s), has-announce k key s)

times-announce_all :
    (k : Text) (keys : List Text) (s : Announcer)
    → times k (announce_all keys s) + number (has k s.announced)
      ≡ times k s + number (has k (announce_all keys s).announced)
unfolding announce_all
times-announce_all k [] s = refl
times-announce_all k (key ∷ keys) s =
    omega (arith, times-announce_all k keys (announce key s), times-announce k key s)

has-handle :
    (k : Text) (keys : List Text) (s : Announcer)
    → has k (handle (replied keys) s).announced ≡ (has k keys || has k s.announced)
unfolding handle has
has-handle k [] s = refl
has-handle k (key ∷ keys) s = has-announce_all k (key ∷ keys) s

times-handle :
    (k : Text) (keys : List Text) (s : Announcer)
    → times k (handle (replied keys) s) + number (has k s.announced)
      ≡ times k s + number (has k (handle (replied keys) s).announced)
unfolding handle
times-handle k [] s = refl
times-handle k (key ∷ keys) s = times-announce_all k (key ∷ keys) s

times-replies_from :
    (k : Text) (rs : List (List Text)) (s : Announcer)
    → times k (replies rs s)
      ≡ times k s + (if has k s.announced then 0 else number (any (has k) rs))
times-replies_from k [] s = ground arith
times-replies_from k (keys ∷ rs) s = ground (
  arith,
  times-replies_from k rs (handle (replied keys) s),
  has-handle k keys s,
  times-handle k keys s,
)

-- As long as the timer does not fire, each kill is announced exactly once if any reply reports it, however
-- often the replies repeat it, and not at all otherwise.
pub times-replies :
    (k : Text) (rs : List (List Text)) → times k (replies rs fresh) ≡ number (any (has k) rs)
unfolding has
times-replies k rs = ground (arith, times-replies_from k rs fresh)
