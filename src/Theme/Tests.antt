-- ===== src/Theme/Tests.antt =====
-- A session with the theme.
use vps_monitor.Common.{Text, codes, none, some, List, [], ◌∷◌, true, false, filter, ◌≡◌, refl}
use vps_monitor.Theme.{
  light, system, is_other, opened, Input, theme_chosen, preference_changed, handle,
}
use vps_monitor.Theme.Applied.{IsApplied, handle_all, handle_all-IsApplied}

abbrev at_first : List Text
at_first = codes "light" ∷ codes "h-full" ∷ []

abbrev session : List Input
session =
    preference_changed true
    ∷ theme_chosen light
    ∷ preference_changed false
    ∷ theme_chosen system
    ∷ preference_changed true
    ∷ []

handle_all-IsApplied_example :
    IsApplied
      (filter is_other at_first)
      (handle_all session (opened (some (codes "x")) false at_first))
handle_all-IsApplied_example = handle_all-IsApplied (some (codes "x")) false at_first session

dark_at_last :
    (handle_all session (opened none false at_first)).classes ≡ codes "h-full" ∷ codes "dark" ∷ []
unfolding handle opened vps_monitor.Common.text_eq
dark_at_last = refl
