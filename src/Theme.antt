-- ===== src/Theme.antt =====
-- The theme of the page: frontend/src/contexts/theme-context.tsx, with the browser's storage, the class list
-- of the document's root and the system's preference, in a browser (`window` is there).
pub mod Applied
mod Tests
use vps_monitor.Common.{
  Text, codes, text_eq, Option, none, some, List, [], ◌∷◌, ◌++◌, Bool, true, false, not, ◌&&◌,
  if◌then◌else◌, any, filter,
}

pub data Theme : Type 0 where
  light dark system : Theme

pub data ResolvedTheme : Type 0 where
  resolved_light resolved_dark : ResolvedTheme

abbrev pub theme_text : Theme → Text
theme_text light = codes "light"
theme_text dark = codes "dark"
theme_text system = codes "system"

abbrev pub class_text : ResolvedTheme → Text
class_text resolved_light = codes "light"
class_text resolved_dark = codes "dark"

-- `classes` are those of the root element, `stored` is what the storage has under the key, and
-- `prefers_dark` is whether the media query matches.
pub record Provider : Type 0 where
  pub theme : Theme
  pub resolved_theme : ResolvedTheme
  pub stored : Option Text
  pub prefers_dark : Bool
  pub classes : List Text

abbrev pub get_system_theme : Bool → ResolvedTheme
get_system_theme true = resolved_dark
get_system_theme false = resolved_light

unfoldable pub get_stored_theme : Option Text → Theme
get_stored_theme none = system
get_stored_theme (some t) =
    if text_eq t (codes "light") then light else if text_eq t (codes "dark") then dark else system

abbrev pub resolve : Theme → Bool → ResolvedTheme
resolve light prefers_dark = resolved_light
resolve dark prefers_dark = resolved_dark
resolve system prefers_dark = get_system_theme prefers_dark

-- `classList.remove("light", "dark")` and `classList.add`.
abbrev pub is_other : Text → Bool
is_other c = not (text_eq c (codes "light")) && not (text_eq c (codes "dark"))

abbrev pub add_class : Text → List Text → List Text
add_class c cs = if any (λ d. text_eq d c) cs then cs else cs ++ c ∷ []

unfoldable pub apply_theme : Theme → Provider → Provider
apply_theme t s = record s {
  resolved_theme = resolve t s.prefers_dark;
  classes = add_class (class_text (resolve t s.prefers_dark)) (filter is_other s.classes);
}

-- The first render and the effect after it.
unfoldable pub opened : Option Text → Bool → List Text → Provider
unfolding apply_theme get_stored_theme
opened stored prefers_dark classes =
    let theme = get_stored_theme stored in
    apply_theme theme (record {
      theme = theme;
      resolved_theme = resolve theme prefers_dark;
      stored = stored;
      prefers_dark = prefers_dark;
      classes = classes;
    })

-- The effect of a render, which runs where the theme is another one than before.
unfoldable pub theme_effect : Theme → Provider → Provider
unfolding apply_theme
theme_effect old s =
    if text_eq (theme_text old) (theme_text s.theme) then s else apply_theme s.theme s

unfoldable pub set_theme : Theme → Provider → Provider
unfolding apply_theme theme_effect
set_theme t s =
    theme_effect s.theme (apply_theme t (record s { theme = t; stored = some (theme_text t) }))

abbrev pub handle_change : Theme → Provider → Provider
unfolding apply_theme
handle_change system s = apply_theme system s
handle_change _ s = s

pub data Input : Type 0 where
  theme_chosen : Theme → Input
  preference_changed : Bool → Input

unfoldable pub handle : Input → Provider → Provider
unfolding set_theme handle_change
handle (theme_chosen t) s = set_theme t s
handle (preference_changed d) s = handle_change s.theme (record s { prefers_dark = d })
