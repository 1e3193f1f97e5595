-- ===== src/Theme/Applied.antt =====
-- What the provider of the theme keeps true: frontend/src/contexts/theme-context.tsx.
use vps_monitor.Common.{
  subst, Text, text_eq, Option, some, List, [], ◌∷◌, ◌++◌, Bool, false, if◌then◌else◌, any, filter,
  ◌≡◌, refl, sym, ap, ◌∙◌, arith, if_holds,
}
use vps_monitor.Theme.{
  Theme, light, dark, system, ResolvedTheme, resolved_light, resolved_dark, theme_text, class_text,
  Provider, get_stored_theme, resolve, is_other, add_class, apply_theme, opened, theme_effect,
  set_theme, handle_change, Input, theme_chosen, preference_changed, handle,
}

-- The page shows the theme: the resolved one is the choice's, or the system's, it is the one theme class of the
-- root, whose other classes are kept, and the storage has the choice.
pub record IsApplied (others : List Text) (s : Provider) : Type 0 where
  pub resolved : s.resolved_theme ≡ resolve s.theme s.prefers_dark
  pub shown : s.classes ≡ others ++ class_text s.resolved_theme ∷ []
  pub kept : get_stored_theme s.stored ≡ s.theme

filter-snoc {ℓ} :
    {A : Type ℓ} (p : A → Bool) (xs : List A) (y : A)
    → p y ≡ false
    → filter p (filter p xs ++ y ∷ []) ≡ filter p xs
filter-snoc p [] y h = ground (arith, h)
filter-snoc p (x ∷ xs) y h = ground (arith, h, filter-snoc p xs y h)

is_other-class_text : (r : ResolvedTheme) → is_other (class_text r) ≡ false
unfolding text_eq
is_other-class_text resolved_light = refl
is_other-class_text resolved_dark = refl

any-filter-false :
    (r : ResolvedTheme) (cs : List Text)
    → any (λ d. text_eq d (class_text r)) (filter is_other cs) ≡ false
any-filter-false r [] = refl
any-filter-false resolved_light (c ∷ cs) = ground (arith, any-filter-false resolved_light cs)
any-filter-false resolved_dark (c ∷ cs) = ground (arith, any-filter-false resolved_dark cs)

add_class-filter :
    (r : ResolvedTheme) (cs : List Text)
    → add_class (class_text r) (filter is_other cs) ≡ filter is_other cs ++ class_text r ∷ []
add_class-filter r cs =
    ap (λ b. if b then filter is_other cs else filter is_other cs ++ class_text r ∷ [])
      (any-filter-false r cs)

get_stored_theme-theme_text : (t : Theme) → get_stored_theme (some (theme_text t)) ≡ t
unfolding get_stored_theme text_eq
get_stored_theme-theme_text light = refl
get_stored_theme-theme_text dark = refl
get_stored_theme-theme_text system = refl

-- Applying the theme of a state makes it shown, whatever theme was.
apply_theme-IsApplied :
    (others : List Text) (s : Provider)
    → filter is_other s.classes ≡ others
    → get_stored_theme s.stored ≡ s.theme
    → IsApplied others (apply_theme s.theme s)
unfolding apply_theme
apply_theme-IsApplied others s h k = record {
  resolved = refl;
  shown =
      add_class-filter (resolve s.theme s.prefers_dark) s.classes
      ∙ ap (λ cs. cs ++ class_text (resolve s.theme s.prefers_dark) ∷ []) h;
  kept = k;
}

others_lem :
    (classes : List Text) (s : Provider)
    → IsApplied (filter is_other classes) s
    → filter is_other s.classes ≡ filter is_other classes
others_lem classes s h =
    ap (filter is_other) h.shown
    ∙ filter-snoc is_other classes (class_text s.resolved_theme)
        (is_other-class_text s.resolved_theme)

theme_effect-IsApplied :
    (classes : List Text) (old : Theme) (s : Provider)
    → IsApplied (filter is_other classes) s
    → IsApplied (filter is_other classes) (theme_effect old s)
unfolding theme_effect
theme_effect-IsApplied classes old s h =
    if_holds (IsApplied (filter is_other classes)) (text_eq (theme_text old) (theme_text s.theme))
      (λ _. h)
      (λ _. apply_theme-IsApplied (filter is_other classes) s (others_lem classes s h) h.kept)

handle_change-IsApplied :
    (classes : List Text) (d : Bool) (s : Provider) (t : Theme)
    → s.theme ≡ t
    → IsApplied (filter is_other classes) s
    → IsApplied (filter is_other classes) (handle_change t (record s { prefers_dark = d }))
unfolding handle_change apply_theme
handle_change-IsApplied classes d s light e h = record {
  resolved = h.resolved ∙ ap (λ t. resolve t s.prefers_dark) e ∙ sym (ap (λ t. resolve t d) e);
  shown = h.shown;
  kept = h.kept;
}
handle_change-IsApplied classes d s dark e h = record {
  resolved = h.resolved ∙ ap (λ t. resolve t s.prefers_dark) e ∙ sym (ap (λ t. resolve t d) e);
  shown = h.shown;
  kept = h.kept;
}
handle_change-IsApplied classes d s system e h =
    subst (λ t. IsApplied (filter is_other classes) (apply_theme t (record s { prefers_dark = d })))
      e
      (apply_theme-IsApplied (filter is_other classes) (record s { prefers_dark = d })
        (others_lem classes s h) h.kept)

handle-IsApplied :
    (classes : List Text) (i : Input) (s : Provider)
    → IsApplied (filter is_other classes) s
    → IsApplied (filter is_other classes) (handle i s)
unfolding handle set_theme
handle-IsApplied classes (theme_chosen t) s h =
    let chosen : Provider = record s { theme = t; stored = some (theme_text t) } in
    theme_effect-IsApplied classes s.theme (apply_theme t chosen) (
      apply_theme-IsApplied (filter is_other classes) chosen (others_lem classes s h)
        (get_stored_theme-theme_text t))
handle-IsApplied classes (preference_changed d) s h =
    handle_change-IsApplied classes d s s.theme refl h

abbrev pub handle_all : List Input → Provider → Provider
handle_all [] s = s
handle_all (i ∷ is) s = handle_all is (handle i s)

handle_all-IsApplied_from :
    (classes : List Text) (is : List Input) (s : Provider)
    → IsApplied (filter is_other classes) s
    → IsApplied (filter is_other classes) (handle_all is s)
handle_all-IsApplied_from classes [] s h = h
handle_all-IsApplied_from classes (i ∷ is) s h =
    handle_all-IsApplied_from classes is (handle i s) (handle-IsApplied classes i s h)

-- From any stored text, after any choices of a theme and changes of the system's preference, in any order: the
-- resolved theme is that of the choice, or the system's where the choice is the system; the root has the
-- other classes that it had, and the resolved theme as its one class of a theme; and what the storage
-- has is read back as the choice.
pub handle_all-IsApplied :
    (stored : Option Text) (prefers_dark : Bool) (classes : List Text) (is : List Input)
    → IsApplied (filter is_other classes) (handle_all is (opened stored prefers_dark classes))
unfolding opened
handle_all-IsApplied stored prefers_dark classes is =
    handle_all-IsApplied_from classes is (opened stored prefers_dark classes) (
      apply_theme-IsApplied (filter is_other classes)
        (record {
          theme = get_stored_theme stored;
          resolved_theme = resolve (get_stored_theme stored) prefers_dark;
          stored = stored;
          prefers_dark = prefers_dark;
          classes = classes;
        })
        refl refl)
