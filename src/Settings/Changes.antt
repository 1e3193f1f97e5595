-- ===== src/Settings/Changes.antt =====
-- Whether the list of docker hosts has changes to save.
use vps_monitor.Common.{
  text_eq, text_eq_iff, text_eq_refl, List, [], ◌∷◌, Bool, false, not, ◌||◌, ◌==◌, length, ◌≡◌,
  refl, ap, ◌∙◌, arith, ◌↔◌,
}
use vps_monitor.Settings.{EditingHost, Section, has_changes, original_file_hosts, differ}

EditingHost-ext : (h g : EditingHost) → h.name ≡ g.name → h.host ≡ g.host → h ≡ g
EditingHost-ext h g a b i = record { name = a i; host = b i }

changed : List EditingHost → List EditingHost → Bool
changed hs os = not (length hs == length os) || differ hs os

changed-cons :
    (h o : EditingHost) (hs os : List EditingHost)
    → changed (h ∷ hs) (o ∷ os)
      ≡ (not (text_eq h.name o.name) || not (text_eq h.host o.host) || changed hs os)
unfolding changed
changed-cons h o hs os = ground arith

changed-false : (hs os : List EditingHost) → changed hs os ≡ false → hs ≡ os
unfolding changed
changed-false [] [] h = refl
changed-false [] (o ∷ os) h = ground (arith, h)
changed-false (x ∷ hs) [] h = ground (arith, h)
changed-false (x ∷ hs) (o ∷ os) h =
    let e = changed-cons x o hs os in
    let a : x.name ≡ o.name = ground (arith, e, h, text_eq_iff x.name o.name) in
    let b : x.host ≡ o.host = ground (arith, e, h, text_eq_iff x.host o.host) in
    let c : hs ≡ os = ground (arith, e, h, changed-false hs os) in
    rw (EditingHost-ext x o a b, c) refl

changed_refl : (hs : List EditingHost) → changed hs hs ≡ false
unfolding changed
changed_refl [] = refl
changed_refl (h ∷ hs) =
    ground
      (arith, changed-cons h h hs hs, changed_refl hs, text_eq_refl h.name, text_eq_refl h.host)

-- The button to save is off exactly where the list is the server's, host by host and in order.
pub has_changes_iff :
    (s : Section) → (has_changes s ≡ false) ↔ (s.file_hosts ≡ original_file_hosts s.config)
unfolding has_changes changed
has_changes_iff s = (
  changed-false s.file_hosts (original_file_hosts s.config),
  λ e.
      ap (λ hs. changed hs (original_file_hosts s.config)) e
      ∙ changed_refl (original_file_hosts s.config),
)
