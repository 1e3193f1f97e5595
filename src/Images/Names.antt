-- ===== src/Images/Names.antt =====
-- The names that the image table makes of tags, and its keys.
use vps_monitor.Common.{
  ℕ, suc, ◌-◌, Text, truthy, text_eq, text_eq_iff, text_eq_refl, Option, none, some, List, [], ◌∷◌,
  ◌++◌, map, true, ◌&&◌, any, length, take, drop, All, ◌≡◌, refl, ap, sym, ◌∙◌, arith, append_assoc,
  Bool-ext, length-append,
}
use vps_monitor.Common.Sets.{has, has-add_all}
use vps_monitor.Images.{
  ImageInfo, Recorded, last_index_of, repo_until, tag_after, get_image_repo, get_image_tag,
  get_image_display_name, key, recorded_set, is_recorded,
}

last_index_of-append :
    (c : ℕ) (r t : Text) → last_index_of c t ≡ none → last_index_of c (r ++ c ∷ t) ≡ some (length r)
unfolding last_index_of
last_index_of-append c [] t h = ground (arith, h)
last_index_of-append c (d ∷ r) t h = rw (last_index_of-append c r t h) refl

take-length {ℓ} : {A : Type ℓ} (r s : List A) → take (length r) (r ++ s) ≡ r
take-length [] s = refl
take-length (d ∷ r) s = ap (◌∷◌ d) (take-length r s)

drop-length {ℓ} : {A : Type ℓ} (r s : List A) (c : A) → drop (suc (length r)) (r ++ c ∷ s) ≡ s
drop-length [] s c = refl
drop-length (d ∷ r) s c = drop-length r s c

repo_until_lem : (r t : Text) → truthy r ≡ true → repo_until (some (length r)) (r ++ 58 ∷ t) ≡ r
repo_until_lem [] t h = ground (arith, h)
repo_until_lem (c ∷ r) t h = ground (arith, take-length r (58 ∷ t))

tag_after_lem : (r t : Text) → truthy r ≡ true → tag_after (some (length r)) (r ++ 58 ∷ t) ≡ t
tag_after_lem [] t h = ground (arith, h)
tag_after_lem (c ∷ r) t h = ground (arith, drop-length r t 58)

-- An image whose first tag is a repository that is not empty, a colon and a tag without a colon is shown
-- with just that repository and that tag; the repository may itself have colons.
pub get_image_repo_tag :
    (image : ImageInfo) (r t : Text) (more : List Text)
    → image.repo_tags ≡ (r ++ 58 ∷ t) ∷ more
    → truthy r ≡ true
    → last_index_of 58 t ≡ none
    → (get_image_repo image ≡ r) × (get_image_tag image ≡ t)
unfolding get_image_repo get_image_tag
get_image_repo_tag image r t more e h n =
    rw (e, last_index_of-append 58 r t n) (repo_until_lem r t h, tag_after_lem r t h)

-- A key is cut at its last colon but one.
abbrev cut_at : Option ℕ → Text → Text × Text
cut_at none s = ([], [])
cut_at (some i) s = (take (i - 1) s, drop (suc i) s)

cut : Text → Text × Text
cut s = cut_at (last_index_of 58 s) s

cut-key : (r h : Text) → last_index_of 58 h ≡ none → cut (key r h) ≡ (r, h)
unfolding cut
cut-key r h n =
    let e : (r ++ 58 ∷ []) ++ 58 ∷ h ≡ key r h = append_assoc r (58 ∷ []) (58 ∷ h) in
    let l : length (r ++ 58 ∷ []) ≡ suc (length r) = omega (arith, length-append r (58 ∷ [])) in
    let at : last_index_of 58 (key r h) ≡ some (suc (length r)) =
      rw (← e, ← l) (last_index_of-append 58 (r ++ 58 ∷ []) h n) in
    let rest : drop (suc (suc (length r))) (key r h) ≡ h =
      rw (← e, ← l) (drop-length (r ++ 58 ∷ []) h 58) in
    let one : suc (length r) - 1 ≡ length r = omega arith in
    rw (at, one, rest, take-length r (58 ∷ 58 ∷ h)) refl

-- A host without a colon is told from the reference before it.
key_injective :
    (r r' h h' : Text)
    → last_index_of 58 h ≡ none
    → last_index_of 58 h' ≡ none
    → key r h ≡ key r' h'
    → (r ≡ r') × (h ≡ h')
key_injective r r' h h' n n' e =
    let both : (r, h) ≡ (r', h') = sym (cut-key r h n) ∙ ap cut e ∙ cut-key r' h' n' in
    (ap (λ p. p.0) both, ap (λ p. p.1) both)

text_eq-key :
    (r r' h h' : Text)
    → last_index_of 58 h ≡ none
    → last_index_of 58 h' ≡ none
    → text_eq (key r h) (key r' h') ≡ (text_eq r r' && text_eq h h')
text_eq-key r r' h h' n n' =
    Bool-ext (text_eq (key r h) (key r' h')) (text_eq r r' && text_eq h h') (
      λ e.
          let (a, b) = key_injective r r' h h' n n' ((text_eq_iff (key r h) (key r' h')).0 e) in
          ground (arith, (text_eq_iff r r').1 a, (text_eq_iff h h').1 b),
      λ e.
          let a : r ≡ r' = ground (arith, e, text_eq_iff r r') in
          let b : h ≡ h' = ground (arith, e, text_eq_iff h h') in
          rw (a, b) (text_eq_refl (key r' h')),
    )

has-keys :
    (name host : Text) (images : List Recorded)
    → last_index_of 58 host ≡ none
    → All (λ i. last_index_of 58 i.host ≡ none) images
    → has (key name host) (map (λ i. key i.image_ref i.host) images)
      ≡ any (λ i. text_eq name i.image_ref && text_eq host i.host) images
unfolding has
has-keys name host [] n all = refl
has-keys name host (i ∷ is) n all =
    rw (text_eq-key name i.image_ref host i.host n all.0, has-keys name host is n all.1) refl

-- Where no host has a colon in its name, a row is marked as scanned (or as having a bill of materials)
-- exactly if the reply has an entry with the image's name and its host: a key made of one image and
-- another host, or of two names that join to the same text, does not mark it.
pub is_recorded_lem :
    (images : List Recorded) (image : ImageInfo)
    → last_index_of 58 image.host ≡ none
    → All (λ i. last_index_of 58 i.host ≡ none) images
    → is_recorded (some images) image
      ≡ any
          (λ i. text_eq (get_image_display_name image) i.image_ref && text_eq image.host i.host)
          images
unfolding is_recorded recorded_set has
is_recorded_lem images image n all =
    let name = get_image_display_name image in
    let k = key name image.host in
    let e = has-add_all k (map (λ i. key i.image_ref i.host) images) [] in
    ground (arith, e, has-keys name image.host images n all)
