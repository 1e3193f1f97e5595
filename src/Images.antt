-- ===== src/Images.antt =====
-- The image table of frontend/src/features/images/components/images-table.tsx, with ImageInfo of
-- features/images/types.ts. Lower case is the runtime's, a parameter. An image without tags has an
-- empty list or none at all in the reply; the code treats both alike, and here it is the empty list.
pub mod Names
pub mod Pull
mod Tests
use vps_monitor.Common.{
  ℕ, suc, ◌+◌, Text, codes, truthy, text_eq, index_of, includes, Option, none, some, List, [], ◌∷◌,
  ◌++◌, map, Bool, true, false, not, ◌||◌, if◌then◌else◌, ◌==◌, ltb, filter, length, take, drop,
}
use vps_monitor.Common.Sets.{has, add_all}

pub record ImageInfo : Type 0 where
  pub id : Text
  pub repo_tags : List Text
  pub repo_digests : List Text
  pub size : ℕ
  pub virtual_size : ℕ
  pub created : ℕ
  pub labels : Option (List (Text × Text))
  pub host : Text

-- `s.lastIndexOf(c)` for one code unit, where `none` is -1.
abbrev pub later_index : Option ℕ → Bool → Option ℕ
later_index (some i) here = some (suc i)
later_index none true = some 0
later_index none false = none

unfoldable pub last_index_of : ℕ → Text → Option ℕ
last_index_of c [] = none
last_index_of c (d ∷ s) = later_index (last_index_of c s) (d == c)

abbrev removed_at : Option ℕ → ℕ → Text → Text
removed_at none n s = s
removed_at (some i) n s = take i s ++ drop (i + n) s

-- `id.replace("sha256:", "")`.
unfoldable pub bare_id : Text → Text
bare_id id = removed_at (index_of id (codes "sha256:")) 7 id

abbrev pub repo_until : Option ℕ → Text → Text
repo_until none tag = tag
repo_until (some i) tag = if ltb 0 i then take i tag else tag

abbrev pub tag_after : Option ℕ → Text → Text
tag_after none tag = codes "latest"
tag_after (some i) tag = if ltb 0 i then drop (suc i) tag else codes "latest"

abbrev pub repo_of : Text → List Text → Text
unfolding bare_id last_index_of
repo_of id [] = take 12 (bare_id id)
repo_of id (tag ∷ tags) = repo_until (last_index_of 58 tag) tag

abbrev pub tag_of : List Text → Text
unfolding last_index_of
tag_of [] = codes "<none>"
tag_of (tag ∷ tags) = tag_after (last_index_of 58 tag) tag

abbrev pub name_of : Text → List Text → Text
unfolding bare_id
name_of id [] = take 12 (bare_id id)
name_of id (tag ∷ tags) = tag

unfoldable pub get_image_repo : ImageInfo → Text
unfolding repo_of
get_image_repo image = repo_of image.id image.repo_tags

unfoldable pub get_image_tag : ImageInfo → Text
unfolding tag_of
get_image_tag image = tag_of image.repo_tags

unfoldable pub get_image_display_name : ImageInfo → Text
unfolding name_of
get_image_display_name image = name_of image.id image.repo_tags

unfoldable pub get_short_digest : ImageInfo → Text
unfolding bare_id
get_short_digest image = take 19 (bare_id image.id)

-- An image that was scanned, or whose bill of materials was made.
pub record Recorded : Type 0 where
  pub image_ref : Text
  pub host : Text

abbrev pub key : Text → Text → Text
key ref host = ref ++ (58 ∷ 58 ∷ host)

-- `scannedSet`, and `sbomedSet`; `none` is that the reply is not there.
unfoldable pub recorded_set : Option (List Recorded) → List Text
recorded_set none = []
recorded_set (some images) = add_all (map (λ i. key i.image_ref i.host) images) []

-- Whether a row links to the results instead of offering a scan.
unfoldable pub is_recorded : Option (List Recorded) → ImageInfo → Bool
unfolding recorded_set get_image_display_name
is_recorded recorded image =
    has (key (get_image_display_name image) image.host) (recorded_set recorded)

unfoldable pub all_images : Option (List ImageInfo) → List ImageInfo
all_images none = []
all_images (some images) = images

unfoldable pub hosts : Option (List ImageInfo) → List Text
hosts none = []
hosts (some images) = add_all (map (λ i. i.host) images) []

unfoldable pub total_bytes : List ImageInfo → ℕ
total_bytes [] = 0
total_bytes (i ∷ is) = i.size + total_bytes is

abbrev pub is_unused : ImageInfo → Bool
is_unused image = length image.repo_tags == 0

unfoldable pub unused_count : List ImageInfo → ℕ
unused_count images = length (filter is_unused images)

unfoldable pub filtered_images : (Text → Text) → Text → List ImageInfo → List ImageInfo
unfolding get_image_display_name
filtered_images to_lower search images =
    if not (truthy search)
    then images
    else filter
        (λ image.
          includes (to_lower (get_image_display_name image)) (to_lower search)
          || includes (to_lower image.id) (to_lower search))
        images

-- The dialogs of the table: the image to delete, and the hosts chosen for a pull.
pub data Effect : Type 0 where
  image_removed : Text → Text → Effect
  removed_toast : Effect
  failed_toast : Text → Effect

pub record Table : Type 0 where
  pub image_to_delete : Option ImageInfo
  pub is_pull_dialog_open : Bool
  pub selected_hosts : List Text
  pub effects : List Effect

pub data Input : Type 0 where
  delete_pressed : ImageInfo → Input
  delete_cancelled : Input
  -- The dialog is confirmed; `none` is that the request succeeds, and a message that it fails.
  delete_confirmed : Option Text → Input
  pull_pressed : Input
  pull_closed : Input
  hosts_selected : List Text → Input

abbrev outcome : Option Text → Effect
outcome none = removed_toast
outcome (some message) = failed_toast message

-- `handleDelete`; the request is not forced.
abbrev pub delete_at : Option ImageInfo → Option Text → Table → Table
delete_at none reply s = s
delete_at (some image) reply s = record s {
  image_to_delete = none;
  effects = s.effects ++ image_removed image.id image.host ∷ outcome reply ∷ [];
}

abbrev first_host : List Text → List Text
first_host [] = []
first_host (h ∷ hs) = h ∷ []

unfoldable pub open_pull_dialog : List Text → Table → Table
open_pull_dialog known s = record s {
  is_pull_dialog_open = true;
  selected_hosts = first_host known;
}

unfoldable pub handle : Option (List ImageInfo) → Input → Table → Table
unfolding hosts open_pull_dialog
handle images (delete_pressed image) s = record s { image_to_delete = some image }
handle images delete_cancelled s = record s { image_to_delete = none }
handle images (delete_confirmed reply) s = delete_at s.image_to_delete reply s
handle images pull_pressed s = open_pull_dialog (hosts images) s
handle images pull_closed s = record s { is_pull_dialog_open = false }
handle images (hosts_selected chosen) s = record s { selected_hosts = chosen }
