-- ===== src/Images/Tests.antt =====
-- The image table and the pull dialog at concrete images.
use vps_monitor.Common.{
  ℕ, Text, codes, trim, text_eq, some, none, Option, List, [], ◌∷◌, ◌++◌, map, any, Bool, true,
  false, ◌&&◌, ◌≡◌, refl, flat_map, if◌then◌else◌,
}
use vps_monitor.Logs.Stream.{Decoder}
use vps_monitor.Images.{ImageInfo, Recorded, get_image_repo, get_image_tag, last_index_of, hosts}
use vps_monitor.Images.Names.{get_image_repo_tag}
use vps_monitor.Images.Pull.{
  ImagePullProgress, line, Reply, fetch_threw, rejected, streamed, completed_toast,
  images_invalidated, image_pulled, Dialog, handle_pull, report, is_cancelled, until,
  handle_pull_lem,
}

abbrev image : List Text → Text → ImageInfo
image tags host = record {
  id = codes "sha256:0123456789abcdef";
  repo_tags = tags;
  repo_digests = [];
  size = 10;
  virtual_size = 10;
  created = 0;
  labels = none;
  host = host;
}

abbrev nginx : ImageInfo
nginx = image (codes "registry:5000/nginx:1.27" ∷ []) (codes "local")

get_image_repo_tag_example :
    (get_image_repo nginx ≡ codes "registry:5000/nginx") × (get_image_tag nginx ≡ codes "1.27")
unfolding last_index_of
get_image_repo_tag_example =
    get_image_repo_tag nginx (codes "registry:5000/nginx") (codes "1.27") [] refl refl refl

-- Without a tag, the port of the registry is shown as the tag.
untagged :
    (get_image_repo (image (codes "registry:5000/nginx" ∷ []) (codes "local")) ≡ codes "registry")
    × (get_image_tag (image (codes "registry:5000/nginx" ∷ []) (codes "local"))
        ≡ codes "5000/nginx")
unfolding get_image_repo get_image_tag
untagged = (refl, refl)

dangling : get_image_repo (image [] (codes "local")) ≡ codes "0123456789ab"
unfolding get_image_repo vps_monitor.Common.index_of
dangling = refl

abbrev scans : List Recorded
scans =
    record { image_ref = codes "registry:5000/nginx:1.27"; host = codes "remote" }
    ∷ record { image_ref = codes "redis:7"; host = codes "local" }
    ∷ []

known_hosts :
    hosts (some (nginx ∷ image [] (codes "remote") ∷ nginx ∷ []))
    ≡ codes "local" ∷ codes "remote" ∷ []
unfolding hosts vps_monitor.Common.Sets.add_all vps_monitor.Common.Sets.has text_eq
known_hosts = refl

-- One byte for each character, and a line is its own status.
abbrev bytes : Decoder
bytes = record { State = Unit; start = tt; decode = λ s b. (b, s); flush = λ s. [] }

abbrev parse : Text → Option ImagePullProgress
parse s = some (line s)

abbrev print : ℕ → Text
print n = []

abbrev replies : Text → Reply
replies host =
    if text_eq host (codes "a")
    then rejected 500 (codes "no space")
    else if text_eq host (codes "b")
    then streamed ((codes "pulling" ++ 10 ∷ []) ∷ []) none
    else fetch_threw (record { name = codes "AbortError"; message = [] })

abbrev dialog : Dialog
dialog = record {
  is_open = true;
  image_name = codes " nginx ";
  is_pulling = false;
  progress = [];
  selected_hosts = codes "a" ∷ codes "b" ∷ codes "c" ∷ codes "d" ∷ [];
  effects = [];
}

handle_pull_example :
    ((handle_pull parse bytes print replies dialog).progress
      ≡ flat_map
          (report parse bytes print replies)
          (until (λ host. is_cancelled (replies host)) dialog.selected_hosts))
    × (((handle_pull parse bytes print replies dialog).effects
          ≡ (dialog.effects
              ++ map
                  (image_pulled (trim dialog.image_name))
                  (until (λ host. is_cancelled (replies host)) dialog.selected_hosts))
            ++ completed_toast ∷ images_invalidated ∷ [])
        × ((handle_pull parse bytes print replies dialog).is_pulling ≡ false))
unfolding trim
handle_pull_example = handle_pull_lem parse bytes print replies dialog refl refl

-- A pull that was cancelled, after one that failed, is announced as completed.
cancelled_completed :
    (handle_pull parse bytes print replies dialog).effects
    ≡ image_pulled (codes "nginx") (codes "a")
      ∷ image_pulled (codes "nginx") (codes "b")
      ∷ image_pulled (codes "nginx") (codes "c")
      ∷ completed_toast
      ∷ images_invalidated
      ∷ []
unfolding handle_pull trim text_eq
cancelled_completed = refl
