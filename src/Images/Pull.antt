-- ===== src/Images/Pull.antt =====
-- Pulling an image: pullImage of frontend/src/features/images/api/pull-image.ts and the dialog of
-- components/image-pull-dialog.tsx beside it. The reading loop of pullImage is that of
-- iterateNDJSONStream without its test of the signal. A pull runs over the replies of its hosts to its
-- end. The text decoder, the JSON parser and the text of a number are the runtime's, parameters.
use vps_monitor.Common.{
  ltb, sym, ℕ, Text, codes, truthy, text_eq, or_text, trim, Option, none, some, List, [], ◌∷◌, ◌++◌,
  map, Bool, true, false, not, ◌||◌, if◌then◌else◌, ◌==◌, length, flat_map, ◌≡◌, arith,
  append_assoc, append-nil, ap, refl,
}
use vps_monitor.Common.Sets.{has, delete}
use vps_monitor.Logs.Control.{Failure}
use vps_monitor.Logs.Stream.{Decoder, chunk, broken, iterate_ndjson_stream}

pub record ImagePullProgress : Type 0 where
  pub status : Text
  pub progress : Option Text
  pub id : Option Text

abbrev pub line : Text → ImagePullProgress
line status = record { status = status; progress = none; id = none }

-- How a request goes: fetch throws, the status is not a success and the body has the text, there is no
-- body, or it has these chunks, and then the reading throws or the body ends.
pub data Reply : Type 0 where
  fetch_threw : Failure → Reply
  rejected : ℕ → Text → Reply
  unreadable : Reply
  streamed : List (List ℕ) → Option Failure → Reply

pub data Effect : Type 0 where
  -- The POST for the image on the host.
  image_pulled : Text → Text → Effect
  completed_toast images_invalidated aborted : Effect

-- The dialog with the selected hosts, which its parent keeps.
pub record Dialog : Type 0 where
  pub is_open : Bool
  pub image_name : Text
  pub is_pulling : Bool
  pub progress : List ImagePullProgress
  pub selected_hosts : List Text
  pub effects : List Effect

abbrev thrown : Text → Failure
thrown message = record { name = codes "Error"; message = message }

abbrev pub cancels : Option Failure → Bool
cancels none = false
cancels (some error) = text_eq error.name (codes "AbortError")

-- The last line for a host.
abbrev pub ending : Text → Option Failure → ImagePullProgress
ending host none = line (codes "Completed on " ++ host)
ending host (some error) =
    if text_eq error.name (codes "AbortError")
    then line (codes "Pull cancelled")
    else line (codes "Error on " ++ (host ++ (codes ": " ++ error.message)))

-- What the dialog shows of a host.
unfoldable pub host_lines : Text → List ImagePullProgress × Option Failure → List ImagePullProgress
host_lines host (items, error) =
    (line (codes "Starting pull on " ++ (host ++ codes "...")) ∷ items) ++ ending host error ∷ []

module _ (parse : Text → Option ImagePullProgress) (d : Decoder) (print : ℕ → Text) where
  -- The items that are yielded, and the error that is thrown at the end.
  unfoldable pub pull_image : Reply → List ImagePullProgress × Option Failure
  pull_image (fetch_threw error) = ([], some error)
  pull_image (rejected status message) =
      ([], some (thrown (or_text message (codes "Request failed with status " ++ print status))))
  pull_image unreadable = ([], some (thrown (codes "Response body is not readable")))
  pull_image (streamed chunks none) = ((iterate_ndjson_stream parse d (map chunk chunks)).0, none)
  pull_image (streamed chunks (some error)) =
      ((iterate_ndjson_stream parse d (map chunk chunks ++ broken ∷ [])).0, some error)

  module _ (name : Text) (reply : Text → Reply) where
    -- The loop over the hosts, left at `break`.
    unfoldable pub pull_hosts : List Text → Dialog → Dialog
    unfolding pull_image host_lines
    pull_hosts [] s = s
    pull_hosts (host ∷ hosts) s =
        let pulled = pull_image (reply host) in
        let next = record s {
          progress = s.progress ++ host_lines host pulled;
          effects = s.effects ++ image_pulled name host ∷ [];
        } in
        let rest = pull_hosts hosts next in if cancels pulled.1 then next else rest

  unfoldable pub handle_pull : (Text → Reply) → Dialog → Dialog
  unfolding pull_hosts
  handle_pull reply s =
      if not (truthy (trim s.image_name)) || length s.selected_hosts == 0
      then s
      else let pulled =
          pull_hosts (trim s.image_name) reply s.selected_hosts
            (record s { is_pulling = true; progress = [] }) in
        record pulled {
          is_pulling = false;
          effects = pulled.effects ++ completed_toast ∷ images_invalidated ∷ [];
        }

unfoldable pub toggle_host : Text → Dialog → Dialog
toggle_host host s =
    if has host s.selected_hosts
    then record s { selected_hosts = delete host s.selected_hosts }
    else record s { selected_hosts = s.selected_hosts ++ host ∷ [] }

unfoldable pub handle_close : Bool → Dialog → Dialog
handle_close true s = record s { is_open = true }
handle_close false s = record s {
  is_open = false;
  image_name = [];
  progress = [];
  effects = s.effects ++ (if s.is_pulling then aborted ∷ [] else []);
}

-- The text of the last line for a host.
abbrev pub last_of : Text → Bool → Option Text → Text
last_of host true message = codes "Pull cancelled"
last_of host false none = codes "Completed on " ++ host
last_of host false (some message) = codes "Error on " ++ (host ++ (codes ": " ++ message))

ending_by :
    (host : Text) (error : Failure) (b : Bool)
    → (if b
        then line (codes "Pull cancelled")
        else line (codes "Error on " ++ (host ++ (codes ": " ++ error.message))))
      ≡ line (last_of host b (some error.message))
ending_by host error true = refl
ending_by host error false = refl

-- The elements up to the first that passes, with it.
abbrev pub until {ℓ} : {A : Type ℓ} → (A → Bool) → List A → List A
until p [] = []
until p (x ∷ xs) = let rest = until p xs in if p x then x ∷ [] else x ∷ rest

-- The request was aborted, before the reply or while it was read.
abbrev pub is_cancelled : Reply → Bool
is_cancelled (fetch_threw error) = text_eq error.name (codes "AbortError")
is_cancelled (streamed chunks (some error)) = text_eq error.name (codes "AbortError")
is_cancelled _ = false

module _ (parse : Text → Option ImagePullProgress) (d : Decoder) (print : ℕ → Text) where
  -- What a reply sends before it ends or breaks.
  abbrev pub sent_by : Reply → List ImagePullProgress
  sent_by (streamed chunks none) = (iterate_ndjson_stream parse d (map chunk chunks)).0
  sent_by (streamed chunks (some error)) =
      (iterate_ndjson_stream parse d (map chunk chunks ++ broken ∷ [])).0
  sent_by _ = []

  -- The message of what goes wrong, if anything does.
  abbrev pub fault : Reply → Option Text
  fault (fetch_threw error) = some error.message
  fault (rejected status []) = some (codes "Request failed with status " ++ print status)
  fault (rejected status (c ∷ message)) = some (c ∷ message)
  fault unreadable = some (codes "Response body is not readable")
  fault (streamed chunks none) = none
  fault (streamed chunks (some error)) = some error.message

  -- The lines for a host: that its pull begins, what it sent, and how it ended.
  abbrev pub report : (Text → Reply) → Text → List ImagePullProgress
  report reply host =
      line (codes "Starting pull on " ++ (host ++ codes "..."))
      ∷ (sent_by (reply host)
          ++ line (last_of host (is_cancelled (reply host)) (fault (reply host))) ∷ [])

  ending_lem :
      (host : Text) (error : Failure)
      → ending host (some error)
        ≡ line (last_of host (text_eq error.name (codes "AbortError")) (some error.message))
  ending_lem host error = ending_by host error (text_eq error.name (codes "AbortError"))

  cancels-pull_image : (r : Reply) → cancels (pull_image parse d print r).1 ≡ is_cancelled r
  unfolding pull_image text_eq
  cancels-pull_image (fetch_threw error) = refl
  cancels-pull_image (rejected status message) = refl
  cancels-pull_image unreadable = refl
  cancels-pull_image (streamed chunks none) = refl
  cancels-pull_image (streamed chunks (some error)) = refl

  host_lines-pull_image :
      (host : Text) (r : Reply)
      → host_lines host (pull_image parse d print r)
        ≡ line (codes "Starting pull on " ++ (host ++ codes "..."))
          ∷ (sent_by r ++ line (last_of host (is_cancelled r) (fault r)) ∷ [])
  unfolding host_lines pull_image
  host_lines-pull_image host (fetch_threw error) =
      ap (λ e. line (codes "Starting pull on " ++ (host ++ codes "...")) ∷ e ∷ [])
        (ending_lem host error)
  host_lines-pull_image host (rejected status []) = unfold text_eq in refl
  host_lines-pull_image host (rejected status (c ∷ message)) = unfold text_eq in refl
  host_lines-pull_image host unreadable = unfold text_eq in refl
  host_lines-pull_image host (streamed chunks none) = refl
  host_lines-pull_image host (streamed chunks (some error)) =
      ap
        (λ e.
          line (codes "Starting pull on " ++ (host ++ codes "..."))
          ∷ ((iterate_ndjson_stream parse d (map chunk chunks ++ broken ∷ [])).0 ++ e ∷ []))
        (ending_lem host error)

  pull_hosts_lem :
      (name : Text) (reply : Text → Reply) (hosts : List Text) (s : Dialog)
      → ((pull_hosts parse d print name reply hosts s).progress
          ≡ s.progress ++ flat_map (report reply) (until (λ host. is_cancelled (reply host)) hosts))
        × ((pull_hosts parse d print name reply hosts s).effects
            ≡ s.effects
              ++ map (image_pulled name) (until (λ host. is_cancelled (reply host)) hosts))
  unfolding pull_hosts
  pull_hosts_lem name reply [] s = (sym (append-nil s.progress), sym (append-nil s.effects))
  pull_hosts_lem name reply (host ∷ hosts) s =
      let next : Dialog = record s {
        progress = s.progress ++ report reply host;
        effects = s.effects ++ image_pulled name host ∷ [];
      } in
      let more = until (λ h. is_cancelled (reply h)) hosts in
      ground (
        arith,
        pull_hosts_lem name reply hosts next,
        cancels-pull_image (reply host),
        host_lines-pull_image host (reply host),
        append_assoc s.progress (report reply host) (flat_map (report reply) more),
        append-nil (report reply host),
        append_assoc s.effects (image_pulled name host ∷ []) (map (image_pulled name) more),
      )

  -- With a name that is not blank and a host selected, a pull asks the selected hosts in order, up to and
  -- with the first whose request is aborted, and no other; a host whose pull fails otherwise does not keep
  -- the next ones from being asked. The dialog shows what each of them sent, between its first line and
  -- the line that says how it ended, and is not pulling any more.
  pub handle_pull_lem :
      (reply : Text → Reply) (s : Dialog)
      → truthy (trim s.image_name) ≡ true
      → ltb 0 (length s.selected_hosts) ≡ true
      → ((handle_pull parse d print reply s).progress
          ≡ flat_map (report reply) (until (λ host. is_cancelled (reply host)) s.selected_hosts))
        × (((handle_pull parse d print reply s).effects
              ≡ (s.effects
                  ++ map
                      (image_pulled (trim s.image_name))
                      (until (λ host. is_cancelled (reply host)) s.selected_hosts))
                ++ completed_toast ∷ images_invalidated ∷ [])
            × ((handle_pull parse d print reply s).is_pulling ≡ false))
  unfolding handle_pull
  handle_pull_lem reply s n h =
      let begun : Dialog = record s { is_pulling = true; progress = [] } in
      ground (arith, n, h, pull_hosts_lem (trim s.image_name) reply s.selected_hosts begun)
