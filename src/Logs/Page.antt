-- ===== src/Logs/Page.antt =====
-- The page of a container's logs, frontend/src/routes/containers/$containerId/logs.tsx: how it finds the
-- container of its address, and its effects on the stream. The stream's operations are those of the
-- sheet, in Control, of which the page has a copy.
mod Tests
use vps_monitor.Common.{
  inr, inl, ◌⊎◌, suc, ℕ, zero, Text, codes, truthy, text_eq, text_eq_refl, starts_with, Option,
  none, some, List, [], ◌∷◌, ◌++◌, Bool, true, false, not, ◌&&◌, ◌||◌, if◌then◌else◌, ◌==◌, find,
  All, take, ltb, ◌≡◌, refl, arith,
}
use vps_monitor.Containers.{ContainerInfo, strip_slash, get_container_url_identifier}
use vps_monitor.Logs.Control.{
  Target, Event, Sheet, Failure, stop_streaming, start_streaming, fetch_at, handle_toggle_stream,
  handle_refresh, handle_fetched, handle_fetch_threw, deliver,
}

abbrev pub is_named : Text → List Text → Bool
is_named identifier [] = false
is_named identifier (name ∷ names) = text_eq (strip_slash name) identifier

unfoldable pub is_addressed : Text → ContainerInfo → Bool
is_addressed identifier c =
    is_named identifier c.names || text_eq c.id identifier || starts_with c.id identifier

-- `decode` is decodeURIComponent, and the text the route's parameter.
unfoldable pub find_container : (Text → Text) → Text → List ContainerInfo → Option ContainerInfo
unfolding is_addressed
find_container decode parameter = find (is_addressed (decode parameter))

-- The container that requests name, if there is one with a host: `container?.id || containerIdentifier`.
abbrev pub target_of : Text → Option ContainerInfo → Option Target
target_of identifier none = none
target_of identifier (some c) =
    let id = if truthy c.id then c.id else identifier in
    if truthy id && truthy c.host then some (record { id = id; host = c.host }) else none

abbrev pub same_target : Option Target → Option Target → Bool
same_target none none = true
same_target none (some t) = false
same_target (some t) none = false
same_target (some t) (some u) = text_eq t.id u.id && text_eq t.host u.host

pub data Input {ℓ} (Entry : Type ℓ) : Type ℓ where
  -- The list of containers is loaded, anew or again.
  loaded : List ContainerInfo → Input Entry
  stream_toggled refreshed : Input Entry
  lines_typed : Option ℕ → Input Entry
  fetched : List Entry → Input Entry
  fetch_threw : Option Failure → Input Entry
  event : Event Entry → Input Entry
  -- The container was recreated and its list is loaded; a tenth of a second after its stream was stopped.
  recreated waited : Input Entry
  left : Input Entry

-- The sheet's state, where `container` is what requests name, and whether a restart is waited for.
pub record Page {ℓ} (Entry : Type ℓ) : Type ℓ where
  pub sheet : Sheet Entry
  pub restarts : Bool

module _ {ℓ} {Entry : Type ℓ} where
  -- The effect on `startStreaming`, after the clean-up of the one before.
  unfoldable pub restart : Sheet Entry → Sheet Entry
  restart s = start_streaming (stop_streaming s)

  unfoldable pub handle_loaded :
      (Text → Text) → Text → List ContainerInfo → Sheet Entry → Sheet Entry
  unfolding restart find_container
  handle_loaded decode parameter containers s =
      let target = target_of (decode parameter) (find_container decode parameter containers) in
      if same_target target s.container then s else restart (record s { container = target })

  unfoldable pub handle_lines : Option ℕ → Sheet Entry → Sheet Entry
  unfolding restart
  handle_lines none s = s
  handle_lines (some n) s =
      if ltb 0 n && not (n == s.log_lines) then restart (record s { log_lines = n }) else s

  unfoldable pub handle_container_recreated : Page Entry → Page Entry
  handle_container_recreated p =
      if p.sheet.is_streaming
      then record p { sheet = stop_streaming p.sheet; restarts = true }
      else record p { sheet = fetch_at p.sheet.container p.sheet }

  unfoldable pub handle :
      (Text → Text) → (Text → Text) → Text → Input Entry → Page Entry → Page Entry
  unfolding handle_loaded handle_lines handle_container_recreated
  handle to_lower decode parameter (loaded containers) p = record p {
    sheet = handle_loaded decode parameter containers p.sheet;
  }
  handle to_lower decode parameter stream_toggled p = record p {
    sheet = handle_toggle_stream p.sheet;
  }
  handle to_lower decode parameter refreshed p = record p { sheet = handle_refresh p.sheet }
  handle to_lower decode parameter (lines_typed n) p = record p { sheet = handle_lines n p.sheet }
  handle to_lower decode parameter (fetched entries) p = record p {
    sheet = handle_fetched entries p.sheet;
  }
  handle to_lower decode parameter (fetch_threw error) p = record p {
    sheet = handle_fetch_threw error p.sheet;
  }
  handle to_lower decode parameter (event e) p = record p { sheet = deliver to_lower e p.sheet }
  handle to_lower decode parameter recreated p = handle_container_recreated p
  handle to_lower decode parameter waited p =
      if p.restarts then record p { sheet = start_streaming p.sheet; restarts = false } else p
  handle to_lower decode parameter left p = record p { sheet = stop_streaming p.sheet }

starts_with-take : (n : ℕ) (s : Text) → starts_with s (take n s) ≡ true
unfolding starts_with
starts_with-take zero s = refl
starts_with-take (suc n) [] = refl
starts_with-take (suc n) (c ∷ s) = ground (arith, starts_with-take n s)

List-cases {ℓ} :
    {A : Type ℓ} (xs : List A) → (xs ≡ []) ⊎ ((x : A) × ((rest : List A) × (xs ≡ x ∷ rest)))
List-cases [] = inl refl
List-cases (x ∷ xs) = inr (x, (xs, refl))

is_addressed_own : (c : ContainerInfo) → is_addressed (get_container_url_identifier c) c ≡ true
unfolding is_addressed get_container_url_identifier
is_addressed_own c = elim (List-cases c.names) [
  | inl e ↦ rw e (ground (arith, starts_with-take 12 c.id))
  | inr (x, (rest, e)) ↦ rw e (ground (arith, text_eq_refl (strip_slash x)))
]

find-append :
    (identifier : Text) (before after : List ContainerInfo) (c : ContainerInfo)
    → is_addressed identifier c ≡ true
    → All (λ b. is_addressed identifier b ≡ false) before
    → find (is_addressed identifier) (before ++ c ∷ after) ≡ some c
find-append identifier [] after c o h = ground (arith, o)
find-append identifier (b ∷ before) after c o h =
    ground (arith, h.0, find-append identifier before after c o h.1)

-- A parameter that decodes to the address that a container is linked by leads back to it, wherever it stands
-- in the list, if no container before it in the list has that name, that ID or an ID that starts with it.
pub find_container-address :
    (decode : Text → Text) (parameter : Text) (before after : List ContainerInfo)
    (c : ContainerInfo)
    → decode parameter ≡ get_container_url_identifier c
    → All (λ b. is_addressed (get_container_url_identifier c) b ≡ false) before
    → find_container decode parameter (before ++ c ∷ after) ≡ some c
unfolding find_container
find_container-address decode parameter before after c e h =
    rw e (find-append (get_container_url_identifier c) before after c (is_addressed_own c) h)
