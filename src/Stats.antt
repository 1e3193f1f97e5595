-- ===== src/Stats.antt =====
-- The statistics of a container over a web socket: useContainerStats of
-- frontend/src/features/containers/hooks/use-container-stats.ts. The hook does not look into a
-- statistic, so its type is a parameter; the socket's events are inputs.
pub mod History
mod Tests
use vps_monitor.Common.{
  ◌+◌, ℕ, ◌-◌, Text, codes, Option, none, some, List, [], ◌∷◌, ◌++◌, Bool, true, false,
  if◌then◌else◌, length, drop, ltb, ◌==◌,
}

-- A socket, numbered by when it was created, and whether its readyState is OPEN.
pub record Socket : Type 0 where
  pub number : ℕ
  pub is_open : Bool

-- `updated.slice(-n)`, which is everything for 0.
unfoldable pub slice_last {ℓ} : {A : Type ℓ} → ℕ → List A → List A
slice_last n xs = if n == 0 then xs else drop (length xs - n) xs

module _ {ℓ} (Stats : Type ℓ) where
  pub record Connection : Type ℓ where
    pub stats : Option Stats
    pub history : List Stats
    pub is_connected : Bool
    pub error : Option Text
    pub socket : Option Socket
    -- How many sockets were created.
    pub created : ℕ

  -- `message` carries what JSON.parse gives, `none` if it throws.
  pub data Event : Type ℓ where
    connect disconnect clear_history : Event
    opened failed closed : ℕ → Event
    message : Option Stats → Event

module _ {ℓ} {Stats : Type ℓ} where
  abbrev reconnected : Connection Stats → Connection Stats
  reconnected s = record s {
    socket = some (record { number = s.created; is_open = false });
    created = s.created + 1;
  }

  unfoldable pub connected : Option Socket → Connection Stats → Connection Stats
  connected none s = reconnected s
  connected (some w) s = if w.is_open then s else reconnected s

-- The socket of the hook after the readyState of the numbered one changed.
ready : ℕ → Bool → Option Socket → Option Socket
ready i b none = none
ready i b (some w) = if w.number == i then some (record w { is_open = b }) else some w

module _ {ℓ} {Stats : Type ℓ} (history_length : ℕ) where
  unfoldable pub pushed : Stats → List Stats → List Stats
  unfolding slice_last
  pushed item history =
      let updated = history ++ item ∷ [] in
      if ltb history_length (length updated) then slice_last history_length updated else updated

  unfoldable pub handle : Event Stats → Connection Stats → Connection Stats
  unfolding pushed connected ready
  handle connect s = connected s.socket s
  handle disconnect s = record s { socket = none; is_connected = false }
  handle clear_history s = record s { history = [] }
  handle (opened i) s = record s {
    is_connected = true;
    error = none;
    socket = ready i true s.socket;
  }
  handle (message (some item)) s = record s { stats = some item; history = pushed item s.history }
  handle (message none) s = s
  handle (failed i) s = record s {
    error = some (codes "WebSocket connection error");
    is_connected = false;
    socket = ready i false s.socket;
  }
  handle (closed i) s = record s { is_connected = false; socket = ready i false s.socket }

  abbrev pub handle_events : List (Event Stats) → Connection Stats → Connection Stats
  handle_events [] s = s
  handle_events (e ∷ es) s = handle_events es (handle e s)
