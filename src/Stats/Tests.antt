-- ===== src/Stats/Tests.antt =====
-- A connection that receives a few statistics.
use vps_monitor.Common.{ℕ, none, some, List, [], ◌∷◌, false, ◌≡◌, ◌≢◌, refl, arith}
use vps_monitor.Stats.{Connection, Event, message, opened, handle_events}
use vps_monitor.Stats.History.{last, received, history-handle_events}

abbrev fresh : Connection ℕ
fresh = record {
  stats = none;
  history = [];
  is_connected = false;
  error = none;
  socket = none;
  created = 0;
}

abbrev events : List (Event ℕ)
events = opened 0 ∷ message (some 1) ∷ message (some 2) ∷ message none ∷ message (some 3) ∷ []

two-ne-zero : ◌≢◌ {A = ℕ} 2 0
two-ne-zero = λ h. omega arith

history_example : (handle_events 2 events fresh).history ≡ last 2 (received events [])
history_example = history-handle_events 2 events [] fresh two-ne-zero refl
