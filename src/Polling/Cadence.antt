-- ===== src/Polling/Cadence.antt =====
-- web/src/composables/usePollingLoop.ts: how far apart polls are started.
use kube_console.Shared.{ℕ, ◌+◌, ◌≤◌, ◌≡◌, Bool, true, false, Option, none, some, ◌⊎◌, length}
use kube_console.Polling.Loop.{Timer, Loop, Event, start_called, gate_settles}

-- A pending timer is due no earlier than an interval after the last poll was started.
unfoldable pub IsLater : ℕ → ℕ → Option Timer → Type 0
IsLater interval last none = Unit
IsLater interval last (some t) = last + interval ≤ t.due

abbrev pub IsPaced : ℕ → Loop → Type 0
IsPaced interval s = (s.last_tick_ms ≤ s.clock) × IsLater interval s.last_tick_ms s.timer

-- The step starts no poll, or the last poll was started at least an interval ago.
abbrev pub IsSpaced : ℕ → Loop → Loop → Type 0
IsSpaced interval s t =
    (length t.ticks ≤ length s.ticks)
    ⊎ ((s.last_tick_ms + interval ≤ s.clock) × (length t.ticks ≡ length s.ticks + 1))

-- Whether an event is a start, or the answer of a start's gate.
unfoldable pub is_start : Event → Bool
is_start (start_called has_gate) = true
is_start (gate_settles g proceed) = true
is_start _ = false
