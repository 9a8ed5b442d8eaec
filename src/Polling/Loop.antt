-- ===== src/Polling/Loop.antt =====
-- web/src/composables/usePollingLoop.ts as a machine, whose `tick` is an asynchronous function: the calls `start` and `stop`, the answers of a
-- gate, the timer, changes of visibility, and polls that settle. The last three fields of the state
-- are not the composable's: the clock, the gates and the polls that have not settled.
use kube_console.Shared.{
  ℕ, ◌+◌, ◌-◌, Bool, true, false, not, ◌&&◌, ◌||◌, List, [], ◌∷◌, Option, none, some, leb, ltb,
  ◌==◌, if◌then◌else◌,
}

-- A pending timer: the generation its callback captured, and when it is due.
pub record Timer : Type 0 where
  pub armed_for : ℕ
  pub due : ℕ

pub record Loop : Type 0 where
  pub timer : Option Timer
  pub gen : ℕ
  pub live : Bool
  pub last_tick_ms : ℕ
  pub in_flight : List (ℕ × ℕ)
  pub clock : ℕ
  pub gates : List ℕ
  pub ticks : List ℕ

-- `inFlight.get(g) ?? 0`
unfoldable pub pending : ℕ → List (ℕ × ℕ) → ℕ
pending g [] = 0
pending g ((k, n) ∷ rest) = let later = pending g rest in if k == g then n else later

-- `inFlight.set(g, n)`
unfoldable pub set_pending : ℕ → ℕ → List (ℕ × ℕ) → List (ℕ × ℕ)
set_pending g n [] = (g, n) ∷ []
set_pending g n ((k, m) ∷ rest) =
    let later = set_pending g n rest in if k == g then (k, n) ∷ rest else (k, m) ∷ later

-- `inFlight.delete(g)`
unfoldable pub delete_pending : ℕ → List (ℕ × ℕ) → List (ℕ × ℕ)
delete_pending g [] = []
delete_pending g ((k, m) ∷ rest) =
    let later = delete_pending g rest in if k == g then later else (k, m) ∷ later

-- `isCurrent(g)`
unfoldable pub is_current : ℕ → Loop → Bool
is_current g s = g == s.gen && s.live

-- The synchronous part of `runTick(g)`.
unfoldable pub run_tick : ℕ → Loop → Loop
run_tick g s = record s {
  last_tick_ms = s.clock;
  in_flight = set_pending g (pending g s.in_flight + 1) s.in_flight;
  ticks = g ∷ s.ticks;
}

-- The `finally` of `runTick(g)`.
unfoldable pub settle_tick : ℕ → Loop → Loop
settle_tick g s =
    let left = pending g s.in_flight - 1 in
    record s {
      in_flight =
          if leb left 0 then delete_pending g s.in_flight else set_pending g left s.in_flight;
    }

-- `schedule(g)`, with the interval as its argument.
unfoldable pub schedule : ℕ → ℕ → Loop → Loop
schedule interval g s =
    if not (g == s.gen) || not s.live
    then s
    else record s { timer = some (record { armed_for = g; due = s.clock + interval }) }

-- `stop()`
unfoldable pub stop : Loop → Loop
stop s = record s { gen = s.gen + 1; live = false; timer = none }

-- `start()` after its gate.
unfoldable pub go_live : ℕ → Loop → Loop
go_live g s = run_tick g (record s { live = true })

-- `start(gate)` up to its first await.
unfoldable pub start : Bool → Loop → Loop
start has_gate s =
    let fresh = record (stop s) { gen = (stop s).gen + 1 } in
    if has_gate then record fresh { gates = fresh.gen ∷ s.gates } else go_live fresh.gen fresh

-- The gate of the start of the generation `g` answers.
unfoldable pub gate_answers : ℕ → Bool → Loop → Loop
gate_answers g proceed s = if not (g == s.gen) || not proceed then s else go_live g s

-- The callback of a timer that captured `g`.
unfoldable pub timer_callback : ℕ → Bool → ℕ → Loop → Loop
timer_callback interval hidden g s =
    let fired = record s { timer = none } in
    if not (g == s.gen) || not s.live
    then fired
    else if hidden
    then schedule interval g fired
    else run_tick g fired

-- `onVisibilityChange()`. The listener is there while the loop is live; the function itself tests
-- that again.
unfoldable pub on_visibility_change : ℕ → Bool → Loop → Loop
on_visibility_change interval hidden s =
    if hidden || not s.live
    then s
    else if ltb (s.clock - s.last_tick_ms) interval
    then s
    else if ltb 0 (pending s.gen s.in_flight)
    then s
    else run_tick s.gen (record s { timer = none })

-- One of the polls, or gates, of a generation leaves the list, if there is one.
unfoldable pub has_one : ℕ → List ℕ → Bool
has_one g [] = false
has_one g (h ∷ hs) = h == g || has_one g hs

unfoldable pub leave : ℕ → List ℕ → List ℕ
leave g [] = []
leave g (h ∷ hs) = let later = leave g hs in if h == g then hs else h ∷ later

pub data Event : Type 0 where
  start_called : Bool → Event
  stop_called : Event
  gate_settles : ℕ → Bool → Event
  timer_due : Bool → Event
  visibility_changes : Bool → Event
  tick_settles : ℕ → Event
  time_passes : ℕ → Event

-- The timer fires, not before it is due.
unfoldable pub fire : ℕ → Bool → Option Timer → Loop → Loop
fire interval hidden none s = s
fire interval hidden (some t) s =
    if leb t.due s.clock then timer_callback interval hidden t.armed_for s else s

-- A poll of `g` settles: whichever path ran it, `schedule(g)` follows.
unfoldable pub after_tick : ℕ → ℕ → Loop → Loop
after_tick interval g s = schedule interval g (settle_tick g (record s { ticks = leave g s.ticks }))

unfoldable pub step : ℕ → Event → Loop → Loop
step interval (start_called has_gate) s = start has_gate s
step interval stop_called s = stop s
step interval (gate_settles g proceed) s =
    if has_one g s.gates then gate_answers g proceed (record s { gates = leave g s.gates }) else s
step interval (timer_due hidden) s = fire interval hidden s.timer s
step interval (visibility_changes hidden) s = on_visibility_change interval hidden s
step interval (tick_settles g) s = if has_one g s.ticks then after_tick interval g s else s
step interval (time_passes elapsed) s = record s { clock = s.clock + elapsed }

unfoldable pub run : ℕ → List Event → Loop → Loop
run interval [] s = s
run interval (e ∷ es) s = run interval es (step interval e s)

-- The state when the composable is set up.
abbrev pub idle : ℕ → Loop
idle clock = record {
  timer = none;
  gen = 0;
  live = false;
  last_tick_ms = 0;
  in_flight = [];
  clock = clock;
  gates = [];
  ticks = [];
}
