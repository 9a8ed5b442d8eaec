-- ===== src/LogsStream/Machine.antt =====
-- The connection loop of web/src/composables/useLogsStream.ts (`start`, `runOnce`, `stop`), as a
-- state machine: between two awaits the code runs undisturbed, so each event is one step. A response
-- carries the generation of the loop that waits for it. A loop that was superseded returns without a
-- write as soon as it goes on, so only the latest loop is kept, with the generation it was started
-- with (`gen`) beside the stream's own (`generation`), which `stop` moves on.
use kube_console.Shared.{
  ℕ, ◌+◌, ◌-◌, ◌*◌, ◌/◌, min, String, Bool, true, false, ◌&&◌, List, [], ◌∷◌, ◌++◌, Option, none,
  some, leb, ltb, ◌==◌, if◌then◌else◌,
}
use kube_console.Shared.Text.{Text, split_lines}
use kube_console.LogsStream.Buffer.{Buffer, flush, append, discard_pending, reset}

abbrev pub retry_first_ms : ℕ
retry_first_ms = 1000

abbrev pub retry_max_ms : ℕ
retry_max_ms = 15000

abbrev pub retry_reset_ms : ℕ
retry_reset_ms = 10000

-- What a connection throws: an `ApiError` with its status and message, or anything else.
pub data Failure : Type 0 where
  api_error : ℕ → String → Failure
  other_error : Failure

-- Where the latest loop stands: at no await, at `apiFetch`, at `reader.read()`
-- with the partial line read so far, or at `wait(delay)`.
pub data Phase : Type 0 where
  idle : Phase
  connecting : Phase
  reading : Text → Phase
  waiting : Phase

-- `opts.resume`, which may be missing.
abbrev pub Resume : Type 0
Resume = Option (Option ℕ → Option String)

pub record Stream : Type 0 where
  pub buffer : Buffer
  pub running : Bool
  pub error : Option String
  pub reconnecting : Option String
  pub generation : ℕ
  -- The locals of the latest loop, `gen` first.
  pub owner : ℕ
  pub phase : Phase
  pub target : String
  pub delay : ℕ
  pub attempt_start : ℕ
  pub resume : Resume

unfoldable pub is_fatal : Failure → Bool
is_fatal (api_error status message) = leb 400 status && ltb status 500
is_fatal other_error = false

-- `messageFromError(failure, "Log stream failed.")`
unfoldable pub failure_message : Failure → String
failure_message (api_error status message) = message
failure_message other_error = "Log stream failed."

-- Seconds of log to request again: the age of the last line, rounded up, and one more.
unfoldable pub since_last_line : ℕ → Option ℕ → Option ℕ
since_last_line now none = none
since_last_line now (some at) = some ((now - at + 999) / 1000 + 1)

unfoldable pub stop : Stream → Stream
stop s = record s {
  generation = s.generation + 1;
  buffer = discard_pending s.buffer;
  running = false;
  reconnecting = none;
}

-- `start(url, opts)`, up to its first await.
unfoldable pub start : ℕ → String → Resume → Stream → Stream
unfolding stop
start now url resume s =
    let stopped = stop s in
    record stopped {
      buffer = record (reset stopped.buffer) { truncated = false; last_line_at = none };
      error = none;
      reconnecting = none;
      running = true;
      owner = stopped.generation;
      phase = connecting;
      target = url;
      delay = 0;
      attempt_start = now;
      resume = resume;
    }

-- The loop returns: its `finally` block.
unfoldable pub finish : Stream → Stream
finish s = record s { buffer = flush s.buffer; running = false; reconnecting = none; phase = idle }

-- `apiFetch` resolved, with a body or with null.
unfoldable pub on_connected : Bool → Stream → Stream
unfolding finish
on_connected has_body s =
    if has_body
    then record s { reconnecting = none; phase = reading [] }
    else finish (record s { reconnecting = none; error = some "Empty log stream." })

-- `reader.read()` resolved with a decoded chunk.
unfoldable pub on_chunk : ℕ → Text → Text → Stream → Stream
on_chunk now partial chunk s =
    let (parts, rest) = split_lines (partial ++ chunk) in
    record s { buffer = append now parts s.buffer; phase = reading rest }

-- `reader.read()` resolved with `done`.
unfoldable pub on_done : ℕ → Text → Stream → Stream
unfolding finish
on_done now [] s = finish s
on_done now (c ∷ rest) s = finish (record s { buffer = append now ((c ∷ rest) ∷ []) s.buffer })

-- Where to reconnect after a failure, or that it is final.
unfoldable pub resumed : ℕ → Failure → Stream → Option String
unfolding is_fatal since_last_line
resumed now failure s =
    if is_fatal failure
    then none
    else elim s.resume [ none ↦ none | some f ↦ f (since_last_line now s.buffer.last_line_at) ]

-- A failed attempt with the answer of `resumed`: final, or up to `wait(delay)`.
unfoldable pub after_failure : ℕ → Failure → Option String → Stream → Stream
unfolding finish failure_message
after_failure now failure none s = finish (record s { error = some (failure_message failure) })
after_failure now failure (some url) s = record s {
  target = url;
  delay = if leb retry_reset_ms (now - s.attempt_start) then 0 else s.delay;
  reconnecting = some (failure_message failure);
  buffer = flush s.buffer;
  phase = waiting;
}

unfoldable pub next_delay : ℕ → ℕ
next_delay delay = if delay == 0 then retry_first_ms else min (delay * 2) retry_max_ms

-- `wait(delay)` is over: the next round of the loop.
unfoldable pub on_waited : ℕ → Stream → Stream
unfolding next_delay
on_waited now s = record s { delay = next_delay s.delay; attempt_start = now; phase = connecting }

-- What the browser reports to the loop of a generation, and the flush timer.
pub data Event : Type 0 where
  connected : ℕ → Bool → Event
  chunk : ℕ → ℕ → Text → Event
  done : ℕ → ℕ → Event
  failed : ℕ → ℕ → Failure → Event
  waited : ℕ → ℕ → Event
  timer_fires : Event

unfoldable pub fire_timer : Stream → Stream
fire_timer s = if s.buffer.timer then record s { buffer = flush s.buffer } else s

-- A response at the await where the loop stands. At any other, nothing waits for it.
unfoldable pub deliver : Phase → Event → Stream → Stream
deliver connecting (connected g has_body) s = on_connected has_body s
deliver connecting (failed g now failure) s = after_failure now failure (resumed now failure s) s
deliver (reading partial) (chunk g now text) s = on_chunk now partial text s
deliver (reading partial) (done g now) s = on_done now partial s
deliver (reading partial) (failed g now failure) s =
    after_failure now failure (resumed now failure s) s
deliver waiting (waited g now) s = on_waited now s
deliver _ timer_fires s = fire_timer s
deliver _ _ s = s

-- The loop goes on with an answer to its own await, unless `gen !== generation`. The timer belongs to
-- the current generation: `stop` clears it.
unfoldable pub goes_on : ℕ → Stream → Bool
goes_on g s = g == s.owner && s.owner == s.generation

unfoldable pub is_current : Event → Stream → Bool
is_current (connected g _) s = goes_on g s
is_current (chunk g _ _) s = goes_on g s
is_current (done g _) s = goes_on g s
is_current (failed g _ _) s = goes_on g s
is_current (waited g _) s = goes_on g s
is_current timer_fires s = true

unfoldable pub step : Stream → Event → Stream
step s e = if is_current e s then deliver s.phase e s else s

unfoldable pub run : Stream → List Event → Stream
run s [] = s
run s (e ∷ es) = run (step s e) es
