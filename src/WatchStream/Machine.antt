-- ===== src/WatchStream/Machine.antt =====
-- web/src/composables/useWatch.ts as a machine that steps on calls, answers of the network and timers.
-- `JSON.parse` of a line is the argument `parse`; a value without a type, on which the code throws into
-- a retry, counts as an ERROR without code. The owner's callbacks do not call `stop`. A loop that was
-- superseded by `start` has its request aborted and returns without a call as soon as it goes on, so
-- only the latest loop is kept, with the generation it was started with (`owner`) beside the watch's
-- own (`generation`), which `stop` moves on, and with the signal of its attempt (`signal_aborted`). Of
-- the others only the wait that they may be in is kept: `waits` holds the generations whose loops
-- wait. `delivered`, `stale_calls` and `requests` log the calls of the owner's callbacks and of
-- `apiFetch`.
use kube_console.Shared.{
  ℕ, ◌+◌, ◌*◌, min, Bool, true, false, not, ◌&&◌, ◌||◌, List, [], ◌∷◌, ◌++◌, Option, none, some,
  ◌==◌, if◌then◌else◌,
}
use kube_console.Shared.Text.{Text, split_lines, is_space}

unfoldable pub initial_backoff_ms : ℕ
initial_backoff_ms = 1000

unfoldable pub max_backoff_ms : ℕ
max_backoff_ms = 30000

-- A frame of the stream: an ERROR with the code of its object, or an event for the owner.
pub data Frame {ℓ} (E : Type ℓ) : Type ℓ where
  error_frame : Option ℕ → Frame E
  event_frame : E → Frame E

pub data Outcome : Type 0 where
  stale : Outcome
  retry : Outcome
  aborted : Outcome

-- Where the latest loop stands.
pub data Phase : Type 0 where
  idle : Phase
  requesting : Phase
  reading : Text → Phase
  waiting : Phase

pub record Watch {ℓ} (E : Type ℓ) : Type ℓ where
  pub stopped : Bool
  pub backoff_ms : ℕ
  pub generation : ℕ
  -- of the latest loop: its generation, where it stands, and whether its signal is aborted
  pub owner : ℕ
  pub phase : Phase
  pub signal_aborted : Bool
  pub waits : List ℕ
  pub delivered : List E
  pub stale_calls : ℕ
  pub requests : ℕ

-- `trim()`, from the front and from the back.
unfoldable pub trim_start : Text → Text
trim_start [] = []
trim_start (c ∷ cs) = let later = trim_start cs in if is_space c then later else c ∷ cs

unfoldable pub trim_end : Text → Text
trim_end [] = []
trim_end (c ∷ cs) = elim (trim_end cs) [
  | [] ↦ if is_space c then [] else c ∷ []
  | d ∷ ds ↦ c ∷ d ∷ ds
]

-- The outcome of an ERROR frame.
abbrev pub error_outcome : Option ℕ → Outcome
error_outcome none = retry
error_outcome (some code) = if code == 410 then stale else retry

-- The outcome of a request that fails with this status, if it has one.
abbrev pub refusal : Option ℕ → Outcome
refusal none = retry
refusal (some status) = if status == 410 then stale else if status == 401 then aborted else retry

unfoldable pub has_generation : ℕ → List ℕ → Bool
has_generation g [] = false
has_generation g (h ∷ hs) = h == g || has_generation g hs

unfoldable pub drop_generation : ℕ → List ℕ → List ℕ
drop_generation g [] = []
drop_generation g (h ∷ hs) = let later = drop_generation g hs in if h == g then hs else h ∷ later

module _ {ℓ} {E : Type ℓ} where
  -- A data frame: the backoff is reset and the owner gets the event.
  unfoldable pub hand_over : E → Watch E → Watch E
  hand_over event s = record s {
    backoff_ms = initial_backoff_ms;
    delivered = s.delivered ++ event ∷ [];
  }

  -- One line, whose frame is read or missing, and the lines behind it.
  unfoldable pub take_frame :
      Option (Frame E) → Watch E → (Watch E → Watch E × Option Outcome) → Watch E × Option Outcome
  take_frame none s go_on = go_on s
  take_frame (some (error_frame code)) s go_on = (s, some (error_outcome code))
  take_frame (some (event_frame event)) s go_on = go_on (hand_over event s)

  -- What `loop` does with an outcome of the attempt of the current generation.
  unfoldable pub conclude : Outcome → Watch E → Watch E
  conclude aborted s = record s { phase = idle }
  conclude stale s = record s { phase = idle; stopped = true; stale_calls = s.stale_calls + 1 }
  conclude retry s = record s { phase = waiting; waits = s.generation ∷ s.waits }

  -- `loop` after an attempt: it returns unless it is still the current one.
  unfoldable pub leave_attempt : Outcome → Watch E → Watch E
  leave_attempt outcome s =
      if s.stopped || not (s.owner == s.generation)
      then record s { phase = idle }
      else conclude outcome s

  -- The outcome of a read or a request that ended, by the signal.
  unfoldable pub unless_aborted : Outcome → Watch E → Outcome
  unless_aborted outcome s = if s.signal_aborted then aborted else outcome

  -- The next attempt, where `buildUrl()` gives a URL or not.
  unfoldable pub attempt : Bool → Watch E → Watch E
  attempt has_url s =
      if has_url
      then record s { phase = requesting; signal_aborted = false; requests = s.requests + 1 }
      else leave_attempt aborted s

  -- `stop()`
  unfoldable pub stop : Watch E → Watch E
  stop s = record s { stopped = true; generation = s.generation + 1; signal_aborted = true }

  -- `start()`
  unfoldable pub start : Bool → Watch E → Watch E
  start has_url s = attempt has_url (record (stop s) {
    stopped = false;
    backoff_ms = initial_backoff_ms;
    generation = (stop s).generation + 1;
    owner = (stop s).generation + 1;
  })

  -- The wait of the generation `g` is over: the backoff doubles, whichever generation it is.
  unfoldable pub after_wait : ℕ → Bool → Watch E → Watch E
  after_wait g has_url s =
      let longer = record s { backoff_ms = min (s.backoff_ms * 2) max_backoff_ms } in
      if not s.stopped && g == s.generation then attempt has_url longer else longer

pub data Event : Type 0 where
  start_called : Bool → Event
  stop_called : Event
  connected : ℕ → Event
  refused : ℕ → Option ℕ → Event
  without_body : ℕ → Event
  chunk : ℕ → Text → Event
  ended : ℕ → Event
  waited : ℕ → Bool → Event

module _ {ℓ} {E : Type ℓ} (parse : Text → Option (Frame E)) where
  -- A line between two newlines: blank ones are skipped.
  unfoldable pub frame_of : Text → Option (Frame E)
  frame_of line = elim (trim_end (trim_start line)) [ [] ↦ none | c ∷ cs ↦ parse (c ∷ cs) ]

  -- The complete lines of the buffer, up to an ERROR frame.
  unfoldable pub take_lines : List Text → Watch E → Watch E × Option Outcome
  take_lines [] s = (s, none)
  take_lines (line ∷ lines) s = take_frame (frame_of line) s (λ t. take_lines lines t)

  -- After the lines of a chunk: the rest is kept, or the attempt is over.
  unfoldable pub after_lines : Text → Watch E × Option Outcome → Watch E
  after_lines rest (s, none) = record s { phase = reading rest }
  after_lines rest (s, some outcome) = leave_attempt outcome s

  unfoldable pub on_chunk : Text → Text → Watch E → Watch E
  on_chunk buffer text s =
      let (lines, rest) = split_lines (buffer ++ text) in after_lines rest (take_lines lines s)

  -- A chunk of an aborted stream ends the reading.
  unfoldable pub on_read : Text → Text → Watch E → Watch E
  on_read buffer text s =
      let lines = on_chunk buffer text s in
      if s.signal_aborted then leave_attempt aborted s else lines

  -- An answer to what the loop awaits.
  unfoldable pub deliver : Phase → Event → Watch E → Watch E
  deliver requesting (connected g) s = record s { phase = reading [] }
  deliver requesting (refused g status) s = leave_attempt (unless_aborted (refusal status) s) s
  deliver requesting (without_body g) s = leave_attempt retry s
  deliver (reading buffer) (chunk g text) s = on_read buffer text s
  deliver (reading buffer) (ended g) s = leave_attempt (unless_aborted retry s) s
  deliver _ _ s = s

  unfoldable pub step : Event → Watch E → Watch E
  step (start_called has_url) s = start has_url s
  step stop_called s = stop s
  step (connected g) s = if g == s.owner then deliver s.phase (connected g) s else s
  step (refused g status) s = if g == s.owner then deliver s.phase (refused g status) s else s
  step (without_body g) s = if g == s.owner then deliver s.phase (without_body g) s else s
  step (chunk g text) s = if g == s.owner then deliver s.phase (chunk g text) s else s
  step (ended g) s = if g == s.owner then deliver s.phase (ended g) s else s
  step (waited g has_url) s =
      if has_generation g s.waits
      then after_wait g has_url (record s { waits = drop_generation g s.waits })
      else s

  unfoldable pub run : List Event → Watch E → Watch E
  run [] s = s
  run (e ∷ es) s = run es (step e s)

-- The state when the composable is set up.
abbrev pub unstarted {ℓ} : {E : Type ℓ} → Watch E
unstarted = record {
  stopped = true;
  backoff_ms = 1000;
  generation = 0;
  owner = 0;
  phase = idle;
  signal_aborted = false;
  waits = [];
  delivered = [];
  stale_calls = 0;
  requests = 0;
}
