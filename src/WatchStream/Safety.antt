-- ===== src/WatchStream/Safety.antt =====
-- web/src/composables/useWatch.ts: the backoff stays within its bounds, and a stop is final.
use kube_console.Shared.{
  ℕ, ◌+◌, ◌*◌, ◌≤◌, ◌≡◌, refl, ap, min, Bool, true, false, not, ◌&&◌, ◌||◌, List, [], ◌∷◌, ◌++◌,
  Option, none, some, ◌==◌, arith, if◌then◌else◌, Bool-cases, inl, inr,
}
use kube_console.Shared.Text.{Text, split_lines}
use kube_console.WatchStream.Chunks.{on_read-over, on_read-live}
use kube_console.WatchStream.Machine.{
  Frame, error_frame, event_frame, Outcome, stale, retry, aborted, Phase, idle, requesting, reading,
  waiting, Watch, take_frame, hand_over, conclude, leave_attempt, unless_aborted, attempt, stop,
  start, after_wait, Event, start_called, stop_called, connected, refused, without_body, chunk,
  ended, waited, frame_of, take_lines, after_lines, on_chunk, deliver, step, run,
  initial_backoff_ms, max_backoff_ms, unstarted, refusal, has_generation, drop_generation,
}

abbrev pub IsWithin : ℕ → Type 0
IsWithin b = (initial_backoff_ms ≤ b) × (b ≤ max_backoff_ms)

initial-IsWithin : IsWithin initial_backoff_ms
unfolding initial_backoff_ms max_backoff_ms
initial-IsWithin = (omega arith, omega arith)

unstarted-IsWithin : IsWithin 1000
unfolding initial_backoff_ms max_backoff_ms
unstarted-IsWithin = (omega arith, omega arith)

doubled-IsWithin : (b : ℕ) → IsWithin b → IsWithin (min (b * 2) max_backoff_ms)
unfolding initial_backoff_ms max_backoff_ms
doubled-IsWithin b (l, u) = (omega (arith, l, u), omega arith)

unfoldable pub is_start : Event → Bool
is_start (start_called b) = true
is_start _ = false

-- Whether one of the events is a start.
unfoldable pub starts : List Event → Bool
starts [] = false
starts (e ∷ es) = is_start e || starts es

module _ {ℓ} {E : Type ℓ} where
  conclude-backoff_ms : (o : Outcome) (s : Watch E) → (conclude o s).backoff_ms ≡ s.backoff_ms
  unfolding conclude
  conclude-backoff_ms stale s = refl
  conclude-backoff_ms retry s = refl
  conclude-backoff_ms aborted s = refl

  leave_attempt-backoff_ms :
      (o : Outcome) (s : Watch E) → (leave_attempt o s).backoff_ms ≡ s.backoff_ms
  unfolding leave_attempt
  leave_attempt-backoff_ms o s = elim (Bool-cases (s.stopped || not (s.owner == s.generation))) [
    | inl t ↦ simp t refl
    | inr f ↦ simp f (conclude-backoff_ms o s)
  ]

  attempt-backoff_ms : (b : Bool) (s : Watch E) → (attempt b s).backoff_ms ≡ s.backoff_ms
  unfolding attempt
  attempt-backoff_ms true s = refl
  attempt-backoff_ms false s = leave_attempt-backoff_ms aborted s

module _ {ℓ} {E : Type ℓ} (parse : Text → Option (Frame E)) where
  take_frame-IsWithin :
      (f : Option (Frame E)) (s : Watch E) (go_on : Watch E → Watch E × Option Outcome)
      → IsWithin s.backoff_ms
      → ((t : Watch E) → IsWithin t.backoff_ms → IsWithin (go_on t).0.backoff_ms)
      → IsWithin (take_frame f s go_on).0.backoff_ms
  unfolding take_frame hand_over
  take_frame-IsWithin none s go_on w h = h s w
  take_frame-IsWithin (some (error_frame code)) s go_on w h = w
  take_frame-IsWithin (some (event_frame e)) s go_on w h = h (hand_over e s) initial-IsWithin

  take_lines-IsWithin :
      (ls : List Text) (s : Watch E)
      → IsWithin s.backoff_ms
      → IsWithin (take_lines parse ls s).0.backoff_ms
  unfolding take_lines
  take_lines-IsWithin [] s w = w
  take_lines-IsWithin (l ∷ ls) s w =
      take_frame-IsWithin (frame_of parse l) s (λ t. take_lines parse ls t) w
        (take_lines-IsWithin ls)

  after_lines-IsWithin :
      (rest : Text) (x : Watch E × Option Outcome)
      → IsWithin x.0.backoff_ms
      → IsWithin (after_lines parse rest x).backoff_ms
  unfolding after_lines
  after_lines-IsWithin rest (s, none) w = w
  after_lines-IsWithin rest (s, some o) w = rw (leave_attempt-backoff_ms o s) w

  deliver-IsWithin :
      (p : Phase) (e : Event) (s : Watch E)
      → IsWithin s.backoff_ms
      → IsWithin (deliver parse p e s).backoff_ms
  unfolding deliver on_chunk
  deliver-IsWithin idle e s w = w
  deliver-IsWithin waiting e s w = w
  deliver-IsWithin requesting (start_called b) s w = w
  deliver-IsWithin requesting stop_called s w = w
  deliver-IsWithin requesting (connected g) s w = w
  deliver-IsWithin requesting (refused g status) s w =
      rw (leave_attempt-backoff_ms (unless_aborted (refusal status) s) s) w
  deliver-IsWithin requesting (without_body g) s w = rw (leave_attempt-backoff_ms retry s) w
  deliver-IsWithin requesting (chunk g text) s w = w
  deliver-IsWithin requesting (ended g) s w = w
  deliver-IsWithin requesting (waited g b) s w = w
  deliver-IsWithin (reading buffer) (start_called b) s w = w
  deliver-IsWithin (reading buffer) stop_called s w = w
  deliver-IsWithin (reading buffer) (connected g) s w = w
  deliver-IsWithin (reading buffer) (refused g status) s w = w
  deliver-IsWithin (reading buffer) (without_body g) s w = w
  deliver-IsWithin (reading buffer) (chunk g text) s w = elim (Bool-cases s.signal_aborted) [
    | inl t ↦ rw (on_read-over parse buffer text s t) (rw (leave_attempt-backoff_ms aborted s) w)
    | inr f ↦ rw (on_read-live parse buffer text s f) (
        after_lines-IsWithin (split_lines (buffer ++ text)).1
          (take_lines parse (split_lines (buffer ++ text)).0 s)
          (take_lines-IsWithin (split_lines (buffer ++ text)).0 s w))
  ]
  deliver-IsWithin (reading buffer) (ended g) s w =
      rw (leave_attempt-backoff_ms (unless_aborted retry s) s) w
  deliver-IsWithin (reading buffer) (waited g b) s w = w

  guarded-IsWithin :
      (b : Bool) (e : Event) (s : Watch E)
      → IsWithin s.backoff_ms
      → IsWithin (if b then deliver parse s.phase e s else s).backoff_ms
  guarded-IsWithin true e s w = deliver-IsWithin s.phase e s w
  guarded-IsWithin false e s w = w

  after_wait-IsWithin :
      (g : ℕ) (has_url : Bool) (s : Watch E)
      → IsWithin s.backoff_ms
      → IsWithin (after_wait g has_url s).backoff_ms
  unfolding after_wait
  after_wait-IsWithin g has_url s w =
      let longer = record s { backoff_ms = min (s.backoff_ms * 2) max_backoff_ms } in
      elim (Bool-cases (not s.stopped && g == s.generation)) [
        | inl t ↦ simp t (rw (attempt-backoff_ms has_url longer) (doubled-IsWithin s.backoff_ms w))
        | inr f ↦ simp f (doubled-IsWithin s.backoff_ms w)
      ]

  step-IsWithin :
      (e : Event) (s : Watch E) → IsWithin s.backoff_ms → IsWithin (step parse e s).backoff_ms
  unfolding step start stop
  step-IsWithin (start_called b) s w =
      rw
        (attempt-backoff_ms b (record s {
          stopped = false;
          backoff_ms = initial_backoff_ms;
          generation = s.generation + 1 + 1;
          owner = s.generation + 1 + 1;
          signal_aborted = true;
        }))
        initial-IsWithin
  step-IsWithin stop_called s w = w
  step-IsWithin (connected g) s w = guarded-IsWithin (g == s.owner) (connected g) s w
  step-IsWithin (refused g status) s w = guarded-IsWithin (g == s.owner) (refused g status) s w
  step-IsWithin (without_body g) s w = guarded-IsWithin (g == s.owner) (without_body g) s w
  step-IsWithin (chunk g text) s w = guarded-IsWithin (g == s.owner) (chunk g text) s w
  step-IsWithin (ended g) s w = guarded-IsWithin (g == s.owner) (ended g) s w
  step-IsWithin (waited g b) s w = elim (Bool-cases (has_generation g s.waits)) [
    | inl t ↦ simp t (after_wait-IsWithin g b (record s { waits = drop_generation g s.waits }) w)
    | inr f ↦ simp f w
  ]

  run-IsWithin :
      (es : List Event) (s : Watch E) → IsWithin s.backoff_ms → IsWithin (run parse es s).backoff_ms
  unfolding run
  run-IsWithin [] s w = w
  run-IsWithin (e ∷ es) s w = run-IsWithin es (step parse e s) (step-IsWithin e s w)

  -- Whatever happens to a watch from its set-up on, in whatever order, the wait before a retry stays
  -- between the initial backoff and the largest.
  pub backoff_stays_bounded :
      (events : List Event)
      → let s = run parse events unstarted in
        (initial_backoff_ms ≤ s.backoff_ms) × (s.backoff_ms ≤ max_backoff_ms)
  backoff_stays_bounded events = run-IsWithin events unstarted unstarted-IsWithin

  -- A watch that is stopped, its request aborted, with what its owner has been given and the requests
  -- that it has made.
  IsStopped : List E → ℕ → ℕ → Watch E → Type ℓ
  IsStopped given calls asked s =
      (s.stopped ≡ true)
      × (s.signal_aborted ≡ true)
      × (s.delivered ≡ given)
      × (s.stale_calls ≡ calls)
      × (s.requests ≡ asked)

  leave_attempt-IsStopped :
      (o : Outcome) (given : List E) (calls asked : ℕ) (s : Watch E)
      → IsStopped given calls asked s
      → IsStopped given calls asked (leave_attempt o s)
  unfolding leave_attempt IsStopped
  leave_attempt-IsStopped o given calls asked s m =
      rw (ap (λ b. b || not (s.owner == s.generation)) (m.0)) m

  deliver-IsStopped :
      (p : Phase) (e : Event) (given : List E) (calls asked : ℕ) (s : Watch E)
      → IsStopped given calls asked s
      → IsStopped given calls asked (deliver parse p e s)
  unfolding deliver IsStopped
  deliver-IsStopped requesting (connected g) given calls asked s m = m
  deliver-IsStopped requesting (refused g status) given calls asked s m =
      leave_attempt-IsStopped (unless_aborted (refusal status) s) given calls asked s m
  deliver-IsStopped requesting (without_body g) given calls asked s m =
      leave_attempt-IsStopped retry given calls asked s m
  deliver-IsStopped (reading buffer) (chunk g text) given calls asked s m =
      rw (on_read-over parse buffer text s (m.1))
        (leave_attempt-IsStopped aborted given calls asked s m)
  deliver-IsStopped (reading buffer) (ended g) given calls asked s m =
      leave_attempt-IsStopped (unless_aborted retry s) given calls asked s m
  deliver-IsStopped p e given calls asked s m = m

  answer-IsStopped :
      (b : Bool) (e : Event) (given : List E) (calls asked : ℕ) (s : Watch E)
      → IsStopped given calls asked s
      → IsStopped given calls asked (if b then deliver parse s.phase e s else s)
  answer-IsStopped true e given calls asked s m = deliver-IsStopped s.phase e given calls asked s m
  answer-IsStopped false e given calls asked s m = m

  step-IsStopped :
      (e : Event) (given : List E) (calls asked : ℕ) (s : Watch E)
      → is_start e ≡ false
      → IsStopped given calls asked s
      → IsStopped given calls asked (step parse e s)
  unfolding step is_start IsStopped stop after_wait
  step-IsStopped (start_called b) given calls asked s h m = ground (arith, h)
  step-IsStopped stop_called given calls asked s h (st, ab, d, c, q) = (refl, refl, d, c, q)
  step-IsStopped (connected g) given calls asked s h m =
      answer-IsStopped (g == s.owner) (connected g) given calls asked s m
  step-IsStopped (refused g status) given calls asked s h m =
      answer-IsStopped (g == s.owner) (refused g status) given calls asked s m
  step-IsStopped (without_body g) given calls asked s h m =
      answer-IsStopped (g == s.owner) (without_body g) given calls asked s m
  step-IsStopped (chunk g text) given calls asked s h m =
      answer-IsStopped (g == s.owner) (chunk g text) given calls asked s m
  step-IsStopped (ended g) given calls asked s h m =
      answer-IsStopped (g == s.owner) (ended g) given calls asked s m
  step-IsStopped (waited g b) given calls asked s h m =
      elim (Bool-cases (has_generation g s.waits)) [
        | inl t ↦
            let unread : (not s.stopped && g == s.generation) ≡ false = ground (arith, m.0) in
            simp (t, unread) m
        | inr f ↦ simp f m
      ]

  run-IsStopped :
      (es : List Event) (given : List E) (calls asked : ℕ) (s : Watch E)
      → starts es ≡ false
      → IsStopped given calls asked s
      → IsStopped given calls asked (run parse es s)
  unfolding run starts
  run-IsStopped [] given calls asked s h m = m
  run-IsStopped (e ∷ es) given calls asked s h m =
      run-IsStopped es given calls asked (step parse e s) (ground (arith, h))
        (step-IsStopped e given calls asked s (ground (arith, h)) m)

  -- After stop(), at whichever point of its work the loop stands, until the next start: no answer that
  -- comes late, no text that was already on its way and no wait that ends hands the owner an event or
  -- reports a stale version, and no request is made.
  pub stop_is_silent :
      (s : Watch E) (events : List Event)
      → starts events ≡ false
      → let t = run parse events (stop s) in
        (t.delivered ≡ s.delivered) × (t.stale_calls ≡ s.stale_calls) × (t.requests ≡ s.requests)
  unfolding stop IsStopped
  stop_is_silent s events h =
      let (st, ab, d, c, q) =
        run-IsStopped events s.delivered s.stale_calls s.requests (stop s) h
          (refl, refl, refl, refl, refl) in
      (d, c, q)
