-- ===== src/LogsStream/Handed.antt =====
-- web/src/composables/useLogsStream.ts: the buffer's invariant along every run of the stream.
use kube_console.Shared.{
  ℕ, ◌+◌, ◌≤◌, ◌≡◌, refl, sym, ap, ◌∙◌, Bool, true, false, List, [], ◌∷◌, ◌++◌, Option, none, some,
  arith, String, if◌then◌else◌, length, keep_last, ltb, lt→ltb, length-append, append-nil,
  append_assoc, Bool-cases, inl, inr, keep_last-eq_self,
}
use kube_console.Shared.Text.{Text, split_lines}
use kube_console.LogsStream.Buffer.{Buffer, max_lines, discard_pending, reset}
use kube_console.LogsStream.Tail.{IsTail, flush-IsTail, append-IsTail}
use kube_console.LogsStream.Machine.{
  Phase, connecting, reading, waiting, Event, connected, chunk, done, failed, waited, timer_fires,
  Stream, Failure, Resume, start, finish, on_connected, on_chunk, on_done, resumed, after_failure,
  on_waited, fire_timer, deliver, is_current, step, run,
}

-- The lines that an event hands to a loop that stands at the phase.
unfoldable pub arrives : Phase → Event → List Text
arrives (reading partial) (chunk g now t) = (split_lines (partial ++ t)).0
arrives (reading (c ∷ partial)) (done g now) = (c ∷ partial) ∷ []
arrives _ _ = []

unfoldable pub arriving : Stream → Event → List Text
arriving s e = if is_current e s then arrives s.phase e else []

-- All lines that the loop hands to the buffer in a run.
unfoldable pub handed : Stream → List Event → List Text
handed s [] = []
handed s (e ∷ es) = arriving s e ++ handed (step s e) es

after_failure-IsTail :
    (log : List Text) (now : ℕ) (failure : Failure) (o : Option String) (s : Stream)
    → IsTail log s.buffer
    → IsTail log (after_failure now failure o s).buffer
unfolding after_failure
after_failure-IsTail log now failure none s v = flush-IsTail log s.buffer v
after_failure-IsTail log now failure (some url) s v = flush-IsTail log s.buffer v

on_connected-IsTail :
    (log : List Text) (b : Bool) (s : Stream)
    → IsTail log s.buffer
    → IsTail log (on_connected b s).buffer
unfolding on_connected
on_connected-IsTail log true s v = v
on_connected-IsTail log false s v = flush-IsTail log s.buffer v

fire_timer-IsTail :
    (log : List Text) (s : Stream) → IsTail log s.buffer → IsTail log (fire_timer s).buffer
unfolding fire_timer
fire_timer-IsTail log s v = elim (Bool-cases s.buffer.timer) [
  | inl e ↦ simp e (flush-IsTail log s.buffer v)
  | inr e ↦ simp e v
]

deliver-IsTail :
    (log : List Text) (p : Phase) (e : Event) (s : Stream)
    → IsTail log s.buffer
    → IsTail (log ++ arrives p e) (deliver p e s).buffer
unfolding arrives deliver on_chunk on_done on_waited finish
deliver-IsTail log connecting (connected g b) s v = rw append-nil (on_connected-IsTail log b s v)
deliver-IsTail log connecting (failed g now f) s v =
    rw append-nil (after_failure-IsTail log now f (resumed now f s) s v)
deliver-IsTail log (reading partial) (chunk g now t) s v =
    append-IsTail now (split_lines (partial ++ t)).0 log s.buffer v
deliver-IsTail log (reading []) (done g now) s v = rw append-nil (flush-IsTail log s.buffer v)
deliver-IsTail log (reading (c ∷ partial)) (done g now) s v =
    flush-IsTail _ _ (append-IsTail now ((c ∷ partial) ∷ []) log s.buffer v)
deliver-IsTail log (reading partial) (failed g now f) s v =
    rw append-nil (after_failure-IsTail log now f (resumed now f s) s v)
deliver-IsTail log waiting (waited g now) s v = rw append-nil v
deliver-IsTail log _ timer_fires s v = rw append-nil (fire_timer-IsTail log s v)
deliver-IsTail log _ _ s v = rw append-nil v

step-IsTail :
    (log : List Text) (s : Stream) (e : Event)
    → IsTail log s.buffer
    → IsTail (log ++ arriving s e) (step s e).buffer
unfolding arriving step
step-IsTail log s e v = elim (Bool-cases (is_current e s)) [
  | inl c ↦ rw c (deliver-IsTail log s.phase e s v)
  | inr c ↦ rw c (rw append-nil v)
]

run-IsTail :
    (log : List Text) (s : Stream) (es : List Event)
    → IsTail log s.buffer
    → IsTail (log ++ handed s es) (run s es).buffer
unfolding handed run
run-IsTail log s [] v = rw append-nil v
run-IsTail log s (e ∷ es) v =
    rw (← append_assoc log (arriving s e) (handed (step s e) es))
      (run-IsTail (log ++ arriving s e) (step s e) es (step-IsTail log s e v))

start-IsTail :
    (now : ℕ) (url : String) (resume : Resume) (s : Stream)
    → IsTail [] (start now url resume s).buffer
unfolding start discard_pending reset
start-IsTail now url resume s = record {
  tail = refl;
  lines_bound = omega arith;
  pending_bound = omega arith;
  complete = λ _. refl;
  cut = λ e. cc;
  armed = λ _. refl;
}

truncated-eq-ltb :
    (log : List Text) (b : Buffer)
    → IsTail log b
    → b.pending ≡ []
    → b.truncated ≡ ltb max_lines (length log)
truncated-eq-ltb log b v e = elim (Bool-cases b.truncated) [
  | inl t ↦ t ∙ sym (lt→ltb max_lines (length log) (v.cut t))
  | inr t ↦
      (let whole : length log ≡ length b.lines + length b.pending =
          sym (ap length (v.complete t)) ∙ length-append b.lines b.pending in
        let bound : length log ≤ max_lines = omega (arith, whole, ap length e, v.lines_bound) in
        t ∙ ground arith)
]

lines-eq-keep_last :
    (log : List Text) (b : Buffer)
    → IsTail log b
    → b.pending ≡ []
    → b.lines ≡ keep_last max_lines log
lines-eq-keep_last log b v e =
    let shown : b.lines ++ b.pending ≡ b.lines = ap (λ p. b.lines ++ p) e ∙ append-nil b.lines in
    sym (keep_last-eq_self max_lines b.lines v.lines_bound)
    ∙ ap (keep_last max_lines) (sym shown)
    ∙ v.tail

-- Once nothing is staged, the lines on screen are the last `max_lines` of all that the loop handed over,
-- and `truncated` says exactly whether these were more.
pub run_shows_handed :
    (now : ℕ) (url : String) (resume : Resume) (s : Stream) (es : List Event)
    → (run (start now url resume s) es).buffer.pending ≡ []
    → ((run (start now url resume s) es).buffer.lines
        ≡ keep_last max_lines (handed (start now url resume s) es))
      × ((run (start now url resume s) es).buffer.truncated
          ≡ ltb max_lines (length (handed (start now url resume s) es)))
run_shows_handed now url resume s es e =
    let begun = start now url resume s in
    let v = run-IsTail [] begun es (start-IsTail now url resume s) in
    (lines-eq-keep_last _ _ v e, truncated-eq-ltb _ _ v e)
