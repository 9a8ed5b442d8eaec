-- ===== src/LogsStream/Connection.antt =====
-- web/src/composables/useLogsStream.ts: one connection that is read to its end.
use kube_console.Shared.{
  ℕ, ◌+◌, ◌≡◌, refl, sym, ap, ◌∙◌, true, false, List, [], ◌∷◌, ◌++◌, arith, String, length,
  keep_last, ltb, append-nil, append_assoc, Bool-cases, inl, inr,
}
use kube_console.Shared.Text.{Text, split_lines, split_lines-append, split_lines-rest, before}
use kube_console.LogsStream.Buffer.{Buffer, max_lines, flush, is_empty}
use kube_console.LogsStream.Tail.{is_empty-nil}
use kube_console.LogsStream.Machine.{
  Phase, connecting, reading, Event, connected, chunk, done, timer_fires, Stream, Resume, start,
  finish, on_connected, on_chunk, on_done, fire_timer, deliver, goes_on, is_current, step, run,
}
use kube_console.LogsStream.Handed.{handed, arriving, arrives, run_shows_handed}

-- What happens while a connection is read: a chunk arrives at a time, or the flush timer fires.
pub data Item : Type 0 where
  text_at : ℕ → Text → Item
  timer_at : Item

-- The events of one connection of the generation.
abbrev pub feed : ℕ → List Item → List Event
feed g [] = []
feed g (text_at now t ∷ items) = chunk g now t ∷ feed g items
feed g (timer_at ∷ items) = timer_fires ∷ feed g items

-- All that the connection carried, as one text.
abbrev pub carried : List Item → Text
carried [] = []
carried (text_at now t ∷ items) = t ++ carried items
carried (timer_at ∷ items) = carried items

-- A connection that opens, carries the items and ends, after a start in state `s`.
abbrev pub whole : Stream → List Item → ℕ → List Event
whole s items end = let g = s.generation + 1 in connected g true ∷ (feed g items ++ done g end ∷ [])

-- The lines of a whole text: the complete ones, and what follows the last newline if it is not empty.
abbrev with_rest : List Text × Text → List Text
with_rest (ls, []) = ls
with_rest (ls, c ∷ rest) = ls ++ (c ∷ rest) ∷ []

unfoldable pub all_lines : Text → List Text
all_lines t = with_rest (split_lines t)

fire_timer-phase :
    (s : Stream)
    → ((fire_timer s).phase ≡ s.phase)
      × ((fire_timer s).owner ≡ s.owner)
      × ((fire_timer s).generation ≡ s.generation)
unfolding fire_timer
fire_timer-phase s = elim (Bool-cases s.buffer.timer) [
  | inl e ↦ simp e (refl, refl, refl)
  | inr e ↦ simp e (refl, refl, refl)
]

-- The latest loop has generation `g`, and was not superseded.
abbrev IsLoop : ℕ → Stream → Type 0
IsLoop g s = (s.owner ≡ g) × (s.generation ≡ g)

loop_goes_on : (g : ℕ) (s : Stream) → IsLoop g s → goes_on g s ≡ true
unfolding goes_on
loop_goes_on g s (o, e) = ground arith

-- An event of the current generation is delivered at the phase.
step_at :
    (s : Stream) (e : Event) (q : Phase)
    → is_current e s ≡ true
    → s.phase ≡ q
    → step s e ≡ deliver q e s
unfolding step
step_at s e q c p = simp c (ap (λ x. deliver x e s) p)

arriving_at :
    (s : Stream) (e : Event) (q : Phase)
    → is_current e s ≡ true
    → s.phase ≡ q
    → arriving s e ≡ arrives q e
unfolding arriving
arriving_at s e q c p = simp c (ap (λ x. arrives x e) p)

flush-pending : (b : Buffer) → (flush b).pending ≡ []
unfolding flush
flush-pending b = elim (Bool-cases (is_empty b.pending)) [
  | inl e ↦ simp e (is_empty-nil b.pending e)
  | inr e ↦ simp e refl
]

-- What a connection leaves: the lines received, nothing staged, and a loop that has returned.
abbrev Ends : Stream → List Event → List Text → Type 0
Ends s es lines =
    (handed s es ≡ lines) × ((run s es).buffer.pending ≡ []) × ((run s es).running ≡ false)

done_at :
    (g end : ℕ) (q : Text) (s : Stream)
    → (arrives (reading q) (done g end) ++ [] ≡ with_rest ([], q))
      × ((deliver (reading q) (done g end) s).buffer.pending ≡ [])
      × ((deliver (reading q) (done g end) s).running ≡ false)
unfolding arrives deliver on_done finish
done_at g end [] s = (refl, flush-pending s.buffer, refl)
done_at g end (c ∷ q) s = (refl, flush-pending _, refl)

done-Ends :
    (g end : ℕ) (partial : Text) (s : Stream)
    → s.phase ≡ reading partial
    → IsLoop g s
    → Ends s (done g end ∷ []) (with_rest ([], partial))
unfolding handed run is_current
done-Ends g end partial s p e =
    let c : goes_on g s ≡ true = loop_goes_on g s e in
    simp
      (
        step_at s (done g end) (reading partial) c p,
        arriving_at s (done g end) (reading partial) c p,
      )
      (done_at g end partial s)

with_rest-before :
    (ls : List Text) (r : List Text × Text) → with_rest (before ls r) ≡ ls ++ with_rest r
with_rest-before ls (ms, []) = refl
with_rest-before ls (ms, c ∷ rest) = append_assoc ls ms ((c ∷ rest) ∷ [])

-- What one more item adds to the received lines.
chunk-Ends :
    (now g : ℕ) (t partial more : Text) (s : Stream) (es : List Event)
    → s.phase ≡ reading partial
    → IsLoop g s
    → Ends (on_chunk now partial t s) es (all_lines ((split_lines (partial ++ t)).1 ++ more))
    → Ends s (chunk g now t ∷ es) (all_lines ((partial ++ t) ++ more))
unfolding handed run is_current arrives deliver all_lines
chunk-Ends now g t partial more s es p e (lines, staged, returned) =
    let c : goes_on g s ≡ true = loop_goes_on g s e in
    let (ls, rest) = split_lines (partial ++ t) in
    let st = step_at s (chunk g now t) (reading partial) c p in
    let ar = arriving_at s (chunk g now t) (reading partial) c p in
    (
      rw (st, ar, lines, split_lines-append (partial ++ t) more)
          (sym (with_rest-before ls (split_lines (rest ++ more)))),
      rw (st, run) staged,
      rw (st, run) returned,
    )

timer-Ends :
    (s : Stream) (es : List Event) (partial : Text) (lines : List Text)
    → s.phase ≡ reading partial
    → Ends (fire_timer s) es lines
    → Ends s (timer_fires ∷ es) lines
unfolding handed run is_current arrives deliver
timer-Ends s es partial lines p h =
    rw
      (
        step_at s timer_fires (reading partial) refl p,
        arriving_at s timer_fires (reading partial) refl p,
        run,
      )
      h

-- The rest of a connection, from a partial line on.
read_to_end :
    (g end : ℕ) (partial : Text) (items : List Item) (s : Stream)
    → s.phase ≡ reading partial
    → IsLoop g s
    → split_lines partial ≡ ([], partial)
    → Ends s (feed g items ++ done g end ∷ []) (all_lines (partial ++ carried items))
unfolding all_lines on_chunk
read_to_end g end partial [] s p e w = rw (append-nil partial, w) (done-Ends g end partial s p e)
read_to_end g end partial (text_at now t ∷ items) s p e w =
    let rest = (split_lines (partial ++ t)).1 in
    rw (← append_assoc partial t (carried items)) (
      chunk-Ends now g t partial (carried items) s (feed g items ++ done g end ∷ []) p e (
        read_to_end g end rest items (on_chunk now partial t s) refl e
          (split_lines-rest (partial ++ t))))
read_to_end g end partial (timer_at ∷ items) s p e w =
    let (same_phase, same_owner, same_generation) = fire_timer-phase s in
    timer-Ends s (feed g items ++ done g end ∷ []) partial _ p (
      read_to_end g end partial items (fire_timer s) (same_phase ∙ p)
        (same_owner ∙ e.0, same_generation ∙ e.1) w)

opened-Ends :
    (now end : ℕ) (url : String) (resume : Resume) (s : Stream) (items : List Item)
    → Ends (start now url resume s) (whole s items end) (all_lines (carried items))
unfolding handed run is_current arrives deliver on_connected start split_lines
opened-Ends now end url resume s items =
    let begun = start now url resume s in
    let g = s.generation + 1 in
    let c : goes_on g begun ≡ true = loop_goes_on g begun (refl, refl) in
    let (lines, staged, returned) =
      read_to_end g end [] items (on_connected true begun) refl (refl, refl) refl in
    let st = step_at begun (connected g true) connecting c refl in
    let ar = arriving_at begun (connected g true) connecting c refl in
    (rw (st, ar) lines, rw (st, run) staged, rw (st, run) returned)

-- However a log is cut into chunks and whenever the timer fires, a connection read to its end leaves
-- a loop that has returned and shows the last `max_lines` lines of the text that it carried, a last
-- line without a newline included, and `truncated` says whether there were more.
pub connection_shows_log :
    (now end : ℕ) (url : String) (resume : Resume) (s : Stream) (items : List Item)
    → ((run (start now url resume s) (whole s items end)).running ≡ false)
      × ((run (start now url resume s) (whole s items end)).buffer.lines
          ≡ keep_last max_lines (all_lines (carried items)))
      × ((run (start now url resume s) (whole s items end)).buffer.truncated
          ≡ ltb max_lines (length (all_lines (carried items))))
connection_shows_log now end url resume s items =
    let (lines, staged, returned) = opened-Ends now end url resume s items in
    let (shown, truncated) = run_shows_handed now url resume s (whole s items end) staged in
    (
      returned,
      shown ∙ ap (keep_last max_lines) lines,
      truncated ∙ ap (λ t. ltb max_lines (length t)) lines,
    )
