-- ===== src/LogsStream/Shown.antt =====
-- web/src/composables/useLogsStream.ts: what is on screen against the text that the connections brought.
use kube_console.Shared.{
  ℕ, ◌≡◌, refl, sym, ap, ◌∙◌, Bool, true, false, List, [], ◌∷◌, ◌++◌, Option, none, some, String,
  if◌then◌else◌, length, keep_last, ltb, append-nil, append_assoc, Bool-cases, inl, inr,
}
use kube_console.Shared.Text.{Text, split_lines, split_lines-append, before}
use kube_console.LogsStream.Buffer.{max_lines}
use kube_console.LogsStream.Machine.{
  Phase, idle, connecting, reading, waiting, Event, connected, chunk, done, failed, waited,
  timer_fires, Stream, Failure, Resume, start, finish, on_connected, on_chunk, on_done, resumed,
  after_failure, on_waited, fire_timer, deliver, is_current, step, run,
}
use kube_console.LogsStream.Handed.{arrives, arriving, handed, run_shows_handed}

-- What a reader of the connections has: the lines of those that are over, and all text of the last one.
pub record Heard : Type 0 where
  pub lines : List Text
  pub text : Text

abbrev pub nothing_heard : Heard
nothing_heard = record { lines = []; text = [] }

-- A last line without a newline, unless it is empty.
unfoldable pub last_part : Text → List Text
last_part [] = []
last_part (c ∷ rest) = (c ∷ rest) ∷ []

-- A connection that ends well also gives its last line without a newline; one that fails does not.
unfoldable pub take_in : Phase → Event → Heard → Heard
take_in (reading _) (chunk g now t) h = record h { text = h.text ++ t }
take_in (reading _) (done g now) h =
    let (lines, rest) = split_lines h.text in
    record { lines = h.lines ++ (lines ++ last_part rest); text = [] }
take_in (reading _) (failed g now f) h = record {
  lines = h.lines ++ (split_lines h.text).0;
  text = [];
}
take_in _ _ h = h

-- What a run brings to a reader, chunk by chunk.
unfoldable pub heard : Stream → List Event → Heard → Heard
heard s [] h = h
heard s (e ∷ es) h = heard (step s e) es (if is_current e s then take_in s.phase e h else h)

-- All lines so far.
unfoldable pub heard_lines : Heard → List Text
heard_lines h = h.lines ++ (split_lines h.text).0

-- The partial line of the loop is what the text of its connection has behind its last newline.
Agrees : Phase → Heard → Type 0
Agrees (reading partial) h = partial ≡ (split_lines h.text).1
Agrees idle h = h.text ≡ []
Agrees connecting h = h.text ≡ []
Agrees waiting h = h.text ≡ []

-- A step keeps the two in agreement, and brings the same lines.
abbrev Follows : Phase → Event → Stream → Heard → Type 0
Follows p e t h =
    Agrees t.phase (take_in p e h) × (heard_lines (take_in p e h) ≡ heard_lines h ++ arrives p e)

after_failure-Agrees :
    (now : ℕ) (f : Failure) (o : Option String) (s : Stream) (h : Heard)
    → h.text ≡ []
    → Agrees (after_failure now f o s).phase h
unfolding after_failure finish Agrees
after_failure-Agrees now f none s h e = e
after_failure-Agrees now f (some url) s h e = e

on_connected-Agrees :
    (b : Bool) (s : Stream) (h : Heard) → h.text ≡ [] → Agrees (on_connected b s).phase h
unfolding on_connected finish Agrees split_lines
on_connected-Agrees true s h e = sym (ap (λ t. (split_lines t).1) e)
on_connected-Agrees false s h e = e

fire_timer-phase : (s : Stream) → (fire_timer s).phase ≡ s.phase
unfolding fire_timer
fire_timer-phase s = elim (Bool-cases s.buffer.timer) [ inl t ↦ simp t refl | inr f ↦ simp f refl ]

-- An event that the loop does not await.
inert-Follows :
    (p q : Phase) (h : Heard)
    → q ≡ p
    → Agrees p h
    → Agrees q h × (heard_lines h ≡ heard_lines h ++ [])
inert-Follows p q h e a = (rw e a, sym (append-nil (heard_lines h)))

chunk-lines :
    (partial t : Text) (h : Heard)
    → partial ≡ (split_lines h.text).1
    → ((split_lines (partial ++ t)).1 ≡ (split_lines (h.text ++ t)).1)
      × (h.lines ++ (split_lines (h.text ++ t)).0
          ≡ (h.lines ++ (split_lines h.text).0) ++ (split_lines (partial ++ t)).0)
chunk-lines partial t h e =
    let rest = split_lines (partial ++ t) in
    let joined : split_lines (h.text ++ t) ≡ before (split_lines h.text).0 rest =
      split_lines-append h.text t
      ∙ ap (λ p. before (split_lines h.text).0 (split_lines (p ++ t))) (sym e) in
    (
      sym (ap (λ l. l.1) joined),
      ap (λ l. h.lines ++ l.0) joined ∙ sym (append_assoc h.lines (split_lines h.text).0 rest.0),
    )

failed-lines : (ls : List Text) → ls ++ (split_lines []).0 ≡ ls
unfolding split_lines
failed-lines ls = append-nil ls

deliver-Follows :
    (p : Phase) (e : Event) (s : Stream) (h : Heard)
    → s.phase ≡ p
    → Agrees p h
    → Follows p e (deliver p e s) h
unfolding deliver take_in arrives Agrees heard_lines on_chunk on_done on_waited finish last_part
deliver-Follows connecting (connected g b) s h at a =
    (on_connected-Agrees b s h a, sym (append-nil _))
deliver-Follows connecting (failed g now f) s h at a =
    (after_failure-Agrees now f (resumed now f s) s h a, sym (append-nil _))
deliver-Follows (reading partial) (chunk g now t) s h at a = chunk-lines partial t h a
deliver-Follows (reading []) (done g now) s h at a = (
  refl,
  failed-lines (h.lines ++ ((split_lines h.text).0 ++ last_part (split_lines h.text).1))
      ∙ ap (λ p. h.lines ++ ((split_lines h.text).0 ++ last_part p)) (sym a)
      ∙ sym (append_assoc h.lines (split_lines h.text).0 []),
)
deliver-Follows (reading (c ∷ partial)) (done g now) s h at a = (
  refl,
  failed-lines (h.lines ++ ((split_lines h.text).0 ++ last_part (split_lines h.text).1))
      ∙ ap (λ p. h.lines ++ ((split_lines h.text).0 ++ last_part p)) (sym a)
      ∙ sym (append_assoc h.lines (split_lines h.text).0 ((c ∷ partial) ∷ [])),
)
deliver-Follows (reading partial) (failed g now f) s h at a = (
  after_failure-Agrees now f (resumed now f s) s _ refl,
  failed-lines (h.lines ++ (split_lines h.text).0) ∙ sym (append-nil _),
)
deliver-Follows waiting (waited g now) s h at a = (a, sym (append-nil _))
deliver-Follows p timer_fires s h at a =
    inert-Follows p (fire_timer s).phase h (fire_timer-phase s ∙ at) a
deliver-Follows p _ s h at a = inert-Follows p s.phase h at a

run-heard :
    (s : Stream) (es : List Event) (h : Heard)
    → Agrees s.phase h
    → heard_lines (heard s es h) ≡ heard_lines h ++ handed s es
unfolding heard handed step arriving
run-heard s [] h a = sym (append-nil _)
run-heard s (e ∷ es) h a = elim (Bool-cases (is_current e s)) [
  | inl t ↦
      let (agrees, brings) = deliver-Follows s.phase e s h refl a in
      simp t (
        run-heard (deliver s.phase e s) es (take_in s.phase e h) agrees
        ∙ ap (λ l. l ++ handed (deliver s.phase e s) es) brings
        ∙ append_assoc (heard_lines h) (arrives s.phase e) (handed (deliver s.phase e s) es))
  | inr f ↦ simp f (run-heard s es h a)
]

started-heard :
    (now : ℕ) (url : String) (resume : Resume) (s : Stream) (es : List Event)
    → heard_lines (heard (start now url resume s) es nothing_heard)
      ≡ handed (start now url resume s) es
unfolding start Agrees heard_lines split_lines
started-heard now url resume s es = run-heard (start now url resume s) es nothing_heard refl

-- Whatever the network and the timer do after a start, once nothing is staged the lines on screen are
-- the last `max_lines` of the lines of the text that came since the start, connection by connection,
-- in order and with no gap, and `truncated` says exactly whether these were more. A text counts by its
-- newlines, however it was cut into chunks; a last line without a newline counts where the connection
-- has ended well, and not where it failed or still goes on.
pub run_shows_tail :
    (now : ℕ) (url : String) (resume : Resume) (s : Stream) (es : List Event)
    → (run (start now url resume s) es).buffer.pending ≡ []
    → let t = run (start now url resume s) es in
      let lines = heard_lines (heard (start now url resume s) es nothing_heard) in
      (t.buffer.lines ≡ keep_last max_lines lines)
      × (t.buffer.truncated ≡ ltb max_lines (length lines))
run_shows_tail now url resume s es e =
    let begun = start now url resume s in
    let (shown, cut) = run_shows_handed now url resume s es e in
    let same = sym (started-heard now url resume s es) in
    (shown ∙ ap (keep_last max_lines) same, cut ∙ ap (λ l. ltb max_lines (length l)) same)
