-- ===== src/LogsStream/Retry.antt =====
-- web/src/composables/useLogsStream.ts: reconnecting, and what a stop leaves.
use kube_console.Shared.{
  ℕ, zero, suc, ◌+◌, ◌-◌, ◌*◌, ◌^◌, ◌≤◌, ◌<◌, min, ◌≡◌, ◌≢◌, refl, sym, ap, ◌∙◌, true, false, List,
  [], ◌∷◌, Option, none, some, arith, String, ◌==◌, length, leb, ◌&&◌, Bool-cases, inl, inr,
}
use native.Mathlib.Nat.{pow-suc}
use kube_console.LogsStream.Buffer.{discard_pending}
use kube_console.LogsStream.Machine.{
  Phase, idle, connecting, reading, waiting, Event, connected, chunk, done, failed, waited,
  timer_fires, Stream, Failure, Resume, start, stop, finish, on_connected, on_chunk, on_done,
  resumed, after_failure, next_delay, on_waited, fire_timer, deliver, goes_on, is_current, step,
  run, since_last_line, is_fatal,
}

-- The wait before attempt `n + 1` when no connection lives for ten seconds: none at first, then one
-- second, doubled each time up to fifteen.
abbrev pub backoff : ℕ → ℕ
backoff zero = 0
backoff (suc n) = min (1000 * 2 ^ n) 15000

double : (a : ℕ) → 1 ≤ a → next_delay (min (1000 * a) 15000) ≡ min (1000 * (a * 2)) 15000
unfolding next_delay
double a h = ground arith

pow_pos : (n : ℕ) → 1 ≤ 2 ^ n
pow_pos zero = omega arith
pow_pos (suc n) = rw (pow-suc 2 n) (omega (arith, pow_pos n))

next_delay-backoff : (n : ℕ) → next_delay (backoff n) ≡ backoff (suc n)
unfolding next_delay
next_delay-backoff zero = refl
next_delay-backoff (suc n) =
    double (2 ^ n) (pow_pos n) ∙ ap (λ p. min (1000 * p) 15000) (sym (pow-suc 2 n))

-- The reconnect window reaches back to the last line, and less than two seconds further.
pub since_last_line_window :
    (now at n : ℕ)
    → at ≤ now
    → since_last_line now (some at) ≡ some n
    → (now - at + 1000 ≤ n * 1000) × (n * 1000 < now - at + 2000)
unfolding since_last_line
since_last_line_window now at n h e = ground arith

abbrev Keeps : Stream → Stream → Type 0
Keeps s t = (t.owner ≡ s.owner) × (t.generation ≡ s.generation)

after_failure-Keeps :
    (now : ℕ) (f : Failure) (o : Option String) (s : Stream) → Keeps s (after_failure now f o s)
unfolding after_failure finish
after_failure-Keeps now f none s = (refl, refl)
after_failure-Keeps now f (some url) s = (refl, refl)

deliver-Keeps : (p : Phase) (e : Event) (s : Stream) → Keeps s (deliver p e s)
unfolding deliver on_connected on_chunk on_done on_waited fire_timer finish
deliver-Keeps connecting (connected g true) s = (refl, refl)
deliver-Keeps connecting (connected g false) s = (refl, refl)
deliver-Keeps connecting (failed g now f) s = after_failure-Keeps now f (resumed now f s) s
deliver-Keeps (reading partial) (chunk g now t) s = (refl, refl)
deliver-Keeps (reading []) (done g now) s = (refl, refl)
deliver-Keeps (reading (c ∷ partial)) (done g now) s = (refl, refl)
deliver-Keeps (reading partial) (failed g now f) s = after_failure-Keeps now f (resumed now f s) s
deliver-Keeps waiting (waited g now) s = (refl, refl)
deliver-Keeps _ timer_fires s = elim (Bool-cases s.buffer.timer) [
  | inl e ↦ simp e (refl, refl)
  | inr e ↦ simp e (refl, refl)
]
deliver-Keeps _ _ s = (refl, refl)

step-Keeps : (s : Stream) (e : Event) → Keeps s (step s e)
unfolding step
step-Keeps s e = elim (Bool-cases (is_current e s)) [
  | inl c ↦ simp c (deliver-Keeps s.phase e s)
  | inr c ↦ simp c (refl, refl)
]

-- Neither the latest loop nor the stream's generation changes along a run.
run-Keeps : (s : Stream) (es : List Event) → Keeps s (run s es)
unfolding run
run-Keeps s [] = (refl, refl)
run-Keeps s (e ∷ es) =
    let (o, g) = step-Keeps s e in let (o', g') = run-Keeps (step s e) es in (o' ∙ o, g' ∙ g)

deliver-timer : (p : Phase) (s : Stream) → deliver p timer_fires s ≡ fire_timer s
unfolding deliver
deliver-timer idle s = refl
deliver-timer connecting s = refl
deliver-timer (reading partial) s = refl
deliver-timer waiting s = refl

timer-inert : (s : Stream) → s.buffer.timer ≡ false → fire_timer s ≡ s
unfolding fire_timer
timer-inert s t = simp t refl

step-inert :
    (s : Stream) (e : Event) → s.owner ≢ s.generation → s.buffer.timer ≡ false → step s e ≡ s
unfolding step is_current goes_on
step-inert s timer_fires h t = deliver-timer s.phase s ∙ timer-inert s t
step-inert s (connected g b) h t = ground arith
step-inert s (chunk g now x) h t = ground arith
step-inert s (done g now) h t = ground arith
step-inert s (failed g now f) h t = ground arith
step-inert s (waited g now) h t = ground arith

run-inert :
    (s : Stream) (es : List Event) → s.owner ≢ s.generation → s.buffer.timer ≡ false → run s es ≡ s
unfolding run
run-inert s [] h t = refl
run-inert s (e ∷ es) h t = rw (step-inert s e h t, run) (run-inert s es h t)

-- After a stop, whatever the network and the timer still report to the stream changes nothing of it.
pub stop_is_final :
    (now : ℕ) (url : String) (resume : Resume) (s : Stream) (before after : List Event)
    → run (stop (run (start now url resume s) before)) after
      ≡ stop (run (start now url resume s) before)
unfolding stop discard_pending start
stop_is_final now url resume s before after =
    let (owner, generation) = run-Keeps (start now url resume s) before in
    run-inert (stop (run (start now url resume s) before)) after (omega (arith, owner, generation))
      refl

-- Rounds in which the attempt fails at the first time and the wait is over at the second.
abbrev pub retries : ℕ → Failure → List (ℕ × ℕ) → List Event
retries g f [] = []
retries g f ((failing, over) ∷ rounds) = failed g failing f ∷ waited g over ∷ retries g f rounds

-- Every attempt fails within ten seconds of its start.
abbrev pub IsQuick : ℕ → List (ℕ × ℕ) → Type 0
IsQuick started [] = Unit
IsQuick started ((failing, over) ∷ rounds) = (failing - started < 10000) × IsQuick over rounds

-- The loop is about to make its attempt `n + 1`.
record Retries (g started n : ℕ) (url : String) (s : Stream) : Type 0 where
  owner : s.owner ≡ g
  generation : s.generation ≡ g
  phase : s.phase ≡ connecting
  running : s.running ≡ true
  error : s.error ≡ none
  attempt_start : s.attempt_start ≡ started
  resume : s.resume ≡ some (λ _. some url)
  delay : s.delay ≡ backoff n

resumed_soft :
    (now : ℕ) (f : Failure) (url : String) (s : Stream)
    → is_fatal f ≡ false
    → s.resume ≡ some (λ _. some url)
    → resumed now f s ≡ some url
unfolding resumed
resumed_soft now f url s soft r = simp (soft, r) refl

failed-step :
    (g now : ℕ) (f : Failure) (url : String) (s : Stream)
    → s.owner ≡ g
    → s.generation ≡ g
    → s.phase ≡ connecting
    → resumed now f s ≡ some url
    → step s (failed g now f) ≡ after_failure now f (some url) s
unfolding step is_current goes_on deliver
failed-step g now f url s o e p r =
    let c : (g == s.owner && s.owner == s.generation) ≡ true = ground arith in
    simp c (ap (λ q. deliver q (failed g now f) s) p ∙ ap (λ x. after_failure now f x s) r)

waited-step :
    (g now : ℕ) (s : Stream)
    → s.owner ≡ g
    → s.generation ≡ g
    → s.phase ≡ waiting
    → step s (waited g now) ≡ on_waited now s
unfolding step is_current goes_on deliver
waited-step g now s o e p =
    let c : (g == s.owner && s.owner == s.generation) ≡ true = ground arith in
    simp c (ap (λ q. deliver q (waited g now) s) p)

round-Retries :
    (g started n failing over : ℕ) (url : String) (f : Failure) (s : Stream)
    → is_fatal f ≡ false
    → failing - started < 10000
    → Retries g started n url s
    → Retries g over (suc n) url (step (step s (failed g failing f)) (waited g over))
unfolding after_failure on_waited
round-Retries g started n failing over url f s soft quick v =
    let first =
      failed-step g failing f url s v.owner v.generation v.phase
        (resumed_soft failing f url s soft v.resume) in
    let second =
      waited-step g over (after_failure failing f (some url) s) v.owner v.generation refl in
    let kept : leb 10000 (failing - s.attempt_start) ≡ false = rw v.attempt_start (ground arith) in
    rw (first, second)
      (record {
        owner = v.owner;
        generation = v.generation;
        phase = refl;
        running = v.running;
        error = v.error;
        attempt_start = refl;
        resume = v.resume;
        delay = simp kept (ap next_delay v.delay ∙ next_delay-backoff n);
      })

rounds-Retries :
    (g started n : ℕ) (url : String) (f : Failure) (s : Stream) (rounds : List (ℕ × ℕ))
    → is_fatal f ≡ false
    → IsQuick started rounds
    → Retries g started n url s
    → (last : ℕ) × Retries g last (n + length rounds) url (run s (retries g f rounds))
unfolding run
rounds-Retries g started n url f s [] soft quick v =
    (started, rw (let e : n + 0 ≡ n = omega arith in e) v)
rounds-Retries g started n url f s ((failing, over) ∷ rounds) soft (now, later) v =
    let e : n + suc (length rounds) ≡ suc n + length rounds = omega arith in
    rw e (
      rounds-Retries g over (suc n) url f _ rounds soft later
        (round-Retries g started n failing over url f s soft now v))

-- A followed stream whose resume always gives the same URL, and whose attempts all fail to connect, each
-- within ten seconds of its start, with one and the same failure that is no status from 400 to 499:
-- after any number of such rounds it is running, shows no error and is about to connect again, and
-- its wait has doubled with each round but the first, from one second up to fifteen.
pub retries_back_off :
    (now : ℕ) (url again : String) (f : Failure) (s : Stream) (rounds : List (ℕ × ℕ))
    → is_fatal f ≡ false
    → IsQuick now rounds
    → let t =
        run (start now url (some (λ _. some again)) s) (retries (s.generation + 1) f rounds) in
      (t.running ≡ true)
      × (t.error ≡ none)
      × (t.phase ≡ connecting)
      × (t.delay ≡ backoff (length rounds))
unfolding start stop
retries_back_off now url again f s rounds soft quick =
    let (last, v) =
      rounds-Retries (s.generation + 1) now 0 again f (start now url (some (λ _. some again)) s)
        rounds soft quick
        (record {
          owner = refl;
          generation = refl;
          phase = refl;
          running = refl;
          error = refl;
          attempt_start = refl;
          resume = refl;
          delay = refl;
        }) in
    (
      v.running,
      v.error,
      v.phase,
      v.delay ∙ ap backoff (let e : 0 + length rounds ≡ length rounds = omega arith in e),
    )
