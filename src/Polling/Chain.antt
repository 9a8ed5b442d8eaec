-- ===== src/Polling/Chain.antt =====
-- web/src/composables/usePollingLoop.ts: a loop that is live has exactly one poll to come, as a
-- pending timer or as a poll in flight.
use kube_console.Shared.{
  ℕ, ◌+◌, ◌-◌, ◌≡◌, refl, sym, ap, ◌∙◌, Bool, true, false, not, ◌||◌, List, [], ◌∷◌, Option, none,
  some, arith, leb, ltb, ◌==◌, Bool-cases, inl, inr,
}
use kube_console.Polling.Loop.{
  Timer, Loop, pending, run_tick, settle_tick, schedule, stop, go_live, start, gate_answers,
  timer_callback, on_visibility_change, has_one, leave, Event, start_called, stop_called,
  gate_settles, timer_due, visibility_changes, tick_settles, time_passes, fire, after_tick, step,
  run, idle,
}
use kube_console.Polling.Counts.{
  count, count-leave, has_one-count, armed, one_if, IsOwn, IsChained, run_tick-counted,
  settle_tick-counted, count_self, count_later, leave_later,
}

stop-IsChained : (s : Loop) → IsChained s → IsChained (stop s)
unfolding stop armed one_if
stop-IsChained s v = record {
  counted = v.counted;
  no_later_tick = λ g lt. v.no_later_tick g (omega arith);
  no_later_gate = λ g lt. v.no_later_gate g (omega arith);
  own = tt;
  chained = omega (arith, v.no_later_tick (s.gen + 1) (omega arith));
  gated = omega (arith, v.no_later_gate (s.gen + 1) (omega arith));
}

-- A poll is started where there is none to come.
tick-IsChained :
    (s : Loop) (l : Bool) (t : Option Timer)
    → IsChained s
    → l ≡ true
    → t ≡ none
    → count s.gen s.ticks ≡ 0
    → count s.gen s.gates ≡ 0
    → IsChained (run_tick s.gen (record s { live = l; timer = t }))
unfolding run_tick armed one_if
tick-IsChained s l t v on none_pending idle_ticks open_gates =
    rw (on, none_pending)
      (record {
        counted = run_tick-counted s.gen s.in_flight s.ticks v.counted;
        no_later_tick = count_later s.gen s.gen s.ticks (omega arith) v.no_later_tick;
        no_later_gate = v.no_later_gate;
        own = tt;
        chained = omega (arith, count_self s.gen s.ticks, idle_ticks);
        gated = omega (arith, open_gates);
      })

-- What the counts say of a loop with a gate open, with a timer, or with a poll in flight.
unarmed : (g : ℕ) (t : Option Timer) → IsOwn g t → armed g t ≡ 0 → t ≡ none
unfolding armed
unarmed g none o e = refl
unarmed g (some t) o e = ground arith

-- A gate opens where none is open.
gate-IsChained :
    (s : Loop)
    → IsChained s
    → s.live ≡ false
    → count s.gen s.gates ≡ 0
    → IsChained (record s { gates = s.gen ∷ s.gates })
unfolding one_if
gate-IsChained s v l c = record {
  counted = v.counted;
  no_later_tick = v.no_later_tick;
  no_later_gate = count_later s.gen s.gen s.gates (omega arith) v.no_later_gate;
  own = v.own;
  chained = v.chained;
  gated = (rw l (omega (arith, count_self s.gen s.gates, c)));
}

start-IsChained : (has_gate : Bool) (s : Loop) → IsChained s → IsChained (start has_gate s)
unfolding start go_live stop
start-IsChained true s v =
    let w = stop-IsChained (stop s) (stop-IsChained s v) in
    gate-IsChained (stop (stop s)) w refl (v.no_later_gate (s.gen + 1 + 1) (omega arith))
start-IsChained false s v =
    let w = stop-IsChained (stop s) (stop-IsChained s v) in
    tick-IsChained (stop (stop s)) true none w refl refl
      (v.no_later_tick (s.gen + 1 + 1) (omega arith))
      (v.no_later_gate (s.gen + 1 + 1) (omega arith))

gate_left-IsChained :
    (g : ℕ) (s : Loop) → IsChained s → IsChained (record s { gates = leave g s.gates })
gate_left-IsChained g s v = record {
  counted = v.counted;
  no_later_tick = v.no_later_tick;
  no_later_gate = leave_later g s.gen s.gates v.no_later_gate;
  own = v.own;
  chained = v.chained;
  gated = ground (arith, count-leave g s.gen s.gates, v.gated);
}

before_gate :
    (s : Loop)
    → IsChained s
    → has_one s.gen s.gates ≡ true
    → (count s.gen s.gates ≡ 1) × (count s.gen s.ticks + armed s.gen s.timer ≡ 0)
unfolding one_if
before_gate s v e = ground (arith, has_one-count s.gen s.gates, v.gated, v.chained)

pub before_gate-none : (s : Loop) → IsChained s → has_one s.gen s.gates ≡ true → s.timer ≡ none
before_gate-none s v e =
    let (off, alone) = before_gate s v e in unarmed s.gen s.timer v.own (omega (arith, alone))

gate_answers-IsChained :
    (g : ℕ) (proceed : Bool) (s : Loop)
    → IsChained s
    → has_one g s.gates ≡ true
    → IsChained (gate_answers g proceed (record s { gates = leave g s.gates }))
unfolding gate_answers go_live
gate_answers-IsChained g proceed s v e =
    let w = gate_left-IsChained g s v in
    elim (Bool-cases (not (g == s.gen) || not proceed)) [
      | inl t ↦ simp t w
      | inr f ↦
          let same : g ≡ s.gen = ground (arith, f) in
          let (off, alone) = before_gate s v (rw same at e) in
          simp f (
            rw same (
              tick-IsChained (record s { gates = leave s.gen s.gates }) true s.timer
                (gate_left-IsChained s.gen s v) refl
                (unarmed s.gen s.timer v.own (omega (arith, alone))) (omega (arith, alone))
                (ground (arith, count-leave s.gen s.gen s.gates, off))))
    ]

-- A timer is armed where there is no poll to come.
rearm-IsChained :
    (s : Loop) (l : Bool) (due : ℕ)
    → IsChained s
    → l ≡ true
    → s.live ≡ true
    → count s.gen s.ticks ≡ 0
    → IsChained (record s { live = l; timer = some (record { armed_for = s.gen; due = due }) })
unfolding armed one_if
rearm-IsChained s l due v on live idle_ticks = rw on (record {
  counted = v.counted;
  no_later_tick = v.no_later_tick;
  no_later_gate = v.no_later_gate;
  own = refl;
  chained = ground (arith, idle_ticks);
  gated = (rw live at v.gated);
})

callback-IsChained :
    (interval : ℕ) (hidden : Bool) (g : ℕ) (s : Loop)
    → IsChained s
    → g ≡ s.gen
    → s.live ≡ true
    → count s.gen s.ticks ≡ 0
    → count s.gen s.gates ≡ 0
    → IsChained (timer_callback interval hidden g s)
unfolding timer_callback schedule
callback-IsChained interval true g s v same live idle_ticks no_gate =
    let goes : (not (g == s.gen) || not s.live) ≡ false = ground (arith, same, live) in
    simp goes (rw same (rearm-IsChained s s.live (s.clock + interval) v live live idle_ticks))
callback-IsChained interval false g s v same live idle_ticks no_gate =
    let goes : (not (g == s.gen) || not s.live) ≡ false = ground (arith, same, live) in
    simp goes (rw same (tick-IsChained s s.live none v live refl idle_ticks no_gate))

live_gates : (s : Loop) → IsChained s → s.live ≡ true → count s.gen s.gates ≡ 0
unfolding one_if
live_gates s v live = ground (arith, live, v.gated)

-- With its timer pending, a loop is live and has no poll in flight and no gate open.
timed :
    (s : Loop) (t : Timer)
    → IsChained s
    → s.timer ≡ some t
    → (t.armed_for ≡ s.gen)
      × (s.live ≡ true)
      × (count s.gen s.ticks ≡ 0)
      × (count s.gen s.gates ≡ 0)
unfolding armed one_if
timed s t v e =
    let same = (rw e at v.own) in
    let alone = (rw e at v.chained) in ground (arith, same, alone, v.gated)

fire-IsChained :
    (interval : ℕ) (hidden : Bool) (s : Loop) (o : Option Timer)
    → IsChained s
    → s.timer ≡ o
    → IsChained (fire interval hidden o s)
unfolding fire
fire-IsChained interval hidden s none v e = v
fire-IsChained interval hidden s (some t) v e = elim (Bool-cases (leb t.due s.clock)) [
  | inl d ↦
      let (same, live, idle_ticks, no_gate) = timed s t v e in
      simp d (callback-IsChained interval hidden t.armed_for s v same live idle_ticks no_gate)
  | inr f ↦ simp f v
]

visibility-IsChained :
    (interval : ℕ) (hidden : Bool) (s : Loop)
    → IsChained s
    → IsChained (on_visibility_change interval hidden s)
unfolding on_visibility_change
visibility-IsChained interval hidden s v = elim (Bool-cases (hidden || not s.live)) [
  | inl t ↦ simp t v
  | inr f ↦ elim (Bool-cases (ltb (s.clock - s.last_tick_ms) interval)) [
    | inl t ↦ simp (f, t) v
    | inr g ↦ elim (Bool-cases (ltb 0 (pending s.gen s.in_flight))) [
      | inl t ↦ simp (f, g, t) v
      | inr h ↦
          let live : s.live ≡ true = ground (arith, f) in
          let idle_ticks : count s.gen s.ticks ≡ 0 = ground (arith, h, v.counted s.gen) in
          simp (f, g, h) (tick-IsChained s s.live none v live refl idle_ticks (live_gates s v live))
    ]
  ]
]

after_tick-IsChained :
    (interval g : ℕ) (s : Loop)
    → IsChained s
    → has_one g s.ticks ≡ true
    → IsChained (after_tick interval g s)
unfolding after_tick settle_tick schedule armed one_if
after_tick-IsChained interval g s v e = elim (Bool-cases (not (g == s.gen) || not s.live)) [
  | inl t ↦ simp t (record {
    counted = settle_tick-counted g s.in_flight s.ticks v.counted;
    no_later_tick = leave_later g s.gen s.ticks v.no_later_tick;
    no_later_gate = v.no_later_gate;
    own = v.own;
    chained = ground (arith, t, count-leave g s.gen s.ticks, v.chained);
    gated = v.gated;
  })
  | inr f ↦ simp f (record {
    counted = settle_tick-counted g s.in_flight s.ticks v.counted;
    no_later_tick = leave_later g s.gen s.ticks v.no_later_tick;
    no_later_gate = v.no_later_gate;
    own = ground (arith, f);
    chained = ground (arith, f, count-leave g s.gen s.ticks, has_one-count g s.ticks, v.chained, e);
    gated = v.gated;
  })
]

pub step-IsChained :
    (interval : ℕ) (e : Event) (s : Loop) → IsChained s → IsChained (step interval e s)
unfolding step
step-IsChained interval (start_called has_gate) s v = start-IsChained has_gate s v
step-IsChained interval stop_called s v = stop-IsChained s v
step-IsChained interval (gate_settles g proceed) s v = elim (Bool-cases (has_one g s.gates)) [
  | inl t ↦ simp t (gate_answers-IsChained g proceed s v t)
  | inr f ↦ simp f v
]
step-IsChained interval (timer_due hidden) s v = fire-IsChained interval hidden s s.timer v refl
step-IsChained interval (visibility_changes hidden) s v = visibility-IsChained interval hidden s v
step-IsChained interval (tick_settles g) s v = elim (Bool-cases (has_one g s.ticks)) [
  | inl t ↦ simp t (after_tick-IsChained interval g s v t)
  | inr f ↦ simp f v
]
step-IsChained interval (time_passes elapsed) s v = record {
  counted = v.counted;
  no_later_tick = v.no_later_tick;
  no_later_gate = v.no_later_gate;
  own = v.own;
  chained = v.chained;
  gated = v.gated;
}

pub run-IsChained :
    (interval : ℕ) (es : List Event) (s : Loop) → IsChained s → IsChained (run interval es s)
unfolding run
run-IsChained interval [] s v = v
run-IsChained interval (e ∷ es) s v =
    run-IsChained interval es (step interval e s) (step-IsChained interval e s v)

pub idle-IsChained : (clock : ℕ) → IsChained (idle clock)
unfolding pending count armed one_if
idle-IsChained clock = record {
  counted = λ g. refl;
  no_later_tick = λ g lt. refl;
  no_later_gate = λ g lt. refl;
  own = tt;
  chained = refl;
  gated = omega arith;
}

-- How many timers are pending.
unfoldable pub timers : Option Timer → ℕ
timers none = 0
timers (some t) = 1

armed-timers : (g : ℕ) (t : Option Timer) → IsOwn g t → armed g t ≡ timers t
unfolding armed timers
armed-timers g none o = refl
armed-timers g (some t) o = ground (arith, o)

-- Whatever calls, answers of gates, timers, changes of visibility and settled polls come in whatever
-- order, a loop that is live has exactly one poll of its generation to come: a poll in flight, or else
-- its timer. A loop that is not live has neither. The map counts the polls in flight.
pub one_chain :
    (interval clock : ℕ) (es : List Event)
    → let s = run interval es (idle clock) in
      (count s.gen s.ticks + timers s.timer ≡ one_if s.live)
      × (pending s.gen s.in_flight ≡ count s.gen s.ticks)
one_chain interval clock es =
    let s = run interval es (idle clock) in
    let v = run-IsChained interval es (idle clock) (idle-IsChained clock) in
    (
      ap (λ n. count s.gen s.ticks + n) (sym (armed-timers s.gen s.timer v.own)) ∙ v.chained,
      v.counted s.gen,
    )
