-- ===== src/Polling/Tests.antt =====
-- Runs of the polling loop at concrete inputs, with an interval of 1000.
use kube_console.Shared.{◌+◌, ◌≡◌, refl, false, List, [], ◌∷◌}
use kube_console.Polling.Loop.{
  pending, set_pending, delete_pending, run_tick, settle_tick, schedule, stop, go_live, start,
  gate_answers, timer_callback, on_visibility_change, has_one, leave, Event, start_called,
  timer_due, visibility_changes, tick_settles, time_passes, fire, after_tick, step, run, idle,
}
use kube_console.Polling.Chain.{timers, one_chain}
use kube_console.Polling.Counts.{count, one_if}
use kube_console.Polling.Cadence.{is_start}

polling : Unit {0}
unfolding pending set_pending delete_pending run_tick settle_tick schedule stop go_live start
    gate_answers timer_callback on_visibility_change has_one leave fire after_tick step run count
    timers one_if is_start
polling = tt

-- A first poll settles, the timer fires, and the tab comes back while the poll is in flight.
abbrev events : List Event
events =
    start_called false
    ∷ time_passes 5
    ∷ tick_settles 2
    ∷ time_passes 1000
    ∷ timer_due false
    ∷ time_passes 3000
    ∷ visibility_changes false
    ∷ []

one_in_flight : (run 1000 events (idle 7)).ticks ≡ 2 ∷ []
unfolding polling
one_in_flight = refl

one_chain_example :
    let s = run 1000 events (idle 7) in
    (count s.gen s.ticks + timers s.timer ≡ one_if s.live)
    × (pending s.gen s.in_flight ≡ count s.gen s.ticks)
one_chain_example = one_chain 1000 7 events

abbrev armed_events : List Event
armed_events = start_called false ∷ time_passes 5 ∷ tick_settles 2 ∷ time_passes 1000 ∷ []
