-- ===== src/WatchStream/Tests.antt =====
-- Runs of the watch at concrete inputs. A frame of the examples is one letter, and "!" is an error.
use kube_console.Shared.{
  ℕ, ◌≤◌, ◌≡◌, refl, true, List, [], ◌∷◌, ◌++◌, map, Option, none, some, ◌==◌, if◌then◌else◌,
}
use kube_console.Shared.Text.{Text, split_lines}
use kube_console.WatchStream.Machine.{
  Frame, error_frame, event_frame, Watch, take_frame, hand_over, conclude, leave_attempt,
  unless_aborted, attempt, stop, start, after_wait, Event, start_called, connected, chunk, ended,
  waited, frame_of, take_lines, after_lines, on_chunk, on_read, deliver, step, run,
  initial_backoff_ms, max_backoff_ms, unstarted, has_generation, drop_generation, trim_start,
  trim_end,
}
use kube_console.WatchStream.Chunks.{concat, chunks_join}
use kube_console.WatchStream.Safety.{is_start, starts, backoff_stays_bounded, stop_is_silent}

watching : Unit {0}
unfolding take_frame hand_over conclude leave_attempt unless_aborted attempt stop start after_wait
    frame_of take_lines after_lines on_chunk on_read deliver step run initial_backoff_ms
    max_backoff_ms has_generation drop_generation trim_start trim_end split_lines concat is_start
    starts
watching = tt

abbrev read : Text → Option (Frame ℕ)
read [] = none
read (c ∷ cs) = some (if c == 33 then error_frame (some 410) else event_frame c)

abbrev running : Watch ℕ
running = run read (start_called true ∷ connected 2 ∷ []) unstarted

two_frames :
    (run read (chunk 2 (97 ∷ 10 ∷ 32 ∷ []) ∷ chunk 2 (98 ∷ 10 ∷ 99 ∷ []) ∷ []) running).delivered
    ≡ 97 ∷ 98 ∷ []
unfolding watching
two_frames = refl

chunks_join_example :
    run read (map (chunk 2) ((97 ∷ 10 ∷ 32 ∷ []) ∷ (98 ∷ 10 ∷ 99 ∷ []) ∷ [])) running
    ≡ step read (chunk 2 ((97 ∷ 10 ∷ 32 ∷ []) ++ concat ((98 ∷ 10 ∷ 99 ∷ []) ∷ []))) running
chunks_join_example = chunks_join read 2 (97 ∷ 10 ∷ 32 ∷ []) ((98 ∷ 10 ∷ 99 ∷ []) ∷ []) running

-- The loop of generation 2 waits while the owner starts anew; its wait doubles the new backoff.
abbrev restarted : List Event
restarted = start_called true ∷ connected 2 ∷ ended 2 ∷ start_called true ∷ waited 2 true ∷ []

old_wait_doubles : (run read restarted unstarted).backoff_ms ≡ 2000
unfolding watching
old_wait_doubles = refl

backoff_stays_bounded_example :
    let s = run read restarted unstarted in
    (initial_backoff_ms ≤ s.backoff_ms) × (s.backoff_ms ≤ max_backoff_ms)
backoff_stays_bounded_example = backoff_stays_bounded read restarted

stop_is_silent_example :
    let t = run read (chunk 2 (97 ∷ 10 ∷ []) ∷ ended 2 ∷ []) (stop running) in
    (t.delivered ≡ running.delivered)
    × (t.stale_calls ≡ running.stale_calls)
    × (t.requests ≡ running.requests)
unfolding starts is_start
stop_is_silent_example = stop_is_silent read running (chunk 2 (97 ∷ 10 ∷ []) ∷ ended 2 ∷ []) refl
