-- ===== src/LogsStream/Tests.antt =====
-- Runs of the log stream at concrete inputs.
use kube_console.Shared.{
  ◌+◌, ◌-◌, ◌*◌, ◌<◌, ◌≤◌, ◌≡◌, refl, true, false, List, [], ◌∷◌, none, some, arith, length,
  keep_last, ltb,
}
use kube_console.Shared.Text.{split_lines}
use kube_console.LogsStream.Buffer.{
  Buffer, max_lines, trim, trims, is_empty, flush, append, discard_pending, reset,
}
use kube_console.LogsStream.Machine.{
  idle, connecting, Event, connected, chunk, failed, timer_fires, Stream, api_error, other_error,
  start, stop, finish, on_connected, on_chunk, on_done, is_fatal, since_last_line, resumed,
  after_failure, next_delay, on_waited, fire_timer, deliver, goes_on, is_current, step, run,
}
use kube_console.LogsStream.Handed.{handed, arriving, arrives}
use kube_console.LogsStream.Shown.{heard, heard_lines, nothing_heard, run_shows_tail}
use kube_console.LogsStream.Connection.{
  Item, text_at, timer_at, whole, all_lines, connection_shows_log,
}
use kube_console.LogsStream.Retry.{retries, since_last_line_window, stop_is_final, retries_back_off}

machine : Unit {0}
unfolding run step is_current goes_on deliver on_connected on_chunk on_done after_failure resumed
    on_waited next_delay fire_timer finish start stop is_fatal since_last_line flush append trim
    trims is_empty discard_pending reset split_lines max_lines handed arriving arrives all_lines
machine = tt

abbrev empty_buffer : Buffer
empty_buffer = record {
  lines = [];
  lines_version = 0;
  truncated = false;
  dropped = 0;
  pending = [];
  timer = false;
  last_line_at = none;
}

abbrev fresh : Stream
fresh = record {
  buffer = empty_buffer;
  running = false;
  error = none;
  reconnecting = none;
  generation = 0;
  owner = 0;
  phase = idle;
  target = "";
  delay = 0;
  attempt_start = 0;
  resume = none;
}

-- "a\nb", then "c\nd".
abbrev items : List Item
items = text_at 5 (97 ∷ 10 ∷ 98 ∷ []) ∷ timer_at ∷ text_at 70 (99 ∷ 10 ∷ 100 ∷ []) ∷ []

read_in_pieces :
    (run (start 0 "u" none fresh) (whole fresh items 80)).buffer.lines
    ≡ (97 ∷ []) ∷ (98 ∷ 99 ∷ []) ∷ (100 ∷ []) ∷ []
unfolding machine
read_in_pieces = refl

not_found :
    (run (start 0 "u" (some (λ _. some "v")) fresh) (failed 1 3 (api_error 404 "gone") ∷ [])).error
    ≡ some "gone"
unfolding machine
not_found = refl

abbrev flushed_events : List Event
flushed_events =
    connected 1 true
    ∷ chunk 1 5 (97 ∷ 10 ∷ 98 ∷ [])
    ∷ timer_fires
    ∷ chunk 1 90 (99 ∷ 10 ∷ 100 ∷ [])
    ∷ timer_fires
    ∷ []

run_shows_tail_example :
    let t = run (start 0 "u" none fresh) flushed_events in
    let lines = heard_lines (heard (start 0 "u" none fresh) flushed_events nothing_heard) in
    (t.buffer.lines ≡ keep_last max_lines lines)
    × (t.buffer.truncated ≡ ltb max_lines (length lines))
unfolding machine
run_shows_tail_example = run_shows_tail 0 "u" none fresh flushed_events refl

connection_shows_log_example :
    ((run (start 0 "u" none fresh) (whole fresh items 80)).running ≡ false)
    × ((run (start 0 "u" none fresh) (whole fresh items 80)).buffer.lines
        ≡ keep_last max_lines (all_lines (97 ∷ 10 ∷ 98 ∷ 99 ∷ 10 ∷ 100 ∷ [])))
    × ((run (start 0 "u" none fresh) (whole fresh items 80)).buffer.truncated
        ≡ ltb max_lines (length (all_lines (97 ∷ 10 ∷ 98 ∷ 99 ∷ 10 ∷ 100 ∷ []))))
connection_shows_log_example = connection_shows_log 0 80 "u" none fresh items

since_last_line_window_example :
    (11900 - 10000 + 1000 ≤ 3 * 1000) × (3 * 1000 < 11900 - 10000 + 2000)
unfolding since_last_line
since_last_line_window_example = since_last_line_window 11900 10000 3 (omega arith) refl

stop_is_final_example :
    run (stop (run (start 0 "u" none fresh) flushed_events)) (chunk 1 9 (99 ∷ 10 ∷ []) ∷ [])
    ≡ stop (run (start 0 "u" none fresh) flushed_events)
stop_is_final_example =
    stop_is_final 0 "u" none fresh flushed_events (chunk 1 9 (99 ∷ 10 ∷ []) ∷ [])

retries_back_off_example :
    let t =
      run
        (start 0 "u" (some (λ _. some "v")) fresh)
        (retries 1 other_error ((3, 3) ∷ (8, 1008) ∷ [])) in
    (t.running ≡ true) × (t.error ≡ none) × (t.phase ≡ connecting) × (t.delay ≡ 2000)
unfolding is_fatal
retries_back_off_example =
    retries_back_off 0 "u" "v" other_error fresh ((3, 3) ∷ (8, 1008) ∷ []) refl
      (omega arith, (omega arith, tt))
