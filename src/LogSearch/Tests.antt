-- ===== src/LogSearch/Tests.antt =====
-- Runs of the log search at concrete inputs: the query matches the lines that start with an "a".
use kube_console.Shared.{◌≡◌, refl, Bool, true, false, [], ◌∷◌, some, String, drop, length, ◌==◌}
use kube_console.Shared.Text.{Text, is_blank, is_space}
use kube_console.LogsStream.Buffer.{Buffer, flush, is_empty, trim, trims, max_lines}
use kube_console.LogSearch.Scan.{
  scan_lines, scan_at, shift_and_scan, count_below, shift_and_scan-eq-scan_lines,
}
use kube_console.LogSearch.State.{
  Log, Search, compile_query, init, type_query, settle, move, set_debounced, refresh, update,
  rescan, shift, same_query, jump, next_active,
}
use kube_console.LogSearch.Fresh.{Reach, opened, typed, moved, IsWithin, hits, hits_are_fresh}
use kube_console.LogSearch.Cursor.{log_of, move_and_back, flush_keeps_hits}

searching : Unit {0}
unfolding compile_query init type_query settle move set_debounced refresh update rescan shift
    same_query jump next_active scan_lines scan_at shift_and_scan count_below is_blank flush
    is_empty trim trims max_lines is_space
searching = tt

abbrev starts_a : String → Text → Bool
starts_a q [] = false
starts_a q (c ∷ cs) = c == 97

abbrev log : Log
log = record { array = 1; lines = (97 ∷ []) ∷ (98 ∷ []) ∷ (97 ∷ 98 ∷ []) ∷ []; dropped = 0 }

abbrev searched : Search
searched = move starts_a true log (type_query "a" init)

found_two : searched.matches ≡ 0 ∷ 2 ∷ []
unfolding searching
found_two = refl

searched-Reach : Reach starts_a log searched
searched-Reach = moved true (typed "a" (opened log))

shift_and_scan-eq-scan_lines_example :
    shift_and_scan
      (λ n. n == 7)
      (scan_lines (λ n. n == 7) (7 ∷ 1 ∷ 7 ∷ []) 0)
      1
      3
      (drop 1 (7 ∷ 1 ∷ 7 ∷ 7 ∷ []))
    ≡ scan_lines (λ n. n == 7) (drop 1 (7 ∷ 1 ∷ 7 ∷ 7 ∷ [])) 0
shift_and_scan-eq-scan_lines_example =
    shift_and_scan-eq-scan_lines (λ n. n == 7) (7 ∷ 1 ∷ 7 ∷ []) (7 ∷ []) 1

hits_are_fresh_example :
    (searched.matches ≡ hits starts_a (compile_query searched.debounced) log)
    × IsWithin searched.active (length searched.matches)
hits_are_fresh_example = hits_are_fresh starts_a log searched searched-Reach

move_and_back_example : (move starts_a false log (move starts_a true log searched)).active ≡ some 0
unfolding searching
move_and_back_example = move_and_back starts_a true log searched 0 searched-Reach refl refl

abbrev buffer : Buffer
buffer = record {
  lines = (97 ∷ []) ∷ [];
  lines_version = 1;
  truncated = false;
  dropped = 0;
  pending = (97 ∷ 98 ∷ []) ∷ [];
  timer = true;
  last_line_at = some 5;
}

abbrev over_buffer : Search
over_buffer = move starts_a true (log_of 1 buffer) (type_query "a" init)

flush_keeps_hits_example :
    (refresh starts_a (log_of 1 (flush buffer)) over_buffer).matches
    ≡ hits starts_a
        (compile_query (refresh starts_a (log_of 1 (flush buffer)) over_buffer).debounced)
        (log_of 1 (flush buffer))
flush_keeps_hits_example =
    flush_keeps_hits starts_a 1 buffer over_buffer
      (moved true (typed "a" (opened (log_of 1 buffer))))
