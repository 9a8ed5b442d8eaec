-- ===== src/RingBuffer/Tests.antt =====
-- Runs of the metric series at concrete inputs.
use kube_console.Shared.{
  ℕ, ◌+◌, ◌*◌, ◌/◌, ◌<◌, ◌≤◌, ◌≡◌, refl, List, [], ◌∷◌, map, none, some, drop, take, keep_last, All,
}
use kube_console.Shared.Maps.{Dict, lookup, insert, map_entries}
use kube_console.RingBuffer.Series.{
  empty, push, max_samples, backfill, append_points, evict_oldest, is_old, to_uplot_data,
  window_start, start_from, find_from,
}
use kube_console.RingBuffer.History.{column, IsAligned, push-IsAligned}
use kube_console.RingBuffer.Replay.{accepted, push_all, times, values_of, replay, empty-IsAligned}
use kube_console.RingBuffer.Window.{window_is_recent}

ring : Unit {0}
unfolding push max_samples backfill append_points evict_oldest is_old to_uplot_data window_start
    start_from find_from lookup insert map_entries
ring = tt

-- The label "b" comes later, and the third sample is refused.
abbrev samples : List (ℕ × Dict ℕ)
samples =
    (1000, ("a", 1) ∷ [])
    ∷ (3000, ("b", 2) ∷ [])
    ∷ (2000, ("a", 9) ∷ [])
    ∷ (9000, ("a", 3) ∷ [])
    ∷ []

three_kept : (push_all samples empty).timestamps ≡ 1000 ∷ 3000 ∷ 9000 ∷ []
unfolding ring
three_kept = refl

replay_example :
    ((push_all samples empty).timestamps ≡ keep_last max_samples (times (accepted none samples)))
    × (column (push_all samples empty) "b"
        ≡ keep_last max_samples (values_of "b" (accepted none samples)))
replay_example = replay samples "b"

window_is_recent_example :
    let b = push_all samples empty in
    (from : ℕ) × (to_uplot_data (λ t. t / 1000) (some 6) b
      ≡ (map (λ t. t / 1000) (drop from b.timestamps), map (λ e. drop from e.1) b.series))
    × All (λ t. t + 6 * 1000 < 9000) (take from b.timestamps)
    × All (λ t. 9000 ≤ t + 6 * 1000) (drop from b.timestamps)
unfolding ring
window_is_recent_example = window_is_recent (λ t. t / 1000) 6 9000 samples refl

abbrev first : Dict ℕ
first = ("a", 1) ∷ []

push-IsAligned_example : IsAligned (push 1000 first empty).0
push-IsAligned_example = push-IsAligned 1000 first empty empty-IsAligned
