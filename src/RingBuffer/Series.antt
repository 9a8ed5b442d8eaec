-- ===== src/RingBuffer/Series.antt =====
-- The aligned multi-series buffer `MultiSeriesRingBuffer` of web/src/utils/ringBuffer.ts. Sample
-- values are of any type; timestamps are whole milliseconds. A plain object of values is read by its
-- own keys.
use kube_console.Shared.{
  ℕ, ◌+◌, ◌-◌, ◌*◌, Bool, true, false, List, [], ◌∷◌, ◌++◌, map, Option, none, some, String, leb,
  ltb, is_none, if◌then◌else◌, length, last?, drop, replicate,
}
use kube_console.Shared.Maps.{Dict, lookup, insert, keys, map_entries}

unfoldable pub max_samples : ℕ
max_samples = 240

pub record Ring {ℓ} (V : Type ℓ) : Type ℓ where
  pub timestamps : List ℕ
  pub series : Dict (List (Option V))

-- The sample is not newer than the last one.
unfoldable pub is_old : ℕ → Option ℕ → Bool
is_old timestamp none = false
is_old timestamp (some last) = leb timestamp last

-- `findIndex((t) => t >= cutoff)`, and the length where there is none. A cutoff below zero lets
-- every timestamp pass, as the difference cut at 0 does.
unfoldable pub find_from : ℕ → List ℕ → ℕ
find_from cutoff [] = 0
find_from cutoff (t ∷ ts) = let rest = find_from cutoff ts in if leb cutoff t then 0 else rest + 1

-- `from` for a range, given the last timestamp, if there is one.
unfoldable pub start_from : ℕ → List ℕ → Option ℕ → ℕ
start_from seconds ts none = 0
start_from seconds ts (some last) =
    let from = find_from (last - seconds * 1000) ts in if ltb from (length ts) then from else 0

module _ {ℓ} {V : Type ℓ} where
  -- `new MultiSeriesRingBuffer()`
  abbrev pub empty : Ring V
  empty = record { timestamps = []; series = [] }

  -- New labels get `n` nulls, so that they stay aligned.
  unfoldable pub backfill : ℕ → List String → Dict (List (Option V)) → Dict (List (Option V))
  backfill n [] series = series
  backfill n (label ∷ labels) series =
      backfill n labels
        (if is_none (lookup label series) then insert label (replicate n none) series else series)

  unfoldable pub append_points : Dict V → Dict (List (Option V)) → Dict (List (Option V))
  append_points values = map_entries λ label points. points ++ lookup label values ∷ []

  -- `shift()` on the timestamps and on every series, past the cap.
  unfoldable pub evict_oldest : Ring V → Ring V
  evict_oldest b =
      if ltb max_samples (length b.timestamps)
      then record {
        timestamps = drop 1 b.timestamps;
        series = map_entries (λ label points. drop 1 points) b.series;
      }
      else b

  unfoldable pub push : ℕ → Dict V → Ring V → Ring V × Bool
  push timestamp values b = if is_old timestamp (last? b.timestamps) then (b, false) else (
    evict_oldest (record {
      timestamps = b.timestamps ++ timestamp ∷ [];
      series = append_points values (backfill (length b.timestamps) (keys values) b.series);
    }),
    true,
  )

  -- `lastTimestamp()`
  abbrev pub last_timestamp : Ring V → Option ℕ
  last_timestamp b = last? b.timestamps

  -- `from` of `toUplotData(rangeSeconds)`
  unfoldable pub window_start : Option ℕ → Ring V → ℕ
  window_start none b = 0
  window_start (some seconds) b = start_from seconds b.timestamps (last? b.timestamps)

  -- `toUplotData(rangeSeconds)`, where `seconds` turns milliseconds into the axis value `t / 1000`.
  unfoldable pub to_uplot_data {κ} :
      {X : Type κ} → (ℕ → X) → Option ℕ → Ring V → List X × List (List (Option V))
  to_uplot_data seconds range b =
      let from = window_start range b in
      (map seconds (drop from b.timestamps), map (λ e. drop from e.1) b.series)
