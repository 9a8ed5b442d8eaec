-- ===== src/RingBuffer/History.antt =====
-- web/src/utils/ringBuffer.ts: the buffer is a window on the history of accepted samples.
use native.Mathlib.Numerals.{add-one}
use kube_console.Shared.{
  ℕ, ◌+◌, ◌-◌, ◌≤◌, ◌≡◌, refl, sym, ap, ◌∙◌, true, false, List, [], ◌∷◌, ◌++◌, Option, none, some,
  arith, String, ltb, is_none, get_or, if◌then◌else◌, length, last?, drop, replicate, keep_last,
  length-append, replicate-append, ltb→lt, length-keep_last, Bool-cases, Option-cases, inl, inr,
  ◌⊎◌, str_eq, eq_iff,
}
use kube_console.Shared.Maps.{
  Dict, lookup, insert, keys, map_entries, map_option, lookup-insert, lookup-map_entries,
}
use kube_console.RingBuffer.Series.{
  Ring, max_samples, backfill, append_points, is_old, evict_oldest, push,
}

module _ {ℓ} {V : Type ℓ} where
  -- The points of a label, nulls where the label has not been seen.
  abbrev pub column : Ring V → String → List (Option V)
  column b label = get_or (lookup label b.series) (replicate (length b.timestamps) none)

  pub record IsAligned (b : Ring V) : Type ℓ where
    pub aligned : (label : String) → length (column b label) ≡ length b.timestamps
    pub bounded : length b.timestamps ≤ max_samples

  one_label :
      (l label : String) (nulls : List (Option V)) (series : Dict (List (Option V)))
      → get_or
          (lookup label (if is_none (lookup l series) then insert l nulls series else series))
          nulls
        ≡ get_or (lookup label series) nulls
  one_label l label nulls series = elim (Option-cases (lookup l series)) [
    | inl e ↦ rw (e, lookup-insert series l nulls label) (found (Bool-cases (str_eq l label)) e)
    | inr (points, e) ↦ rw e refl
  ]
    where
      found :
          (str_eq l label ≡ true) ⊎ (str_eq l label ≡ false)
          → lookup l series ≡ none
          → get_or (if str_eq l label then some nulls else lookup label series) nulls
            ≡ get_or (lookup label series) nulls
      found (inl t) e = rw t (
          sym
            (ap (λ o. get_or o nulls) (ap (λ k. lookup k series) (sym ((eq_iff l label).0 t)) ∙ e)))
      found (inr f) e = rw f refl

  -- Backfilling changes no column.
  backfill-column :
      (n : ℕ) (labels : List String) (series : Dict (List (Option V))) (label : String)
      → get_or (lookup label (backfill n labels series)) (replicate n none)
        ≡ get_or (lookup label series) (replicate n none)
  unfolding backfill
  backfill-column n [] series label = refl
  backfill-column n (l ∷ labels) series label =
      backfill-column n labels _ label ∙ one_label l label (replicate n none) series

  none_before :
      (l label : String) (nulls : List (Option V)) (series : Dict (List (Option V)))
      → lookup label (if is_none (lookup l series) then insert l nulls series else series) ≡ none
      → (str_eq l label ≡ false) × (lookup label series ≡ none)
  none_before l label nulls series h = elim (Bool-cases (is_none (lookup l series))) [
    | inl e ↦
        (let k : (if str_eq l label then some nulls else lookup label series) ≡ none =
            sym (lookup-insert series l nulls label) ∙ (rw e at h) in
          ground arith)
    | inr e ↦ (let k : lookup label series ≡ none = rw e at h in ground (arith, eq_iff l label))
  ]

  -- A label that the backfill leaves out is neither in the sample nor in the series.
  backfill-none :
      (n : ℕ) (values : Dict V) (series : Dict (List (Option V))) (label : String)
      → lookup label (backfill n (keys values) series) ≡ none
      → (lookup label values ≡ none) × (lookup label series ≡ none)
  unfolding backfill lookup
  backfill-none n [] series label e = (refl, e)
  backfill-none n ((l, v) ∷ values) series label e =
      let (h, k) = backfill-none n values _ label e in
      let (other, old) = none_before l label (replicate n none) series k in (rw other h, old)

  append-column :
      (n : ℕ) (o : Option (List (Option V))) (p : Option V)
      → (o ≡ none → p ≡ none)
      → get_or (map_option (λ points. points ++ p ∷ []) o) (replicate (n + 1) none)
        ≡ get_or o (replicate n none) ++ p ∷ []
  append-column n none p h = rw (h refl, add-one n) (sym (replicate-append n none))
  append-column n (some points) p h = refl

  appended_column :
      (t : ℕ) (values : Dict V) (b : Ring V) (label : String)
      → column
          (record {
            timestamps = b.timestamps ++ t ∷ [];
            series = append_points values (backfill (length b.timestamps) (keys values) b.series);
          })
          label
        ≡ column b label ++ lookup label values ∷ []
  unfolding append_points
  appended_column t values b label =
      let n = length b.timestamps in
      let filled = backfill n (keys values) b.series in
      let size : length (b.timestamps ++ t ∷ []) ≡ n + 1 =
        omega (arith, length-append b.timestamps (t ∷ [])) in
      rw (size, lookup-map_entries (λ l points. points ++ lookup l values ∷ []) filled label)
        (append-column n (lookup label filled) (lookup label values)
            (λ e. (backfill-none n values b.series label e).0)
          ∙ ap (λ c. c ++ lookup label values ∷ [])
              (backfill-column n (keys values) b.series label))

  shift_column :
      (ts : List ℕ) (o : Option (List (Option V)))
      → get_or (map_option (λ points. drop 1 points) o) (replicate (length (drop 1 ts)) none)
        ≡ drop 1 (get_or o (replicate (length ts) none))
  shift_column [] none = refl
  shift_column (t ∷ ts) none = refl
  shift_column ts (some points) = refl

  -- Cutting the oldest sample cuts every column, seen or not.
  evicted_column :
      (b : Ring V) (label : String)
      → length (column b label) ≡ length b.timestamps
      → length b.timestamps ≤ max_samples + 1
      → (column (evict_oldest b) label ≡ keep_last max_samples (column b label))
        × ((evict_oldest b).timestamps ≡ keep_last max_samples b.timestamps)
  unfolding evict_oldest
  evicted_column b label h k = elim (Bool-cases (ltb max_samples (length b.timestamps))) [
    | inl t ↦
        (let one : length b.timestamps - max_samples ≡ 1 = omega (arith, ltb→lt _ _ t) in
          simp t (rw (h, one) (dropped_column, refl)))
    | inr f ↦
        (let zero_left : length b.timestamps - max_samples ≡ 0 = ground arith in
          simp f (rw (h, zero_left) (refl, refl)))
  ]
    where
      dropped_column :
          get_or
            (lookup label (map_entries (λ l points. drop 1 points) b.series))
            (replicate (length (drop 1 b.timestamps)) none)
          ≡ drop 1 (column b label)
      dropped_column =
          rw (lookup-map_entries (λ l points. drop 1 points) b.series label)
            (shift_column b.timestamps (lookup label b.series))

  pub push_refuses :
      (t : ℕ) (values : Dict V) (b : Ring V)
      → is_old t (last? b.timestamps) ≡ true
      → (push t values b).0 ≡ b
  unfolding push
  push_refuses t values b e = simp e refl

  -- What an accepted sample does: the timestamp goes to the end of the timestamps, its value or a
  -- null to the end of every column, and at most `max_samples` of each stay.
  pub push_accepts :
      (t : ℕ) (values : Dict V) (b : Ring V)
      → IsAligned b
      → is_old t (last? b.timestamps) ≡ false
      → ((push t values b).0.timestamps ≡ keep_last max_samples (b.timestamps ++ t ∷ []))
        × ((label : String)
            → column (push t values b).0 label
              ≡ keep_last max_samples (column b label ++ lookup label values ∷ []))
  unfolding push
  push_accepts t values b v e = simp e (
    (evicted_column grown "" (aligned "") bound).1,
    λ label.
        (evicted_column grown label (aligned label) bound).0
        ∙ ap (keep_last max_samples) (appended_column t values b label),
  )
    where
      grown : Ring V
      grown = record {
        timestamps = b.timestamps ++ t ∷ [];
        series = append_points values (backfill (length b.timestamps) (keys values) b.series);
      }

      aligned : (label : String) → length (column grown label) ≡ length grown.timestamps
      aligned label = omega (
        arith,
        ap length (appended_column t values b label),
        length-append (column b label) (lookup label values ∷ []),
        length-append b.timestamps (t ∷ []),
        v.aligned label,
      )

      bound : length grown.timestamps ≤ max_samples + 1
      bound = omega (arith, length-append b.timestamps (t ∷ []), v.bounded)

  pub push-IsAligned :
      (t : ℕ) (values : Dict V) (b : Ring V) → IsAligned b → IsAligned (push t values b).0
  push-IsAligned t values b v = elim (Bool-cases (is_old t (last? b.timestamps))) [
    | inl old ↦ rw (push_refuses t values b old) v
    | inr new ↦
        (let (times, columns) = push_accepts t values b v new in
          record {
            aligned = λ label. omega (
              arith,
              ap length times,
              ap length (columns label),
              length-keep_last max_samples (b.timestamps ++ t ∷ []),
              length-keep_last max_samples (column b label ++ lookup label values ∷ []),
              length-append b.timestamps (t ∷ []),
              length-append (column b label) (lookup label values ∷ []),
              v.aligned label,
            );
            bounded =
                omega
                  (arith, ap length times, length-keep_last max_samples (b.timestamps ++ t ∷ []));
          })
  ]
