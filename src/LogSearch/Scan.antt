-- ===== src/LogSearch/Scan.antt =====
-- `scanLines` of web/src/utils/logSearch.ts, and the shift of earlier hits of
-- web/src/composables/useLogSearch.ts when the head of the log was dropped.
use native.Mathlib.Numerals.{add-one}
use kube_console.Shared.{
  ℕ, zero, suc, ◌+◌, ◌-◌, ◌≤◌, ◌<◌, ◌≡◌, refl, sym, ap, ◌∙◌, Bool, List, [], ◌∷◌, ◌++◌, map, arith,
  ltb, if◌then◌else◌, length, drop, All, drop-append, drop-nil, drop-eq-nil, length-drop, lt→ltb,
  Bool-cases, inl, inr,
}

-- How many of the earlier hits lie below `delta`, from the front: the `while` loop over `kept`.
unfoldable pub count_below : ℕ → List ℕ → ℕ
count_below delta [] = 0
count_below delta (i ∷ hits) =
    let rest = count_below delta hits in if ltb i delta then rest + 1 else 0

module _ {ℓ} {A : Type ℓ} (test : A → Bool) where
  unfoldable pub scan_at : ℕ → List A → List ℕ
  scan_at i [] = []
  scan_at i (line ∷ lines) =
      let rest = scan_at (i + 1) lines in if test line then i ∷ rest else rest

  -- `scanLines(lines, q, from)`
  unfoldable pub scan_lines : List A → ℕ → List ℕ
  scan_lines lines from = scan_at from (drop from lines)

  -- The hits after `delta` lines left the head of a buffer that had `last_len` lines before.
  unfoldable pub shift_and_scan : List ℕ → ℕ → ℕ → List A → List ℕ
  shift_and_scan previous delta last_len lines =
      map (λ i. i - delta) (drop (count_below delta previous) previous)
      ++ scan_lines lines (last_len - delta)

  scan_at-append :
      (i : ℕ) (xs ys : List A) → scan_at i (xs ++ ys) ≡ scan_at i xs ++ scan_at (i + length xs) ys
  unfolding scan_at
  scan_at-append i [] ys = ap (λ k. scan_at k ys) (omega arith)
  scan_at-append i (x ∷ xs) ys =
      let e : i + 1 + length xs ≡ i + suc (length xs) = omega arith in
      let ih = scan_at-append (i + 1) xs ys ∙ ap (λ k. scan_at (i + 1) xs ++ scan_at k ys) e in
      elim (Bool-cases (test x)) [ inl t ↦ simp t (ap (λ l. i ∷ l) ih) | inr f ↦ simp f ih ]

  map-sub-scan_at :
      (d i k : ℕ) (xs : List A) → k ≡ i + d → map (λ j. j - d) (scan_at k xs) ≡ scan_at i xs
  unfolding scan_at
  map-sub-scan_at d i k [] e = refl
  map-sub-scan_at d i k (x ∷ xs) e =
      let ih = map-sub-scan_at d (i + 1) (k + 1) xs (omega arith) in
      let here : k - d ≡ i = omega arith in
      elim (Bool-cases (test x)) [ inl t ↦ simp (t, here) (ap (λ l. i ∷ l) ih) | inr f ↦ simp f ih ]

  All-le-scan_at : (d i : ℕ) (xs : List A) → d ≤ i → All (λ j. d ≤ j) (scan_at i xs)
  unfolding scan_at
  All-le-scan_at d i [] h = tt
  All-le-scan_at d i (x ∷ xs) h = ground (arith, All-le-scan_at d (i + 1) xs)

  count_below-scan_at : (d i : ℕ) (xs : List A) → d ≤ i → count_below d (scan_at i xs) ≡ 0
  unfolding scan_at count_below
  count_below-scan_at d i [] h = refl
  count_below-scan_at d i (x ∷ xs) h = ground (arith, count_below-scan_at d (i + 1) xs)

  drop_count-cons :
      (d i : ℕ) (hits : List ℕ)
      → i < d
      → drop (count_below d (i ∷ hits)) (i ∷ hits) ≡ drop (count_below d hits) hits
  unfolding count_below
  drop_count-cons d i hits h =
      simp (lt→ltb i d h) (ap (λ k. drop k (i ∷ hits)) (add-one (count_below d hits)))

  -- Hits below a bound are those of the lines before it.
  drop_below :
      (n i d : ℕ) (xs : List A)
      → d ≡ i + n
      → drop (count_below d (scan_at i xs)) (scan_at i xs) ≡ scan_at d (drop n xs)
  unfolding scan_at
  drop_below zero i d xs e =
      rw (count_below-scan_at d i xs (omega arith)) (ap (λ k. scan_at k xs) (omega arith))
  drop_below (suc n) i d [] e = drop-nil _
  drop_below (suc n) i d (x ∷ xs) e =
      let ih = drop_below n (i + 1) d xs (omega arith) in
      elim (Bool-cases (test x)) [
        | inl t ↦ simp t (drop_count-cons d i (scan_at (i + 1) xs) (omega arith) ∙ ih)
        | inr f ↦ simp f ih
      ]

  -- The incremental scan finds what a scan of the whole buffer finds, whatever was dropped from the
  -- head of the buffer and appended at its end.
  pub shift_and_scan-eq-scan_lines :
      (lines added : List A) (delta : ℕ)
      → shift_and_scan (scan_lines lines 0) delta (length lines) (drop delta (lines ++ added))
        ≡ scan_lines (drop delta (lines ++ added)) 0
  unfolding shift_and_scan scan_lines
  shift_and_scan-eq-scan_lines lines added delta =
      let kept = drop delta lines in
      let fresh = drop (delta - length lines) added in
      let size : length lines - delta ≡ length kept = omega (arith, length-drop delta lines) in
      let old : map (λ j. j - delta) (drop (count_below delta (scan_at 0 lines)) (scan_at 0 lines))
          ≡ scan_at 0 kept =
        ap (map (λ j. j - delta)) (drop_below delta 0 delta lines (omega arith))
        ∙ map-sub-scan_at delta 0 delta kept (omega arith) in
      let none_left : length kept - length kept ≡ 0 = omega arith in
      let new : drop (length kept) (kept ++ fresh) ≡ fresh =
        drop-append (length kept) kept fresh
        ∙ ap (λ l. l ++ drop (length kept - length kept) fresh)
            (drop-eq-nil (length kept) kept (omega arith))
        ∙ ap (λ k. drop k fresh) none_left in
      rw (drop-append delta lines added, old, size, new)
        (sym
          (scan_at-append 0 kept fresh ∙ ap (λ k. scan_at 0 kept ++ scan_at k fresh) (omega arith)))
