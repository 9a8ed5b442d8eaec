-- ===== src/LogLines/Cuts.antt =====
-- `segmentLine` of web/src/utils/logSearch.ts: its inner loop over the ranges in one piece.
use kube_console.Shared.{
  ℕ, zero, suc, ◌+◌, ◌≤◌, ◌<◌, max, min, ◌≡◌, refl, sym, ap, ◌∙◌, Bool, true, false, List, [], ◌∷◌,
  ◌++◌, append-nil, String, arith, leb, ltb, length, Bool-cases, inl, inr,
}
use kube_console.Shared.Text.{Text}
use kube_console.LogLines.Segments.{
  LineSegment, slice, skip_ended, segment, before_hit, cut_at, cut,
}
use kube_console.LogLines.Painted.{
  is_covered, paint, flat, painted, ascends, ascends-skip_ended, covered-skip_ended, paint-agrees,
  paint-slices, slice-flat, painted-append, slice_self, head_misses, head_hits, head_is_proper,
  none_covered,
}

module _ (text : Text) (cls : String) (piece_end : ℕ) (fits : piece_end ≤ length text) where
  -- What the inner loop leaves: the rest of the piece is painted, and the ranges that are left say the
  -- same of all that follows.
  abbrev pub Cuts : ℕ → List (ℕ × ℕ) → List LineSegment × List (ℕ × ℕ) → Type 0
  Cuts cursor rs (segments, left) =
      (painted segments ≡ paint cursor cls rs (slice cursor piece_end text))
      × (ascends 0 left ≡ true)
      × ((i : ℕ) → piece_end ≤ i → is_covered i left ≡ is_covered i rs)

  before_hit-painted :
      (cursor start : ℕ)
      → cursor ≤ start
      → painted (before_hit text cls piece_end cursor start)
        ≡ flat cls false (slice cursor start text)
  unfolding before_hit painted segment
  before_hit-painted cursor start le = elim (Bool-cases (ltb cursor start)) [
    | inl t ↦ simp t (append-nil (flat cls false (slice cursor start text)))
    | inr f ↦
        let same : start ≡ cursor = ground (arith, f, le) in
        simp f
          (sym (ap (flat cls false) (ap (λ n. slice cursor n text) same ∙ slice_self cursor text)))
  ]

  -- The first range has not ended.
  unfoldable is_open : ℕ → List (ℕ × ℕ) → Bool
  is_open cursor [] = true
  is_open cursor ((a, b) ∷ rs) = ltb cursor b

  is_open-skip_ended :
      (cursor : ℕ) (rs : List (ℕ × ℕ)) → is_open cursor (skip_ended cursor rs) ≡ true
  unfolding is_open skip_ended
  is_open-skip_ended cursor [] = refl
  is_open-skip_ended cursor ((a, b) ∷ rs) = elim (Bool-cases (leb b cursor)) [
    | inl t ↦ simp t (is_open-skip_ended cursor rs)
    | inr f ↦ simp f (ground (arith, f))
  ]

  -- A hit from `start` to `end_` within a part of the piece.
  around_hit :
      (cursor start stop : ℕ) (rs : List (ℕ × ℕ)) (later : List LineSegment)
      → cursor ≤ start
      → start ≤ stop
      → stop ≤ piece_end
      → ((i : ℕ) → cursor ≤ i → i < start → is_covered i rs ≡ false)
      → ((i : ℕ) → start ≤ i → i < stop → is_covered i rs ≡ true)
      → painted later ≡ paint stop cls rs (slice stop piece_end text)
      → painted (
          before_hit text cls piece_end cursor start
          ++ (segment text cls piece_end start stop true ∷ later))
        ≡ paint cursor cls rs (slice cursor piece_end text)
  unfolding painted segment
  around_hit cursor start stop rs later cs st sp outside inside rest =
      let ends : start ≤ piece_end = omega (arith, st, sp) in
      painted-append (before_hit text cls piece_end cursor start)
        (segment text cls piece_end start stop true ∷ later)
      ∙ ap (λ r. r ++ (flat cls true (slice start stop text) ++ painted later))
          (before_hit-painted cursor start cs
            ∙ sym
                (slice-flat cursor start cls rs false text cs (omega (arith, ends, fits)) outside))
      ∙ ap (λ r. paint cursor cls rs (slice cursor start text) ++ r)
          (ap (λ r. r ++ painted later)
              (sym (slice-flat start stop cls rs true text st (omega (arith, sp, fits)) inside))
            ∙ ap (λ r. paint start cls rs (slice start stop text) ++ r) rest
            ∙ sym (paint-slices start stop piece_end cls rs text st sp fits))
      ∙ sym (paint-slices cursor start piece_end cls rs text cs ends fits)

  cut_at-Cuts :
      (again : ℕ → List (ℕ × ℕ) → List LineSegment × List (ℕ × ℕ)) (cursor : ℕ) (rs : List (ℕ × ℕ))
      → cursor < piece_end
      → ascends 0 rs ≡ true
      → is_open cursor rs ≡ true
      → ((next : ℕ) → cursor < next → next ≤ piece_end → Cuts next rs (again next rs))
      → Cuts cursor rs (cut_at text cls piece_end again cursor rs)
  unfolding cut_at painted segment is_open
  cut_at-Cuts again cursor [] lt up op k = (
    append-nil _
        ∙ sym (
            slice-flat cursor piece_end cls [] false text (omega (arith, lt)) fits
              (λ i le l. none_covered i)),
    up,
    λ i le. refl,
  )
  cut_at-Cuts again cursor ((a, b) ∷ rs) lt up op k = elim (Bool-cases (leb piece_end a)) [
    | inl t ↦
        let beyond : piece_end ≤ a = ground (arith, t) in
        simp t (
          append-nil _
              ∙ sym (
                  slice-flat cursor piece_end cls ((a, b) ∷ rs) false text (omega (arith, lt)) fits
                    (λ i le l. head_misses i a b rs up (omega (arith, beyond, l)))),
          up,
          λ i le. refl,
        )
    | inr f ↦
        let within : a < piece_end = ground (arith, f) in
        let ahead : cursor < b = ground (arith, op) in
        let proper : a < b = head_is_proper a b rs up in
        let start_before : max a cursor < min b piece_end =
          omega (arith, within, ahead, proper, lt) in
        let (paints, ups, agrees) =
          k (min b piece_end) (omega (arith, start_before)) (omega arith) in
        simp f (
          around_hit cursor (max a cursor) (min b piece_end) ((a, b) ∷ rs) _ (omega arith)
              (omega (arith, start_before)) (omega arith)
              (λ i le l. head_misses i a b rs up (omega (arith, le, l)))
              (λ i le l. head_hits i a b rs (omega (arith, le)) (omega (arith, l))) paints,
          ups,
          agrees,
        )
  ]

  nothing_left :
      (cursor : ℕ) (rs : List (ℕ × ℕ))
      → piece_end ≡ cursor
      → [] ≡ paint cursor cls rs (slice cursor piece_end text)
  unfolding paint
  nothing_left cursor rs e =
      sym (ap (paint cursor cls rs) (ap (λ n. slice cursor n text) e ∙ slice_self cursor text))

  pub cut-Cuts :
      (fuel cursor : ℕ) (rs : List (ℕ × ℕ))
      → cursor ≤ piece_end
      → piece_end ≤ cursor + fuel
      → ascends 0 rs ≡ true
      → Cuts cursor rs (cut text cls piece_end fuel cursor rs)
  unfolding cut painted
  cut-Cuts zero cursor rs le enough up =
      (nothing_left cursor rs (omega (arith, le, enough)), up, λ i l. refl)
  cut-Cuts (suc fuel) cursor rs le enough up = elim (Bool-cases (ltb cursor piece_end)) [
    | inl t ↦
        let lt : cursor < piece_end = ground (arith, t) in
        let now = skip_ended cursor rs in
        let up_now = ascends-skip_ended 0 cursor rs up in
        let (paints, ups, agrees) =
          cut_at-Cuts (λ next left. cut text cls piece_end fuel next left) cursor now lt up_now
            (is_open-skip_ended cursor rs)
            (λ next l m. cut-Cuts fuel next now m (omega (arith, enough, l)) up_now) in
        simp t (
          paints
              ∙ paint-agrees cursor cls now rs (slice cursor piece_end text)
                  (λ i l. covered-skip_ended i cursor rs l),
          ups,
          λ i l. agrees i l ∙ covered-skip_ended i cursor rs (omega (arith, le, l)),
        )
    | inr f ↦ simp f (nothing_left cursor rs (ground (arith, f, le)), up, λ i l. refl)
  ]
