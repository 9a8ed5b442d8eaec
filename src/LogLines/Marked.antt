-- ===== src/LogLines/Marked.antt =====
-- `matchRanges` of web/src/utils/logSearch.ts against an account of its matches without its loop.
use kube_console.Shared.{
  ℕ, zero, suc, ◌+◌, ◌≤◌, ◌<◌, ◌≡◌, ◌↔◌, refl, ap, ◌∙◌, true, ◌&&◌, ◌∷◌, Option, none, some, arith,
  length, leb, ltb, Bool-cases, inl, inr,
}
use kube_console.Shared.Text.{Text}
use kube_console.LogLines.Painted.{is_covered}
use kube_console.LogLines.Hits.{Finds, match_at, match_from, match_ranges}

-- An offset has a match of the query, which is asked from an index on: the first match has it, or one
-- that is found from the end of the first on.
pub data IsHit (exec : ℕ → Option (ℕ × ℕ)) : ℕ → ℕ → Type 0 where
  within :
      {from i : ℕ} (start len : ℕ)
      → exec from ≡ some (start, len)
      → start ≤ i
      → i < start + len
      → IsHit exec from i
  behind :
      {from i : ℕ} (start len : ℕ)
      → exec from ≡ some (start, len)
      → IsHit exec (start + len) i
      → IsHit exec from i

module _ (exec : ℕ → Option (ℕ × ℕ)) where
  covered_at-IsHit :
      (fuel from i : ℕ) (o : Option (ℕ × ℕ))
      → exec from ≡ o
      → ((next : ℕ) → is_covered i (match_from exec fuel next) ≡ true → IsHit exec next i)
      → is_covered i (match_at exec (λ next. match_from exec fuel next) o) ≡ true
      → IsHit exec from i
  unfolding match_at is_covered
  covered_at-IsHit fuel from i none e again c = cc
  covered_at-IsHit fuel from i (some (start, len)) e again c =
      elim (Bool-cases (leb start i && ltb i (start + len))) [
        | inl t ↦ within start len e (ground (arith, t)) (ground (arith, t))
        | inr f ↦ behind start len e (again (start + len) (ground (arith, f, c)))
      ]

  covered-IsHit :
      (fuel from i : ℕ) → is_covered i (match_from exec fuel from) ≡ true → IsHit exec from i
  unfolding match_from is_covered
  covered-IsHit zero from i c = cc
  covered-IsHit (suc fuel) from i c =
      covered_at-IsHit fuel from i (exec from) refl (λ next. covered-IsHit fuel next i) c

  match_from-found :
      (fuel from start len : ℕ)
      → exec from ≡ some (start, len)
      → match_from exec (suc fuel) from ≡ (start, start + len) ∷ match_from exec fuel (start + len)
  unfolding match_from match_at
  match_from-found fuel from start len e = ap (match_at exec (λ next. match_from exec fuel next)) e

  IsHit-covered :
      (line : Text) (fuel from i : ℕ)
      → Finds exec line
      → length line ≤ from + fuel
      → IsHit exec from i
      → is_covered i (match_from exec fuel from) ≡ true
  unfolding is_covered
  IsHit-covered line zero from i finds le (within start len e a b) =
      let (ahead, some_units, stays) = finds from start len e in
      absurd (omega (arith, le, ahead, some_units, stays))
  IsHit-covered line zero from i finds le (behind start len e h) =
      let (ahead, some_units, stays) = finds from start len e in
      absurd (omega (arith, le, ahead, some_units, stays))
  IsHit-covered line (suc fuel) from i finds le (within start len e a b) =
      ap (is_covered i) (match_from-found fuel from start len e) ∙ ground (arith, a, b)
  IsHit-covered line (suc fuel) from i finds le (behind start len e h) =
      let (ahead, some_units, stays) = finds from start len e in
      ap (is_covered i) (match_from-found fuel from start len e)
      ∙ ground (
        arith,
        IsHit-covered line fuel (start + len) i finds (omega (arith, le, ahead, some_units)) h,
      )

  pub match_ranges-IsHit :
      (line : Text)
      → Finds exec line
      → (i : ℕ) → (is_covered i (match_ranges exec line) ≡ true) ↔ IsHit exec 0 i
  unfolding match_ranges
  match_ranges-IsHit line finds i = (
    covered-IsHit (length line + 1) 0 i,
    IsHit-covered line (length line + 1) 0 i finds (omega arith),
  )
