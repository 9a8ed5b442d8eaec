-- ===== src/LogLines/Hits.antt =====
-- `matchRanges` of web/src/utils/logSearch.ts. `exec` is what the expression of a query finds in the line
-- from an index on: the start and the length of a match. The loop is on fuel, for which one more than
-- the length of the line is enough.
use kube_console.Shared.{
  ℕ, zero, suc, ◌+◌, ◌≤◌, ◌<◌, ◌≡◌, refl, sym, ap, true, List, [], ◌∷◌, Option, none, some, arith,
  length,
}
use kube_console.Shared.Text.{Text}
use kube_console.LogLines.Painted.{ascends}

module _ (exec : ℕ → Option (ℕ × ℕ)) where
  -- A round with what was found; `again` goes on behind the match.
  unfoldable pub match_at : (ℕ → List (ℕ × ℕ)) → Option (ℕ × ℕ) → List (ℕ × ℕ)
  match_at again none = []
  match_at again (some (start, len)) = (start, start + len) ∷ again (start + len)

  unfoldable pub match_from : ℕ → ℕ → List (ℕ × ℕ)
  match_from zero last_index = []
  match_from (suc fuel) last_index = match_at (λ next. match_from fuel next) (exec last_index)

  -- `matchRanges(q, line)`
  unfoldable pub match_ranges : Text → List (ℕ × ℕ)
  match_ranges line = match_from (length line + 1) 0

  -- A match stands behind the index in the line, and is not empty.
  abbrev pub Finds : Text → Type 0
  Finds line =
      (i start len : ℕ)
      → exec i ≡ some (start, len)
      → (i ≤ start) × (0 < len) × (start + len ≤ length line)

  ascends-match_at :
      (again : ℕ → List (ℕ × ℕ)) (i : ℕ) (o : Option (ℕ × ℕ))
      → ((start len : ℕ) → o ≡ some (start, len) → (i ≤ start) × (0 < len))
      → ((next : ℕ) → ascends next (again next) ≡ true)
      → ascends i (match_at again o) ≡ true
  unfolding match_at ascends
  ascends-match_at again i none finds up = refl
  ascends-match_at again i (some (start, len)) finds up =
      let (le, pos) = finds start len refl in ground (arith, le, pos, up (start + len))

  ascends-match_from :
      (line : Text) (fuel i : ℕ) → Finds line → ascends i (match_from fuel i) ≡ true
  unfolding match_from ascends
  ascends-match_from line zero i finds = refl
  ascends-match_from line (suc fuel) i finds =
      ascends-match_at (λ next. match_from fuel next) i (exec i)
        (λ start len e. let (le, pos, stays) = finds i start len e in (le, pos))
        (λ next. ascends-match_from line fuel next finds)

  pub ascends-match_ranges : (line : Text) → Finds line → ascends 0 (match_ranges line) ≡ true
  unfolding match_ranges
  ascends-match_ranges line finds = ascends-match_from line (length line + 1) 0 finds

  match_at-agrees :
      (again more : ℕ → List (ℕ × ℕ)) (i : ℕ) (o : Option (ℕ × ℕ))
      → ((start len : ℕ) → o ≡ some (start, len) → again (start + len) ≡ more (start + len))
      → match_at again o ≡ match_at more o
  unfolding match_at
  match_at-agrees again more i none same = refl
  match_at-agrees again more i (some (start, len)) same =
      ap (λ r. (start, start + len) ∷ r) (same start len refl)

  nothing_behind :
      (line : Text) (again : ℕ → List (ℕ × ℕ)) (i : ℕ) (o : Option (ℕ × ℕ))
      → ((start len : ℕ)
          → o ≡ some (start, len)
          → (i ≤ start) × (0 < len) × (start + len ≤ length line))
      → length line ≤ i
      → match_at again o ≡ []
  unfolding match_at
  nothing_behind line again i none finds le = refl
  nothing_behind line again i (some (start, len)) finds le =
      let (from, pos, stays) = finds start len refl in absurd (omega (arith, from, pos, stays, le))

  match_from-agrees :
      (line : Text) (fuel total i : ℕ)
      → Finds line
      → length line ≤ i + fuel
      → fuel ≤ total
      → match_from fuel i ≡ match_from total i
  unfolding match_from
  match_from-agrees line zero zero i finds le ft = refl
  match_from-agrees line zero (suc total) i finds le ft =
      sym (
        nothing_behind line (λ next. match_from total next) i (exec i) (finds i)
          (omega (arith, le)))
  match_from-agrees line (suc fuel) zero i finds le ft = absurd (omega (arith, ft))
  match_from-agrees line (suc fuel) (suc total) i finds le ft =
      match_at-agrees (λ next. match_from fuel next) (λ next. match_from total next) i (exec i)
        (λ start len e.
          let (from, pos, stays) = finds i start len e in
          match_from-agrees line fuel total (start + len) finds (omega (arith, le, from, pos))
            (omega (arith, ft)))

  -- More fuel finds no more.
  pub match_ranges-agrees :
      (line : Text) (fuel : ℕ)
      → Finds line
      → length line < fuel
      → match_from fuel 0 ≡ match_ranges line
  unfolding match_ranges
  match_ranges-agrees line fuel finds lt =
      sym (match_from-agrees line (length line + 1) fuel 0 finds (omega arith) (omega (arith, lt)))
