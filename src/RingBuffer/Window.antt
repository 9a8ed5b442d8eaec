-- ===== src/RingBuffer/Window.antt =====
-- web/src/utils/ringBuffer.ts: the window that `toUplotData` cuts.
use native.Mathlib.Numerals.{add-one}
use kube_console.Shared.{
  ℕ, zero, suc, ◌+◌, ◌-◌, ◌*◌, ◌≤◌, ◌<◌, ◌≡◌, refl, ap, ◌∙◌, true, false, List, [], ◌∷◌, ◌++◌, map,
  some, arith, leb, ltb, length, last?, take, drop, All, leb→le, lt→ltb, Bool-cases, inl, inr,
}
use kube_console.Shared.Maps.{Dict}
use kube_console.RingBuffer.History.{IsAligned, push_refuses, push_accepts, push-IsAligned}
use kube_console.RingBuffer.Replay.{push_all, empty-IsAligned}
use kube_console.RingBuffer.Series.{
  Ring, empty, is_old, push, find_from, start_from, window_start, to_uplot_data,
}

-- Timestamps that grow.
abbrev pub IsAscending : List ℕ → Type 0
IsAscending [] = Unit
IsAscending (t ∷ []) = Unit
IsAscending (t ∷ u ∷ ts) = (t < u) × IsAscending (u ∷ ts)

All-le : (c t : ℕ) (ts : List ℕ) → c ≤ t → IsAscending (t ∷ ts) → All (λ u. c ≤ u) (t ∷ ts)
All-le c t [] h a = (h, tt)
All-le c t (u ∷ ts) h (lt, a) = (h, All-le c u ts (omega arith) a)

take-suc {ℓ} : {A : Type ℓ} (n : ℕ) (x : A) (xs : List A) → take (n + 1) (x ∷ xs) ≡ x ∷ take n xs
take-suc n x xs = ap (λ k. take k (x ∷ xs)) (add-one n)

drop-suc {ℓ} : {A : Type ℓ} (n : ℕ) (x : A) (xs : List A) → drop (n + 1) (x ∷ xs) ≡ drop n xs
drop-suc n x xs = ap (λ k. drop k (x ∷ xs)) (add-one n)

leb-lt : (c t : ℕ) → leb c t ≡ false → t < c
leb-lt c t e = ground arith

tail-IsAscending : (t : ℕ) (ts : List ℕ) → IsAscending (t ∷ ts) → IsAscending ts
tail-IsAscending t [] a = tt
tail-IsAscending t (u ∷ ts) (h, a) = a

find_from-older : (c : ℕ) (ts : List ℕ) → All (λ u. u < c) (take (find_from c ts) ts)
unfolding find_from
find_from-older c [] = tt
find_from-older c (t ∷ ts) = elim (Bool-cases (leb c t)) [
  | inl e ↦ simp e tt
  | inr e ↦ simp (e, take-suc) (leb-lt c t e, find_from-older c ts)
]

find_from-newer :
    (c : ℕ) (ts : List ℕ) → IsAscending ts → All (λ u. c ≤ u) (drop (find_from c ts) ts)
unfolding find_from
find_from-newer c [] a = tt
find_from-newer c (t ∷ ts) a = elim (Bool-cases (leb c t)) [
  | inl e ↦ simp e (All-le c t ts (leb→le c t e) a)
  | inr e ↦ simp (e, drop-suc) (find_from-newer c ts (tail-IsAscending t ts a))
]

find_from-lt :
    (c last : ℕ) (ts : List ℕ) → last? ts ≡ some last → c ≤ last → find_from c ts < length ts
unfolding find_from
find_from-lt c last [] e h = cc
find_from-lt c last (t ∷ []) e h = ground arith
find_from-lt c last (t ∷ u ∷ ts) e h = ground (arith, find_from-lt c last (u ∷ ts) e h)

start_found :
    (range last : ℕ) (ts : List ℕ)
    → last? ts ≡ some last
    → ltb (find_from (last - range * 1000) ts) (length ts) ≡ true
    → start_from range ts (last? ts) ≡ find_from (last - range * 1000) ts
unfolding start_from
start_found range last ts e found = ap (start_from range ts) e ∙ (simp found refl)

All-map {ℓ} :
    {A : Type ℓ} {P Q : A → Type 0} (xs : List A) → ((x : A) → P x → Q x) → All P xs → All Q xs
All-map [] f h = tt
All-map (x ∷ xs) f (p, h) = (f x p, All-map xs f h)

IsAscending-concat :
    (ts : List ℕ) (t : ℕ)
    → IsAscending ts
    → is_old t (last? ts) ≡ false
    → IsAscending (ts ++ t ∷ [])
unfolding is_old
IsAscending-concat [] t a e = tt
IsAscending-concat (x ∷ []) t a e = (ground arith, tt)
IsAscending-concat (x ∷ y ∷ ts) t (h, a) e = (h, IsAscending-concat (y ∷ ts) t a e)

IsAscending-drop : (n : ℕ) (ts : List ℕ) → IsAscending ts → IsAscending (drop n ts)
IsAscending-drop zero ts a = a
IsAscending-drop (suc n) [] a = tt
IsAscending-drop (suc n) (t ∷ ts) a = IsAscending-drop n ts (tail-IsAscending t ts a)

module _ {ℓ} {V : Type ℓ} where
  push-IsAscending :
      (t : ℕ) (values : Dict V) (b : Ring V)
      → IsAligned b
      → IsAscending b.timestamps
      → IsAscending (push t values b).0.timestamps
  push-IsAscending t values b v a = elim (Bool-cases (is_old t (last? b.timestamps))) [
    | inl old ↦ rw (push_refuses t values b old) a
    | inr new ↦
        rw (push_accepts t values b v new).0
          (IsAscending-drop _ _ (IsAscending-concat b.timestamps t a new))
  ]

  push_all-IsAscending :
      (samples : List (ℕ × Dict V)) (b : Ring V)
      → IsAligned b
      → IsAscending b.timestamps
      → IsAscending (push_all samples b).timestamps
  push_all-IsAscending [] b v a = a
  push_all-IsAscending ((t, values) ∷ samples) b v a =
      push_all-IsAscending samples (push t values b).0 (push-IsAligned t values b v)
        (push-IsAscending t values b v a)

  -- In a buffer filled by any series of pushes, whose newest timestamp is `last`, the window of some
  -- seconds leaves out exactly timestamps that are further back, keeps all others, and cuts every
  -- series at the same place.
  pub window_is_recent {κ} :
      {X : Type κ} (to_seconds : ℕ → X) (range last : ℕ) (samples : List (ℕ × Dict V))
      → last? (push_all samples empty).timestamps ≡ some last
      → let b = push_all samples empty in
        (from : ℕ) × (to_uplot_data to_seconds (some range) b
          ≡ (map to_seconds (drop from b.timestamps), map (λ e. drop from e.1) b.series))
        × All (λ t. t + range * 1000 < last) (take from b.timestamps)
        × All (λ t. last ≤ t + range * 1000) (drop from b.timestamps)
  unfolding to_uplot_data window_start
  window_is_recent to_seconds range last samples e =
      let b = push_all samples empty in
      let c = last - range * 1000 in
      let found : ltb (find_from c b.timestamps) (length b.timestamps) ≡ true =
        lt→ltb _ _ (find_from-lt c last b.timestamps e (omega arith)) in
      let ascending = push_all-IsAscending samples empty empty-IsAligned tt in
      (
        find_from c b.timestamps,
        ap (λ n. (map to_seconds (drop n b.timestamps), map (λ e. drop n e.1) b.series))
            (start_found range last b.timestamps e found),
        All-map _ (λ t h. omega arith) (find_from-older c b.timestamps),
        All-map _ (λ t h. omega arith) (find_from-newer c b.timestamps ascending),
      )
