-- ===== src/RingBuffer/Replay.antt =====
-- web/src/utils/ringBuffer.ts: what a series of pushes leaves, against the list of accepted samples.
use kube_console.Shared.{
  ℕ, zero, suc, ◌-◌, ◌≤◌, ◌≡◌, refl, ap, ◌∙◌, false, List, [], ◌∷◌, ◌++◌, map, Option, none, some,
  arith, String, if◌then◌else◌, length, last?, drop, keep_last, append_assoc, append-nil,
  length-append, keep_last-append, Bool-cases, inl, inr,
}
use kube_console.Shared.Maps.{Dict, lookup}
use kube_console.RingBuffer.Series.{Ring, max_samples, empty, is_old, push}
use kube_console.RingBuffer.History.{column, IsAligned, push_refuses, push_accepts, push-IsAligned}

last?-drop-append :
    (k : ℕ) (ts : List ℕ) (t : ℕ) → k ≤ length ts → last? (drop k (ts ++ t ∷ [])) ≡ some t
last?-drop-append zero [] t h = refl
last?-drop-append zero (x ∷ []) t h = refl
last?-drop-append zero (x ∷ y ∷ ts) t h = last?-drop-append zero (y ∷ ts) t (omega arith)
last?-drop-append (suc k) [] t h = absurd (omega arith)
last?-drop-append (suc k) (x ∷ ts) t h = last?-drop-append k ts t (omega arith)

module _ {ℓ} {V : Type ℓ} where
  -- The samples that are newer than all accepted before them, of which `last` is the latest.
  abbrev pub accepted : Option ℕ → List (ℕ × Dict V) → List (ℕ × Dict V)
  accepted last [] = []
  accepted last ((t, values) ∷ samples) =
      let rest = accepted (if is_old t last then last else some t) samples in
      if is_old t last then rest else (t, values) ∷ rest

  -- A series of calls of `push`.
  abbrev pub push_all : List (ℕ × Dict V) → Ring V → Ring V
  push_all [] b = b
  push_all ((t, values) ∷ samples) b = push_all samples (push t values b).0

  abbrev pub times : List (ℕ × Dict V) → List ℕ
  times = map λ s. s.0

  abbrev pub values_of : String → List (ℕ × Dict V) → List (Option V)
  values_of label = map λ s. lookup label s.1

  -- The buffer holds the last samples of `log`.
  record IsWindow (log : List (ℕ × Dict V)) (b : Ring V) : Type ℓ where
    valid : IsAligned b
    shown_times : b.timestamps ≡ keep_last max_samples (times log)
    shown_columns : (label : String) → column b label ≡ keep_last max_samples (values_of label log)

  map-concat {κ} :
      {B : Type κ} (f : ℕ × Dict V → B) (log : List (ℕ × Dict V)) (s : ℕ × Dict V)
      → map f (log ++ s ∷ []) ≡ map f log ++ f s ∷ []
  map-concat f [] s = refl
  map-concat f (x ∷ log) s = ap (λ l. f x ∷ l) (map-concat f log s)

  push-IsWindow :
      (log : List (ℕ × Dict V)) (t : ℕ) (values : Dict V) (b : Ring V)
      → IsWindow log b
      → is_old t (last? b.timestamps) ≡ false
      → IsWindow (log ++ (t, values) ∷ []) (push t values b).0
  push-IsWindow log t values b w new =
      let (ts, columns) = push_accepts t values b w.valid new in
      record {
        valid = push-IsAligned t values b w.valid;
        shown_times = rw (map-concat (λ s. s.0) log (t, values)) (
            ts
            ∙ ap (λ l. keep_last max_samples (l ++ t ∷ [])) w.shown_times
            ∙ keep_last-append max_samples (times log) (t ∷ []));
        shown_columns = λ label. rw (map-concat (λ s. lookup label s.1) log (t, values)) (
            columns label
            ∙ ap (λ l. keep_last max_samples (l ++ lookup label values ∷ []))
                (w.shown_columns label)
            ∙ keep_last-append max_samples (values_of label log) (lookup label values ∷ []));
      }

  push-latest :
      (t : ℕ) (values : Dict V) (b : Ring V)
      → IsAligned b
      → is_old t (last? b.timestamps) ≡ false
      → last? (push t values b).0.timestamps ≡ some t
  unfolding max_samples
  push-latest t values b v new = rw (push_accepts t values b v new).0 (
      last?-drop-append (length (b.timestamps ++ t ∷ []) - max_samples) b.timestamps t
        (omega (arith, length-append b.timestamps (t ∷ []))))

  push_all-IsWindow :
      (samples log : List (ℕ × Dict V)) (last : Option ℕ) (b : Ring V)
      → IsWindow log b
      → last? b.timestamps ≡ last
      → IsWindow (log ++ accepted last samples) (push_all samples b)
  push_all-IsWindow [] log last b w e = rw (append-nil log) w
  push_all-IsWindow ((t, values) ∷ samples) log last b w e = elim (Bool-cases (is_old t last)) [
    | inl old ↦
        simp (old, push_refuses t values b (rw e old)) (push_all-IsWindow samples log last b w e)
    | inr new ↦ simp new (
        rw (← append_assoc log ((t, values) ∷ []) (accepted (some t) samples)) (
          push_all-IsWindow samples (log ++ (t, values) ∷ []) (some t) (push t values b).0
            (push-IsWindow log t values b w (rw e new))
            (push-latest t values b w.valid (rw e new))))
  ]

  pub empty-IsAligned : IsAligned (empty {V = V})
  unfolding lookup
  empty-IsAligned = record { aligned = λ label. refl; bounded = omega arith }

  empty-IsWindow : IsWindow [] empty
  unfolding lookup max_samples
  empty-IsWindow = record {
    valid = empty-IsAligned;
    shown_times = refl;
    shown_columns = λ label. refl;
  }

  -- After any series of pushes on a fresh buffer, the timestamps are those of the last `max_samples`
  -- accepted samples, a sample being accepted if it is newer than all accepted before it, and the
  -- points of every label, nulls where it has never been seen, are its values in those samples.
  pub replay :
      (samples : List (ℕ × Dict V)) (label : String)
      → ((push_all samples empty).timestamps
          ≡ keep_last max_samples (times (accepted none samples)))
        × (column (push_all samples empty) label
            ≡ keep_last max_samples (values_of label (accepted none samples)))
  replay samples label =
      let w = push_all-IsWindow samples [] none empty empty-IsWindow refl in
      (w.shown_times, w.shown_columns label)
