-- ===== src/Preferences/Pinned.antt =====
-- web/src/stores/preferences.ts: what moving a pinned resource does to the list.
use kube_console.Shared.{
  ℕ, zero, suc, ◌+◌, ◌≤◌, ◌<◌, ◌≡◌, refl, sym, ap, ◌∙◌, true, false, not, List, [], ◌∷◌, Option,
  none, some, String, arith, ◌==◌, str_eq, length, filter, ◌⊎◌, Bool-cases, inl, inr, eq_refl,
}
use kube_console.Preferences.Store.{
  UserPreferences, index_of, one_further, remove_at, insert_at, moved, move_pinned,
}

-- The pinned resources but one.
unfoldable pub others : String → List String → List String
others id ss = filter (λ s. not (str_eq s id)) ss

further : (o : Option ℕ) (i : ℕ) → one_further o ≡ some i → (j : ℕ) × (i ≡ suc j) × (o ≡ some j)
further none i e = cc
further (some j) i e = (j, ground (arith, e), refl)

-- Where the first of a list is, or is not, what is looked for.
found_cases :
    (id s : String) (ss : List String) (i : ℕ)
    → index_of id (s ∷ ss) ≡ some i
    → ((str_eq s id ≡ true) × (i ≡ 0))
      ⊎ ((str_eq s id ≡ false) × ((j : ℕ) × (i ≡ suc j) × (index_of id ss ≡ some j)))
unfolding index_of
found_cases id s ss i e = elim (Bool-cases (str_eq s id)) [
  | inl t ↦ inl (t, ground (arith, t, e))
  | inr f ↦ inr (f, further (index_of id ss) i (sym (simp f refl) ∙ e))
]

index_of-length : (id : String) (ss : List String) (i : ℕ) → index_of id ss ≡ some i → i < length ss
unfolding index_of
index_of-length id [] i e = cc
index_of-length id (s ∷ ss) i e = elim (found_cases id s ss i e) [
  | inl (t, z) ↦ omega (arith, z)
  | inr (f, (j, z, h)) ↦ omega (arith, z, index_of-length id ss j h)
]

others-remove_at :
    (id : String) (ss : List String) (i : ℕ)
    → index_of id ss ≡ some i
    → others id (remove_at i ss) ≡ others id ss
unfolding index_of remove_at others
others-remove_at id [] i e = cc
others-remove_at id (s ∷ ss) i e = elim (found_cases id s ss i e) [
  | inl (t, z) ↦ rw z (simp t refl)
  | inr (f, (j, z, h)) ↦ rw z (simp f (ap (λ l. s ∷ l) (others-remove_at id ss j h)))
]

others-insert_at :
    (id : String) (i : ℕ) (ss : List String) → others id (insert_at i id ss) ≡ others id ss
unfolding insert_at others
others-insert_at id i [] = ground (arith, eq_refl id)
others-insert_at id zero (s ∷ ss) = ground (arith, eq_refl id)
others-insert_at id (suc i) (s ∷ ss) = ground (arith, others-insert_at id i ss)

unshifted : (o : Option ℕ) → one_further o ≡ none → o ≡ none
unshifted none e = refl
unshifted (some i) e = cc

index_of-insert_at :
    (id : String) (i : ℕ) (ss : List String)
    → index_of id ss ≡ none
    → i ≤ length ss
    → index_of id (insert_at i id ss) ≡ some i
unfolding index_of insert_at
index_of-insert_at id zero [] e le = ground (arith, eq_refl id)
index_of-insert_at id (suc i) [] e le = absurd (omega (arith, le))
index_of-insert_at id zero (s ∷ ss) e le = ground (arith, eq_refl id)
index_of-insert_at id (suc i) (s ∷ ss) e le = elim (Bool-cases (str_eq s id)) [
  | inl t ↦ absurd (taken t)
  | inr f ↦ simp f (ap one_further (index_of-insert_at id i ss (later f) (omega (arith, le))))
]
  where
    taken : str_eq s id ≡ true → ⊥
    taken t = ground (arith, t, e)

    later : str_eq s id ≡ false → index_of id ss ≡ none
    later f = unshifted (index_of id ss) (sym (simp f refl) ∙ e)

length-remove_at :
    (i : ℕ) (ss : List String) → i < length ss → length (remove_at i ss) + 1 ≡ length ss
unfolding remove_at
length-remove_at i [] lt = absurd (omega (arith, lt))
length-remove_at zero (s ∷ ss) lt = omega arith
length-remove_at (suc i) (s ∷ ss) lt = omega (arith, length-remove_at i ss (omega (arith, lt)))

moved_places :
    (source : String) (ss : List String) (from to : ℕ)
    → index_of source ss ≡ some from
    → to < length ss
    → index_of source (remove_at from ss) ≡ none
    → let after = moved (some from) (some to) source ss in
      (index_of source after ≡ some to) × (others source after ≡ others source ss)
unfolding moved
moved_places source ss from to e lt once = elim (Bool-cases (from == to)) [
  | inl t ↦ let same : from ≡ to = ground (arith, t) in simp t (e ∙ ap some same, refl)
  | inr f ↦ simp f (
    index_of-insert_at source to (remove_at from ss) once
        (omega (arith, lt, length-remove_at from ss (index_of-length source ss from e))),
    others-insert_at source to (remove_at from ss) ∙ others-remove_at source ss from e,
  )
]

-- Moving a pinned resource, pinned once, to another one: it takes the position that the other one had,
-- and the order of all others, none of them lost or doubled, stays as it was.
pub move_pinned_places :
    (source target : String) (p : UserPreferences) (from to : ℕ)
    → index_of source p.pinned_resources ≡ some from
    → index_of target p.pinned_resources ≡ some to
    → index_of source (remove_at from p.pinned_resources) ≡ none
    → let after = (move_pinned source target p).pinned_resources in
      (index_of source after ≡ some to) × (others source after ≡ others source p.pinned_resources)
unfolding move_pinned
move_pinned_places source target p from to e g once =
    let (at_place, kept) =
      moved_places source p.pinned_resources from to e
        (index_of-length target p.pinned_resources to g) once in
    rw (e, g) (at_place, kept)
