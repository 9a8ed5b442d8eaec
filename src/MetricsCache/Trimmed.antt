-- ===== src/MetricsCache/Trimmed.antt =====
-- web/src/utils/metricsCache.ts: what `evict` drops.
use kube_console.Shared.{
  ℕ, zero, suc, ◌≤◌, ◌<◌, ◌≡◌, ◌≢◌, refl, sym, ◌∙◌, Bool, true, false, List, [], ◌∷◌, Option, none,
  some, arith, String, str_eq, eq_iff, eq_refl, ltb, length, All, Bool-cases, inl, inr, ◌⊎◌,
}
use kube_console.Shared.Maps.{Dict, lookup, erase, keys, lookup-erase_ne, length-erase-le}
use kube_console.RingBuffer.Series.{Ring}
use kube_console.MetricsCache.Cache.{
  max_scopes, last_at, is_protected, is_older, victim_key, consider, find_victim, drop_victim, trim,
}

-- The key is one of the dictionary's.
abbrev pub HasKey : String → List String → Type 0
HasKey key [] = ⊥
HasKey key (k ∷ ks) = (k ≡ key) ⊎ HasKey key ks

-- What the victim so far may be after an entry.
abbrev IsNext : Bool → String → Option (String × ℕ) → Option (String × ℕ) → Type 0
IsNext protected key best next =
    (next ≡ best) ⊎ ((protected ≡ false) × (victim_key next ≡ some key))

consider-some :
    (p : Bool) (key : String) (last : Option ℕ) (best : Option (String × ℕ))
    (go_on : Option (String × ℕ) → Option String) (v : String)
    → consider p key last best go_on ≡ some v
    → ((p ≡ false) × (key ≡ v))
      ⊎ ((next : Option (String × ℕ)) × (go_on next ≡ some v) × IsNext p key best next)
unfolding consider
consider-some true key last best go_on v e = inr (best, e, inl refl)
consider-some false key none best go_on v e = inl (refl, cc)
consider-some false key (some last) best go_on v e = elim (Bool-cases (is_older last best)) [
  | inl t ↦ inr (some (key, last), rw t at e, inr (refl, refl))
  | inr f ↦ inr (best, rw f at e, inl refl)
]

consider-none :
    (p : Bool) (key : String) (last : Option ℕ) (best : Option (String × ℕ))
    (go_on : Option (String × ℕ) → Option String)
    → consider p key last best go_on ≡ none
    → (next : Option (String × ℕ)) × (go_on next ≡ none)
      × ((p ≡ true) × (next ≡ best) ⊎ (next ≢ none))
unfolding consider is_older
consider-none true key last best go_on e = (best, e, inl (refl, refl))
consider-none false key none best go_on e = cc
consider-none false key (some last) none go_on e = (some (key, last), e, inr (λ h. cc))
consider-none false key (some last) (some (v, w)) go_on e = elim (Bool-cases (ltb last w)) [
  | inl t ↦ (some (key, last), rw t at e, inr (λ h. cc))
  | inr f ↦ (some (v, w), rw f at e, inr (λ h. cc))
]

module _ {ℓ} {V : Type ℓ} where
  -- A victim is one of the keys, and not protected.
  find_victim-some :
      (protect : List String) (heap : List (Ring V)) (best : Option (String × ℕ)) (d : Dict ℕ)
      (v : String)
      → find_victim protect heap best d ≡ some v
      → (victim_key best ≡ some v) ⊎ (HasKey v (keys d) × (is_protected protect v ≡ false))
  unfolding find_victim
  find_victim-some protect heap best [] v e = inl e
  find_victim-some protect heap best ((key, address) ∷ rest) v e =
      elim (consider-some (is_protected protect key) key (last_at heap address) best _ v e) [
        | inl (free, same) ↦ inr (inl same, rw (← same) free)
        | inr (next, e', n) ↦ elim (find_victim-some protect heap next rest v e') [
          | inr (has, free) ↦ inr (inr has, free)
          | inl it ↦ elim n [
            | inl same ↦ inl (rw (← same) it)
            | inr (free, key_of) ↦ (let same : key ≡ v = cc in inr (inl same, rw (← same) free))
          ]
        ]
      ]

  -- With no victim all keys are protected.
  find_victim-none :
      (protect : List String) (heap : List (Ring V)) (best : Option (String × ℕ)) (d : Dict ℕ)
      → find_victim protect heap best d ≡ none
      → (best ≡ none) × All (λ key. is_protected protect key ≡ true) (keys d)
  unfolding find_victim
  find_victim-none protect heap none [] e = (refl, tt)
  find_victim-none protect heap (some b) [] e = cc
  find_victim-none protect heap best ((key, address) ∷ rest) e =
      let (next, e', why) =
        consider-none (is_protected protect key) key (last_at heap address) best _ e in
      let (empty_next, all_rest) = find_victim-none protect heap next rest e' in
      elim why [
        | inl (guarded, same) ↦ (sym same ∙ empty_next, (guarded, all_rest))
        | inr other ↦ absurd (other empty_next)
      ]

length-erase-lt :
    (key : String) (d : Dict ℕ) → HasKey key (keys d) → length (erase key d) < length d
unfolding erase
length-erase-lt key [] h = absurd h
length-erase-lt key ((k, a) ∷ rest) h = elim (Bool-cases (str_eq k key)) [
  | inl t ↦ simp t (omega (arith, length-erase-le key rest))
  | inr f ↦ elim h [
    | inl same ↦ cc ((eq_iff k key).1 same)
    | inr has ↦ simp f (omega (arith, length-erase-lt key rest has))
  ]
]

All-erase {κ} :
    (P : String × ℕ → Type κ) (key : String) (d : Dict ℕ) → All P d → All P (erase key d)
unfolding erase
All-erase P key [] h = tt
All-erase P key ((k, a) ∷ rest) (p, h) = elim (Bool-cases (str_eq k key)) [
  | inl t ↦ simp t (All-erase P key rest h)
  | inr f ↦ simp f (p, All-erase P key rest h)
]

-- Within the limit, unless all that is left is protected.
abbrev pub IsTrimmed : List String → Dict ℕ → Type 0
IsTrimmed protect d =
    (length d ≤ max_scopes) ⊎ All (λ key. is_protected protect key ≡ true) (keys d)

All-round {κ} :
    (P : String × ℕ → Type κ) (o : Option String) (d : Dict ℕ) (next_round : Dict ℕ → Dict ℕ)
    → All P d
    → ((left : Dict ℕ) → All P left → All P (next_round left))
    → All P (drop_victim o d next_round)
unfolding drop_victim
All-round P none d next_round h ih = h
All-round P (some v) d next_round h ih = ih (erase v d) (All-erase P v d h)

-- Each key is bound to the address beside it.
abbrev pub AreBound : Dict ℕ → List String → List ℕ → Type 0
AreBound d [] [] = Unit
AreBound d (key ∷ keys) (a ∷ places) = (lookup key d ≡ some a) × AreBound d keys places
AreBound d _ _ = ⊥

is_protected_more :
    (j k : String) (ks : List String) → is_protected ks k ≡ true → is_protected (j ∷ ks) k ≡ true
unfolding is_protected
is_protected_more j k ks h = ground arith

All-protected_more :
    (j : String) (ks protect : List String)
    → All (λ key. is_protected protect key ≡ true) ks
    → All (λ key. is_protected (j ∷ protect) key ≡ true) ks
All-protected_more j [] protect h = tt
All-protected_more j (k ∷ ks) protect (p, h) =
    (is_protected_more j k protect p, All-protected_more j ks protect h)

pub All-protected : (ks : List String) → All (λ key. is_protected ks key ≡ true) ks
unfolding is_protected
All-protected [] = tt
All-protected (k ∷ ks) = (ground (arith, eq_refl k), All-protected_more k ks ks (All-protected ks))

module _ {ℓ} {V : Type ℓ} where
  -- What one round of the second loop leaves, with or without a victim.
  round_keeps :
      (protect : List String) (heap : List (Ring V)) (d : Dict ℕ) (o : Option String)
      (next_round : Dict ℕ → Dict ℕ) (key : String)
      → find_victim protect heap none d ≡ o
      → is_protected protect key ≡ true
      → ((left : Dict ℕ) → lookup key (next_round left) ≡ lookup key left)
      → lookup key (drop_victim o d next_round) ≡ lookup key d
  unfolding drop_victim
  round_keeps protect heap d none next_round key e p ih = refl
  round_keeps protect heap d (some v) next_round key e p ih =
      ih (erase v d) ∙ elim (Bool-cases (str_eq v key)) [
        | inl t ↦ elim (find_victim-some protect heap none d v e) [
          | inl it ↦ cc
          | inr (has, free) ↦
              (let same : v ≡ key = (eq_iff v key).0 t in
                let guarded : is_protected protect v ≡ true = rw same p in cc)
        ]
        | inr f ↦ lookup-erase_ne d v key f
      ]

  pub trim_keeps :
      (fuel : ℕ) (protect : List String) (heap : List (Ring V)) (d : Dict ℕ) (key : String)
      → is_protected protect key ≡ true
      → lookup key (trim fuel protect heap d) ≡ lookup key d
  unfolding trim
  trim_keeps zero protect heap d key p = refl
  trim_keeps (suc fuel) protect heap d key p = elim (Bool-cases (ltb max_scopes (length d))) [
    | inl t ↦ simp t (
        round_keeps protect heap d _ _ key refl p (λ left. trim_keeps fuel protect heap left key p))
    | inr f ↦ simp f refl
  ]

  round_trims :
      (fuel : ℕ) (protect : List String) (heap : List (Ring V)) (d : Dict ℕ) (o : Option String)
      (next_round : Dict ℕ → Dict ℕ)
      → find_victim protect heap none d ≡ o
      → length d ≤ suc fuel
      → ((left : Dict ℕ) → length left ≤ fuel → IsTrimmed protect (next_round left))
      → IsTrimmed protect (drop_victim o d next_round)
  unfolding drop_victim
  round_trims fuel protect heap d none next_round e h ih =
      inr (find_victim-none protect heap none d e).1
  round_trims fuel protect heap d (some v) next_round e h ih =
      elim (find_victim-some protect heap none d v e) [
        | inl it ↦ cc
        | inr (has, free) ↦ ih (erase v d) (omega (arith, length-erase-lt v d has))
      ]

  -- A round for each entry is enough.
  pub trim_trims :
      (fuel : ℕ) (protect : List String) (heap : List (Ring V)) (d : Dict ℕ)
      → length d ≤ fuel
      → IsTrimmed protect (trim fuel protect heap d)
  unfolding trim
  trim_trims zero protect heap d h = inl (omega arith)
  trim_trims (suc fuel) protect heap d h = elim (Bool-cases (ltb max_scopes (length d))) [
    | inl t ↦
        simp t (
          round_trims fuel protect heap d _ _ refl h
            (λ left k. trim_trims fuel protect heap left k))
    | inr f ↦ simp f (inl (ground arith))
  ]

  pub All-trim {κ} :
      (P : String × ℕ → Type κ) (fuel : ℕ) (protect : List String) (heap : List (Ring V))
      (d : Dict ℕ)
      → All P d
      → All P (trim fuel protect heap d)
  unfolding trim
  All-trim P zero protect heap d h = h
  All-trim P (suc fuel) protect heap d h = elim (Bool-cases (ltb max_scopes (length d))) [
    | inl t ↦ simp t (All-round P _ d _ h (λ left k. All-trim P fuel protect heap left k))
    | inr f ↦ simp f h
  ]
