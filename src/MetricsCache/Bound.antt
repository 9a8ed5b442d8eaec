-- ===== src/MetricsCache/Bound.antt =====
-- web/src/utils/metricsCache.ts: what `bind` leaves under the keys that it was given.
use kube_console.Shared.{
  ℕ, zero, suc, ◌<◌, ◌≡◌, refl, sym, ap, ◌∙◌, false, List, [], ◌∷◌, ◌++◌, Option, none, some, arith,
  String, str_eq, eq_iff, length, get_elem?, length-append, Bool-cases, inl, inr,
}
use kube_console.Shared.Maps.{
  lookup, insert, erase, lookup-insert_self, lookup-insert_ne, lookup-erase_ne,
}
use kube_console.RingBuffer.Series.{Ring, empty}
use kube_console.MetricsCache.Cache.{Cache, last_at, is_expired, bind_fresh, bind_found, bind}

module _ {ℓ} {V : Type ℓ} where
  -- Every address stands for a buffer.
  abbrev pub IsValid : Cache V → Type 0
  IsValid c =
      (key : String) (address : ℕ) → lookup key c.entries ≡ some address → address < length c.heap

  -- The key is bound to the address of a buffer that is not stale.
  abbrev pub IsLive : ℕ → Cache V → String → ℕ → Type 0
  IsLive now c key address =
      (lookup key c.entries ≡ some address)
      × (address < length c.heap)
      × (is_expired now (last_at c.heap address) ≡ false)

  get_elem?-append :
      (xs : List (Ring V)) (ys : List (Ring V)) (i : ℕ)
      → i < length xs
      → get_elem? (xs ++ ys) i ≡ get_elem? xs i
  get_elem?-append [] ys i h = elim h [ ]
  get_elem?-append (x ∷ xs) ys zero h = refl
  get_elem?-append (x ∷ xs) ys (suc i) h = get_elem?-append xs ys i (omega arith)

  get_elem?-length :
      (xs : List (Ring V)) (x : Ring V) → get_elem? (xs ++ x ∷ []) (length xs) ≡ some x
  get_elem?-length [] x = refl
  get_elem?-length (y ∷ xs) x = get_elem?-length xs x

  last_at-append :
      (xs ys : List (Ring V)) (i : ℕ) → i < length xs → last_at (xs ++ ys) i ≡ last_at xs i
  unfolding last_at
  last_at-append xs ys i h = rw (get_elem?-append xs ys i h, last_at) refl

  last_at-length : (xs : List (Ring V)) → last_at (xs ++ empty ∷ []) (length xs) ≡ none
  unfolding last_at
  last_at-length xs = rw (get_elem?-length xs empty, last_at) refl

  bind_fresh-IsLive :
      (now : ℕ) (key : String) (c : Cache V)
      → IsLive now (bind_fresh key c).1 key (bind_fresh key c).0
  unfolding bind_fresh is_expired
  bind_fresh-IsLive now key c = (
    lookup-insert_self c.entries key (length c.heap),
    omega (arith, length-append c.heap (empty ∷ [])),
    rw (last_at-length c.heap) refl,
  )

  bind_fresh_keeps :
      (now : ℕ) (key k : String) (a : ℕ) (c : Cache V)
      → str_eq key k ≡ false
      → IsLive now c k a
      → IsLive now (bind_fresh key c).1 k a
  unfolding bind_fresh
  bind_fresh_keeps now key k a c other (found, valid, live) = (
    lookup-insert_ne c.entries key (length c.heap) k other ∙ found,
    omega (arith, length-append c.heap (empty ∷ [])),
    rw (last_at-append c.heap (empty ∷ []) a valid) live,
  )

  bind_found-IsLive :
      (now : ℕ) (key : String) (o : Option ℕ) (c : Cache V)
      → IsValid c
      → lookup key c.entries ≡ o
      → IsLive now (bind_found now key o c).1 key (bind_found now key o c).0
  unfolding bind_found
  bind_found-IsLive now key none c v e = bind_fresh-IsLive now key c
  bind_found-IsLive now key (some a) c v e = elim (Bool-cases (is_expired now (last_at c.heap a))) [
    | inl t ↦ simp t (bind_fresh-IsLive now key c)
    | inr f ↦ simp f (lookup-insert_self (erase key c.entries) key a, v key a e, refl)
  ]

  -- A key that was just bound is live.
  pub bind-IsLive :
      (now : ℕ) (key : String) (c : Cache V)
      → IsValid c
      → IsLive now (bind now key c).1 key (bind now key c).0
  unfolding bind
  bind-IsLive now key c v = bind_found-IsLive now key (lookup key c.entries) c v refl

  bind_found_other :
      (now : ℕ) (key k : String) (a : ℕ) (o : Option ℕ) (c : Cache V)
      → str_eq key k ≡ false
      → IsLive now c k a
      → IsLive now (bind_found now key o c).1 k a
  unfolding bind_found
  bind_found_other now key k a none c other live = bind_fresh_keeps now key k a c other live
  bind_found_other now key k a (some b) c other live =
      elim (Bool-cases (is_expired now (last_at c.heap b))) [
        | inl t ↦ simp t (bind_fresh_keeps now key k a c other live)
        | inr f ↦ simp f (
          lookup-insert_ne (erase key c.entries) key b k other
              ∙ lookup-erase_ne c.entries key k other
              ∙ live.0,
          live.1,
          live.2,
        )
      ]

  bind_found_again :
      (now : ℕ) (k : String) (a : ℕ) (c : Cache V)
      → IsLive now c k a
      → ((bind_found now k (some a) c).0 ≡ a) × IsLive now (bind_found now k (some a) c).1 k a
  unfolding bind_found
  bind_found_again now k a c (found, valid, live) =
      simp live (refl, (lookup-insert_self (erase k c.entries) k a, valid, refl))

  -- A live key stays bound to its buffer, whichever key is bound next.
  pub bind_keeps :
      (now : ℕ) (key k : String) (a : ℕ) (c : Cache V)
      → IsLive now c k a
      → IsLive now (bind now key c).1 k a
  unfolding bind
  bind_keeps now key k a c live = elim (Bool-cases (str_eq key k)) [
    | inl t ↦
        (let same : key ≡ k = (eq_iff key k).0 t in
          let found : lookup key c.entries ≡ some a = rw same live.0 in
          rw (found, same) (bind_found_again now k a c live).1)
    | inr f ↦ bind_found_other now key k a (lookup key c.entries) c f live
  ]

  bind_fresh-IsValid : (key : String) (c : Cache V) → IsValid c → IsValid (bind_fresh key c).1
  unfolding bind_fresh
  bind_fresh-IsValid key c v k a e = elim (Bool-cases (str_eq key k)) [
    | inl t ↦
        (let it : some (length c.heap) ≡ some a =
            sym (rw ((eq_iff key k).0 t) (lookup-insert_self c.entries k (length c.heap))) ∙ e in
          ground (arith, length-append c.heap (empty ∷ [])))
    | inr f ↦ omega (
      arith,
      length-append c.heap (empty ∷ []),
      v k a (sym (lookup-insert_ne c.entries key (length c.heap) k f) ∙ e),
    )
  ]

  moved_entry :
      (key k : String) (a b : ℕ) (c : Cache V)
      → IsValid c
      → lookup key c.entries ≡ some b
      → lookup k (insert key b (erase key c.entries)) ≡ some a
      → a < length c.heap
  moved_entry key k a b c v e h = elim (Bool-cases (str_eq key k)) [
    | inl t ↦
        (let it : some b ≡ some a =
            sym (lookup-insert_self (erase key c.entries) key b)
            ∙ ap (λ j. lookup j (insert key b (erase key c.entries))) ((eq_iff key k).0 t)
            ∙ h in
          ground (arith, v key b e))
    | inr f ↦ v k a (
        sym (lookup-insert_ne (erase key c.entries) key b k f ∙ lookup-erase_ne c.entries key k f)
        ∙ h)
  ]

  bind_found-IsValid :
      (now : ℕ) (key : String) (o : Option ℕ) (c : Cache V)
      → IsValid c
      → lookup key c.entries ≡ o
      → IsValid (bind_found now key o c).1
  unfolding bind_found
  bind_found-IsValid now key none c v e = bind_fresh-IsValid key c v
  bind_found-IsValid now key (some b) c v e =
      elim (Bool-cases (is_expired now (last_at c.heap b))) [
        | inl t ↦ simp t (bind_fresh-IsValid key c v)
        | inr f ↦ simp f (λ k a h. moved_entry key k a b c v e h)
      ]

  pub bind-IsValid : (now : ℕ) (key : String) (c : Cache V) → IsValid c → IsValid (bind now key c).1
  unfolding bind
  bind-IsValid now key c v = bind_found-IsValid now key (lookup key c.entries) c v refl
