-- ===== src/MetricsCache/Buffers.antt =====
-- web/src/utils/metricsCache.ts: what `getMetricsBuffers` returns and leaves.
use kube_console.Shared.{
  ℕ, ◌≡◌, refl, ◌∙◌, true, false, List, [], ◌∷◌, some, arith, String, length, All, Bool-cases, inl,
  inr,
}
use kube_console.Shared.Maps.{Dict, lookup, keys}
use kube_console.RingBuffer.Series.{Ring}
use kube_console.MetricsCache.Cache.{
  Cache, last_at, is_expired, bind, bind_all, drop_expired, is_protected, evict,
  get_metrics_buffers,
}
use kube_console.MetricsCache.Bound.{IsValid, IsLive, bind-IsLive, bind_keeps, bind-IsValid}
use kube_console.MetricsCache.Trimmed.{
  AreBound, IsTrimmed, All-protected, All-trim, trim_keeps, trim_trims,
}

module _ {ℓ} {V : Type ℓ} where
  -- The entry is not stale.
  abbrev pub IsKept : ℕ → List (Ring V) → String × ℕ → Type 0
  IsKept now heap (key, address) = is_expired now (last_at heap address) ≡ false

  drop_expired-All :
      (now : ℕ) (heap : List (Ring V)) (d : Dict ℕ)
      → All (IsKept now heap) (drop_expired now heap d)
  unfolding drop_expired
  drop_expired-All now heap [] = tt
  drop_expired-All now heap ((key, address) ∷ rest) =
      elim (Bool-cases (is_expired now (last_at heap address))) [
        | inl t ↦ simp t (drop_expired-All now heap rest)
        | inr f ↦ simp f (refl, drop_expired-All now heap rest)
      ]

  drop_expired_keeps :
      (now : ℕ) (heap : List (Ring V)) (d : Dict ℕ) (key : String) (a : ℕ)
      → lookup key d ≡ some a
      → is_expired now (last_at heap a) ≡ false
      → lookup key (drop_expired now heap d) ≡ some a
  unfolding drop_expired lookup
  drop_expired_keeps now heap [] key a e live = e
  drop_expired_keeps now heap ((k, b) ∷ rest) key a e live =
      ground (arith, drop_expired_keeps now heap rest key a)

  abbrev AreLive : ℕ → Cache V → List String → List ℕ → Type 0
  AreLive now c [] [] = Unit
  AreLive now c (key ∷ keys) (a ∷ places) = IsLive now c key a × AreLive now c keys places
  AreLive now c _ _ = ⊥

  bind_all_keeps :
      (now : ℕ) (ks : List String) (k : String) (a : ℕ) (c : Cache V)
      → IsLive now c k a
      → IsLive now (bind_all now ks c).1 k a
  unfolding bind_all
  bind_all_keeps now [] k a c live = live
  bind_all_keeps now (key ∷ ks) k a c live =
      bind_all_keeps now ks k a (bind now key c).1 (bind_keeps now key k a c live)

  bind_all-AreLive :
      (now : ℕ) (ks : List String) (c : Cache V)
      → IsValid c
      → AreLive now (bind_all now ks c).1 ks (bind_all now ks c).0
  unfolding bind_all
  bind_all-AreLive now [] c v = tt
  bind_all-AreLive now (key ∷ ks) c v =
      let next = bind now key c in
      (
        bind_all_keeps now ks key next.0 next.1 (bind-IsLive now key c v),
        bind_all-AreLive now ks next.1 (bind-IsValid now key c v),
      )

  evict_keeps :
      (now : ℕ) (protect : List String) (c : Cache V) (key : String) (a : ℕ)
      → is_protected protect key ≡ true
      → IsLive now c key a
      → lookup key (evict now protect c).entries ≡ some a
  unfolding evict
  evict_keeps now protect c key a p (found, valid, live) =
      trim_keeps _ protect c.heap _ key p ∙ drop_expired_keeps now c.heap c.entries key a found live

  evict-AreBound :
      (now : ℕ) (protect ks : List String) (places : List ℕ) (c : Cache V)
      → All (λ key. is_protected protect key ≡ true) ks
      → AreLive now c ks places
      → AreBound (evict now protect c).entries ks places
  evict-AreBound now protect [] [] c p live = tt
  evict-AreBound now protect [] (a ∷ places) c p live = live
  evict-AreBound now protect (key ∷ ks) [] c p live = live
  evict-AreBound now protect (key ∷ ks) (a ∷ places) c (p, ps) (live, lives) =
      (evict_keeps now protect c key a p live, evict-AreBound now protect ks places c ps lives)

  -- In a cache whose addresses are all of buffers, `getMetricsBuffers` returns a buffer for each key, in
  -- order, and the cache still holds exactly these under the keys when it returns: no key of the call
  -- loses its buffer to the eviction that the call ends with, sibling keys included.
  pub buffers_stay_bound :
      (now : ℕ) (ks : List String) (c : Cache V)
      → IsValid c
      → AreBound (get_metrics_buffers now ks c).1.entries ks (get_metrics_buffers now ks c).0
  unfolding get_metrics_buffers
  buffers_stay_bound now ks c v =
      evict-AreBound now ks ks _ _ (All-protected ks) (bind_all-AreLive now ks c v)

  -- After `getMetricsBuffers` no entry's newest sample is older than the TTL, and there are at most
  -- `max_scopes` entries unless all of them are keys of the call.
  pub buffers_stay_few :
      (now : ℕ) (ks : List String) (c : Cache V)
      → let after = (get_metrics_buffers now ks c).1 in
        All (IsKept now after.heap) after.entries × IsTrimmed ks after.entries
  unfolding get_metrics_buffers evict
  buffers_stay_few now ks c =
      let bound = (bind_all now ks c).1 in
      let live = drop_expired now bound.heap bound.entries in
      (
        All-trim (IsKept now bound.heap) (length live) ks bound.heap live
            (drop_expired-All now bound.heap bound.entries),
        trim_trims (length live) ks bound.heap live (omega arith),
      )
