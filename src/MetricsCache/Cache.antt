-- ===== src/MetricsCache/Cache.antt =====
-- web/src/utils/metricsCache.ts. The buffers are shared objects that their charts go on appending to,
-- so the cache maps a scope key to the address of a buffer, and the buffers stand in a heap.
use kube_console.Shared.{
  ℕ, zero, suc, ◌-◌, Bool, true, false, List, [], ◌∷◌, ◌++◌, Option, none, some, String, ltb,
  str_eq, if◌then◌else◌, length, get_elem?, any,
}
use kube_console.Shared.Maps.{Dict, lookup, insert, erase, keys}
use kube_console.RingBuffer.Series.{Ring, empty, last_timestamp}
use Prim.Native.String
use text.Mathlib.Text.{starts_with}

unfoldable pub ttl_ms : ℕ
ttl_ms = 3600000

unfoldable pub max_scopes : ℕ
max_scopes = 64

pub record Cache {ℓ} (V : Type ℓ) : Type ℓ where
  pub heap : List (Ring V)
  -- Scope keys in the order of the `Map`, with the addresses of their buffers.
  pub entries : Dict ℕ

module _ {ℓ} {V : Type ℓ} where
  -- `buffer.lastTimestamp()`
  unfoldable pub last_at : List (Ring V) → ℕ → Option ℕ
  last_at heap address = elim (get_elem? heap address) [ none ↦ none | some b ↦ last_timestamp b ]

-- The newest sample aged past the TTL.
unfoldable pub is_expired : ℕ → Option ℕ → Bool
is_expired now none = false
is_expired now (some last) = ltb ttl_ms (now - last)

module _ {ℓ} {V : Type ℓ} where
  -- A fresh buffer under the key.
  unfoldable pub bind_fresh : String → Cache V → ℕ × Cache V
  bind_fresh key c =
      let address = length c.heap in
      (address, record { heap = c.heap ++ empty ∷ []; entries = insert key address c.entries })

  -- What `cache.get(key)` gave decides: an entry that is not stale moves to the end of the `Map`.
  unfoldable pub bind_found : ℕ → String → Option ℕ → Cache V → ℕ × Cache V
  bind_found now key none c = bind_fresh key c
  bind_found now key (some address) c =
      if is_expired now (last_at c.heap address)
      then bind_fresh key c
      else (address, record c { entries = insert key address (erase key c.entries) })

  -- `bind(now, key)`
  unfoldable pub bind : ℕ → String → Cache V → ℕ × Cache V
  bind now key c = bind_found now key (lookup key c.entries) c

  unfoldable pub bind_all : ℕ → List String → Cache V → List ℕ × Cache V
  bind_all now [] c = ([], c)
  bind_all now (key ∷ keys) c =
      let (address, bound) = bind now key c in
      let (addresses, all_bound) = bind_all now keys bound in (address ∷ addresses, all_bound)

  -- The first loop of `evict`: entries whose newest sample aged past the TTL go.
  unfoldable pub drop_expired : ℕ → List (Ring V) → Dict ℕ → Dict ℕ
  drop_expired now heap [] = []
  drop_expired now heap ((key, address) ∷ rest) =
      let kept = drop_expired now heap rest in
      if is_expired now (last_at heap address) then kept else (key, address) ∷ kept

-- `protect.has(key)`
unfoldable pub is_protected : List String → String → Bool
is_protected protect key = any (λ k. str_eq k key) protect

-- `last < victimLast`, where the victim so far may be none (`Infinity`).
unfoldable pub is_older : ℕ → Option (String × ℕ) → Bool
is_older last none = true
is_older last (some (victim, victim_last)) = ltb last victim_last

-- One round of the scan, for an entry that is protected or not: `continue`, `break` with this key, or
-- go on with the better victim.
unfoldable pub consider :
    Bool
    → String
    → Option ℕ
    → Option (String × ℕ)
    → (Option (String × ℕ) → Option String)
    → Option String
consider true key last best go_on = go_on best
consider false key none best go_on = some key
consider false key (some last) best go_on =
    go_on (if is_older last best then some (key, last) else best)

abbrev pub victim_key : Option (String × ℕ) → Option String
victim_key none = none
victim_key (some (victim, victim_last)) = some victim

-- `break` with no victim, or the next round without it.
unfoldable pub drop_victim : Option String → Dict ℕ → (Dict ℕ → Dict ℕ) → Dict ℕ
drop_victim none entries next_round = entries
drop_victim (some victim) entries next_round = next_round (erase victim entries)

module _ {ℓ} {V : Type ℓ} where
  -- The scan for a victim: the first unprotected key with an empty buffer, or the unprotected key
  -- whose newest sample is oldest.
  unfoldable pub find_victim :
      List String → List (Ring V) → Option (String × ℕ) → Dict ℕ → Option String
  find_victim protect heap best [] = victim_key best
  find_victim protect heap best ((key, address) ∷ rest) =
      consider (is_protected protect key) key (last_at heap address) best
        (λ next. find_victim protect heap next rest)

  -- The second loop of `evict`, on fuel: each round drops an entry.
  unfoldable pub trim : ℕ → List String → List (Ring V) → Dict ℕ → Dict ℕ
  trim zero protect heap entries = entries
  trim (suc fuel) protect heap entries =
      if ltb max_scopes (length entries)
      then drop_victim (find_victim protect heap none entries) entries
          (λ left. trim fuel protect heap left)
      else entries

  -- `evict(now, protect)`, with a round for each entry.
  unfoldable pub evict : ℕ → List String → Cache V → Cache V
  evict now protect c =
      let live = drop_expired now c.heap c.entries in
      record c { entries = trim (length live) protect c.heap live }

  -- `getMetricsBuffers(...keys)` at the time `now`: the addresses, and the cache after.
  unfoldable pub get_metrics_buffers : ℕ → List String → Cache V → List ℕ × Cache V
  get_metrics_buffers now keys c =
      let (addresses, bound) = bind_all now keys c in (addresses, evict now keys bound)

-- The entries whose keys do not start with the prefix.
unfoldable pub drop_prefix : String → Dict ℕ → Dict ℕ
drop_prefix prefix [] = []
drop_prefix prefix ((key, address) ∷ rest) =
    let kept = drop_prefix prefix rest in
    if starts_with key prefix then kept else (key, address) ∷ kept

-- `clearMetricsCacheContext(context)`
unfoldable pub clear_context {ℓ} : {V : Type ℓ} → String → Cache V → Cache V
clear_context context c = record c { entries = drop_prefix (String.◌++◌ context ":") c.entries }
