-- ===== src/MetricsCache/Tests.antt =====
-- Runs of the cache at concrete inputs.
use kube_console.Shared.{if◌then◌else◌, none, ℕ, ◌≡◌, refl, List, [], ◌∷◌, String, arith, All}
use kube_console.Shared.Maps.{lookup, insert, erase}
use kube_console.MetricsCache.Cache.{
  Cache, clear_context, get_metrics_buffers, bind_all, bind, bind_found, bind_fresh, evict,
  drop_expired, trim, last_at, is_expired, max_scopes, ttl_ms,
}
use kube_console.MetricsCache.Clear.{clear_context-drops}
use kube_console.MetricsCache.Bound.{IsValid}
use kube_console.MetricsCache.Trimmed.{AreBound, IsTrimmed}
use kube_console.MetricsCache.Buffers.{IsKept, buffers_stay_bound, buffers_stay_few}
use Prim.Native.String
use text.Mathlib.Text.{starts_with}

cache : Unit {0}
unfolding get_metrics_buffers bind_all bind bind_found bind_fresh evict drop_expired trim last_at
    is_expired max_scopes ttl_ms lookup insert erase
cache = tt

abbrev nothing_cached : Cache ℕ
nothing_cached = record { heap = []; entries = [] }

nothing_cached-IsValid : IsValid nothing_cached
unfolding lookup
nothing_cached-IsValid key address h = ground arith

abbrev siblings : List String
siblings = "c:pod/a" ∷ "c:pod/b" ∷ []

two_buffers : (get_metrics_buffers 5 ("a" ∷ "b" ∷ "a" ∷ []) nothing_cached).0 ≡ 0 ∷ 1 ∷ 0 ∷ []
unfolding cache
two_buffers = refl

buffers_stay_bound_example :
    AreBound
      (get_metrics_buffers 5 siblings nothing_cached).1.entries
      siblings
      (get_metrics_buffers 5 siblings nothing_cached).0
buffers_stay_bound_example = buffers_stay_bound 5 siblings nothing_cached nothing_cached-IsValid

buffers_stay_few_example :
    let after = (get_metrics_buffers 5 siblings nothing_cached).1 in
    All (IsKept 5 after.heap) after.entries × IsTrimmed siblings after.entries
buffers_stay_few_example = buffers_stay_few 5 siblings nothing_cached

abbrev two_contexts : Cache ℕ
two_contexts = (get_metrics_buffers 5 ("c:pod/a" ∷ "d:pod/a" ∷ []) nothing_cached).1

clear_context-drops_example :
    (lookup "d:pod/a" (clear_context "c" two_contexts).entries ≡ (
      if starts_with "d:pod/a" (String.◌++◌ "c" ":")
      then none
      else lookup "d:pod/a" two_contexts.entries))
    × ((clear_context "c" two_contexts).heap ≡ two_contexts.heap)
clear_context-drops_example = clear_context-drops "c" "d:pod/a" two_contexts
