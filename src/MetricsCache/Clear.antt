-- ===== src/MetricsCache/Clear.antt =====
-- web/src/utils/metricsCache.ts: what the end of one context's session drops.
use kube_console.Shared.{◌≡◌, refl, none, String, ℕ, [], ◌∷◌, arith, eq_iff, if◌then◌else◌}
use kube_console.Shared.Maps.{Dict, lookup}
use kube_console.MetricsCache.Cache.{Cache, clear_context, drop_prefix}
use Prim.Native.String
use text.Mathlib.Text.{starts_with}

lookup-drop_prefix :
    (prefix : String) (d : Dict ℕ) (key : String)
    → lookup key (drop_prefix prefix d) ≡ (if starts_with key prefix then none else lookup key d)
unfolding lookup drop_prefix
lookup-drop_prefix prefix [] key = ground arith
lookup-drop_prefix prefix ((name, address) ∷ rest) key =
    ground (arith, lookup-drop_prefix prefix rest key, eq_iff name key)

-- Clearing a context drops exactly the keys that start with its name and a colon: every other key keeps
-- its buffer, and no buffer itself changes, so that a chart which holds one goes on with it.
pub clear_context-drops {ℓ} :
    {V : Type ℓ} (context key : String) (c : Cache V)
    → (lookup key (clear_context context c).entries
        ≡ (if starts_with key (String.◌++◌ context ":") then none else lookup key c.entries))
      × ((clear_context context c).heap ≡ c.heap)
unfolding clear_context
clear_context-drops context key c =
    (lookup-drop_prefix (String.◌++◌ context ":") c.entries key, refl)
