-- ===== src/Shared/Maps.antt =====
-- JavaScript's `Map`, and objects used as dictionaries, with text keys in insertion order: `set` on
-- a key that is there keeps its place, a new key goes to the end.
use kube_console.Shared.Tests.{str_eq, if◌then◌else◌, is_none}
use kube_console.Shared.Lists.{All, length}
use Prim.Native.Nat.{◌+◌, ◌≤◌}
use Prim.Native.String.{String}
use mathlib.Core.Bool.{false}
use mathlib.Core.Path.{◌≡◌, refl}
use mathlib.Core.Logic.{◌≢◌}
use mathlib.Core.Option.{Option, none, some}
use mathlib.Core.List.{List, [], ◌∷◌, map}
use native.Mathlib.Omega.{arith}
use text.Mathlib.TextEquality.{eq_iff}
use text.Mathlib.TextPositions.{eq_refl}

abbrev pub Dict {ℓ} : Type ℓ → Type ℓ
Dict V = List (String × V)

module _ {ℓ} {V : Type ℓ} where
  -- `m.get(key)`
  unfoldable pub lookup : String → Dict V → Option V
  lookup key [] = none
  lookup key ((name, held) ∷ rest) = if str_eq name key then some held else lookup key rest

  -- `m.set(key, value)`, `o[key] = value`
  unfoldable pub insert : String → V → Dict V → Dict V
  insert key value [] = (key, value) ∷ []
  insert key value ((name, held) ∷ rest) =
      if str_eq name key then (name, value) ∷ rest else (name, held) ∷ insert key value rest

  -- `m.delete(key)`, `delete o[key]`
  unfoldable pub erase : String → Dict V → Dict V
  erase key [] = []
  erase key ((name, held) ∷ rest) =
      let others = erase key rest in if str_eq name key then others else (name, held) ∷ others

  -- `[...m.keys()]`, `Object.keys(o)`
  abbrev pub keys : Dict V → List String
  keys = map λ entry. entry.0

  pub lookup-insert :
      (d : Dict V) (key : String) (value : V) (asked : String)
      → lookup asked (insert key value d)
        ≡ (if str_eq key asked then some value else lookup asked d)
  unfolding lookup insert
  lookup-insert [] key value asked = refl
  lookup-insert ((name, held) ∷ rest) key value asked = ground (
    arith,
    lookup-insert rest key value asked,
    eq_iff name key,
    eq_iff name asked,
    eq_iff key asked,
  )

  pub lookup-erase :
      (d : Dict V) (key asked : String)
      → lookup asked (erase key d) ≡ (if str_eq key asked then none else lookup asked d)
  unfolding lookup erase
  lookup-erase [] key asked = ground arith
  lookup-erase ((name, held) ∷ rest) key asked =
      ground
        (arith, lookup-erase rest key asked, eq_iff name key, eq_iff name asked, eq_iff key asked)

  pub lookup-insert_self :
      (d : Dict V) (key : String) (value : V) → lookup key (insert key value d) ≡ some value
  lookup-insert_self d key value = simp (lookup-insert, eq_refl)

  pub lookup-insert_ne :
      (d : Dict V) (key : String) (value : V) (asked : String)
      → str_eq key asked ≡ false
      → lookup asked (insert key value d) ≡ lookup asked d
  lookup-insert_ne d key value asked e = rw (lookup-insert d key value asked, e)

  pub lookup-erase_ne :
      (d : Dict V) (key asked : String)
      → str_eq key asked ≡ false
      → lookup asked (erase key d) ≡ lookup asked d
  lookup-erase_ne d key asked e = rw (lookup-erase d key asked, e)

  pub length-erase-le : (k : String) (m : Dict V) → length (erase k m) ≤ length m
  unfolding erase
  length-erase-le k [] = omega arith
  length-erase-le k ((i, w) ∷ m) = ground (arith, length-erase-le k m)

  pub length-insert :
      (k : String) (v : V) (m : Dict V)
      → length (insert k v m) ≡ (if is_none (lookup k m) then length m + 1 else length m)
  unfolding lookup insert
  length-insert k v [] = refl
  length-insert k v ((i, w) ∷ m) = ground (arith, length-insert k v m)

-- No key stands twice.
abbrev pub NotIn : String → List String → Type 0
NotIn k ks = All (λ j. j ≢ k) ks

abbrev pub HasDistinct : List String → Type 0
HasDistinct [] = Unit
HasDistinct (k ∷ ks) = NotIn k ks × HasDistinct ks

module _ {ℓ} {V : Type ℓ} where
  NotIn-insert :
      (i k : String) (v : V) (m : Dict V) → NotIn i (keys m) → k ≢ i → NotIn i (keys (insert k v m))
  unfolding insert
  NotIn-insert i k v [] h n = (n, tt)
  NotIn-insert i k v ((j, w) ∷ m) h n = ground (arith, NotIn-insert i k v m)

  pub insert-HasDistinct :
      (k : String) (v : V) (m : Dict V) → HasDistinct (keys m) → HasDistinct (keys (insert k v m))
  unfolding insert
  insert-HasDistinct k v [] h = (tt, tt)
  insert-HasDistinct k v ((j, w) ∷ m) h =
      ground (arith, eq_iff j k, insert-HasDistinct k v m, NotIn-insert j k v m)

  NotIn-erase : (i k : String) (m : Dict V) → NotIn i (keys m) → NotIn i (keys (erase k m))
  unfolding erase
  NotIn-erase i k [] h = tt
  NotIn-erase i k ((j, w) ∷ m) h = ground (arith, NotIn-erase i k m)

  pub erase-HasDistinct :
      (k : String) (m : Dict V) → HasDistinct (keys m) → HasDistinct (keys (erase k m))
  unfolding erase
  erase-HasDistinct k [] h = tt
  erase-HasDistinct k ((j, w) ∷ m) h = ground (arith, erase-HasDistinct k m, NotIn-erase j k m)

-- Every value of a dictionary replaced, the keys and their order kept.
unfoldable pub map_entries {ℓ κ} : {V : Type ℓ} {W : Type κ} → (String → V → W) → Dict V → Dict W
map_entries f [] = []
map_entries f ((name, held) ∷ rest) = (name, f name held) ∷ map_entries f rest

abbrev pub map_option {ℓ κ} : {V : Type ℓ} {W : Type κ} → (V → W) → Option V → Option W
map_option f none = none
map_option f (some v) = some (f v)

pub lookup-map_entries {ℓ κ} :
    {V : Type ℓ} {W : Type κ} (f : String → V → W) (d : Dict V) (key : String)
    → lookup key (map_entries f d) ≡ map_option (f key) (lookup key d)
unfolding lookup map_entries
lookup-map_entries f [] key = refl
lookup-map_entries f ((name, held) ∷ rest) key =
    ground (arith, eq_iff name key, lookup-map_entries f rest key)
