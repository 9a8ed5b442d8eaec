-- ===== src/Auth/Json.antt =====
-- JSON values as `JSON.parse` returns them, for web/src/stores/auth.ts. Numbers are whole and not
-- negative, as the timestamps that the store writes are.
use kube_console.Shared.{ℕ, ◌≡◌, refl, ap, Bool, List, [], ◌∷◌, Option, none, String}
use kube_console.Shared.Maps.{Dict, lookup}

mutual
  pub data Json : Type 0 where
    null : Json
    bool : Bool → Json
    num : ℕ → Json
    str : String → Json
    arr : Elements → Json
    obj : Members → Json

  pub data Elements : Type 0 where
    no_more : Elements
    element : Json → Elements → Elements

  pub data Members : Type 0 where
    none_left : Members
    member : String → Json → Members → Members

abbrev pub elements : Elements → List Json
elements no_more = []
elements (element v vs) = v ∷ elements vs

abbrev pub members : Members → Dict Json
members none_left = []
members (member k v ms) = (k, v) ∷ members ms

abbrev pub to_elements : List Json → Elements
to_elements [] = no_more
to_elements (v ∷ vs) = element v (to_elements vs)

abbrev pub to_members : Dict Json → Members
to_members [] = none_left
to_members ((k, v) ∷ ms) = member k v (to_members ms)

-- `value.field`, undefined where there is no such property.
abbrev pub get_field : String → Json → Option Json
get_field name (obj ms) = lookup name (members ms)
get_field name _ = none

pub members-to_members : (d : Dict Json) → members (to_members d) ≡ d
members-to_members [] = refl
members-to_members ((k, v) ∷ ms) = ap (λ l. (k, v) ∷ l) (members-to_members ms)

pub elements-to_elements : (vs : List Json) → elements (to_elements vs) ≡ vs
elements-to_elements [] = refl
elements-to_elements (v ∷ vs) = ap (λ l. v ∷ l) (elements-to_elements vs)
