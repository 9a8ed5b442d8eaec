-- ===== src/Gateway/Path.antt =====
-- The URL paths of web/src/api/k8s.ts. `encode` is `encodeURIComponent`.
use kube_console.Shared.{ℕ, Bool, ◌||◌, [], ◌∷◌, ◌++◌, Option, none, some, if◌then◌else◌}
use kube_console.Shared.Text.{Text, codes, text_eq}

abbrev pub slash : ℕ
slash = 47

-- `ResourceRef` of web/src/api/types.ts
pub record ResourceRef : Type 0 where
  pub group : Text
  pub version : Text
  pub resource : Text

pub record PathOptions : Type 0 where
  pub namespace : Option Text
  pub name : Option Text
  pub subresource : Option Text

unfoldable pub is_core_group : Text → Bool
is_core_group group = text_eq group [] || text_eq group (codes "core")

module _ (encode : Text → Text) where
  -- A further part of the path, where there is one that is not empty.
  unfoldable pub optional_part : Text → Option Text → Text
  optional_part prefix none = []
  optional_part prefix (some []) = []
  optional_part prefix (some (c ∷ cs)) = prefix ++ encode (c ∷ cs)

  -- The subresource, also where it is empty.
  unfoldable pub subresource_part : Option Text → Text
  subresource_part none = []
  subresource_part (some s) = slash ∷ encode s

  unfoldable pub base_path : ResourceRef → Text
  base_path ref =
      if is_core_group ref.group
      then codes "/k8s/api/" ++ encode ref.version
      else codes "/k8s/apis/" ++ (encode ref.group ++ (slash ∷ encode ref.version))

  -- `resourcePath(ref, opts)`
  unfoldable pub resource_path : ResourceRef → PathOptions → Text
  resource_path ref opts =
      base_path ref
      ++ (optional_part (codes "/namespaces/") opts.namespace
          ++ ((slash ∷ encode ref.resource)
              ++ (optional_part (slash ∷ []) opts.name ++ subresource_part opts.subresource)))
