-- ===== src/Gateway/Selection.antt =====
-- web/src/api/k8s.ts: what the requests select.
use kube_console.Shared.{ℕ, ◌≡◌, refl, ap, ◌∙◌, false, [], ◌∷◌, Option, none, some, String, str_eq}
use kube_console.Shared.Maps.{Dict, lookup, insert, lookup-insert_self, lookup-insert_ne}
use kube_console.Shared.Text.{Text, codes}
use kube_console.Gateway.Path.{ResourceRef}
use kube_console.Gateway.Requests.{ListOptions, set_given, set_number, list_request, watch_request}

-- A selector that is there and not empty.
unfoldable pub given : Option Text → Option Text
given none = none
given (some []) = none
given (some (c ∷ cs)) = some (c ∷ cs)

abbrev or_else : Option Text → Option Text → Option Text
or_else none o = o
or_else (some s) o = some s

lookup-set_given :
    (key : String) (o : Option Text) (d : Dict Text)
    → lookup key (set_given key o d) ≡ or_else (given o) (lookup key d)
unfolding set_given given
lookup-set_given key none d = refl
lookup-set_given key (some []) d = refl
lookup-set_given key (some (c ∷ cs)) d = lookup-insert_self d key (c ∷ cs)

lookup-set_given_ne :
    (key : String) (o : Option Text) (d : Dict Text) (asked : String)
    → str_eq key asked ≡ false
    → lookup asked (set_given key o d) ≡ lookup asked d
unfolding set_given
lookup-set_given_ne key none d asked e = refl
lookup-set_given_ne key (some []) d asked e = refl
lookup-set_given_ne key (some (c ∷ cs)) d asked e = lookup-insert_ne d key (c ∷ cs) asked e

or_else-none : (o : Option Text) → or_else o none ≡ o
or_else-none none = refl
or_else-none (some s) = refl

module _ (encode : Text → Text) (digits : ℕ → Text) where
  lookup-set_number_ne :
      (key : String) (o : Option ℕ) (d : Dict Text) (asked : String)
      → str_eq key asked ≡ false
      → lookup asked (set_number encode digits key o d) ≡ lookup asked d
  unfolding set_number
  lookup-set_number_ne key none d asked e = refl
  lookup-set_number_ne key (some n) d asked e = lookup-insert_ne d key (digits n) asked e

  -- The watch of a collection goes to the path that its list came from, and selects by the same labels
  -- and fields, whatever the page, the limit and the resource version are.
  pub watch_follows_list :
      (ref : ResourceRef) (opts : ListOptions) (version : Text)
      → let list = list_request encode digits ref opts in
        let (path, params) =
          watch_request encode digits ref opts.namespace version opts.label_selector
            opts.field_selector in
        (path ≡ list.path)
        × (lookup "labelSelector" params ≡ given opts.label_selector)
        × (lookup "labelSelector" list.params ≡ given opts.label_selector)
        × (lookup "fieldSelector" params ≡ given opts.field_selector)
        × (lookup "fieldSelector" list.params ≡ given opts.field_selector)
  unfolding list_request watch_request lookup insert
  watch_follows_list ref opts version =
      let bare =
        set_number encode digits "limit" opts.limit (("includeObject", codes "Metadata") ∷ []) in
      let paged = set_given "continue" opts.continue_token bare in
      let base =
        ("watch", codes "true")
        ∷ ("allowWatchBookmarks", codes "true")
        ∷ ("includeObject", codes "Metadata")
        ∷ ("resourceVersion", version)
        ∷ [] in
      (
        refl,
        lookup-set_given_ne "fieldSelector" opts.field_selector
              (set_given "labelSelector" opts.label_selector base) "labelSelector" refl
            ∙ lookup-set_given "labelSelector" opts.label_selector base
            ∙ or_else-none (given opts.label_selector),
        lookup-set_given_ne "fieldSelector" opts.field_selector
              (set_given "labelSelector" opts.label_selector paged) "labelSelector" refl
            ∙ lookup-set_given "labelSelector" opts.label_selector paged
            ∙ ap (or_else (given opts.label_selector)) (unset "labelSelector" opts refl refl refl)
            ∙ or_else-none (given opts.label_selector),
        lookup-set_given "fieldSelector" opts.field_selector
              (set_given "labelSelector" opts.label_selector base)
            ∙ ap (or_else (given opts.field_selector))
                (lookup-set_given_ne "labelSelector" opts.label_selector base "fieldSelector" refl)
            ∙ or_else-none (given opts.field_selector),
        lookup-set_given "fieldSelector" opts.field_selector
              (set_given "labelSelector" opts.label_selector paged)
            ∙ ap (or_else (given opts.field_selector)) (
                lookup-set_given_ne "labelSelector" opts.label_selector paged "fieldSelector" refl
                ∙ unset "fieldSelector" opts refl refl refl)
            ∙ or_else-none (given opts.field_selector),
      )
    where
      unset :
          (asked : String) (o : ListOptions)
          → str_eq "continue" asked ≡ false
          → str_eq "limit" asked ≡ false
          → str_eq "includeObject" asked ≡ false
          → lookup asked (
              set_given "continue" o.continue_token (
                set_number encode digits "limit" o.limit
                  (("includeObject", codes "Metadata") ∷ [])))
            ≡ none
      unset asked o c l i =
          lookup-set_given_ne "continue" o.continue_token _ asked c
          ∙ lookup-set_number_ne "limit" o.limit _ asked l
          ∙ (rw i refl)
