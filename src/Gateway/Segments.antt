-- ===== src/Gateway/Segments.antt =====
-- web/src/api/k8s.ts: a path that `resourcePath` builds has the parts that it was built from.
use kube_console.Shared.{
  ℕ, ◌≡◌, ◌≢◌, refl, ap, ◌∙◌, sym, false, List, [], ◌∷◌, ◌++◌, append_assoc, append-nil, Option,
  none, some, arith, ◌==◌, if◌then◌else◌, All, Bool-cases, inl, inr,
}
use kube_console.Shared.Text.{Text, codes}
use kube_console.Gateway.Path.{
  slash, ResourceRef, PathOptions, is_core_group, optional_part, subresource_part, base_path,
  resource_path,
}

-- Put a code unit before the first piece.
abbrev before_first : ℕ → List Text → List Text
before_first c [] = (c ∷ []) ∷ []
before_first c (s ∷ ss) = (c ∷ s) ∷ ss

-- The pieces of a path between its slashes.
unfoldable pub pieces : Text → List Text
pieces [] = [] ∷ []
pieces (c ∷ cs) = let later = pieces cs in if c == slash then [] ∷ later else before_first c later

-- A path of parts, a slash before each.
unfoldable pub path_of : List Text → Text
path_of [] = []
path_of (s ∷ ss) = slash ∷ (s ++ path_of ss)

abbrev pub HasNoSlash : Text → Type 0
HasNoSlash s = All (λ c. c ≢ slash) s

path_of-append : (ss ts : List Text) → path_of (ss ++ ts) ≡ path_of ss ++ path_of ts
unfolding path_of
path_of-append [] ts = refl
path_of-append (s ∷ ss) ts =
    ap (λ r. slash ∷ r)
      (ap (λ r. s ++ r) (path_of-append ss ts) ∙ sym (append_assoc s (path_of ss) (path_of ts)))

pieces-append :
    (s : Text) (rest : Text) → HasNoSlash s → pieces (s ++ (slash ∷ rest)) ≡ s ∷ pieces rest
unfolding pieces
pieces-append [] rest h = ground arith
pieces-append (c ∷ s) rest (n, h) =
    let other : (c == slash) ≡ false = ground (arith, n) in
    simp other (ap (before_first c) (pieces-append s rest h))

pieces_alone : (s : Text) → HasNoSlash s → pieces s ≡ s ∷ []
unfolding pieces
pieces_alone [] h = refl
pieces_alone (c ∷ s) (n, h) =
    let other : (c == slash) ≡ false = ground (arith, n) in
    simp other (ap (before_first c) (pieces_alone s h))

pieces_of_parts :
    (s : Text) (ss : List Text)
    → HasNoSlash s
    → All HasNoSlash ss
    → pieces (s ++ path_of ss) ≡ s ∷ ss
unfolding path_of
pieces_of_parts s [] h hs = ap pieces (append-nil s) ∙ pieces_alone s h
pieces_of_parts s (t ∷ ts) h (k, ks) =
    pieces-append s (t ++ path_of ts) h ∙ ap (λ l. s ∷ l) (pieces_of_parts t ts k ks)

pieces-path_of :
    (s : Text) (ss : List Text)
    → HasNoSlash s
    → All HasNoSlash ss
    → pieces (path_of (s ∷ ss)) ≡ [] ∷ s ∷ ss
unfolding path_of
pieces-path_of s ss h hs =
    pieces-append [] (s ++ path_of ss) tt ∙ ap (λ l. [] ∷ l) (pieces_of_parts s ss h hs)

All-append {ℓ κ} :
    {A : Type ℓ} (P : A → Type κ) (xs ys : List A) → All P xs → All P ys → All P (xs ++ ys)
All-append P [] ys h k = k
All-append P (x ∷ xs) ys (p, h) k = (p, All-append P xs ys h k)

module _ (encode : Text → Text) where
  -- The parts that a request names: the encoded names, and the fixed words between them.
  unfoldable pub named : Option Text → List Text → List Text
  named none words = []
  named (some []) words = []
  named (some (c ∷ cs)) words = words ++ encode (c ∷ cs) ∷ []

  unfoldable pub subresource_named : Option Text → List Text
  subresource_named none = []
  subresource_named (some s) = encode s ∷ []

  unfoldable pub group_named : ResourceRef → List Text
  group_named ref =
      if is_core_group ref.group
      then codes "api" ∷ encode ref.version ∷ []
      else codes "apis" ∷ encode ref.group ∷ encode ref.version ∷ []

  unfoldable pub segments : ResourceRef → PathOptions → List Text
  segments ref opts =
      (codes "k8s" ∷ group_named ref)
      ++ (named opts.namespace (codes "namespaces" ∷ [])
          ++ (encode ref.resource ∷ (named opts.name [] ++ subresource_named opts.subresource)))

  optional_named :
      (o : Option Text) (words : List Text) (prefix : Text)
      → prefix ≡ path_of words ++ (slash ∷ [])
      → optional_part encode prefix o ≡ path_of (named o words)
  unfolding optional_part named path_of
  optional_named none words prefix e = refl
  optional_named (some []) words prefix e = refl
  optional_named (some (c ∷ cs)) words prefix e =
      ap (λ p. p ++ encode (c ∷ cs)) e
      ∙ append_assoc (path_of words) (slash ∷ []) (encode (c ∷ cs))
      ∙ ap (λ t. path_of words ++ (slash ∷ t)) (sym (append-nil (encode (c ∷ cs))))
      ∙ sym (path_of-append words (encode (c ∷ cs) ∷ []))

  subresource_parts : (o : Option Text) → subresource_part encode o ≡ path_of (subresource_named o)
  unfolding subresource_part subresource_named path_of
  subresource_parts none = refl
  subresource_parts (some s) = ap (λ t. slash ∷ t) (sym (append-nil (encode s)))

  base_parts : (ref : ResourceRef) → base_path encode ref ≡ path_of (codes "k8s" ∷ group_named ref)
  unfolding base_path group_named path_of
  base_parts ref = elim (Bool-cases (is_core_group ref.group)) [
    | inl t ↦ simp t (ap (λ v. codes "/k8s/api/" ++ v) (sym (append-nil (encode ref.version))))
    | inr f ↦ simp f (
        ap (λ v. codes "/k8s/apis/" ++ (encode ref.group ++ (slash ∷ v)))
          (sym (append-nil (encode ref.version))))
  ]

  path_parts :
      (ref : ResourceRef) (opts : PathOptions)
      → resource_path encode ref opts ≡ path_of (segments ref opts)
  unfolding resource_path segments path_of
  path_parts ref opts =
      let G = codes "k8s" ∷ group_named ref in
      let N = named opts.namespace (codes "namespaces" ∷ []) in
      let M = named opts.name [] in
      let S = subresource_named opts.subresource in
      let tail : optional_part encode (slash ∷ []) opts.name
            ++ subresource_part encode opts.subresource
          ≡ path_of (M ++ S) =
        ap (λ t. t ++ subresource_part encode opts.subresource)
          (optional_named opts.name [] (slash ∷ []) refl)
        ∙ ap (λ t. path_of M ++ t) (subresource_parts opts.subresource)
        ∙ sym (path_of-append M S) in
      ap
        (λ b.
          b
          ++ (optional_part encode (codes "/namespaces/") opts.namespace
              ++ ((slash ∷ encode ref.resource)
                  ++ (optional_part encode (slash ∷ []) opts.name
                      ++ subresource_part encode opts.subresource))))
        (base_parts ref)
      ∙ ap
          (λ n.
            path_of G
            ++ (n
                ++ ((slash ∷ encode ref.resource)
                    ++ (optional_part encode (slash ∷ []) opts.name
                        ++ subresource_part encode opts.subresource))))
          (optional_named opts.namespace (codes "namespaces" ∷ []) (codes "/namespaces/") refl)
      ∙ ap (λ t. path_of G ++ (path_of N ++ ((slash ∷ encode ref.resource) ++ t))) tail
      ∙ ap (λ t. path_of G ++ t) (sym (path_of-append N (encode ref.resource ∷ (M ++ S))))
      ∙ sym (path_of-append G (N ++ (encode ref.resource ∷ (M ++ S))))

  module _ (safe : (s : Text) → HasNoSlash (encode s)) where
    named-HasNoSlash :
        (o : Option Text) (words : List Text)
        → All HasNoSlash words
        → All HasNoSlash (named o words)
    unfolding named
    named-HasNoSlash none words h = tt
    named-HasNoSlash (some []) words h = tt
    named-HasNoSlash (some (c ∷ cs)) words h =
        All-append HasNoSlash words (encode (c ∷ cs) ∷ []) h (safe (c ∷ cs), tt)

    subresource-HasNoSlash : (o : Option Text) → All HasNoSlash (subresource_named o)
    unfolding subresource_named
    subresource-HasNoSlash none = tt
    subresource-HasNoSlash (some s) = (safe s, tt)

    group-HasNoSlash : (ref : ResourceRef) → All HasNoSlash (group_named ref)
    unfolding group_named
    group-HasNoSlash ref = elim (Bool-cases (is_core_group ref.group)) [
      | inl t ↦ simp t (omega arith, (safe ref.version, tt))
      | inr f ↦ simp f (omega arith, (safe ref.group, (safe ref.version, tt)))
    ]

  -- If encoded names have no slash, the pieces of a path between its slashes are an empty one, then
  -- exactly the encoded names of the request and the fixed words: no name can add a part to a path or
  -- take one from it, whatever is in it.
  pub resource_path-segments :
      (ref : ResourceRef) (opts : PathOptions)
      → ((s : Text) → HasNoSlash (encode s))
      → pieces (resource_path encode ref opts) ≡ [] ∷ segments ref opts
  unfolding segments
  resource_path-segments ref opts safe =
      ap pieces (path_parts ref opts)
      ∙ pieces-path_of (codes "k8s")
          (group_named ref
            ++ (named opts.namespace (codes "namespaces" ∷ [])
                ++ (encode ref.resource
                    ∷ (named opts.name [] ++ subresource_named opts.subresource))))
          (omega arith)
          (All-append HasNoSlash (group_named ref) _ (group-HasNoSlash safe ref) (
            All-append HasNoSlash (named opts.namespace (codes "namespaces" ∷ [])) _
              (named-HasNoSlash safe opts.namespace (codes "namespaces" ∷ []) (omega arith))
              (
                safe ref.resource,
                All-append HasNoSlash (named opts.name []) (subresource_named opts.subresource)
                    (named-HasNoSlash safe opts.name [] tt)
                    (subresource-HasNoSlash safe opts.subresource),
              )))
