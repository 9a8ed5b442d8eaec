-- ===== src/Auth/SignOut.antt =====
-- web/src/stores/auth.ts: a sign-out of one context.
use kube_console.Shared.{
  ℕ, ◌≡◌, refl, ap, ◌∙◌, false, [], ◌∷◌, ◌++◌, Option, none, some, String, arith, str_eq,
  if◌then◌else◌, Bool-cases, inl, inr, eq_iff,
}
use kube_console.Shared.Maps.{Dict, lookup, erase, lookup-erase}
use kube_console.Auth.Json.{Json}
use kube_console.Auth.Storage.{Session}
use kube_console.Auth.Store.{Auth, has_own, clear_session, evict_context_caches}
use kube_console.Auth.Prune.{persist-frame}

nothing_owned : (o : Option Session) → has_own o ≡ false → o ≡ none
nothing_owned none h = refl
nothing_owned (some s) h = ground (arith, h)

unowned :
    (context other : String) (d : Dict Session)
    → lookup context d ≡ none
    → lookup other d ≡ (if str_eq context other then none else lookup other d)
unowned context other d h = elim (Bool-cases (str_eq context other)) [
  | inl t ↦
      let same : context ≡ other = ground (arith, t, eq_iff context other) in simp t (rw same at h)
  | inr f ↦ simp f refl
]

module _ (stringify : Json → String) (parse : String → Option Json) (index_name : ℕ → String) where
  -- A sign-out of one context drops its session alone and evicts its caches alone: every other context
  -- keeps its session, and the active context stays as it is.
  pub sign_out_is_local :
      (context other : String) (a : Auth)
      → let b = clear_session stringify parse index_name context a in
        (lookup other b.sessions ≡ (if str_eq context other then none else lookup other a.sessions))
        × (b.evicted ≡ a.evicted ++ (context ∷ []))
        × (b.active_context ≡ a.active_context)
  unfolding clear_session evict_context_caches
  sign_out_is_local context other a = elim (Bool-cases (has_own (lookup context a.sessions))) [
    | inl t ↦
        let (s, c, e, l, w) =
          persist-frame stringify parse index_name
            (record a { sessions = erase context a.sessions }) in
        simp t (
          ap (lookup other) s ∙ lookup-erase a.sessions context other,
          ap (λ x. x ++ (context ∷ [])) e,
          c,
        )
    | inr f ↦
        simp f (
          unowned context other a.sessions (nothing_owned (lookup context a.sessions) f),
          refl,
          refl,
        )
  ]
