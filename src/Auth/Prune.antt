-- ===== src/Auth/Prune.antt =====
-- web/src/stores/auth.ts: how sessions end, at their lifetime and at a sign-out.
use kube_console.Shared.{
  ℕ, ◌≡◌, refl, sym, ap, ◌∙◌, Bool, true, false, ◌&&◌, List, [], ◌∷◌, ◌++◌, append_assoc,
  append-nil, Option, none, some, String, arith, str_eq, if◌then◌else◌, filter, any, Bool-cases,
  inl, inr, eq_iff,
}
use kube_console.Shared.Maps.{
  Dict, lookup, erase, keys, lookup-erase, HasDistinct, erase-HasDistinct,
}
use kube_console.Auth.Json.{Json}
use kube_console.Auth.Storage.{Session}
use kube_console.Auth.Store.{
  Auth, is_session_expired, is_usable, has_session, is_expired_entry, expired_names, erase_all,
  evict_context_caches, evict_each, persist, drop_expired, prune_expired_sessions, is_authenticated,
}

-- Whether a name stands in a list.
unfoldable pub has_name : String → List String → Bool
has_name n names = any (λ k. str_eq k n) names

lookup-erase_all {ℓ} :
    {V : Type ℓ} (names : List String) (d : Dict V) (n : String)
    → lookup n (erase_all names d) ≡ (if has_name n names then none else lookup n d)
unfolding erase_all has_name
lookup-erase_all [] d n = refl
lookup-erase_all (k ∷ names) d n =
    ground (arith, lookup-erase_all names (erase k d) n, lookup-erase d k n)

pub erase_all-HasDistinct {ℓ} :
    {V : Type ℓ} (names : List String) (d : Dict V)
    → HasDistinct (keys d)
    → HasDistinct (keys (erase_all names d))
unfolding erase_all
erase_all-HasDistinct [] d h = h
erase_all-HasDistinct (k ∷ names) d h =
    erase_all-HasDistinct names (erase k d) (erase-HasDistinct k d h)

has_name-filter :
    (p : String → Bool) (n : String) (names : List String)
    → has_name n (filter p names) ≡ (p n && has_name n names)
unfolding has_name
has_name-filter p n [] = ground arith
has_name-filter p n (k ∷ names) = ground (arith, has_name-filter p n names, eq_iff k n)

lookup_unnamed {ℓ} :
    {V : Type ℓ} (d : Dict V) (n : String) → has_name n (keys d) ≡ false → lookup n d ≡ none
unfolding has_name lookup
lookup_unnamed [] n h = refl
lookup_unnamed ((k, v) ∷ d) n h = ground (arith, lookup_unnamed d n)

-- What is left of a session at a time: nothing, once it has passed its lifetime.
unfoldable pub unexpired : ℕ → Option Session → Option Session
unexpired now none = none
unexpired now (some s) = if is_session_expired now s then none else some s

unexpired_eq :
    (now : ℕ) (o : Option Session) → unexpired now o ≡ (if is_expired_entry now o then none else o)
unfolding unexpired is_expired_entry
unexpired_eq now none = refl
unexpired_eq now (some s) = refl

lookup-unexpired :
    (now : ℕ) (d : Dict Session) (n : String)
    → lookup n (erase_all (expired_names now d) d) ≡ unexpired now (lookup n d)
unfolding expired_names
lookup-unexpired now d n = elim (Bool-cases (has_name n (keys d))) [
  | inl t ↦ ground (
    arith,
    t,
    lookup-erase_all (filter (λ k. is_expired_entry now (lookup k d)) (keys d)) d n,
    has_name-filter (λ k. is_expired_entry now (lookup k d)) n (keys d),
    unexpired_eq now (lookup n d),
  )
  | inr f ↦ ground (
    arith,
    f,
    lookup-erase_all (filter (λ k. is_expired_entry now (lookup k d)) (keys d)) d n,
    has_name-filter (λ k. is_expired_entry now (lookup k d)) n (keys d),
    unexpired_eq now (lookup n d),
    lookup_unnamed d n f,
  )
]

is_usable-unexpired :
    (now : ℕ) (o : Option Session) → is_usable now (unexpired now o) ≡ is_usable now o
unfolding unexpired is_usable
is_usable-unexpired now none = refl
is_usable-unexpired now (some s) = elim (Bool-cases (is_session_expired now s)) [
  | inl t ↦ ground (arith, t)
  | inr f ↦ simp f refl
]

usable_eq :
    (now : ℕ) (a : Auth) (m : String) {d : Dict Session}
    → d ≡ erase_all (expired_names now a.sessions) a.sessions
    → is_usable now (lookup m d) ≡ is_usable now (lookup m a.sessions)
usable_eq now a m s =
    ap (λ d. is_usable now (lookup m d)) s
    ∙ ap (is_usable now) (lookup-unexpired now a.sessions m)
    ∙ is_usable-unexpired now (lookup m a.sessions)

test_eq : {l l' u u' : Bool} → l' ≡ l → u' ≡ u → (if l' then true else u') ≡ (if l then true else u)
test_eq p q = rw (p, q) refl

module _ (stringify : Json → String) (parse : String → Option Json) (index_name : ℕ → String) where
  pub persist-frame :
      (a : Auth)
      → ((persist stringify parse index_name a).sessions ≡ a.sessions)
        × ((persist stringify parse index_name a).active_context ≡ a.active_context)
        × ((persist stringify parse index_name a).evicted ≡ a.evicted)
        × ((persist stringify parse index_name a).local_auth ≡ a.local_auth)
        × ((persist stringify parse index_name a).writable ≡ a.writable)
  unfolding persist
  persist-frame a = elim (Bool-cases a.writable) [
    | inl t ↦ simp t (refl, refl, refl, refl, refl)
    | inr f ↦ simp f (refl, refl, refl, refl, refl)
  ]

  pub evict_each-frame :
      (names : List String) (a : Auth)
      → ((evict_each names a).sessions ≡ a.sessions)
        × ((evict_each names a).active_context ≡ a.active_context)
        × ((evict_each names a).evicted ≡ a.evicted ++ names)
        × ((evict_each names a).local_auth ≡ a.local_auth)
        × ((evict_each names a).writable ≡ a.writable)
        × ((evict_each names a).storage ≡ a.storage)
  unfolding evict_each evict_context_caches
  evict_each-frame [] a = (refl, refl, sym (append-nil a.evicted), refl, refl, refl)
  evict_each-frame (k ∷ names) a =
      let (s, c, e, l, w, st) =
        evict_each-frame names (record a { evicted = a.evicted ++ (k ∷ []) }) in
      (s, c, e ∙ append_assoc a.evicted (k ∷ []) names, l, w, st)

  pub drop_expired-frame :
      (names : List String) (a : Auth)
      → let b = drop_expired stringify parse index_name names a in
        (b.sessions ≡ erase_all names a.sessions)
        × (b.active_context ≡ a.active_context)
        × (b.evicted ≡ a.evicted ++ names)
        × (b.local_auth ≡ a.local_auth)
        × (b.writable ≡ a.writable)
        × (b.storage ≡ elim names [
          | [] ↦ a.storage
          | k ∷ ks ↦
              (persist stringify parse index_name
                (record a { sessions = erase_all (k ∷ ks) a.sessions })).storage
        ])
  unfolding drop_expired erase_all
  drop_expired-frame [] a = (refl, refl, sym (append-nil a.evicted), refl, refl, refl)
  drop_expired-frame (k ∷ names) a =
      let p = record a { sessions = erase_all (k ∷ names) a.sessions } in
      let q = persist stringify parse index_name p in
      let (s, c, e, l, w) = persist-frame p in
      let (s', c', e', l', w', st') = evict_each-frame (k ∷ names) q in
      (s' ∙ s, c' ∙ c, e' ∙ ap (λ x. x ++ (k ∷ names)) e, l' ∙ l, w' ∙ w, st')

  -- Pruning at a time leaves of every context exactly a session that has not passed its lifetime,
  -- evicts the caches of exactly the contexts it dropped, and leaves the active context as it is.
  pub prune_drops_expired :
      (now : ℕ) (a : Auth) (n : String)
      → let b = prune_expired_sessions stringify parse index_name now a in
        (lookup n b.sessions ≡ unexpired now (lookup n a.sessions))
        × (b.evicted ≡ a.evicted ++ expired_names now a.sessions)
        × (b.active_context ≡ a.active_context)
  unfolding prune_expired_sessions
  prune_drops_expired now a n =
      let (s, c, e, l, w, st) = drop_expired-frame (expired_names now a.sessions) a in
      (ap (lookup n) s ∙ lookup-unexpired now a.sessions n, e, c)

  -- `hasSession` and the route guard answer the same before and after a pruning at the same time.
  pub prune_keeps_signed_in :
      (now : ℕ) (a : Auth) (n : String)
      → let b = prune_expired_sessions stringify parse index_name now a in
        (has_session now n b ≡ has_session now n a)
        × (is_authenticated now b ≡ is_authenticated now a)
  unfolding has_session is_authenticated prune_expired_sessions
  prune_keeps_signed_in now a n =
      let (s, c, e, l, w, st) = drop_expired-frame (expired_names now a.sessions) a in
      (
        test_eq l (usable_eq now a n s),
        test_eq l (
            ap
              (λ m.
                is_usable now
                  (lookup m (prune_expired_sessions stringify parse index_name now a).sessions))
              c
            ∙ usable_eq now a a.active_context s),
      )
