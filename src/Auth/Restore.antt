-- ===== src/Auth/Restore.antt =====
-- web/src/stores/auth.ts: storage mirrors the state, and a page load restores from it.
use kube_console.Shared.{
  ℕ, ◌+◌, ◌≡◌, refl, sym, ◌∙◌, Bool, true, false, List, [], ◌∷◌, Option, none, some, String, arith,
  str_eq, if◌then◌else◌, Bool-cases, inl, inr, eq_iff,
}
use kube_console.Shared.Maps.{
  Dict, lookup, insert, erase, keys, HasDistinct, erase-HasDistinct, insert-HasDistinct,
}
use kube_console.Auth.Json.{Json, members-to_members}
use kube_console.Auth.Storage.{
  Identity, Session, Sessions, Restored, session_ttl_ms, sessions_json, stored_item, read_stored,
  restore_parsed,
}
use kube_console.Auth.Store.{
  Auth, has_own, expired_names, erase_all, evict_context_caches, evict_each, persist, set_session,
  clear_session, clear_active_session, drop_expired, prune_expired_sessions, set_active_context,
  set_local_auth, set_local_identity, load, opened,
}
use kube_console.Auth.Prune.{erase_all-HasDistinct}
use kube_console.Auth.Decode.{
  restorable_of, loses, jsons, lookup-restore_entries, dirty-restore_entries, or_false,
  or_else-none,
}

-- What the user, the backend's answers and the clock make of the store.
pub data Action : Type 0 where
  signs_in : ℕ → String → String → Option Identity → Bool → Action
  signs_out : String → Action
  signs_out_here : Action
  switches : ℕ → String → Action
  prunes : ℕ → Action
  becomes_local : Bool → Action
  learns_identity : Option Identity → Bool → Action

module _ (stringify : Json → String) (parse : String → Option Json) (index_name : ℕ → String) where
  -- What storage is to hold of a state.
  abbrev pub saved : Auth → Option String
  saved a =
      stored_item stringify parse index_name
        (record { active_context = a.active_context; sessions = a.sessions })

  unfoldable pub act : Action → Auth → Auth
  act (signs_in now c t id u) a = set_session stringify parse index_name now c t id u a
  act (signs_out c) a = clear_session stringify parse index_name c a
  act signs_out_here a = clear_active_session stringify parse index_name a
  act (switches now c) a = set_active_context stringify parse index_name now c a
  act (prunes now) a = prune_expired_sessions stringify parse index_name now a
  act (becomes_local b) a = set_local_auth b a
  act (learns_identity id u) a = set_local_identity id u a

  unfoldable pub act_all : List Action → Auth → Auth
  act_all [] a = a
  act_all (o ∷ os) a = act_all os (act o a)

  -- Storage holds what the state says, no name stands twice, and storage can be written.
  abbrev pub IsMirrored : Auth → Type 0
  IsMirrored a = (a.storage ≡ saved a) × HasDistinct (keys a.sessions) × (a.writable ≡ true)

  persist-IsMirrored :
      (a : Auth)
      → HasDistinct (keys a.sessions)
      → a.writable ≡ true
      → IsMirrored (persist stringify parse index_name a)
  unfolding persist
  persist-IsMirrored a h w = simp w (refl, h, refl)

  clear-IsMirrored :
      (c : String) (a : Auth)
      → IsMirrored a
      → IsMirrored (clear_session stringify parse index_name c a)
  unfolding clear_session evict_context_caches
  clear-IsMirrored c a (st, h, w) = elim (Bool-cases (has_own (lookup c a.sessions))) [
    | inl t ↦ simp t (
        persist-IsMirrored (record a { sessions = erase c a.sessions })
          (erase-HasDistinct c a.sessions h) w)
    | inr f ↦ simp f (st, h, w)
  ]

  evict-IsMirrored :
      (names : List String) (a : Auth) → IsMirrored a → IsMirrored (evict_each names a)
  unfolding evict_each evict_context_caches
  evict-IsMirrored [] a m = m
  evict-IsMirrored (k ∷ names) a m = evict-IsMirrored names (evict_context_caches k a) m

  drop-IsMirrored :
      (names : List String) (a : Auth)
      → IsMirrored a
      → IsMirrored (drop_expired stringify parse index_name names a)
  unfolding drop_expired
  drop-IsMirrored [] a m = m
  drop-IsMirrored (k ∷ names) a (st, h, w) =
      let b = record a { sessions = erase_all (k ∷ names) a.sessions } in
      evict-IsMirrored (k ∷ names) (persist stringify parse index_name b)
        (persist-IsMirrored b (erase_all-HasDistinct (k ∷ names) a.sessions h) w)

  prune-IsMirrored :
      (now : ℕ) (a : Auth)
      → IsMirrored a
      → IsMirrored (prune_expired_sessions stringify parse index_name now a)
  unfolding prune_expired_sessions
  prune-IsMirrored now a m = drop-IsMirrored (expired_names now a.sessions) a m

  act-IsMirrored : (o : Action) (a : Auth) → IsMirrored a → IsMirrored (act o a)
  unfolding act set_session set_active_context clear_active_session set_local_auth
      set_local_identity
  act-IsMirrored (signs_in now c t id u) a (st, h, w) =
      persist-IsMirrored
        (record a {
          sessions =
              insert c
                (record {
                  token = t;
                  identity = id;
                  identity_unavailable = u;
                  expires_at = now + session_ttl_ms;
                })
                a.sessions;
          active_context = c;
        })
        (insert-HasDistinct c _ a.sessions h) w
  act-IsMirrored (signs_out c) a m = clear-IsMirrored c a m
  act-IsMirrored signs_out_here a m = clear-IsMirrored a.active_context a m
  act-IsMirrored (switches now c) a m =
      let (st, h, w) = prune-IsMirrored now a m in
      persist-IsMirrored
        (record (prune_expired_sessions stringify parse index_name now a) { active_context = c }) h
        w
  act-IsMirrored (prunes now) a m = prune-IsMirrored now a m
  act-IsMirrored (becomes_local b) a m = m
  act-IsMirrored (learns_identity id u) a m = m

  pub act_all-IsMirrored : (os : List Action) (a : Auth) → IsMirrored a → IsMirrored (act_all os a)
  unfolding act_all
  act_all-IsMirrored [] a m = m
  act_all-IsMirrored (o ∷ os) a m = act_all-IsMirrored os (act o a) (act-IsMirrored o a m)

  -- What a page load finds of a stored state: its context, the sessions that can be restored, and
  -- whether one was dropped.
  FindsAs : ℕ → String → Dict Session → Restored → Type 0
  FindsAs now c d r =
      (r.found.active_context ≡ c)
      × (r.dirty ≡ loses now d)
      × ((n : String) → lookup n r.found.sessions ≡ restorable_of now (lookup n d))

  restore_of_json :
      (now : ℕ) (c : String) (d : Dict Session)
      → HasDistinct (keys d)
      → FindsAs now c d (
          restore_parsed index_name now
            (sessions_json (record { active_context = c; sessions = d })))
  unfolding FindsAs restore_parsed sessions_json lookup
  restore_of_json now c d h = rw (members-to_members (jsons d)) (
    refl,
    dirty-restore_entries now d ([], false) ∙ or_false (loses now d),
    λ n.
        lookup-restore_entries now d ([], false) n h
        ∙ or_else-none (restorable_of now (lookup n d)),
  )

  -- `JSON.parse` reads back what `JSON.stringify` wrote of these sessions.
  ReadsBack : String → Dict Session → Type 0
  ReadsBack c d =
      parse (stringify (sessions_json (record { active_context = c; sessions = d })))
      ≡ some (sessions_json (record { active_context = c; sessions = d }))

  restore_of_text :
      (now : ℕ) (c : String) (d : Dict Session)
      → HasDistinct (keys d)
      → ReadsBack c d
      → FindsAs now c d (
          read_stored stringify parse index_name now
            (some (stringify (sessions_json (record { active_context = c; sessions = d })))))
  unfolding read_stored ReadsBack
  restore_of_text now c d h back = rw back (restore_of_json now c d h)

  restore_of_nothing :
      (now : ℕ) (c : String)
      → c ≡ ""
      → FindsAs now c [] (read_stored stringify parse index_name now none)
  unfolding FindsAs read_stored loses restorable_of lookup
  restore_of_nothing now c blank = (sym blank, refl, λ n. refl)

  restore_of_saved :
      (now : ℕ) (c : String) (d : Dict Session)
      → HasDistinct (keys d)
      → ReadsBack c d
      → FindsAs now c d (
          read_stored stringify parse index_name now
            (stored_item stringify parse index_name (record { active_context = c; sessions = d })))
  unfolding stored_item
  restore_of_saved now c [] h back = elim (Bool-cases (str_eq c "")) [
    | inl t ↦
        let blank : c ≡ "" = ground (arith, t, eq_iff c "") in
        simp t (restore_of_nothing now c blank)
    | inr f ↦ simp f (restore_of_text now c [] h back)
  ]
  restore_of_saved now c (e ∷ d) h back = elim (Bool-cases (str_eq c "")) [
    | inl t ↦ simp t (restore_of_text now c (e ∷ d) h back)
    | inr f ↦ simp f (restore_of_text now c (e ∷ d) h back)
  ]

  loaded_from :
      (now : ℕ) (storage : Option String) (c : String) (d : Dict Session) (n : String)
      (r : Restored)
      → FindsAs now c d r
      → let b =
          if r.dirty
          then persist stringify parse index_name (opened stringify parse index_name storage true r)
          else opened stringify parse index_name storage true r in
        (b.active_context ≡ c)
        × (lookup n b.sessions ≡ restorable_of now (lookup n d))
        × (b.storage ≡ (if loses now d then saved b else storage))
  unfolding persist opened FindsAs
  loaded_from now storage c d n r (fc, fd, fs) = elim (Bool-cases r.dirty) [
    | inl t ↦ let lo : loses now d ≡ true = sym fd ∙ t in simp (t, lo) (fc, fs n, refl)
    | inr f ↦ let lo : loses now d ≡ false = sym fd ∙ f in simp (f, lo) (fc, fs n, refl)
  ]

  -- `load` from what a mirrored state stored.
  load_of_mirrored :
      (now : ℕ) (a : Auth) (n : String)
      → IsMirrored a
      → ReadsBack a.active_context a.sessions
      → let b = load stringify parse index_name now true a.storage in
        (b.active_context ≡ a.active_context)
        × (lookup n b.sessions ≡ restorable_of now (lookup n a.sessions))
        × (b.storage ≡ (if loses now a.sessions then saved b else a.storage))
  unfolding load ReadsBack
  load_of_mirrored now a n (st, h, w) back =
      loaded_from now a.storage a.active_context a.sessions n
        (read_stored stringify parse index_name now a.storage)
        (rw st (restore_of_saved now a.active_context a.sessions h back))

  fresh-IsMirrored : (now : ℕ) → IsMirrored (load stringify parse index_name now true none)
  unfolding load opened read_stored stored_item
  fresh-IsMirrored now = (refl, tt, refl)

  -- What the tab has written after these actions.
  abbrev pub written : ℕ → List Action → Sessions
  written start actions =
      let a = act_all actions (load stringify parse index_name start true none) in
      record { active_context = a.active_context; sessions = a.sessions }

  -- Whatever a tab does from a page load with nothing stored, while storage can be written, storage
  -- always holds the state that the tab shows. A reload at a later time then has the same active
  -- context, exactly the sessions whose token is not empty and whose lifetime is not over, and it
  -- rewrites storage at once if it dropped a session. `JSON.parse` must read back the sessions that
  -- `JSON.stringify` wrote.
  pub reload_keeps_sessions :
      (start now : ℕ) (actions : List Action) (context : String)
      → parse (stringify (sessions_json (written start actions)))
        ≡ some (sessions_json (written start actions))
      → let a = act_all actions (load stringify parse index_name start true none) in
        let b = load stringify parse index_name now true a.storage in
        (a.storage ≡ saved a)
        × (b.active_context ≡ a.active_context)
        × (lookup context b.sessions ≡ restorable_of now (lookup context a.sessions))
        × (b.storage ≡ (if loses now a.sessions then saved b else a.storage))
  unfolding ReadsBack
  reload_keeps_sessions start now actions context back =
      let m =
        act_all-IsMirrored actions (load stringify parse index_name start true none)
          (fresh-IsMirrored start) in
      let (c, l, t) =
        load_of_mirrored now (act_all actions (load stringify parse index_name start true none))
          context m back in
      (m.0, c, l, t)
