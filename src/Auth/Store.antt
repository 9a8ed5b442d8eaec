-- ===== src/Auth/Store.antt =====
-- The store of web/src/stores/auth.ts: its state and its operations. The evictions of a context's
-- caches, which other parts carry out, are a log; the sort of the names is an argument.
use kube_console.Shared.{
  ℕ, ◌+◌, Bool, true, false, not, ◌&&◌, List, [], ◌∷◌, ◌++◌, Option, none, some, String, ltb, leb,
  str_eq, if◌then◌else◌, filter,
}
use kube_console.Shared.Maps.{Dict, lookup, insert, erase, keys}
use kube_console.Auth.Json.{Json}
use kube_console.Auth.Storage.{
  Identity, Session, Restored, session_ttl_ms, stored_item, read_stored,
}

pub record LocalIdentity : Type 0 where
  pub reported : Option Identity
  pub unavailable : Bool

pub record Auth : Type 0 where
  pub active_context : String
  pub sessions : Dict Session
  pub local_auth : Bool
  pub local_identity : Option LocalIdentity
  -- the item of `sessionStorage` under the key, and whether the storage can be written
  pub storage : Option String
  pub writable : Bool
  -- the contexts whose caches were evicted, in order
  pub evicted : List String

-- `isSessionExpired(session)` at the time `now`.
unfoldable pub is_session_expired : ℕ → Session → Bool
is_session_expired now s = ltb 0 s.expires_at && leb s.expires_at now

-- `session !== null && session.token !== "" && !isSessionExpired(session)`
unfoldable pub is_usable : ℕ → Option Session → Bool
is_usable now none = false
is_usable now (some s) = not (str_eq s.token "") && not (is_session_expired now s)

abbrev pub token_of : Option Session → Option String
token_of none = none
token_of (some s) = some s.token

abbrev pub identity_in : Option Session → Option Identity
identity_in none = none
identity_in (some s) = s.identity

abbrev pub reported_in : Option LocalIdentity → Option Identity
reported_in none = none
reported_in (some l) = l.reported

unfoldable pub active : Auth → Option Session
active a = lookup a.active_context a.sessions

unfoldable pub token : Auth → Option String
token a = if a.local_auth then none else token_of (active a)

unfoldable pub identity : Auth → Option Identity
identity a = if a.local_auth then reported_in a.local_identity else identity_in (active a)

unfoldable pub has_session : ℕ → String → Auth → Bool
has_session now context a = if a.local_auth then true else is_usable now (lookup context a.sessions)

unfoldable pub is_authenticated : ℕ → Auth → Bool
is_authenticated now a = has_session now a.active_context a

unfoldable pub signed_in_contexts : (List String → List String) → ℕ → Auth → List String
signed_in_contexts sort now a = sort (filter (λ name. has_session now name a) (keys a.sessions))

unfoldable pub set_local_auth : Bool → Auth → Auth
set_local_auth enabled a = record a { local_auth = enabled }

unfoldable pub set_local_identity : Option Identity → Bool → Auth → Auth
set_local_identity new_identity unavailable a = record a {
  local_identity = some (record { reported = new_identity; unavailable = unavailable });
}

unfoldable pub is_expired_entry : ℕ → Option Session → Bool
is_expired_entry now none = false
is_expired_entry now (some s) = is_session_expired now s

-- The names whose sessions have passed their lifetime.
unfoldable pub expired_names : ℕ → Dict Session → List String
expired_names now d = filter (λ name. is_expired_entry now (lookup name d)) (keys d)

-- `for (const name of expired) delete next[name]`
unfoldable pub erase_all {ℓ} : {V : Type ℓ} → List String → Dict V → Dict V
erase_all [] d = d
erase_all (name ∷ names) d = erase_all names (erase name d)

-- `Object.hasOwn(sessions, context)`
abbrev pub has_own {ℓ} : {V : Type ℓ} → Option V → Bool
has_own none = false
has_own (some _) = true

unfoldable pub evict_context_caches : String → Auth → Auth
evict_context_caches context a = record a { evicted = a.evicted ++ (context ∷ []) }

unfoldable pub evict_each : List String → Auth → Auth
evict_each [] a = a
evict_each (name ∷ names) a = evict_each names (evict_context_caches name a)

module _ (stringify : Json → String) (parse : String → Option Json) (index_name : ℕ → String) where
  unfoldable pub persist : Auth → Auth
  persist a =
      if a.writable
      then record a {
        storage =
            stored_item stringify parse index_name
              (record { active_context = a.active_context; sessions = a.sessions });
      }
      else a

  unfoldable pub opened : Option String → Bool → Restored → Auth
  opened storage writable restored = record {
    active_context = restored.found.active_context;
    sessions = restored.found.sessions;
    local_auth = false;
    local_identity = none;
    storage = storage;
    writable = writable;
    evicted = [];
  }

  -- The store as a page load builds it, from the item under the key.
  unfoldable pub load : ℕ → Bool → Option String → Auth
  load now writable storage =
      let restored = read_stored stringify parse index_name now storage in
      let a = opened storage writable restored in if restored.dirty then persist a else a

  unfoldable pub set_session : ℕ → String → String → Option Identity → Bool → Auth → Auth
  set_session now context new_token new_identity unavailable a = persist (record a {
    sessions =
        insert context
          (record {
            token = new_token;
            identity = new_identity;
            identity_unavailable = unavailable;
            expires_at = now + session_ttl_ms;
          })
          a.sessions;
    active_context = context;
  })

  unfoldable pub clear_session : String → Auth → Auth
  clear_session context a = evict_context_caches context (
      if has_own (lookup context a.sessions)
      then persist (record a { sessions = erase context a.sessions })
      else a)

  unfoldable pub clear_active_session : Auth → Auth
  clear_active_session a = clear_session a.active_context a

  unfoldable pub drop_expired : List String → Auth → Auth
  drop_expired [] a = a
  drop_expired (name ∷ names) a =
      evict_each (name ∷ names)
        (persist (record a { sessions = erase_all (name ∷ names) a.sessions }))

  -- The state after `pruneExpiredSessions()`; it returns `expired_names`.
  unfoldable pub prune_expired_sessions : ℕ → Auth → Auth
  prune_expired_sessions now a = drop_expired (expired_names now a.sessions) a

  unfoldable pub set_active_context : ℕ → String → Auth → Auth
  set_active_context now name a =
      persist (record (prune_expired_sessions now a) { active_context = name })
