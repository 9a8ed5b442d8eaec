-- ===== src/Auth/Tests.antt =====
-- Runs of the session store at concrete inputs. The serialiser of the examples writes and reads the
-- one state that they store.
use kube_console.Shared.{
  ℕ, ◌≡◌, refl, Bool, true, false, List, [], ◌∷◌, ◌++◌, Option, none, some, String, if◌then◌else◌,
  str_eq,
}
use kube_console.Shared.Maps.{lookup, insert, erase}
use kube_console.Auth.Json.{Json, null, bool, num, str, obj, to_members}
use kube_console.Auth.Storage.{
  stored_item, sessions_json, session_json, identity_json, session_ttl_ms, read_stored,
  restore_parsed, restore_entries, restore_entry, parse_session, session_of, parse_identity,
  identity_of,
}
use kube_console.Auth.Store.{
  Auth, load, opened, persist, set_session, clear_session, clear_active_session, set_active_context,
  drop_expired, prune_expired_sessions, expired_names, is_expired_entry, is_session_expired,
  is_usable, has_session, is_authenticated, erase_all, evict_each, evict_context_caches,
  set_local_auth, set_local_identity, token, active,
}
use kube_console.Auth.Prune.{unexpired, prune_drops_expired, prune_keeps_signed_in}
use kube_console.Auth.SignOut.{sign_out_is_local}
use kube_console.Auth.Decode.{restorable_of, loses}
use kube_console.Auth.Restore.{
  Action, signs_in, act, act_all, saved, written, reload_keeps_sessions,
}

session_store : Unit {0}
unfolding load opened persist set_session clear_session clear_active_session set_active_context
    drop_expired prune_expired_sessions expired_names is_expired_entry is_session_expired is_usable
    has_session is_authenticated erase_all evict_each evict_context_caches set_local_auth
    set_local_identity token active lookup insert erase stored_item sessions_json session_json
    identity_json session_ttl_ms read_stored restore_parsed restore_entries restore_entry
    parse_session session_of parse_identity identity_of act act_all
session_store = tt

abbrev index_name : ℕ → String
index_name i = "0"

-- Two sign-ins, of which the first is over at 28800100.
abbrev actions : List Action
actions = signs_in 100 "dev" "t1" none false ∷ signs_in 5000 "prod" "t2" none true ∷ []

abbrev session_text : String → ℕ → Bool → Json
session_text token expires_at unavailable = obj (
    to_members (
      ("token", str token)
      ∷ ("identity", null)
      ∷ ("identityUnavailable", bool unavailable)
      ∷ ("expiresAt", num expires_at)
      ∷ []))

abbrev stored : Json
stored = obj (
    to_members (
      ("activeContext", str "prod")
      ∷ (
        "sessions",
        obj (
            to_members (
              ("dev", session_text "t1" 28800100 false)
              ∷ ("prod", session_text "t2" 28805000 true)
              ∷ [])),
      )
      ∷ []))

abbrev stored_text : String
stored_text = "{activeContext:prod,sessions:{dev:t1,prod:t2}}"

abbrev write : Json → String
write j = stored_text

abbrev read : String → Option Json
read text = if str_eq text stored_text then some stored else none

abbrev tab : Auth
tab = act_all write read index_name actions (load write read index_name 0 true none)

two_sessions : token tab ≡ some "t2"
unfolding session_store
two_sessions = refl

dev_is_over : (prune_expired_sessions write read index_name 28800100 tab).evicted ≡ "dev" ∷ []
unfolding session_store
dev_is_over = refl

prune_drops_expired_example :
    let b = prune_expired_sessions write read index_name 28800100 tab in
    (lookup "dev" b.sessions ≡ unexpired 28800100 (lookup "dev" tab.sessions))
    × (b.evicted ≡ tab.evicted ++ expired_names 28800100 tab.sessions)
    × (b.active_context ≡ tab.active_context)
prune_drops_expired_example = prune_drops_expired write read index_name 28800100 tab "dev"

prune_keeps_signed_in_example :
    let b = prune_expired_sessions write read index_name 28800100 tab in
    (has_session 28800100 "prod" b ≡ has_session 28800100 "prod" tab)
    × (is_authenticated 28800100 b ≡ is_authenticated 28800100 tab)
prune_keeps_signed_in_example = prune_keeps_signed_in write read index_name 28800100 tab "prod"

reads_back :
    read (write (sessions_json (written write read index_name 0 actions)))
    ≡ some (sessions_json (written write read index_name 0 actions))
unfolding session_store
reads_back = refl

reload_keeps_sessions_example :
    let b = load write read index_name 28800100 true tab.storage in
    (tab.storage ≡ saved write read index_name tab)
    × (b.active_context ≡ tab.active_context)
    × (lookup "dev" b.sessions ≡ restorable_of 28800100 (lookup "dev" tab.sessions))
    × (b.storage
        ≡ (if loses 28800100 tab.sessions then saved write read index_name b else tab.storage))
reload_keeps_sessions_example =
    reload_keeps_sessions write read index_name 0 28800100 actions "dev" reads_back

sign_out_is_local_example :
    let b = clear_session write read index_name "prod" tab in
    (lookup "dev" b.sessions ≡ (if str_eq "prod" "dev" then none else lookup "dev" tab.sessions))
    × (b.evicted ≡ tab.evicted ++ ("prod" ∷ []))
    × (b.active_context ≡ tab.active_context)
sign_out_is_local_example = sign_out_is_local write read index_name "prod" "dev" tab
