-- ===== src/Auth/Storage.antt =====
-- What web/src/stores/auth.ts keeps in `sessionStorage`, its validation and its writing. `JSON.parse`,
-- `JSON.stringify` and the names of array indices are arguments.
use kube_console.Shared.{
  ℕ, ◌+◌, Bool, true, false, ◌&&◌, ◌||◌, List, [], ◌∷◌, map, Option, none, some, String, leb,
  str_eq, if◌then◌else◌,
}
use kube_console.Shared.Maps.{Dict, insert}
use kube_console.Auth.Json.{
  Json, null, bool, num, str, arr, obj, elements, members, to_elements, to_members, get_field,
}

unfoldable pub session_ttl_ms : ℕ
session_ttl_ms = 28800000

-- `Identity` of web/src/api/types.ts
pub record Identity : Type 0 where
  pub username : String
  pub uid : Option String
  pub groups : Option (List String)

pub record Session : Type 0 where
  pub token : String
  pub identity : Option Identity
  pub identity_unavailable : Bool
  pub expires_at : ℕ

pub record Sessions : Type 0 where
  pub active_context : String
  pub sessions : Dict Session

abbrev pub as_string : Option Json → Option String
as_string (some (str s)) = some s
as_string _ = none

-- The strings of an array that holds nothing else.
abbrev pub all_strings : List Json → Option (List String)
all_strings [] = some []
all_strings (str s ∷ vs) = elim (all_strings vs) [ none ↦ none | some ss ↦ some (s ∷ ss) ]
all_strings (_ ∷ vs) = none

abbrev pub as_strings : Option Json → Option (List String)
as_strings (some (arr vs)) = all_strings (elements vs)
as_strings _ = none

unfoldable pub identity_of : Option String → Json → Option Identity
identity_of none value = none
identity_of (some username) value = some (record {
  username = username;
  uid = as_string (get_field "uid" value);
  groups = as_strings (get_field "groups" value);
})

-- `parseIdentity(value)`, where the value may be missing.
unfoldable pub parse_identity : Option Json → Option Identity
unfolding identity_of
parse_identity none = none
parse_identity (some value) = identity_of (as_string (get_field "username" value)) value

abbrev pub as_number : Option Json → Option ℕ
as_number (some (num n)) = some n
as_number _ = none

abbrev pub is_true : Option Json → Bool
is_true (some (bool b)) = b
is_true _ = false

unfoldable pub session_of : ℕ → Json → Option String → Option ℕ → Option Session
session_of now value none expires_at = none
session_of now value (some token) none = none
session_of now value (some token) (some expires_at) =
    if str_eq token "" || leb expires_at now
    then none
    else some (record {
      token = token;
      identity = parse_identity (get_field "identity" value);
      identity_unavailable = is_true (get_field "identityUnavailable" value);
      expires_at = expires_at;
    })

-- `parseSession(value)` at the time `now`.
unfoldable pub parse_session : ℕ → Json → Option Session
unfolding session_of
parse_session now value =
    session_of now value (as_string (get_field "token" value))
      (as_number (get_field "expiresAt" value))

-- What a restore found, and whether storage held entries that were dropped.
pub record Restored : Type 0 where
  pub found : Sessions
  pub dirty : Bool

abbrev pub no_sessions : Sessions
no_sessions = record { active_context = ""; sessions = [] }

-- One entry of the loop of `readStoredSessions`.
unfoldable pub restore_entry : String → Option Session → Dict Session × Bool → Dict Session × Bool
restore_entry name none (sessions, dirty) = (sessions, true)
restore_entry name (some s) (sessions, dirty) = (insert name s sessions, dirty)

unfoldable pub restore_entries : ℕ → Dict Json → Dict Session × Bool → Dict Session × Bool
restore_entries now [] acc = acc
restore_entries now ((name, value) ∷ rest) acc =
    restore_entries now rest (restore_entry name (parse_session now value) acc)

-- `typeof parsed.activeContext === "string" ? parsed.activeContext : ""`
abbrev pub or_empty : Option String → String
or_empty none = ""
or_empty (some s) = s

abbrev pub indexed : (ℕ → String) → ℕ → List Json → Dict Json
indexed index_name i [] = []
indexed index_name i (v ∷ vs) = (index_name i, v) ∷ indexed index_name (i + 1) vs

-- `Object.entries(value)` of an object or an array; nothing where the code does not look.
abbrev pub entries : (ℕ → String) → Option Json → Dict Json
entries index_name (some (obj ms)) = members ms
entries index_name (some (arr vs)) = indexed index_name 0 (elements vs)
entries index_name _ = []

unfoldable pub restore_parsed : (ℕ → String) → ℕ → Json → Restored
restore_parsed index_name now null = record { found = no_sessions; dirty = true }
restore_parsed index_name now parsed =
    let (sessions, dirty) =
      restore_entries now (entries index_name (get_field "sessions" parsed)) ([], false) in
    record {
      found = record {
        active_context = or_empty (as_string (get_field "activeContext" parsed));
        sessions = sessions;
      };
      dirty = dirty;
    }

-- What `JSON.stringify` is given for the optional fields: undefined ones are left out.
abbrev pub optional : String → Option Json → Dict Json → Dict Json
optional name none rest = rest
optional name (some v) rest = (name, v) ∷ rest

abbrev pub strings_json : List String → Json
strings_json ss = arr (to_elements (map str ss))

abbrev pub string_field : Option String → Option Json
string_field none = none
string_field (some s) = some (str s)

abbrev pub strings_field : Option (List String) → Option Json
strings_field none = none
strings_field (some ss) = some (strings_json ss)

unfoldable pub identity_json : Option Identity → Json
identity_json none = null
identity_json (some id) = obj (
    to_members (
      ("username", str id.username)
      ∷ optional "uid" (string_field id.uid) (optional "groups" (strings_field id.groups) [])))

unfoldable pub session_json : Session → Json
session_json s = obj (
    to_members (
      ("token", str s.token)
      ∷ ("identity", identity_json s.identity)
      ∷ ("identityUnavailable", bool s.identity_unavailable)
      ∷ ("expiresAt", num s.expires_at)
      ∷ []))

unfoldable pub sessions_json : Sessions → Json
sessions_json state = obj (
    to_members (
      ("activeContext", str state.active_context)
      ∷ ("sessions", obj (to_members (map (λ e. (e.0, session_json e.1)) state.sessions)))
      ∷ []))

-- Nothing worth storing: the item is removed.
abbrev pub is_blank_state : Sessions → Bool
is_blank_state state =
    str_eq state.active_context "" && elim state.sessions [ [] ↦ true | s ∷ rest ↦ false ]

module _ (stringify : Json → String) (parse : String → Option Json) (index_name : ℕ → String) where
  -- What `writeStoredSessions(state)` leaves under the key.
  unfoldable pub stored_item : Sessions → Option String
  stored_item state = if is_blank_state state then none else some (stringify (sessions_json state))

  abbrev restore_text : ℕ → Option Json → Restored
  restore_text now none = record { found = no_sessions; dirty = true }
  restore_text now (some parsed) = restore_parsed index_name now parsed

  -- `readStoredSessions()` over the item under the key.
  unfoldable pub read_stored : ℕ → Option String → Restored
  read_stored now none = record { found = no_sessions; dirty = false }
  read_stored now (some raw) = restore_text now (parse raw)
