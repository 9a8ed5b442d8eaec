-- ===== src/Auth/Decode.antt =====
-- web/src/stores/auth.ts: what a page load reads back of the written sessions.
use kube_console.Shared.{
  ℕ, ◌≡◌, refl, ap, ◌∙◌, Bool, true, false, ◌||◌, List, [], ◌∷◌, map, Option, none, some, String,
  arith, leb, str_eq, if◌then◌else◌, any, Bool-cases, inl, inr, eq_iff,
}
use kube_console.Shared.Maps.{Dict, lookup, keys, lookup-insert, HasDistinct, NotIn}
use kube_console.Auth.Json.{Json, elements-to_elements, str}
use kube_console.Auth.Storage.{
  Identity, Session, all_strings, parse_identity, identity_of, identity_json, session_json,
  parse_session, session_of, restore_entries, restore_entry,
}

strings_back : (ss : List String) → all_strings (map str ss) ≡ some ss
strings_back [] = refl
strings_back (s ∷ ss) = rw (strings_back ss) refl

fields_back :
    (u : String) (uid : Option String) (groups : Option (List String))
    → parse_identity
        (some (identity_json (some (record { username = u; uid = uid; groups = groups }))))
      ≡ some (record { username = u; uid = uid; groups = groups })
unfolding parse_identity identity_json identity_of lookup
fields_back u none none = refl
fields_back u (some i) none = refl
fields_back u none (some gs) = rw (elements-to_elements (map str gs), strings_back gs) refl
fields_back u (some i) (some gs) = rw (elements-to_elements (map str gs), strings_back gs) refl

none_back : parse_identity (some (identity_json none)) ≡ none
unfolding parse_identity identity_json identity_of lookup
none_back = refl

identity_back : (id : Option Identity) → parse_identity (some (identity_json id)) ≡ id
identity_back none = none_back
identity_back (some id) = fields_back id.username id.uid id.groups

-- What a page load at a time makes of a stored session: nothing, where the token is empty or the
-- lifetime is over.
unfoldable pub restorable : ℕ → Session → Option Session
restorable now s = if str_eq s.token "" || leb s.expires_at now then none else some s

pub session_back : (now : ℕ) (s : Session) → parse_session now (session_json s) ≡ restorable now s
unfolding parse_session session_json session_of lookup restorable
session_back now s = rw (identity_back s.identity) refl

-- The first of two values that is there.
abbrev pub or_else : Option Session → Option Session → Option Session
or_else none o = o
or_else (some s) o = some s

unfoldable pub restorable_of : ℕ → Option Session → Option Session
restorable_of now none = none
restorable_of now (some s) = restorable now s

unnamed : {V : Type 0} (k : String) (d : Dict V) → NotIn k (keys d) → lookup k d ≡ none
unfolding lookup
unnamed k [] h = refl
unnamed k ((j, v) ∷ d) h = ground (arith, unnamed k d, eq_iff j k)

abbrev pub jsons : Dict Session → Dict Json
jsons d = map (λ e. (e.0, session_json e.1)) d

lookup-restore_entry :
    (k n : String) (o : Option Session) (acc : Dict Session × Bool)
    → lookup n (restore_entry k o acc).0
      ≡ (if str_eq k n then or_else o (lookup n acc.0) else lookup n acc.0)
unfolding restore_entry
lookup-restore_entry k n none acc = ground arith
lookup-restore_entry k n (some s) acc = lookup-insert acc.0 k s n

pub lookup-restore_entries :
    (now : ℕ) (d : Dict Session) (acc : Dict Session × Bool) (n : String)
    → HasDistinct (keys d)
    → lookup n (restore_entries now (jsons d) acc).0
      ≡ or_else (restorable_of now (lookup n d)) (lookup n acc.0)
unfolding restore_entries restorable_of lookup
lookup-restore_entries now [] acc n h = refl
lookup-restore_entries now ((k, s) ∷ d) acc n h =
    let acc' = restore_entry k (parse_session now (session_json s)) acc in
    let ih = lookup-restore_entries now d acc' n h.1 in
    let e = lookup-restore_entry k n (parse_session now (session_json s)) acc in
    elim (Bool-cases (str_eq k n)) [
      | inl t ↦
          let kn : k ≡ n = ground (arith, t, eq_iff k n) in
          let gone : lookup n d ≡ none = unnamed n d (rw kn at h.0) in
          simp t (
            ih
            ∙ ap (λ o. or_else (restorable_of now o) (lookup n acc'.0)) gone
            ∙ (simp t at e)
            ∙ ap (λ o. or_else o (lookup n acc.0)) (session_back now s))
      | inr f ↦ simp f (ih ∙ ap (λ o. or_else (restorable_of now (lookup n d)) o) (simp f at e))
    ]

unfoldable pub is_lost : Option Session → Bool
is_lost none = true
is_lost (some s) = false

-- Whether a page load drops one of the stored sessions.
unfoldable pub loses : ℕ → Dict Session → Bool
loses now d = any (λ e. is_lost (restorable now e.1)) d

dirty-restore_entry :
    (k : String) (o : Option Session) (acc : Dict Session × Bool)
    → (restore_entry k o acc).1 ≡ (is_lost o || acc.1)
unfolding restore_entry is_lost
dirty-restore_entry k none acc = refl
dirty-restore_entry k (some s) acc = refl

or_swap : (a b c : Bool) → (a || (b || c)) ≡ ((b || a) || c)
or_swap a b c = ground arith

pub dirty-restore_entries :
    (now : ℕ) (d : Dict Session) (acc : Dict Session × Bool)
    → (restore_entries now (jsons d) acc).1 ≡ (loses now d || acc.1)
unfolding restore_entries loses
dirty-restore_entries now [] acc = refl
dirty-restore_entries now ((k, s) ∷ d) acc =
    let o = parse_session now (session_json s) in
    dirty-restore_entries now d (restore_entry k o acc)
    ∙ ap (λ b. loses now d || b) (dirty-restore_entry k o acc)
    ∙ or_swap (loses now d) (is_lost o) acc.1
    ∙ ap (λ x. (is_lost x || loses now d) || acc.1) (session_back now s)

pub or_false : (b : Bool) → (b || false) ≡ b
or_false b = ground arith

pub or_else-none : (o : Option Session) → or_else o none ≡ o
or_else-none none = refl
or_else-none (some s) = refl
