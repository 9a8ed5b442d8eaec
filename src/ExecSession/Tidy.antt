-- ===== src/ExecSession/Tidy.antt =====
-- web/src/composables/useExecSession.ts: the invariant of a session.
use kube_console.Shared.{
  ℕ, ◌<◌, ◌≡◌, refl, sym, ap, ◌∙◌, Bool, true, false, not, ◌&&◌, ◌||◌, List, [], ◌∷◌, ◌++◌, Option,
  none, some, String, All, arith, ◌==◌, str_eq, if◌then◌else◌, length, get_or, is_none, Bool-cases,
  inl, inr,
}
use kube_console.ExecSession.Session.{
  ExecTarget, Socket, Session, awaited, served, stop, connect, authenticate, resume_for, resume,
  begin, start, is_socket,
}
use kube_console.ExecSession.Sockets.{
  is_accounted, is_introduced, accounts, introduces, Sound, AllSound, freed-Sound, shut_ws-Sound,
  All-map,
}

pub record IsTidy (s : Session) : Type 0 where
  pub no_later : (g : ℕ) → s.gen < g → awaited g s.awaiting ≡ none
  pub waits_alone : (is_none (awaited s.gen s.awaiting) || is_none s.ws) ≡ true
  pub sound : AllSound s.ws s.sockets

pub awaited-served :
    (g h : ℕ) (ws : List (ℕ × ExecTarget))
    → awaited h (served g ws) ≡ (if g == h then none else awaited h ws)
unfolding awaited served
awaited-served g h [] = ground arith
awaited-served g h ((k, p) ∷ ws) = ground (arith, awaited-served g h ws)

pub stop-IsTidy : (s : Session) → IsTidy s → IsTidy (stop s)
unfolding stop
stop-IsTidy s v = record {
  no_later = λ g lt. v.no_later g (omega arith);
  waits_alone = ground arith;
  sound = shut_ws-Sound s.ws s.sockets v.sound;
}

begin-IsTidy : (target : ExecTarget) (s : Session) → IsTidy s → IsTidy (begin target s)
unfolding begin stop awaited
begin-IsTidy target s v = record {
  no_later = λ g lt. ground (arith, v.no_later g (omega arith));
  waits_alone = ground arith;
  sound = shut_ws-Sound s.ws s.sockets v.sound;
}

All-append :
    (P : Socket → Type 0) (ks : List Socket) (k : Socket) → All P ks → P k → All P (ks ++ k ∷ [])
All-append P [] k h p = (p, tt)
All-append P (j ∷ ks) k (q, h) p = (q, All-append P ks k h p)

connect-IsTidy :
    (token : String) (context : Option String) (target : ExecTarget) (s : Session)
    → IsTidy s
    → s.ws ≡ none
    → awaited s.gen s.awaiting ≡ none
    → IsTidy (connect token context target s)
unfolding connect is_accounted is_introduced accounts introduces is_socket
connect-IsTidy token context target s v free alone =
    let h : AllSound none s.sockets = rw (sym free) v.sound in
    record {
      no_later = v.no_later;
      waits_alone = ground (arith, alone);
      sound =
          All-append (Sound (some (length s.sockets))) s.sockets _
            (All-map (Sound none) (Sound (some (length s.sockets))) s.sockets
              (freed-Sound (some (length s.sockets))) h)
            (ground arith, refl);
    }

-- A session of which one start no longer awaits its credentials.
pub served-IsTidy :
    (g : ℕ) (s : Session) → IsTidy s → IsTidy (record s { awaiting = served g s.awaiting })
served-IsTidy g s v = record {
  no_later = λ h lt. ground (arith, awaited-served g h s.awaiting, v.no_later h lt);
  waits_alone = ground (arith, awaited-served g s.gen s.awaiting, v.waits_alone);
  sound = v.sound;
}

authenticate-IsTidy :
    (token context : Option String) (local : Bool) (target : ExecTarget) (s : Session)
    → IsTidy s
    → s.ws ≡ none
    → awaited s.gen s.awaiting ≡ none
    → IsTidy (authenticate token context local target s)
unfolding authenticate
authenticate-IsTidy token context local target s v free alone =
    elim (Bool-cases (str_eq (get_or token "") "" && not local)) [
      | inl t ↦
          simp t (record { no_later = v.no_later; waits_alone = v.waits_alone; sound = v.sound })
      | inr f ↦ simp f (connect-IsTidy (get_or token "") context target s v free alone)
    ]

pub resume_for-IsTidy :
    (g : ℕ) (o : Option ExecTarget) (token context : Option String) (local : Bool) (s : Session)
    → awaited g s.awaiting ≡ o
    → IsTidy s
    → IsTidy (resume_for g o token context local s)
unfolding resume_for
resume_for-IsTidy g none token context local s e v = v
resume_for-IsTidy g (some target) token context local s e v =
    let rest = record s { awaiting = served g s.awaiting } in
    let w = served-IsTidy g s v in
    elim (Bool-cases (g == s.gen)) [
      | inl t ↦
          let same : g ≡ s.gen = ground (arith, t) in
          simp t (
            authenticate-IsTidy token context local target rest w
              (free s.ws refl (sym (ap (λ h. awaited h s.awaiting) same) ∙ e))
              (awaited-served g s.gen s.awaiting ∙ simp t refl))
      | inr f ↦ simp f w
    ]
  where
    free : (ws : Option ℕ) → s.ws ≡ ws → awaited s.gen s.awaiting ≡ some target → s.ws ≡ none
    free none eq here = eq
    free (some n) eq here = ground (arith, here, eq, v.waits_alone)

pub start-IsTidy :
    (provided local : Bool) (target : ExecTarget) (s : Session)
    → IsTidy s
    → IsTidy (start provided local target s)
unfolding start resume
start-IsTidy true local target s v = begin-IsTidy target s v
start-IsTidy false local target s v =
    let begun = begin target s in
    resume_for-IsTidy begun.gen (awaited begun.gen begun.awaiting) none none local begun refl
      (begin-IsTidy target s v)
