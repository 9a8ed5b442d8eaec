-- ===== src/ExecSession/Stopped.antt =====
-- web/src/composables/useExecSession.ts: nothing happens in a session after stop().
use kube_console.Shared.{
  ℕ, ◌≤◌, ◌≡◌, refl, ap, ◌∙◌, Bool, true, false, not, ◌&&◌, List, map, [], ◌∷◌, Option, none, some,
  String, All, arith, ◌==◌, Bool-cases, inl, inr,
}
use kube_console.ExecSession.Session.{
  ExecTarget, ExecStatus, idle, connecting, ready, closed, error, Frame, input_frame, resize_frame,
  ControlFrame, ReadyState, opening, opened, closing, gone, Socket, Session, awaited, change_socket,
  socket_at, shut_ws, closed_if_live, stop, resume_for, resume, open_socket, opened_state,
  greeted_in, auth_of, fires, hears, is_heard, is_socket, send_on, go_away, Event, starts, stops,
  answers, opens, receives, closes, fails, types, resizes, step, run, fresh,
}
use kube_console.ExecSession.Sockets.{is_accounted, accounts, Sound, All-map}
use kube_console.ExecSession.Tidy.{IsTidy, stop-IsTidy, awaited-served}
use kube_console.ExecSession.Leaks.{reached-IsTidy}

-- All events but the calls of start().
unfoldable pub is_quiet : Event → Bool
is_quiet (starts provided local target) = false
is_quiet stops = true
is_quiet (answers g token context local) = true
is_quiet (opens n) = true
is_quiet (receives n message) = true
is_quiet (closes n) = true
is_quiet (fails n) = true
is_quiet (types data_text) = true
is_quiet (resizes cols rows) = true

unfoldable mutes : ReadyState → Bool → Bool
mutes opening attached = false
mutes opened attached = false
mutes closing attached = not attached
mutes gone attached = true

-- A socket that cannot open, is not open and has no handlers that fire.
abbrev IsMute : Socket → Type 0
IsMute k = mutes k.state k.attached ≡ true

record IsSilent (s : Session) : Type 0 where
  nothing_current : (g : ℕ) → s.gen ≤ g → awaited g s.awaiting ≡ none
  no_socket : s.ws ≡ none
  rests : closed_if_live s.status ≡ s.status
  mute : All IsMute s.sockets

-- What the owner and the backend can tell of a session.
abbrev pub Observed : Session → Session → Type 0
Observed s t =
    (t.status ≡ s.status)
    × (t.error_message ≡ s.error_message)
    × (t.calls ≡ s.calls)
    × (map (λ k. k.sent) t.sockets ≡ map (λ k. k.sent) s.sockets)

mutes-accounts :
    (st : ReadyState) (attached : Bool)
    → accounts st attached false ≡ true
    → mutes st attached ≡ true
unfolding mutes accounts
mutes-accounts opening attached h = ground (arith, h)
mutes-accounts opened attached h = ground (arith, h)
mutes-accounts closing attached h = h
mutes-accounts gone attached h = refl

closed_if_live-closed_if_live :
    (st : ExecStatus) → closed_if_live (closed_if_live st) ≡ closed_if_live st
unfolding closed_if_live
closed_if_live-closed_if_live idle = refl
closed_if_live-closed_if_live connecting = refl
closed_if_live-closed_if_live ready = refl
closed_if_live-closed_if_live closed = refl
closed_if_live-closed_if_live error = refl

stopped-IsSilent : (s : Session) → IsTidy s → IsSilent (stop s)
unfolding stop is_accounted is_socket
stopped-IsSilent s v = record {
  nothing_current = λ g le. v.no_later g (omega (arith, le));
  no_socket = refl;
  rests = closed_if_live-closed_if_live s.status;
  mute =
      All-map (Sound none) IsMute (stop s).sockets (λ k (a, i). mutes-accounts k.state k.attached a)
        (stop-IsTidy s v).sound;
}

-- A change of mute sockets that leaves what they sent.
change-IsMute :
    (n : ℕ) (f : Socket → Socket) (ks : List Socket)
    → ((k : Socket) → IsMute k → IsMute (f k) × ((f k).sent ≡ k.sent))
    → All IsMute ks
    → All IsMute (change_socket n f ks)
      × (map (λ k. k.sent) (change_socket n f ks) ≡ map (λ k. k.sent) ks)
unfolding change_socket
change-IsMute n f [] keep h = (tt, refl)
change-IsMute n f (k ∷ ks) keep (p, h) =
    let (hs, e) = change-IsMute n f ks keep h in
    let (q, same) = keep k p in
    elim (Bool-cases (k.number == n)) [
      | inl t ↦ simp t (
        (q, hs),
        ap (λ r. r ∷ map (λ k. k.sent) (change_socket n f ks)) same ∙ ap (λ r. k.sent ∷ r) e,
      )
      | inr g ↦ simp g ((p, hs), ap (λ r. k.sent ∷ r) e)
    ]

opened-IsMute : (k : Socket) → IsMute k → IsMute (open_socket k) × ((open_socket k).sent ≡ k.sent)
unfolding open_socket mutes opened_state greeted_in
opened-IsMute k m = by_state k.state k.attached k.sent m
  where
    by_state :
        (st : ReadyState) (attached : Bool) (sent : List Frame)
        → mutes st attached ≡ true
        → (mutes (opened_state st) attached ≡ true) × (greeted_in st (auth_of k) sent ≡ sent)
    by_state opening attached sent m = cc
    by_state opened attached sent m = cc
    by_state closing attached sent m = (m, refl)
    by_state gone attached sent m = (refl, refl)

heard-IsMute : (n : ℕ) (ks : List Socket) → All IsMute ks → is_heard (socket_at n ks) ≡ false
unfolding socket_at is_heard hears mutes fires
heard-IsMute n [] h = refl
heard-IsMute n (k ∷ ks) (p, h) = elim (Bool-cases (k.number == n)) [
  | inl t ↦ simp t (unheard k.state k.attached p)
  | inr f ↦ simp f (heard-IsMute n ks h)
]
  where
    unheard :
        (st : ReadyState) (attached : Bool)
        → mutes st attached ≡ true
        → (fires st && attached) ≡ false
    unheard opening attached p = cc
    unheard opened attached p = cc
    unheard closing attached p = ground (arith, p)
    unheard gone attached p = refl

-- The awaited start is an old one, if there is one.
resume-IsSilent :
    (g : ℕ) (o : Option ExecTarget) (token context : Option String) (local : Bool) (s : Session)
    → awaited g s.awaiting ≡ o
    → IsSilent s
    → IsSilent (resume_for g o token context local s)
      × Observed s (resume_for g o token context local s)
unfolding resume_for
resume-IsSilent g none token context local s e v = (v, (refl, refl, refl, refl))
resume-IsSilent g (some target) token context local s e v = elim (Bool-cases (g == s.gen)) [
  | inl t ↦ absurd (impossible t)
  | inr f ↦ simp f (
    record {
      nothing_current =
          λ h le. ground (arith, awaited-served g h s.awaiting, v.nothing_current h le);
      no_socket = v.no_socket;
      rests = v.rests;
      mute = v.mute;
    },
    (refl, refl, refl, refl),
  )
]
  where
    impossible : (g == s.gen) ≡ true → ⊥
    impossible t = let none_here = v.nothing_current g (ground (arith, t)) in cc

-- A step that changes the sockets one by one.
changed-IsSilent :
    (n : ℕ) (f : Socket → Socket) (s : Session)
    → ((k : Socket) → IsMute k → IsMute (f k) × ((f k).sent ≡ k.sent))
    → IsSilent s
    → let t = record s { sockets = change_socket n f s.sockets } in IsSilent t × Observed s t
changed-IsSilent n f s keep v =
    let (hs, e) = change-IsMute n f s.sockets keep v.mute in
    (
      record {
        nothing_current = v.nothing_current;
        no_socket = v.no_socket;
        rests = v.rests;
        mute = hs;
      },
      (refl, refl, refl, e),
    )

went-IsMute : (k : Socket) → IsMute k → IsMute (go_away k) × ((go_away k).sent ≡ k.sent)
unfolding go_away mutes
went-IsMute k m = (refl, refl)

sends-IsSilent :
    (ws : Option ℕ) (f : Frame) (s : Session)
    → ws ≡ none
    → IsSilent s
    → IsSilent (send_on ws f s) × Observed s (send_on ws f s)
unfolding send_on
sends-IsSilent none f s e v = (v, (refl, refl, refl, refl))
sends-IsSilent (some n) f s e v = cc

stops-IsSilent : (s : Session) → IsSilent s → IsSilent (stop s) × Observed s (stop s)
unfolding stop shut_ws
stops-IsSilent s v =
    let same : shut_ws s.ws s.sockets ≡ s.sockets = ap (λ w. shut_ws w s.sockets) v.no_socket in
    (
      record {
        nothing_current = λ g le. v.nothing_current g (omega (arith, le));
        no_socket = refl;
        rests = closed_if_live-closed_if_live s.status;
        mute = rw same v.mute;
      },
      (v.rests, refl, refl, ap (map (λ k. k.sent)) same),
    )

module _ (parse : String → Option ControlFrame) where
  step-IsSilent :
      (e : Event) (s : Session)
      → is_quiet e ≡ true
      → IsSilent s
      → IsSilent (step parse e s) × Observed s (step parse e s)
  unfolding step is_quiet resume
  step-IsSilent (starts provided local target) s q v = cc
  step-IsSilent stops s q v = stops-IsSilent s v
  step-IsSilent (answers g token context local) s q v =
      resume-IsSilent g (awaited g s.awaiting) token context local s refl v
  step-IsSilent (opens n) s q v = changed-IsSilent n open_socket s opened-IsMute v
  step-IsSilent (receives n message) s q v =
      simp (heard-IsMute n s.sockets v.mute) (v, (refl, refl, refl, refl))
  step-IsSilent (closes n) s q v =
      simp (heard-IsMute n s.sockets v.mute) (changed-IsSilent n go_away s went-IsMute v)
  step-IsSilent (fails n) s q v =
      simp (heard-IsMute n s.sockets v.mute) (v, (refl, refl, refl, refl))
  step-IsSilent (types data_text) s q v =
      sends-IsSilent s.ws (input_frame data_text) s v.no_socket v
  step-IsSilent (resizes cols rows) s q v =
      sends-IsSilent s.ws (resize_frame cols rows) s v.no_socket v

  run-IsSilent :
      (es : List Event) (s : Session)
      → All (λ e. is_quiet e ≡ true) es
      → IsSilent s
      → Observed s (run parse es s)
  unfolding run
  run-IsSilent [] s q v = (refl, refl, refl, refl)
  run-IsSilent (e ∷ es) s (q, qs) v =
      let (w, (a, b, c, d)) = step-IsSilent e s q v in
      let (a', b', c', d') = run-IsSilent es (step parse e s) qs w in
      (a' ∙ a, b' ∙ b, c' ∙ c, d' ∙ d)

  -- After stop(), whatever happened before, until the next start(): late credentials, events of any
  -- socket, input and further stops leave the status and the message, call no handler, open no socket,
  -- and send nothing.
  pub stop_ends_session :
      (before after : List Event)
      → All (λ e. is_quiet e ≡ true) after
      → let s = stop (run parse before fresh) in Observed s (run parse after s)
  stop_ends_session before after quiet =
      run-IsSilent after (stop (run parse before fresh)) quiet
        (stopped-IsSilent (run parse before fresh) (reached-IsTidy parse before))
