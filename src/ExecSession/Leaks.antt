-- ===== src/ExecSession/Leaks.antt =====
-- web/src/composables/useExecSession.ts: no socket leaks, and each is introduced by its auth frame.
use kube_console.Shared.{
  ℕ, ◌≡◌, refl, true, false, ◌||◌, List, [], ◌∷◌, Option, none, some, String, arith, ◌==◌,
  if◌then◌else◌, is_none, Bool-cases, inl, inr,
}
use kube_console.ExecSession.Session.{
  ExecStatus, idle, connecting, ready, closed, error, Frame, input_frame, resize_frame,
  ControlFrame, ready_frame, error_frame, exit_frame, other_frame, Message, text_message,
  binary_message, Socket, Session, awaited, change_socket, socket_at, resume, send, open_socket,
  auth_of, on_control, is_heard, is_socket, on_close, on_error, error_in, send_on, go_away, Event,
  starts, stops, answers, opens, receives, closes, fails, types, resizes, on_message, step, run,
  fresh,
}
use kube_console.ExecSession.Sockets.{
  is_accounted, is_introduced, accounts, is_auth, Sound, AllSound, change_socket-All,
  introduces-gone, introduces-sent, introduces-greeted, accounts-opened, not_own-Sound,
}
use kube_console.ExecSession.Tidy.{IsTidy, stop-IsTidy, start-IsTidy, resume_for-IsTidy}

-- A change of sockets one by one.
change-IsTidy :
    (n : ℕ) (f : Socket → Socket) (s : Session)
    → ((k : Socket) (ws : Option ℕ) → Sound ws k → Sound ws (f k))
    → IsTidy s
    → IsTidy (record s { sockets = change_socket n f s.sockets })
change-IsTidy n f s keep v = record {
  no_later = v.no_later;
  waits_alone = v.waits_alone;
  sound =
      change_socket-All (Sound s.ws) (Sound s.ws) n f s.sockets (λ k t p. keep k s.ws p)
        (λ k e p. p) v.sound;
}

open_socket-Sound : (k : Socket) (ws : Option ℕ) → Sound ws k → Sound ws (open_socket k)
unfolding open_socket is_accounted is_introduced auth_of is_auth
open_socket-Sound k ws (a, i) = (
  accounts-opened k.state k.attached (is_socket k.number ws) a,
  introduces-greeted k.state (auth_of k) k.sent refl i,
)

send-Sound :
    (f : Frame)
    → is_auth f ≡ false
    → (k : Socket) (ws : Option ℕ) → Sound ws k
    → Sound ws (send f k)
unfolding send is_accounted is_introduced
send-Sound f n k ws (a, i) = (a, introduces-sent k.state f k.sent n i)

go_away-Sound : (k : Socket) (ws now : Option ℕ) → Sound ws k → Sound now (go_away k)
unfolding go_away is_accounted is_introduced accounts
go_away-Sound k ws now (a, i) = (refl, introduces-gone k.state k.sent i)

send_on-IsTidy :
    (f : Frame) (o : Option ℕ) (s : Session) → is_auth f ≡ false → IsTidy s → IsTidy (send_on o f s)
unfolding send_on
send_on-IsTidy f none s n v = v
send_on-IsTidy f (some k) s n v = change-IsTidy k (send f) s (send-Sound f n) v

left-Sound :
    (n m : ℕ) (k : Socket)
    → (k.number == n) ≡ false
    → Sound (some m) k
    → Sound (if m == n then none else some m) k
left-Sound n m k f p = elim (Bool-cases (m == n)) [
  | inl t ↦ let same : m ≡ n = ground (arith, t) in simp t (not_own-Sound n m k same f p)
  | inr g ↦ simp g p
]

-- The socket of the session has gone, or another one.
gone-Sound :
    (n : ℕ) (ws : Option ℕ) (ks : List Socket)
    → AllSound ws ks
    → AllSound (if is_socket n ws then none else ws) (change_socket n go_away ks)
unfolding is_socket
gone-Sound n none ks h =
    change_socket-All (Sound none) (Sound none) n go_away ks (λ k t p. go_away-Sound k none none p)
      (λ k e p. p) h
gone-Sound n (some m) ks h =
    change_socket-All (Sound (some m)) (Sound (if m == n then none else some m)) n go_away ks
      (λ k t p. go_away-Sound k (some m) _ p) (λ k f p. left-Sound n m k f p) h

on_control-IsTidy : (o : Option ControlFrame) (s : Session) → IsTidy s → IsTidy (on_control o s)
unfolding on_control
on_control-IsTidy none s v = v
on_control-IsTidy (some ready_frame) s v = record {
  no_later = v.no_later;
  waits_alone = v.waits_alone;
  sound = v.sound;
}
on_control-IsTidy (some (error_frame m)) s v = record {
  no_later = v.no_later;
  waits_alone = v.waits_alone;
  sound = v.sound;
}
on_control-IsTidy (some (exit_frame c)) s v = record {
  no_later = v.no_later;
  waits_alone = v.waits_alone;
  sound = v.sound;
}
on_control-IsTidy (some other_frame) s v = v

on_close-IsTidy :
    (n : ℕ) (s : Session)
    → IsTidy s
    → IsTidy (on_close n (record s { sockets = change_socket n go_away s.sockets }))
unfolding on_close
on_close-IsTidy n s v = record {
  no_later = v.no_later;
  waits_alone = freed s.ws v.waits_alone;
  sound = gone-Sound n s.ws s.sockets v.sound;
}
  where
    freed :
        (ws : Option ℕ)
        → (is_none (awaited s.gen s.awaiting) || is_none ws) ≡ true
        → (is_none (awaited s.gen s.awaiting) || is_none (if is_socket n ws then none else ws))
          ≡ true
    freed ws h = ground (arith, h)

on_error-IsTidy : (st : ExecStatus) (s : Session) → IsTidy s → IsTidy (error_in st s)
unfolding error_in
on_error-IsTidy connecting s v = record {
  no_later = v.no_later;
  waits_alone = v.waits_alone;
  sound = v.sound;
}
on_error-IsTidy idle s v = v
on_error-IsTidy ready s v = v
on_error-IsTidy closed s v = v
on_error-IsTidy error s v = v

module _ (parse : String → Option ControlFrame) where
  on_message-IsTidy : (m : Message) (s : Session) → IsTidy s → IsTidy (on_message parse m s)
  unfolding on_message
  on_message-IsTidy (text_message text) s v = on_control-IsTidy (parse text) s v
  on_message-IsTidy (binary_message bytes) s v = record {
    no_later = v.no_later;
    waits_alone = v.waits_alone;
    sound = v.sound;
  }

  pub step-IsTidy : (e : Event) (s : Session) → IsTidy s → IsTidy (step parse e s)
  unfolding step resume is_auth on_error
  step-IsTidy (starts provided local target) s v = start-IsTidy provided local target s v
  step-IsTidy stops s v = stop-IsTidy s v
  step-IsTidy (answers g token context local) s v =
      resume_for-IsTidy g (awaited g s.awaiting) token context local s refl v
  step-IsTidy (opens n) s v = change-IsTidy n open_socket s open_socket-Sound v
  step-IsTidy (receives n message) s v = elim (Bool-cases (is_heard (socket_at n s.sockets))) [
    | inl t ↦ simp t (on_message-IsTidy message s v)
    | inr f ↦ simp f v
  ]
  step-IsTidy (closes n) s v = elim (Bool-cases (is_heard (socket_at n s.sockets))) [
    | inl t ↦ simp t (on_close-IsTidy n s v)
    | inr f ↦ simp f (change-IsTidy n go_away s (λ k ws p. go_away-Sound k ws ws p) v)
  ]
  step-IsTidy (fails n) s v = elim (Bool-cases (is_heard (socket_at n s.sockets))) [
    | inl t ↦ simp t (on_error-IsTidy s.status s v)
    | inr f ↦ simp f v
  ]
  step-IsTidy (types data_text) s v = send_on-IsTidy (input_frame data_text) s.ws s refl v
  step-IsTidy (resizes cols rows) s v = send_on-IsTidy (resize_frame cols rows) s.ws s refl v

  run-IsTidy : (es : List Event) (s : Session) → IsTidy s → IsTidy (run parse es s)
  unfolding run
  run-IsTidy [] s v = v
  run-IsTidy (e ∷ es) s v = run-IsTidy es (step parse e s) (step-IsTidy e s v)

  pub reached-IsTidy : (es : List Event) → IsTidy (run parse es fresh)
  unfolding awaited
  reached-IsTidy es =
      run-IsTidy es fresh (record { no_later = λ g lt. refl; waits_alone = refl; sound = tt })

  -- Whatever calls, answers of the credentials and events of sockets come in whatever order: every
  -- socket that may open or is open is the one that the session holds, and has its handlers; a socket
  -- that was closed by stop() has none; and on every socket nothing is sent before the auth frame,
  -- and no second auth frame.
  pub no_socket_leaks :
      (es : List Event) → AllSound (run parse es fresh).ws (run parse es fresh).sockets
  no_socket_leaks es = (reached-IsTidy es).sound
