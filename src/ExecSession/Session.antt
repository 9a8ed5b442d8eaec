-- ===== src/ExecSession/Session.antt =====
-- web/src/composables/useExecSession.ts. The credentials and the socket answer by events. A socket that
-- close() was called on, or that the peer closed, sends nothing more, and one that the peer closed
-- fires no event more. `parse` is JSON.parse with the fields of a control frame.
use kube_console.Shared.{
  ℕ, ◌+◌, Bool, true, false, not, ◌&&◌, List, [], ◌∷◌, ◌++◌, Option, none, some, String, ◌==◌,
  str_eq, if◌then◌else◌, length, get_or,
}

pub record ExecTarget : Type 0 where
  pub namespace : String
  pub pod : String
  pub container : String
  pub command : List String

pub data ExecStatus : Type 0 where
  idle : ExecStatus
  connecting : ExecStatus
  ready : ExecStatus
  closed : ExecStatus
  error : ExecStatus

-- What is sent on a socket.
pub data Frame : Type 0 where
  auth_frame : String → Option String → ExecTarget → Frame
  input_frame : String → Frame
  resize_frame : ℕ → ℕ → Frame

-- A control frame from the backend, by its type.
pub data ControlFrame : Type 0 where
  ready_frame : ControlFrame
  error_frame : Option String → ControlFrame
  exit_frame : Option ℕ → ControlFrame
  other_frame : ControlFrame

pub data Message : Type 0 where
  text_message : String → Message
  binary_message : List ℕ → Message

-- The calls of the owner's handlers.
pub data Call : Type 0 where
  on_output : List ℕ → Call
  on_exit : Option ℕ → Call

pub data ReadyState : Type 0 where
  opening : ReadyState
  opened : ReadyState
  closing : ReadyState
  gone : ReadyState

-- A socket: `attached` says whether stop() has not detached its handlers; the credentials and the
-- target are those that its onopen sends.
pub record Socket : Type 0 where
  pub number : ℕ
  pub token : String
  pub context : Option String
  pub target : ExecTarget
  pub attached : Bool
  pub state : ReadyState
  pub sent : List Frame

pub record Session : Type 0 where
  pub status : ExecStatus
  pub error_message : Option String
  pub ws : Option ℕ
  pub gen : ℕ
  -- the starts that await their token
  pub awaiting : List (ℕ × ExecTarget)
  -- all sockets that were ever opened
  pub sockets : List Socket
  pub calls : List Call

unfoldable pub awaited : ℕ → List (ℕ × ExecTarget) → Option ExecTarget
awaited g [] = none
awaited g ((h, t) ∷ rest) = let later = awaited g rest in if h == g then some t else later

unfoldable pub served : ℕ → List (ℕ × ExecTarget) → List (ℕ × ExecTarget)
served g [] = []
served g ((h, t) ∷ rest) = let later = served g rest in if h == g then later else (h, t) ∷ later

unfoldable pub change_socket : ℕ → (Socket → Socket) → List Socket → List Socket
change_socket n f [] = []
change_socket n f (k ∷ ks) =
    let later = change_socket n f ks in (if k.number == n then f k else k) ∷ later

unfoldable pub socket_at : ℕ → List Socket → Option Socket
socket_at n [] = none
socket_at n (k ∷ ks) = let later = socket_at n ks in if k.number == n then some k else later

-- `close()` once the handlers are detached.
unfoldable pub shut_state : ReadyState → ReadyState
shut_state opening = closing
shut_state opened = closing
shut_state closing = closing
shut_state gone = gone

unfoldable pub shut : Socket → Socket
shut k = record k { attached = false; state = shut_state k.state }

unfoldable pub shut_ws : Option ℕ → List Socket → List Socket
shut_ws none ks = ks
shut_ws (some n) ks = change_socket n shut ks

unfoldable pub closed_if_live : ExecStatus → ExecStatus
closed_if_live connecting = closed
closed_if_live ready = closed
closed_if_live idle = idle
closed_if_live closed = closed
closed_if_live error = error

unfoldable pub stop : Session → Session
stop s = record s {
  gen = s.gen + 1;
  ws = none;
  sockets = shut_ws s.ws s.sockets;
  status = closed_if_live s.status;
}

-- The new socket.
unfoldable pub connect : String → Option String → ExecTarget → Session → Session
connect token context target s = record s {
  ws = some (length s.sockets);
  sockets =
      s.sockets
      ++ record {
        number = length s.sockets;
        token = token;
        context = context;
        target = target;
        attached = true;
        state = opening;
        sent = [];
      }
        ∷ [];
}

-- `start` from the answer of the credentials on, where its generation is current.
unfoldable pub authenticate : Option String → Option String → Bool → ExecTarget → Session → Session
authenticate token context local target s =
    if str_eq (get_or token "") "" && not local
    then record s { status = error; error_message = some "Not authenticated." }
    else connect (get_or token "") context target s

unfoldable pub resume_for :
    ℕ → Option ExecTarget → Option String → Option String → Bool → Session → Session
resume_for g none token context local s = s
resume_for g (some target) token context local s =
    let rest = record s { awaiting = served g s.awaiting } in
    if g == s.gen then authenticate token context local target rest else rest

unfoldable pub resume : ℕ → Option String → Option String → Bool → Session → Session
resume g token context local s = resume_for g (awaited g s.awaiting) token context local s

-- `start(target)` up to the await.
unfoldable pub begin : ExecTarget → Session → Session
begin target s =
    let stopped = stop s in
    record stopped {
      gen = stopped.gen + 1;
      status = connecting;
      error_message = none;
      awaiting = (stopped.gen + 1, target) ∷ stopped.awaiting;
    }

-- `start(target)`: without a provider there is nothing to await.
unfoldable pub start : Bool → Bool → ExecTarget → Session → Session
start provided local target s =
    let begun = begin target s in if provided then begun else resume begun.gen none none local begun

-- The context of an auth frame, if it is not empty.
unfoldable pub given_context : Option String → Option String
given_context none = none
given_context (some c) = if str_eq c "" then none else some c

-- `send` goes out while the socket is open.
unfoldable pub sent_in : ReadyState → Frame → List Frame → List Frame
sent_in opened frame sent = sent ++ frame ∷ []
sent_in opening frame sent = sent
sent_in closing frame sent = sent
sent_in gone frame sent = sent

unfoldable pub send : Frame → Socket → Socket
send frame k = record k { sent = sent_in k.state frame k.sent }

-- A socket that may open does, and its `onopen` sends the auth frame.
unfoldable pub opened_state : ReadyState → ReadyState
opened_state opening = opened
opened_state opened = opened
opened_state closing = closing
opened_state gone = gone

unfoldable pub greeted_in : ReadyState → Frame → List Frame → List Frame
greeted_in opening frame sent = sent_in opened frame sent
greeted_in opened frame sent = sent
greeted_in closing frame sent = sent
greeted_in gone frame sent = sent

unfoldable pub auth_of : Socket → Frame
auth_of k = auth_frame k.token (given_context k.context) k.target

unfoldable pub open_socket : Socket → Socket
open_socket k = record k {
  state = opened_state k.state;
  sent = greeted_in k.state (auth_of k) k.sent;
}

unfoldable pub on_control : Option ControlFrame → Session → Session
on_control none s = s
on_control (some ready_frame) s = record s { status = ready }
on_control (some (error_frame message)) s = record s {
  status = error;
  error_message = some (get_or message "exec failed");
}
on_control (some (exit_frame code)) s = record s {
  status = closed;
  calls = s.calls ++ on_exit code ∷ [];
}
on_control (some other_frame) s = s

-- A socket fires an event that a handler hears.
unfoldable pub fires : ReadyState → Bool
fires opening = true
fires opened = true
fires closing = true
fires gone = false

unfoldable pub hears : Socket → Bool
hears k = fires k.state && k.attached

unfoldable pub is_heard : Option Socket → Bool
is_heard none = false
is_heard (some k) = hears k

unfoldable pub closed_unless_failed : ExecStatus → ExecStatus
closed_unless_failed error = error
closed_unless_failed idle = closed
closed_unless_failed connecting = closed
closed_unless_failed ready = closed
closed_unless_failed closed = closed

unfoldable pub is_socket : ℕ → Option ℕ → Bool
is_socket n none = false
is_socket n (some m) = m == n

-- `onclose`
unfoldable pub on_close : ℕ → Session → Session
on_close n s = record s {
  status = closed_unless_failed s.status;
  ws = if is_socket n s.ws then none else s.ws;
}

-- `onerror`
unfoldable pub error_in : ExecStatus → Session → Session
error_in connecting s = record s {
  status = error;
  error_message = some "WebSocket connection failed.";
}
error_in idle s = s
error_in ready s = s
error_in closed s = s
error_in error s = s

unfoldable pub on_error : Session → Session
on_error s = error_in s.status s

-- `sendInput` and `sendResize`
unfoldable pub send_on : Option ℕ → Frame → Session → Session
send_on none frame s = s
send_on (some n) frame s = record s { sockets = change_socket n (send frame) s.sockets }

unfoldable pub go_away : Socket → Socket
go_away k = record k { state = gone }

pub data Event : Type 0 where
  starts : Bool → Bool → ExecTarget → Event
  stops : Event
  -- the credentials that the start of a generation awaits: the token, the context, `localAuth`
  answers : ℕ → Option String → Option String → Bool → Event
  opens : ℕ → Event
  receives : ℕ → Message → Event
  closes : ℕ → Event
  fails : ℕ → Event
  types : String → Event
  resizes : ℕ → ℕ → Event

module _ (parse : String → Option ControlFrame) where
  -- `onmessage`
  unfoldable pub on_message : Message → Session → Session
  on_message (text_message text) s = on_control (parse text) s
  on_message (binary_message bytes) s = record s { calls = s.calls ++ on_output bytes ∷ [] }

  unfoldable pub step : Event → Session → Session
  step (starts provided local target) s = start provided local target s
  step stops s = stop s
  step (answers g token context local) s = resume g token context local s
  step (opens n) s = record s { sockets = change_socket n open_socket s.sockets }
  step (receives n message) s = if is_heard (socket_at n s.sockets) then on_message message s else s
  step (closes n) s =
      let left = record s { sockets = change_socket n go_away s.sockets } in
      if is_heard (socket_at n s.sockets) then on_close n left else left
  step (fails n) s = if is_heard (socket_at n s.sockets) then on_error s else s
  step (types data_text) s = send_on s.ws (input_frame data_text) s
  step (resizes cols rows) s = send_on s.ws (resize_frame cols rows) s

  unfoldable pub run : List Event → Session → Session
  run [] s = s
  run (e ∷ es) s = run es (step e s)

-- The composable when it is set up.
abbrev pub fresh : Session
fresh = record {
  status = idle;
  error_message = none;
  ws = none;
  gen = 0;
  awaiting = [];
  sockets = [];
  calls = [];
}
