-- ===== src/ExecSession/Tests.antt =====
-- Runs of the session of web/src/composables/useExecSession.ts at concrete events.
use kube_console.Shared.{
  ◌≡◌, refl, true, false, List, [], ◌∷◌, map, Option, none, some, String, str_eq, if◌then◌else◌,
}
use kube_console.ExecSession.Session.{
  ExecTarget, ready, auth_frame, input_frame, ControlFrame, ready_frame, binary_message,
  text_message, awaited, served, change_socket, socket_at, shut_state, shut, shut_ws,
  closed_if_live, stop, connect, authenticate, resume_for, resume, begin, start, given_context,
  sent_in, send, opened_state, greeted_in, auth_of, open_socket, on_control, fires, hears, is_heard,
  closed_unless_failed, is_socket, on_close, error_in, on_error, send_on, go_away, Event, starts,
  stops, answers, opens, receives, closes, types, on_message, step, run, fresh,
}
use kube_console.ExecSession.Sockets.{AllSound}
use kube_console.ExecSession.Leaks.{no_socket_leaks}
use kube_console.ExecSession.Stopped.{is_quiet, Observed, stop_ends_session}

sessions : Unit {0}
unfolding awaited served change_socket socket_at shut_state shut shut_ws closed_if_live stop connect
    authenticate resume_for resume begin start given_context sent_in send opened_state greeted_in
    auth_of open_socket on_control fires hears is_heard closed_unless_failed is_socket on_close
    error_in on_error send_on go_away on_message step run is_quiet
sessions = tt

abbrev shell : ExecTarget
shell = record { namespace = "default"; pod = "web-0"; container = "web"; command = "sh" ∷ [] }

-- JSON with one frame.
abbrev parse : String → Option ControlFrame
parse text = if str_eq text "{\"type\":\"ready\"}" then some ready_frame else none

-- A start, superseded by another before its token came; the other opens its socket and sends input.
abbrev restart : List Event
restart =
    starts true false shell
    ∷ starts true false shell
    ∷ answers 4 (some "t2") (some "prod") false
    ∷ answers 2 (some "t1") (some "dev") false
    ∷ opens 0
    ∷ receives 0 (text_message "{\"type\":\"ready\"}")
    ∷ types "ls"
    ∷ []

one_socket :
    map (λ k. k.sent) (run parse restart fresh).sockets
    ≡ (auth_frame "t2" (some "prod") shell ∷ input_frame "ls" ∷ []) ∷ []
unfolding sessions
one_socket = refl

is_ready : (run parse restart fresh).status ≡ ready
unfolding sessions
is_ready = refl

no_socket_leaks_example : AllSound (run parse restart fresh).ws (run parse restart fresh).sockets
no_socket_leaks_example = no_socket_leaks parse restart

-- What comes late: bytes, the answer of the credentials, input, the end of the socket.
abbrev late : List Event
late =
    receives 0 (binary_message (104 ∷ 105 ∷ []))
    ∷ answers 2 (some "t1") none false
    ∷ types "rm"
    ∷ closes 0
    ∷ stops
    ∷ []

stop_ends_session_example : let s = stop (run parse restart fresh) in Observed s (run parse late s)
unfolding sessions
stop_ends_session_example =
    stop_ends_session parse restart late (refl, (refl, (refl, (refl, (refl, tt)))))
