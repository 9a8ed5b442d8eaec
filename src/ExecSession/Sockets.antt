-- ===== src/ExecSession/Sockets.antt =====
-- web/src/composables/useExecSession.ts: which sockets are open, and what is sent on them.
use kube_console.Shared.{
  ℕ, ◌≡◌, refl, sym, ap, ◌∙◌, Bool, true, false, not, ◌&&◌, ◌||◌, List, [], ◌∷◌, ◌++◌, Option, none,
  some, All, arith, ◌==◌, Bool-cases, inl, inr,
}
use kube_console.ExecSession.Session.{
  Frame, auth_frame, input_frame, resize_frame, ReadyState, opening, opened, closing, gone, Socket,
  change_socket, shut, shut_ws, shut_state, sent_in, opened_state, greeted_in, is_socket,
}

-- A socket that may open or is open is the session's and has its handlers; one that stop() closed has
-- lost them.
unfoldable pub accounts : ReadyState → Bool → Bool → Bool
accounts opening attached own = attached && own
accounts opened attached own = attached && own
accounts closing attached own = not attached
accounts gone attached own = true

unfoldable pub is_accounted : Option ℕ → Socket → Bool
is_accounted ws k = accounts k.state k.attached (is_socket k.number ws)

unfoldable pub is_auth : Frame → Bool
is_auth (auth_frame token context target) = true
is_auth (input_frame data_text) = false
is_auth (resize_frame cols rows) = false

unfoldable pub has_no_auth : List Frame → Bool
has_no_auth [] = true
has_no_auth (f ∷ fs) = not (is_auth f) && has_no_auth fs

-- An auth frame first, and no other.
unfoldable pub is_greeted : List Frame → Bool
is_greeted [] = false
is_greeted (f ∷ fs) = is_auth f && has_no_auth fs

abbrev is_unsent : List Frame → Bool
is_unsent [] = true
is_unsent (f ∷ fs) = false

unfoldable pub introduces : ReadyState → List Frame → Bool
introduces opening sent = is_unsent sent
introduces opened sent = is_greeted sent
introduces closing sent = is_unsent sent || is_greeted sent
introduces gone sent = is_unsent sent || is_greeted sent

-- Nothing is sent before the auth frame, and no second one.
unfoldable pub is_introduced : Socket → Bool
is_introduced k = introduces k.state k.sent

abbrev pub Sound : Option ℕ → Socket → Type 0
Sound ws k = (is_accounted ws k ≡ true) × (is_introduced k ≡ true)

pub change_socket-All :
    (P Q : Socket → Type 0) (n : ℕ) (f : Socket → Socket) (ks : List Socket)
    → ((k : Socket) → (k.number == n) ≡ true → P k → Q (f k))
    → ((k : Socket) → (k.number == n) ≡ false → P k → Q k)
    → All P ks
    → All Q (change_socket n f ks)
unfolding change_socket
change_socket-All P Q n f [] here there h = tt
change_socket-All P Q n f (k ∷ ks) here there (p, h) = elim (Bool-cases (k.number == n)) [
  | inl t ↦ simp t (here k t p, change_socket-All P Q n f ks here there h)
  | inr e ↦ simp e (there k e p, change_socket-All P Q n f ks here there h)
]

pub All-map :
    (P Q : Socket → Type 0) (ks : List Socket) → ((k : Socket) → P k → Q k) → All P ks → All Q ks
All-map P Q [] f h = tt
All-map P Q (k ∷ ks) f (p, h) = (f k p, All-map P Q ks f h)

-- The parts of a socket that a step changes.
accounts-shut : (st : ReadyState) (own : Bool) → accounts (shut_state st) false own ≡ true
unfolding accounts shut_state
accounts-shut opening own = refl
accounts-shut opened own = refl
accounts-shut closing own = refl
accounts-shut gone own = refl

introduces-shut :
    (st : ReadyState) (sent : List Frame)
    → introduces st sent ≡ true
    → introduces (shut_state st) sent ≡ true
unfolding introduces shut_state
introduces-shut opening sent h = ground (arith, h)
introduces-shut opened sent h = ground (arith, h)
introduces-shut closing sent h = h
introduces-shut gone sent h = h

pub introduces-gone :
    (st : ReadyState) (sent : List Frame) → introduces st sent ≡ true → introduces gone sent ≡ true
unfolding introduces
introduces-gone opening sent h = ground (arith, h)
introduces-gone opened sent h = ground (arith, h)
introduces-gone closing sent h = h
introduces-gone gone sent h = h

-- A live socket is not another one than the session's.
accounts-other :
    (st : ReadyState) (attached : Bool) (own : Bool)
    → accounts st attached false ≡ true
    → accounts st attached own ≡ true
unfolding accounts
accounts-other opening attached own h = ground (arith, h)
accounts-other opened attached own h = ground (arith, h)
accounts-other closing attached own h = h
accounts-other gone attached own h = h

has_no_auth-append :
    (fs : List Frame) (f : Frame)
    → has_no_auth fs ≡ true
    → is_auth f ≡ false
    → has_no_auth (fs ++ f ∷ []) ≡ true
unfolding has_no_auth
has_no_auth-append [] f h n = ground (arith, n)
has_no_auth-append (g ∷ fs) f h n = ground (arith, h, has_no_auth-append fs f, n)

pub introduces-sent :
    (st : ReadyState) (f : Frame) (sent : List Frame)
    → is_auth f ≡ false
    → introduces st sent ≡ true
    → introduces st (sent_in st f sent) ≡ true
unfolding introduces sent_in is_greeted
introduces-sent opening f sent n h = h
introduces-sent opened f [] n h = cc
introduces-sent opened f (g ∷ sent) n h = ground (arith, h, n, has_no_auth-append sent f)
introduces-sent closing f sent n h = h
introduces-sent gone f sent n h = h

pub introduces-greeted :
    (st : ReadyState) (f : Frame) (sent : List Frame)
    → is_auth f ≡ true
    → introduces st sent ≡ true
    → introduces (opened_state st) (greeted_in st f sent) ≡ true
unfolding introduces sent_in is_greeted opened_state greeted_in has_no_auth
introduces-greeted opening f [] n h = ground (arith, n)
introduces-greeted opening f (g ∷ sent) n h = cc
introduces-greeted opened f sent n h = h
introduces-greeted closing f sent n h = h
introduces-greeted gone f sent n h = h

pub accounts-opened :
    (st : ReadyState) (attached own : Bool)
    → accounts st attached own ≡ true
    → accounts (opened_state st) attached own ≡ true
unfolding accounts opened_state
accounts-opened opening attached own h = h
accounts-opened opened attached own h = h
accounts-opened closing attached own h = h
accounts-opened gone attached own h = h

-- The sockets of a session, under each change of them.
abbrev pub AllSound : Option ℕ → List Socket → Type 0
AllSound ws ks = All (Sound ws) ks

pub freed-Sound : (ws : Option ℕ) (k : Socket) → Sound none k → Sound ws k
unfolding is_accounted is_introduced is_socket
freed-Sound ws k (a, i) = (accounts-other k.state k.attached (is_socket k.number ws) a, i)

pub not_own-Sound :
    (n m : ℕ) (k : Socket) → m ≡ n → (k.number == n) ≡ false → Sound (some m) k → Sound none k
unfolding is_accounted is_introduced is_socket
not_own-Sound n m k same f (a, i) =
    let e : is_socket k.number (some m) ≡ false = ground (arith, f, same) in
    (ap (accounts k.state k.attached) (sym e) ∙ a, i)

pub shut_ws-Sound :
    (ws : Option ℕ) (ks : List Socket) → AllSound ws ks → AllSound none (shut_ws ws ks)
unfolding shut_ws shut is_accounted is_introduced is_socket
shut_ws-Sound none ks h = h
shut_ws-Sound (some n) ks h =
    change_socket-All (Sound (some n)) (Sound none) n shut ks shut_one left_one h
  where
    shut_one : (k : Socket) → (k.number == n) ≡ true → Sound (some n) k → Sound none (shut k)
    shut_one k t (a, i) = (accounts-shut k.state false, introduces-shut k.state k.sent i)

    left_one : (k : Socket) → (k.number == n) ≡ false → Sound (some n) k → Sound none k
    left_one k f p = not_own-Sound n n k refl f p
