-- ===== src/LogSearch/Cursor.antt =====
-- web/src/composables/useLogSearch.ts: the cursor through the hits, and the log stream as the source.
use native.Mathlib.Nat.{mod-eq_of_lt}
use kube_console.Shared.{
  ℕ, zero, suc, ◌+◌, ◌-◌, ◌%◌, ◌<◌, ◌≡◌, refl, ap, ◌∙◌, String, Bool, true, false, not, Option,
  some, arith, ltb, ◌==◌, if◌then◌else◌, length, Bool-cases, ltb→lt, inl, inr,
}
use kube_console.Shared.Text.{Text}
use kube_console.LogsStream.Buffer.{Buffer, flush}
use kube_console.LogsStream.Tail.{flush-drop}
use kube_console.LogSearch.State.{
  Log, Search, compile_query, next_active, jump, move, settle, refresh,
}
use kube_console.LogSearch.Fresh.{Reach, streamed, grown, hits, hits_are_fresh, IsWithin}

wrap : (n x : ℕ) → x < n → (x + n) % n ≡ x
wrap n x h = grind arith

step_forth : (n a : ℕ) → a < n → (a + 1 + n) % n ≡ (if ltb (a + 1) n then a + 1 else 0)
step_forth n a h = grind arith

step_back : (n a : ℕ) → a < n → (a + n - 1) % n ≡ (if ltb 0 a then a - 1 else n - 1)
step_back n zero h =
    ap (λ k. k % n) (let e : 0 + n - 1 ≡ n - 1 = omega arith in e) ∙ mod-eq_of_lt (omega arith)
step_back n (suc a) h =
    ap (λ k. k % n) (let e : suc a + n - 1 ≡ a + n = omega arith in e)
    ∙ wrap n a (omega arith)
    ∙ ground arith

-- Stepping forwards and back, or back and forwards, leaves the cursor where it was.
next_active_inverse :
    (forwards : Bool) (n a : ℕ)
    → a < n
    → next_active (not forwards) n (some (next_active forwards n (some a))) ≡ a
unfolding next_active
next_active_inverse true n a h = elim (Bool-cases (ltb (a + 1) n)) [
  | inl t ↦ rw (step_forth n a h, t, step_back n (a + 1) (ltb→lt _ _ t)) (ground arith)
  | inr f ↦ rw (step_forth n a h, f, step_back n 0 (omega arith)) (ground arith)
]
next_active_inverse false n a h = elim (Bool-cases (ltb 0 a)) [
  | inl t ↦ rw (step_back n a h, t, step_forth n (a - 1) (omega arith)) (ground arith)
  | inr f ↦ rw (step_back n a h, f, step_forth n (n - 1) (omega arith)) (ground arith)
]

module _ (test : String → Text → Bool) where
  -- With no debounce pending and hits to move through, `move` only moves the cursor.
  move_settled :
      (forwards : Bool) (log : Log) (s : Search)
      → s.timer ≡ false
      → 0 < length s.matches
      → move test forwards log s ≡ record s {
        active = some (next_active forwards (length s.matches) s.active);
        jump_seq = s.jump_seq + 1;
      }
  unfolding move settle jump
  move_settled forwards log s t h =
      let some_hits : (length s.matches == 0) ≡ false = ground arith in simp (t, some_hits) refl

  -- In every state that can be reached, with a hit selected and no debounce pending, a step of the
  -- cursor and a step the other way select the same hit again.
  pub move_and_back :
      (forwards : Bool) (log : Log) (s : Search) (a : ℕ)
      → Reach test log s
      → s.timer ≡ false
      → s.active ≡ some a
      → (move test (not forwards) log (move test forwards log s)).active ≡ some a
  move_and_back forwards log s a r t e =
      let within : a < length s.matches =
        within_some s.active (length s.matches) a e (hits_are_fresh test log s r).1 in
      let n = length s.matches in
      let first = move_settled forwards log s t (omega arith) in
      let second =
        move_settled (not forwards) log
          (record s { active = some (next_active forwards n s.active); jump_seq = s.jump_seq + 1 })
          t (omega arith) in
      rw (first, second, e) (ap some (next_active_inverse forwards n a within))
    where
      within_some : (o : Option ℕ) (n b : ℕ) → o ≡ some b → IsWithin o n → b < n
      within_some o n b e w = ground arith

-- What the search reads of the stream's buffer, whose array has the identity `array`.
abbrev pub log_of : ℕ → Buffer → Log
log_of array b = record { array = array; lines = b.lines; dropped = b.dropped }

-- Searching while the log streams: if the search was in step with the buffer, then after a flush of
-- the buffer, also one that drops lines from the head, the incremental update of the hits finds what
-- a scan of the whole buffer for the query finds.
pub flush_keeps_hits :
    (test : String → Text → Bool) (array : ℕ) (b : Buffer) (s : Search)
    → Reach test (log_of array b) s
    → (refresh test (log_of array (flush b)) s).matches
      ≡ hits test
          (compile_query (refresh test (log_of array (flush b)) s).debounced)
          (log_of array (flush b))
flush_keeps_hits test array b s r =
    (hits_are_fresh test (log_of array (flush b)) _
      (streamed (grown b.pending refl (flush-drop b)) r)).0
