-- ===== src/LogsStream/Tail.antt =====
-- web/src/composables/useLogsStream.ts: what is on screen is the contiguous tail of what arrived.
use kube_console.Shared.{
  ℕ, ◌+◌, ◌-◌, ◌≤◌, ◌<◌, ◌≡◌, refl, sym, ap, ◌∙◌, Bool, true, false, List, [], ◌∷◌, ◌++◌, Option,
  some, arith, leb, length, drop, keep_last, append-nil, append_assoc, length-append,
  length-keep_last, keep_last-append, keep_last-append_right, keep_last-eq_self, Bool-cases, inl,
  inr, ◌⊎◌,
}
use kube_console.Shared.Text.{Text}
use kube_console.LogsStream.Buffer.{Buffer, max_lines, trim, trims, flush, append, is_empty}

trim-eq-keep_last : (xs : List Text) → trim xs ≡ keep_last max_lines xs
unfolding trim
trim-eq-keep_last xs = elim (Bool-cases (leb (length xs) max_lines)) [
  | inl h ↦ rw h (sym (keep_last-eq_self max_lines xs (ground arith)))
  | inr h ↦ rw h
]

-- What the buffer holds of `log`, all that arrived since the stream started.
pub record IsTail (log : List Text) (b : Buffer) : Type 0 where
  pub tail : keep_last max_lines (b.lines ++ b.pending) ≡ keep_last max_lines log
  pub lines_bound : length b.lines ≤ max_lines
  pub pending_bound : length b.pending ≤ max_lines
  pub complete : b.truncated ≡ false → b.lines ++ b.pending ≡ log
  pub cut : b.truncated ≡ true → max_lines < length log
  pub armed : b.timer ≡ false → b.pending ≡ []

trims-cases :
    (old : Bool) (xs : List Text)
    → ((length xs ≤ max_lines) × (trims old xs ≡ old) × (trim xs ≡ xs))
      ⊎ ((max_lines < length xs) × (trims old xs ≡ true))
unfolding trims trim
trims-cases old xs = ground arith

trim_bound : (xs : List Text) → length (trim xs) ≤ max_lines
trim_bound xs = rw trim-eq-keep_last (omega (arith, length-keep_last max_lines xs))

pub is_empty-nil : (xs : List Text) → is_empty xs ≡ true → xs ≡ []
unfolding is_empty
is_empty-nil [] h = refl
is_empty-nil (x ∷ xs) h = cc

drop_of_trim : (xs : List Text) → trim xs ≡ drop (length xs - length (trim xs)) xs
drop_of_trim xs =
    let k : length xs - length (keep_last max_lines xs) ≡ length xs - max_lines =
      omega (arith, length-keep_last max_lines xs) in
    rw (trim-eq-keep_last xs, k)

-- The head of `lines` that `flush` cuts is what `dropped` counts.
pub flush-drop :
    (b : Buffer) → (flush b).lines ≡ drop ((flush b).dropped - b.dropped) (b.lines ++ b.pending)
unfolding flush
flush-drop b = elim (Bool-cases (is_empty b.pending)) [
  | inl e ↦
      (let p = is_empty-nil b.pending e in
        rw e (
          rw (p, append-nil)
            (ap (λ k. drop k b.lines) (let z : 0 ≡ b.dropped - b.dropped = omega arith in z))))
  | inr e ↦
      (let joined = b.lines ++ b.pending in
        let n = length joined - length (trim joined) in
        let k : b.dropped + n - b.dropped ≡ n = omega arith in rw e (rw k (drop_of_trim joined)))
]

-- Where nothing was ever cut, nothing is cut now either.
trims_whole : (old : Bool) (xs : List Text) → trims old xs ≡ false → (old ≡ false) × (trim xs ≡ xs)
trims_whole old xs e = ground (arith, trims-cases old xs)

trims_cut :
    (xs log : List Text) (old : Bool)
    → (old ≡ true → max_lines < length log)
    → (old ≡ false → length xs ≤ length log)
    → trims old xs ≡ true
    → max_lines < length log
trims_cut xs log true was whole e = was refl
trims_cut xs log false was whole e = grind (arith, trims-cases false xs)

flushed-IsTail :
    (log : List Text) (b : Buffer) (version dropped : ℕ)
    → IsTail log b
    → IsTail log (record b {
      lines = trim (b.lines ++ b.pending);
      pending = [];
      timer = false;
      truncated = trims b.truncated (b.lines ++ b.pending);
      dropped = dropped;
      lines_version = version;
    })
flushed-IsTail log b version dropped v =
    let joined = b.lines ++ b.pending in
    record {
      tail =
          rw (trim-eq-keep_last joined, keep_last-append max_lines joined [], append-nil joined)
            v.tail;
      lines_bound = trim_bound joined;
      pending_bound = omega arith;
      complete = λ e.
          let (old, same) = trims_whole b.truncated joined e in
          rw (same, append-nil joined) (v.complete old);
      cut = λ e.
          trims_cut joined log b.truncated v.cut (λ f. omega (arith, ap length (v.complete f))) e;
      armed = λ e. refl;
    }

pub flush-IsTail : (log : List Text) (b : Buffer) → IsTail log b → IsTail log (flush b)
unfolding flush
flush-IsTail log b v = elim (Bool-cases (is_empty b.pending)) [
  | inl e ↦ rw e (record {
    tail = v.tail;
    lines_bound = v.lines_bound;
    pending_bound = v.pending_bound;
    complete = v.complete;
    cut = v.cut;
    armed = λ _. is_empty-nil b.pending e;
  })
  | inr e ↦ rw e (flushed-IsTail log b _ _ v)
]

appended-IsTail :
    (log new : List Text) (b : Buffer) (at : Option ℕ)
    → IsTail log b
    → IsTail (log ++ new) (record b {
      last_line_at = at;
      pending = trim (b.pending ++ new);
      truncated = trims b.truncated (b.pending ++ new);
      timer = true;
    })
appended-IsTail log new b at v =
    let staged = b.pending ++ new in
    record {
      tail =
          rw (trim-eq-keep_last staged, keep_last-append_right max_lines b.lines staged)
            (rw (← append_assoc b.lines b.pending new) (
              sym (keep_last-append max_lines (b.lines ++ b.pending) new)
              ∙ ap (λ t. keep_last max_lines (t ++ new)) v.tail
              ∙ keep_last-append max_lines log new));
      lines_bound = v.lines_bound;
      pending_bound = trim_bound staged;
      complete = λ e.
          let (old, same) = trims_whole b.truncated staged e in
          rw (same, ← append_assoc b.lines b.pending new) (ap (λ t. t ++ new) (v.complete old));
      cut = λ e.
          trims_cut staged (log ++ new) b.truncated
            (λ f. omega (arith, v.cut f, length-append log new))
            (λ f. omega (
              arith,
              ap length (v.complete f),
              length-append log new,
              length-append b.pending new,
              length-append b.lines b.pending,
            ))
            e;
      armed = λ e. cc;
    }

pub append-IsTail :
    (now : ℕ) (new log : List Text) (b : Buffer)
    → IsTail log b
    → IsTail (log ++ new) (append now new b)
unfolding append
append-IsTail now new log b v = elim (Bool-cases (is_empty new)) [
  | inl e ↦ rw e (rw (is_empty-nil new e, append-nil log) v)
  | inr e ↦ rw e (appended-IsTail log new b (some now) v)
]
