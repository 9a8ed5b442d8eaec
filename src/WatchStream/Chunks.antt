-- ===== src/WatchStream/Chunks.antt =====
-- web/src/composables/useWatch.ts: how the network cuts the stream into chunks makes no difference.
use kube_console.Shared.{
  ℕ, ◌≡◌, refl, sym, ap, ◌∙◌, arith, not, ◌||◌, if◌then◌else◌, true, false, List, [], ◌∷◌, ◌++◌,
  append_assoc, append-nil, map, Option, none, some, ◌==◌, Bool-cases, inl, inr,
}
use kube_console.Shared.Text.{Text, split_lines, split_lines-append, before}
use kube_console.WatchStream.Machine.{
  Frame, error_frame, event_frame, Outcome, stale, retry, aborted, Phase, idle, requesting, reading,
  waiting, Watch, take_frame, hand_over, conclude, leave_attempt, chunk, frame_of, take_lines,
  after_lines, on_chunk, on_read, deliver, step, run,
}

-- All of a list of texts, one after the other.
unfoldable pub concat : List Text → Text
concat [] = []
concat (a ∷ cs) = a ++ concat cs

module _ {ℓ} {E : Type ℓ} (parse : Text → Option (Frame E)) where
  -- Go on with more lines, unless the attempt is over.
  more : List Text → Watch E × Option Outcome → Watch E × Option Outcome
  more lines (s, none) = take_lines parse lines s
  more lines (s, some o) = (s, some o)

  -- The result, in another phase.
  rephase : Phase → Watch E × Option Outcome → Watch E × Option Outcome
  rephase p (s, o) = (record s { phase = p }, o)

  take_frame-more :
      (f : Option (Frame E)) (s : Watch E) (ms : List Text)
      (go_on further : Watch E → Watch E × Option Outcome)
      → ((t : Watch E) → further t ≡ more ms (go_on t))
      → take_frame f s further ≡ more ms (take_frame f s go_on)
  unfolding take_frame more
  take_frame-more none s ms go_on further h = h s
  take_frame-more (some (error_frame code)) s ms go_on further h = refl
  take_frame-more (some (event_frame e)) s ms go_on further h = h (hand_over e s)

  take_lines-append :
      (ls ms : List Text) (s : Watch E)
      → take_lines parse (ls ++ ms) s ≡ more ms (take_lines parse ls s)
  unfolding take_lines more
  take_lines-append [] ms s = refl
  take_lines-append (l ∷ ls) ms s =
      take_frame-more (frame_of parse l) s ms (λ t. take_lines parse ls t)
        (λ t. take_lines parse (ls ++ ms) t) (take_lines-append ls ms)

  take_frame-rephase :
      (f : Option (Frame E)) (s : Watch E) (p : Phase) (go_on : Watch E → Watch E × Option Outcome)
      → ((t : Watch E) → go_on (record t { phase = p }) ≡ rephase p (go_on t))
      → take_frame f (record s { phase = p }) go_on ≡ rephase p (take_frame f s go_on)
  unfolding take_frame rephase hand_over
  take_frame-rephase none s p go_on h = h s
  take_frame-rephase (some (error_frame code)) s p go_on h = refl
  take_frame-rephase (some (event_frame e)) s p go_on h = h (hand_over e s)

  take_lines-rephase :
      (ls : List Text) (s : Watch E) (p : Phase)
      → take_lines parse ls (record s { phase = p }) ≡ rephase p (take_lines parse ls s)
  unfolding take_lines rephase
  take_lines-rephase [] s p = refl
  take_lines-rephase (l ∷ ls) s p =
      take_frame-rephase (frame_of parse l) s p (λ t. take_lines parse ls t)
        (λ t. take_lines-rephase ls t p)

  leave_attempt-rephase :
      (o : Outcome) (p : Phase) (s : Watch E)
      → leave_attempt o (record s { phase = p }) ≡ leave_attempt o s
  unfolding leave_attempt conclude
  leave_attempt-rephase stale p s = ground arith
  leave_attempt-rephase retry p s = ground arith
  leave_attempt-rephase aborted p s = ground arith

  after_lines-rephase :
      (rest : Text) (p : Phase) (r : Watch E × Option Outcome)
      → after_lines parse rest (rephase p r) ≡ after_lines parse rest r
  unfolding after_lines rephase
  after_lines-rephase rest p (s, none) = refl
  after_lines-rephase rest p (s, some o) = leave_attempt-rephase o p s

  -- A loop that has left reads no more.
  leave_attempt-ignores :
      (g : ℕ) (b : Text) (o : Outcome) (s t : Watch E)
      → deliver parse (leave_attempt o s).phase (chunk g b) t ≡ t
  unfolding leave_attempt conclude deliver
  leave_attempt-ignores g b o s t = elim (Bool-cases (s.stopped || not (s.owner == s.generation))) [
    | inl e ↦ simp e refl
    | inr e ↦ simp e (quiet o)
  ]
    where
      quiet : (o : Outcome) → deliver parse (conclude o s).phase (chunk g b) t ≡ t
      quiet stale = refl
      quiet retry = refl
      quiet aborted = refl

  left_ignores :
      (g : ℕ) (b : Text) (o : Outcome) (s : Watch E)
      → step parse (chunk g b) (leave_attempt o s) ≡ leave_attempt o s
  unfolding step
  left_ignores g b o s = elim (Bool-cases (g == (leave_attempt o s).owner)) [
    | inl e ↦ simp e (leave_attempt-ignores g b o s (leave_attempt o s))
    | inr e ↦ simp e refl
  ]

  pub on_read-live :
      (buffer text : Text) (s : Watch E)
      → s.signal_aborted ≡ false
      → on_read parse buffer text s ≡ on_chunk parse buffer text s
  unfolding on_read
  on_read-live buffer text s live =
      ap (λ b. if b then leave_attempt aborted s else on_chunk parse buffer text s) live

  pub on_read-over :
      (buffer text : Text) (s : Watch E)
      → s.signal_aborted ≡ true
      → on_read parse buffer text s ≡ leave_attempt aborted s
  unfolding on_read
  on_read-over buffer text s over =
      ap (λ b. if b then leave_attempt aborted s else on_chunk parse buffer text s) over

  -- The second chunk after what the first left.
  then_chunk :
      (g : ℕ) (r b : Text) (x : Watch E × Option Outcome)
      → (g == x.0.owner) ≡ true
      → x.0.signal_aborted ≡ false
      → step parse (chunk g b) (after_lines parse r x)
        ≡ after_lines parse (split_lines (r ++ b)).1 (more (split_lines (r ++ b)).0 x)
  unfolding step after_lines deliver more on_chunk
  then_chunk g r b (s, none) e live = simp e (
      on_read-live r b (record s { phase = reading r }) live
      ∙ ap (after_lines parse (split_lines (r ++ b)).1)
          (take_lines-rephase (split_lines (r ++ b)).0 s (reading r))
      ∙ after_lines-rephase (split_lines (r ++ b)).1 (reading r)
          (take_lines parse (split_lines (r ++ b)).0 s))
  then_chunk g r b (s, some o) e live = left_ignores g b o s

  take_frame-keeps {ℓ'} :
      {B : Type ℓ'} (k : Watch E → B)
      → ((e : E) (s : Watch E) → k (hand_over e s) ≡ k s)
      → (f : Option (Frame E)) (s : Watch E) (go_on : Watch E → Watch E × Option Outcome)
      → ((t : Watch E) → k (go_on t).0 ≡ k t)
      → k (take_frame f s go_on).0 ≡ k s
  unfolding take_frame
  take_frame-keeps k same none s go_on h = h s
  take_frame-keeps k same (some (error_frame code)) s go_on h = refl
  take_frame-keeps k same (some (event_frame e)) s go_on h = h (hand_over e s) ∙ same e s

  -- The lines of a chunk change no field that a data frame does not.
  take_lines-keeps {ℓ'} :
      {B : Type ℓ'} (k : Watch E → B)
      → ((e : E) (s : Watch E) → k (hand_over e s) ≡ k s)
      → (ls : List Text) (s : Watch E) → k (take_lines parse ls s).0 ≡ k s
  unfolding take_lines
  take_lines-keeps k same [] s = refl
  take_lines-keeps k same (l ∷ ls) s =
      take_frame-keeps k same (frame_of parse l) s (λ t. take_lines parse ls t)
        (take_lines-keeps k same ls)

  take_lines-owner : (ls : List Text) (s : Watch E) → (take_lines parse ls s).0.owner ≡ s.owner
  unfolding hand_over
  take_lines-owner ls s = take_lines-keeps (λ t. t.owner) (λ e t. refl) ls s

  take_lines-signal_aborted :
      (ls : List Text) (s : Watch E) → (take_lines parse ls s).0.signal_aborted ≡ s.signal_aborted
  unfolding hand_over
  take_lines-signal_aborted ls s = take_lines-keeps (λ t. t.signal_aborted) (λ e t. refl) ls s

  -- What a chunk leaves, from its lines and the rest.
  read_off : Watch E → List Text × Text → Watch E
  read_off s lines = after_lines parse lines.1 (take_lines parse lines.0 s)

  two_chunks_reading :
      (g : ℕ) (buffer a b : Text) (s : Watch E)
      → (g == s.owner) ≡ true
      → s.signal_aborted ≡ false
      → step parse (chunk g b) (on_chunk parse buffer a s) ≡ on_chunk parse buffer (a ++ b) s
  unfolding on_chunk read_off
  two_chunks_reading g buffer a b s e live =
      let ls = (split_lines (buffer ++ a)).0 in
      let r = (split_lines (buffer ++ a)).1 in
      let joined : split_lines (buffer ++ (a ++ b)) ≡ before ls (split_lines (r ++ b)) =
        ap split_lines (sym (append_assoc buffer a b)) ∙ split_lines-append (buffer ++ a) b in
      then_chunk g r b (take_lines parse ls s) (ap (λ n. g == n) (take_lines-owner ls s) ∙ e)
        (take_lines-signal_aborted ls s ∙ live)
      ∙ ap (after_lines parse (split_lines (r ++ b)).1)
          (sym (take_lines-append ls (split_lines (r ++ b)).0 s))
      ∙ ap (read_off s) (sym joined)

  current :
      (g : ℕ) (a : Text) (s : Watch E)
      → (g == s.owner) ≡ true
      → step parse (chunk g a) s ≡ deliver parse s.phase (chunk g a) s
  unfolding step
  current g a s e = simp e refl

  foreign : (g : ℕ) (a : Text) (s : Watch E) → (g == s.owner) ≡ false → step parse (chunk g a) s ≡ s
  unfolding step
  foreign g a s e = simp e refl

  ignored :
      (g : ℕ) (b : Text) (s : Watch E)
      → (g == s.owner) ≡ true
      → deliver parse s.phase (chunk g b) s ≡ s
      → step parse (chunk g b) s ≡ s
  ignored g b s e h = current g b s e ∙ h

  two_chunks_phase :
      (g : ℕ) (a b : Text) (p : Phase) (s : Watch E)
      → (g == s.owner) ≡ true
      → s.phase ≡ p
      → step parse (chunk g b) (deliver parse p (chunk g a) s)
        ≡ deliver parse p (chunk g (a ++ b)) s
  unfolding deliver
  two_chunks_phase g a b idle s e at_phase =
      ignored g b s e (ap (λ p. deliver parse p (chunk g b) s) at_phase)
  two_chunks_phase g a b requesting s e at_phase =
      ignored g b s e (ap (λ p. deliver parse p (chunk g b) s) at_phase)
  two_chunks_phase g a b waiting s e at_phase =
      ignored g b s e (ap (λ p. deliver parse p (chunk g b) s) at_phase)
  two_chunks_phase g a b (reading buffer) s e at_phase = elim (Bool-cases s.signal_aborted) [
    | inl t ↦
        ap (step parse (chunk g b)) (on_read-over buffer a s t)
        ∙ left_ignores g b aborted s
        ∙ sym (on_read-over buffer (a ++ b) s t)
    | inr f ↦
        ap (step parse (chunk g b)) (on_read-live buffer a s f)
        ∙ two_chunks_reading g buffer a b s e f
        ∙ sym (on_read-live buffer (a ++ b) s f)
  ]

  two_chunks :
      (g : ℕ) (a b : Text) (s : Watch E)
      → step parse (chunk g b) (step parse (chunk g a) s) ≡ step parse (chunk g (a ++ b)) s
  two_chunks g a b s = elim (Bool-cases (g == s.owner)) [
    | inl t ↦
        ap (step parse (chunk g b)) (current g a s t)
        ∙ two_chunks_phase g a b s.phase s t refl
        ∙ sym (current g (a ++ b) s t)
    | inr f ↦
        ap (step parse (chunk g b)) (foreign g a s f)
        ∙ foreign g b s f
        ∙ sym (foreign g (a ++ b) s f)
  ]

  -- In every state, chunks that come one after the other do what one chunk with their whole text does:
  -- the same events reach the owner, and the loop ends or goes on alike.
  pub chunks_join :
      (g : ℕ) (a : Text) (cs : List Text) (s : Watch E)
      → run parse (map (chunk g) (a ∷ cs)) s ≡ step parse (chunk g (a ++ concat cs)) s
  unfolding run concat
  chunks_join g a [] s = ap (λ t. step parse (chunk g t) s) (sym (append-nil a))
  chunks_join g a (b ∷ cs) s =
      chunks_join g b cs (step parse (chunk g a) s) ∙ two_chunks g a (b ++ concat cs) s
