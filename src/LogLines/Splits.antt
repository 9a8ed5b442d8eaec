-- ===== src/LogLines/Splits.antt =====
-- web/src/utils/logJson.ts: a literal and the text behind it are the text that was read.
use kube_console.Shared.{
  ℕ, ◌<◌, ◌≡◌, refl, ap, ◌∙◌, Bool, true, false, not, ◌||◌, List, [], ◌∷◌, ◌++◌, append_assoc,
  Option, none, some, arith, ◌==◌, length, length-append, Bool-cases, inl, inr,
}
use kube_console.Shared.Text.{Text, codes, is_space}
use kube_console.LogLines.Literals.{
  longer, span, closing, string_literal, word_at, or_try, keyword_at, is_digit, some_digits,
  after_unit, optionally, then_read, integer_at, exponent_at, unsigned_at, number_at, units_at,
  date_tests, spaces_at, timestamp_at,
}

-- What is read, and the rest, are the text.
abbrev pub Splits : Text → Option (Text × Text) → Type 0
Splits s none = Unit
Splits s (some (raw, rest)) = raw ++ rest ≡ s

-- Something is read.
abbrev pub Moves : Option (Text × Text) → Type 0
Moves none = Unit
Moves (some (raw, rest)) = 0 < length raw

longer-Splits : (t s : Text) (o : Option (Text × Text)) → Splits s o → Splits (t ++ s) (longer t o)
longer-Splits t s none h = tt
longer-Splits t s (some (raw, rest)) h = append_assoc t raw rest ∙ ap (λ r. t ++ r) h

longer-Moves : (t : Text) (o : Option (Text × Text)) → 0 < length t → Moves (longer t o)
longer-Moves t none h = tt
longer-Moves t (some (raw, rest)) h = omega (arith, h, length-append t raw)

or_try-Splits :
    (s : Text) (o p : Option (Text × Text)) → Splits s o → Splits s p → Splits s (or_try o p)
unfolding or_try
or_try-Splits s none p h k = k
or_try-Splits s (some r) p h k = h

or_try-Moves : (o p : Option (Text × Text)) → Moves o → Moves p → Moves (or_try o p)
unfolding or_try
or_try-Moves none p h k = k
or_try-Moves (some r) p h k = h

then_read-Splits :
    (s : Text) (o : Option (Text × Text)) (read : Text → Option (Text × Text))
    → Splits s o
    → ((r : Text) → Splits r (read r))
    → Splits s (then_read o read)
then_read-Splits s none read h k = tt
then_read-Splits s (some (raw, rest)) read h k = extended (read rest) (k rest)
  where
    extended : (o : Option (Text × Text)) → Splits rest o → Splits s (longer raw o)
    extended none d = tt
    extended (some (more, left)) d = append_assoc raw more left ∙ ap (λ r. raw ++ r) d ∙ h

then_read-Moves :
    (o : Option (Text × Text)) (read : Text → Option (Text × Text))
    → Moves o
    → Moves (then_read o read)
then_read-Moves none read h = tt
then_read-Moves (some (raw, rest)) read h = longer-Moves raw (read rest) h

after_unit-Splits :
    (p : ℕ → Bool) (read : Text → Option (Text × Text)) (s : Text)
    → ((r : Text) → Splits r (read r))
    → Splits s (after_unit p read s)
after_unit-Splits p read [] k = tt
after_unit-Splits p read (c ∷ cs) k = elim (Bool-cases (p c)) [
  | inl t ↦ simp t (longer-Splits (c ∷ []) cs (read cs) (k cs))
  | inr f ↦ simp f tt
]

after_unit-Moves :
    (p : ℕ → Bool) (read : Text → Option (Text × Text)) (s : Text) → Moves (after_unit p read s)
after_unit-Moves p read [] = tt
after_unit-Moves p read (c ∷ cs) = elim (Bool-cases (p c)) [
  | inl t ↦ simp t (longer-Moves (c ∷ []) (read cs) (omega arith))
  | inr f ↦ simp f tt
]

pub span-Splits : (p : ℕ → Bool) (s : Text) → (span p s).0 ++ (span p s).1 ≡ s
unfolding span
span-Splits p [] = refl
span-Splits p (c ∷ cs) = elim (Bool-cases (p c)) [
  | inl t ↦ simp t (ap (λ r. c ∷ r) (span-Splits p cs))
  | inr f ↦ simp f refl
]

closing-Splits : (escaped : Bool) (s : Text) → Splits s (closing escaped s)
unfolding closing
closing-Splits true [] = tt
closing-Splits false [] = tt
closing-Splits true (c ∷ cs) =
    longer-Splits (c ∷ []) cs (closing false cs) (closing-Splits false cs)
closing-Splits false (c ∷ cs) = elim (Bool-cases (c == 92)) [
  | inl t ↦ simp t (longer-Splits (c ∷ []) cs (closing true cs) (closing-Splits true cs))
  | inr f ↦ elim (Bool-cases (c == 34)) [
    | inl t ↦ simp (f, t) refl
    | inr g ↦ simp (f, g) (longer-Splits (c ∷ []) cs (closing false cs) (closing-Splits false cs))
  ]
]

pub string_literal-Splits : (s : Text) → Splits s (string_literal s)
unfolding string_literal
string_literal-Splits [] = tt
string_literal-Splits (c ∷ cs) = elim (Bool-cases (c == 34)) [
  | inl t ↦ simp t (longer-Splits (c ∷ []) cs (closing false cs) (closing-Splits false cs))
  | inr f ↦ simp f tt
]

pub string_literal-Moves : (s : Text) → Moves (string_literal s)
unfolding string_literal
string_literal-Moves [] = tt
string_literal-Moves (c ∷ cs) = elim (Bool-cases (c == 34)) [
  | inl t ↦ simp t (longer-Moves (c ∷ []) (closing false cs) (omega arith))
  | inr f ↦ simp f tt
]

word_at-Splits : (w s : Text) → Splits s (word_at w s)
unfolding word_at
word_at-Splits [] s = refl
word_at-Splits (c ∷ cs) [] = tt
word_at-Splits (c ∷ cs) (d ∷ s) = elim (Bool-cases (d == c)) [
  | inl t ↦ simp t (longer-Splits (d ∷ []) s (word_at cs s) (word_at-Splits cs s))
  | inr f ↦ simp f tt
]

word_at-Moves : (c : ℕ) (cs s : Text) → Moves (word_at (c ∷ cs) s)
unfolding word_at
word_at-Moves c cs [] = tt
word_at-Moves c cs (d ∷ s) = elim (Bool-cases (d == c)) [
  | inl t ↦ simp t (longer-Moves (d ∷ []) (word_at cs s) (omega arith))
  | inr f ↦ simp f tt
]

pub keyword_at-Splits : (s : Text) → Splits s (keyword_at s)
unfolding keyword_at
keyword_at-Splits s =
    or_try-Splits s (word_at (codes "true") s) _ (word_at-Splits (codes "true") s) (
      or_try-Splits s (word_at (codes "false") s) _ (word_at-Splits (codes "false") s)
        (word_at-Splits (codes "null") s))

pub keyword_at-Moves : (s : Text) → Moves (keyword_at s)
unfolding keyword_at
keyword_at-Moves s =
    or_try-Moves (word_at (codes "true") s) _ (word_at-Moves _ _ s)
      (or_try-Moves (word_at (codes "false") s) _ (word_at-Moves _ _ s) (word_at-Moves _ _ s))

some_digits-Splits : (s : Text) → Splits s (some_digits s)
unfolding some_digits
some_digits-Splits [] = tt
some_digits-Splits (c ∷ cs) = elim (Bool-cases (is_digit c)) [
  | inl t ↦ simp t (ap (λ r. c ∷ r) (span-Splits is_digit cs))
  | inr f ↦ simp f tt
]

some_digits-Moves : (s : Text) → Moves (some_digits s)
unfolding some_digits
some_digits-Moves [] = tt
some_digits-Moves (c ∷ cs) = elim (Bool-cases (is_digit c)) [
  | inl t ↦ simp t (omega arith)
  | inr f ↦ simp f tt
]

optionally-Splits :
    (read : Text → Option (Text × Text)) (s : Text)
    → ((r : Text) → Splits r (read r))
    → Splits s (optionally read s)
optionally-Splits read s k = or_try-Splits s (read s) (some ([], s)) (k s) refl

integer_at-Splits : (s : Text) → Splits s (integer_at s)
unfolding integer_at
integer_at-Splits [] = tt
integer_at-Splits (c ∷ cs) = elim (Bool-cases (c == 48)) [
  | inl t ↦ simp t refl
  | inr f ↦ simp f (some_digits-Splits (c ∷ cs))
]

integer_at-Moves : (s : Text) → Moves (integer_at s)
unfolding integer_at
integer_at-Moves [] = tt
integer_at-Moves (c ∷ cs) = elim (Bool-cases (c == 48)) [
  | inl t ↦ simp t (omega arith)
  | inr f ↦ simp f (some_digits-Moves (c ∷ cs))
]

exponent_at-Splits : (s : Text) → Splits s (exponent_at s)
unfolding exponent_at
exponent_at-Splits s = after_unit-Splits _ _ s (λ r.
    or_try-Splits r (after_unit (λ c. c == 43 || c == 45) some_digits r) (some_digits r)
      (after_unit-Splits _ some_digits r some_digits-Splits) (some_digits-Splits r))

unsigned_at-Splits : (s : Text) → Splits s (unsigned_at s)
unfolding unsigned_at
unsigned_at-Splits s = then_read-Splits s (integer_at s) _ (integer_at-Splits s) (λ r.
    then_read-Splits r (optionally (after_unit (λ c. c == 46) some_digits) r)
      (optionally exponent_at)
      (optionally-Splits (after_unit (λ c. c == 46) some_digits) r
        (λ q. after_unit-Splits _ some_digits q some_digits-Splits))
      (λ q. optionally-Splits exponent_at q exponent_at-Splits))

unsigned_at-Moves : (s : Text) → Moves (unsigned_at s)
unfolding unsigned_at
unsigned_at-Moves s = then_read-Moves (integer_at s) _ (integer_at-Moves s)

pub number_at-Splits : (s : Text) → Splits s (number_at s)
unfolding number_at
number_at-Splits s =
    or_try-Splits s (after_unit (λ c. c == 45) unsigned_at s) (unsigned_at s)
      (after_unit-Splits _ unsigned_at s unsigned_at-Splits) (unsigned_at-Splits s)

pub number_at-Moves : (s : Text) → Moves (number_at s)
unfolding number_at
number_at-Moves s =
    or_try-Moves (after_unit (λ c. c == 45) unsigned_at s) (unsigned_at s)
      (after_unit-Moves _ unsigned_at s) (unsigned_at-Moves s)

units_at-Splits : (ps : List (ℕ → Bool)) (s : Text) → Splits s (units_at ps s)
unfolding units_at
units_at-Splits [] s = refl
units_at-Splits (p ∷ ps) s = after_unit-Splits p (units_at ps) s (units_at-Splits ps)

pub timestamp_at-Splits : (s : Text) → Splits s (timestamp_at s)
unfolding timestamp_at spaces_at
timestamp_at-Splits s =
    then_read-Splits s (units_at date_tests s) _ (units_at-Splits date_tests s) (λ r.
      then_read-Splits r (some (span (λ c. not (is_space c)) r)) spaces_at
        (span-Splits (λ c. not (is_space c)) r)
        (λ q.
          after_unit-Splits is_space (λ t. some (span is_space t)) q (λ t. span-Splits is_space t)))
