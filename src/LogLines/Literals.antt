-- ===== src/LogLines/Literals.antt =====
-- What web/src/utils/logJson.ts reads at one position: a literal, and the text behind it.
use kube_console.Shared.{
  ℕ, Bool, true, false, not, ◌&&◌, ◌||◌, List, [], ◌∷◌, ◌++◌, Option, none, some, ◌==◌, leb,
  if◌then◌else◌,
}
use kube_console.Shared.Text.{Text, codes, is_space}

-- A literal before a text that is split into both.
abbrev pub longer : Text → Option (Text × Text) → Option (Text × Text)
longer s none = none
longer s (some (raw, rest)) = some (s ++ raw, rest)

-- The longest part at the front whose code units pass a test, and the rest.
unfoldable pub span : (ℕ → Bool) → Text → Text × Text
span p [] = ([], [])
span p (c ∷ cs) = let (taken, rest) = span p cs in if p c then (c ∷ taken, rest) else ([], c ∷ cs)

-- The rest of a string literal, behind a backslash or not, with its closing quote.
unfoldable pub closing : Bool → Text → Option (Text × Text)
closing escaped [] = none
closing true (c ∷ cs) = longer (c ∷ []) (closing false cs)
closing false (c ∷ cs) =
    let escape = closing true cs in
    let later = closing false cs in
    if c == 92
    then longer (c ∷ []) escape
    else if c == 34
    then some (c ∷ [], cs)
    else longer (c ∷ []) later

-- `stringLiteral()`: the literal with its quotes.
unfoldable pub string_literal : Text → Option (Text × Text)
string_literal [] = none
string_literal (c ∷ cs) = if c == 34 then longer (c ∷ []) (closing false cs) else none

-- `src.startsWith(word, pos)`, with the text behind the word.
unfoldable pub word_at : Text → Text → Option (Text × Text)
word_at [] s = some ([], s)
word_at (c ∷ cs) [] = none
word_at (c ∷ cs) (d ∷ s) = if d == c then longer (d ∷ []) (word_at cs s) else none

unfoldable pub or_try : Option (Text × Text) → Option (Text × Text) → Option (Text × Text)
or_try none later = later
or_try (some found) later = some found

unfoldable pub keyword_at : Text → Option (Text × Text)
keyword_at s =
    or_try (word_at (codes "true") s)
      (or_try (word_at (codes "false") s) (word_at (codes "null") s))

abbrev pub is_digit : ℕ → Bool
is_digit c = leb 48 c && leb c 57

-- One digit or more.
unfoldable pub some_digits : Text → Option (Text × Text)
some_digits [] = none
some_digits (c ∷ cs) = if is_digit c then longer (c ∷ []) (some (span is_digit cs)) else none

-- A code unit that passes a test, then a literal.
abbrev pub after_unit : (ℕ → Bool) → (Text → Option (Text × Text)) → Text → Option (Text × Text)
after_unit p read [] = none
after_unit p read (c ∷ cs) = if p c then longer (c ∷ []) (read cs) else none

-- What a literal reads, or nothing at all: `( )?`
abbrev pub optionally : (Text → Option (Text × Text)) → Text → Option (Text × Text)
optionally read s = or_try (read s) (some ([], s))

-- A literal, then another.
abbrev pub then_read : Option (Text × Text) → (Text → Option (Text × Text)) → Option (Text × Text)
then_read none read = none
then_read (some (raw, rest)) read = longer raw (read rest)

-- `0|[1-9]\d*`
unfoldable pub integer_at : Text → Option (Text × Text)
integer_at [] = none
integer_at (c ∷ cs) = if c == 48 then some (c ∷ [], cs) else some_digits (c ∷ cs)

-- `[eE][+-]?\d+`
unfoldable pub exponent_at : Text → Option (Text × Text)
exponent_at =
    after_unit (λ c. c == 101 || c == 69)
      (λ s. or_try (after_unit (λ c. c == 43 || c == 45) some_digits s) (some_digits s))

unfoldable pub unsigned_at : Text → Option (Text × Text)
unsigned_at s =
    then_read (integer_at s) (λ r.
      then_read (optionally (after_unit (λ c. c == 46) some_digits) r) (optionally exponent_at))

-- The expression NUMBER at a position.
unfoldable pub number_at : Text → Option (Text × Text)
number_at s = or_try (after_unit (λ c. c == 45) unsigned_at s) (unsigned_at s)

-- `n` code units that pass the tests of a list, in order.
unfoldable pub units_at : List (ℕ → Bool) → Text → Option (Text × Text)
units_at [] s = some ([], s)
units_at (p ∷ ps) s = after_unit p (units_at ps) s

unfoldable pub date_tests : List (ℕ → Bool)
date_tests =
    is_digit
    ∷ is_digit
    ∷ is_digit
    ∷ is_digit
    ∷ (λ c. c == 45)
    ∷ is_digit
    ∷ is_digit
    ∷ (λ c. c == 45)
    ∷ is_digit
    ∷ is_digit
    ∷ (λ c. c == 84)
    ∷ []

-- `\s+`
unfoldable pub spaces_at : Text → Option (Text × Text)
spaces_at = after_unit is_space (λ s. some (span is_space s))

-- The expression TIMESTAMP_PREFIX: the date, `\S*`, `\s+`.
unfoldable pub timestamp_at : Text → Option (Text × Text)
timestamp_at s =
    then_read (units_at date_tests s)
      (λ r. then_read (some (span (λ c. not (is_space c)) r)) spaces_at)
