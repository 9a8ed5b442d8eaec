-- ===== src/LogLines/Scan.antt =====
-- The scanner of `tokenizeJsonLine` of web/src/utils/logJson.ts. The position in the line is the text
-- that is left of it. The recursion of value, object and array is on fuel.
use kube_console.Shared.{
  ℕ, zero, suc, ◌+◌, ◌*◌, Bool, false, ◌||◌, List, [], ◌∷◌, ◌++◌, Option, none, some, ◌==◌,
  if◌then◌else◌, length,
}
use kube_console.Shared.Text.{Text}
use kube_console.LogLines.Token.{
  Kind, text_token, punct_token, key_token, string_token, number_token, keyword_token, level_token,
  Severity, Token, plain, severity_of_name, severity_of_number, is_level_key,
}
use kube_console.LogLines.Literals.{span, string_literal, keyword_at, number_at, timestamp_at}

-- The tokens so far, and the text from the position on.
pub record Scan : Type 0 where
  pub tokens : List Token
  pub rest : Text

-- What a function of the scanner comes to: true with the scan behind it, false, or no fuel left.
pub data Outcome : Type 0 where
  scanned : Scan → Outcome
  rejected : Outcome
  starved : Outcome

-- What is still to be scanned by recursion: a value, the members or the elements.
pub data Part : Type 0 where
  value_part : Bool → Part
  members_part : Part
  elements_part : Part

unfoldable pub and_then : Outcome → (Scan → Outcome) → Outcome
and_then (scanned s) go_on = go_on s
and_then rejected go_on = rejected
and_then starved go_on = starved

-- `tokens.push(token)`, with the position behind it.
unfoldable pub emit : Token → Text → Scan → Scan
emit token rest s = record { tokens = s.tokens ++ token ∷ []; rest = rest }

abbrev pub is_blank_unit : ℕ → Bool
is_blank_unit c = c == 32 || c == 9 || c == 13

unfoldable pub take_blanks : Text × Text → Scan → Scan
take_blanks ([], rest) s = s
take_blanks (c ∷ cs, rest) s = emit (plain punct_token (c ∷ cs)) rest s

unfoldable pub whitespace : Scan → Scan
whitespace s = take_blanks (span is_blank_unit s.rest) s

unfoldable pub punct_at : ℕ → Text → Scan → Outcome
punct_at ch [] s = rejected
punct_at ch (c ∷ cs) s =
    if c == ch then scanned (emit (plain punct_token (ch ∷ [])) cs s) else rejected

-- `punct(ch)`
unfoldable pub punct : ℕ → Scan → Outcome
punct ch s = punct_at ch s.rest s

-- One alternative, or else the other.
unfoldable pub or_else : Outcome → Outcome → Outcome
or_else rejected later = later
or_else (scanned s) later = scanned s
or_else starved later = starved

-- A string literal without its quotes.
unfoldable pub without_last : Text → Text
without_last [] = []
without_last (c ∷ []) = []
without_last (c ∷ d ∷ cs) = c ∷ without_last (d ∷ cs)

unfoldable pub inner : Text → Text
inner [] = []
inner (c ∷ cs) = without_last cs

unfoldable pub leveled : Kind → Text → Option Severity → Token
leveled kind text none = plain kind text
leveled kind text (some severity) = record {
  kind = level_token;
  text = text;
  severity = some severity;
}

-- `if (punct(",")) continue`, else what follows.
unfoldable pub continue_or : Outcome → (Scan → Outcome) → Outcome → Outcome
continue_or (scanned s) again close = again s
continue_or rejected again close = close
continue_or starved again close = starved

-- A comma goes on with the next round of a loop, else the closing unit must follow.
unfoldable pub next_or_close : ℕ → (Scan → Outcome) → Scan → Outcome
next_or_close close again s = continue_or (punct 44 s) again (punct close s)

unfoldable pub keyword_value : Option (Text × Text) → Scan → Outcome
keyword_value none s = rejected
keyword_value (some (word, rest)) s = scanned (emit (plain keyword_token word) rest s)

-- `if (pos !== src.length) return null`
unfoldable pub unless_left : Text → Scan → Outcome
unless_left [] s = scanned s
unless_left (c ∷ cs) s = rejected

-- Only blanks may follow the object.
unfoldable pub at_line_end : Scan → Outcome
at_line_end s = let last = whitespace s in unless_left last.rest last

-- The timestamp before the object, if there is one.
unfoldable pub after_timestamp : Text → Option (Text × Text) → Scan
after_timestamp line none = record { tokens = []; rest = line }
after_timestamp line (some (prefix, rest)) = record {
  tokens = plain text_token prefix ∷ [];
  rest = rest;
}

unfoldable pub tokens_of : Outcome → Option (List Token)
tokens_of (scanned s) = some s.tokens
tokens_of rejected = none
tokens_of starved = none

module _ (lower : Text → Text) (is_finite : Text → Bool) (at_least : ℕ → Text → Bool) where
  unfoldable pub string_value : Bool → Option (Text × Text) → Scan → Outcome
  string_value is_level none s = rejected
  string_value is_level (some (raw, rest)) s = scanned (
      emit
        (leveled string_token raw (if is_level then severity_of_name lower (inner raw) else none))
        rest s)

  unfoldable pub number_value : Bool → Option (Text × Text) → Scan → Outcome
  number_value is_level none s = rejected
  number_value is_level (some (text, rest)) s = scanned (
      emit
        (leveled number_token text
          (if is_level then severity_of_number is_finite at_least text else none))
        rest s)

  module _ (again : Part → Scan → Outcome) where
    -- `object()`: its loop is the part of the members.
    unfoldable pub object : Scan → Outcome
    object s =
        and_then (punct 123 s)
          (λ o. let inside = whitespace o in or_else (punct 125 inside) (again members_part inside))

    unfoldable pub array : Scan → Outcome
    array s =
        and_then (punct 91 s)
          (λ o. let inside = whitespace o in or_else (punct 93 inside) (again elements_part inside))

    unfoldable pub value_at : Bool → Text → Scan → Outcome
    value_at is_level [] s = rejected
    value_at is_level (c ∷ cs) s =
        if c == 123
        then object s
        else if c == 91
        then array s
        else if c == 34
        then string_value is_level (string_literal s.rest) s
        else or_else (keyword_value (keyword_at s.rest) s)
            (number_value is_level (number_at s.rest) s)

    unfoldable pub value : Bool → Scan → Outcome
    value is_level s = let at_value = whitespace s in value_at is_level at_value.rest at_value

    unfoldable pub member_of : Option (Text × Text) → Scan → Outcome
    member_of none s = rejected
    member_of (some (key, rest)) s =
        and_then (punct 58 (whitespace (emit (plain key_token key) rest s))) (λ t.
          and_then (again (value_part (is_level_key lower (inner key))) t)
            (λ u. next_or_close 125 (again members_part) (whitespace u)))

    -- A round of the loop of `object`.
    unfoldable pub members : Scan → Outcome
    members s = let here = whitespace s in member_of (string_literal here.rest) here

    -- A round of the loop of `array`.
    unfoldable pub elements : Scan → Outcome
    elements s =
        and_then (again (value_part false) s)
          (λ t. next_or_close 93 (again elements_part) (whitespace t))

    unfoldable pub scan_part : Part → Scan → Outcome
    scan_part (value_part is_level) s = value is_level s
    scan_part members_part s = members s
    scan_part elements_part s = elements s

  -- The recursion of the scanner.
  unfoldable pub scan : ℕ → Part → Scan → Outcome
  scan zero part s = starved
  scan (suc fuel) part s = scan_part (λ next t. scan fuel next t) part s

  unfoldable pub tokenize_from : ℕ → Scan → Outcome
  tokenize_from fuel s = and_then (object (scan fuel) s) at_line_end

  unfoldable pub tokenize_with : ℕ → Text → Outcome
  tokenize_with fuel line = tokenize_from fuel (after_timestamp line (timestamp_at line))

  -- `tokenizeJsonLine(line)`
  unfoldable pub tokenize_json_line : Text → Option (List Token)
  tokenize_json_line line = tokens_of (tokenize_with (2 * length line + 2) line)
