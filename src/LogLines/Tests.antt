-- ===== src/LogLines/Tests.antt =====
-- Runs of the scanner of web/src/utils/logJson.ts at concrete lines.
use kube_console.Shared.{◌≡◌, ◌≢◌, refl, true, false, List, [], ◌∷◌, none, some, arith}
use kube_console.Shared.Text.{Text, codes, text_eq}
use kube_console.Shared.{ℕ, map}
use kube_console.LogLines.Token.{log_token_class, kind_class, severity_class}
use kube_console.LogLines.Token.{
  text_token, punct_token, key_token, number_token, level_token, warn, Token, plain, starts_with,
  starts_with_any, severity_of_name, severity_of_number, is_one_of, is_level_key,
}
use kube_console.LogLines.Literals.{
  span, closing, string_literal, word_at, or_try, keyword_at, some_digits, integer_at, exponent_at,
  unsigned_at, number_at, units_at, date_tests, spaces_at, timestamp_at,
}
use kube_console.LogLines.Scan.{
  starved, and_then, emit, take_blanks, whitespace, punct_at, punct, or_else, without_last, inner,
  leveled, continue_or, next_or_close, string_value, keyword_value, number_value, object, array,
  value_at, value, member_of, members, elements, scan_part, scan, unless_left, at_line_end,
  tokenize_from, after_timestamp, tokenize_with, tokens_of, tokenize_json_line,
}
use kube_console.LogLines.Steps.{texts}
use kube_console.LogLines.Tokens.{tokens_join_line, tokenize_with_ends}
use kube_console.LogLines.Segments.{
  LineSegment, slice, piece_of, pieces_of, skip_ended, segment, before_hit, cut_at, cut,
  segment_pieces, segment_ranges, segment_line,
}
use kube_console.LogLines.Painted.{painted, is_covered}
use kube_console.LogLines.Marked.{IsHit}
use kube_console.LogLines.Hits.{Finds, match_at, match_from, match_ranges}
use kube_console.Shared.{◌↔◌, Bool-cases, inl, inr, leb, if◌then◌else◌, Option}
use kube_console.LogLines.Highlight.{paint_pieces, joined_pieces, segments_paint_line}

scanner : Unit {0}
unfolding text_eq starts_with starts_with_any severity_of_name severity_of_number is_one_of
    is_level_key span closing string_literal word_at or_try keyword_at some_digits integer_at
    exponent_at unsigned_at number_at units_at date_tests spaces_at timestamp_at and_then emit
    take_blanks whitespace punct_at punct or_else without_last inner leveled continue_or
    next_or_close string_value keyword_value number_value object array value_at value member_of
    members elements scan_part scan unless_left at_line_end tokenize_from after_timestamp
    tokenize_with tokens_of tokenize_json_line
scanner = tt

-- A stamped line with a level, a nested object and an array.
abbrev line : Text
line = codes "2024-01-02T03:04Z {\"level\":\"warn\", \"a\":[-1.5e3,{}]}"

abbrev line_tokens : List Token
line_tokens =
    plain text_token (codes "2024-01-02T03:04Z ")
    ∷ plain punct_token (codes "{")
    ∷ plain key_token (codes "\"level\"")
    ∷ plain punct_token (codes ":")
    ∷ record { kind = level_token; text = codes "\"warn\""; severity = some warn }
    ∷ plain punct_token (codes ",")
    ∷ plain punct_token (codes " ")
    ∷ plain key_token (codes "\"a\"")
    ∷ plain punct_token (codes ":")
    ∷ plain punct_token (codes "[")
    ∷ plain number_token (codes "-1.5e3")
    ∷ plain punct_token (codes ",")
    ∷ plain punct_token (codes "{")
    ∷ plain punct_token (codes "}")
    ∷ plain punct_token (codes "]")
    ∷ plain punct_token (codes "}")
    ∷ []

line_is_scanned : tokenize_json_line (λ s. s) (λ _. true) (λ n s. false) line ≡ some line_tokens
unfolding scanner
line_is_scanned = refl

-- Text behind the object.
trailing_text :
    tokenize_json_line (λ s. s) (λ _. true) (λ n s. false) (codes "{\"a\":true} x") ≡ none
unfolding scanner
trailing_text = refl

tokens_join_line_example : texts line_tokens ≡ line
tokens_join_line_example =
    tokens_join_line (λ s. s) (λ _. true) (λ n s. false) line line_tokens line_is_scanned

tokenize_with_ends_example :
    tokenize_with (λ s. s) (λ _. true) (λ n s. false) 100 (codes "{\"a\":[[1") ≢ starved
tokenize_with_ends_example =
    tokenize_with_ends (λ s. s) (λ _. true) (λ n s. false) (codes "{\"a\":[[1") 100 (omega arith)

highlighting : Unit {0}
unfolding scanner slice piece_of pieces_of skip_ended segment before_hit cut_at cut segment_pieces
    segment_ranges segment_line match_at match_from match_ranges log_token_class kind_class
    severity_class
highlighting = tt

abbrev short : Text
short = codes "{\"a\":1}"

-- A match over the key and its last quote, and one behind it.
abbrev exec : ℕ → Option (ℕ × ℕ)
exec i = if leb i 2 then some (2, 2) else if leb i 4 then some (4, 2) else none

exec-Finds : Finds exec short
exec-Finds i start len e = elim (Bool-cases (leb i 2)) [
  | inl t ↦ ground (arith, t, e)
  | inr f ↦ ground (arith, f, e)
]

abbrev short_segments : List LineSegment
short_segments =
    segment_line short (tokenize_json_line (λ s. s) (λ _. true) (λ n s. false) short)
      (match_ranges exec short)

cuts_of_short :
    map (λ s. s.text) short_segments
    ≡ codes "{" ∷ codes "\"" ∷ codes "a\"" ∷ codes ":" ∷ codes "1" ∷ codes "}" ∷ []
unfolding highlighting
cuts_of_short = refl

hits_of_short : map (λ s. s.hit) short_segments ≡ false ∷ false ∷ true ∷ true ∷ true ∷ false ∷ []
unfolding highlighting
hits_of_short = refl

segments_paint_line_example :
    let tokens = tokenize_json_line (λ s. s) (λ _. true) (λ n s. false) short in
    let ranges = match_ranges exec short in
    (painted (segment_line short tokens ranges) ≡ paint_pieces 0 (pieces_of short tokens) ranges)
    × (joined_pieces (pieces_of short tokens) ≡ short)
    × ((i : ℕ) → (is_covered i ranges ≡ true) ↔ IsHit exec 0 i)
    × (match_from exec 8 0 ≡ ranges)
segments_paint_line_example =
    segments_paint_line (λ s. s) (λ _. true) (λ n s. false) exec short 8 exec-Finds (omega arith)
