-- ===== src/LogLines/Tokens.antt =====
-- web/src/utils/logJson.ts: the tokens of a line join to the line, and the scanner ends.
use kube_console.Shared.{
  ℕ, ◌+◌, ◌*◌, ◌≤◌, ◌≡◌, ◌≢◌, refl, ap, ◌∙◌, sym, Bool, List, [], ◌∷◌, ◌++◌, append-nil, Option,
  none, some, arith, length, length-append,
}
use kube_console.Shared.Text.{Text}
use kube_console.LogLines.Token.{Token}
use kube_console.LogLines.Literals.{timestamp_at}
use kube_console.LogLines.Splits.{Splits, timestamp_at-Splits}
use kube_console.LogLines.Scan.{
  Scan, Outcome, scanned, rejected, starved, and_then, whitespace, object, scan, at_line_end,
  tokenize_from, after_timestamp, tokenize_with, tokens_of, tokenize_json_line, unless_left,
}
use kube_console.LogLines.Steps.{texts, shown, Ends, whitespace-Follows}
use kube_console.LogLines.Parts.{object-Ends, scan-Ends}

-- The scanner is not short of fuel, and the tokens that it found join to the line.
abbrev pub Joins : Text → Outcome → Type 0
Joins line (scanned s) = texts s.tokens ≡ line
Joins line rejected = Unit
Joins line starved = ⊥

at_line_end-Joins : (s : Scan) (line : Text) → shown s ≡ line → Joins line (at_line_end s)
unfolding at_line_end shown unless_left
at_line_end-Joins s line e = last (whitespace s).rest refl
  where
    last : (r : Text) → (whitespace s).rest ≡ r → Joins line (unless_left r (whitespace s))
    last [] none_left =
        sym (append-nil (texts (whitespace s).tokens))
        ∙ ap (λ r. texts (whitespace s).tokens ++ r) (sym none_left)
        ∙ (whitespace-Follows s).0
        ∙ e
    last (c ∷ cs) left = tt

and_then-Joins :
    (s : Scan) (o : Outcome) (line : Text)
    → Ends s o
    → shown s ≡ line
    → Joins line (and_then o at_line_end)
unfolding and_then
and_then-Joins s (scanned t) line (same, lt) e = at_line_end-Joins t line (same ∙ e)
and_then-Joins s rejected line h e = tt
and_then-Joins s starved line h e = h

after_timestamp-shown :
    (line : Text) (o : Option (Text × Text))
    → Splits line o
    → (shown (after_timestamp line o) ≡ line) × (length (after_timestamp line o).rest ≤ length line)
unfolding after_timestamp shown texts
after_timestamp-shown line none e = (refl, omega arith)
after_timestamp-shown line (some (prefix, rest)) e = (
  ap (λ r. r ++ rest) (append-nil prefix) ∙ e,
  omega (arith, ap length e, length-append prefix rest),
)

module _ (lower : Text → Text) (is_finite : Text → Bool) (at_least : ℕ → Text → Bool) where
  tokenize_with-Joins :
      (fuel : ℕ) (line : Text)
      → 2 * length line ≤ fuel
      → Joins line (tokenize_with lower is_finite at_least fuel line)
  unfolding tokenize_with tokenize_from
  tokenize_with-Joins fuel line le =
      let (e, lt) = after_timestamp-shown line (timestamp_at line) (timestamp_at-Splits line) in
      let s = after_timestamp line (timestamp_at line) in
      and_then-Joins s (object lower is_finite at_least (scan lower is_finite at_least fuel) s) line
        (object-Ends lower is_finite at_least (scan lower is_finite at_least fuel) fuel
          (scan-Ends lower is_finite at_least fuel) s (omega (arith, le, lt)))
        e

joined :
    (o : Outcome) (line : Text) (ts : List Token)
    → Joins line o
    → tokens_of o ≡ some ts
    → texts ts ≡ line
unfolding tokens_of
joined (scanned s) line ts j e = let same : s.tokens ≡ ts = cc in sym (ap texts same) ∙ j
joined rejected line ts j e = cc
joined starved line ts j e = cc

never_starved : (o : Outcome) (line : Text) → Joins line o → o ≢ starved
never_starved (scanned s) line j e = cc
never_starved rejected line j e = cc
never_starved starved line j e = j

-- Whatever toLowerCase and Number do: the texts of the tokens of a line, joined, are the line.
pub tokens_join_line :
    (lower : Text → Text) (is_finite : Text → Bool) (at_least : ℕ → Text → Bool) (line : Text)
    (tokens : List Token)
    → tokenize_json_line lower is_finite at_least line ≡ some tokens
    → texts tokens ≡ line
unfolding tokenize_json_line
tokens_join_line lower is_finite at_least line tokens e =
    joined (tokenize_with lower is_finite at_least (2 * length line + 2) line) line tokens
      (tokenize_with-Joins lower is_finite at_least (2 * length line + 2) line (omega arith)) e

-- The recursion of the scanner ends on every line: twice the length of the line is fuel enough for it
-- never to run out.
pub tokenize_with_ends :
    (lower : Text → Text) (is_finite : Text → Bool) (at_least : ℕ → Text → Bool) (line : Text)
    (fuel : ℕ)
    → 2 * length line ≤ fuel
    → tokenize_with lower is_finite at_least fuel line ≢ starved
tokenize_with_ends lower is_finite at_least line fuel le =
    never_starved (tokenize_with lower is_finite at_least fuel line) line
      (tokenize_with-Joins lower is_finite at_least fuel line le)
