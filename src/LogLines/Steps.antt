-- ===== src/LogLines/Steps.antt =====
-- web/src/utils/logJson.ts: what one step of the scanner does to the line.
use kube_console.Shared.{
  ℕ, ◌≤◌, ◌<◌, ◌≡◌, refl, ap, ◌∙◌, sym, List, [], ◌∷◌, ◌++◌, append_assoc, append-nil, arith, ◌==◌,
  length, length-append, Bool-cases, inl, inr,
}
use kube_console.Shared.Text.{Text}
use kube_console.LogLines.Token.{punct_token, Token, plain}
use kube_console.LogLines.Literals.{span}
use kube_console.LogLines.Splits.{span-Splits}
use kube_console.LogLines.Scan.{
  Scan, Outcome, scanned, rejected, starved, and_then, emit, is_blank_unit, take_blanks, whitespace,
  punct_at, punct, or_else, continue_or, next_or_close,
}

-- The texts of some tokens, joined.
unfoldable pub texts : List Token → Text
texts [] = []
texts (t ∷ ts) = t.text ++ texts ts

-- The line that a scan stands in: the tokens and what is left.
unfoldable pub shown : Scan → Text
shown s = texts s.tokens ++ s.rest

texts-append : (ts us : List Token) → texts (ts ++ us) ≡ texts ts ++ texts us
unfolding texts
texts-append [] us = refl
texts-append (t ∷ ts) us =
    ap (λ r. t.text ++ r) (texts-append ts us) ∙ sym (append_assoc t.text (texts ts) (texts us))

pub shown-emit :
    (t : Token) (rest : Text) (s : Scan) → t.text ++ rest ≡ s.rest → shown (emit t rest s) ≡ shown s
unfolding shown emit texts
shown-emit t rest s e =
    ap (λ r. r ++ rest) (texts-append s.tokens (t ∷ []))
    ∙ append_assoc (texts s.tokens) (t.text ++ []) rest
    ∙ ap (λ r. texts s.tokens ++ (r ++ rest)) (append-nil t.text)
    ∙ ap (λ r. texts s.tokens ++ r) e

-- One scan follows another in the same line, not before it.
abbrev pub Follows : Scan → Scan → Type 0
Follows s t = (shown t ≡ shown s) × (length t.rest ≤ length s.rest)

-- It stands behind it.
abbrev pub Passes : Scan → Scan → Type 0
Passes s t = (shown t ≡ shown s) × (length t.rest < length s.rest)

-- An outcome stands behind a scan, and is not short of fuel.
abbrev pub Ends : Scan → Outcome → Type 0
Ends s (scanned t) = Passes s t
Ends s rejected = Unit
Ends s starved = ⊥

pub emit-Passes :
    (t : Token) (rest : Text) (s : Scan)
    → t.text ++ rest ≡ s.rest
    → 0 < length t.text
    → Passes s (emit t rest s)
unfolding emit
emit-Passes t rest s e lt =
    (shown-emit t rest s e, omega (arith, ap length e, length-append t.text rest, lt))

take_blanks-Follows :
    (p : Text × Text) (s : Scan) → p.0 ++ p.1 ≡ s.rest → Follows s (take_blanks p s)
unfolding take_blanks
take_blanks-Follows ([], rest) s e = (refl, omega arith)
take_blanks-Follows (c ∷ cs, rest) s e =
    let (same, lt) = emit-Passes (plain punct_token (c ∷ cs)) rest s e (omega arith) in
    (same, omega (arith, lt))

pub whitespace-Follows : (s : Scan) → Follows s (whitespace s)
unfolding whitespace
whitespace-Follows s =
    take_blanks-Follows (span is_blank_unit s.rest) s (span-Splits is_blank_unit s.rest)

pub punct-Ends : (ch : ℕ) (s : Scan) → Ends s (punct ch s)
unfolding punct punct_at
punct-Ends ch s = units s.rest refl
  where
    units : (r : Text) → s.rest ≡ r → Ends s (punct_at ch r s)
    units [] e = tt
    units (c ∷ cs) e = elim (Bool-cases (c == ch)) [
      | inl t ↦
          let same : c ≡ ch = ground (arith, t) in
          simp t (
            emit-Passes (plain punct_token (ch ∷ [])) cs s (ap (λ x. x ∷ cs) (sym same) ∙ sym e)
              (omega arith))
      | inr f ↦ simp f tt
    ]

pub Follows-Ends : (s t : Scan) (o : Outcome) → Follows s t → Ends t o → Ends s o
Follows-Ends s t (scanned u) (e, le) (f, lt) = (f ∙ e, omega (arith, le, lt))
Follows-Ends s t rejected h k = tt
Follows-Ends s t starved h k = k

pub Passes-Follows : (s t : Scan) → Passes s t → Follows s t
Passes-Follows s t (e, lt) = (e, omega (arith, lt))

pub and_then-Ends :
    (s : Scan) (o : Outcome) (go_on : Scan → Outcome)
    → Ends s o
    → ((t : Scan) → Passes s t → Ends t (go_on t))
    → Ends s (and_then o go_on)
unfolding and_then
and_then-Ends s (scanned t) go_on p k = Follows-Ends s t (go_on t) (Passes-Follows s t p) (k t p)
and_then-Ends s rejected go_on p k = tt
and_then-Ends s starved go_on p k = p

pub or_else-Ends : (s : Scan) (o p : Outcome) → Ends s o → Ends s p → Ends s (or_else o p)
unfolding or_else
or_else-Ends s (scanned t) p h k = h
or_else-Ends s rejected p h k = k
or_else-Ends s starved p h k = h

continue_or-Ends :
    (s : Scan) (o : Outcome) (again : Scan → Outcome) (close : Outcome)
    → Ends s o
    → ((t : Scan) → Passes s t → Ends t (again t))
    → Ends s close
    → Ends s (continue_or o again close)
unfolding continue_or
continue_or-Ends s (scanned t) again close p k c =
    Follows-Ends s t (again t) (Passes-Follows s t p) (k t p)
continue_or-Ends s rejected again close p k c = c
continue_or-Ends s starved again close p k c = p

pub next_or_close-Ends :
    (close : ℕ) (again : Scan → Outcome) (s : Scan)
    → ((t : Scan) → Passes s t → Ends t (again t))
    → Ends s (next_or_close close again s)
unfolding next_or_close
next_or_close-Ends close again s k =
    continue_or-Ends s (punct 44 s) again (punct close s) (punct-Ends 44 s) k (punct-Ends close s)
