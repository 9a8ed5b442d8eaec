-- ===== src/LogLines/Parts.antt =====
-- web/src/utils/logJson.ts: values, objects and arrays, and their recursion.
use kube_console.Shared.{
  ℕ, zero, suc, ◌+◌, ◌*◌, ◌≤◌, ◌<◌, ◌≡◌, refl, ap, ◌∙◌, Bool, false, [], ◌∷◌, ◌++◌, Option, none,
  some, arith, ◌==◌, if◌then◌else◌, length, Bool-cases, inl, inr,
}
use kube_console.Shared.Text.{Text}
use kube_console.LogLines.Token.{
  Kind, key_token, string_token, number_token, keyword_token, Severity, Token, plain, is_level_key,
  severity_of_name, severity_of_number,
}
use kube_console.LogLines.Literals.{string_literal, keyword_at, number_at}
use kube_console.LogLines.Splits.{
  Splits, Moves, string_literal-Splits, string_literal-Moves, keyword_at-Splits, keyword_at-Moves,
  number_at-Splits, number_at-Moves,
}
use kube_console.LogLines.Scan.{
  Scan, Outcome, Part, value_part, members_part, elements_part, emit, whitespace, punct, inner,
  leveled, next_or_close, string_value, keyword_value, number_value, object, array, value_at, value,
  member_of, members, elements, scan_part, scan,
}
use kube_console.LogLines.Steps.{
  Passes, Ends, emit-Passes, whitespace-Follows, punct-Ends, Follows-Ends, and_then-Ends,
  or_else-Ends, next_or_close-Ends,
}

-- The fuel that a part needs for a text.
abbrev pub weight : Part → Scan → ℕ
weight (value_part is_level) s = 2 * length s.rest
weight members_part s = 2 * length s.rest + 1
weight elements_part s = 2 * length s.rest + 1

leveled-text : (kind : Kind) (text : Text) (o : Option Severity) → (leveled kind text o).text ≡ text
unfolding leveled
leveled-text kind text none = refl
leveled-text kind text (some v) = refl

-- A token of a literal.
literal-Passes :
    (t : Token) (raw rest : Text) (s : Scan)
    → t.text ≡ raw
    → raw ++ rest ≡ s.rest
    → 0 < length raw
    → Passes s (emit t rest s)
literal-Passes t raw rest s same e lt =
    emit-Passes t rest s (ap (λ r. r ++ rest) same ∙ e) (omega (arith, ap length same, lt))

keyword_value-Ends :
    (o : Option (Text × Text)) (s : Scan) → Splits s.rest o → Moves o → Ends s (keyword_value o s)
unfolding keyword_value
keyword_value-Ends none s e lt = tt
keyword_value-Ends (some (word, rest)) s e lt =
    literal-Passes (plain keyword_token word) word rest s refl e lt

module _ (lower : Text → Text) (is_finite : Text → Bool) (at_least : ℕ → Text → Bool) where
  string_value-Ends :
      (b : Bool) (o : Option (Text × Text)) (s : Scan)
      → Splits s.rest o
      → Moves o
      → Ends s (string_value lower is_finite at_least b o s)
  unfolding string_value
  string_value-Ends b none s e lt = tt
  string_value-Ends b (some (raw, rest)) s e lt =
      literal-Passes _ raw rest s
        (leveled-text string_token raw (if b then severity_of_name lower (inner raw) else none)) e
        lt

  number_value-Ends :
      (b : Bool) (o : Option (Text × Text)) (s : Scan)
      → Splits s.rest o
      → Moves o
      → Ends s (number_value lower is_finite at_least b o s)
  unfolding number_value
  number_value-Ends b none s e lt = tt
  number_value-Ends b (some (text, rest)) s e lt =
      literal-Passes _ text rest s
        (leveled-text number_token text
          (if b then severity_of_number is_finite at_least text else none))
        e lt

  module _ (again : Part → Scan → Outcome) (bound : ℕ)
      (ends : (p : Part) (s : Scan) → weight p s < bound → Ends s (again p s)) where
    -- An object, where what is left of the line leaves enough fuel for its members.
    pub object-Ends :
        (s : Scan) → 2 * length s.rest ≤ bound → Ends s (object lower is_finite at_least again s)
    unfolding object
    object-Ends s le = and_then-Ends s (punct 123 s) _ (punct-Ends 123 s) (λ o (same, lt).
        let (e, le') = whitespace-Follows o in
        Follows-Ends o (whitespace o) _ (e, le')
          (or_else-Ends (whitespace o) (punct 125 (whitespace o)) _ (punct-Ends 125 (whitespace o))
            (ends members_part (whitespace o) (omega (arith, le, lt, le')))))

    array-Ends :
        (s : Scan) → 2 * length s.rest ≤ bound → Ends s (array lower is_finite at_least again s)
    unfolding array
    array-Ends s le = and_then-Ends s (punct 91 s) _ (punct-Ends 91 s) (λ o (same, lt).
        let (e, le') = whitespace-Follows o in
        Follows-Ends o (whitespace o) _ (e, le')
          (or_else-Ends (whitespace o) (punct 93 (whitespace o)) _ (punct-Ends 93 (whitespace o))
            (ends elements_part (whitespace o) (omega (arith, le, lt, le')))))

    value_at-Ends :
        (b : Bool) (r : Text) (s : Scan)
        → 2 * length s.rest ≤ bound
        → Ends s (value_at lower is_finite at_least again b r s)
    unfolding value_at
    value_at-Ends b [] s le = tt
    value_at-Ends b (c ∷ cs) s le = elim (Bool-cases (c == 123)) [
      | inl t ↦ simp t (object-Ends s le)
      | inr f ↦ elim (Bool-cases (c == 91)) [
        | inl t ↦ simp (f, t) (array-Ends s le)
        | inr g ↦ elim (Bool-cases (c == 34)) [
          | inl t ↦
              simp (f, g, t)
                (string_value-Ends b (string_literal s.rest) s (string_literal-Splits s.rest)
                  (string_literal-Moves s.rest))
          | inr h ↦
              simp (f, g, h)
                (or_else-Ends s (keyword_value (keyword_at s.rest) s) _
                  (keyword_value-Ends (keyword_at s.rest) s (keyword_at-Splits s.rest)
                    (keyword_at-Moves s.rest))
                  (number_value-Ends b (number_at s.rest) s (number_at-Splits s.rest)
                    (number_at-Moves s.rest)))
        ]
      ]
    ]

    value-Ends :
        (b : Bool) (s : Scan)
        → 2 * length s.rest ≤ bound
        → Ends s (value lower is_finite at_least again b s)
    unfolding value
    value-Ends b s le =
        let (e, le') = whitespace-Follows s in
        Follows-Ends s (whitespace s) _ (e, le')
          (value_at-Ends b (whitespace s).rest (whitespace s) (omega (arith, le, le')))

    elements-Ends :
        (s : Scan) → 2 * length s.rest < bound → Ends s (elements lower is_finite at_least again s)
    unfolding elements
    elements-Ends s lt =
        and_then-Ends s (again (value_part false) s) _ (ends (value_part false) s lt)
          (λ t (same, lt').
            let (e, le') = whitespace-Follows t in
            Follows-Ends t (whitespace t) _ (e, le')
              (next_or_close-Ends 93 (again elements_part) (whitespace t)
                (λ u (e', lt''). ends elements_part u (omega (arith, lt, lt', le', lt'')))))

    member_of-Ends :
        (o : Option (Text × Text)) (s : Scan)
        → Splits s.rest o
        → Moves o
        → 2 * length s.rest < bound
        → Ends s (member_of lower is_finite at_least again o s)
    unfolding member_of
    member_of-Ends none s e m lt = tt
    member_of-Ends (some (key, rest)) s e m lt =
        let k = emit (plain key_token key) rest s in
        let (same, past) = literal-Passes (plain key_token key) key rest s refl e m in
        let (e', le) = whitespace-Follows k in
        Follows-Ends s (whitespace k) _ (e' ∙ same, omega (arith, past, le))
          (and_then-Ends (whitespace k) (punct 58 (whitespace k)) _ (punct-Ends 58 (whitespace k))
            (λ t (et, lt').
              and_then-Ends t (again (value_part (is_level_key lower (inner key))) t) _
                (ends (value_part (is_level_key lower (inner key))) t
                  (omega (arith, lt, past, le, lt')))
                (λ u (eu, lt''). closed u (omega (arith, past, le, lt', lt'')))))
      where
        closed :
            (u : Scan)
            → length u.rest < length s.rest
            → Ends u (next_or_close 125 (again members_part) (whitespace u))
        closed u less =
            let (e, le) = whitespace-Follows u in
            Follows-Ends u (whitespace u) _ (e, le)
              (next_or_close-Ends 125 (again members_part) (whitespace u)
                (λ v (ev, lt'). ends members_part v (omega (arith, lt, less, le, lt'))))

    members-Ends :
        (s : Scan) → 2 * length s.rest < bound → Ends s (members lower is_finite at_least again s)
    unfolding members
    members-Ends s lt =
        let (e, le) = whitespace-Follows s in
        let here = whitespace s in
        Follows-Ends s here _ (e, le)
          (member_of-Ends (string_literal here.rest) here (string_literal-Splits here.rest)
            (string_literal-Moves here.rest) (omega (arith, lt, le)))

    scan_part-Ends :
        (p : Part) (s : Scan)
        → weight p s < suc bound
        → Ends s (scan_part lower is_finite at_least again p s)
    unfolding scan_part
    scan_part-Ends (value_part b) s lt = value-Ends b s (omega (arith, lt))
    scan_part-Ends members_part s lt = members-Ends s (omega (arith, lt))
    scan_part-Ends elements_part s lt = elements-Ends s (omega (arith, lt))

  pub scan-Ends :
      (fuel : ℕ) (p : Part) (s : Scan)
      → weight p s < fuel
      → Ends s (scan lower is_finite at_least fuel p s)
  unfolding scan
  scan-Ends zero p s lt = absurd (omega (arith, lt))
  scan-Ends (suc fuel) p s lt =
      scan_part-Ends (λ q t. scan lower is_finite at_least fuel q t) fuel (scan-Ends fuel) p s lt
