-- ===== src/LogLines/Painted.antt =====
-- `segmentLine` of web/src/utils/logSearch.ts: how each unit of a line is painted.
use kube_console.Shared.{
  ℕ, zero, suc, ◌+◌, ◌-◌, ◌≤◌, ◌<◌, ◌≡◌, refl, sym, ap, ◌∙◌, Bool, true, false, ◌&&◌, ◌||◌, List,
  [], ◌∷◌, ◌++◌, append_assoc, map, String, arith, leb, ltb, length, length-drop, drop-drop, take,
  drop, Bool-cases, inl, inr,
}
use kube_console.Shared.Text.{Text}
use kube_console.LogLines.Segments.{LineSegment, slice, skip_ended}

-- An offset in some range.
unfoldable pub is_covered : ℕ → List (ℕ × ℕ) → Bool
is_covered i [] = false
is_covered i ((a, b) ∷ ranges) = (leb a i && ltb i b) || is_covered i ranges

-- The units of a text from an offset on, each with its class and with whether a range has it.
unfoldable pub paint : ℕ → String → List (ℕ × ℕ) → Text → List (ℕ × String × Bool)
paint pos cls ranges [] = []
paint pos cls ranges (c ∷ cs) = (c, cls, is_covered pos ranges) ∷ paint (pos + 1) cls ranges cs

abbrev pub flat : String → Bool → Text → List (ℕ × String × Bool)
flat cls hit text = map (λ c. (c, cls, hit)) text

-- The units of some segments, with class and hit.
unfoldable pub painted : List LineSegment → List (ℕ × String × Bool)
painted [] = []
painted (s ∷ ss) = flat s.cls s.hit s.text ++ painted ss

-- Ranges that are not empty, do not overlap and ascend, from an offset on.
unfoldable pub ascends : ℕ → List (ℕ × ℕ) → Bool
ascends from [] = true
ascends from ((a, b) ∷ ranges) = leb from a && ltb a b && ascends b ranges

pub covered_later :
    (i from : ℕ) (rs : List (ℕ × ℕ)) → ascends from rs ≡ true → i < from → is_covered i rs ≡ false
unfolding is_covered ascends
covered_later i from [] h lt = refl
covered_later i from ((a, b) ∷ rs) h lt = ground (arith, h, lt, covered_later i b rs)

pub ascends_from :
    (from later : ℕ) (rs : List (ℕ × ℕ))
    → ascends later rs ≡ true
    → from ≤ later
    → ascends from rs ≡ true
unfolding ascends
ascends_from from later [] h le = refl
ascends_from from later ((a, b) ∷ rs) h le = ground (arith, h, le)

pub ascends-skip_ended :
    (from cursor : ℕ) (rs : List (ℕ × ℕ))
    → ascends from rs ≡ true
    → ascends from (skip_ended cursor rs) ≡ true
unfolding ascends skip_ended
ascends-skip_ended from cursor [] h = refl
ascends-skip_ended from cursor ((a, b) ∷ rs) h = elim (Bool-cases (leb b cursor)) [
  | inl t ↦
      let rest : ascends b rs ≡ true = ground (arith, h) in
      let le : from ≤ b = ground (arith, h) in
      simp t (ascends_from from b (skip_ended cursor rs) (ascends-skip_ended b cursor rs rest) le)
  | inr f ↦ simp f h
]

pub covered-skip_ended :
    (i cursor : ℕ) (rs : List (ℕ × ℕ))
    → cursor ≤ i
    → is_covered i (skip_ended cursor rs) ≡ is_covered i rs
unfolding is_covered skip_ended
covered-skip_ended i cursor [] le = refl
covered-skip_ended i cursor ((a, b) ∷ rs) le = ground (arith, le, covered-skip_ended i cursor rs)

pub paint-agrees :
    (pos : ℕ) (cls : String) (rs qs : List (ℕ × ℕ)) (t : Text)
    → ((i : ℕ) → pos ≤ i → is_covered i rs ≡ is_covered i qs)
    → paint pos cls rs t ≡ paint pos cls qs t
unfolding paint
paint-agrees pos cls rs qs [] same = refl
paint-agrees pos cls rs qs (c ∷ cs) same =
    rw
      (
        same pos (omega arith),
        paint-agrees (pos + 1) cls rs qs cs (λ i le. same i (omega (arith, le))),
      )
      refl

pub paint-flat :
    (pos : ℕ) (cls : String) (rs : List (ℕ × ℕ)) (hit : Bool) (t : Text)
    → ((i : ℕ) → pos ≤ i → i < pos + length t → is_covered i rs ≡ hit)
    → paint pos cls rs t ≡ flat cls hit t
unfolding paint
paint-flat pos cls rs hit [] same = refl
paint-flat pos cls rs hit (c ∷ cs) same =
    rw
      (
        same pos (omega arith) (omega arith),
        paint-flat (pos + 1) cls rs hit cs
            (λ i le lt. same i (omega (arith, le)) (omega (arith, lt))),
      )
      refl

pub paint-append :
    (pos : ℕ) (cls : String) (rs : List (ℕ × ℕ)) (xs ys : Text)
    → paint pos cls rs (xs ++ ys) ≡ paint pos cls rs xs ++ paint (pos + length xs) cls rs ys
unfolding paint
paint-append pos cls rs [] ys = ap (λ p. paint p cls rs ys) (omega arith)
paint-append pos cls rs (x ∷ xs) ys =
    ap (λ r. (x, cls, is_covered pos rs) ∷ r)
      (paint-append (pos + 1) cls rs xs ys
        ∙ ap (λ p. paint (pos + 1) cls rs xs ++ paint p cls rs ys) (omega arith))

take-nil : (n : ℕ) → take {A = ℕ} n [] ≡ []
take-nil zero = refl
take-nil (suc n) = refl

pub take-append : (m n k : ℕ) (t : Text) → k ≡ m + n → take m t ++ take n (drop m t) ≡ take k t
take-append zero n k t e = ap (λ j. take j t) (omega (arith, e))
take-append (suc m) n zero t e = absurd (omega (arith, e))
take-append (suc m) n (suc k) [] e = take-nil n
take-append (suc m) n (suc k) (c ∷ t) e = ap (λ r. c ∷ r) (take-append m n k t (omega (arith, e)))

length-take : (n : ℕ) (t : Text) → n ≤ length t → length (take n t) ≡ n
length-take zero t le = refl
length-take (suc n) [] le = absurd (omega (arith, le))
length-take (suc n) (c ∷ t) le = ap suc (length-take n t (omega (arith, le)))

pub slice-append : (a b c : ℕ) (t : Text) → a ≤ b → b ≤ c → slice a b t ++ slice b c t ≡ slice a c t
unfolding slice
slice-append a b c t ab bc =
    ap (λ r. take (b - a) (drop a t) ++ take (c - b) r)
      (sym (drop-drop (b - a) a b t (omega (arith, ab))))
    ∙ take-append (b - a) (c - b) (c - a) (drop a t) (omega (arith, ab, bc))

pub length-slice : (a b : ℕ) (t : Text) → a ≤ b → b ≤ length t → length (slice a b t) ≡ b - a
unfolding slice
length-slice a b t ab bt = length-take (b - a) (drop a t) (omega (arith, ab, bt, length-drop a t))

-- A part of the text, painted in two.
pub paint-slices :
    (a b c : ℕ) (cls : String) (rs : List (ℕ × ℕ)) (t : Text)
    → a ≤ b
    → b ≤ c
    → c ≤ length t
    → paint a cls rs (slice a c t) ≡ paint a cls rs (slice a b t) ++ paint b cls rs (slice b c t)
paint-slices a b c cls rs t ab bc ct =
    ap (paint a cls rs) (sym (slice-append a b c t ab bc))
    ∙ paint-append a cls rs (slice a b t) (slice b c t)
    ∙ ap (λ p. paint a cls rs (slice a b t) ++ paint p cls rs (slice b c t))
        (omega (arith, ab, bc, ct, length-slice a b t ab (omega (arith, bc, ct))))

-- A part of the text that one flag describes.
pub slice-flat :
    (a b : ℕ) (cls : String) (rs : List (ℕ × ℕ)) (hit : Bool) (t : Text)
    → a ≤ b
    → b ≤ length t
    → ((i : ℕ) → a ≤ i → i < b → is_covered i rs ≡ hit)
    → paint a cls rs (slice a b t) ≡ flat cls hit (slice a b t)
slice-flat a b cls rs hit t ab bt same =
    paint-flat a cls rs hit (slice a b t)
      (λ i le lt. same i le (omega (arith, lt, length-slice a b t ab bt, ab)))

pub painted-append : (ss ts : List LineSegment) → painted (ss ++ ts) ≡ painted ss ++ painted ts
unfolding painted
painted-append [] ts = refl
painted-append (s ∷ ss) ts =
    ap (λ r. flat s.cls s.hit s.text ++ r) (painted-append ss ts)
    ∙ sym (append_assoc (flat s.cls s.hit s.text) (painted ss) (painted ts))

pub slice_self : (a : ℕ) (t : Text) → slice a a t ≡ []
unfolding slice
slice_self a t = let none_left : a - a ≡ 0 = omega arith in ap (λ n. take n (drop a t)) none_left

pub head_misses :
    (i a b : ℕ) (rs : List (ℕ × ℕ))
    → ascends 0 ((a, b) ∷ rs) ≡ true
    → i < a
    → is_covered i ((a, b) ∷ rs) ≡ false
unfolding ascends
head_misses i a b rs up lt = covered_later i a ((a, b) ∷ rs) (ground (arith, up)) lt

pub head_hits : (i a b : ℕ) (rs : List (ℕ × ℕ)) → a ≤ i → i < b → is_covered i ((a, b) ∷ rs) ≡ true
unfolding is_covered
head_hits i a b rs le lt = ground (arith, le, lt)

pub head_is_proper : (a b : ℕ) (rs : List (ℕ × ℕ)) → ascends 0 ((a, b) ∷ rs) ≡ true → a < b
unfolding ascends
head_is_proper a b rs up = ground (arith, up)

pub none_covered : (i : ℕ) → is_covered i [] ≡ false
unfolding is_covered
none_covered i = refl
