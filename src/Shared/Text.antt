-- ===== src/Shared/Text.antt =====
-- Texts that the program walks, as lists of UTF-16 code units, and their split into lines: what
-- `split("\n")` leaves after `pop()`, and what the `indexOf("\n")` loop of a stream reader takes off.
use Prim.Native.Nat.{ℕ}
use mathlib.Core.Logic.{inl, inr}
use Prim.Native.Char.{code}
use Prim.Native.String.{String}
use mathlib.Core.Bool.{Bool, true, false, ◌&&◌, ◌||◌}
use mathlib.Core.Path.{◌≡◌, refl}
use mathlib.Core.List.{List, [], ◌∷◌, ◌++◌}
use native.Mathlib.Omega.{arith}
use kube_console.Shared.Tests.{◌==◌, leb, if◌then◌else◌, Bool-cases}

abbrev pub Text : Type 0
Text = List ℕ

abbrev pub newline : ℕ
newline = 10

-- Put one code unit before the first line, or before the rest if no line is complete.
abbrev pub prepend : ℕ → List Text × Text → List Text × Text
prepend c ([], rest) = ([], c ∷ rest)
prepend c (l ∷ ls, rest) = ((c ∷ l) ∷ ls, rest)

-- The complete lines of a text, and what stands behind its last newline.
unfoldable pub split_lines : Text → List Text × Text
split_lines [] = ([], [])
split_lines (c ∷ s) =
    let (ls, rest) = split_lines s in if c == newline then ([] ∷ ls, rest) else prepend c (ls, rest)

abbrev pub before : List Text → List Text × Text → List Text × Text
before ls (ms, rest) = (ls ++ ms, rest)

-- Reading a text in two pieces, with the rest of the first before the second, finds the same lines.
pub split_lines-append :
    (s t : Text)
    → split_lines (s ++ t) ≡ before (split_lines s).0 (split_lines ((split_lines s).1 ++ t))
unfolding split_lines
split_lines-append [] t = refl
split_lines-append (c ∷ s) t = ground (arith, split_lines-append s t)

prepend-rest :
    (c : ℕ) (ls : List Text) (rest : Text)
    → (c == newline) ≡ false
    → split_lines rest ≡ ([], rest)
    → split_lines (prepend c (ls, rest)).1 ≡ ([], (prepend c (ls, rest)).1)
unfolding split_lines
prepend-rest c [] rest other w = rw (w, other)
prepend-rest c (l ∷ ls) rest other w = w

-- The rest is one line that is not complete.
pub split_lines-rest : (t : Text) → split_lines (split_lines t).1 ≡ ([], (split_lines t).1)
unfolding split_lines
split_lines-rest [] = refl
split_lines-rest (c ∷ t) = elim (Bool-cases (c == newline)) [
  | inl e ↦ simp e (split_lines-rest t)
  | inr e ↦ simp e (prepend-rest c (split_lines t).0 (split_lines t).1 e (split_lines-rest t))
]

-- The white space that `trim()` removes.
abbrev pub is_space : ℕ → Bool
is_space c =
    (leb 9 c && leb c 13)
    || c == 32
    || c == 0xa0
    || c == 0x1680
    || (leb 0x2000 c && leb c 0x200a)
    || c == 0x2028
    || c == 0x2029
    || c == 0x202f
    || c == 0x205f
    || c == 0x3000
    || c == 0xfeff

-- `s.trim() === ""`
unfoldable pub is_blank : String → Bool
is_blank String.[] = true
is_blank (String.◌∷◌ c s) = is_space (code c) && is_blank s

-- The code units of a text literal.
abbrev pub codes : String → Text
codes String.[] = []
codes (String.◌∷◌ c s) = code c ∷ codes s

-- `===` on texts as code units.
unfoldable pub text_eq : Text → Text → Bool
text_eq [] [] = true
text_eq (c ∷ s) (d ∷ t) = c == d && text_eq s t
text_eq _ _ = false

pub text_eq_iff : (s t : Text) → (text_eq s t ≡ true → s ≡ t) × (s ≡ t → text_eq s t ≡ true)
unfolding text_eq
text_eq_iff [] [] = ground arith
text_eq_iff [] (d ∷ t) = ground arith
text_eq_iff (c ∷ s) [] = ground arith
text_eq_iff (c ∷ s) (d ∷ t) = ground (arith, text_eq_iff s t)
