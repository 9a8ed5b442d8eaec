-- ===== src/LogLines/Segments.antt =====
-- `segmentLine` of web/src/utils/logSearch.ts. The ranges from the index `r` on are a list. The inner
-- loop is on fuel, for which the length of a piece is enough.
use kube_console.Shared.{
  ℕ, zero, suc, ◌+◌, ◌-◌, max, min, Bool, true, false, List, [], ◌∷◌, ◌++◌, map, Option, none, some,
  String, leb, ltb, if◌then◌else◌, length, take, drop,
}
use kube_console.Shared.Text.{Text}
use kube_console.LogLines.Token.{Token, log_token_class}

pub record Piece : Type 0 where
  pub text : Text
  pub cls : String

pub record LineSegment : Type 0 where
  pub text : Text
  pub cls : String
  pub hit : Bool

-- `text.slice(from, to)`
unfoldable pub slice : ℕ → ℕ → Text → Text
slice from to text = take (to - from) (drop from text)

unfoldable pub piece_of : Token → Piece
piece_of t = record { text = t.text; cls = log_token_class t }

unfoldable pub pieces_of : Text → Option (List Token) → List Piece
pieces_of text none = record { text = text; cls = "" } ∷ []
pieces_of text (some tokens) = map piece_of tokens

unfoldable pub unhit : Piece → LineSegment
unhit p = record { text = p.text; cls = p.cls; hit = false }

-- Skip the ranges that ended before the cursor.
unfoldable pub skip_ended : ℕ → List (ℕ × ℕ) → List (ℕ × ℕ)
skip_ended cursor [] = []
skip_ended cursor ((a, b) ∷ ranges) =
    let later = skip_ended cursor ranges in if leb b cursor then later else (a, b) ∷ ranges

module _ (text : Text) (cls : String) (piece_end : ℕ) where
  unfoldable pub segment : ℕ → ℕ → Bool → LineSegment
  segment from to hit = record { text = slice from to text; cls = cls; hit = hit }

  -- The segment before a hit, unless it is empty.
  unfoldable pub before_hit : ℕ → ℕ → List LineSegment
  before_hit cursor hit_start =
      if ltb cursor hit_start then segment cursor hit_start false ∷ [] else []

  -- The body of the inner loop with the first range that has not ended; `again` is the next round.
  unfoldable pub cut_at :
      (ℕ → List (ℕ × ℕ) → List LineSegment × List (ℕ × ℕ))
      → ℕ
      → List (ℕ × ℕ)
      → List LineSegment × List (ℕ × ℕ)
  cut_at again cursor [] = (segment cursor piece_end false ∷ [], [])
  cut_at again cursor ((a, b) ∷ ranges) =
      if leb piece_end a
      then (segment cursor piece_end false ∷ [], (a, b) ∷ ranges)
      else let hit_start = max a cursor in
        let hit_end = min b piece_end in
        let (later, left) = again hit_end ((a, b) ∷ ranges) in
        (before_hit cursor hit_start ++ (segment hit_start hit_end true ∷ later), left)

  unfoldable pub cut : ℕ → ℕ → List (ℕ × ℕ) → List LineSegment × List (ℕ × ℕ)
  cut zero cursor ranges = ([], ranges)
  cut (suc fuel) cursor ranges =
      if ltb cursor piece_end
      then cut_at (λ next left. cut fuel next left) cursor (skip_ended cursor ranges)
      else ([], ranges)

-- The outer loop, from the offset of a piece on.
unfoldable pub segment_pieces : Text → ℕ → List Piece → List (ℕ × ℕ) → List LineSegment
segment_pieces text pos [] ranges = []
segment_pieces text pos (p ∷ pieces) ranges =
    let piece_end = pos + length p.text in
    let (segments, left) = cut text p.cls piece_end (length p.text) pos ranges in
    segments ++ segment_pieces text piece_end pieces left

unfoldable pub segment_ranges : Text → List Piece → List (ℕ × ℕ) → List LineSegment
segment_ranges text pieces [] = map unhit pieces
segment_ranges text pieces (r ∷ ranges) = segment_pieces text 0 pieces (r ∷ ranges)

-- `segmentLine(text, tokens, ranges)`
unfoldable pub segment_line : Text → Option (List Token) → List (ℕ × ℕ) → List LineSegment
segment_line text tokens ranges = segment_ranges text (pieces_of text tokens) ranges
