-- ===== src/LogLines/Highlight.antt =====
-- `segmentLine` of web/src/utils/logSearch.ts over the tokens of web/src/utils/logJson.ts.
use kube_console.Shared.{
  ℕ, ◌+◌, ◌-◌, ◌≤◌, ◌≡◌, refl, sym, ap, ◌∙◌, Bool, true, false, List, [], ◌∷◌, ◌++◌, append-nil,
  map, Option, none, some, String, arith, length, length-append, drop-drop, take, drop,
}
use kube_console.Shared.Text.{Text}
use kube_console.LogLines.Token.{Token}
use kube_console.LogLines.Segments.{
  Piece, slice, piece_of, pieces_of, unhit, cut, segment_pieces, segment_ranges, segment_line,
}
use kube_console.LogLines.Painted.{
  is_covered, paint, painted, ascends, paint-agrees, paint-flat, painted-append,
}
use kube_console.Shared.{◌<◌, ◌↔◌}
use kube_console.LogLines.Marked.{IsHit, match_ranges-IsHit}
use kube_console.LogLines.Hits.{
  Finds, match_from, match_ranges, ascends-match_ranges, match_ranges-agrees,
}
use kube_console.LogLines.Cuts.{cut-Cuts}
use kube_console.LogLines.Scan.{tokenize_json_line}
use kube_console.LogLines.Steps.{texts}
use kube_console.LogLines.Tokens.{tokens_join_line}

-- The pieces of a line from an offset on, painted one by one: each unit with the class of its piece and
-- with whether a range has its offset.
unfoldable pub paint_pieces : ℕ → List Piece → List (ℕ × ℕ) → List (ℕ × String × Bool)
paint_pieces pos [] ranges = []
paint_pieces pos (p ∷ pieces) ranges =
    paint pos p.cls ranges p.text ++ paint_pieces (pos + length p.text) pieces ranges

-- The texts of some pieces, joined.
unfoldable pub joined_pieces : List Piece → Text
joined_pieces [] = []
joined_pieces (p ∷ pieces) = p.text ++ joined_pieces pieces

paint_pieces-agrees :
    (pos : ℕ) (pieces : List Piece) (rs qs : List (ℕ × ℕ))
    → ((i : ℕ) → pos ≤ i → is_covered i rs ≡ is_covered i qs)
    → paint_pieces pos pieces rs ≡ paint_pieces pos pieces qs
unfolding paint_pieces
paint_pieces-agrees pos [] rs qs same = refl
paint_pieces-agrees pos (p ∷ pieces) rs qs same =
    ap (λ r. r ++ paint_pieces (pos + length p.text) pieces rs)
      (paint-agrees pos p.cls rs qs p.text same)
    ∙ ap (λ r. paint pos p.cls qs p.text ++ r)
        (paint_pieces-agrees (pos + length p.text) pieces rs qs
          (λ i le. same i (omega (arith, le))))

take-left : (xs ys : Text) → take (length xs) (xs ++ ys) ≡ xs
take-left [] ys = refl
take-left (x ∷ xs) ys = ap (λ r. x ∷ r) (take-left xs ys)

drop-left : (xs ys : Text) → drop (length xs) (xs ++ ys) ≡ ys
drop-left [] ys = refl
drop-left (x ∷ xs) ys = drop-left xs ys

-- A piece stands in the text at its offset.
slice_of_piece :
    (text : Text) (pos : ℕ) (t rest : Text)
    → drop pos text ≡ t ++ rest
    → slice pos (pos + length t) text ≡ t
unfolding slice
slice_of_piece text pos t rest e =
    let len : pos + length t - pos ≡ length t = omega arith in
    ap (λ n. take n (drop pos text)) len ∙ ap (take (length t)) e ∙ take-left t rest

segment_pieces-painted :
    (text : Text) (pos : ℕ) (pieces : List Piece) (rs : List (ℕ × ℕ))
    → drop pos text ≡ joined_pieces pieces
    → pos + length (joined_pieces pieces) ≡ length text
    → ascends 0 rs ≡ true
    → painted (segment_pieces text pos pieces rs) ≡ paint_pieces pos pieces rs
unfolding segment_pieces paint_pieces joined_pieces painted
segment_pieces-painted text pos [] rs e len up = refl
segment_pieces-painted text pos (p ∷ pieces) rs e len up =
    let stop = pos + length p.text in
    let rest = joined_pieces pieces in
    let sum : length (p.text ++ rest) ≡ length p.text + length rest = length-append p.text rest in
    let done = cut text p.cls stop (length p.text) pos rs in
    let (paints, ups, agrees) =
      cut-Cuts text p.cls stop (omega (arith, len, sum)) (length p.text) pos rs (omega arith)
        (omega arith) up in
    let after : drop stop text ≡ rest =
      sym (drop-drop (length p.text) pos stop text (omega arith))
      ∙ ap (drop (length p.text)) e
      ∙ drop-left p.text rest in
    painted-append done.0 (segment_pieces text stop pieces done.1)
    ∙ ap (λ r. r ++ painted (segment_pieces text stop pieces done.1))
        (paints ∙ ap (paint pos p.cls rs) (slice_of_piece text pos p.text rest e))
    ∙ ap (λ r. paint pos p.cls rs p.text ++ r)
        (segment_pieces-painted text stop pieces done.1 after (omega (arith, len, sum)) ups
          ∙ paint_pieces-agrees stop pieces done.1 rs agrees)

unhit-painted :
    (pos : ℕ) (pieces : List Piece) → painted (map unhit pieces) ≡ paint_pieces pos pieces []
unfolding painted paint_pieces unhit is_covered
unhit-painted pos [] = refl
unhit-painted pos (p ∷ pieces) =
    ap (λ r. r ++ painted (map unhit pieces))
      (sym (paint-flat pos p.cls [] false p.text (λ i le lt. refl)))
    ∙ ap (λ r. paint pos p.cls [] p.text ++ r) (unhit-painted (pos + length p.text) pieces)

segment_line-painted :
    (text : Text) (pieces : List Piece) (rs : List (ℕ × ℕ))
    → joined_pieces pieces ≡ text
    → ascends 0 rs ≡ true
    → painted (segment_ranges text pieces rs) ≡ paint_pieces 0 pieces rs
unfolding segment_ranges
segment_line-painted text pieces [] e up = unhit-painted 0 pieces
segment_line-painted text pieces (r ∷ rs) e up =
    segment_pieces-painted text 0 pieces (r ∷ rs) (sym e) (omega (arith, ap length e)) up

joined-piece_of : (tokens : List Token) → joined_pieces (map piece_of tokens) ≡ texts tokens
unfolding joined_pieces texts piece_of
joined-piece_of [] = refl
joined-piece_of (t ∷ tokens) = ap (λ r. t.text ++ r) (joined-piece_of tokens)

joins :
    (lower : Text → Text) (is_finite : Text → Bool) (at_least : ℕ → Text → Bool) (line : Text)
    (o : Option (List Token))
    → tokenize_json_line lower is_finite at_least line ≡ o
    → joined_pieces (pieces_of line o) ≡ line
unfolding pieces_of joined_pieces
joins lower is_finite at_least line none e = append-nil line
joins lower is_finite at_least line (some tokens) e =
    joined-piece_of tokens ∙ tokens_join_line lower is_finite at_least line tokens e

-- The segments of a line with its own tokens and hits, where every match of the query lies in the line
-- behind the index that it is asked from, and is not empty: unit by unit they are the line, each
-- unit with the colour of the token that it stands in, and marked as a hit exactly if a match has
-- its offset: the first match in the line, or one that is found from the end of an earlier one on. No
-- fuel beyond the length of the line finds more matches.
pub segments_paint_line :
    (lower : Text → Text) (is_finite : Text → Bool) (at_least : ℕ → Text → Bool)
    (exec : ℕ → Option (ℕ × ℕ)) (line : Text) (fuel : ℕ)
    → Finds exec line
    → length line < fuel
    → let tokens = tokenize_json_line lower is_finite at_least line in
      let ranges = match_ranges exec line in
      (painted (segment_line line tokens ranges) ≡ paint_pieces 0 (pieces_of line tokens) ranges)
      × (joined_pieces (pieces_of line tokens) ≡ line)
      × ((i : ℕ) → (is_covered i ranges ≡ true) ↔ IsHit exec 0 i)
      × (match_from exec fuel 0 ≡ ranges)
unfolding segment_line
segments_paint_line lower is_finite at_least exec line fuel finds enough =
    let tokens = tokenize_json_line lower is_finite at_least line in
    let whole = joins lower is_finite at_least line tokens refl in
    (
      segment_line-painted line (pieces_of line tokens) (match_ranges exec line) whole
          (ascends-match_ranges exec line finds),
      whole,
      match_ranges-IsHit exec line finds,
      match_ranges-agrees exec line fuel finds enough,
    )
