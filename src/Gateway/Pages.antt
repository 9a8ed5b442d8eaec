-- ===== src/Gateway/Pages.antt =====
-- `walkTable` of web/src/api/k8s.ts against the pages that a server has for a collection.
use kube_console.Shared.{
  ℕ, zero, suc, ◌+◌, ◌≤◌, ◌<◌, ◌≡◌, ◌≢◌, refl, sym, ap, ◌∙◌, Bool, true, false, not, ◌||◌, List, [],
  ◌∷◌, ◌++◌, append-nil, append_assoc, Option, none, some, String, arith, ltb, str_eq,
  if◌then◌else◌, get_or, filter, length, length-append, take, eq_iff, Bool-cases, ◌⊎◌, inl, inr,
}
use kube_console.ResourceList.Rows.{Row}
use kube_console.Gateway.Table.{ListResult}
use kube_console.Gateway.Walk.{
  Result, ok, err, Walk, WalkOptions, keeps, is_full, absorb, on_answer, walk_from, fresh_walk,
  walk_table, is_truncated,
}

-- The pages that a server gives from a round and a token on: each page names the token of the next,
-- the last names none. The pages may also end in an error.
pub data Serves {E : Type 0} (answer : ℕ → String → Result E ListResult)
    : ℕ → String → List ListResult → Option E → Type 0 where
  last_page :
      {page : ℕ} {cont : String} (p : ListResult)
      → answer page cont ≡ ok p
      → p.continue_token ≡ ""
      → Serves answer page cont (p ∷ []) none
  next_page :
      {page : ℕ} {cont : String} {ps : List ListResult} {end : Option E} (p : ListResult)
      → answer page cont ≡ ok p
      → p.continue_token ≢ ""
      → Serves answer (page + 1) p.continue_token ps end
      → Serves answer page cont (p ∷ ps) end
  broken_page :
      {page : ℕ} {cont : String} (e : E)
      → answer page cont ≡ err e
      → Serves answer page cont [] (some e)

-- All rows of some pages.
unfoldable pub all_rows : List ListResult → List Row
all_rows [] = []
all_rows (p ∷ ps) = get_or p.table.rows [] ++ all_rows ps

-- The pages that go into a walk, one after the other.
unfoldable pub absorb_all : Option (Row → Bool) → ℕ → List ListResult → Walk → Walk
absorb_all keep page [] w = w
absorb_all keep page (p ∷ ps) w = absorb_all keep (page + 1) ps (absorb keep page p w)

-- The version of the last of some pages, or one from before.
unfoldable pub version_after : String → List ListResult → String
version_after v [] = v
version_after v (p ∷ ps) = version_after p.resource_version ps

resource_version-absorb_all :
    (keep : Option (Row → Bool)) (page : ℕ) (ps : List ListResult) (w : Walk)
    → (absorb_all keep page ps w).resource_version ≡ version_after w.resource_version ps
unfolding absorb_all absorb version_after
resource_version-absorb_all keep page [] w = refl
resource_version-absorb_all keep page (p ∷ ps) w =
    resource_version-absorb_all keep (page + 1) ps (absorb keep page p w)

filter-append {ℓ} :
    {A : Type ℓ} (q : A → Bool) (xs ys : List A) → filter q (xs ++ ys) ≡ filter q xs ++ filter q ys
filter-append q [] ys = refl
filter-append q (x ∷ xs) ys = ground (arith, filter-append q xs ys)

rows-absorb_all :
    (keep : Option (Row → Bool)) (page : ℕ) (ps : List ListResult) (w : Walk)
    → (absorb_all keep page ps w).rows ≡ w.rows ++ filter (keeps keep) (all_rows ps)
unfolding absorb_all all_rows absorb
rows-absorb_all keep page [] w = sym (append-nil w.rows)
rows-absorb_all keep page (p ∷ ps) w =
    rows-absorb_all keep (page + 1) ps (absorb keep page p w)
    ∙ append_assoc w.rows (filter (keeps keep) (get_or p.table.rows []))
        (filter (keeps keep) (all_rows ps))
    ∙ ap (λ l. w.rows ++ l)
        (sym (filter-append (keeps keep) (get_or p.table.rows []) (all_rows ps)))

scanned-absorb_all :
    (keep : Option (Row → Bool)) (page : ℕ) (ps : List ListResult) (w : Walk)
    → (absorb_all keep page ps w).scanned ≡ w.scanned + length (all_rows ps)
unfolding absorb_all all_rows absorb
scanned-absorb_all keep page [] w = omega arith
scanned-absorb_all keep page (p ∷ ps) w = omega (
  arith,
  scanned-absorb_all keep (page + 1) ps (absorb keep page p w),
  length-append (get_or p.table.rows []) (all_rows ps),
)

module _ {E : Type 0} (answer : ℕ → String → Result E ListResult) (abort : ℕ → Bool)
    (keep : Option (Row → Bool)) (most : Option ℕ) where
  -- Why a walk of `rounds` rounds over these pages stops after `k` of them.
  pub data Stops (rounds k : ℕ) (ps : List ListResult) (w : Walk) : Type 0 where
    at_end : k ≡ length ps → is_truncated w ≡ false → Stops rounds k ps w
    at_cap : k ≡ rounds → k < length ps → is_truncated w ≡ true → Stops rounds k ps w
    at_most :
        is_full most w.rows ≡ true → k < length ps → is_truncated w ≡ true → Stops rounds k ps w

  -- One round with its answer at hand.
  one_round :
      (rounds page : ℕ) (w : Walk) (p : ListResult)
      → answer page w.cont ≡ ok p
      → abort page ≡ false
      → walk_from answer abort keep most (suc rounds) page w ≡ (
          if str_eq p.continue_token "" || is_full most (absorb keep page p w).rows
          then ok (absorb keep page p w)
          else walk_from answer abort keep most rounds (page + 1) (absorb keep page p w))
  unfolding walk_from on_answer absorb
  one_round rounds page w p a n = rw (a, on_answer, n) refl

  pub one_failure :
      (rounds page : ℕ) (w : Walk) (e : E)
      → answer page w.cont ≡ err e
      → walk_from answer abort keep most (suc rounds) page w ≡ err e
  unfolding walk_from on_answer
  one_failure rounds page w e a = rw (a, on_answer) refl

  -- Before the page at which the walk stops, the rows were never full.
  abbrev HasRoom : ℕ → ℕ → Walk → List ListResult → Type 0
  HasRoom k page w ps =
      (j : ℕ) → 0 < j → j < k → is_full most (absorb_all keep page (take j ps) w).rows ≡ false

  one_page : (page : ℕ) (w : Walk) (ps : List ListResult) → HasRoom 1 page w ps
  one_page page w ps j lo hi = absurd (omega (arith, lo, hi))

  -- The walk reads some of the pages, in order, and stops for one of the reasons.
  abbrev pub Walked : ℕ → ℕ → Walk → List ListResult → Type 0
  Walked rounds page w ps =
      (k : ℕ) × (k ≤ rounds)
      × (walk_from answer abort keep most rounds page w ≡ ok (absorb_all keep page (take k ps) w))
      × Stops rounds k ps (absorb_all keep page (take k ps) w)
      × HasRoom k page w ps

  abbrev pub is_over : ℕ → Walk → ListResult → Bool
  is_over page w p = str_eq p.continue_token "" || is_full most (absorb keep page p w).rows

  pub token_test : (p : ListResult) → p.continue_token ≢ "" → str_eq p.continue_token "" ≡ false
  token_test p n = ground (arith, n, eq_iff p.continue_token "")

  reads_more :
      (rounds page : ℕ) (w : Walk) (p : ListResult) (ps : List ListResult)
      → walk_from answer abort keep most (suc rounds) page w
        ≡ walk_from answer abort keep most rounds (page + 1) (absorb keep page p w)
      → is_full most (absorb keep page p w).rows ≡ false
      → Walked rounds (page + 1) (absorb keep page p w) ps
      → Walked (suc rounds) page w (p ∷ ps)
  unfolding absorb_all
  reads_more rounds page w p ps step free (k, le, e, stop, room) =
      (suc k, omega arith, step ∙ e, next_stop k stop, more_room)
    where
      more_room : HasRoom (suc k) page w (p ∷ ps)
      more_room zero lo hi = absurd (omega (arith, lo))
      more_room (suc zero) lo hi = free
      more_room (suc (suc j)) lo hi = room (suc j) (omega arith) (omega (arith, hi))

      next_stop : (k : ℕ) {v : Walk} → Stops rounds k ps v → Stops (suc rounds) (suc k) (p ∷ ps) v
      next_stop k (at_end e t) = at_end (ap suc e) t
      next_stop k (at_cap e l t) = at_cap (ap suc e) (omega arith) t
      next_stop k (at_most f l t) = at_most f (omega arith) t

  stays_over :
      (rounds page : ℕ) (w : Walk) (p : ListResult)
      → answer page w.cont ≡ ok p
      → abort page ≡ false
      → is_over page w p ≡ true
      → walk_from answer abort keep most (suc rounds) page w ≡ ok (absorb keep page p w)
  stays_over rounds page w p a n t = one_round rounds page w p a n ∙ rw t refl

  pub goes_on :
      (rounds page : ℕ) (w : Walk) (p : ListResult)
      → answer page w.cont ≡ ok p
      → abort page ≡ false
      → is_over page w p ≡ false
      → walk_from answer abort keep most (suc rounds) page w
        ≡ walk_from answer abort keep most rounds (page + 1) (absorb keep page p w)
  goes_on rounds page w p a n f = one_round rounds page w p a n ∙ rw f refl

  truncated_by :
      (page : ℕ) (w : Walk) (p : ListResult)
      → is_truncated (absorb keep page p w) ≡ not (str_eq p.continue_token "")
  unfolding is_truncated absorb
  truncated_by page w p = refl

  pub cont-absorb :
      (page : ℕ) (w : Walk) (p : ListResult) → (absorb keep page p w).cont ≡ p.continue_token
  unfolding absorb
  cont-absorb page w p = refl

  some_left :
      {page : ℕ} {cont : String} {ps : List ListResult}
      → Serves answer page cont ps none
      → 0 < length ps
  some_left (last_page p a e) = omega arith
  some_left (next_page p a n rest) = omega arith

  -- A page with a token: the walk is full with it, or goes on if the test says so.
  page_then :
      (rounds page : ℕ) (w : Walk) (p : ListResult) (ps : List ListResult)
      → answer page w.cont ≡ ok p
      → abort page ≡ false
      → p.continue_token ≢ ""
      → 0 < length ps
      → (is_over page w p ≡ false → Walked (suc rounds) page w (p ∷ ps))
      → Walked (suc rounds) page w (p ∷ ps)
  unfolding absorb_all
  page_then rounds page w p ps a calm n left go_on =
      let test = token_test p n in
      elim (Bool-cases (is_full most (absorb keep page p w).rows)) [
        | inl f ↦
            let over : is_over page w p ≡ true = ground (arith, test, f) in
            (
              1,
              omega arith,
              stays_over rounds page w p a calm over,
              at_most f (omega (arith, left)) (truncated_by page w p ∙ ap not test),
              one_page page w (p ∷ ps),
            )
        | inr f ↦ go_on (ground (arith, test, f))
      ]

  walk_from-Walked :
      (rounds page : ℕ) (w : Walk) (cont : String) (ps : List ListResult)
      → ((i : ℕ) → abort i ≡ false)
      → w.cont ≡ cont
      → Serves answer page cont ps none
      → Walked (suc rounds) page w ps
  unfolding absorb_all walk_from
  walk_from-Walked rounds page w cont _ calm at (last_page p a e) =
      let test : str_eq p.continue_token "" ≡ true =
        ground (arith, e, eq_iff p.continue_token "") in
      let over : is_over page w p ≡ true = ground (arith, test) in
      (
        1,
        omega arith,
        stays_over rounds page w p (ap (answer page) at ∙ a) (calm page) over,
        at_end refl (truncated_by page w p ∙ ap not test),
        one_page page w (p ∷ []),
      )
  walk_from-Walked zero page w cont _ calm at (next_page {ps = ps} p a n rest) =
      let a' = ap (answer page) at ∙ a in
      page_then zero page w p ps a' (calm page) n (some_left rest) (λ on. (
        1,
        omega arith,
        goes_on zero page w p a' (calm page) on,
        at_cap refl (omega (arith, some_left rest))
            (truncated_by page w p ∙ ap not (token_test p n)),
        one_page page w (p ∷ ps),
      ))
  walk_from-Walked (suc left) page w cont _ calm at (next_page {ps = ps} p a n rest) =
      let a' = ap (answer page) at ∙ a in
      page_then (suc left) page w p ps a' (calm page) n (some_left rest) (λ on.
        reads_more (suc left) page w p ps (goes_on (suc left) page w p a' (calm page) on)
          (ground (arith, on))
          (walk_from-Walked left (page + 1) (absorb keep page p w) p.continue_token ps calm
            (cont-absorb page w p) rest))

module _ {E : Type 0} (answer : ℕ → String → Result E ListResult) (abort : ℕ → Bool) where
  stop_reason :
      (keep : Option (Row → Bool)) (most : Option ℕ) (rounds k : ℕ) (ps : List ListResult)
      (w : Walk)
      → Stops answer abort keep most rounds k ps w
      → ((k ≡ length ps) ⊎ (k ≡ rounds) ⊎ (is_full most w.rows ≡ true))
        × (is_truncated w ≡ ltb k (length ps))
  stop_reason keep most rounds k ps w (at_end e t) = (inl e, ground (arith, e, t))
  stop_reason keep most rounds k ps w (at_cap e l t) = (inr (inl e), ground (arith, l, t))
  stop_reason keep most rounds k ps w (at_most f l t) = (inr (inr f), ground (arith, l, t))

  reads_fresh :
      (keep : Option (Row → Bool)) (most : Option ℕ) (rounds : ℕ) (cont : String)
      (pages : List ListResult)
      → Serves answer 0 cont pages none
      → ((i : ℕ) → abort i ≡ false)
      → 0 < rounds
      → Walked answer abort keep most rounds 0 (fresh_walk answer abort cont) pages
  unfolding fresh_walk
  reads_fresh keep most zero cont pages s calm pos = absurd (omega (arith, pos))
  reads_fresh keep most (suc rounds) cont pages s calm pos =
      walk_from-Walked answer abort keep most rounds 0 (fresh_walk answer abort cont) cont pages
        calm refl s

-- A walk over a collection of which the server gives all pages, none of them aborted, reads a number of
-- its pages in order, at most `maxPages` of them: all of them, or up to the cap, or until enough rows
-- are kept, and it stops at the first page with which they are. Its rows are the rows of these pages
-- that are kept, `scanned` counts all their rows, its version is that of the last page that it read,
-- and it is truncated exactly if pages are left.
pub walk_reads_pages :
    {E : Type 0} (answer : ℕ → String → Result E ListResult) (abort : ℕ → Bool) (opts : WalkOptions)
    (cont : String) (pages : List ListResult)
    → Serves answer 0 cont pages none
    → ((i : ℕ) → abort i ≡ false)
    → 0 < get_or opts.max_pages 6
    → (k : ℕ) × (w : Walk) × (walk_table answer abort opts cont ≡ ok w)
      × (k ≤ get_or opts.max_pages 6)
      × (w.rows ≡ filter (keeps opts.keep_row) (all_rows (take k pages)))
      × (w.scanned ≡ length (all_rows (take k pages)))
      × (w.resource_version ≡ version_after "" (take k pages))
      × ((k ≡ length pages) ⊎ (k ≡ get_or opts.max_pages 6) ⊎ (is_full opts.max_rows w.rows ≡ true))
      × ((j : ℕ)
          → 0 < j
          → j < k
          → is_full opts.max_rows (filter (keeps opts.keep_row) (all_rows (take j pages))) ≡ false)
      × (is_truncated w ≡ ltb k (length pages))
unfolding walk_table fresh_walk
walk_reads_pages answer abort opts cont pages s calm pos =
    let most = opts.max_rows in
    let keep = opts.keep_row in
    let fresh = fresh_walk answer abort cont in
    let (k, le, e, stop, room) =
      reads_fresh answer abort keep most (get_or opts.max_pages 6) cont pages s calm pos in
    let w = absorb_all keep 0 (take k pages) fresh in
    let (why, left) = stop_reason answer abort keep most (get_or opts.max_pages 6) k pages w stop in
    (
      k,
      w,
      e,
      le,
      rows-absorb_all keep 0 (take k pages) fresh,
      scanned-absorb_all keep 0 (take k pages) fresh ∙ omega arith,
      resource_version-absorb_all keep 0 (take k pages) fresh,
      why,
      λ j lo hi.
          ap (is_full most) (sym (rows-absorb_all keep 0 (take j pages) fresh)) ∙ room j lo hi,
      left,
    )
