-- ===== src/Gateway/Failure.antt =====
-- `walkTable` of web/src/api/k8s.ts where a page fails.
use kube_console.Shared.{
  ℕ, zero, suc, ◌+◌, ◌<◌, ◌≡◌, refl, ap, ◌∙◌, Bool, false, List, Option, none, some, String, arith,
  get_or, length,
}
use kube_console.ResourceList.Rows.{Row}
use kube_console.Gateway.Table.{ListResult}
use kube_console.Gateway.Walk.{
  Result, err, Walk, WalkOptions, is_full, absorb, walk_from, fresh_walk, walk_table,
}
use kube_console.Gateway.Pages.{
  Serves, last_page, next_page, broken_page, one_failure, goes_on, token_test, cont-absorb, is_over,
}

some_injective {ℓ} : {A : Type ℓ} {a b : A} → some a ≡ some b → a ≡ b
some_injective e = cc

walk_from-fails :
    {E : Type 0} (answer : ℕ → String → Result E ListResult) (abort : ℕ → Bool)
    (keep : Option (Row → Bool)) (rounds page : ℕ) (w : Walk) (cont : String)
    (pages : List ListResult) (e : E) (over : Option E)
    → over ≡ some e
    → w.cont ≡ cont
    → Serves answer page cont pages over
    → ((i : ℕ) → abort i ≡ false)
    → length pages < rounds
    → walk_from answer abort keep none rounds page w ≡ err e
unfolding is_full
walk_from-fails answer abort keep zero page w cont pages e over is at s calm lt =
    absurd (omega (arith, lt))
walk_from-fails answer abort keep (suc rounds) page w cont _ e _ is at (last_page p a t) calm lt =
    cc
walk_from-fails answer abort keep (suc rounds) page w cont _ e over is at
      (next_page {ps = ps} p a n rest) calm lt =
    let a' = ap (answer page) at ∙ a in
    let on : is_over answer abort keep none page w p ≡ false =
      ground (arith, token_test answer abort keep none p n) in
    goes_on answer abort keep none rounds page w p a' (calm page) on
    ∙ walk_from-fails answer abort keep rounds (page + 1) (absorb keep page p w) p.continue_token ps
        e over is (cont-absorb answer abort keep none page w p) rest calm (omega (arith, lt))
walk_from-fails answer abort keep (suc rounds) page w cont _ e _ is at (broken_page e' a) calm lt =
    one_failure answer abort keep none rounds page w e' (ap (answer page) at ∙ a)
    ∙ ap err (some_injective is)

-- A walk with no limit on its rows and no round aborted fails, if a page within the cap fails, with the
-- error of that page.
pub walk_fails :
    {E : Type 0} (answer : ℕ → String → Result E ListResult) (abort : ℕ → Bool) (opts : WalkOptions)
    (cont : String) (pages : List ListResult) (e : E)
    → Serves answer 0 cont pages (some e)
    → ((i : ℕ) → abort i ≡ false)
    → opts.max_rows ≡ none
    → length pages < get_or opts.max_pages 6
    → walk_table answer abort opts cont ≡ err e
unfolding walk_table fresh_walk
walk_fails answer abort opts cont pages e s calm all lt =
    ap
      (λ most.
        walk_from answer abort opts.keep_row most (get_or opts.max_pages 6) 0
          (fresh_walk answer abort cont))
      all
    ∙ walk_from-fails answer abort opts.keep_row (get_or opts.max_pages 6) 0
        (fresh_walk answer abort cont) cont pages e (some e) refl refl s calm lt
