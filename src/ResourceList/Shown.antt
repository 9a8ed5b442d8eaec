-- ===== src/ResourceList/Shown.antt =====
-- web/src/composables/useResourceList.ts over `walkTable` of web/src/api/k8s.ts: what a refresh shows.
use kube_console.Shared.{
  ℕ, zero, suc, ◌+◌, ◌≤◌, ◌<◌, ◌≡◌, All, refl, sym, ap, ◌∙◌, Bool, true, false, not, ◌&&◌, List, [],
  ◌∷◌, Option, none, some, String, arith, ltb, leb, str_eq, ◌==◌, is_none, filter, length, take,
  Bool-cases, ◌⊎◌, inl, inr,
}
use kube_console.ResourceList.Rows.{Row, set_rows}
use kube_console.Gateway.Table.{ListResult}
use kube_console.Gateway.Walk.{Result, ok, Walk, walk_table, is_truncated, is_full, keeps}
use kube_console.Gateway.Pages.{Serves, all_rows, version_after, walk_reads_pages}
use kube_console.ResourceList.Loads.{
  Purpose, refreshing, paging, searching, Selection, Listing, Thrown, begin_load, load_options,
  conclude_refresh, refresh, builds_url, finish_load, finish, purpose_of, without, settle_walk,
}
use kube_console.ResourceList.Sound.{purpose_of-without}

-- The walks of older generations settle, one after the other.
unfoldable pub settle_late : List (ℕ × Bool × Result Thrown Walk) → Listing → Listing
settle_late [] s = s
settle_late ((g, has_ref, r) ∷ later) s =
    settle_late later (settle_walk g (purpose_of g s.walks) has_ref r s)

late_changes_walks :
    (g : ℕ) (o : Option Purpose) (has_ref : Bool) (r : Result Thrown Walk) (s : Listing)
    → g < s.load_gen
    → (ws : List (ℕ × Purpose)) × (settle_walk g o has_ref r s ≡ record s { walks = ws })
      × (purpose_of s.load_gen ws ≡ purpose_of s.load_gen s.walks)
unfolding settle_walk
late_changes_walks g none has_ref r s lt = (s.walks, refl, refl)
late_changes_walks g (some p) has_ref r s lt =
    let other : (g == s.load_gen) ≡ false = ground (arith, lt) in
    (without g s.walks, simp other refl, purpose_of-without g s.load_gen s.walks ∙ simp other refl)

each_late_changes_walks :
    (late : List (ℕ × Bool × Result Thrown Walk)) (s : Listing)
    → All (λ l. l.0 < s.load_gen) late
    → (ws : List (ℕ × Purpose)) × (settle_late late s ≡ record s { walks = ws })
      × (purpose_of s.load_gen ws ≡ purpose_of s.load_gen s.walks)
unfolding settle_late
each_late_changes_walks [] s older = (s.walks, refl, refl)
each_late_changes_walks ((g, has_ref, r) ∷ late) s (lt, older) =
    let (vs, e, h) = late_changes_walks g (purpose_of g s.walks) has_ref r s lt in
    let (ws, e', h') = each_late_changes_walks late (record s { walks = vs }) older in
    (ws, ap (settle_late late) e ∙ e', h' ∙ h)

filter-all : (rows : List Row) → filter (keeps none) rows ≡ rows
unfolding keeps
filter-all [] = refl
filter-all (r ∷ rows) = ap (λ l. r ∷ l) (filter-all rows)

take-length {ℓ} : {A : Type ℓ} (xs : List A) (n : ℕ) → length xs ≤ n → take n xs ≡ xs
take-length [] zero le = refl
take-length [] (suc n) le = refl
take-length (x ∷ xs) zero le = absurd (omega (arith, le))
take-length (x ∷ xs) (suc n) le = ap (λ l. x ∷ l) (take-length xs n (omega (arith, le)))

up_to_cap :
    (k : ℕ) (pages : List ListResult)
    → k ≤ 10
    → (k ≡ length pages) ⊎ (k ≡ 10) ⊎ (false ≡ true)
    → (take k pages ≡ take 10 pages) × (ltb k (length pages) ≡ ltb 10 (length pages))
up_to_cap k pages le (inl e) = (
  take-length pages k (omega (arith, e)) ∙ sym (take-length pages 10 (omega (arith, le, e))),
  ground (arith, le, e),
)
up_to_cap k pages le (inr (inl e)) = (ap (λ n. take n pages) e, ap (λ n. ltb n (length pages)) e)
up_to_cap k pages le (inr (inr n)) = cc

-- What the walk of a load reads, where the server gives all pages.
load_reads :
    (answer : ℕ → String → Result Thrown ListResult) (abort : ℕ → Bool) (pages : List ListResult)
    → Serves answer 0 "" pages none
    → ((i : ℕ) → abort i ≡ false)
    → (w : Walk) × (walk_table answer abort load_options "" ≡ ok w)
      × (w.rows ≡ all_rows (take 10 pages))
      × (w.resource_version ≡ version_after "" (take 10 pages))
      × (is_truncated w ≡ ltb 10 (length pages))
unfolding load_options is_full
load_reads answer abort pages serves calm =
    let (k, w, e, le, rows, scanned, version, why, room, left) =
      walk_reads_pages answer abort load_options "" pages serves calm (omega arith) in
    let (same, more) = up_to_cap k pages le why in
    (
      w,
      e,
      rows ∙ filter-all (all_rows (take k pages)) ∙ ap all_rows same,
      version ∙ ap (version_after "") same,
      left ∙ more,
    )

-- What is on screen after a refresh over these pages.
abbrev pub Displays : List ListResult → Listing → Type 0
Displays pages t =
    (t.collection.rows ≡ all_rows (take 10 pages))
    × (not (str_eq t.continue_token "") ≡ ltb 10 (length pages))
    × (t.loading ≡ false)
    × (t.error ≡ none)
    × (t.collection.resource_version ≡ version_after "" (take 10 pages))
    × (t.watching ≡ (not (str_eq (version_after "" (take 10 pages)) "") && leb (length pages) 10))

concluded-Displays :
    (pages : List ListResult) (t : Listing)
    → t.collection.rows ≡ all_rows (take 10 pages)
    → not (str_eq t.continue_token "") ≡ ltb 10 (length pages)
    → t.loading ≡ false
    → t.error ≡ none
    → t.collection.resource_version ≡ version_after "" (take 10 pages)
    → t.watching ≡ false
    → t.paged ≡ false
    → Displays pages (conclude_refresh true t)
unfolding conclude_refresh builds_url
concluded-Displays pages t rows left idle no_error version off unpaged =
    let has_version = ap (λ v. str_eq v "") version in
    elim (Bool-cases (
      is_none t.error
      && not (str_eq t.collection.resource_version "")
      && str_eq t.continue_token "")) [
        | inl h ↦
            simp h
              (rows, left, idle, no_error, version, ground (arith, h, left, unpaged, has_version))
        | inr h ↦ simp h (
          rows,
          left,
          idle,
          no_error,
          version,
          off ∙ ground (arith, h, left, no_error, has_version),
        )
      ]

refresh-settled :
    (gen : ℕ) (o : Option Purpose) (w : Walk) (pages : List ListResult) (s : Listing)
    → o ≡ some refreshing
    → s.load_gen ≡ gen
    → s.error ≡ none
    → s.watching ≡ false
    → s.paged ≡ false
    → w.rows ≡ all_rows (take 10 pages)
    → w.resource_version ≡ version_after "" (take 10 pages)
    → is_truncated w ≡ ltb 10 (length pages)
    → Displays pages (settle_walk gen o true (ok w) s)
unfolding settle_walk finish finish_load is_truncated set_rows
refresh-settled gen none w pages s is here no_error off unpaged rows version left = cc
refresh-settled gen (some paging) w pages s is here no_error off unpaged rows version left = cc
refresh-settled gen (some searching) w pages s is here no_error off unpaged rows version left = cc
refresh-settled gen (some refreshing) w pages s is here no_error off unpaged rows version left =
    let same : (gen == s.load_gen) ≡ true = ground (arith, here) in
    let rest = record s { walks = without gen s.walks } in
    simp same (
      concluded-Displays pages (finish_load (ok w) rest) rows left refl no_error version off
        unpaged)

-- After a refresh with a resource, once any walks of older loads have settled in any order and with any
-- result, and its own walk, no round of it aborted, over pages that the server gives in full, while
-- there is still a resource: the table has the rows of the first ten pages, offers a next page exactly
-- if there are more, no longer loads, shows no error, has the version of the last of those pages, and
-- watches exactly if there are at most ten pages and the last has a version.
pub refresh_shows_pages :
    (answer : ℕ → String → Result Thrown ListResult) (abort : ℕ → Bool) (selection : Selection)
    (s : Listing) (late : List (ℕ × Bool × Result Thrown Walk)) (pages : List ListResult)
    → All (λ l. l.0 < s.load_gen + 1) late
    → Serves answer 0 "" pages none
    → ((i : ℕ) → abort i ≡ false)
    → let begun = settle_late late (refresh (some selection) s) in
      Displays pages (
        settle_walk begun.load_gen
          (purpose_of begun.load_gen begun.walks)
          true
          (walk_table answer abort load_options "")
          begun)
unfolding refresh begin_load purpose_of
refresh_shows_pages answer abort selection s late pages older serves calm =
    let begun = refresh (some selection) s in
    let (ws, e, here) = each_late_changes_walks late begun older in
    let (w, walked, rows, version, left) = load_reads answer abort pages serves calm in
    let own : purpose_of (s.load_gen + 1) ws ≡ some refreshing = ground (arith, here) in
    rw (e, walked)
      (refresh-settled (s.load_gen + 1) (purpose_of (s.load_gen + 1) ws) w pages
        (record begun { walks = ws }) own refl refl refl refl rows version left)
