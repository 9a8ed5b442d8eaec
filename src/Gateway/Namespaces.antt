-- ===== src/Gateway/Namespaces.antt =====
-- `fetchNamespaces` of web/src/api/k8s.ts, and that it is a walk.
use kube_console.Shared.{
  ℕ, zero, suc, ◌+◌, ◌≡◌, refl, ap, ◌∙◌, sym, false, List, [], ◌∷◌, ◌++◌, Option, none, some,
  String, str_eq, if◌then◌else◌, get_or, filter, Bool-cases, inl, inr,
}
use kube_console.ResourceList.Rows.{Row}
use kube_console.Gateway.Table.{ListResult}
use kube_console.Gateway.Walk.{
  Result, ok, err, Walk, keeps, is_full, absorb, on_answer, walk_from, fresh_walk, walk_table,
}

-- A page of a plain list: its items and the token of the next.
pub record Page {ℓ} (A : Type ℓ) : Type ℓ where
  pub items : Option (List A)
  pub continue : Option String

-- What has been read: the items and the token.
pub record Items {ℓ} (A : Type ℓ) : Type ℓ where
  pub items : List A
  pub cont : String

module _ {ℓ} {A : Type ℓ} {E : Type 0} (answer : ℕ → String → Result E (Page A)) where
  unfoldable pub on_page :
      Items A → (Items A → Result E (Items A)) → Result E (Page A) → Result E (Items A)
  on_page read go_on (err e) = err e
  on_page read go_on (ok p) =
      let next : Items A = record {
        items = read.items ++ get_or p.items [];
        cont = get_or p.continue "";
      } in
      if str_eq next.cont "" then ok next else go_on next

  -- The rounds that are left of `maxPages`.
  unfoldable pub fetch_from : ℕ → ℕ → Items A → Result E (Items A)
  fetch_from zero page read = ok read
  fetch_from (suc rounds) page read =
      on_page read (λ next. fetch_from rounds (page + 1) next) (answer page read.cont)

  -- `fetchNamespaces(opts)`
  unfoldable pub fetch_namespaces : Option ℕ → Result E (Items A)
  fetch_namespaces max_pages = fetch_from (get_or max_pages 6) 0 (record { items = []; cont = "" })

-- What a walk shows of its pages to one that reads items only.
unfoldable pub page_of : ListResult → Page Row
page_of p = record { items = p.table.rows; continue = some p.continue_token }

unfoldable pub map_result : {E A B : Type 0} → (A → B) → Result E A → Result E B
map_result f (ok a) = ok (f a)
map_result f (err e) = err e

unfoldable pub items_of : Walk → Items Row
items_of w = record { items = w.rows; cont = w.cont }

module _ {E : Type 0} (answer : ℕ → String → Result E ListResult) where
  filter_all : (rs : List Row) → filter (keeps none) rs ≡ rs
  unfolding keeps
  filter_all [] = refl
  filter_all (r ∷ rs) = ap (λ l. r ∷ l) (filter_all rs)

  -- One round, where the rounds after it agree.
  on_page-on_answer :
      (page : ℕ) (w : Walk) (fetch : Items Row → Result E (Items Row)) (walk : Walk → Result E Walk)
      (r : Result E ListResult)
      → ((v : Walk) → fetch (items_of v) ≡ map_result items_of (walk v))
      → on_page
          (λ i cont. map_result page_of (answer i cont))
          (items_of w)
          fetch
          (map_result page_of r)
        ≡ map_result items_of (on_answer answer (λ _. false) none none page w walk r)
  unfolding on_page on_answer absorb is_full items_of map_result page_of
  on_page-on_answer page w fetch walk (err e) ih = refl
  on_page-on_answer page w fetch walk (ok p) ih =
      let v = absorb none page p w in
      let read : Items Row = record {
        items = w.rows ++ get_or p.table.rows [];
        cont = p.continue_token;
      } in
      let same : read ≡ items_of v =
        ap (λ rs. let t : Items Row = record { items = w.rows ++ rs; cont = p.continue_token } in t)
          (sym (filter_all (get_or p.table.rows []))) in
      elim (Bool-cases (str_eq p.continue_token "")) [
        | inl t ↦ simp t (ap ok same)
        | inr f ↦ simp f (ap fetch same ∙ ih v)
      ]

  fetch_from-walk_from :
      (rounds page : ℕ) (w : Walk)
      → fetch_from (λ i cont. map_result page_of (answer i cont)) rounds page (items_of w)
        ≡ map_result items_of (walk_from answer (λ _. false) none none rounds page w)
  unfolding fetch_from walk_from map_result items_of
  fetch_from-walk_from zero page w = refl
  fetch_from-walk_from (suc rounds) page w =
      on_page-on_answer page w
        (λ next. fetch_from (λ i cont. map_result page_of (answer i cont)) rounds (page + 1) next)
        (λ next. walk_from answer (λ _. false) none none rounds (page + 1) next)
        (answer page w.cont) (fetch_from-walk_from rounds (page + 1))

-- Against any server, the namespace list is what `walkTable` collects with no filter, no limit on rows
-- and no abort: the same items, the same token left, and the same error where a page fails.
pub fetch_namespaces-eq-walk_table :
    {E : Type 0} (answer : ℕ → String → Result E ListResult) (max_pages : Option ℕ)
    → fetch_namespaces (λ i cont. map_result page_of (answer i cont)) max_pages
      ≡ map_result items_of (
          walk_table answer
            (λ _. false)
            (record { max_pages = max_pages; keep_row = none; max_rows = none })
            "")
unfolding fetch_namespaces walk_table fresh_walk items_of
fetch_namespaces-eq-walk_table answer max_pages =
    fetch_from-walk_from answer (get_or max_pages 6) 0 (fresh_walk answer (λ _. false) "")
