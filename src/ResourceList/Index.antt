-- ===== src/ResourceList/Index.antt =====
-- web/src/composables/useResourceList.ts: the index by key always agrees with the rows.
use kube_console.Shared.{
  ℕ, zero, suc, ◌+◌, ◌≡◌, refl, sym, ap, ◌∙◌, Bool, true, false, not, List, [], ◌∷◌, ◌++◌, Option,
  none, some, String, arith, str_eq, eq_iff, if◌then◌else◌, length, filter, set,
}
use kube_console.Shared.Maps.{Dict, lookup, insert, lookup-insert}
use kube_console.ResourceList.Rows.{
  Row, Collection, row_key, index_from, set_rows, upsert_at, upsert_each, has_key, upsert_rows,
  newer, Event, bookmark, changed, deleted, handle_event,
}

-- The position of the last row with a key.
unfoldable pub last_index : String → List Row → Option ℕ
last_index k [] = none
last_index k (r ∷ rs) = elim (last_index k rs) [
  | none ↦ if str_eq (row_key r) k then some 0 else none
  | some i ↦ some (i + 1)
]

-- The last row with a key.
unfoldable pub row_of : String → List Row → Option Row
row_of k [] = none
row_of k (r ∷ rs) = elim (row_of k rs) [
  | none ↦ if str_eq (row_key r) k then some r else none
  | some x ↦ some x
]

unfoldable pub shifted : ℕ → Option ℕ → Option ℕ → Option ℕ
shifted i none o = o
shifted i (some j) o = some (i + j)

lookup-index_from :
    (i : ℕ) (rs : List Row) (d : Dict ℕ) (k : String)
    → lookup k (index_from i rs d) ≡ shifted i (last_index k rs) (lookup k d)
unfolding index_from last_index shifted
lookup-index_from i [] d k = refl
lookup-index_from i (r ∷ rs) d k = ground (
  arith,
  lookup-index_from (i + 1) rs (insert (row_key r) i d) k,
  lookup-insert d (row_key r) i k,
)

pub last_index-append :
    (k : String) (rs : List Row) (r : Row)
    → last_index k (rs ++ r ∷ [])
      ≡ (if str_eq (row_key r) k then some (length rs) else last_index k rs)
unfolding last_index
last_index-append k [] r = ground arith
last_index-append k (x ∷ rs) r = ground (arith, last_index-append k rs r)

pub row_of-append :
    (k : String) (rs : List Row) (r : Row)
    → row_of k (rs ++ r ∷ []) ≡ (if str_eq (row_key r) k then some r else row_of k rs)
unfolding row_of
row_of-append k [] r = ground arith
row_of-append k (x ∷ rs) r = ground (arith, row_of-append k rs r)

pub last_index-set :
    (k : String) (rs : List Row) (i : ℕ) (r : Row)
    → last_index (row_key r) rs ≡ some i
    → last_index k (set rs i r) ≡ last_index k rs
unfolding last_index
last_index-set k [] i r e = ground (arith, e)
last_index-set k (x ∷ rs) zero r e = ground (arith, e, eq_iff (row_key x) (row_key r))
last_index-set k (x ∷ rs) (suc i) r e = ground (arith, e, last_index-set k rs i r)

row_of-none : (k : String) (rs : List Row) → last_index k rs ≡ none → row_of k rs ≡ none
unfolding last_index row_of
row_of-none k [] e = refl
row_of-none k (x ∷ rs) e = ground (arith, e, row_of-none k rs)

pub row_of-set :
    (k : String) (rs : List Row) (i : ℕ) (r : Row)
    → last_index (row_key r) rs ≡ some i
    → row_of k (set rs i r) ≡ (if str_eq (row_key r) k then some r else row_of k rs)
unfolding last_index row_of
row_of-set k [] i r e = ground (arith, e)
row_of-set k (x ∷ rs) zero r e =
    ground
      (arith, e, eq_iff (row_key x) (row_key r), eq_iff (row_key r) k, row_of-none (row_key r) rs)
row_of-set k (x ∷ rs) (suc i) r e = ground (arith, e, row_of-set k rs i r)

pub row_of-filter :
    (k : String) (keep : String → Bool) (rs : List Row)
    → row_of k (filter (λ r. keep (row_key r)) rs) ≡ (if keep k then row_of k rs else none)
unfolding row_of
row_of-filter k keep [] = ground arith
row_of-filter k keep (x ∷ rs) = ground (arith, row_of-filter k keep rs, eq_iff (row_key x) k)

-- The index gives of every key the position of its last row.
pub record IsIndexed (rows : List Row) (d : Dict ℕ) : Type 0 where
  pub positions : (k : String) → lookup k d ≡ last_index k rows

pub upsert_at-IsIndexed :
    (row : Row) (o : Option ℕ) (rows : List Row) (d : Dict ℕ)
    → lookup (row_key row) d ≡ o
    → IsIndexed rows d
    → IsIndexed (upsert_at row o rows d).0 (upsert_at row o rows d).1
unfolding upsert_at
upsert_at-IsIndexed row none rows d e v = record {
  positions = λ k. ground (
    arith,
    lookup-insert d (row_key row) (length rows) k,
    last_index-append k rows row,
    v.positions k,
  );
}
upsert_at-IsIndexed row (some i) rows d e v = record {
  positions =
      λ k. v.positions k ∙ sym (last_index-set k rows i row (sym (v.positions (row_key row)) ∙ e));
}

pub upsert_each-IsIndexed :
    (incoming : List Row) (rows : List Row) (d : Dict ℕ)
    → IsIndexed rows d
    → IsIndexed (upsert_each incoming (rows, d)).0 (upsert_each incoming (rows, d)).1
unfolding upsert_each
upsert_each-IsIndexed [] rows d v = v
upsert_each-IsIndexed (row ∷ incoming) rows d v =
    let o = lookup (row_key row) d in
    upsert_each-IsIndexed incoming (upsert_at row o rows d).0 (upsert_at row o rows d).1
      (upsert_at-IsIndexed row o rows d refl v)

pub set_rows-IsIndexed :
    (rows : List Row) (c : Collection)
    → IsIndexed (set_rows rows c).rows (set_rows rows c).index_by_key
unfolding set_rows shifted lookup
set_rows-IsIndexed rows c = record {
  positions = λ k. lookup-index_from 0 rows [] k ∙ at_zero (last_index k rows);
}
  where
    at_zero : (o : Option ℕ) → shifted 0 o none ≡ o
    at_zero none = refl
    at_zero (some i) = ap some (omega arith)

upsert_rows-IsIndexed :
    (incoming : List Row) (removed : Bool) (c : Collection)
    → IsIndexed c.rows c.index_by_key
    → IsIndexed (upsert_rows incoming removed c).rows (upsert_rows incoming removed c).index_by_key
unfolding upsert_rows
upsert_rows-IsIndexed [] removed c v = v
upsert_rows-IsIndexed (row ∷ incoming) true c v =
    set_rows-IsIndexed (filter (λ r. not (has_key (row_key r) (row ∷ incoming))) c.rows) c
upsert_rows-IsIndexed (row ∷ incoming) false c v =
    upsert_each-IsIndexed (row ∷ incoming) c.rows c.index_by_key v

pub handle_event-IsIndexed :
    (e : Event) (c : Collection)
    → IsIndexed c.rows c.index_by_key
    → IsIndexed (handle_event e c).rows (handle_event e c).index_by_key
unfolding handle_event
handle_event-IsIndexed (bookmark rv) c v = v
handle_event-IsIndexed (changed rv rows) c v =
    upsert_rows-IsIndexed rows false (record c { resource_version = newer rv c.resource_version }) v
handle_event-IsIndexed (deleted rv rows) c v =
    upsert_rows-IsIndexed rows true (record c { resource_version = newer rv c.resource_version }) v
