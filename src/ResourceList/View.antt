-- ===== src/ResourceList/View.antt =====
-- web/src/composables/useResourceList.ts: what the table shows after a list and its watch events,
-- against a view that knows neither positions nor the index.
use kube_console.Shared.{
  ℕ, ◌≡◌, refl, sym, ap, ◌∙◌, Bool, true, false, not, List, [], ◌∷◌, Option, none, some, String,
  str_eq, if◌then◌else◌,
}
use kube_console.Shared.Maps.{Dict, lookup}
use kube_console.ResourceList.Rows.{
  Row, Collection, row_key, set_rows, upsert_at, upsert_each, has_key, upsert_rows, Event, bookmark,
  changed, deleted, handle_event, handle_events,
}
use kube_console.ResourceList.Index.{
  last_index, row_of, row_of-append, row_of-set, row_of-filter, IsIndexed, set_rows-IsIndexed,
  handle_event-IsIndexed, upsert_at-IsIndexed,
}

-- The view of one key after one event: its last row in the event, or none if the event deletes it.
unfoldable pub latest : Option Row → Option Row → Option Row
latest none old = old
latest (some new) old = some new

unfoldable pub seen : String → Event → Option Row → Option Row
seen k (bookmark rv) old = old
seen k (changed rv rows) old = latest (row_of k rows) old
seen k (deleted rv rows) old = if has_key k rows then none else old

unfoldable pub seen_all : String → List Event → Option Row → Option Row
seen_all k [] old = old
seen_all k (e ∷ es) old = seen_all k es (seen k e old)

row_of-upsert_at :
    (k : String) (row : Row) (o : Option ℕ) (rows : List Row) (d : Dict ℕ)
    → lookup (row_key row) d ≡ o
    → IsIndexed rows d
    → row_of k (upsert_at row o rows d).0
      ≡ (if str_eq (row_key row) k then some row else row_of k rows)
unfolding upsert_at
row_of-upsert_at k row none rows d e v = row_of-append k rows row
row_of-upsert_at k row (some i) rows d e v =
    row_of-set k rows i row (sym (v.positions (row_key row)) ∙ e)

row_of-upsert_each :
    (k : String) (incoming rows : List Row) (d : Dict ℕ)
    → IsIndexed rows d
    → row_of k (upsert_each incoming (rows, d)).0 ≡ latest (row_of k incoming) (row_of k rows)
unfolding upsert_each row_of latest
row_of-upsert_each k [] rows d v = refl
row_of-upsert_each k (row ∷ incoming) rows d v =
    let o = lookup (row_key row) d in
    let ih =
      row_of-upsert_each k incoming (upsert_at row o rows d).0 (upsert_at row o rows d).1
        (upsert_at-IsIndexed row o rows d refl v) in
    ih
    ∙ ap (latest (row_of k incoming)) (row_of-upsert_at k row o rows d refl v)
    ∙ latest_step (str_eq (row_key row) k) row (row_of k incoming) (row_of k rows)
  where
    latest_step :
        (b : Bool) (row : Row) (o old : Option Row)
        → latest o (if b then some row else old)
          ≡ latest (elim o [ none ↦ if b then some row else none | some x ↦ some x ]) old
    latest_step true row none old = refl
    latest_step false row none old = refl
    latest_step true row (some x) old = refl
    latest_step false row (some x) old = refl

row_of-handle_event :
    (k : String) (e : Event) (c : Collection)
    → IsIndexed c.rows c.index_by_key
    → row_of k (handle_event e c).rows ≡ seen k e (row_of k c.rows)
unfolding handle_event upsert_rows set_rows seen has_key latest row_of
row_of-handle_event k (bookmark rv) c v = refl
row_of-handle_event k (changed rv []) c v = refl
row_of-handle_event k (changed rv (row ∷ rows)) c v =
    row_of-upsert_each k (row ∷ rows) c.rows c.index_by_key v
row_of-handle_event k (deleted rv []) c v = refl
row_of-handle_event k (deleted rv (row ∷ rows)) c v =
    row_of-filter k (λ name. not (has_key name (row ∷ rows))) c.rows
    ∙ flip (has_key k (row ∷ rows)) (row_of k c.rows)
  where
    flip : (b : Bool) (o : Option Row) → (if not b then o else none) ≡ (if b then none else o)
    flip true o = refl
    flip false o = refl

row_of-handle_events :
    (k : String) (es : List Event) (c : Collection)
    → IsIndexed c.rows c.index_by_key
    → row_of k (handle_events es c).rows ≡ seen_all k es (row_of k c.rows)
unfolding handle_events seen_all
row_of-handle_events k [] c v = refl
row_of-handle_events k (e ∷ es) c v =
    row_of-handle_events k es (handle_event e c) (handle_event-IsIndexed e c v)
    ∙ ap (seen_all k es) (row_of-handle_event k e c v)

handle_events-IsIndexed :
    (es : List Event) (c : Collection)
    → IsIndexed c.rows c.index_by_key
    → IsIndexed (handle_events es c).rows (handle_events es c).index_by_key
unfolding handle_events
handle_events-IsIndexed [] c v = v
handle_events-IsIndexed (e ∷ es) c v =
    handle_events-IsIndexed es (handle_event e c) (handle_event-IsIndexed e c v)

-- After a list is loaded and any watch events, the row that the table holds under a key is the last
-- one that the list or an event gave it, and there is none if an event deleted it since; and the
-- index gives of every key the position of its last row.
pub table_follows_events :
    (listed : List Row) (events : List Event) (c : Collection) (key : String)
    → let after = handle_events events (set_rows listed c) in
      (row_of key after.rows ≡ seen_all key events (row_of key listed))
      × (lookup key after.index_by_key ≡ last_index key after.rows)
unfolding set_rows
table_follows_events listed events c key =
    let v = set_rows-IsIndexed listed c in
    (
      row_of-handle_events key events (set_rows listed c) v,
      (handle_events-IsIndexed events (set_rows listed c) v).positions key,
    )
