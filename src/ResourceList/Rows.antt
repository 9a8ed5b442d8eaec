-- ===== src/ResourceList/Rows.antt =====
-- The collection of web/src/composables/useResourceList.ts: its rows, the index by key that is kept
-- across watch events, and what an event does to both. A cell is known by its text.
use kube_console.Shared.{
  ℕ, ◌+◌, Bool, true, false, not, List, [], ◌∷◌, ◌++◌, Option, none, some, String, str_eq,
  if◌then◌else◌, length, filter, any, set, get_or,
}
use kube_console.Shared.Maps.{Dict, lookup, insert}
use Prim.Native.String

pub record Meta : Type 0 where
  pub uid : Option String
  pub name : Option String
  pub namespace : Option String
  pub created : Option String

-- A row: the metadata of its object, where it has any, and its cells.
pub record Row : Type 0 where
  pub metadata : Option Meta
  pub cells : List String

pub record Collection : Type 0 where
  pub rows : List Row
  pub index_by_key : Dict ℕ
  pub resource_version : String

-- `String(row.cells[0] ?? "")`
abbrev pub first_cell : List String → String
first_cell [] = ""
first_cell (c ∷ cs) = c

abbrev pub named_key : Option String → Option String → List String → String
named_key namespace none cells = first_cell cells
named_key namespace (some name) cells = String.◌++◌ (get_or namespace "") (String.◌++◌ "/" name)

abbrev pub meta_key : Option Meta → List String → String
meta_key none cells = first_cell cells
meta_key (some meta) cells = elim meta.uid [
  | none ↦ named_key meta.namespace meta.name cells
  | some uid ↦ uid
]

-- `rowKey(row)`
unfoldable pub row_key : Row → String
row_key row = meta_key row.metadata row.cells

-- `next.forEach((r, i) => indexByKey.set(rowKey(r), i))`, from a position on.
unfoldable pub index_from : ℕ → List Row → Dict ℕ → Dict ℕ
index_from i [] d = d
index_from i (r ∷ rs) d = index_from (i + 1) rs (insert (row_key r) i d)

-- `setRows(next)`
unfoldable pub set_rows : List Row → Collection → Collection
set_rows next c = record c { rows = next; index_by_key = index_from 0 next [] }

-- One row of an upsert, with what `indexByKey.get(key)` gave.
unfoldable pub upsert_at : Row → Option ℕ → List Row → Dict ℕ → List Row × Dict ℕ
upsert_at row none next d = (next ++ row ∷ [], insert (row_key row) (length next) d)
upsert_at row (some i) next d = (set next i row, d)

unfoldable pub upsert_each : List Row → List Row × Dict ℕ → List Row × Dict ℕ
upsert_each [] (next, d) = (next, d)
upsert_each (row ∷ incoming) (next, d) =
    upsert_each incoming (upsert_at row (lookup (row_key row) d) next d)

-- `removedKeys.has(key)`
unfoldable pub has_key : String → List Row → Bool
has_key key rows = any (λ r. str_eq (row_key r) key) rows

-- `upsertRows(incoming, removed)`
unfoldable pub upsert_rows : List Row → Bool → Collection → Collection
upsert_rows [] removed c = c
upsert_rows (row ∷ incoming) true c =
    set_rows (filter (λ r. not (has_key (row_key r) (row ∷ incoming))) c.rows) c
upsert_rows (row ∷ incoming) false c =
    let (next, d) = upsert_each (row ∷ incoming) (c.rows, c.index_by_key) in
    record c { rows = next; index_by_key = d }

-- `rv !== undefined && rv !== ""`
unfoldable pub newer : Option String → String → String
newer none current = current
newer (some rv) current = if str_eq rv "" then current else rv

-- A watch event, with the resource version of its object and the rows of its table.
pub data Event : Type 0 where
  bookmark : Option String → Event
  changed : Option String → List Row → Event
  deleted : Option String → List Row → Event

-- `handleEvent(event)`
unfoldable pub handle_event : Event → Collection → Collection
handle_event (bookmark rv) c = record c { resource_version = newer rv c.resource_version }
handle_event (changed rv rows) c =
    upsert_rows rows false (record c { resource_version = newer rv c.resource_version })
handle_event (deleted rv rows) c =
    upsert_rows rows true (record c { resource_version = newer rv c.resource_version })

unfoldable pub handle_events : List Event → Collection → Collection
handle_events [] c = c
handle_events (e ∷ es) c = handle_events es (handle_event e c)
