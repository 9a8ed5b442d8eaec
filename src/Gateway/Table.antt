-- ===== src/Gateway/Table.antt =====
-- One page of a collection as web/src/api/k8s.ts reads it: a Table, or a plain list that
-- web/src/utils/tableFallback.ts converts. A cell is known by its text; the fields of a `status` are
-- those that the conversion looks at.
use kube_console.Shared.{
  Bool, true, false, List, [], ◌∷◌, map, Option, none, some, String, str_eq, if◌then◌else◌, get_or,
}
use kube_console.ResourceList.Rows.{Meta, Row}

pub record Condition : Type 0 where
  pub type : Option String
  pub status : Option String

pub record Status : Type 0 where
  pub phase : Option String
  pub conditions : Option (List Condition)

pub record Object : Type 0 where
  pub metadata : Option Meta
  pub status : Option Status

pub record Column : Type 0 where
  pub name : String
  pub type : String

pub record ListMeta : Type 0 where
  pub resource_version : Option String
  pub continue : Option String

pub record Table : Type 0 where
  pub metadata : Option ListMeta
  pub column_definitions : Option (List Column)
  pub rows : Option (List Row)

-- The body of an answer: its `kind` says Table, or it is taken for a list.
pub data Body : Type 0 where
  table_body : Table → Body
  list_body : Option ListMeta → Option (List Object) → Body

-- `status.conditions.find((c) => c.type === "Ready")`
unfoldable pub find_ready : List Condition → Option Condition
find_ready [] = none
find_ready (c ∷ cs) =
    let later = find_ready cs in if str_eq (get_or c.type "") "Ready" then some c else later

abbrev pub ready_text : Option Condition → String
ready_text none = ""
ready_text (some c) = if str_eq (get_or c.status "") "True" then "Ready" else "NotReady"

abbrev pub conditions_text : Option (List Condition) → String
conditions_text none = ""
conditions_text (some cs) = ready_text (find_ready cs)

-- `statusOf(obj)`
unfoldable pub status_of : Option Status → String
unfolding find_ready
status_of none = ""
status_of (some s) = elim s.phase [ none ↦ conditions_text s.conditions | some phase ↦ phase ]

abbrev pub meta_field : (Meta → Option String) → Option Meta → String
meta_field field none = ""
meta_field field (some m) = get_or (field m) ""

unfoldable pub object_row : Object → Row
unfolding status_of
object_row o = record {
  metadata = o.metadata;
  cells =
      meta_field (λ m. m.name) o.metadata
      ∷ meta_field (λ m. m.namespace) o.metadata
      ∷ meta_field (λ m. m.created) o.metadata
      ∷ status_of o.status
      ∷ [];
}

unfoldable pub fallback_columns : List Column
fallback_columns =
    record { name = "Name"; type = "string" }
    ∷ record { name = "Namespace"; type = "string" }
    ∷ record { name = "Created"; type = "date" }
    ∷ record { name = "Status"; type = "string" }
    ∷ []

-- `listToTable(list)`
unfoldable pub list_to_table : Option ListMeta → Option (List Object) → Table
unfolding object_row fallback_columns
list_to_table metadata items = record {
  metadata = metadata;
  column_definitions = some fallback_columns;
  rows = some (map object_row (get_or items []));
}

pub record ListResult : Type 0 where
  pub table : Table
  pub resource_version : String
  pub continue_token : String
  pub fallback : Bool

abbrev pub list_field : (ListMeta → Option String) → Option ListMeta → String
list_field field none = ""
list_field field (some m) = get_or (field m) ""

-- What `listAsTable` returns for the body of the answer.
unfoldable pub list_result : Body → ListResult
unfolding list_to_table
list_result (table_body t) = record {
  table = t;
  resource_version = list_field (λ m. m.resource_version) t.metadata;
  continue_token = list_field (λ m. m.continue) t.metadata;
  fallback = false;
}
list_result (list_body metadata items) = record {
  table = list_to_table metadata items;
  resource_version = list_field (λ m. m.resource_version) metadata;
  continue_token = list_field (λ m. m.continue) metadata;
  fallback = true;
}
