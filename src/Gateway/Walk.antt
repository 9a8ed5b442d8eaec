-- ===== src/Gateway/Walk.antt =====
-- `walkTable` and `listAllAsTable` of web/src/api/k8s.ts. The server is the argument `answer`: what
-- the request of a round with a continue token gets. `abort` says what `shouldAbort` answers after
-- the request of a round.
use kube_console.Shared.{
  ℕ, zero, suc, ◌+◌, Bool, true, false, not, ◌||◌, List, [], ◌++◌, Option, none, some, String, leb,
  ◌==◌, str_eq, if◌then◌else◌, get_or, filter, length,
}
use kube_console.ResourceList.Rows.{Row}
use kube_console.Gateway.Table.{Column, ListResult}

pub data Result {ℓ} (E : Type 0) (A : Type ℓ) : Type ℓ where
  ok : A → Result E A
  err : E → Result E A

pub record Walk : Type 0 where
  pub column_definitions : List Column
  pub rows : List Row
  pub fallback : Bool
  pub resource_version : String
  pub cont : String
  pub scanned : ℕ

pub record WalkOptions : Type 0 where
  pub max_pages : Option ℕ
  pub keep_row : Option (Row → Bool)
  pub max_rows : Option ℕ

-- `opts.keepRow === undefined || opts.keepRow(row)`
unfoldable pub keeps : Option (Row → Bool) → Row → Bool
keeps none row = true
keeps (some keep) row = keep row

-- `opts.maxRows !== undefined && rows.length >= opts.maxRows`
unfoldable pub is_full : Option ℕ → List Row → Bool
is_full none rows = false
is_full (some most) rows = leb most (length rows)

-- A page goes into the walk; the columns and the fallback flag are those of the first.
unfoldable pub absorb : Option (Row → Bool) → ℕ → ListResult → Walk → Walk
absorb keep page result w = record {
  column_definitions =
      if page == 0 then get_or result.table.column_definitions [] else w.column_definitions;
  fallback = if page == 0 then result.fallback else w.fallback;
  resource_version = result.resource_version;
  scanned = w.scanned + length (get_or result.table.rows []);
  rows = w.rows ++ filter (keeps keep) (get_or result.table.rows []);
  cont = result.continue_token;
}

module _ {E : Type 0} (answer : ℕ → String → Result E ListResult) (abort : ℕ → Bool) where
  -- What a round makes of its answer: an error leaves the walk, an abort ends it as it was.
  unfoldable pub on_answer :
      Option (Row → Bool)
      → Option ℕ
      → ℕ
      → Walk
      → (Walk → Result E Walk)
      → Result E ListResult
      → Result E Walk
  on_answer keep most page w go_on (err e) = err e
  on_answer keep most page w go_on (ok result) =
      if abort page
      then ok w
      else let absorbed = absorb keep page result w in
        if str_eq absorbed.cont "" || is_full most absorbed.rows
        then ok absorbed
        else go_on absorbed

  -- The rounds that are left of `maxPages`, from the round `page` on.
  unfoldable pub walk_from : Option (Row → Bool) → Option ℕ → ℕ → ℕ → Walk → Result E Walk
  walk_from keep most zero page w = ok w
  walk_from keep most (suc rounds) page w =
      on_answer keep most page w (λ next. walk_from keep most rounds (page + 1) next)
        (answer page w.cont)

  unfoldable pub fresh_walk : String → Walk
  fresh_walk cont = record {
    column_definitions = [];
    rows = [];
    fallback = false;
    resource_version = "";
    cont = cont;
    scanned = 0;
  }

  -- `walkTable(ref, opts)`; its `truncated` is `cont !== ""`.
  unfoldable pub walk_table : WalkOptions → String → Result E Walk
  walk_table opts cont =
      walk_from opts.keep_row opts.max_rows (get_or opts.max_pages 6) 0 (fresh_walk cont)

unfoldable pub is_truncated : Walk → Bool
is_truncated w = not (str_eq w.cont "")
