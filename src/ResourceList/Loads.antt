-- ===== src/ResourceList/Loads.antt =====
-- The loads of web/src/composables/useResourceList.ts: refresh, next page and the search by name, with
-- the generations that drop the work of a load that a newer one superseded, and the watch. The walk
-- that a load waits for settles by an event. The watcher is known by whether it runs: it was started,
-- had a URL each time that it connected, and was not stopped; what it reads is in WatchStream. `trim`
-- and `lower` are the methods of strings.
use kube_console.Shared.{
  ℕ, ◌+◌, Bool, true, false, not, ◌&&◌, List, [], ◌∷◌, Option, none, some, String, str_eq, ◌==◌,
  if◌then◌else◌, is_none, get_or,
}
use kube_console.ResourceList.Rows.{
  Meta, Row, Collection, set_rows, Event, handle_event, first_cell,
}
use kube_console.Gateway.Table.{Column}
use kube_console.Gateway.Walk.{Result, ok, err, Walk, WalkOptions, is_truncated}

pub record ApiError : Type 0 where
  pub status : ℕ
  pub message : String

-- A thrown value: an ApiError, or any other with its text.
pub data Thrown : Type 0 where
  api : ApiError → Thrown
  other : String → Thrown

-- `asApiError(e)`
unfoldable pub as_api_error : Thrown → ApiError
as_api_error (api e) = e
as_api_error (other text) = record { status = 0; message = text }

-- What a walk in flight was started for.
pub data Purpose : Type 0 where
  refreshing : Purpose
  paging : Purpose
  searching : Purpose

-- What the collection is listed with.
pub record Selection : Type 0 where
  pub namespace : Option String
  pub label_selector : Option String

pub record Listing : Type 0 where
  pub collection : Collection
  pub columns : List Column
  pub fallback : Bool
  pub loading : Bool
  pub error : Option ApiError
  pub continue_token : String
  pub paged : Bool
  pub watch_degraded : Bool
  pub search_query : Option String
  pub search_truncated : Bool
  pub search_scanned : ℕ
  pub loaded : Selection
  pub load_gen : ℕ
  pub watching : Bool
  -- the walks that have not settled, with their generations
  pub walks : List (ℕ × Purpose)

-- `load(continueFrom)` up to its walk, where `getRef()` gives a resource or not.
unfoldable pub begin_load : Purpose → Option Selection → Listing → Listing
begin_load purpose none s = record s { load_gen = s.load_gen + 1 }
begin_load purpose (some selection) s = record s {
  load_gen = s.load_gen + 1;
  loaded = selection;
  loading = true;
  error = none;
  collection = set_rows [] s.collection;
  columns = [];
  walks = (s.load_gen + 1, purpose) ∷ s.walks;
}

-- The options of the walk of `load`.
unfoldable pub load_options : WalkOptions
load_options = record { max_pages = some 10; keep_row = none; max_rows = none }

-- Whether the watcher's `buildUrl` gives a URL, where `getRef()` gives a resource or not.
unfoldable pub builds_url : Bool → Listing → Bool
builds_url has_ref s =
    has_ref
    && not s.paged
    && str_eq s.continue_token ""
    && not (str_eq s.collection.resource_version "")

-- The end of `refresh` once its load has returned with the current generation. The watcher that is
-- started ends at once without a URL.
unfoldable pub conclude_refresh : Bool → Listing → Listing
conclude_refresh has_ref s =
    if is_none s.error
      && not (str_eq s.collection.resource_version "")
      && str_eq s.continue_token ""
    then record s { watch_degraded = false; watching = builds_url has_ref s }
    else record s { watch_degraded = true }

-- `refresh()` up to its walk. Without a resource the load returns at once.
unfoldable pub refresh : Option Selection → Listing → Listing
refresh selection s =
    let begun = begin_load refreshing selection (record s {
      paged = false;
      search_query = none;
      search_truncated = false;
      watching = false;
    }) in
    if is_none selection then conclude_refresh false begun else begun

-- `nextPage()` up to its walk.
unfoldable pub next_page : Option Selection → Listing → Listing
next_page selection s =
    if str_eq s.continue_token ""
    then s
    else begin_load paging selection
        (record s { paged = true; watch_degraded = true; watching = false })

-- `rowName(row)`
abbrev pub name_in : Option Meta → List String → String
name_in none cells = first_cell cells
name_in (some m) cells = get_or m.name (first_cell cells)

unfoldable pub row_name : Row → String
row_name row = name_in row.metadata row.cells

unfoldable pub search_options : (String → Bool) → WalkOptions
search_options matches = record {
  max_pages = some 20;
  keep_row = some (λ row. matches (row_name row));
  max_rows = some 1000;
}

-- The whole collection is in memory.
unfoldable pub is_view_complete : Listing → Bool
is_view_complete s =
    not (str_eq s.collection.resource_version "") && str_eq s.continue_token "" && not s.paged

-- The search of `searchAllByName` from its generation on.
unfoldable pub begin_search : String → Listing → Listing
begin_search query s = record s {
  load_gen = s.load_gen + 1;
  paged = true;
  watch_degraded = true;
  watching = false;
  loading = true;
  error = none;
  search_query = some query;
  search_truncated = false;
  search_scanned = 0;
  collection = set_rows [] s.collection;
  walks = (s.load_gen + 1, searching) ∷ s.walks;
}

module _ (trim lower : String → String) where
  -- `searchAllByName(query)` up to its walk.
  unfoldable pub search_all_by_name : String → Option Selection → Listing → Listing
  search_all_by_name query selection s =
      if str_eq (lower (trim query)) ""
      then refresh selection s
      else if is_view_complete s
      then s
      else if is_none selection
      then s
      else begin_search (trim query) s

-- The walk of a load has returned, or thrown, while its generation is current.
unfoldable pub finish_load : Result Thrown Walk → Listing → Listing
finish_load (ok w) s = record s {
  columns = w.column_definitions;
  fallback = w.fallback;
  collection = record (set_rows w.rows s.collection) { resource_version = w.resource_version };
  continue_token = w.cont;
  loading = false;
}
finish_load (err e) s = record s {
  error = some (as_api_error e);
  collection = set_rows [] s.collection;
  columns = [];
  loading = false;
}

unfoldable pub finish_search : Result Thrown Walk → Listing → Listing
finish_search (ok w) s = record s {
  columns = w.column_definitions;
  fallback = w.fallback;
  search_truncated = is_truncated w;
  search_scanned = w.scanned;
  collection = record (set_rows w.rows s.collection) { resource_version = "" };
  continue_token = "";
  loading = false;
}
finish_search (err e) s = record s {
  error = some (as_api_error e);
  collection = set_rows [] s.collection;
  loading = false;
}

unfoldable pub finish : Purpose → Bool → Result Thrown Walk → Listing → Listing
finish refreshing has_ref r s = conclude_refresh has_ref (finish_load r s)
finish paging has_ref r s = finish_load r s
finish searching has_ref r s = finish_search r s

-- The walk of generation `g`: its purpose, and the walks without it.
unfoldable pub purpose_of : ℕ → List (ℕ × Purpose) → Option Purpose
purpose_of g [] = none
purpose_of g ((h, p) ∷ rest) = let later = purpose_of g rest in if h == g then some p else later

unfoldable pub without : ℕ → List (ℕ × Purpose) → List (ℕ × Purpose)
without g [] = []
without g ((h, p) ∷ rest) = let later = without g rest in if h == g then later else (h, p) ∷ later

-- A walk settles: its work is dropped unless its generation is current.
unfoldable pub settle_walk : ℕ → Option Purpose → Bool → Result Thrown Walk → Listing → Listing
settle_walk g none has_ref r s = s
settle_walk g (some p) has_ref r s =
    let rest = record s { walks = without g s.walks } in
    if g == s.load_gen then finish p has_ref r rest else rest

-- The active context changes.
unfoldable pub context_changes : Bool → Option Selection → Listing → Listing
context_changes authenticated selection s =
    let stopped = record s { watching = false } in
    if authenticated then refresh selection stopped else stopped

pub data Action : Type 0 where
  refreshes : Option Selection → Action
  pages : Option Selection → Action
  searches : String → Option Selection → Action
  -- a walk settles, while `getRef()` gives a resource or not
  settles : ℕ → Bool → Result Thrown Walk → Action
  watch_sends : Event → Action
  -- the watch reports 410 and has stopped
  watch_is_stale : Option Selection → Action
  -- the watcher connects again, while `getRef()` gives a resource or not
  watch_reconnects : Bool → Action
  switches : Bool → Option Selection → Action

module _ (trim lower : String → String) where
  unfoldable pub step : Action → Listing → Listing
  step (refreshes selection) s = refresh selection s
  step (pages selection) s = next_page selection s
  step (searches query selection) s = search_all_by_name trim lower query selection s
  step (settles g has_ref r) s = settle_walk g (purpose_of g s.walks) has_ref r s
  step (watch_sends e) s =
      if s.watching then record s { collection = handle_event e s.collection } else s
  step (watch_is_stale selection) s =
      if s.watching then refresh selection (record s { watching = false }) else s
  step (watch_reconnects has_ref) s =
      if s.watching then record s { watching = builds_url has_ref s } else s
  step (switches authenticated selection) s = context_changes authenticated selection s

  unfoldable pub run : List Action → Listing → Listing
  run [] s = s
  run (a ∷ as_left) s = run as_left (step a s)

-- The state when the composable is set up.
abbrev pub unloaded : Listing
unloaded = record {
  collection = record { rows = []; index_by_key = []; resource_version = "" };
  columns = [];
  fallback = false;
  loading = false;
  error = none;
  continue_token = "";
  paged = false;
  watch_degraded = false;
  search_query = none;
  search_truncated = false;
  search_scanned = 0;
  loaded = record { namespace = none; label_selector = none };
  load_gen = 0;
  watching = false;
  walks = [];
}
