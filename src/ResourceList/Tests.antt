-- ===== src/ResourceList/Tests.antt =====
-- Runs of the live table at concrete inputs.
use kube_console.Shared.{
  ℕ, Bool, ◌≡◌, ◌≢◌, refl, true, false, List, [], ◌∷◌, none, some, String, str_eq, arith,
  if◌then◌else◌,
}
use kube_console.Shared.Maps.{lookup, insert}
use kube_console.ResourceList.Rows.{
  Row, Collection, row_key, index_from, set_rows, upsert_at, upsert_each, has_key, upsert_rows,
  newer, Event, bookmark, changed, deleted, handle_event, handle_events,
}
use kube_console.ResourceList.Index.{last_index, row_of}
use kube_console.ResourceList.View.{seen, seen_all, latest, table_follows_events}
use kube_console.Gateway.Table.{ListResult}
use kube_console.Gateway.Walk.{Result, ok, err, Walk, walk_table}
use kube_console.Gateway.Pages.{Serves, last_page, next_page}
use kube_console.ResourceList.Loads.{
  Thrown, Selection, Listing, Purpose, begin_load, load_options, builds_url, conclude_refresh,
  refresh, finish_load, finish, purpose_of, without, settle_walk, Action, refreshes, settles,
  watch_sends, step, run, unloaded,
}
use kube_console.ResourceList.Complete.{IsFrom, watch_needs_whole_collection}
use kube_console.ResourceList.Shown.{settle_late, Displays, refresh_shows_pages}

live_table : Unit {0}
unfolding row_key index_from set_rows upsert_at upsert_each has_key upsert_rows newer handle_event
    handle_events last_index row_of seen seen_all latest lookup insert
live_table = tt

abbrev row : String → String → Row
row uid status = record {
  metadata = some (record { uid = some uid; name = some "n"; namespace = none; created = none });
  cells = status ∷ [];
}

abbrev no_rows : Collection
no_rows = record { rows = []; index_by_key = []; resource_version = "" }

abbrev listed : List Row
listed = row "a" "Pending" ∷ row "b" "Running" ∷ []

abbrev events : List Event
events =
    changed (some "7") (row "a" "Running" ∷ row "c" "Pending" ∷ [])
    ∷ deleted (some "8") (row "b" "" ∷ [])
    ∷ bookmark (some "9")
    ∷ []

two_left : handle_events events (set_rows listed no_rows) ≡ record {
  rows = row "a" "Running" ∷ row "c" "Pending" ∷ [];
  index_by_key = ("a", 0) ∷ ("c", 1) ∷ [];
  resource_version = "9";
}
unfolding live_table
two_left = refl

table_follows_events_example :
    let after = handle_events events (set_rows listed no_rows) in
    (row_of "c" after.rows ≡ seen_all "c" events (row_of "c" listed))
    × (lookup "c" after.index_by_key ≡ last_index "c" after.rows)
table_follows_events_example = table_follows_events listed events no_rows "c"

loads : Unit {0}
unfolding begin_load load_options builds_url conclude_refresh refresh finish_load finish purpose_of
    without settle_walk step run settle_late set_rows index_from handle_event newer upsert_rows
    upsert_each upsert_at has_key row_key lookup insert
loads = tt

abbrev every : Selection
every = record { namespace = some "default"; label_selector = none }

abbrev listed_walk : Walk
listed_walk = record {
  column_definitions = [];
  rows = listed;
  fallback = false;
  resource_version = "6";
  cont = "";
  scanned = 2;
}

-- A refresh that a second one supersedes, whose walk settles late; then an event.
abbrev actions : List Action
actions =
    refreshes (some every)
    ∷ refreshes (some every)
    ∷ settles 2 true (ok listed_walk)
    ∷ settles 1 true (err (Thrown.other "timeout"))
    ∷ watch_sends (changed (some "7") (row "a" "Running" ∷ []))
    ∷ []

watches : (run (λ s. s) (λ s. s) actions unloaded).watching ≡ true
unfolding loads
watches = refl

watch_needs_whole_collection_example :
    let s = run (λ s. s) (λ s. s) actions unloaded in
    IsFrom (λ s. s) (λ s. s) unloaded actions s
    × (s.paged ≡ false)
    × (s.continue_token ≡ "")
    × (s.error ≡ none)
    × (s.collection.resource_version ≢ "")
    × (s.watch_degraded ≡ false)
watch_needs_whole_collection_example =
    watch_needs_whole_collection (λ s. s) (λ s. s) actions watches

abbrev page : List Row → String → ListResult
page rows token = record {
  table = record { metadata = none; column_definitions = none; rows = some rows };
  resource_version = "9";
  continue_token = token;
  fallback = false;
}

abbrev pages : List ListResult
pages = page (row "a" "Running" ∷ []) "t1" ∷ page (row "b" "Running" ∷ []) "" ∷ []

-- A server with two pages.
abbrev server : ℕ → String → Result Thrown ListResult
server i cont =
    if str_eq cont ""
    then ok (page (row "a" "Running" ∷ []) "t1")
    else ok (page (row "b" "Running" ∷ []) "")

both_served : Serves server 0 "" pages none
both_served =
    next_page (page (row "a" "Running" ∷ []) "t1") refl (λ e. cc)
      (last_page (page (row "b" "Running" ∷ []) "") refl refl)

-- The state with the first of two refreshes in flight.
abbrev in_flight : Listing
in_flight = record unloaded { load_gen = 1; loading = true; walks = (1, Purpose.refreshing) ∷ [] }

abbrev late : List (ℕ × Bool × Result Thrown Walk)
late = (1, true, ok listed_walk) ∷ []

refresh_shows_pages_example :
    let begun = settle_late late (refresh (some every) in_flight) in
    Displays pages (
      settle_walk begun.load_gen
        (purpose_of begun.load_gen begun.walks)
        true
        (walk_table server (λ _. false) load_options "")
        begun)
refresh_shows_pages_example =
    refresh_shows_pages server (λ _. false) every in_flight late pages (omega arith, tt) both_served
      (λ _. refl)
