-- ===== src/Gateway/Tests.antt =====
-- Runs of the requests of web/src/api/k8s.ts at concrete inputs.
use kube_console.Shared.{
  ◌<◌, ℕ, ◌≡◌, ◌≤◌, ◌⊎◌, refl, true, false, List, [], ◌∷◌, none, some, String, arith, ◌==◌, ltb,
  str_eq, if◌then◌else◌, Bool-cases, inl, inr, filter, length, take,
}
use kube_console.Shared.Maps.{lookup, insert}
use kube_console.Shared.Text.{Text, codes, text_eq}
use kube_console.ResourceList.Rows.{Row}
use kube_console.Gateway.Path.{
  slash, ResourceRef, PathOptions, resource_path, base_path, optional_part, subresource_part,
  is_core_group,
}
use kube_console.Gateway.Segments.{HasNoSlash, pieces, resource_path-segments, segments}
use kube_console.Gateway.Requests.{
  ListOptions, Identity, Request, set_given, list_request, watch_request, events_request,
  event_selectors, join_commas, events_with, selector,
}
use kube_console.Gateway.Selection.{given, watch_follows_list}
use kube_console.Gateway.Table.{ListResult}
use kube_console.Gateway.Walk.{
  Result, ok, err, Walk, WalkOptions, walk_table, walk_from, on_answer, absorb, is_full, fresh_walk,
  is_truncated, keeps,
}
use kube_console.Gateway.Pages.{
  Serves, last_page, next_page, broken_page, all_rows, version_after, walk_reads_pages,
}
use kube_console.Gateway.Failure.{walk_fails}
use kube_console.Gateway.Namespaces.{
  fetch_namespaces, page_of, map_result, items_of, fetch_namespaces-eq-walk_table,
}

-- An encoding that escapes the slash.
abbrev escape : Text → Text
escape [] = []
escape (c ∷ cs) = let later = escape cs in if c == slash then 37 ∷ 50 ∷ 70 ∷ later else c ∷ later

escape-HasNoSlash : (s : Text) → HasNoSlash (escape s)
escape-HasNoSlash [] = tt
escape-HasNoSlash (c ∷ cs) = elim (Bool-cases (c == slash)) [
  | inl t ↦ simp t (omega arith, (omega arith, (omega arith, escape-HasNoSlash cs)))
  | inr f ↦ simp f (ground (arith, f), escape-HasNoSlash cs)
]

abbrev deployments : ResourceRef
deployments = record { group = codes "apps"; version = codes "v1"; resource = codes "deployments" }

abbrev scale_of_web : PathOptions
scale_of_web = record {
  namespace = some (codes "a/b");
  name = some (codes "web");
  subresource = some (codes "scale");
}

resource_path-segments_example :
    pieces (resource_path escape deployments scale_of_web)
    ≡ [] ∷ segments escape deployments scale_of_web
resource_path-segments_example =
    resource_path-segments escape deployments scale_of_web escape-HasNoSlash

gateway_runs : Unit {0}
unfolding resource_path base_path optional_part subresource_part is_core_group set_given
    list_request watch_request events_request event_selectors join_commas events_with selector given
    segments pieces walk_table walk_from on_answer absorb is_full fresh_walk is_truncated keeps
    all_rows fetch_namespaces page_of map_result items_of text_eq insert lookup
gateway_runs = tt

abbrev options : ListOptions
options = record {
  namespace = some (codes "default");
  limit = some 500;
  continue_token = some (codes "t1");
  label_selector = some (codes "app=web");
  field_selector = none;
}

watch_follows_list_example :
    let list = list_request escape (λ n. n ∷ []) deployments options in
    let (path, params) =
      watch_request escape
        (λ n. n ∷ [])
        deployments
        (some (codes "default"))
        (codes "7")
        (some (codes "app=web"))
        none in
    (path ≡ list.path)
    × (lookup "labelSelector" params ≡ given (some (codes "app=web")))
    × (lookup "labelSelector" list.params ≡ given (some (codes "app=web")))
    × (lookup "fieldSelector" params ≡ given none)
    × (lookup "fieldSelector" list.params ≡ given none)
watch_follows_list_example = watch_follows_list escape (λ n. n ∷ []) deployments options (codes "7")

abbrev pod : Identity
pod = record {
  uid = some (codes "u1");
  name = some (codes "web-0");
  namespace = some (codes "default");
}

abbrev pod_events : Request
pod_events = record {
  verb = "GET";
  path = codes "/k8s/api/v1/namespaces/default/events";
  params =
      ("fieldSelector", codes "involvedObject.uid=u1,involvedObject.name=web-0")
      ∷ ("limit", codes "200")
      ∷ [];
  accept = some (codes "application/json");
  content_type = none;
  body = none;
}

abbrev row : String → Row
row name = record { metadata = none; cells = name ∷ [] }

abbrev page : List Row → String → ListResult
page rows token = record {
  table = record { metadata = none; column_definitions = none; rows = some rows };
  resource_version = "9";
  continue_token = token;
  fallback = false;
}

abbrev first_page : ListResult
first_page = page (row "a" ∷ row "b" ∷ []) "t1"

abbrev second_page : ListResult
second_page = page (row "c" ∷ []) ""

-- A server with two pages.
abbrev server : ℕ → String → Result String ListResult
server i cont =
    if str_eq cont ""
    then ok first_page
    else if str_eq cont "t1"
    then ok second_page
    else err "Expired"

abbrev two_pages : List ListResult
two_pages = first_page ∷ second_page ∷ []

two_served : Serves server 0 "" two_pages none
two_served = next_page first_page refl (λ e. cc) (last_page second_page refl refl)

abbrev not_b : WalkOptions
not_b = record {
  max_pages = none;
  keep_row = some (λ r. (length r.cells) == 1);
  max_rows = some 100;
}

walk_reads_pages_example :
    (k : ℕ) × (w : Walk) × (walk_table server (λ _. false) not_b "" ≡ ok w)
    × (k ≤ 6)
    × (w.rows ≡ filter (keeps not_b.keep_row) (all_rows (take k two_pages)))
    × (w.scanned ≡ length (all_rows (take k two_pages)))
    × (w.resource_version ≡ version_after "" (take k two_pages))
    × ((k ≡ 2) ⊎ (k ≡ 6) ⊎ (is_full (some 100) w.rows ≡ true))
    × ((j : ℕ)
        → 0 < j
        → j < k
        → is_full (some 100) (filter (keeps not_b.keep_row) (all_rows (take j two_pages))) ≡ false)
    × (is_truncated w ≡ ltb k 2)
walk_reads_pages_example =
    walk_reads_pages server (λ _. false) not_b "" two_pages two_served (λ _. refl) (omega arith)

-- The server forgets the token after a page.
abbrev forgetful : ℕ → String → Result String ListResult
forgetful i cont = if str_eq cont "" then ok first_page else err "Expired"

one_served : Serves forgetful 0 "" (first_page ∷ []) (some "Expired")
one_served = next_page first_page refl (λ e. cc) (broken_page "Expired" refl)

abbrev all_pages : WalkOptions
all_pages = record { max_pages = none; keep_row = none; max_rows = none }

walk_fails_example : walk_table forgetful (λ _. false) all_pages "" ≡ err "Expired"
walk_fails_example =
    walk_fails forgetful (λ _. false) all_pages "" (first_page ∷ []) "Expired" one_served
      (λ _. refl) refl (omega arith)

fetch_namespaces-eq-walk_table_example :
    fetch_namespaces (λ i cont. map_result page_of (server i cont)) (some 2)
    ≡ map_result items_of (
        walk_table server
          (λ _. false)
          (record { max_pages = some 2; keep_row = none; max_rows = none })
          "")
fetch_namespaces-eq-walk_table_example = fetch_namespaces-eq-walk_table server (some 2)
