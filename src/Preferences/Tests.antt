-- ===== src/Preferences/Tests.antt =====
-- Runs of the preferences store of web/src/stores/preferences.ts at concrete inputs.
use kube_console.Shared.{
  ◌≤◌, ◌≡◌, refl, true, false, List, [], ◌∷◌, Option, none, some, String, str_eq, if◌then◌else◌,
}
use kube_console.Shared.Maps.{lookup}
use kube_console.Auth.Json.{Json, bool, num, str, arr, obj, to_elements, to_members}
use kube_console.Preferences.Store.{
  light, half_minute, fifteen_minutes, UserPreferences, defaults, theme_of, strings_of,
  string_array, page_size_of, flag_of, poll_interval_of, range_of, sanitize_metrics,
  sanitize_preferences, theme_json, poll_interval_json, range_json, metrics_json, preferences_json,
  index_of, remove_at, insert_at, toggled, toggle_pinned, moved, move_pinned, Edit, toggles, moves,
  edit, edit_all, parsed_or_defaults, load_from_storage, serialize_preferences,
}
use kube_console.Preferences.Reload.{preferred, reload_keeps_preferences}
use kube_console.Preferences.Pinned.{others, move_pinned_places}

preferences_store : Unit {0}
unfolding defaults theme_of strings_of string_array page_size_of flag_of poll_interval_of range_of
    sanitize_metrics sanitize_preferences theme_json poll_interval_json range_json metrics_json
    preferences_json index_of remove_at insert_at toggled toggle_pinned moved move_pinned edit
    edit_all parsed_or_defaults load_from_storage serialize_preferences lookup others
preferences_store = tt

-- A stored text with a page size and a flag that are not admitted, and a field that nobody knows.
abbrev stored : Json
stored = obj (
    to_members (
      ("theme", str "light")
      ∷ ("pinnedResources", arr (to_elements (str "pods" ∷ str "nodes" ∷ [])))
      ∷ ("tablePageSize", num 5000)
      ∷ ("sidebarCollapsed", str "yes")
      ∷ ("token", str "secret")
      ∷ ("metrics", obj (to_members (("pollIntervalSeconds", num 30) ∷ [])))
      ∷ []))

abbrev edits : List Edit
edits = toggles "jobs" ∷ moves "pods" "jobs" ∷ toggles "nodes" ∷ []

-- What is left of it, after the edits.
abbrev kept : UserPreferences
kept = record {
  theme = light;
  pinned_resources = "jobs" ∷ "pods" ∷ [];
  table_page_size = 50;
  events_only_warnings = false;
  sidebar_collapsed = false;
  metrics = record { enabled = true; poll_interval = half_minute; default_range = fifteen_minutes };
}

abbrev kept_json : Json
kept_json = obj (
    to_members (
      ("theme", str "light")
      ∷ ("pinnedResources", arr (to_elements (str "jobs" ∷ str "pods" ∷ [])))
      ∷ ("tablePageSize", num 50)
      ∷ ("eventsOnlyWarnings", bool false)
      ∷ ("sidebarCollapsed", bool false)
      ∷ (
        "metrics",
        obj (
            to_members (
              ("enabled", bool true)
              ∷ ("pollIntervalSeconds", num 30)
              ∷ ("defaultRange", str "15m")
              ∷ [])),
      )
      ∷ []))

-- A reader of the two texts.
abbrev parse : String → Option Json
parse text =
    if str_eq text "stored"
    then some stored
    else if str_eq text "kept"
    then some kept_json
    else none

abbrev print : Json → String
print v = "kept"

edits_are_kept : preferred parse (some "stored") edits ≡ kept
unfolding preferences_store
edits_are_kept = refl

reads_back :
    parse (print (preferences_json (preferred parse (some "stored") edits)))
    ≡ some (preferences_json (preferred parse (some "stored") edits))
unfolding preferences_store
reads_back = refl

reload_keeps_preferences_example :
    let p = preferred parse (some "stored") edits in
    (10 ≤ p.table_page_size)
    × (p.table_page_size ≤ 500)
    × (load_from_storage parse (some (serialize_preferences print p)) ≡ p)
reload_keeps_preferences_example =
    reload_keeps_preferences parse print (some "stored") edits reads_back

abbrev three_pins : UserPreferences
three_pins = record kept { pinned_resources = "a" ∷ "b" ∷ "c" ∷ [] }

move_pinned_places_example :
    let after = (move_pinned "a" "c" three_pins).pinned_resources in
    (index_of "a" after ≡ some 2) × (others "a" after ≡ others "a" ("a" ∷ "b" ∷ "c" ∷ []))
unfolding preferences_store
move_pinned_places_example = move_pinned_places "a" "c" three_pins 0 2 refl refl refl
