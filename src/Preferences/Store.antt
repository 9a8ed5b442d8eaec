-- ===== src/Preferences/Store.antt =====
-- web/src/stores/preferences.ts: the preferences, what localStorage holds of them, and the pinned
-- resources. `parse` and `print` are JSON.parse and JSON.stringify; a page size is a whole number.
use kube_console.Shared.{
  ℕ, zero, suc, Bool, true, false, ◌&&◌, List, [], ◌∷◌, ◌++◌, map, Option, none, some, String, leb,
  ◌==◌, str_eq, if◌then◌else◌, get_or,
}
use kube_console.Auth.Json.{
  Json, bool, num, str, arr, obj, elements, to_elements, to_members, get_field,
}

pub data Theme : Type 0 where
  light : Theme
  dark : Theme
  system : Theme

-- 15, 30 or 60 seconds
pub data MetricsPollInterval : Type 0 where
  quarter_minute : MetricsPollInterval
  half_minute : MetricsPollInterval
  minute : MetricsPollInterval

-- "5m", "15m" or "1h"
pub data MetricsRange : Type 0 where
  five_minutes : MetricsRange
  fifteen_minutes : MetricsRange
  one_hour : MetricsRange

pub record MetricsPreferences : Type 0 where
  pub enabled : Bool
  pub poll_interval : MetricsPollInterval
  pub default_range : MetricsRange

pub record UserPreferences : Type 0 where
  pub theme : Theme
  pub pinned_resources : List String
  pub table_page_size : ℕ
  pub events_only_warnings : Bool
  pub sidebar_collapsed : Bool
  pub metrics : MetricsPreferences

unfoldable pub defaults : UserPreferences
defaults = record {
  theme = system;
  pinned_resources = [];
  table_page_size = 50;
  events_only_warnings = false;
  sidebar_collapsed = false;
  metrics = record {
    enabled = true;
    poll_interval = quarter_minute;
    default_range = fifteen_minutes;
  };
}

-- The values that each field admits.
unfoldable pub theme_of : Json → Option Theme
theme_of (str s) =
    if str_eq s "light"
    then some light
    else if str_eq s "dark"
    then some dark
    else if str_eq s "system"
    then some system
    else none
theme_of _ = none

abbrev pub put_before : Option String → Option (List String) → Option (List String)
put_before none rest = none
put_before (some s) none = none
put_before (some s) (some ss) = some (s ∷ ss)

abbrev pub string_of : Json → Option String
string_of (str s) = some s
string_of _ = none

unfoldable pub strings_of : List Json → Option (List String)
strings_of [] = some []
strings_of (v ∷ vs) = put_before (string_of v) (strings_of vs)

-- `isStringArray(v)`, with the array.
unfoldable pub string_array : Json → Option (List String)
string_array (arr vs) = strings_of (elements vs)
string_array _ = none

unfoldable pub page_size_of : Json → Option ℕ
page_size_of (num n) = if leb 10 n && leb n 500 then some n else none
page_size_of _ = none

unfoldable pub flag_of : Json → Option Bool
flag_of (bool b) = some b
flag_of _ = none

unfoldable pub poll_interval_of : Json → Option MetricsPollInterval
poll_interval_of (num n) =
    if n == 15
    then some quarter_minute
    else if n == 30
    then some half_minute
    else if n == 60
    then some minute
    else none
poll_interval_of _ = none

unfoldable pub range_of : Json → Option MetricsRange
range_of (str s) =
    if str_eq s "5m"
    then some five_minutes
    else if str_eq s "15m"
    then some fifteen_minutes
    else if str_eq s "1h"
    then some one_hour
    else none
range_of _ = none

-- A property that is there and admitted, or else a default.
abbrev pub admit {ℓ} : {A : Type ℓ} → (Json → Option A) → Option Json → A → A
admit read none fallback = fallback
admit read (some v) fallback = get_or (read v) fallback

abbrev pub under : String → Option Json → Option Json
under name none = none
under name (some v) = get_field name v

unfoldable pub sanitize_metrics : Option Json → MetricsPreferences
sanitize_metrics m = record {
  enabled = admit flag_of (under "enabled" m) true;
  poll_interval = admit poll_interval_of (under "pollIntervalSeconds" m) quarter_minute;
  default_range = admit range_of (under "defaultRange" m) fifteen_minutes;
}

-- `sanitizePreferences(input)`
unfoldable pub sanitize_preferences : Json → UserPreferences
sanitize_preferences input = record {
  theme = admit theme_of (get_field "theme" input) system;
  pinned_resources = admit string_array (get_field "pinnedResources" input) [];
  table_page_size = admit page_size_of (get_field "tablePageSize" input) 50;
  events_only_warnings = admit flag_of (get_field "eventsOnlyWarnings" input) false;
  sidebar_collapsed = admit flag_of (get_field "sidebarCollapsed" input) false;
  metrics = sanitize_metrics (get_field "metrics" input);
}

unfoldable pub theme_json : Theme → Json
theme_json light = str "light"
theme_json dark = str "dark"
theme_json system = str "system"

unfoldable pub poll_interval_json : MetricsPollInterval → Json
poll_interval_json quarter_minute = num 15
poll_interval_json half_minute = num 30
poll_interval_json minute = num 60

unfoldable pub range_json : MetricsRange → Json
range_json five_minutes = str "5m"
range_json fifteen_minutes = str "15m"
range_json one_hour = str "1h"

unfoldable pub metrics_json : MetricsPreferences → Json
metrics_json m = obj (
    to_members (
      ("enabled", bool m.enabled)
      ∷ ("pollIntervalSeconds", poll_interval_json m.poll_interval)
      ∷ ("defaultRange", range_json m.default_range)
      ∷ []))

-- What `serializePreferences` prints.
unfoldable pub preferences_json : UserPreferences → Json
preferences_json p = obj (
    to_members (
      ("theme", theme_json p.theme)
      ∷ ("pinnedResources", arr (to_elements (map str p.pinned_resources)))
      ∷ ("tablePageSize", num p.table_page_size)
      ∷ ("eventsOnlyWarnings", bool p.events_only_warnings)
      ∷ ("sidebarCollapsed", bool p.sidebar_collapsed)
      ∷ ("metrics", metrics_json p.metrics)
      ∷ []))

abbrev pub one_further : Option ℕ → Option ℕ
one_further none = none
one_further (some i) = some (suc i)

-- `array.indexOf(id)`
unfoldable pub index_of : String → List String → Option ℕ
index_of id [] = none
index_of id (s ∷ ss) =
    let later = index_of id ss in if str_eq s id then some 0 else one_further later

-- `array.splice(i, 1)`
unfoldable pub remove_at : ℕ → List String → List String
remove_at i [] = []
remove_at zero (s ∷ ss) = ss
remove_at (suc i) (s ∷ ss) = s ∷ remove_at i ss

-- `array.splice(i, 0, id)`, which appends where the array is shorter.
unfoldable pub insert_at : ℕ → String → List String → List String
insert_at i id [] = id ∷ []
insert_at zero id (s ∷ ss) = id ∷ s ∷ ss
insert_at (suc i) id (s ∷ ss) = s ∷ insert_at i id ss

unfoldable pub toggled : Option ℕ → String → List String → List String
toggled none id pinned = pinned ++ id ∷ []
toggled (some i) id pinned = remove_at i pinned

unfoldable pub toggle_pinned : String → UserPreferences → UserPreferences
toggle_pinned id p = record p {
  pinned_resources = toggled (index_of id p.pinned_resources) id p.pinned_resources;
}

unfoldable pub moved : Option ℕ → Option ℕ → String → List String → List String
moved none to id pinned = pinned
moved (some from) none id pinned = pinned
moved (some from) (some to) id pinned =
    if from == to then pinned else insert_at to id (remove_at from pinned)

unfoldable pub move_pinned : String → String → UserPreferences → UserPreferences
move_pinned source target p = record p {
  pinned_resources =
      moved (index_of source p.pinned_resources) (index_of target p.pinned_resources) source
        p.pinned_resources;
}

pub data Edit : Type 0 where
  toggles : String → Edit
  moves : String → String → Edit

unfoldable pub edit : Edit → UserPreferences → UserPreferences
edit (toggles id) p = toggle_pinned id p
edit (moves source target) p = move_pinned source target p

unfoldable pub edit_all : List Edit → UserPreferences → UserPreferences
edit_all [] p = p
edit_all (e ∷ es) p = edit_all es (edit e p)

unfoldable pub parsed_or_defaults : Option Json → UserPreferences
parsed_or_defaults none = defaults
parsed_or_defaults (some input) = sanitize_preferences input

-- `loadFromStorage()`: what localStorage has under the key, if anything.
unfoldable pub load_from_storage : (String → Option Json) → Option String → UserPreferences
load_from_storage parse none = defaults
load_from_storage parse (some raw) = parsed_or_defaults (parse raw)

unfoldable pub serialize_preferences : (Json → String) → UserPreferences → String
serialize_preferences print p = print (preferences_json p)
