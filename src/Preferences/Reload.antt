-- ===== src/Preferences/Reload.antt =====
-- web/src/stores/preferences.ts: a reload restores the preferences.
use kube_console.Shared.{
  ℕ, ◌≤◌, ◌≡◌, refl, ap, ◌∙◌, Bool, true, ◌&&◌, List, [], ◌∷◌, map, Option, none, some, String,
  arith, leb, get_or,
}
use kube_console.Shared.Maps.{lookup}
use kube_console.Auth.Json.{
  Json, null, bool, num, str, arr, obj, elements-to_elements, to_elements, get_field,
}
use kube_console.Preferences.Store.{
  Theme, light, dark, system, MetricsPollInterval, quarter_minute, half_minute, minute,
  MetricsRange, five_minutes, fifteen_minutes, one_hour, MetricsPreferences, UserPreferences,
  defaults, theme_of, strings_of, string_array, page_size_of, flag_of, poll_interval_of, range_of,
  sanitize_metrics, sanitize_preferences, theme_json, poll_interval_json, range_json, metrics_json,
  preferences_json, toggle_pinned, move_pinned, Edit, toggles, moves, edit, edit_all,
  parsed_or_defaults, load_from_storage, serialize_preferences, admit,
}

-- The one bound that the types do not say.
unfoldable pub is_valid : UserPreferences → Bool
is_valid p = leb 10 p.table_page_size && leb p.table_page_size 500

theme_back : (t : Theme) → theme_of (theme_json t) ≡ some t
unfolding theme_of theme_json
theme_back light = refl
theme_back dark = refl
theme_back system = refl

poll_interval_back : (t : MetricsPollInterval) → poll_interval_of (poll_interval_json t) ≡ some t
unfolding poll_interval_of poll_interval_json
poll_interval_back quarter_minute = refl
poll_interval_back half_minute = refl
poll_interval_back minute = refl

range_back : (t : MetricsRange) → range_of (range_json t) ≡ some t
unfolding range_of range_json
range_back five_minutes = refl
range_back fifteen_minutes = refl
range_back one_hour = refl

pins_back : (ss : List String) → strings_of (map str ss) ≡ some ss
unfolding strings_of
pins_back [] = refl
pins_back (s ∷ ss) = rw (pins_back ss) refl

array_back : (ss : List String) → string_array (arr (to_elements (map str ss))) ≡ some ss
unfolding string_array
array_back ss = ap strings_of (elements-to_elements (map str ss)) ∙ pins_back ss

metrics_back : (m : MetricsPreferences) → sanitize_metrics (some (metrics_json m)) ≡ m
unfolding sanitize_metrics metrics_json lookup flag_of
metrics_back m = rw (poll_interval_back m.poll_interval, range_back m.default_range) refl

sanitize-preferences_json :
    (p : UserPreferences) → is_valid p ≡ true → sanitize_preferences (preferences_json p) ≡ p
unfolding sanitize_preferences preferences_json lookup flag_of page_size_of is_valid
sanitize-preferences_json p v =
    rw (theme_back p.theme, array_back p.pinned_resources, metrics_back p.metrics) (simp v refl)

size_is_valid : (v : Json) (n : ℕ) → page_size_of v ≡ some n → (leb 10 n && leb n 500) ≡ true
unfolding page_size_of
size_is_valid (num m) n e = ground (arith, e)
size_is_valid null n e = cc
size_is_valid (bool b) n e = cc
size_is_valid (str s) n e = cc
size_is_valid (arr vs) n e = cc
size_is_valid (obj ms) n e = cc

admitted_is_valid :
    (o : Option Json) → let n = admit page_size_of o 50 in (leb 10 n && leb n 500) ≡ true
admitted_is_valid none = refl
admitted_is_valid (some v) = read (page_size_of v) refl
  where
    read :
        (o : Option ℕ) → page_size_of v ≡ o → let n = get_or o 50 in (leb 10 n && leb n 500) ≡ true
    read none e = refl
    read (some n) e = size_is_valid v n e

edit_all-is_valid :
    (es : List Edit) (p : UserPreferences) → is_valid p ≡ true → is_valid (edit_all es p) ≡ true
unfolding edit_all edit toggle_pinned move_pinned is_valid
edit_all-is_valid [] p v = v
edit_all-is_valid (toggles id ∷ es) p v = edit_all-is_valid es (toggle_pinned id p) v
edit_all-is_valid (moves a b ∷ es) p v = edit_all-is_valid es (move_pinned a b p) v

load-is_valid :
    (parse : String → Option Json) (raw : Option String)
    → is_valid (load_from_storage parse raw) ≡ true
unfolding load_from_storage parsed_or_defaults defaults sanitize_preferences is_valid
load-is_valid parse none = refl
load-is_valid parse (some raw) = parsed (parse raw)
  where
    parsed : (o : Option Json) → is_valid (parsed_or_defaults o) ≡ true
    parsed none = refl
    parsed (some input) = admitted_is_valid (get_field "tablePageSize" input)

valid_bounds :
    (p : UserPreferences) → is_valid p ≡ true → (10 ≤ p.table_page_size) × (p.table_page_size ≤ 500)
unfolding is_valid
valid_bounds p v = (ground (arith, v), ground (arith, v))

-- The preferences that come of what localStorage held and of the edits since.
abbrev pub preferred : (String → Option Json) → Option String → List Edit → UserPreferences
preferred parse raw edits = edit_all edits (load_from_storage parse raw)

-- If JSON.parse reads back what was printed: whatever localStorage held, a valid text, a broken one or
-- none, and whatever resources were pinned, unpinned and moved since, the page size is within its
-- bounds, and a reload restores the preferences as they were saved.
pub reload_keeps_preferences :
    (parse : String → Option Json) (print : Json → String) (raw : Option String) (edits : List Edit)
    → parse (print (preferences_json (preferred parse raw edits)))
      ≡ some (preferences_json (preferred parse raw edits))
    → let p = preferred parse raw edits in
      (10 ≤ p.table_page_size)
      × (p.table_page_size ≤ 500)
      × (load_from_storage parse (some (serialize_preferences print p)) ≡ p)
unfolding load_from_storage serialize_preferences parsed_or_defaults
reload_keeps_preferences parse print raw edits reads =
    let p = preferred parse raw edits in
    let v = edit_all-is_valid edits (load_from_storage parse raw) (load-is_valid parse raw) in
    let (low, high) = valid_bounds p v in
    (low, high, ap parsed_or_defaults reads ∙ sanitize-preferences_json p v)
