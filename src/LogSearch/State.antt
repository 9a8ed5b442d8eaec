-- ===== src/LogSearch/State.antt =====
-- The state of web/src/composables/useLogSearch.ts and its operations, with `compileQuery` of
-- web/src/utils/logSearch.ts. A query is known by its text: `compiled` is computed anew exactly when
-- the debounced text changes. What the compiled regular expression matches is the argument `test`.
use kube_console.Shared.{
  ℕ, ◌+◌, ◌-◌, ◌%◌, String, Bool, true, false, not, ◌&&◌, ◌||◌, List, [], Option, none, some, ltb,
  ◌==◌, str_eq, if◌then◌else◌, length,
}
use kube_console.Shared.Text.{Text, is_blank}
use kube_console.LogSearch.Scan.{count_below, scan_lines, shift_and_scan}

-- What the stream hands over: the array by its identity, its lines, and the count of dropped ones.
pub record Log : Type 0 where
  pub array : ℕ
  pub lines : List Text
  pub dropped : ℕ

pub record Search : Type 0 where
  pub query : String
  pub filter : Bool
  pub debounced : String
  -- Whether the debounce timer is pending.
  pub timer : Bool
  pub matches : List ℕ
  pub active : Option ℕ
  pub jump_seq : ℕ
  pub last_query : Option String
  pub last_lines : Option ℕ
  pub last_len : ℕ
  pub last_dropped : ℕ

-- `compileQuery(raw)`, null for a blank text.
unfoldable pub compile_query : String → Option String
compile_query raw = if is_blank raw then none else some raw

unfoldable pub same_query : Option String → Option String → Bool
same_query none none = true
same_query (some q) (some r) = str_eq q r
same_query _ _ = false

abbrev pub same_array : Option ℕ → ℕ → Bool
same_array none array = false
same_array (some a) array = a == array

-- `filtering`
unfoldable pub filtering : Search → Bool
filtering s = s.filter && not (same_query (compile_query s.debounced) none)

-- The cursor after `removed` hits left the front.
abbrev pub shift_active : ℕ → Option ℕ → Option ℕ
shift_active removed none = none
shift_active removed (some a) = if ltb a removed then none else some (a - removed)

-- The initial state.
unfoldable pub init : Search
init = record {
  query = "";
  filter = false;
  debounced = "";
  timer = false;
  matches = [];
  active = none;
  jump_seq = 0;
  last_query = none;
  last_lines = none;
  last_len = 0;
  last_dropped = 0;
}

-- The user types: `query.value = value`, which arms the timer if it is a change.
unfoldable pub type_query : String → Search → Search
type_query value s = if str_eq value s.query then s else record s { query = value; timer = true }

-- The cursor of `move`, forwards or backwards through `count` hits.
unfoldable pub next_active : Bool → ℕ → Option ℕ → ℕ
next_active true count none = 0
next_active false count none = count - 1
next_active true count (some current) = (current + 1 + count) % count
next_active false count (some current) = (current + count - 1) % count

-- What `move` does once it has settled.
unfoldable pub jump : Bool → Search → Search
jump forwards s = if length s.matches == 0 then s else record s {
  active = some (next_active forwards (length s.matches) s.active);
  jump_seq = s.jump_seq + 1;
}

-- `clear()`
unfoldable pub clear : Search → Search
clear s = record (type_query "" s) { active = none }

module _ (test : String → Text → Bool) where
  -- `rescan(q, buffer)`
  unfoldable pub rescan : String → Log → Search → Search
  rescan q log s = record s { matches = scan_lines (test q) log.lines 0; active = none }

  unfoldable pub shift : String → Log → Search → Search
  shift q log s =
      let delta = log.dropped - s.last_dropped in
      record s {
        matches = shift_and_scan (test q) s.matches delta s.last_len log.lines;
        active = shift_active (count_below delta s.matches) s.active;
      }

  -- The three branches of the watch over `compiled` and `version`.
  unfoldable pub update : Option String → Log → Search → Search
  update none log s = record s { matches = []; active = none }
  update (some q) log s =
      if not (same_query (some q) s.last_query) || not (same_array s.last_lines log.array)
      then rescan q log s
      else shift q log s

  -- The whole callback of the watch.
  unfoldable pub refresh : Log → Search → Search
  refresh log s =
      let compiled = compile_query s.debounced in
      let updated = update compiled log s in
      record updated {
        last_query = compiled;
        last_lines = some log.array;
        last_len = length log.lines;
        last_dropped = log.dropped;
      }

  -- `debounced.value = value`, and the synchronous watch if that changes `compiled`.
  unfoldable pub set_debounced : Log → String → Search → Search
  set_debounced log value s =
      if same_query (compile_query value) (compile_query s.debounced)
      then record s { debounced = value }
      else refresh log (record s { debounced = value })

  -- The debounce timer fires, and `settle()` where one is pending.
  unfoldable pub settle : Log → Search → Search
  settle log s = if s.timer then set_debounced log s.query (record s { timer = false }) else s

  -- `next()` and `prev()`
  unfoldable pub move : Bool → Log → Search → Search
  move forwards log s = jump forwards (settle log s)
