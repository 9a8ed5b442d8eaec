-- ===== src/LogLines/Token.antt =====
-- The tokens of web/src/utils/logJson.ts, their severities and their colours. `lower` is toLowerCase;
-- `is_finite` and `at_least` are `Number.isFinite(Number(v))` and `Number(v) >= n`.
use kube_console.Shared.{
  ℕ, Bool, true, false, ◌||◌, List, [], ◌∷◌, Option, none, some, String, ◌==◌, if◌then◌else◌,
}
use kube_console.Shared.Text.{Text, codes, text_eq}

pub data Kind : Type 0 where
  text_token : Kind
  punct_token : Kind
  key_token : Kind
  string_token : Kind
  number_token : Kind
  keyword_token : Kind
  level_token : Kind

pub data Severity : Type 0 where
  error : Severity
  warn : Severity
  info : Severity
  debug : Severity

pub record Token : Type 0 where
  pub kind : Kind
  pub text : Text
  pub severity : Option Severity

-- A token with no severity.
abbrev pub plain : Kind → Text → Token
plain kind text = record { kind = kind; text = text; severity = none }

-- `s.startsWith(prefix)`
unfoldable pub starts_with : Text → Text → Bool
starts_with [] s = true
starts_with (c ∷ cs) [] = false
starts_with (c ∷ cs) (d ∷ s) = if c == d then starts_with cs s else false

unfoldable pub starts_with_any : List Text → Text → Bool
starts_with_any [] s = false
starts_with_any (p ∷ ps) s = starts_with p s || starts_with_any ps s

module _ (lower : Text → Text) where
  unfoldable pub severity_of_name : Text → Option Severity
  severity_of_name value =
      let s = lower value in
      if starts_with_any
        (codes "err"
          ∷ codes "fatal"
          ∷ codes "crit"
          ∷ codes "panic"
          ∷ codes "alert"
          ∷ codes "emerg"
          ∷ [])
        s
      then some error
      else if starts_with (codes "warn") s
      then some warn
      else if starts_with_any (codes "info" ∷ codes "notice" ∷ []) s
      then some info
      else if starts_with_any (codes "debug" ∷ codes "trace" ∷ []) s
      then some debug
      else none

  unfoldable pub is_one_of : Text → List Text → Bool
  is_one_of s [] = false
  is_one_of s (w ∷ ws) = text_eq s w || is_one_of s ws

  -- `LEVEL_KEYS.has(key.toLowerCase())`
  unfoldable pub is_level_key : Text → Bool
  is_level_key key =
      is_one_of (lower key)
        (codes "level" ∷ codes "severity" ∷ codes "lvl" ∷ codes "loglevel" ∷ codes "log.level" ∷ [])

unfoldable pub severity_of_number : (Text → Bool) → (ℕ → Text → Bool) → Text → Option Severity
severity_of_number is_finite at_least value =
    if is_finite value
    then if at_least 50 value
      then some error
      else if at_least 40 value
      then some warn
      else if at_least 30 value
      then some info
      else if at_least 10 value
      then some debug
      else none
    else none

unfoldable pub severity_class : Severity → String
severity_class error = "font-bold text-red-400"
severity_class warn = "font-bold text-yellow-300"
severity_class info = "font-bold text-emerald-300"
severity_class debug = "font-bold text-slate-400"

unfoldable pub kind_class : Kind → String
kind_class text_token = "text-slate-500"
kind_class punct_token = "text-slate-500"
kind_class key_token = "text-sky-300"
kind_class string_token = "text-emerald-300"
kind_class number_token = "text-amber-300"
kind_class keyword_token = "text-fuchsia-300"
kind_class level_token = "text-emerald-300"

-- `logTokenClass(token)`
unfoldable pub log_token_class : Token → String
log_token_class token = elim token.severity [
  | none ↦ kind_class token.kind
  | some s ↦ severity_class s
]
