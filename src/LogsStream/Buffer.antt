-- ===== src/LogsStream/Buffer.antt =====
-- The line buffer of web/src/composables/useLogsStream.ts: `lines` and the staging array `pending`,
-- with the counters that its consumers read.
use kube_console.Shared.{
  ℕ, ◌+◌, ◌-◌, Bool, true, false, List, [], ◌++◌, Option, some, leb, if◌then◌else◌, length, drop,
}
use kube_console.Shared.Text.{Text}

unfoldable pub max_lines : ℕ
max_lines = 200000

pub record Buffer : Type 0 where
  pub lines : List Text
  pub lines_version : ℕ
  pub truncated : Bool
  pub dropped : ℕ
  pub pending : List Text
  -- Whether the flush timer is armed.
  pub timer : Bool
  pub last_line_at : Option ℕ

-- What `trim(buffer)` leaves of an array.
unfoldable pub trim : List Text → List Text
trim buffer =
    if leb (length buffer) max_lines then buffer else drop (length buffer - max_lines) buffer

-- Whether `trim(buffer)` sets `truncated`, or it was set before.
unfoldable pub trims : Bool → List Text → Bool
trims old buffer = if leb (length buffer) max_lines then old else true

unfoldable pub is_empty {ℓ} : {A : Type ℓ} → List A → Bool
is_empty [] = true
is_empty _ = false

unfoldable pub flush : Buffer → Buffer
flush b =
    if is_empty b.pending
    then record b { timer = false }
    else (let joined = b.lines ++ b.pending in
        let kept = trim joined in
        record b {
          lines = kept;
          pending = [];
          timer = false;
          truncated = trims b.truncated joined;
          dropped = b.dropped + (length joined - length kept);
          lines_version = b.lines_version + 1;
        })

-- `append(newLines)` at the wall-clock time `now`.
unfoldable pub append : ℕ → List Text → Buffer → Buffer
append now new_lines b =
    if is_empty new_lines
    then b
    else (let staged = b.pending ++ new_lines in
        record b {
          last_line_at = some now;
          pending = trim staged;
          truncated = trims b.truncated staged;
          timer = true;
        })

-- What a start leaves: `stop` drops what is staged, `reset` empties the buffer.
unfoldable pub discard_pending : Buffer → Buffer
discard_pending b = record b { pending = []; timer = false }

unfoldable pub reset : Buffer → Buffer
reset b = record b { lines = []; dropped = 0; lines_version = b.lines_version + 1 }
