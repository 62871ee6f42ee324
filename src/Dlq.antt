-- ===== src/Dlq.antt =====
-- internal/dlq/dlq.go. A line of the file or of the log is the entry that its JSON encodes; the
-- marshalling of an entry does not fail. `written` holds the lines that this process has appended
-- to the target, and `logged` its log, both oldest first. Time is nanoseconds.
pub mod Routing
pub mod Lines
pub mod Recovery
mod Tests
use xyllo.Base.{
  Bytes, codes, Bool, true, false, ◌&&◌, not, ◌==◌, ℕ, Option, none, some, List, [], ◌∷◌, ◌++◌,
  if◌then◌else◌,
}
use xyllo.Config.{DlqConfig}
use xyllo.Json.Numbers.{◌>>=◌}
use xyllo.Json.Encode.{encode_text, encode_time}
use xyllo.Json.Encode.Base64.{encode_bytes}

pub record Entry : Type 0 where
  pub received_at : ℕ
  pub source : Bytes
  pub reason : Bytes
  pub raw : Bytes

-- json.Marshal of an entry; `none` is the error for a year above 9999.
unfoldable pub entry_json : Entry → Option Bytes
unfolding encode_time encode_text encode_bytes
entry_json e = do
  received ← encode_time e.received_at
  some (
      codes "{\"received_at\":"
      ++ received
      ++ codes ",\"source\":"
      ++ encode_text e.source
      ++ codes ",\"reason\":"
      ++ encode_text e.reason
      ++ codes ",\"raw\":"
      ++ encode_bytes e.raw
      ++ codes "}")

-- The log's lines: an entry, or the notice that an entry could not be written.
pub data LogLine : Type 0 where
  entry_line : Entry → LogLine
  write_error : Bytes → LogLine

pub record Dlq : Type 0 where
  pub cfg : DlqConfig
  pub is_open : Bool
  pub written : List Entry
  pub logged : List LogLine

-- `opens` says whether the operating system opens the target; `none` is the error of `New`.
unfoldable pub new : Bool → DlqConfig → Option Dlq
new opens cfg =
    if cfg.backend == codes "file" && not (cfg.target == [])
    then if opens
      then some (record { cfg = cfg; is_open = true; written = []; logged = [] })
      else none
    else some (record { cfg = cfg; is_open = false; written = []; logged = [] })

-- `writes` says whether the write to the file succeeds.
unfoldable pub store : Bool → Entry → Dlq → Dlq
store writes entry d =
    if d.is_open
    then if writes
      then record d { written = d.written ++ entry ∷ [] }
      else record d { logged = d.logged ++ write_error entry.source ∷ [] }
    else record d { logged = d.logged ++ entry_line entry ∷ [] }

unfoldable pub push : Bool → ℕ → Bytes → Bytes → Bytes → Dlq → Dlq
unfolding store
push writes now source reason raw =
    store writes (record { received_at = now; source = source; reason = reason; raw = raw })

-- `closes` says whether the file closes without an error; so does the result.
unfoldable pub close : Bool → Dlq → Dlq × Bool
close closes d = if d.is_open then (record d { is_open = false }, closes) else (d, true)
