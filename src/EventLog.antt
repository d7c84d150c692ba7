-- ===== src/EventLog.antt =====
-- internal/eventlog/jsonl_store.go: events appended to a file, a line of JSON each, and replayed.
-- Reading the file does not fail; the error texts carry no line numbers.
pub mod Replay
use Prim.Native.String.{◌++◌ as str_append, len}
use ptrans.Prelude.{
  ℕ, suc, String, Bool, true, false, leb, Option, none, some, List, [], ◌∷◌, str_eq, if◌then◌else◌,
}
use ptrans.Prelude.Text.{trim_space}
use ptrans.Prelude.Lines.{split_lines}
use ptrans.Domain.Errors.{Error, Result, ok, err, other}
use ptrans.Domain.Event.{Event}

-- JSON of events; `none` is an error.
pub record EventJson : Type 0 where
  pub marshal : Event → Option String
  pub unmarshal : String → Option Event

-- `content` is the file's; a closed store has no file.
pub record Log : Type 0 where
  pub content : String
  pub opened : Bool

-- What goes wrong in an `Append`: `torn` is the part of the data that a failing write leaves.
pub record AppendFaults : Type 0 where
  pub cancelled : Bool
  pub torn : Option String
  pub newline_fails : Bool
  pub sync_fails : Bool

abbrev pub no_faults : AppendFaults
no_faults = record { cancelled = false; torn = none; newline_fails = false; sync_fails = false }

-- `existing` is the file's content where there is one.
unfoldable pub new_log : Bool → Bool → Option String → Result Log
new_log mkdir_fails open_fails existing =
    if mkdir_fails
    then err (other "create event log dir")
    else if open_fails
    then err (other "open event log")
    else ok record { content = elim existing [ none ↦ "" | some text ↦ text ]; opened = true }

abbrev pub written : Log → String → Log
written log text = record log { content = str_append log.content text }

unfoldable pub write_line : AppendFaults → Log → String → Log × Option Error
write_line io log line =
    if io.newline_fails then (written log line, some (other "write newline")) else (
      written (written log line) "\n",
      if io.sync_fails then some (other "sync event log") else none,
    )

unfoldable pub write_parts : AppendFaults → Log → String → Option String → Log × Option Error
unfolding write_line
write_parts io log line (some part) = (written log part, some (other "write event"))
write_parts io log line none = write_line io log line

unfoldable pub write_event : AppendFaults → Log → Option String → Log × Option Error
unfolding write_parts
write_event io log none = (log, some (other "marshal event"))
write_event io log (some line) =
    if log.opened then write_parts io log line io.torn else (log, some (other "write event"))

unfoldable pub append : EventJson → AppendFaults → Log → Event → Log × Option Error
unfolding write_event
append k io log e =
    if io.cancelled
    then (log, some (other "context canceled"))
    else write_event io log (k.marshal e)

-- A file whose closing fails is gone as well.
unfoldable pub close : Bool → Log → Log × Option Error
close fails log =
    if log.opened
    then (record log { opened = false }, if fails then some (other "close event log") else none)
    else (log, none)

-- The scanner's buffer: a line and its newline must fit.
abbrev pub max_token : ℕ
max_token = 1048576

-- The state after a replay, with its error.
pub record Replayed {ℓ} (S : Type ℓ) : Type ℓ where
  pub state : S
  pub failure : Option Error

module _ {ℓ} {S : Type ℓ} where
  unfoldable pub stopped : S → String → Replayed S
  stopped s text = record { state = s; failure = some (other text) }

  unfoldable pub after_apply : (S → Replayed S) → S → Result S → Replayed S
  unfolding stopped
  after_apply rest s (ok s') = rest s'
  after_apply rest s (err e) = stopped s "apply event"

module _ {ℓ} {S : Type ℓ} (k : EventJson) (cancelled : ℕ → Bool)
    (apply : S → Event → Result S) where
  unfoldable pub replay_event : (S → Replayed S) → S → Option Event → Replayed S
  unfolding after_apply
  replay_event rest s none = stopped s "unmarshal event"
  replay_event rest s (some e) = after_apply rest s (apply s e)

  -- `n` lines are done.
  unfoldable pub replay_lines : ℕ → List String → S → Replayed S
  unfolding replay_event stopped
  replay_lines n [] s = record { state = s; failure = none }
  replay_lines n (l ∷ ls) s =
      let rest = replay_lines (suc n) ls in
      if leb max_token (len l)
      then stopped s "scan event log"
      else if cancelled (suc n)
      then stopped s "context canceled"
      else if str_eq (trim_space l) ""
      then rest s
      else replay_event rest s (k.unmarshal (trim_space l))

  unfoldable pub replay : Bool → Log → S → Replayed S
  unfolding replay_lines split_lines
  replay open_fails log s =
      if cancelled 0
      then stopped s "context canceled"
      else if open_fails
      then stopped s "open event log for replay"
      else replay_lines 0 (split_lines log.content) s
