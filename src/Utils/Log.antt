-- ===== src/Utils/Log.antt =====
-- `ToolLog`, `WriteStr` and the stamps of `common/utils.cpp`, over the log file and the screen.
pub mod Laws
use coin_tool.Base.{
  ℕ, zero, suc, ◌/◌, ◌%◌, Bool, true, false, not, ◌||◌, Option, none, some, List, [], ◌∷◌, ◌++◌,
  length, ◌==◌, if◌then◌else◌, Text, bytes,
}
use coin_tool.Base.Int.{ℤ, pos, eqb_ℤ}
use coin_tool.Utils.Init.{System, has_level}
use coin_tool.Utils.Report.{vsprintf}

-- The chain library's switches and formats: `DateTimeStrFormat`, `strprintf(".%06d", …)` and
-- `strprintf("%16s | %s", …)`.
pub record Format : Type 0 where
  pub log_timestamps : Bool
  pub log_time_micros : Bool
  pub log_thread_names : Bool
  pub date : ℕ → Text
  pub micros : ℕ → Text
  pub thread_line : Text → Text → Text

-- What a call of `WriteStr` finds: the thread's name, the time in microseconds, and whether the
-- file can be opened.
pub record Call : Type 0 where
  pub thread_name : Text
  pub now : ℕ
  pub can_open : Bool

-- `fStartedNewLine`, whether `fileoutput` is set, and what the file has received.
pub record LogFile : Type 0 where
  pub started_new_line : Bool
  pub opened : Bool
  pub written : Text

-- `!str.empty() && str[str.size() - 1] == '\n'`
unfoldable pub ends_with_newline : Text → Bool
ends_with_newline [] = false
ends_with_newline (c ∷ []) = c == b'\n'
ends_with_newline (c ∷ d ∷ s) = ends_with_newline (d ∷ s)

pub record Log : Type 0 where
  pub screen : Text
  pub file : LogFile

-- `PrintStr`
unfoldable pub print_str : Text → Log → Log × ℕ
print_str str log = (record log { screen = log.screen ++ str }, length str)

module _ (f : Format) where
  unfoldable pub get_timestamp_str : ℕ → Text → Bool → Text
  get_timestamp_str now str started =
      if not f.log_timestamps
      then str
      else if started
      then f.date (now / 1000000)
        ++ ((if f.log_time_micros then f.micros (now % 1000000) else []) ++ (b' ' ∷ str))
      else str

  unfoldable pub get_thread_name_str : Text → Text → Bool → Text
  get_thread_name_str thread_name str started =
      if not f.log_thread_names then str else if started then f.thread_line thread_name str else str

  -- `none` is a write to a file that could not be opened; else the result counts the bytes.
  unfoldable pub write_str : Call → Text → LogFile → Option (LogFile × ℕ)
  write_str call str file =
      let started = file.started_new_line in
      let stamped =
        get_timestamp_str call.now (get_thread_name_str call.thread_name str started) started in
      if file.opened || call.can_open
      then some (
        record {
          started_new_line = ends_with_newline str;
          opened = true;
          written = file.written ++ stamped;
        },
        length stamped,
      )
      else none

  -- `ToolLog` with its formatted message; `none` is a fault.
  unfoldable pub tool_log : System → Call → ℤ → Text → Log → Option (Log × ℕ)
  unfolding print_str write_str
  tool_log sys call debug formatted log = elim (vsprintf 1000 formatted) [
    | none ↦ none
    | some str ↦
        if eqb_ℤ debug (pos 0) || has_level sys.debug_levels debug
        then some (print_str str log)
        else if has_level sys.log_levels debug
        then elim (write_str call str log.file) [
          | none ↦ none
          | some (file', n) ↦ some (record log { file = file' }, n)
        ]
        else some (log, 0)
  ]
