-- ===== src/Tests/Utils.antt =====
-- Concrete runs of the functions of `common/utils.cpp` and `common/utils.h`.
use coin_tool.Utils.Report.{vsprintf}
use coin_tool.Base.{
  ◌≢◌, ◌+◌, ◌≤◌, ◌≡◌, refl, ◌↔◌, ◌⊎◌, true, false, not, ◌||◌, Option, none, List, [], ◌∷◌, ◌++◌,
  arith, length, replicate, if◌then◌else◌, Text, text_eq, bytes,
}
use coin_tool.Base.Int.{ℤ, pos, eqb_ℤ}
use coin_tool.Base.Dict.{lookup, values}
use coin_tool.Number.{decimal}
use coin_tool.Utils.Config.{
  Settings, Entry, tools_interpret_bool, tools_interpret_negative_setting, read_entries,
  read_current_file,
}
use coin_tool.Utils.Config.Laws.{or_first, file_values, read_entries_lem, read_current_file-eq-none}
use coin_tool.Utils.Config.Negative.{minus_no, tools_interpret_negative_setting_negates}
use coin_tool.Utils.Init.{insert_level, main_net, System, has_level, init_levels}
use coin_tool.Utils.Init.Laws.{has_level-init_levels}
use coin_tool.Utils.Rank.{get_rank_string}
use coin_tool.Utils.Search.{ci_find_substr}
use coin_tool.Utils.Search.Laws.{IsFirstMatch, ci_find_substr-IsFirstMatch}
use coin_tool.Utils.Log.{
  get_thread_name_str, get_timestamp_str, Format, Call, LogFile, Log, ends_with_newline, write_str,
  tool_log,
}
use coin_tool.Utils.Log.Laws.{
  stamp, shown, logged, write_str-stamp, tool_log_routes, tool_log-eq-none,
}

-- A number is spelled by the length of its text.
abbrev tally : Text → ℤ
tally s = if text_eq s (bytes "0") then pos 0 else pos (length s)

abbrev given : Settings
given = record {
  args = (bytes "-debug", bytes "1") ∷ [];
  multi = (bytes "-debug", bytes "1" ∷ bytes "22" ∷ []) ∷ [];
}

abbrev file : List Entry
file = (bytes "debug", bytes "22") ∷ (bytes "nolog", bytes "1") ∷ []

read_entries_lem_example :
    (lookup (bytes "-log") (read_entries tally given file).args
      ≡ or_first (lookup (bytes "-log") given.args) (file_values tally (bytes "-log") file))
    × (values (bytes "-log") (read_entries tally given file).multi
        ≡ values (bytes "-log") given.multi ++ file_values tally (bytes "-log") file)
read_entries_lem_example = read_entries_lem tally (bytes "-log") given file

abbrev no_file : Text → Option (List Entry)
no_file name = none

abbrev long_name : Text
long_name = replicate 80 b'a'

read_current_file-eq-none_example :
    (read_current_file tally no_file given long_name ≡ none)
    ↔ ((no_file long_name ≡ none) × (80 ≤ length long_name))
read_current_file-eq-none_example =
    read_current_file-eq-none tally no_file given long_name (omega arith)

tools_interpret_negative_setting_negates_example :
    let (k', v') = tools_interpret_negative_setting tally (minus_no (bytes "log")) (bytes "0") in
    (k' ≡ bytes "-log")
    × (((v' ≡ bytes "0") × ((bytes "0" ≡ []) ⊎ (tally (bytes "0") ≢ pos 0)))
        ⊎ ((v' ≡ bytes "1") × (bytes "0" ≢ []) × (tally (bytes "0") ≡ pos 0)))
    × (tools_interpret_bool tally v' ≡ not (tools_interpret_bool tally (bytes "0")))
unfolding text_eq
tools_interpret_negative_setting_negates_example =
    tools_interpret_negative_setting_negates tally b'l' (bytes "og") (bytes "0") refl refl

has_level-init_levels_example :
    has_level (init_levels tally (bytes "-debug") given []) (pos 2)
    ≡ (has_level [] (pos 2) || eqb_ℤ (tally (bytes "1")) (pos 2))
unfolding lookup text_eq
has_level-init_levels_example =
    has_level-init_levels tally (bytes "-debug") (bytes "1") given [] (pos 2) refl refl

-- The second value of the key turns no level on.
second_level_off : has_level (init_levels tally (bytes "-debug") given []) (pos 2) ≡ false
unfolding has_level init_levels lookup text_eq insert_level
second_level_off = refl

rank_of_21 : get_rank_string (pos 21) ≡ bytes "21th"
unfolding get_rank_string decimal
rank_of_21 = refl

ci_find_substr-IsFirstMatch_example :
    IsFirstMatch (bytes "UaBCd") (bytes "bc") (ci_find_substr (bytes "UaBCd") (bytes "bc"))
ci_find_substr-IsFirstMatch_example = ci_find_substr-IsFirstMatch (bytes "UaBCd") (bytes "bc")

found_at_2 : ci_find_substr (bytes "UaBCd") (bytes "bc") ≡ pos 2
unfolding ci_find_substr
found_at_2 = refl

abbrev format : Format
format = record {
  log_timestamps = true;
  log_time_micros = false;
  log_thread_names = true;
  date = λ now. bytes "day";
  micros = λ now. bytes ".000001";
  thread_line = λ name s. name ++ s;
}

abbrev call : Call
call = record { thread_name = bytes "tool "; now = 5; can_open = true }

abbrev unopened : LogFile
unopened = record { started_new_line = true; opened = false; written = [] }

abbrev one_line : LogFile
one_line = record { started_new_line = true; opened = true; written = bytes "day tool hi\n" }

abbrev name_head : Text → Text
name_head name = name

write_str-stamp_example :
    (one_line.written
      ≡ unopened.written ++ (stamp format name_head call unopened.started_new_line ++ bytes "hi\n"))
    × (length one_line.written ≡ length unopened.written + 12)
    × ((bytes "hi\n" ≡ []) ⊎ (one_line.started_new_line ≡ ends_with_newline one_line.written))
unfolding write_str ends_with_newline get_timestamp_str get_thread_name_str
write_str-stamp_example =
    write_str-stamp format name_head call (bytes "hi\n") unopened one_line 12 (λ t s. refl) refl

abbrev system : System
system = record { network = main_net; debug_levels = pos 1 ∷ []; log_levels = pos 2 ∷ [] }

abbrev empty_log : Log
empty_log = record { screen = []; file = unopened }

abbrev logged_line : Log
logged_line = record { screen = []; file = one_line }

tool_log_routes_example :
    (logged_line.screen
      ≡ empty_log.screen ++ (if shown format name_head system (pos 2) then bytes "hi\n" else []))
    × (logged_line.file.written
        ≡ empty_log.file.written
          ++ (if logged format name_head system (pos 2)
              then stamp format name_head call empty_log.file.started_new_line ++ bytes "hi\n"
              else []))
unfolding tool_log has_level ends_with_newline vsprintf get_timestamp_str get_thread_name_str
tool_log_routes_example =
    tool_log_routes format name_head system call (pos 2) (bytes "hi\n") empty_log logged_line 12
      (λ t s. refl) (omega arith) refl

tool_log-eq-none_example : (tool_log format system call (pos 2) (bytes "hi\n") empty_log ≡ none) ↔ (
    (1000 ≤ length (bytes "hi\n"))
    ⊎ ((logged format name_head system (pos 2) ≡ true)
        × ((empty_log.file.opened || call.can_open) ≡ false)))
tool_log-eq-none_example =
    tool_log-eq-none format name_head system call (pos 2) (bytes "hi\n") empty_log
