-- ===== src/Tests/Command.antt =====
-- Concrete runs of the dispatch in `tool/main.cpp`.
use coin_tool.Command.Startup.{Env, run_main, run_main_lem}
use coin_tool.Base.Dict.{lookup}
use coin_tool.Utils.Config.{Settings, get_coin_tool_dir}
use coin_tool.Utils.Init.{System, main_net}
use coin_tool.Base.{◌++◌, ◌≡◌, refl, none, some, [], ◌∷◌, bytes, text_eq}
use coin_tool.Base.Int.{pos}
use coin_tool.Command.{sign_msg, find_command, registrations, main}
use coin_tool.Command.Laws.{unknown_lines, main_lem, main_reaches}

main_lem_example :
    let d = main (bytes "tool" ∷ bytes "checkkey" ∷ []) in
    (d.status ≡ pos 0)
    × (d.call ≡ find_command (bytes "checkkey") registrations)
    × (d.out ≡ unknown_lines (bytes "checkkey") (find_command (bytes "checkkey") registrations))
main_lem_example = main_lem (bytes "tool") (bytes "checkkey") []

-- "checkkey" is no command.
checkkey_missing : find_command (bytes "checkkey") registrations ≡ none
unfolding find_command text_eq
checkkey_missing = refl

main_reaches_example : (main (bytes "tool" ∷ bytes "signmsg" ∷ [])).call ≡ some sign_msg
main_reaches_example = main_reaches 1 (bytes "signmsg") sign_msg (bytes "tool") [] refl

-- A library with an empty configuration file.
abbrev env : Env
env = record {
  home = some (bytes "/home/u");
  join = λ a b. a ++ (bytes "/" ++ b);
  get_config_file = λ s. bytes "tool.conf";
  read_config_file = λ s. s;
  atoi = λ s. pos 0;
  get_bool_arg = λ s k b. b;
}

abbrev no_settings : Settings
no_settings = record { args = []; multi = [] }

abbrev fresh : System
fresh = record { network = main_net; debug_levels = []; log_levels = [] }

run_main_lem_example :
    let r = run_main env no_settings fresh (bytes "tool" ∷ bytes "gettime" ∷ []) in
    (lookup (bytes "-datadir") r.settings.args ≡ some (get_coin_tool_dir env.home env.join))
    × (lookup (bytes "-conf") r.settings.args
        ≡ some (env.join (get_coin_tool_dir env.home env.join) (bytes "tool.conf")))
    × (r.dispatched.call ≡ find_command (bytes "gettime") registrations)
run_main_lem_example =
    run_main_lem env no_settings fresh (bytes "tool") (bytes "gettime") [] (λ t k v h. h)
