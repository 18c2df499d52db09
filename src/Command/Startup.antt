-- ===== src/Command/Startup.antt =====
-- `main` of `tool/main.cpp` as a whole: the settings and the system state before the dispatch.
use coin_tool.Base.{◌≡◌, ◌∙◌, Bool, Option, some, List, ◌∷◌, ◌++◌, Text, text_eq, bytes}
use coin_tool.Base.Int.{ℤ}
use coin_tool.Base.Dict.{lookup, insert, lookup-insert}
use coin_tool.Base.Output.{Out}
use coin_tool.Utils.Config.{Settings, get_coin_tool_dir, set_file_path}
use coin_tool.Utils.Init.{System, init_sys}
use coin_tool.Command.{Dispatch, main, find_command, registrations}
use coin_tool.Command.Laws.{main_lem}

-- The environment and the chain library: HOME, the path operations of boost, `GetConfigFile`,
-- `ReadConfigFile`, `atoi` and `GetBoolArg`.
pub record Env : Type 0 where
  pub home : Option Text
  pub join : Text → Text → Text
  pub get_config_file : Settings → Text
  pub read_config_file : Settings → Settings
  pub atoi : Text → ℤ
  pub get_bool_arg : Settings → Text → Bool → Bool

-- What a run of `main` leaves: the settings and the system state that the handler is called with,
-- what is printed before the call, and the dispatch.
pub record Run : Type 0 where
  pub settings : Settings
  pub system : System
  pub out : Out
  pub dispatched : Dispatch

module _ (env : Env) where
  -- `SetFilePath`, `ReadConfigFile`, `InitSys`, and the dispatch over the table.
  unfoldable pub run_main : Settings → System → List Text → Run
  run_main s sys argv =
      let (s', shown) = set_file_path env.home env.join env.get_config_file (bytes "tool.conf") s in
      let s'' = env.read_config_file s' in
      let (sys', selected) = init_sys env.atoi env.get_bool_arg s'' sys in
      let d = main argv in
      record { settings = s''; system = sys'; out = shown ++ (selected ++ d.out); dispatched = d }

  -- A command's handler is called with the directory and the file of the tool in the settings, whatever
  -- they were before, if reading the configuration keeps a setting that is there; the handler is the
  -- first one that is registered for the name, whatever the settings are.
  pub run_main_lem :
      (s : Settings) (sys : System) (prog cmd : Text) (rest : List Text)
      → ((t : Settings) (k v : Text)
          → lookup k t.args ≡ some v
          → lookup k (env.read_config_file t).args ≡ some v)
      → let r = run_main s sys (prog ∷ cmd ∷ rest) in
        (lookup (bytes "-datadir") r.settings.args ≡ some (get_coin_tool_dir env.home env.join))
        × (lookup (bytes "-conf") r.settings.args
            ≡ some (env.join (get_coin_tool_dir env.home env.join) (bytes "tool.conf")))
        × (r.dispatched.call ≡ find_command cmd registrations)
  unfolding run_main set_file_path text_eq
  run_main_lem s sys prog cmd rest keeps =
      let dir = get_coin_tool_dir env.home env.join in
      let conf = env.join dir (bytes "tool.conf") in
      let with_dir = insert (bytes "-datadir") dir s.args in
      (
        keeps _ _ _ (
            lookup-insert (bytes "-datadir") (bytes "-conf") conf with_dir
            ∙ lookup-insert (bytes "-datadir") (bytes "-datadir") dir s.args),
        keeps _ _ _ (lookup-insert (bytes "-conf") (bytes "-conf") conf with_dir),
        (main_lem prog cmd rest).1,
      )
