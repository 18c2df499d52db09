-- ===== src/Utils/Init.antt =====
-- `InitSys` of `common/utils.cpp`: the network, and the levels of `ToolLog`.
pub mod Laws
use coin_tool.Base.{
  ℕ, Bool, true, false, ◌||◌, Option, none, some, List, [], ◌∷◌, ◌++◌, ◌==◌, if◌then◌else◌, Text,
  bytes,
}
use coin_tool.Base.Int.{ℤ, eqb_ℤ}
use coin_tool.Base.Dict.{lookup, contains, values, value_or}
use coin_tool.Base.Output.{Out, lit}
use coin_tool.Utils.Config.{Settings}

pub data Network : Type 0 where
  main_net test_net : Network

-- `set<int>`, in the order of insertion
abbrev pub Levels : Type 0
Levels = List ℤ

unfoldable pub has_level : Levels → ℤ → Bool
has_level [] n = false
has_level (m ∷ ls) n = eqb_ℤ m n || has_level ls n

unfoldable pub insert_level : ℤ → Levels → Levels
unfolding has_level
insert_level n ls = if has_level ls n then ls else ls ++ (n ∷ [])

pub record System : Type 0 where
  pub network : Network
  pub debug_levels : Levels
  pub log_levels : Levels

-- The chain library's `atoi(const std::string&)` and `GetBoolArg` are parameters.
module _ (atoi : Text → ℤ) where
  -- The loop over the values of a key: each round inserts the key's value in `mapArgs`.
  unfoldable pub insert_rounds : Text → Settings → List Text → Levels → Levels
  insert_rounds k s [] ls = ls
  insert_rounds k s (str ∷ strs) ls =
      insert_rounds k s strs (insert_level (atoi (value_or (lookup k s.args) [])) ls)

  unfoldable pub init_levels : Text → Settings → Levels → Levels
  unfolding insert_rounds
  init_levels k s ls = if contains k s.args then insert_rounds k s (values k s.multi) ls else ls

  unfoldable pub init_sys : (Settings → Text → Bool → Bool) → Settings → System → System × Out
  unfolding init_levels
  init_sys get_bool_arg s sys =
      let test = get_bool_arg s (bytes "-testnet") false in
      (
        record {
          network = if test then test_net else main_net;
          debug_levels = init_levels (bytes "-debug") s sys.debug_levels;
          log_levels = init_levels (bytes "-log") s sys.log_levels;
        },
        (if test then lit "Info: select TEST net!\n" else lit "Info: select MAIN net!\n") ∷ [],
      )
