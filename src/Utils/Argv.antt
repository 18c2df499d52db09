-- ===== src/Utils/Argv.antt =====
-- The arguments of a command: `argc` and `argv`, and `cmdindex` of `common/utils.h`.
use coin_tool.Base.{ℕ, ◌+◌, Bool, List, [], ◌∷◌, length, get_or, ltb, String, Text}
use coin_tool.Base.Output.{Out, lit, endl}

-- `cmdindex`: where the name of the command stands in `argv`
abbrev pub cmdindex : ℕ
cmdindex = 1

-- `argc < cmdindex + n`
abbrev pub lacks : List Text → ℕ → Bool
lacks argv n = ltb (length argv) (cmdindex + n)

-- `argv[cmdindex + n]`, which is there where the program has tested `argc`
abbrev pub argument : List Text → ℕ → Text
argument argv n = get_or argv (cmdindex + n) []

abbrev pub help : String → String → Out
help command use_line = lit command ∷ endl ∷ endl ∷ lit use_line ∷ endl ∷ endl ∷ []
