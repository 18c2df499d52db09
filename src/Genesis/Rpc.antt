-- ===== src/Genesis/Rpc.antt =====
-- `GetRPCAuthorization` and `GetTimeHandle` of `common/genesis.cpp`.
pub mod Laws
use coin_tool.Base.{ℕ, Bool, true, false, List, [], ◌∷◌, ◌++◌, if◌then◌else◌, Text, bytes}
use coin_tool.Base.Int.{ℤ, pos}
use coin_tool.Base.Output.{Out, lit, text, int, endl}
use coin_tool.Chain.{Crypto}
use coin_tool.Utils.Argv.{lacks, argument, help}

unfoldable pub get_rpc_authorization : Crypto → List Text → Out
get_rpc_authorization C argv =
    if lacks argv 3
    then lit "Command \"getrpc\" example :"
      ∷ endl
      ∷ endl
      ∷ lit "getrpc rpcuser rpcpassword ..."
      ∷ endl
      ∷ lit "getrpc \"thgy\" \"123\""
      ∷ endl
      ∷ []
    else let user = argument argv 1 in
      let password = argument argv 2 in
      lit "rpcuser="
      ∷ text user
      ∷ lit ", rpcpassword="
      ∷ text password
      ∷ endl
      ∷ lit "Basic "
      ∷ text (C.encode_base64 (user ++ (bytes ":" ++ password)))
      ∷ endl
      ∷ []

-- The chain library's clocks are arguments: the time in seconds, microseconds and milliseconds, and
-- the date that `DateTimeStrFormat` makes of the first.
unfoldable pub get_time_handle : (ℕ → Text) → ℕ → ℕ → ℕ → Out
get_time_handle date now micros millis =
    lit "Time is "
    ∷ text (date now)
    ∷ endl
    ∷ lit "<"
    ∷ int (pos now)
    ∷ lit ">,<"
    ∷ int (pos micros)
    ∷ lit ">,<"
    ∷ int (pos millis)
    ∷ lit ">"
    ∷ endl
    ∷ []
