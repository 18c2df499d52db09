-- ===== src/Command.antt =====
-- `tool/main.cpp`: the table of commands, and the dispatch of `main`.
pub mod Laws
pub mod Startup
use coin_tool.Base.{
  ℕ, Bool, true, false, Option, none, some, List, [], ◌∷◌, ◌++◌, length, ltb, get_or, if◌then◌else◌,
  Text, text_eq, text_lt, bytes,
}
use coin_tool.Base.Int.{ℤ, pos, negsuc}
use coin_tool.Base.Output.{Out, lit, text, endl}
use coin_tool.Utils.Argv.{cmdindex}

-- The functions that the table points to.
pub data Handler : Type 0 where
  show_cmds sign_msg sign_verify compact_sign_handle compact_verify_handle new_address : Handler
  send_alert_handle get_time_handle block_reward reward_statistics_handle reward_example : Handler
  genesis_look_for find_address priv_key show_version get_tust get_rpc_authorization : Handler
  get_mem_pool_info : Handler

-- `map<string, FP_CMD>`: the entries in the order of their keys.
abbrev pub CommandMap : Type 0
CommandMap = List (Text × Handler)

-- The standard library's `insert`: a key that is there is left as it is.
unfoldable pub insert_command : Text → Handler → CommandMap → CommandMap
insert_command k h [] = (k, h) ∷ []
insert_command k h ((j, g) ∷ m) =
    let rest = insert_command k h m in
    if text_lt k j then (k, h) ∷ (j, g) ∷ m else if text_lt j k then (j, g) ∷ rest else (j, g) ∷ m

-- The standard library's `find`; `none` is `end()`.
unfoldable pub find_command : Text → CommandMap → Option Handler
find_command k [] = none
find_command k ((j, h) ∷ m) = if text_eq j k then some h else find_command k m

-- The insertions of `RegisterCmd`, in order.
abbrev pub registrations : List (Text × Handler)
registrations =
    (bytes "help", show_cmds)
    ∷ (bytes "signmsg", sign_msg)
    ∷ (bytes "verifymsg", sign_verify)
    ∷ (bytes "compactsign", compact_sign_handle)
    ∷ (bytes "compactverify", compact_verify_handle)
    ∷ (bytes "newaddress", new_address)
    ∷ (bytes "sendalert", send_alert_handle)
    ∷ (bytes "gettime", get_time_handle)
    ∷ (bytes "blockreward", block_reward)
    ∷ (bytes "rewardstatistics", reward_statistics_handle)
    ∷ (bytes "rewardexample", reward_example)
    ∷ (bytes "genesis", genesis_look_for)
    ∷ (bytes "findaddress", find_address)
    ∷ (bytes "privkey", priv_key)
    ∷ (bytes "version", show_version)
    ∷ (bytes "getdust", get_tust)
    ∷ (bytes "getrpc", get_rpc_authorization)
    ∷ (bytes "getmempoolinfo", get_mem_pool_info)
    ∷ []

unfoldable pub register_all : List (Text × Handler) → CommandMap → CommandMap
unfolding insert_command
register_all [] m = m
register_all ((k, h) ∷ rs) m = register_all rs (insert_command k h m)

unfoldable pub register_cmd : CommandMap → CommandMap
unfolding register_all
register_cmd m = register_all registrations m

unfoldable pub command_lines : CommandMap → Out
command_lines [] = []
command_lines ((k, h) ∷ m) = text k ∷ endl ∷ command_lines m

abbrev pub commands_bar : Out
commands_bar = lit "********* commands *********" ∷ endl ∷ []

unfoldable pub show_commands : CommandMap → Out
unfolding command_lines
show_commands m = commands_bar ++ (command_lines m ++ commands_bar)

-- What `main` does after the table is filled: the exit status, what is printed, and the handler that
-- is called with the arguments, if one is.
pub record Dispatch : Type 0 where
  pub status : ℤ
  pub out : Out
  pub call : Option Handler

unfoldable pub dispatch : CommandMap → List Text → Dispatch
unfolding show_commands
dispatch m argv =
    if ltb (length argv) 2
    then record { status = negsuc 0; out = show_commands m; call = none }
    else let strcmd = get_or argv cmdindex [] in
      elim (find_command strcmd m) [
        | none ↦ record {
          status = pos 0;
          out = lit "Error: unknown method " ∷ text strcmd ∷ endl ∷ [];
          call = none;
        }
        | some h ↦ record { status = pos 0; out = []; call = some h }
      ]

unfoldable pub main : List Text → Dispatch
main argv = dispatch (register_cmd []) argv
