-- ===== src/Reward/Commands.antt =====
-- The reward commands of `common/rewardtool.cpp`.
pub mod Laws
use coin_tool.Base.{
  ℕ, ◌+◌, ◌/◌, Bool, true, false, Option, none, some, List, [], ◌∷◌, ◌++◌, if◌then◌else◌, Text,
  bytes,
}
use coin_tool.Base.Int.{ℤ, pos, negsuc, leb_ℤ}
use coin_tool.Base.Dict.{contains, values}
use coin_tool.Base.Output.{Out, lit, text, int, setw, endl}
use coin_tool.Number.{atoi}
use coin_tool.Utils.Argv.{lacks, argument, help}
use coin_tool.Utils.Config.{Settings, Entry, read_current_file}
use coin_tool.Reward.{Consensus, coin_unit, reward_statistics}

abbrev pub row_header : Out
row_header =
    lit
      "    height        MinerSubsidy              Budget    MasternodePayment     FoundersReward        BlockSubsidy"
    ∷ endl
    ∷ []

-- A line of the table: the height and five amounts in whole coins.
abbrev pub row : ℤ → ℕ → ℕ → ℕ → ℕ → ℕ → Out
row h miner budget mnode founders block =
    setw 10
    ∷ int h
    ∷ setw 20
    ∷ int (pos miner)
    ∷ setw 20
    ∷ int (pos budget)
    ∷ setw 20
    ∷ int (pos mnode)
    ∷ setw 20
    ∷ int (pos founders)
    ∷ setw 20
    ∷ int (pos block)
    ∷ endl
    ∷ []

module _ (c : Consensus) where
  unfoldable pub block_reward : List Text → Out
  block_reward argv =
      if lacks argv 2
      then help "Command \"blockreward\" example :" "blockreward blockheight"
      else let h = atoi (argument argv 1) in
        let super = c.is_superblock h in
        let budget = if super then if leb_ℤ c.payments_start h then c.budget h else 0 else 0 in
        let founders = if super then c.founders_reward h else 0 in
        let miner = c.miner_subsidy h in
        let mstnd = c.masternode_payment h in
        row_header
        ++ row h (miner / coin_unit) (budget / coin_unit) (mstnd / coin_unit) (founders / coin_unit)
            ((budget + founders + miner + mstnd) / coin_unit)

  unfoldable pub reward_statistics_handle : List Text → Out
  reward_statistics_handle argv =
      if lacks argv 3
      then help "Command \"rewardstatistics\" example :" "rewardstatistics years count"
      else reward_statistics c (atoi (argument argv 1)) (atoi (argument argv 2))

  -- The chain library's `atoi(const std::string&)` and the files that can be opened are parameters.
  module _ (atoi_string : Text → ℤ) where
    unfoldable pub height_row : Text → Out
    height_row str =
        let h = atoi_string str in
        let super = c.is_superblock h in
        row h (c.miner_subsidy h / coin_unit) (if super then c.budget h / coin_unit else 0)
          (c.masternode_payment h / coin_unit)
          (if super then c.founders_reward h / coin_unit else 0) (c.block_subsidy h / coin_unit)

    unfoldable pub height_rows : List Text → Out
    unfolding height_row
    height_rows [] = []
    height_rows (str ∷ strs) = height_row str ++ height_rows strs

    unfoldable pub reward_handle : Settings → Out
    unfolding height_rows
    reward_handle s =
        (if contains (bytes "-height") s.args
          then row_header ++ height_rows (values (bytes "-height") s.multi)
          else [])
        ++ (reward_statistics c (pos 1) (pos 4) ++ reward_statistics c (pos 4) (pos 5))

    -- The settings are changed by the file; `none` is a write behind the buffer of `showerror`.
    unfoldable pub reward_example :
        (Text → Option (List Entry)) → Settings → List Text → Option (Settings × Out)
    unfolding reward_handle
    reward_example open_file s argv =
        if lacks argv 2
        then some (s, help "Command \"rewardexample\" example :" "rewardexample filename")
        else elim (read_current_file atoi_string open_file s (argument argv 1)) [
          | none ↦ none
          | some (s', success, out) ↦
              if success
              then some (s', out ++ reward_handle s')
              else some (
                s',
                out ++ (lit "read file " ∷ text (argument argv 1) ∷ lit " failed" ∷ endl ∷ []),
              )
        ]
