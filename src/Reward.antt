-- ===== src/Reward.antt =====
-- `common/rewardtool.cpp`: amounts in whole coins and rests, and the rewards of a range of heights.
-- An amount is a number of the smallest unit, and no amount of the chain is negative.
pub mod Amounts
pub mod Totals
pub mod Commands
pub mod Fees
use coin_tool.Base.{
  ℕ, zero, suc, ◌+◌, ◌-◌, ◌*◌, ◌/◌, ◌%◌, Bool, true, false, List, [], ◌∷◌, ◌++◌, ltb, ◌==◌,
  if◌then◌else◌, Text,
}
use coin_tool.Base.Int.{ℤ, pos, negsuc, pos_part, ◌+ℤ◌, ◌-ℤ◌, ◌*ℤ◌, leb_ℤ, eqb_ℤ}
use coin_tool.Base.Output.{Out, lit, text, int, setw, endl}
use coin_tool.Utils.Rank.{get_rank_string}

-- The chain library's reward functions with the parameters of the selected network, and `COIN`.
pub record Consensus : Type 0 where
  pub miner_subsidy : ℤ → ℕ
  pub budget : ℤ → ℕ
  pub masternode_payment : ℤ → ℕ
  pub founders_reward : ℤ → ℕ
  pub block_subsidy : ℤ → ℕ
  pub is_superblock : ℤ → Bool
  pub payments_start : ℤ

abbrev pub coin_unit : ℕ
coin_unit = 100000000

-- A sum in whole coins and a rest, such as `aMiner` and `aMinersmall`.
pub record Sum : Type 0 where
  pub coin : ℕ
  pub small : ℕ

abbrev pub no_sum : Sum
no_sum = record { coin = 0; small = 0 }

unfoldable pub add_reward : ℕ → Sum → Sum
add_reward value s =
    let coin' = s.coin + value / coin_unit in
    let small' = s.small + value % coin_unit in
    if ltb coin_unit small'
    then record { coin = coin' + small' / coin_unit; small = small' % coin_unit }
    else record { coin = coin'; small = small' }

-- The sums of one period, by receiver.
pub record Period : Type 0 where
  pub miner : Sum
  pub bud : Sum
  pub mnode : Sum
  pub founders : Sum

abbrev pub no_period : Period
no_period = record { miner = no_sum; bud = no_sum; mnode = no_sum; founders = no_sum }

-- The running sums of `RewardStatistics`: whole coins, rests, and the last height.
pub record Sums : Type 0 where
  pub mr : ℕ
  pub bd : ℕ
  pub mn : ℕ
  pub fr : ℕ
  pub mr_small : ℕ
  pub bd_small : ℕ
  pub mn_small : ℕ
  pub fr_small : ℕ
  pub lasth : ℤ

abbrev pub no_sums : Sums
no_sums = record {
  mr = 0;
  bd = 0;
  mn = 0;
  fr = 0;
  mr_small = 0;
  bd_small = 0;
  mn_small = 0;
  fr_small = 0;
  lasth = pos 0;
}

-- `aBlocks` and `aBlockssmall`
unfoldable pub blocks_of : Period → Sum
blocks_of p =
    add_reward (p.miner.small + p.bud.small + p.mnode.small + p.founders.small)
      (record { coin = p.miner.coin + p.bud.coin + p.mnode.coin + p.founders.coin; small = 0 })

-- The first height of period `i`, and the height behind its last; C leaves the product open where
-- it is no `int`.
unfoldable pub low_height : ℤ → ℕ → ℤ
low_height years i = (pos i -ℤ pos 1) *ℤ pos 210240 *ℤ years

unfoldable pub high_height : ℤ → ℕ → ℤ
high_height years i = pos i *ℤ pos 210240 *ℤ years

unfoldable pub add_period : ℤ → ℕ → Period → Sums → Sums
add_period years i p s = record {
  mr = s.mr + p.miner.coin;
  bd = s.bd + p.bud.coin;
  mn = s.mn + p.mnode.coin;
  fr = s.fr + p.founders.coin;
  mr_small = s.mr_small + p.miner.small;
  bd_small = s.bd_small + p.bud.small;
  mn_small = s.mn_small + p.mnode.small;
  fr_small = s.fr_small + p.founders.small;
  lasth = high_height years i -ℤ pos 1;
}

unfoldable pub period_row : ℤ → ℕ → Period → Out
unfolding low_height high_height blocks_of
period_row years i p =
    setw 2
    ∷ int (pos i)
    ∷ lit " x"
    ∷ int years
    ∷ lit "     "
    ∷ setw 9
    ∷ int (low_height years i)
    ∷ lit "--"
    ∷ setw 9
    ∷ int (high_height years i -ℤ pos 1)
    ∷ setw 20
    ∷ int (pos p.miner.coin)
    ∷ setw 20
    ∷ int (pos p.bud.coin)
    ∷ setw 20
    ∷ int (pos p.mnode.coin)
    ∷ setw 20
    ∷ int (pos p.founders.coin)
    ∷ setw 20
    ∷ int (pos (blocks_of p).coin)
    ∷ endl
    ∷ []

-- `aSumbk` and `asbksmall`
unfoldable pub grand_total : Sums → Sum
grand_total s =
    add_reward (s.mr_small + s.bd_small + s.mn_small + s.fr_small)
      (record { coin = s.mr + s.bd + s.mn + s.fr; small = 0 })

module _ (c : Consensus) where
  open c use {
    miner_subsidy, budget, masternode_payment, founders_reward, is_superblock, payments_start,
  }

  -- The body of the inner loop of `RewardStatistics`.
  unfoldable pub add_height : ℤ → Period → Period
  add_height h p =
      let first_block = eqb_ℤ (pos 1) h in
      let early = if first_block then add_reward (miner_subsidy h) p.founders else p.founders in
      record {
        miner = if first_block then p.miner else add_reward (miner_subsidy h) p.miner;
        mnode = add_reward (masternode_payment h) p.mnode;
        founders = if is_superblock h then add_reward (founders_reward h) early else early;
        bud =
            if is_superblock h
            then if leb_ℤ payments_start h then add_reward (budget h) p.bud else p.bud
            else p.bud;
      }

  -- The inner loop from height `h`, with the number of rounds that are left.
  unfoldable pub add_heights : ℤ → ℕ → Period → Period
  add_heights h zero p = p
  add_heights h (suc n) p = add_heights (h +ℤ pos 1) n (add_height h p)

  unfoldable pub period : ℤ → ℕ → Period
  unfolding add_heights low_height high_height
  period years i =
      add_heights (low_height years i) (pos_part (high_height years i -ℤ low_height years i))
        no_period

  -- The outer loop from period `i`, with the number of rounds that are left.
  unfoldable pub period_loop : ℤ → ℕ → ℕ → Sums → Sums × Out
  unfolding period add_period period_row
  period_loop years i zero s = (s, [])
  period_loop years i (suc n) s =
      let p = period years i in
      let (s', rows) = period_loop years (i + 1) n (add_period years i p s) in
      (s', period_row years i p ++ rows)

  unfoldable pub reward_statistics : ℤ → ℤ → Out
  unfolding period_loop grand_total
  reward_statistics years isum =
      let (s, rows) = period_loop years 1 (pos_part isum) no_sums in
      endl
      ∷ lit "The rewards in every "
      ∷ int years
      ∷ lit " years from 1st to "
      ∷ text (get_rank_string isum)
      ∷ lit " :"
      ∷ endl
      ∷ lit
          "year         height range              MinerSubsidy           Budget        MasternodePayment      FoundersReward       BlockSubsidy"
      ∷ endl
      ∷ (rows
          ++ (lit "total     "
              ∷ setw 9
              ∷ int (pos 0)
              ∷ lit "--"
              ∷ setw 9
              ∷ int s.lasth
              ∷ setw 20
              ∷ int (pos s.mr)
              ∷ setw 20
              ∷ int (pos s.bd)
              ∷ setw 20
              ∷ int (pos s.mn)
              ∷ setw 20
              ∷ int (pos s.fr)
              ∷ setw 20
              ∷ int (pos (grand_total s).coin)
              ∷ endl
              ∷ []))
