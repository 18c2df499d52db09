-- ===== src/Tests/Reward.antt =====
-- Concrete runs of the functions of `common/rewardtool.cpp` over a small network.
use coin_tool.Reward.Totals.Bounds.{grand_total-lt}
use coin_tool.Base.{
  take, ◌^◌, ◌<◌, ℕ, ◌+◌, ◌*◌, ◌/◌, ◌%◌, ◌≤◌, ◌≡◌, refl, ◌↔◌, ◌⊎◌, true, false, [], ◌∷◌, ◌++◌,
  arith, if◌then◌else◌, bytes,
}
use coin_tool.Base.Int.{pos, leb_ℤ, eqb_ℤ}
use coin_tool.Number.{atoi, decimal}
use coin_tool.Reward.{Consensus, Sum, coin_unit, add_reward, period_loop, no_sums, grand_total}
use coin_tool.Reward.Amounts.{worth, add_reward-small_eq}
use coin_tool.Reward.Totals.{sum_heights, budget_due, all_due}
use coin_tool.Reward.Totals.Loop.{span, grand_total-worth}
use coin_tool.Reward.Commands.{row_header, row, block_reward, height_row}
use coin_tool.Reward.Commands.Laws.{block_reward_lem, height_row-block_reward, numbers}

-- Payments start at height 3, and every height but 0 is a superblock.
abbrev small_net : Consensus
small_net = record {
  miner_subsidy = λ h. 250000000;
  budget = λ h. 150000000;
  masternode_payment = λ h. 100000000;
  founders_reward = λ h. 50000000;
  block_subsidy = λ h. 550000000;
  is_superblock = λ h. if eqb_ℤ h (pos 0) then false else true;
  payments_start = pos 3;
}

abbrev half : Sum
half = record { coin = 1; small = 50000000 }

add_reward-small_eq_example :
    ((add_reward 250000000 half).small ≡ coin_unit)
    ↔ (half.small + 250000000 % coin_unit ≡ coin_unit)
add_reward-small_eq_example = add_reward-small_eq 250000000 half (omega arith)

-- The rest stays at one whole coin.
rest_of_one_coin : (add_reward 250000000 half).small ≡ 100000000
unfolding add_reward
rest_of_one_coin = refl

grand_total-worth_example :
    let total = grand_total (period_loop small_net (pos 1) 1 4 no_sums).0 in
    (worth total ≡ sum_heights (all_due small_net) (pos 0) (4 * span 1)) × (total.small ≤ coin_unit)
grand_total-worth_example = grand_total-worth small_net 1 4

block_reward_lem_example :
    (total : ℕ) × (block_reward small_net (bytes "tool" ∷ bytes "blockreward" ∷ decimal 2 ∷ [])
      ≡ row_header
        ++ row
            (pos 2)
            (small_net.miner_subsidy (pos 2) / coin_unit)
            (budget_due small_net (pos 2) / coin_unit)
            (small_net.masternode_payment (pos 2) / coin_unit)
            ((if small_net.is_superblock (pos 2) then small_net.founders_reward (pos 2) else 0)
              / coin_unit)
            total)
    × (small_net.miner_subsidy (pos 2) / coin_unit
          + budget_due small_net (pos 2) / coin_unit
          + small_net.masternode_payment (pos 2) / coin_unit
          + (if small_net.is_superblock (pos 2) then small_net.founders_reward (pos 2) else 0)
            / coin_unit
        ≤ total)
    × (total
        ≤ small_net.miner_subsidy (pos 2) / coin_unit
          + budget_due small_net (pos 2) / coin_unit
          + small_net.masternode_payment (pos 2) / coin_unit
          + (if small_net.is_superblock (pos 2) then small_net.founders_reward (pos 2) else 0)
            / coin_unit
          + 3)
block_reward_lem_example = block_reward_lem small_net (bytes "tool") (bytes "blockreward") 2 []

height_row-block_reward_example :
    (take 5 (numbers (height_row small_net atoi (bytes "2")))
      ≡ take 5
          (numbers (block_reward small_net (bytes "tool" ∷ bytes "blockreward" ∷ decimal 2 ∷ []))))
    ↔ ((small_net.is_superblock (pos 2) ≡ false)
        ⊎ (leb_ℤ small_net.payments_start (pos 2) ≡ true)
        ⊎ (small_net.budget (pos 2) / coin_unit ≡ 0))
unfolding atoi
height_row-block_reward_example =
    height_row-block_reward small_net atoi (bytes "2") (bytes "tool") (bytes "blockreward") 2 []
      refl

grand_total-lt_example :
    let s = (period_loop small_net (pos 1) 1 3 no_sums).0 in
    (s.mr + s.bd + s.mn + s.fr < 2 ^ 63)
    × (s.mr_small + s.bd_small + s.mn_small + s.fr_small < 2 ^ 63)
    × ((grand_total s).coin < 2 ^ 63)
    × ((grand_total s).small < 2 ^ 63)
grand_total-lt_example =
    grand_total-lt small_net 1 3 4 550000000 (omega arith) (λ h. ground arith) (omega arith)
