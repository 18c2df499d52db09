-- ===== src/Reward/Totals.antt =====
-- The sums of `RewardStatistics` against plain sums over the heights.
pub mod Loop
pub mod Bounds
use coin_tool.Base.{
  ℕ, zero, suc, ◌+◌, ◌-◌, ◌*◌, ◌≤◌, ◌<◌, ◌≡◌, refl, ◌∙◌, sym, ap, inl, inr, Bool, true, false, ◌&&◌,
  arith, ltb, Bool-cases, if◌then◌else◌,
}
use coin_tool.Base.Int.{
  ℤ, pos, negsuc, pos_part, neg_part, ◌+ℤ◌, ◌-ℤ◌, ◌*ℤ◌, ◌≤ℤ◌, leb_ℤ, eqb_ℤ, int_laws, eq_of_parts,
}
use coin_tool.Reward.{
  Consensus, Sum, Period, Sums, coin_unit, add_reward, add_height, add_heights, no_period, period,
  low_height, high_height, add_period, period_loop, grand_total, blocks_of, no_sums,
}
use coin_tool.Reward.Amounts.{worth, add_reward_lem, worth-add_reward}

-- The sum of an amount over `n` heights from `h` on.
pub sum_heights : (ℤ → ℕ) → ℤ → ℕ → ℕ
sum_heights f h zero = 0
sum_heights f h (suc n) = f h + sum_heights f (h +ℤ pos 1) n

module _ (c : Consensus) where
  open c use {
    miner_subsidy, budget, masternode_payment, founders_reward, is_superblock, payments_start,
  }

  -- What each receiver is due at a height: the subsidy of block 1 goes to the founders, and budget
  -- and founders are paid at superblocks, the budget from the start of masternode payments on.
  abbrev pub miner_due : ℤ → ℕ
  miner_due h = if eqb_ℤ (pos 1) h then 0 else miner_subsidy h

  abbrev pub budget_due : ℤ → ℕ
  budget_due h = if is_superblock h && leb_ℤ payments_start h then budget h else 0

  abbrev pub founders_due : ℤ → ℕ
  founders_due h =
      (if eqb_ℤ (pos 1) h then miner_subsidy h else 0)
      + (if is_superblock h then founders_reward h else 0)

  abbrev pub all_due : ℤ → ℕ
  all_due h = miner_due h + budget_due h + masternode_payment h + founders_due h

  add_height-worth :
      (h : ℤ) (p : Period)
      → let p' = add_height c h p in
        (worth p'.miner ≡ worth p.miner + miner_due h)
        × (worth p'.bud ≡ worth p.bud + budget_due h)
        × (worth p'.mnode ≡ worth p.mnode + masternode_payment h)
        × (worth p'.founders ≡ worth p.founders + founders_due h)
  unfolding add_height
  add_height-worth h p =
      let first = worth-add_reward (miner_subsidy h) p.founders in
      (
        ground (arith, worth-add_reward (miner_subsidy h) p.miner),
        ground (arith, worth-add_reward (budget h) p.bud),
        worth-add_reward (masternode_payment h) p.mnode,
        ground (
          arith,
          first,
          worth-add_reward (founders_reward h) p.founders,
          worth-add_reward (founders_reward h) (add_reward (miner_subsidy h) p.founders),
        ),
      )

  -- After the inner loop each sum stands for what its receiver is due over the heights.
  pub add_heights-worth :
      (h : ℤ) (n : ℕ) (p : Period)
      → let p' = add_heights c h n p in
        (worth p'.miner ≡ worth p.miner + sum_heights miner_due h n)
        × (worth p'.bud ≡ worth p.bud + sum_heights budget_due h n)
        × (worth p'.mnode ≡ worth p.mnode + sum_heights masternode_payment h n)
        × (worth p'.founders ≡ worth p.founders + sum_heights founders_due h n)
  unfolding add_heights sum_heights
  add_heights-worth h zero p = omega arith
  add_heights-worth h (suc n) p =
      ground (arith, add_height-worth h p, add_heights-worth (h +ℤ pos 1) n (add_height c h p))
