-- ===== src/Reward/Totals/Bounds.antt =====
-- The sums of `RewardStatistics` fit 64 bits where what is due does.
use coin_tool.Base.{ℕ, zero, suc, ◌+◌, ◌*◌, ◌^◌, ◌≤◌, ◌<◌, ◌≡◌, arith}
use coin_tool.Base.Int.{ℤ, pos, ◌+ℤ◌}
use coin_tool.Reward.{Consensus, period_loop, no_sums, grand_total}
use coin_tool.Reward.Totals.{sum_heights, all_due}
use coin_tool.Reward.Totals.Loop.{span, period_loop-worth, grand_total-worth}

sum_heights-le : (f : ℤ → ℕ) (b n : ℕ) (h : ℤ) → ((i : ℤ) → f i ≤ b) → sum_heights f h n ≤ n * b
unfolding sum_heights
sum_heights-le f b zero h le = omega arith
sum_heights-le f b (suc n) h le =
    let split : suc n * b ≡ b + n * b = grind arith in
    omega (arith, le h, sum_heights-le f b n (h +ℤ pos 1) le)

mul_le : (a b c : ℕ) → a ≤ b → a * c ≤ b * c
mul_le a b zero le = grind arith
mul_le a b (suc c) le = grind (arith, mul_le a b c le)

below_trans : (a p q m : ℕ) → a ≤ p → p ≤ q → q < m → a < m
below_trans a p q m h h' lt = omega arith

module _ (c : Consensus) where
  -- If no height is due more than `b`, and `b` for each height of `n` periods of `y` years fits a
  -- signed 64-bit number, then after every number of periods up to `n` the sums of coins over all
  -- receivers, those of rests, and the total's coins and rest fit one too.
  pub grand_total-lt :
      (y i n b : ℕ)
      → i ≤ n
      → ((h : ℤ) → all_due c h ≤ b)
      → n * span y * b < 2 ^ 63
      → let s = (period_loop c (pos y) 1 i no_sums).0 in
        (s.mr + s.bd + s.mn + s.fr < 2 ^ 63)
        × (s.mr_small + s.bd_small + s.mn_small + s.fr_small < 2 ^ 63)
        × ((grand_total s).coin < 2 ^ 63)
        × ((grand_total s).small < 2 ^ 63)
  grand_total-lt y i n b le due fits =
      let s = (period_loop c (pos y) 1 i no_sums).0 in
      let heights = sum_heights-le (all_due c) b (i * span y) (pos 0) due in
      let fewer : i * span y * b ≤ n * span y * b = mul_le _ _ b (mul_le i n (span y) le) in
      let total = grand_total-worth c y i in
      let start : 0 * span y ≡ 0 = omega arith in
      let counted = rw start at (period_loop-worth c y 0 i no_sums) in
      let bound = below_trans _ _ _ (2 ^ 63) heights fewer fits in
      (
        omega (arith, bound, counted),
        omega (arith, bound, counted),
        omega (arith, bound, total.0),
        omega (arith, bound, total.0),
      )
