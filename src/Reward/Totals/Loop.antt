-- ===== src/Reward/Totals/Loop.antt =====
-- The outer loop of `RewardStatistics`: the periods join without gap or overlap, and the total stands
-- for everything that is due over all heights.
use coin_tool.Base.{ℕ, zero, suc, ◌+◌, ◌*◌, ◌^◌, ◌≤◌, ◌<◌, ◌≡◌, ◌∙◌, sym, ap, arith}
use coin_tool.Base.Int.{ℤ, pos, pos_part, ◌+ℤ◌, ◌-ℤ◌, ◌*ℤ◌, int_laws}
use coin_tool.Reward.{
  Consensus, Sum, Period, Sums, coin_unit, no_period, period, low_height, high_height, add_period,
  period_loop, grand_total, no_sums,
}
use coin_tool.Reward.Amounts.{worth, add_reward_lem}
use coin_tool.Reward.Totals.{
  sum_heights, miner_due, budget_due, founders_due, all_due, add_heights-worth,
}

-- The heights of a period of `y` years.
abbrev pub span : ℕ → ℕ
span y = 210240 * y

mul_pos : (a b : ℕ) → pos a *ℤ pos b ≡ pos (a * b)
unfolding ◌*ℤ◌
mul_pos a b = ground arith

difference : (a w : ℕ) → pos (w + a) -ℤ pos a ≡ pos w
difference a w = omega int_laws

low_height_pos : (j y : ℕ) → low_height (pos y) (suc j) ≡ pos (j * span y)
unfolding low_height
low_height_pos j y =
    let before : pos (suc j) -ℤ pos 1 ≡ pos j = omega int_laws in
    rw (before, mul_pos j 210240, mul_pos (j * 210240) y) (ap pos (omega arith))

high_height_pos : (i y : ℕ) → high_height (pos y) i ≡ pos (i * span y)
unfolding high_height
high_height_pos i y = rw (mul_pos i 210240, mul_pos (i * 210240) y) (ap pos (omega arith))

difference_path : (j y : ℕ) → pos (suc j * span y) -ℤ pos (j * span y) ≡ pos (span y)
difference_path j y =
    let split : suc j * span y ≡ span y + j * span y = omega arith in
    rw split (difference (j * span y) (span y))

-- The periods of `y` years follow one another: each ends where the next begins, and has a span's
-- number of heights.
pub period_bounds :
    (j y : ℕ)
    → (low_height (pos y) 1 ≡ pos 0)
      × (high_height (pos y) (suc j) ≡ low_height (pos y) (suc (suc j)))
      × (high_height (pos y) (suc j) -ℤ low_height (pos y) (suc j) ≡ pos (span y))
period_bounds j y = (
  low_height_pos 0 y ∙ ap pos (omega arith),
  high_height_pos (suc j) y ∙ sym (low_height_pos (suc j) y),
  rw (high_height_pos (suc j) y, low_height_pos j y) (difference_path j y),
)

-- Every period's bounds fit an `int`, if the last period's upper bound does.
pub high_height-lt :
    (y i n : ℕ)
    → i ≤ n
    → n * span y < 2 ^ 31
    → (v : ℕ) × (high_height (pos y) i ≡ pos v) × (v < 2 ^ 31)
high_height-lt y i n le fits = (i * span y, high_height_pos i y, grind arith)

sum_heights-append :
    (f : ℤ → ℕ) (start a b : ℕ)
    → sum_heights f (pos start) (a + b)
      ≡ sum_heights f (pos start) a + sum_heights f (pos (start + a)) b
unfolding sum_heights
sum_heights-append f start zero b =
    let stay : start + 0 ≡ start = omega arith in
    let none_more : 0 + b ≡ b = omega arith in rw (stay, none_more) (omega arith)
sum_heights-append f start (suc a) b =
    let next : pos start +ℤ pos 1 ≡ pos (start + 1) = omega int_laws in
    let far : start + suc a ≡ start + 1 + a = omega arith in
    let count : suc a + b ≡ suc (a + b) = omega arith in
    rw (count, next, far) (omega (arith, sum_heights-append f (start + 1) a b))

-- What all sums of a period stand for, and all running sums with their rests.
abbrev pub period_worth : Period → ℕ
period_worth p = worth p.miner + worth p.bud + worth p.mnode + worth p.founders

abbrev pub sums_worth : Sums → ℕ
sums_worth s =
    (s.mr + s.bd + s.mn + s.fr) * coin_unit + (s.mr_small + s.bd_small + s.mn_small + s.fr_small)

add_period-worth :
    (years : ℤ) (i : ℕ) (p : Period) (s : Sums)
    → sums_worth (add_period years i p s) ≡ sums_worth s + period_worth p
unfolding add_period
add_period-worth years i p s = omega arith

module _ (c : Consensus) where
  sum_heights-all_due :
      (h : ℤ) (n : ℕ)
      → sum_heights (all_due c) h n
        ≡ sum_heights (miner_due c) h n
          + sum_heights (budget_due c) h n
          + sum_heights c.masternode_payment h n
          + sum_heights (founders_due c) h n
  unfolding sum_heights
  sum_heights-all_due h zero = omega arith
  sum_heights-all_due h (suc n) = omega (arith, sum_heights-all_due (h +ℤ pos 1) n)

  -- A period of `y` years stands for what is due from its first height on.
  pub period-worth :
      (j y : ℕ)
      → period_worth (period c (pos y) (suc j))
        ≡ sum_heights (all_due c) (pos (j * span y)) (span y)
  unfolding period
  period-worth j y =
      let rounds : pos_part (pos (suc j * span y) -ℤ pos (j * span y)) ≡ span y =
        ap pos_part (difference_path j y) in
      rw (low_height_pos j y, high_height_pos (suc j) y, rounds)
        (ground (
          arith,
          sum_heights-all_due (pos (j * span y)) (span y),
          add_heights-worth c (pos (j * span y)) (span y) no_period,
        ))

  pub period_loop-worth :
      (y j n : ℕ) (s : Sums)
      → sums_worth (period_loop c (pos y) (suc j) n s).0
        ≡ sums_worth s + sum_heights (all_due c) (pos (j * span y)) (n * span y)
  unfolding period_loop sum_heights
  period_loop-worth y j zero s =
      let nothing : 0 * span y ≡ 0 = omega arith in rw nothing (omega arith)
  period_loop-worth y j (suc n) s =
      let next : suc j + 1 ≡ suc (suc j) = omega arith in
      let split : suc n * span y ≡ span y + n * span y = omega arith in
      let behind : suc j * span y ≡ j * span y + span y = omega arith in
      let p = period c (pos y) (suc j) in
      let s' = add_period (pos y) (suc j) p s in
      rw (next, split)
        (omega (
          arith,
          period_loop-worth y (suc j) n s',
          add_period-worth (pos y) (suc j) p s,
          period-worth j y,
          sum_heights-append (all_due c) (j * span y) (span y) (n * span y),
          ap (λ (t : ℕ). sum_heights (all_due c) (pos t) (n * span y)) behind,
        ))

  -- With `n` periods of `y` years the total of `RewardStatistics`, with its rest, stands for exactly
  -- what is due over all heights below `n * 210240 * y`, and the rest does not exceed one coin: the
  -- whole coins that are printed fall short of the amount by at most one coin.
  pub grand_total-worth :
      (y n : ℕ)
      → let total = grand_total (period_loop c (pos y) 1 n no_sums).0 in
        (worth total ≡ sum_heights (all_due c) (pos 0) (n * span y)) × (total.small ≤ coin_unit)
  unfolding grand_total
  grand_total-worth y n =
      let s = (period_loop c (pos y) 1 n no_sums).0 in
      let start : 0 * span y ≡ 0 = omega arith in
      let rests = s.mr_small + s.bd_small + s.mn_small + s.fr_small in
      let coins : Sum = record { coin = s.mr + s.bd + s.mn + s.fr; small = 0 } in
      let added = add_reward_lem rests coins in
      let counted = rw start at (period_loop-worth y 0 n no_sums) in
      (omega (arith, added.0, counted), added.1)
