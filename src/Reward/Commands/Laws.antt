-- ===== src/Reward/Commands/Laws.antt =====
-- The tables of "blockreward" and of the `-height` settings.
use coin_tool.Base.Output.{Out, lit, text, int, setw, endl}
use coin_tool.Utils.Argv.{lacks}
use coin_tool.Base.{
  refl, inl, inr, Bool-cases, take, [], ℕ, ◌+◌, ◌/◌, ◌≤◌, ◌≡◌, ◌↔◌, ◌⊎◌, true, false, List, ◌∷◌,
  ◌++◌, arith, if◌then◌else◌, Text,
}
use coin_tool.Base.Int.{ℤ, pos, leb_ℤ}
use coin_tool.Number.{decimal}
use coin_tool.Number.RoundTrip.{atoi-decimal_self}
use coin_tool.Reward.{Consensus, coin_unit}
use coin_tool.Reward.Totals.{budget_due}
use coin_tool.Reward.Commands.{row_header, row, block_reward, height_row}

-- The numbers in an output, in order.
abbrev pub numbers : Out → List ℤ
numbers [] = []
numbers (int n ∷ out) = n ∷ numbers out
numbers (lit s ∷ out) = numbers out
numbers (text s ∷ out) = numbers out
numbers (setw n ∷ out) = numbers out
numbers (endl ∷ out) = numbers out

module _ (c : Consensus) where
  -- "blockreward" with the digits of a height prints that height's rewards in whole coins: the budget
  -- that is due there, and a total that is not less than the four amounts before it together and
  -- exceeds them by at most 3, since each is rounded down by itself.
  pub block_reward_lem :
      (prog cmd : Text) (n : ℕ) (rest : List Text)
      → (total : ℕ) × (block_reward c (prog ∷ cmd ∷ decimal n ∷ rest)
          ≡ row_header
            ++ row
                (pos n)
                (c.miner_subsidy (pos n) / coin_unit)
                (budget_due c (pos n) / coin_unit)
                (c.masternode_payment (pos n) / coin_unit)
                ((if c.is_superblock (pos n) then c.founders_reward (pos n) else 0) / coin_unit)
                total)
        × (c.miner_subsidy (pos n) / coin_unit
              + budget_due c (pos n) / coin_unit
              + c.masternode_payment (pos n) / coin_unit
              + (if c.is_superblock (pos n) then c.founders_reward (pos n) else 0) / coin_unit
            ≤ total)
        × (total
            ≤ c.miner_subsidy (pos n) / coin_unit
              + budget_due c (pos n) / coin_unit
              + c.masternode_payment (pos n) / coin_unit
              + (if c.is_superblock (pos n) then c.founders_reward (pos n) else 0) / coin_unit
              + 3)
  unfolding block_reward
  block_reward_lem prog cmd n rest =
      let h = pos n in
      let founders = if c.is_superblock h then c.founders_reward h else 0 in
      (
        (budget_due c h + founders + c.miner_subsidy h + c.masternode_payment h) / coin_unit,
        ground (arith, atoi-decimal_self n),
        omega arith,
        omega arith,
      )

  -- For the same height, the row of the `-height` settings and the output of "blockreward" have the
  -- same first five numbers (the height, and the amounts of miner, budget, masternode and founders)
  -- exactly if the height is no superblock, the payments have started, or the budget is less than one
  -- coin: the row of the settings shows a budget also before the payments start.
  pub height_row-block_reward :
      (atoi_string : Text → ℤ) (str prog cmd : Text) (n : ℕ) (rest : List Text)
      → atoi_string str ≡ pos n
      → (take 5 (numbers (height_row c atoi_string str))
          ≡ take 5 (numbers (block_reward c (prog ∷ cmd ∷ decimal n ∷ rest))))
        ↔ ((c.is_superblock (pos n) ≡ false)
            ⊎ (leb_ℤ c.payments_start (pos n) ≡ true)
            ⊎ (c.budget (pos n) / coin_unit ≡ 0))
  unfolding height_row block_reward
  height_row-block_reward atoi_string str prog cmd n rest read =
      let given : lacks (prog ∷ cmd ∷ decimal n ∷ rest) 2 ≡ false = ground arith in
      rw (read, atoi-decimal_self n, given)
        (elim (Bool-cases (c.is_superblock (pos n))) [
          | inl super ↦ elim (Bool-cases (leb_ℤ c.payments_start (pos n))) [
            | inl started ↦ rw (super, started) (λ e. inr (inl refl), λ h. refl)
            | inr early ↦ rw (super, early) (λ e. ground arith, λ h. ground arith)
          ]
          | inr plain ↦ rw plain (λ e. inl refl, λ h. ground arith)
        ])
