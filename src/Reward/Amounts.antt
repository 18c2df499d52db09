-- ===== src/Reward/Amounts.antt =====
-- `AddReward` keeps the amount, and the rest stays within one coin.
use coin_tool.Base.{ℕ, ◌+◌, ◌*◌, ◌%◌, ◌≤◌, ◌<◌, ◌≡◌, ◌↔◌, arith}
use coin_tool.Reward.{Sum, coin_unit, add_reward}

-- The amount that a sum stands for.
abbrev pub worth : Sum → ℕ
worth s = s.coin * coin_unit + s.small

-- Adding an amount adds exactly that amount to what the sum stands for, and the rest does not come
-- to exceed one coin, whatever it was before.
pub add_reward_lem :
    (v : ℕ) (s : Sum)
    → (worth (add_reward v s) ≡ worth s + v) × ((add_reward v s).small ≤ coin_unit)
unfolding add_reward
add_reward_lem v s = ground arith

pub worth-add_reward : (v : ℕ) (s : Sum) → worth (add_reward v s) ≡ worth s + v
worth-add_reward v s = (add_reward_lem v s).0

-- The rest can stay at one whole coin, since it is carried over only when it is more: from a rest
-- below one coin this happens exactly if the two rests together make one coin.
pub add_reward-small_eq :
    (v : ℕ) (s : Sum)
    → s.small < coin_unit
    → ((add_reward v s).small ≡ coin_unit) ↔ (s.small + v % coin_unit ≡ coin_unit)
unfolding add_reward
add_reward-small_eq v s h = (λ e. ground arith, λ e. ground arith)
