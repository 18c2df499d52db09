-- ===== src/Mempool/Switch.antt =====
-- `common/mempool.cpp`: the argument that switches the fee calculation on.
use coin_tool.Base.{ℕ, ◌≡◌, refl, false, ◌∷◌, Text, ◌==◌}
use coin_tool.Number.{is_digit, is_space}
use coin_tool.Number.RoundTrip.{atoi_word}
use coin_tool.Mempool.{fee_calc_enabled}

-- An argument whose first byte is no digit, no space and no sign leaves the fee calculation off: the
-- word "true", which the help of the command asks for, is such an argument.
pub fee_calc_enabled-word :
    (c : ℕ) (s : Text)
    → is_digit c ≡ false
    → is_space c ≡ false
    → (c == b'-') ≡ false
    → (c == b'+') ≡ false
    → fee_calc_enabled (c ∷ s) ≡ false
unfolding fee_calc_enabled
fee_calc_enabled-word c s digit space minus plus = rw (atoi_word c s digit space minus plus) refl
