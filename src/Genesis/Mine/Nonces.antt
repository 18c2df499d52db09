-- ===== src/Genesis/Mine/Nonces.antt =====
-- The nonces with which the threads begin, and that their searches do not meet early.
use coin_tool.Base.{ℕ, ◌+◌, ◌/◌, ◌%◌, ◌^◌, ◌<◌, ◌≡◌, ◌≢◌, arith}
use coin_tool.Genesis.Mine.{word256, start_nonce}

-- The top and the bottom 16 bits are clear, and the bits between are the low 224 bits of the random
-- number.
pub start_nonce_bits :
    (random : ℕ)
    → (start_nonce random % 2 ^ 16 ≡ 0)
      × (start_nonce random < 2 ^ 240)
      × (start_nonce random / 2 ^ 16 ≡ random % 2 ^ 224)
unfolding start_nonce
start_nonce_bits random = omega arith

-- Two threads with different nonces at the beginning try no common nonce in their first 65536 rounds.
pub start_nonce_apart :
    (random random' i j : ℕ)
    → start_nonce random ≢ start_nonce random'
    → i < 2 ^ 16
    → j < 2 ^ 16
    → (start_nonce random + i) % word256 ≢ (start_nonce random' + j) % word256
start_nonce_apart random random' i j apart hi hj =
    omega (arith, start_nonce_bits random, start_nonce_bits random')
