-- ===== src/Tests/Mempool.antt =====
-- Concrete runs of the functions of `common/mempool.cpp` over a pool that counts its bytes.
use coin_tool.Number.{is_digit, is_space}
use coin_tool.Base.{◌∷◌, [], ℕ, ◌+◌, ◌*◌, ◌≡◌, refl, false, some, arith, bytes, length}
use coin_tool.Mempool.{get_mem_pool_info, get_prev_tx, PoolLib, new_tx, fee_calc_enabled}
use coin_tool.Mempool.Fill.{IsFilled, get_mem_pool_info-IsFilled}
use coin_tool.Mempool.Switch.{fee_calc_enabled-word}

-- A transaction is its value, and a pool is its number of entries, of 300000 bytes each.
abbrev counting : PoolLib
counting = record {
  Tx = ℕ;
  Pool = ℕ;
  empty_tx = 0;
  tx_hash = λ tx. tx;
  decode_encode = λ raw. some raw.value;
  key_script = bytes "pay";
  sig_op_count = λ s. length s;
  entry_size = λ tx fee ops. 300000;
  total_tx_size = λ pool. pool * 300000;
  pool_size = λ pool. pool;
  memory_usage = λ pool. pool * 400000;
  min_fee = λ pool limit size. size;
  enable_fee_calc = λ is val pool. pool;
  add_unchecked = λ pool tx size. pool + 1;
}

get_mem_pool_info-IsFilled_example : IsFilled counting 1 300000 (
    get_mem_pool_info counting 1 1000000
      (bytes "tool" ∷ bytes "getmempoolinfo" ∷ bytes "0.0" ∷ bytes "1" ∷ [])
      0)
unfolding new_tx get_prev_tx
get_mem_pool_info-IsFilled_example =
    get_mem_pool_info-IsFilled counting 1 (bytes "tool") (bytes "getmempoolinfo") (bytes "0.0")
      (bytes "1") [] 1000000 100000010000 3 300000 0 refl refl (omega arith) (λ is v p. refl)
      (λ p. omega arith) (omega arith) (omega arith)

fee_calc_enabled-word_example : fee_calc_enabled (bytes "true") ≡ false
unfolding fee_calc_enabled is_digit is_space
fee_calc_enabled-word_example = fee_calc_enabled-word b't' (bytes "rue") refl refl refl refl
