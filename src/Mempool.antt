-- ===== src/Mempool.antt =====
-- `common/mempool.cpp`: a memory pool is filled with transactions until its size limit.
pub mod Fill
pub mod Switch
use coin_tool.Base.{
  ℕ, zero, suc, ◌+◌, ◌-◌, ◌*◌, ◌^◌, Bool, true, false, not, Option, none, some, List, [], ◌∷◌, ◌++◌,
  ltb, leb, ◌==◌, if◌then◌else◌, Text,
}
use coin_tool.Base.Int.{ℤ, pos, eqb_ℤ}
use coin_tool.Base.Output.{Out, lit, int, endl}
use coin_tool.Number.{atoi}
use coin_tool.Utils.Argv.{lacks, argument}

-- The transaction that is put together before it is encoded: one input and one output.
pub record RawTx : Type 0 where
  pub lock_time : ℕ
  pub prev_hash : ℕ
  pub prev_index : ℕ
  pub sequence : ℕ
  pub value : ℕ
  pub script : Text

-- The chain library: transactions with their hash, the round trip through hexadecimal text, the
-- script that pays to the tool's key, the counts of signature operations, the size of a pool entry,
-- and the pool: its sizes, its fee
-- for a size, `EnableFeeCalc(is, atof(val))` and `addUnchecked`.
pub record PoolLib : Type 1 where
  pub Tx : Type 0
  pub Pool : Type 0
  pub empty_tx : Tx
  pub tx_hash : Tx → ℕ
  pub decode_encode : RawTx → Option Tx
  pub key_script : Text
  pub sig_op_count : Text → ℕ
  pub entry_size : Tx → ℕ → ℕ → ℕ
  pub total_tx_size : Pool → ℕ
  pub pool_size : Pool → ℕ
  pub memory_usage : Pool → ℕ
  pub min_fee : Pool → ℕ → ℕ → ℕ
  pub enable_fee_calc : Bool → Text → Pool → Pool
  pub add_unchecked : Pool → Tx → ℕ → Pool

abbrev pub coin_unit : ℕ
coin_unit = 100000000

-- `nLockTime ? max() - 1 : max()` on 32 bits
unfoldable pub sequence_for : ℕ → ℕ
sequence_for lock_time = if not (lock_time == 0) then 2 ^ 32 - 1 - 1 else 2 ^ 32 - 1

-- `atoi(argv[cmdindex + 2]) == 1`, which switches the fee calculation on.
unfoldable pub fee_calc_enabled : Text → Bool
fee_calc_enabled s = eqb_ℤ (atoi s) (pos 1)

module _ (lib : PoolLib) where
  open lib use {Tx, Pool, decode_encode, sig_op_count, key_script, total_tx_size}

  abbrev pub raw_tx : ℕ → ℕ → ℕ → RawTx
  raw_tx lock_time prev_hash fee = record {
    lock_time = lock_time;
    prev_hash = prev_hash;
    prev_index = 0;
    sequence = sequence_for lock_time;
    value = 1000 * coin_unit + fee;
    script = key_script;
  }

  -- The transaction stays empty if it cannot be decoded; the count of operations is raised anyway.
  unfoldable pub get_prev_tx : ℕ → ℕ → Tx × ℕ × Out
  unfolding sequence_for
  get_prev_tx fee sig_ops =
      let sig_ops' = sig_ops + sig_op_count [] + sig_op_count key_script in
      elim (decode_encode (raw_tx 100 0 fee)) [
        | none ↦ (lib.empty_tx, sig_ops', lit "TX decode failed" ∷ endl ∷ [])
        | some tx ↦ (tx, sig_ops', [])
      ]

  unfoldable pub new_tx : Tx → ℕ → ℕ → Option Tx × ℕ × Out
  unfolding sequence_for
  new_tx prev_tx sig_ops fee =
      let sig_ops' = sig_ops + sig_op_count [] + sig_op_count key_script in
      elim (decode_encode (raw_tx 1000 (lib.tx_hash prev_tx) fee)) [
        | none ↦ (none, sig_ops', lit "TX decode failed" ∷ endl ∷ [])
        | some tx ↦ (some tx, sig_ops', [])
      ]

  -- `max_arg` is `GetArg("-maxmempool", DEFAULT_MAX_MEMPOOL_SIZE)`.
  module _ (max_arg : ℕ) where
    abbrev pub max_bytes : ℕ
    max_bytes = max_arg * 1000000

    unfoldable pub is_full : Pool → Bool
    is_full pool = leb max_bytes (total_tx_size pool)

    unfoldable pub output_info : Pool → Out
    output_info pool =
        lit "Test MemPool :"
        ∷ endl
        ∷ lit "size : "
        ∷ int (pos (lib.pool_size pool))
        ∷ lit ", bytes : "
        ∷ int (pos (total_tx_size pool))
        ∷ lit ", usage : "
        ∷ int (pos (lib.memory_usage pool))
        ∷ lit ", Max size : "
        ∷ int (pos max_bytes)
        ∷ endl
        ∷ lit "1 byte minifee : "
        ∷ int (pos (lib.min_fee pool max_bytes 1))
        ∷ lit ", 1000 minifee : "
        ∷ int (pos (lib.min_fee pool max_bytes 1000))
        ∷ lit ", 10000 minifee : "
        ∷ int (pos (lib.min_fee pool max_bytes 10000))
        ∷ endl
        ∷ endl
        ∷ []

    -- How the loop ends: by its test, by the `break`, or not within the rounds that are given.
    pub data Ending : Type 0 where
      by_test by_break : Pool → Out → Ending
      running : Pool → Out → Ending

    abbrev pub print_first : Out → Ending → Ending
    print_first out (by_test pool more) = by_test pool (out ++ more)
    print_first out (by_break pool more) = by_break pool (out ++ more)
    print_first out (running pool more) = running pool (out ++ more)

    -- The loop, with rounds as fuel; `size` counts the bytes since the last table.
    unfoldable pub fill_loop : (Pool → Pool) → ℕ → Tx → ℕ → Pool → ℕ → Ending
    fill_loop enable zero prev_tx fee pool size = running pool []
    fill_loop enable (suc fuel) prev_tx fee pool size =
        let (made, sig_ops, failed) = new_tx prev_tx 0 fee in
        let again = print_first failed (fill_loop enable fuel prev_tx fee pool size) in
        if is_full pool then by_test pool [] else elim made [
          | none ↦ again
          | some tx ↦
              let pool' = enable pool in
              let bytes_of = lib.entry_size tx fee sig_ops in
              let size' = size + bytes_of in
              let table = ltb (max_arg * 100000) size' in
              let rest = print_first (if table then output_info pool' else []) (
                fill_loop enable fuel prev_tx fee (lib.add_unchecked pool' tx bytes_of)
                  (if table then 0 else size')) in
              if leb max_bytes (bytes_of + total_tx_size pool')
              then by_break pool' (lit "MemPool is Full" ∷ endl ∷ [])
              else rest
        ]

    -- The last table, when the loop has ended.
    abbrev pub print_last : Ending → Ending
    print_last (by_test pool out) = by_test pool (out ++ output_info pool)
    print_last (by_break pool out) = by_break pool (out ++ output_info pool)
    print_last (running pool out) = running pool out

    unfoldable pub get_mem_pool_info : ℕ → List Text → Pool → Ending
    unfolding fill_loop get_prev_tx fee_calc_enabled
    get_mem_pool_info rounds argv pool =
        if lacks argv 3
        then by_test pool (lit "Example: getmempoolinfo 0.0 true" ∷ endl ∷ [])
        else let (prev_tx, sig_ops, failed) = get_prev_tx 10000 0 in
          let enable = lib.enable_fee_calc (fee_calc_enabled (argument argv 2)) (argument argv 1) in
          print_first (output_info pool ++ failed)
            (print_last (fill_loop enable rounds prev_tx 10000 pool 0))
