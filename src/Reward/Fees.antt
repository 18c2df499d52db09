-- ===== src/Reward/Fees.antt =====
-- The fee commands of `common/rewardtool.cpp`: `MemPoolFee`, `GetTust` and `CalcMemFee`.
pub mod Laws
use coin_tool.Base.{
  ℕ, zero, suc, ◌+◌, ◌*◌, ◌/◌, Bool, true, false, not, Option, none, some, List, [], ◌∷◌, ◌++◌, ltb,
  if◌then◌else◌, Text,
}
use coin_tool.Base.Int.{ℤ, pos}
use coin_tool.Base.Output.{Out, lit, text, int, endl}
use coin_tool.Number.{atoi, to_uint32}
use coin_tool.Utils.Argv.{lacks, argument, help}

-- The chain library and the numbers of type `double`. `rate_at k time base` is
-- `base / pow(2.0, time / (halflife / k))`; `get_fee` is `CFeeRate(rate).GetFee(size)`, and
-- `at_least` compares a rate with a whole number. The pool is trimmed to a limit and has a minimal
-- fee for a size; the others are the minimal relay fee and the texts of rates.
pub record FeeLib : Type 1 where
  pub Rate : Type 0
  pub Pool : Type 0
  pub rate_at : ℕ → ℤ → ℕ → Rate
  pub get_fee : Rate → ℕ → ℕ
  pub at_least : Rate → ℕ → Bool
  pub rate_string : Rate → Text
  pub fee_rate_string : Rate → Text
  pub base_string : ℕ → Text
  pub relay_fee : ℕ → ℕ
  pub relay_fee_per_k : ℕ
  pub relay_fee_string : Text
  pub dust_threshold : ℕ
  pub free_threshold : Text
  pub trim_to_size : ℕ → Pool → Pool
  pub min_fee : Pool → ℕ → ℕ → ℕ

abbrev pub mem_pool_fee_help : Out
mem_pool_fee_help = help "Command \"mempoolfee\" example :" "mempoolfee size"

module _ (lib : FeeLib) where
  open lib use {Rate, Pool, rate_at, get_fee, at_least}

  -- `max_arg` is `GetArg("-maxmempool", DEFAULT_MAX_MEMPOOL_SIZE)`.
  unfoldable pub mem_pool_fee : ℕ → List Text → Pool → Pool × Out
  mem_pool_fee max_arg argv pool =
      if lacks argv 2
      then (pool, mem_pool_fee_help)
      else let size = to_uint32 (atoi (argument argv 1)) in
        let limit = max_arg * 1000000 in
        let trimmed = lib.trim_to_size limit pool in
        let fee = lib.min_fee trimmed limit size in
        (
          trimmed,
          lit "Min MemPoolFee is ("
              ∷ int (pos fee)
              ∷ lit " == 0 ? "
              ∷ int (pos (lib.relay_fee size))
              ∷ lit " : "
              ∷ int (pos fee)
              ∷ lit " )"
              ∷ endl
              ∷ lit "Free Priority is > "
              ∷ text lib.free_threshold
              ∷ endl
              ∷ [],
        )

  unfoldable pub get_tust : Out
  get_tust =
      lit "Transaction out value should bigger than " ∷ int (pos lib.dust_threshold) ∷ endl ∷ []

  -- One of the two loops of `CalcMemFee`, by its divisor `k`.
  module _ (k : ℕ) (time : ℤ) (size : ℕ) where
    abbrev pub max_fee : ℕ
    max_fee = lib.relay_fee size * 10000

    -- Whether the rate of a base reaches half the minimal relay fee.
    abbrev pub is_enough : ℕ → Bool
    is_enough base = at_least (rate_at k time base) (lib.relay_fee_per_k / 2)

    abbrev pub found_lines : ℕ → Out
    found_lines base =
        lit "MiniFee is "
        ∷ text (lib.rate_string (rate_at k time base))
        ∷ lit ", lastminifee is "
        ∷ text (lib.base_string base)
        ∷ lit ", maxfee is "
        ∷ int (pos max_fee)
        ∷ endl
        ∷ lit "rate is "
        ∷ text (lib.fee_rate_string (rate_at k time base))
        ∷ endl
        ∷ []

    -- The loop from a base, with rounds as fuel; `none` is a loop that has not ended by then.
    unfoldable pub fee_loop : ℕ → ℕ → Option Out
    fee_loop zero base = none
    fee_loop (suc rounds) base =
        let rest = fee_loop rounds (base + 1) in
        if not (ltb (get_fee (rate_at k time base) size) max_fee)
        then some []
        else if is_enough (base + 1)
        then some (found_lines (base + 1))
        else rest

  abbrev pub fee_head : Out
  fee_head =
      lit "rollingMinimumFeeRate should biger than "
      ∷ int (pos (lib.relay_fee_per_k / 2))
      ∷ lit ", also rate have to more than "
      ∷ text lib.relay_fee_string
      ∷ endl
      ∷ lit "****** for qurter ******"
      ∷ endl
      ∷ []

  -- The command; with too few arguments it prints the help of "mempoolfee".
  unfoldable pub calc_mem_fee : ℕ → List Text → Option Out
  unfolding fee_loop
  calc_mem_fee rounds argv =
      if lacks argv 3
      then some mem_pool_fee_help
      else let size = to_uint32 (atoi (argument argv 1)) in
        let time = atoi (argument argv 2) in
        elim (fee_loop 4 time size rounds 1) [
          | none ↦ none
          | some quarter ↦ elim (fee_loop 2 time size rounds 1) [
            | none ↦ none
            | some half ↦
                some (fee_head ++ (quarter ++ (lit "****** for half ******" ∷ endl ∷ half)))
          ]
        ]
