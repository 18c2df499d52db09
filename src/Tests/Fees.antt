-- ===== src/Tests/Fees.antt =====
-- A concrete run of `CalcMemFee` of `common/rewardtool.cpp`, with whole numbers as rates.
use coin_tool.Base.{ℕ, ◌*◌, ◌/◌, ◌≡◌, refl, some, [], ◌∷◌, ◌++◌, arith, leb, bytes}
use coin_tool.Base.Output.{Out, lit, endl}
use coin_tool.Number.{atoi, to_uint32}
use coin_tool.Reward.Fees.{FeeLib, calc_mem_fee, fee_head}
use coin_tool.Reward.Fees.Laws.{EndsWithin, calc_mem_fee_lem}

abbrev whole_rates : FeeLib
whole_rates = record {
  Rate = ℕ;
  Pool = ℕ;
  rate_at = λ k time base. base * k;
  get_fee = λ rate size. rate * size / 1000;
  at_least = λ rate n. leb n rate;
  rate_string = λ rate. [];
  fee_rate_string = λ rate. [];
  base_string = λ base. [];
  relay_fee = λ size. 10 * size / 1000;
  relay_fee_per_k = 10;
  relay_fee_string = [];
  dust_threshold = 546;
  free_threshold = [];
  trim_to_size = λ limit pool. pool;
  min_fee = λ pool limit size. 0;
}

calc_mem_fee_lem_example :
    (quarter : Out) × (half : Out) × (calc_mem_fee whole_rates 3
        (bytes "tool" ∷ bytes "calcmemfee" ∷ bytes "500" ∷ bytes "60" ∷ [])
      ≡ some (fee_head whole_rates ++ (quarter ++ (lit "****** for half ******" ∷ endl ∷ half))))
    × EndsWithin whole_rates 4 (atoi (bytes "60")) (to_uint32 (atoi (bytes "500"))) 0 1 quarter
    × EndsWithin whole_rates 2 (atoi (bytes "60")) (to_uint32 (atoi (bytes "500"))) 1 1 half
calc_mem_fee_lem_example =
    calc_mem_fee_lem whole_rates (bytes "tool") (bytes "calcmemfee") (bytes "500") (bytes "60") [] 0
      1 3 (omega arith) (omega arith) refl refl
