-- ===== src/Reward/Fees/Laws.antt =====
-- The loops of `CalcMemFee` end where the rates come to reach the minimal relay fee.
use coin_tool.Base.{
  ℕ, zero, suc, ◌+◌, ◌*◌, ◌/◌, ◌<◌, ◌≤◌, ◌≡◌, refl, Bool, true, false, some, List, [], ◌∷◌, ◌++◌,
  arith, ltb, ◌⊎◌, inl, inr, Bool-cases, Text,
}
use coin_tool.Base.Int.{ℤ, pos}
use coin_tool.Base.Output.{Out, lit, text, int, endl}
use coin_tool.Number.{atoi, to_uint32}
use coin_tool.Utils.Argv.{lacks}
use coin_tool.Reward.Fees.{FeeLib, max_fee, is_enough, fee_loop, calc_mem_fee, fee_head}

-- A test that fails next and holds `n` steps behind has `n` positive.
behind :
    (f : ℕ → Bool) (n base : ℕ)
    → f (suc n + base) ≡ true
    → f (base + 1) ≡ false
    → (n' : ℕ) × (n ≡ suc n')
behind f zero base good not_yet =
    let same : suc 0 + base ≡ base + 1 = omega arith in absurd (ground (arith, rw same at good))
behind f (suc n) base good not_yet = (n, refl)

module _ (lib : FeeLib) where
  open lib use {rate_at, get_fee, at_least}

  -- From a base on the loop goes on for `m` rounds: in each the fee is below the maximum, and the next
  -- base's rate is below half the minimal relay fee.
  abbrev pub GoesOn : ℕ → ℤ → ℕ → ℕ → ℕ → Type 0
  GoesOn k time size base zero = Unit {0}
  GoesOn k time size base (suc m) =
      (get_fee (rate_at k time base) size < lib.relay_fee size * 10000)
      × (at_least (rate_at k time (base + 1)) (lib.relay_fee_per_k / 2) ≡ false)
      × GoesOn k time size (base + 1) m

  -- The lines for a base.
  abbrev pub report : ℕ → ℤ → ℕ → ℕ → Out
  report k time size base =
      let rate = rate_at k time base in
      lit "MiniFee is "
      ∷ text (lib.rate_string rate)
      ∷ lit ", lastminifee is "
      ∷ text (lib.base_string base)
      ∷ lit ", maxfee is "
      ∷ int (pos (lib.relay_fee size * 10000))
      ∷ endl
      ∷ lit "rate is "
      ∷ text (lib.fee_rate_string rate)
      ∷ endl
      ∷ []

  -- How a loop ends at a base: with a fee that is not below the maximum it prints nothing, and below
  -- it the next base's rate reaches half the minimal relay fee and the lines of that base are printed.
  abbrev pub StopsWith : ℕ → ℤ → ℕ → ℕ → Out → Type 0
  StopsWith k time size base out =
      ((lib.relay_fee size * 10000 ≤ get_fee (rate_at k time base) size) × (out ≡ []))
      ⊎ ((get_fee (rate_at k time base) size < lib.relay_fee size * 10000)
          × (at_least (rate_at k time (base + 1)) (lib.relay_fee_per_k / 2) ≡ true)
          × (out ≡ report k time size (base + 1)))

  -- A loop from a base goes on for at most `n` rounds, and stops.
  abbrev pub EndsWithin : ℕ → ℤ → ℕ → ℕ → ℕ → Out → Type 0
  EndsWithin k time size n base out =
      (m : ℕ) × (m ≤ n) × GoesOn k time size base m × StopsWith k time size (base + m) out

  later :
      (k : ℕ) (time : ℤ) (size n base : ℕ) (out : Out)
      → (get_fee (rate_at k time base) size < lib.relay_fee size * 10000)
      → (at_least (rate_at k time (base + 1)) (lib.relay_fee_per_k / 2) ≡ false)
      → EndsWithin k time size n (base + 1) out
      → EndsWithin k time size (suc n) base out
  later k time size n base out below not_yet (m, le, on, stop) =
      let next : base + 1 + m ≡ base + suc m = omega arith in
      (suc m, omega arith, (below, not_yet, on), rw next at stop)

  ends_now :
      (k : ℕ) (time : ℤ) (size n base : ℕ) (out : Out)
      → StopsWith k time size base out
      → EndsWithin k time size n base out
  ends_now k time size n base out stop =
      let here : base ≡ base + 0 = omega arith in (0, omega arith, tt, rw here at stop)

  fee_loop-EndsWithin :
      (k : ℕ) (time : ℤ) (size n rounds base : ℕ)
      → suc n ≤ rounds
      → at_least (rate_at k time (suc n + base)) (lib.relay_fee_per_k / 2) ≡ true
      → (out : Out) × (fee_loop lib k time size rounds base ≡ some out)
        × EndsWithin k time size n base out
  unfolding fee_loop
  fee_loop-EndsWithin k time size n zero base enough good = absurd (omega arith)
  fee_loop-EndsWithin k time size n (suc rounds) base enough good =
      elim (Bool-cases (ltb (get_fee (rate_at k time base) size) (max_fee lib k time size))) [
        | inr over ↦ ([], rw over refl, ends_now k time size n base [] (inl (ground arith, refl)))
        | inl below ↦ elim (Bool-cases (is_enough lib k time size (base + 1))) [
          | inl first ↦ (
            report k time size (base + 1),
            rw (below, first) refl,
            ends_now k time size n base (report k time size (base + 1))
                (inr (ground arith, first, refl)),
          )
          | inr not_yet ↦
              let (n', e) = behind (is_enough lib k time size) n base good not_yet in
              let shift : suc n + base ≡ suc n' + (base + 1) = omega arith in
              let (out, ran, ends) =
                fee_loop-EndsWithin k time size n' rounds (base + 1) (omega arith)
                  (rw shift at good) in
              (
                out,
                rw (below, not_yet) ran,
                rw e (later k time size n' base out (ground arith) not_yet ends),
              )
        ]
      ]

  -- `CalcMemFee` with a size and a time ends, and prints its head, what the first loop prints, the
  -- line between the loops, and what the second prints. If the rate of the base `n + 2` reaches half
  -- the minimal relay fee in the first loop, and that of `m + 2` in the second, more than `n` and `m`
  -- rounds are enough. Each loop begins at base 1 and goes on while the fee is below the maximum and
  -- the next base's rate is too small; it prints nothing if it stops since the fee is not below the
  -- maximum, and the lines of the first base behind 1 whose rate is enough otherwise.
  pub calc_mem_fee_lem :
      (prog cmd size time : Text) (rest : List Text) (n m rounds : ℕ)
      → suc n ≤ rounds
      → suc m ≤ rounds
      → at_least (rate_at 4 (atoi time) (suc n + 1)) (lib.relay_fee_per_k / 2) ≡ true
      → at_least (rate_at 2 (atoi time) (suc m + 1)) (lib.relay_fee_per_k / 2) ≡ true
      → (quarter : Out) × (half : Out) × (calc_mem_fee lib rounds (prog ∷ cmd ∷ size ∷ time ∷ rest)
          ≡ some (fee_head lib ++ (quarter ++ (lit "****** for half ******" ∷ endl ∷ half))))
        × EndsWithin 4 (atoi time) (to_uint32 (atoi size)) n 1 quarter
        × EndsWithin 2 (atoi time) (to_uint32 (atoi size)) m 1 half
  unfolding calc_mem_fee
  calc_mem_fee_lem prog cmd size time rest n m rounds le le' good good' =
      let given : lacks (prog ∷ cmd ∷ size ∷ time ∷ rest) 3 ≡ false = ground arith in
      let t = atoi time in
      let s = to_uint32 (atoi size) in
      let (q, eq, endq) = fee_loop-EndsWithin 4 t s n rounds 1 le good in
      let (h, eh, endh) = fee_loop-EndsWithin 2 t s m rounds 1 le' good' in
      (q, h, rw given (rw (eq, eh) refl), endq, endh)
