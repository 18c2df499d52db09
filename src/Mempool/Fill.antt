-- ===== src/Mempool/Fill.antt =====
-- Filling the pool ends, and never reaches the limit.
use coin_tool.Base.{
  Text, Bool, List, ◌∷◌, ℕ, zero, suc, ◌+◌, ◌*◌, ◌≤◌, ◌<◌, ◌≡◌, refl, false, some, [], arith, leb,
  ltb, if◌then◌else◌, Bool-cases, leb→le, inl, inr,
}
use coin_tool.Base.Output.{Out}
use mathlib.Core.Path.{ap, ◌∙◌}
use coin_tool.Utils.Argv.{lacks}
use coin_tool.Mempool.{
  print_last, get_prev_tx, get_mem_pool_info, fee_calc_enabled, PoolLib, max_bytes, new_tx, is_full,
  Ending, by_test, by_break, running, print_first, fill_loop,
}

module _ (lib : PoolLib) (max_arg : ℕ) where
  open lib use {Tx, Pool, total_tx_size}

  -- The loop has ended by its `break`, with a pool below the limit that no further entry fits.
  abbrev pub IsFilled : ℕ → Ending lib max_arg → Type 0
  IsFilled entry (by_break pool out) =
      (total_tx_size pool < max_bytes lib max_arg)
      × (max_bytes lib max_arg ≤ entry + total_tx_size pool)
  IsFilled entry (by_test pool out) = ⊥
  IsFilled entry (running pool out) = ⊥

  IsFilled-print_first :
      (entry : ℕ) (out : Out) (e : Ending lib max_arg)
      → IsFilled entry e
      → IsFilled entry (print_first lib max_arg out e)
  IsFilled-print_first entry out (by_break pool more) h = h
  IsFilled-print_first entry out (by_test pool more) h = elim h [ ]
  IsFilled-print_first entry out (running pool more) h = elim h [ ]

  is_full_below :
      (pool : Pool) → total_tx_size pool < max_bytes lib max_arg → is_full lib max_arg pool ≡ false
  unfolding is_full
  is_full_below pool below = ground arith

  -- If the transaction can be made and its entry has a size of at least one byte, and adding an entry
  -- adds its size and switching the fee calculation changes no size, then the loop over a pool below
  -- the limit ends within as many rounds as bytes are missing, and one: by its `break`, below the
  -- limit, and with no room for another entry.
  pub fill_loop-IsFilled :
      (enable : Pool → Pool) (fuel : ℕ) (prev_tx tx : Tx) (fee sig_ops size entry : ℕ) (pool : Pool)
      → (new_tx lib prev_tx 0 fee ≡ (some tx, sig_ops, []))
      → lib.entry_size tx fee sig_ops ≡ entry
      → 1 ≤ entry
      → ((p : Pool) → total_tx_size (enable p) ≡ total_tx_size p)
      → ((p : Pool) → total_tx_size (lib.add_unchecked p tx entry) ≡ total_tx_size p + entry)
      → total_tx_size pool < max_bytes lib max_arg
      → max_bytes lib max_arg ≤ total_tx_size pool + fuel
      → IsFilled entry (fill_loop lib max_arg enable fuel prev_tx fee pool size)
  unfolding fill_loop
  fill_loop-IsFilled enable zero prev_tx tx fee sig_ops size entry pool made es big quiet adds below
        enough =
      absurd (omega arith)
  fill_loop-IsFilled enable (suc fuel) prev_tx tx fee sig_ops size entry pool made es big quiet adds
        below enough =
      let ops : (new_tx lib prev_tx 0 fee).1 ≡ sig_ops = ap (λ p. p.1) made in
      let size' = if ltb (max_arg * 100000) (size + entry) then 0 else size + entry in
      let grown : total_tx_size (lib.add_unchecked (enable pool) tx entry)
          ≡ total_tx_size pool + entry =
        adds (enable pool) ∙ rw (quiet pool) refl in
      rw (made, ops, es, is_full_below pool below, quiet pool)
        (elim (Bool-cases (leb (max_bytes lib max_arg) (entry + total_tx_size pool))) [
          | inl last ↦ rw last (rw (quiet pool) (below, leb→le _ _ last))
          | inr more ↦ rw more (
              IsFilled-print_first _ _ _ (
                fill_loop-IsFilled enable fuel prev_tx tx fee sig_ops size' entry
                  (lib.add_unchecked (enable pool) tx entry) made es big (λ p. quiet p)
                  (λ p. adds p) (rw grown (ground arith)) (rw grown (omega arith))))
        ])

  IsFilled-print_last :
      (entry : ℕ) (e : Ending lib max_arg)
      → IsFilled entry e
      → IsFilled entry (print_last lib max_arg e)
  IsFilled-print_last entry (by_break pool out) h = h
  IsFilled-print_last entry (by_test pool out) h = elim h [ ]
  IsFilled-print_last entry (running pool out) h = elim h [ ]

  -- "getmempoolinfo" with its two arguments ends by its `break`, with the pool below the limit and no
  -- room for another entry, within as many rounds as bytes are missing, and one. The pool is below
  -- the limit before, the transaction that spends the first one can be made, its entry has a size of
  -- at least one byte, adding an entry adds its size, and switching the fee calculation changes no
  -- size.
  pub get_mem_pool_info-IsFilled :
      (prog cmd val flag : Text) (rest : List Text) (rounds : ℕ) (tx : Tx) (sig_ops entry : ℕ)
      (pool : Pool)
      → new_tx lib (get_prev_tx lib 10000 0).0 0 10000 ≡ (some tx, sig_ops, [])
      → lib.entry_size tx 10000 sig_ops ≡ entry
      → 1 ≤ entry
      → ((is : Bool) (v : Text) (p : Pool)
          → total_tx_size (lib.enable_fee_calc is v p) ≡ total_tx_size p)
      → ((p : Pool) → total_tx_size (lib.add_unchecked p tx entry) ≡ total_tx_size p + entry)
      → total_tx_size pool < max_bytes lib max_arg
      → max_bytes lib max_arg ≤ total_tx_size pool + rounds
      → IsFilled entry (get_mem_pool_info lib max_arg rounds (prog ∷ cmd ∷ val ∷ flag ∷ rest) pool)
  unfolding get_mem_pool_info
  get_mem_pool_info-IsFilled prog cmd val flag rest rounds tx sig_ops entry pool made es big quiet
        adds below enough =
      let given : lacks (prog ∷ cmd ∷ val ∷ flag ∷ rest) 3 ≡ false = ground arith in
      let enable = lib.enable_fee_calc (fee_calc_enabled flag) val in
      rw given (
        IsFilled-print_first entry _ _ (
          IsFilled-print_last entry _ (
            fill_loop-IsFilled enable rounds (get_prev_tx lib 10000 0).0 tx 10000 sig_ops 0 entry
              pool made es big (λ p. quiet _ _ p) adds below enough)))
