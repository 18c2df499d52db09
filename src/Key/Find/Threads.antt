-- ===== src/Key/Find/Threads.antt =====
-- The threads of "findaddress" under every schedule: what they report, and how they end.
use coin_tool.Base.{
  ℕ, ◌+◌, ◌≤◌, ◌≡◌, refl, ◌∙◌, ◌⊎◌, inl, inr, Bool, true, false, ◌||◌, List, [], ◌∷◌, ◌++◌, arith,
  length, all, All, get_elem?, set, length-set, All-get_elem?, All-set, All-replicate, All-weaken,
  All-append, ◌==◌, Bool-cases, Option-cases, Text,
}
use Prim.Native.Nat.{min}
use coin_tool.Chain.{Crypto}
use coin_tool.Key.Find.{
  Thread, testing, searching, reporting, found, failed, stopped, loaded, Report, got_target,
  verify_failed, State, is_wanted, advance, step, run, start,
}
use coin_tool.Key.Find.Counts.{
  is_over, is_failed, count_found, count_found-set, count_found-le, length-start,
}

module _ (C : Crypto) where
  open C use {Key, get_pub_key, verify_pub_key}

  abbrev pub has_target : List (Report C) → Bool
  has_target [] = false
  has_target (got_target i k ∷ rs) = true
  has_target (verify_failed k ∷ rs) = has_target rs

  has_target-append :
      (rs rs' : List (Report C)) → has_target (rs ++ rs') ≡ (has_target rs || has_target rs')
  has_target-append [] rs' = refl
  has_target-append (got_target i k ∷ rs) rs' = refl
  has_target-append (verify_failed k ∷ rs) rs' = has_target-append rs rs'

  module _ (is_case : Bool) (targets : List Text) where
    -- A report of a find is about a key that verifies and whose address has all targets; one of a
    -- failure is about a key that does not verify.
    abbrev pub IsTrue : Report C → Type 0
    IsTrue (got_target i k) =
        (is_wanted C is_case targets k ≡ true) × (verify_pub_key k (get_pub_key k) ≡ true)
    IsTrue (verify_failed k) = verify_pub_key k (get_pub_key k) ≡ false

    advance-IsTrue :
        (i : ℕ) (k : Key) (r : ℕ) (t : Thread) → All IsTrue (advance C is_case targets i k r t).2
    unfolding advance
    advance-IsTrue i k r searching = ground arith
    advance-IsTrue i k r t = ground arith

    -- Where a thread may stand, by the number of threads with a find, the counter, and whether a find
    -- was reported.
    abbrev Fits : ℕ → ℕ → Bool → Thread → Type 0
    Fits n r f reporting = f ≡ true
    Fits n r f (loaded v) = (v ≤ n) × (f ≡ true)
    Fits n r f found = (1 ≤ r) × (f ≡ true)
    Fits n r f stopped = (1 ≤ r) × (f ≡ true)
    Fits n r f _ = Unit {0}

    record Inv (st : State C) : Type 0 where
      counted : st.result ≤ count_found st.threads
      told : (st.result == 0 || has_target st.reports) ≡ true
      fits : All (Fits (count_found st.threads) st.result (has_target st.reports)) st.threads
      true_reports : All IsTrue st.reports

    Fits-weaken :
        (n n' r r' : ℕ) (f f' : Bool)
        → n ≤ n'
        → (1 ≤ r → 1 ≤ r')
        → (f ≡ true → f' ≡ true)
        → (t : Thread) → Fits n r f t
        → Fits n' r' f' t
    Fits-weaken n n' r r' f f' a b c reporting h = c h
    Fits-weaken n n' r r' f f' a b c (loaded v) h = (omega arith, c h.1)
    Fits-weaken n n' r r' f f' a b c found h = (b h.0, c h.1)
    Fits-weaken n n' r r' f f' a b c stopped h = (b h.0, c h.1)
    Fits-weaken n n' r r' f f' a b c testing h = tt
    Fits-weaken n n' r r' f f' a b c searching h = tt
    Fits-weaken n n' r r' f f' a b c failed h = tt

    -- What one step of a thread does to the numbers of the invariant; `m` counts the threads with a
    -- find after the step.
    abbrev Kept : ℕ → ℕ → ℕ → Bool → Thread × ℕ × List (Report C) → Type 0
    Kept n m r f (t', r', more) =
        (n ≤ m)
        × (r' ≤ m)
        × ((r' == 0 || (f || has_target more)) ≡ true)
        × Fits m r' (f || has_target more) t'
        × ((r ≤ r') ⊎ (1 ≤ r'))

    advance-Kept :
        (i : ℕ) (k : Key) (n m r : ℕ) (f : Bool) (t : Thread)
        → r ≤ n
        → (r == 0 || f) ≡ true
        → Fits n r f t
        → m + count_found (t ∷ []) ≡ n + count_found ((advance C is_case targets i k r t).0 ∷ [])
        → Kept n m r f (advance C is_case targets i k r t)
    unfolding advance
    advance-Kept i k n m r f testing a b h e = elim (Bool-cases (r == 0)) [
      | inl z ↦ ground arith
      | inr z ↦ ground arith
    ]
    advance-Kept i k n m r f searching a b h e = elim (Bool-cases f) [
      | inl z ↦ ground arith
      | inr z ↦ ground arith
    ]
    advance-Kept i k n m r f (loaded v) a b h e = ground arith
    advance-Kept i k n m r f t a b h e = ground arith

    step-Inv : (st : State C) (e : ℕ × Key) → Inv st → Inv (step C is_case targets st e)
    unfolding step
    step-Inv st (i, k) inv = elim (Option-cases (get_elem? st.threads i)) [
      | inl none_there ↦ rw (none_there, step) inv
      | inr (t, there) ↦
          let next = advance C is_case targets i k st.result t in
          let n = count_found st.threads in
          let m = count_found (set st.threads i next.0) in
          let f = has_target st.reports in
          let here = All-get_elem? (Fits n st.result f) st.threads i t inv.fits there in
          let kept =
            advance-Kept i k n m st.result f t inv.counted inv.told here
              (count_found-set st.threads i t next.0 there) in
          let f' = has_target-append st.reports next.2 in
          let reported : (f ≡ true → has_target (st.reports ++ next.2) ≡ true) = λ p. f' ∙ rw p in
          rw (there, step)
            (record {
              counted = kept.1;
              told = rw f' kept.2;
              fits =
                  All-set _ _ i next.0
                    (All-weaken _ _ st.threads
                      (Fits-weaken n m st.result next.1 f (has_target (st.reports ++ next.2)) kept.0
                        (λ p. omega arith) reported)
                      inv.fits)
                    (rw f' kept.3);
              true_reports =
                  All-append _ st.reports next.2 inv.true_reports (advance-IsTrue i k st.result t);
            })
    ]

    run-Inv : (st : State C) (es : List (ℕ × Key)) → Inv st → Inv (run C is_case targets st es)
    unfolding run
    run-Inv st [] inv = inv
    run-Inv st (e ∷ es) inv = run-Inv (step C is_case targets st e) es (step-Inv st e inv)

    start-Inv : (cores : ℕ) → Inv (start C cores)
    unfolding start
    start-Inv cores = record {
      counted = omega arith;
      told = refl;
      fits = All-replicate _ (min cores 100) testing tt;
      true_reports = tt;
    }

    length-step :
        (st : State C) (e : ℕ × Key)
        → length (step C is_case targets st e).threads ≡ length st.threads
    unfolding step
    length-step st (i, k) = elim (Option-cases (get_elem? st.threads i)) [
      | inl none_there ↦ rw (none_there, step)
      | inr (t, there) ↦ rw (there, step) (length-set st.threads i _)
    ]

    length-run :
        (st : State C) (es : List (ℕ × Key))
        → length (run C is_case targets st es).threads ≡ length st.threads
    unfolding run
    length-run st [] = refl
    length-run st (e ∷ es) = length-run (step C is_case targets st e) es ∙ length-step st e

    -- Under every schedule, whatever is reported as a find is a key that verifies and whose address
    -- has all targets, and what is reported as a failure does not verify; and the counter is at most
    -- the number of threads that ended with a find, which is at most 100.
    pub run_reports :
        (cores : ℕ) (es : List (ℕ × Key))
        → let st = run C is_case targets (start C cores) es in
          All IsTrue st.reports
          × (st.result ≤ count_found st.threads)
          × (count_found st.threads ≤ 100)
    run_reports cores es =
        let inv = run-Inv (start C cores) es (start-Inv cores) in
        let st = run C is_case targets (start C cores) es in
        (
          inv.true_reports,
          inv.counted,
          omega (
            arith,
            count_found-le st.threads,
            length-run (start C cores) es,
            length-start C cores,
          ),
        )

    over_cases :
        (n r : ℕ) (f : Bool) (ts : List Thread)
        → All (Fits n r f) ts
        → all is_over ts ≡ true
        → (f ≡ true) ⊎ (all is_failed ts ≡ true)
    over_cases n r f [] h e = inr refl
    over_cases n r f (found ∷ ts) h e = inl h.0.1
    over_cases n r f (stopped ∷ ts) h e = inl h.0.1
    over_cases n r f (failed ∷ ts) h e = over_cases n r f ts h.1 e
    over_cases n r f (testing ∷ ts) h e = cc
    over_cases n r f (searching ∷ ts) h e = cc
    over_cases n r f (reporting ∷ ts) h e = cc
    over_cases n r f (loaded v ∷ ts) h e = cc

    -- When every thread has come to its end, a find was reported or every thread has failed.
    pub run_over :
        (cores : ℕ) (es : List (ℕ × Key))
        → all is_over (run C is_case targets (start C cores) es).threads ≡ true
        → let st = run C is_case targets (start C cores) es in
          (has_target st.reports ≡ true) ⊎ (all is_failed st.threads ≡ true)
    run_over cores es over =
        over_cases _ _ _ _ (run-Inv (start C cores) es (start-Inv cores)).fits over
