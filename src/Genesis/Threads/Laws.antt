-- ===== src/Genesis/Threads/Laws.antt =====
-- The mining threads under every schedule: what they print, and that they end only behind a find.
use coin_tool.Base.{
  ℕ, zero, suc, ◌+◌, ◌≤◌, ◌≡◌, refl, ◌∙◌, Bool, true, false, some, List, [], ◌∷◌, ◌++◌, arith,
  length, length-append, not_empty, all, All, get_elem?, set, All-get_elem?, All-set, All-weaken,
  All-append, ltb, leb, leb→le, Bool-cases, Option-cases, inl, inr, ◌⊎◌,
}
use coin_tool.Genesis.Mine.{Header}
use coin_tool.Genesis.Mine.Laws.{SameTemplate}
use coin_tool.Genesis.Threads.{
  Work, Worker, created, over, hashing, printing, testing, loaded, next_round, State, Event, spawn,
  act, start_state, advance, step, run,
}

abbrev pub is_over : Worker → Bool
is_over over = true
is_over _ = false

abbrev pub count_printing : List Worker → ℕ
count_printing [] = 0
count_printing (t ∷ ts) = (elim t [ printing w ↦ 1 | _ ↦ 0 ]) + count_printing ts

count_printing-set :
    (ts : List Worker) (i : ℕ) (t t' : Worker)
    → get_elem? ts i ≡ some t
    → count_printing (set ts i t') + count_printing (t ∷ [])
      ≡ count_printing ts + count_printing (t' ∷ [])
count_printing-set [] i t t' e = cc
count_printing-set (u ∷ ts) zero t t' e = ground (arith, e)
count_printing-set (u ∷ ts) (suc i) t t' e = omega (arith, count_printing-set ts i t t' e)

count_printing-get :
    (ts : List Worker) (i : ℕ) (t : Worker)
    → get_elem? ts i ≡ some t
    → count_printing (t ∷ []) ≤ count_printing ts
count_printing-get [] i t e = cc
count_printing-get (u ∷ ts) zero t e = ground (arith, e)
count_printing-get (u ∷ ts) (suc i) t e = omega (arith, count_printing-get ts i t e)

count_printing-append :
    (ts us : List Worker) → count_printing (ts ++ us) ≡ count_printing ts + count_printing us
count_printing-append [] us = omega arith
count_printing-append (t ∷ ts) us = omega (arith, count_printing-append ts us)

all-over : (ts : List Worker) → all is_over ts ≡ true → count_printing ts ≡ 0
all-over [] h = refl
all-over (over ∷ ts) h = omega (arith, all-over ts h)
all-over (created ∷ ts) h = cc
all-over (hashing w ∷ ts) h = cc
all-over (printing w ∷ ts) h = cc
all-over (testing w ∷ ts) h = cc
all-over (loaded w v ∷ ts) h = cc

same_trans : (a b c : Header) → SameTemplate a b → SameTemplate b c → SameTemplate a c
same_trans a b c (p, q, r, s, t) (p', q', r', s', t') = (p ∙ p', q ∙ q', r ∙ r', s ∙ s', t ∙ t')

next_round-SameTemplate : (now : ℕ) (w : Work) → SameTemplate (next_round now w).header w.header
unfolding next_round
next_round-SameTemplate now w = elim (Bool-cases (ltb 1000 w.cnt)) [
  | inl e ↦ rw e (refl, refl, refl, refl, refl)
  | inr e ↦ rw e (refl, refl, refl, refl, refl)
]

module _ (hash : Header → ℕ) (hash_target : ℕ) (pb : Header) where
  -- A header that meets the target and differs from the template in its time and nonce alone.
  abbrev pub IsSolution : Header → Type 0
  IsSolution h = (hash h ≤ hash_target) × SameTemplate h pb

  -- Where a thread may stand, by the counter.
  abbrev Fits : ℕ → Worker → Type 0
  Fits r created = Unit {0}
  Fits r over = 1 ≤ r
  Fits r (hashing w) = SameTemplate w.header pb
  Fits r (testing w) = SameTemplate w.header pb
  Fits r (printing w) = IsSolution w.header
  Fits r (loaded w v) = IsSolution w.header

  Fits-weaken : (r r' : ℕ) → (1 ≤ r → 1 ≤ r') → (t : Worker) → Fits r t → Fits r' t
  Fits-weaken r r' b created h = h
  Fits-weaken r r' b over h = b h
  Fits-weaken r r' b (hashing w) h = h
  Fits-weaken r r' b (testing w) h = h
  Fits-weaken r r' b (printing w) h = h
  Fits-weaken r r' b (loaded w v) h = h

  record Inv (st : State) : Type 0 where
    same : SameTemplate st.shared pb
    told : 1 ≤ st.result → 1 ≤ count_printing st.workers + length st.printed
    fits : All (Fits st.result) st.workers
    solved : All IsSolution st.printed

  -- What a raised counter promises carries over to the numbers after a step.
  told_after :
      (r r' before after t t' p p' more : ℕ)
      → after + t ≡ before + t'
      → p' ≡ p + more
      → (1 ≤ r → 1 ≤ before + p)
      → (1 ≤ r' → 1 ≤ r) ⊎ (1 ≤ t')
      → t ≤ t' + more
      → t ≤ before
      → 1 ≤ r'
      → 1 ≤ after + p'
  told_after r r' before after t t' p p' more moved grown told (inl back) enough inside raised =
      omega (arith, told (back raised))
  told_after r r' before after t t' p p' more moved grown told (inr prints) enough inside raised =
      omega arith

  -- What one step of a thread does: its new place fits, it prints solutions, the counter stays
  -- raised, and a raise of the counter is followed by a print.
  abbrev Kept : ℕ → Worker → Worker × ℕ × List Header → Type 0
  Kept r t (t', r', more) =
      Fits r' t'
      × All IsSolution more
      × (1 ≤ r → 1 ≤ r')
      × ((1 ≤ r' → 1 ≤ r) ⊎ (1 ≤ count_printing (t' ∷ [])))
      × (count_printing (t ∷ []) ≤ count_printing (t' ∷ []) + length more)

  advance-Kept :
      (shared : Header) (now r : ℕ) (t : Worker)
      → SameTemplate shared pb
      → Fits r t
      → Kept r t (advance hash hash_target shared now r t)
  unfolding advance
  advance-Kept shared now r created s h = (s, tt, (λ p. p), inl (λ p. p), omega arith)
  advance-Kept shared now r (hashing w) s h = elim (Bool-cases (leb (hash w.header) hash_target)) [
    | inl good ↦ rw good ((leb→le _ _ good, h), tt, (λ p. p), inl (λ p. p), omega arith)
    | inr bad ↦ rw bad (h, tt, (λ p. p), inl (λ p. p), omega arith)
  ]
  advance-Kept shared now r (loaded w v) s h =
      (h, tt, (λ p. omega arith), inr (omega arith), omega arith)
  advance-Kept shared now r (printing w) s h = (h.1, (h, tt), (λ p. p), inl (λ p. p), omega arith)
  advance-Kept shared now r (testing w) s h = elim (Bool-cases (ltb 0 r)) [
    | inl raised ↦ rw raised (ground arith, tt, (λ p. p), inl (λ p. p), omega arith)
    | inr calm ↦ rw calm (
      same_trans (next_round now w).header w.header pb (next_round-SameTemplate now w) h,
      tt,
      (λ p. p),
      inl (λ p. p),
      omega arith,
    )
  ]
  advance-Kept shared now r over s h = (h, tt, (λ p. p), inl (λ p. p), omega arith)

  step-Inv : (st : State) (e : Event) → Inv st → Inv (step hash hash_target st e)
  unfolding step
  step-Inv st (spawn random) inv = record {
    same = inv.same;
    told = λ p. omega (arith, count_printing-append st.workers (created ∷ []), inv.told p);
    fits = All-append _ st.workers (created ∷ []) inv.fits (tt, tt);
    solved = inv.solved;
  }
  step-Inv st (act i now) inv = elim (Option-cases (get_elem? st.workers i)) [
    | inl none_there ↦ rw (none_there, step) inv
    | inr (t, there) ↦
        let next = advance hash hash_target st.shared now st.result t in
        let here = All-get_elem? (Fits st.result) st.workers i t inv.fits there in
        let kept = advance-Kept st.shared now st.result t inv.same here in
        let moved = count_printing-set st.workers i t next.0 there in
        rw (there, step)
          (record {
            same = inv.same;
            told = λ p.
                told_after st.result next.1 (count_printing st.workers)
                  (count_printing (set st.workers i next.0)) (count_printing (t ∷ []))
                  (count_printing (next.0 ∷ [])) (length st.printed) _ (length next.2) moved
                  (length-append st.printed next.2) inv.told kept.3 kept.4
                  (count_printing-get st.workers i t there) p;
            fits =
                All-set _ _ i next.0
                  (All-weaken _ _ st.workers (Fits-weaken st.result next.1 kept.2) inv.fits) kept.0;
            solved = All-append _ st.printed next.2 inv.solved kept.1;
          })
  ]

  run-Inv : (st : State) (es : List Event) → Inv st → Inv (run hash hash_target st es)
  unfolding run
  run-Inv st [] inv = inv
  run-Inv st (e ∷ es) inv = run-Inv (step hash hash_target st e) es (step-Inv st e inv)

  start-Inv : Inv (start_state pb)
  unfolding start_state
  start-Inv = record {
    same = (refl, refl, refl, refl, refl);
    told = λ p. absurd (omega arith);
    fits = tt;
    solved = tt;
  }

  -- Under every schedule, each header that a thread prints has a hash of at most the target and
  -- differs from the template in its time and nonce alone.
  pub run-IsSolution :
      (es : List Event) → All IsSolution (run hash hash_target (start_state pb) es).printed
  run-IsSolution es = (run-Inv (start_state pb) es start-Inv).solved

  over_told :
      (r : ℕ) (ts : List Worker) (n : ℕ)
      → not_empty ts ≡ true
      → all is_over ts ≡ true
      → All (Fits r) ts
      → (1 ≤ r → 1 ≤ count_printing ts + n)
      → 1 ≤ n
  over_told r [] n some_thread ended fits told = cc
  over_told r (over ∷ ts) n some_thread ended fits told =
      omega (arith, told fits.0, all-over (over ∷ ts) ended)
  over_told r (created ∷ ts) n some_thread ended fits told = cc
  over_told r (hashing w ∷ ts) n some_thread ended fits told = cc
  over_told r (printing w ∷ ts) n some_thread ended fits told = cc
  over_told r (testing w ∷ ts) n some_thread ended fits told = cc
  over_told r (loaded w v ∷ ts) n some_thread ended fits told = cc

  -- When there are threads and all of them have come to their ends, a header was printed.
  pub run-printed :
      (es : List Event)
      → not_empty (run hash hash_target (start_state pb) es).workers ≡ true
      → all is_over (run hash hash_target (start_state pb) es).workers ≡ true
      → 1 ≤ length (run hash hash_target (start_state pb) es).printed
  run-printed es some_thread ended =
      let inv = run-Inv (start_state pb) es start-Inv in
      over_told _ _ _ some_thread ended inv.fits inv.told
