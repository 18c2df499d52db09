-- ===== src/Genesis/Mine/Laws.antt =====
-- What `_get` finds, and that it finds a nonce that is there.
use coin_tool.Base.{
  ℕ, zero, suc, ◌+◌, ◌%◌, ◌≤◌, ◌<◌, ◌≡◌, refl, ◌∙◌, ap, subst, false, List, [], ◌∷◌, arith, length,
  All, ltb, leb, leb→le, Bool-cases, inl, inr,
}
use coin_tool.Genesis.Mine.{Header, Round, target, word256, get_rounds, get, refreshed_time}

-- The fields that the search does not touch.
abbrev pub SameTemplate : Header → Header → Type 0
SameTemplate h pb =
    (h.version ≡ pb.version)
    × (h.prev_block ≡ pb.prev_block)
    × (h.merkle_root ≡ pb.merkle_root)
    × (h.claim_trie ≡ pb.claim_trie)
    × (h.bits ≡ pb.bits)

-- The header of the next round, without and with a new time.
abbrev next : Header → Header
next pb = record pb { nonce = (pb.nonce + 1) % word256 }

abbrev refreshed : ℕ → ℕ → Round → Header → Header
refreshed time start r pb = record pb {
  nonce = (pb.nonce + 1) % word256;
  time = refreshed_time time start r.now;
}

-- What was found from the next header on was found one step further from this one.
further :
    (pb pb' h : Header) (n : ℕ) {P : Type 0}
    → pb'.nonce ≡ (pb.nonce + 1) % word256
    → SameTemplate pb' pb
    → P × SameTemplate h pb' × ((k : ℕ) × (k < n) × (h.nonce ≡ (pb'.nonce + k) % word256))
    → P × SameTemplate h pb × ((k : ℕ) × (k < suc n) × (h.nonce ≡ (pb.nonce + k) % word256))
further pb pb' h n step (a, b, c, d, e) (p, (a', b', c', d', e'), (k, lt, at)) =
    (p, (a' ∙ a, b' ∙ b, c' ∙ c, d' ∙ d, e' ∙ e), (suc k, omega arith, omega arith))

module _ (hash : Header → ℕ) (hash_target : ℕ) where
  get_rounds-target :
      (time start : ℕ) (rs : List Round) (pb h : Header) (cnt : ℕ)
      → pb.nonce < word256
      → get_rounds hash hash_target time start rs pb cnt ≡ target h
      → (hash h ≤ hash_target)
        × SameTemplate h pb
        × ((k : ℕ) × (k < length rs) × (h.nonce ≡ (pb.nonce + k) % word256))
  unfolding get_rounds
  get_rounds-target time start [] pb h cnt w e = cc
  get_rounds-target time start (r ∷ rs) pb h cnt w e =
      elim (Bool-cases (leb (hash pb) hash_target)) [
        | inl good ↦
            let same : pb ≡ h = ground arith in
            rw (← same)
              (leb→le _ _ good, (refl, refl, refl, refl, refl), (0, omega arith, omega arith))
        | inr bad ↦ elim (Bool-cases r.others) [
          | inl other ↦ absurd (ground arith)
          | inr free ↦ elim (Bool-cases (ltb 1000 cnt)) [
            | inl late ↦
                let rest : get_rounds hash hash_target time start rs (refreshed time start r pb) 1
                    ≡ target h =
                  ground arith in
                further pb (refreshed time start r pb) h (length rs) refl
                  (refl, refl, refl, refl, refl)
                  (get_rounds-target time start rs (refreshed time start r pb) h 1 (omega arith)
                    rest)
            | inr early ↦
                let rest : get_rounds hash hash_target time start rs (next pb) (cnt + 1)
                    ≡ target h =
                  ground arith in
                further pb (next pb) h (length rs) refl (refl, refl, refl, refl, refl)
                  (get_rounds-target time start rs (next pb) h (cnt + 1) (omega arith) rest)
          ]
        ]
      ]

  -- The search only ever prints a header whose hash is at most the target; it differs from the
  -- template in its time and nonce alone, and its nonce is the template's raised by fewer steps than
  -- there were rounds, on 256 bits. The template's nonce fits 256 bits.
  pub get-target :
      (pblock h : Header) (start : ℕ) (rounds : List Round)
      → pblock.nonce < word256
      → get hash hash_target pblock start rounds ≡ target h
      → (hash h ≤ hash_target)
        × SameTemplate h pblock
        × ((k : ℕ) × (k < length rounds) × (h.nonce ≡ (pblock.nonce + k) % word256))
  unfolding get
  get-target pblock h start rounds w e = get_rounds-target pblock.time start rounds pblock h 0 w e

  -- The template with its nonce raised by `k`.
  abbrev pub raised : Header → ℕ → Header
  raised pb k = record pb { nonce = (pb.nonce + k) % word256 }

  get_rounds_finds :
      (time start : ℕ) (rs : List Round) (pb : Header) (cnt k : ℕ)
      → pb.nonce < word256
      → cnt + k ≤ 1001
      → k < length rs
      → All (λ r. r.others ≡ false) rs
      → hash (raised pb k) ≤ hash_target
      → (h : Header) × (get_rounds hash hash_target time start rs pb cnt ≡ target h)
  unfolding get_rounds
  get_rounds_finds time start [] pb cnt k w few enough alone good = elim enough [ ]
  get_rounds_finds time start (r ∷ rs) pb cnt zero w few enough alone good =
      let same : raised pb 0 ≡ pb =
        ap (λ (n : ℕ). let h : Header = record pb { nonce = n } in h) (omega arith) in
      let good' : hash pb ≤ hash_target = subst (λ (h : Header). hash h ≤ hash_target) same good in
      (pb, ground arith)
  get_rounds_finds time start (r ∷ rs) pb cnt (suc k) w few enough alone good =
      let same : raised pb (suc k) ≡ raised (next pb) k =
        ap (λ (n : ℕ). let h : Header = record pb { nonce = n } in h) (omega arith) in
      let good' : hash (raised (next pb) k) ≤ hash_target =
        subst (λ (h : Header). hash h ≤ hash_target) same good in
      elim (Bool-cases (leb (hash pb) hash_target)) [
        | inl now ↦ (pb, ground arith)
        | inr later ↦
            let (h, found) =
              get_rounds_finds time start rs (next pb) (cnt + 1) k (omega arith) (omega arith)
                (omega arith) alone.1 good' in
            (h, ground (arith, found, later, alone.0))
      ]

  -- If the template with its nonce raised by some number of at most 1001 meets the target, a thread
  -- that no other thread stops prints a header within that many rounds and one.
  pub get_finds :
      (pblock : Header) (start k : ℕ) (rounds : List Round)
      → pblock.nonce < word256
      → k ≤ 1001
      → k < length rounds
      → All (λ r. r.others ≡ false) rounds
      → hash (raised pblock k) ≤ hash_target
      → (h : Header) × (get hash hash_target pblock start rounds ≡ target h)
  unfolding get
  get_finds pblock start k rounds w few enough alone good =
      get_rounds_finds pblock.time start rounds pblock 0 k w (omega arith) enough alone good
