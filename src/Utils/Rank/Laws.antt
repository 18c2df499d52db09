-- ===== src/Utils/Rank/Laws.antt =====
-- The rank string of a positive index spells that index.
use coin_tool.Base.{
  ℕ, ◌≤◌, ◌≡◌, refl, ◌≢◌, ◌↔◌, inl, inr, false, [], ◌∷◌, ◌++◌, arith, ◌==◌, ltb, Bool-cases, Text,
  bytes,
}
use coin_tool.Base.Int.{ℤ, pos, negsuc, ◌≤ℤ◌}
use coin_tool.Number.{atoi, decimal}
use coin_tool.Number.RoundTrip.{atoi-decimal}
use coin_tool.Utils.Rank.{get_rank_string}

-- `atoi` reads the index back from the rank string of every index from 1 on.
pub atoi-get_rank_string : (n : ℕ) → 1 ≤ n → atoi (get_rank_string (pos n)) ≡ pos n
unfolding get_rank_string atoi
atoi-get_rank_string n h = elim (Bool-cases (n == 1)) [
  | inl e ↦ rw e (ground arith)
  | inr e1 ↦ elim (Bool-cases (n == 2)) [
    | inl e ↦ rw (e1, e) (ground arith)
    | inr e2 ↦ elim (Bool-cases (n == 3)) [
      | inl e ↦ rw (e1, e2, e) (ground arith)
      | inr e3 ↦
          let large : ltb n 1 ≡ false = ground arith in
          rw (e1, e2, e3, large) (atoi-decimal n (bytes "th") (ground arith))
    ]
  ]
]

append-ne-nil : (s : Text) (c : ℕ) (t : Text) → s ++ (c ∷ t) ≢ []
append-ne-nil [] c t h = cc
append-ne-nil (x ∷ s) c t h = cc

-- The rank string is empty exactly for the indices below 1.
pub get_rank_string-eq-nil : (i : ℤ) → (get_rank_string i ≡ []) ↔ (i ≤ℤ pos 0)
unfolding get_rank_string decimal
get_rank_string-eq-nil (negsuc n) = (λ _. omega arith, λ _. refl)
get_rank_string-eq-nil (pos n) =
    (λ h. ground (arith, append-ne-nil (decimal n) b't' (b'h' ∷ [])), λ h. ground arith)
