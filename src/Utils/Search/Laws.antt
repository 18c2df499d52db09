-- ===== src/Utils/Search/Laws.antt =====
-- What `ci_find_substr` returns: the first match, without regard to case.
use coin_tool.Base.{
  ◌+◌, ◌⊎◌, ◌↔◌, ◌++◌, ap, and_true, ℕ, zero, suc, ◌<◌, ◌≤◌, ◌≡◌, refl, inl, inr, Bool, true, false,
  some, [], ◌∷◌, arith, length, drop, ◌==◌, Bool-cases, Option-cases, Text,
}
use coin_tool.Base.Int.{ℤ, pos, negsuc}
use coin_tool.Utils.Search.{my_equal, starts_with, search_range, ci_find_substr, find}

module _ (same : ℕ → ℕ → Bool) where
  abbrev pub matches_at : Text → Text → ℕ → Bool
  matches_at s t j = starts_with same (drop j s) t

  pub search_range-le : (s t : Text) → search_range same s t ≤ length s
  unfolding search_range
  search_range-le [] t = omega arith
  search_range-le (x ∷ s) t = ground (arith, search_range-le s t)

  search_range_matches :
      (s t : Text)
      → search_range same s t < length s
      → matches_at s t (search_range same s t) ≡ true
  unfolding search_range
  search_range_matches [] t h = elim h [ ]
  search_range_matches (x ∷ s) t h = elim (Bool-cases (starts_with same (x ∷ s) t)) [
    | inl e ↦ rw e e
    | inr e ↦ rw e (search_range_matches s t (ground arith))
  ]

  search_range_first : (s t : Text) (j : ℕ) → j < search_range same s t → matches_at s t j ≡ false
  unfolding search_range
  search_range_first [] t j h = elim h [ ]
  search_range_first (x ∷ s) t zero h = ground arith
  search_range_first (x ∷ s) t (suc j) h = ground (arith, search_range_first s t j)

-- Two bytes are equal, or one is a small letter and the other the same letter as a capital, 32 below.
abbrev pub SameLetter : ℕ → ℕ → Type 0
SameLetter a b =
    (a ≡ b) ⊎ ((b'a' ≤ a) × (a ≤ b'z') × (a ≡ b + 32)) ⊎ ((b'a' ≤ b) × (b ≤ b'z') × (b ≡ a + 32))

-- Two texts of one length are equal letter for letter, without regard to case.
abbrev pub SameLetters : Text → Text → Type 0
SameLetters [] [] = Unit {0}
SameLetters [] (y ∷ t) = ⊥
SameLetters (x ∷ s) [] = ⊥
SameLetters (x ∷ s) (y ∷ t) = SameLetter x y × SameLetters s t

-- A text has a target at a position, without regard to case.
abbrev pub OccursAt : Text → Text → ℕ → Type 0
OccursAt s t i = (v : Text) × (rest : Text) × (drop i s ≡ v ++ rest) × SameLetters v t

-- A predicate fails at every number below `n`.
abbrev pub NoneBelow : ℕ → (ℕ → Type 0) → Type 0
NoneBelow zero P = Unit {0}
NoneBelow (suc n) P = ¬ P n × NoneBelow n P

my_equal_iff : (a b : ℕ) → (my_equal a b ≡ true) ↔ SameLetter a b
unfolding my_equal
my_equal_iff a b = (λ h. ground arith, λ h. ground arith)

starts_with-SameLetters :
    (s t : Text)
    → starts_with my_equal s t ≡ true
    → (v : Text) × (rest : Text) × (s ≡ v ++ rest) × SameLetters v t
unfolding starts_with
starts_with-SameLetters s [] h = ([], s, refl, tt)
starts_with-SameLetters [] (y ∷ t) h = cc
starts_with-SameLetters (x ∷ s) (y ∷ t) h =
    let (first, others) = and_true (my_equal x y) (starts_with my_equal s t) h in
    let (v, rest, e, same) = starts_with-SameLetters s t others in
    (x ∷ v, rest, ap (λ l. x ∷ l) e, ((my_equal_iff x y).0 first, same))

starts_with_of_SameLetters :
    (v rest t : Text) → SameLetters v t → starts_with my_equal (v ++ rest) t ≡ true
unfolding starts_with
starts_with_of_SameLetters [] [] [] h = refl
starts_with_of_SameLetters [] (r ∷ rest) [] h = refl
starts_with_of_SameLetters [] rest (y ∷ t) h = elim h [ ]
starts_with_of_SameLetters (x ∷ v) rest [] h = elim h [ ]
starts_with_of_SameLetters (x ∷ v) rest (y ∷ t) h =
    ground (arith, (my_equal_iff x y).1 h.0, starts_with_of_SameLetters v rest t h.1)

not-OccursAt : (s t : Text) (i : ℕ) → matches_at my_equal s t i ≡ false → ¬ OccursAt s t i
not-OccursAt s t i missing (v, rest, e, same) =
    let found : matches_at my_equal s t i ≡ true =
      rw e (starts_with_of_SameLetters v rest t same) in
    ground (arith, found, missing)

NoneBelow_lem : (n : ℕ) (P : ℕ → Type 0) → ((j : ℕ) → j < n → ¬ P j) → NoneBelow n P
NoneBelow_lem zero P h = tt
NoneBelow_lem (suc n) P h = (h n (omega arith), NoneBelow_lem n P (λ j lt. h j (omega arith)))

-- A result that is not negative is a position in the text at which the target occurs, and before
-- which it does not; the only negative result is -1, for a text with the target at no position.
abbrev pub IsFirstMatch : Text → Text → ℤ → Type 0
IsFirstMatch s t (pos i) = (i < length s) × OccursAt s t i × NoneBelow i (OccursAt s t)
IsFirstMatch s t (negsuc n) = (n ≡ 0) × NoneBelow (length s) (OccursAt s t)

-- The result of `ci_find_substr` is the first position in the text at which the target occurs
-- without regard to the case of the letters A to Z, or -1 if it occurs at no position.
pub ci_find_substr-IsFirstMatch : (s t : Text) → IsFirstMatch s t (ci_find_substr s t)
unfolding ci_find_substr
ci_find_substr-IsFirstMatch s t =
    let i = search_range my_equal s t in
    let before =
      λ (j : ℕ) (lt : j < i). not-OccursAt s t j (search_range_first my_equal s t j lt) in
    elim (Bool-cases (i == length s)) [
      | inl e ↦ rw e (refl, NoneBelow_lem _ _ (λ j h. before j (ground arith)))
      | inr e ↦
          let inside : i < length s = ground (arith, search_range-le my_equal s t) in
          rw e (
            inside,
            starts_with-SameLetters _ _ (search_range_matches my_equal s t inside),
            NoneBelow_lem i (OccursAt s t) before,
          )
    ]

-- Equal letters are equal without regard to case, so a target that `find` finds at a position of a
-- text is found by `ci_find_substr` too, and not later.
starts_with-my_equal : (s t : Text) → starts_with ◌==◌ s t ≡ true → starts_with my_equal s t ≡ true
unfolding starts_with my_equal
starts_with-my_equal s [] h = refl
starts_with-my_equal [] (y ∷ t) h = ground arith
starts_with-my_equal (x ∷ s) (y ∷ t) h = ground (arith, starts_with-my_equal s t)

search_range-find : (s t : Text) (i : ℕ) → find s t ≡ some i → search_range my_equal s t ≤ i
unfolding search_range find
search_range-find [] t i h = omega arith
search_range-find (x ∷ s) t i h = elim (Bool-cases (starts_with ◌==◌ (x ∷ s) t)) [
  | inl e ↦ ground (arith, starts_with-my_equal (x ∷ s) t e)
  | inr e ↦ elim (Option-cases (find s t)) [
    | inl missing ↦ ground arith
    | inr (k, found) ↦ ground (arith, search_range-find s t k found)
  ]
]

pub ci_find_substr-find :
    (s t : Text) (i : ℕ)
    → find s t ≡ some i
    → i < length s
    → (j : ℕ) × (ci_find_substr s t ≡ pos j) × (j ≤ i)
unfolding ci_find_substr
ci_find_substr-find s t i h inside = (
  search_range my_equal s t,
  ground (arith, search_range-find s t i h),
  search_range-find s t i h,
)
