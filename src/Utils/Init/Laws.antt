-- ===== src/Utils/Init/Laws.antt =====
-- Which levels `InitSys` turns on.
use coin_tool.Base.{
  ◌≡◌, true, ◌||◌, ◌&&◌, some, List, [], ◌∷◌, ◌++◌, arith, not_empty, Text, Bool-cases, inl, inr,
}
use coin_tool.Base.Int.{ℤ, eqb_ℤ, eqb_ℤ_sound}
use coin_tool.Base.Dict.{lookup, values, value_or}
use coin_tool.Utils.Config.{Settings}
use coin_tool.Utils.Init.{Levels, has_level, insert_level, insert_rounds, init_levels}

has_level-append :
    (ls : Levels) (m n : ℤ) → has_level (ls ++ (m ∷ [])) n ≡ (has_level ls n || eqb_ℤ m n)
unfolding has_level
has_level-append [] m n = ground arith
has_level-append (l ∷ ls) m n = ground (arith, has_level-append ls m n)

pub has_level-insert_level :
    (ls : Levels) (m n : ℤ) → has_level (insert_level m ls) n ≡ (has_level ls n || eqb_ℤ m n)
unfolding insert_level
has_level-insert_level ls m n = elim (Bool-cases (has_level ls m)) [
  | inl old ↦
      rw (insert_level, old)
        (elim (Bool-cases (eqb_ℤ m n)) [
          | inl same ↦ rw (same, ← eqb_ℤ_sound m n same) (rw old)
          | inr other ↦ ground arith
        ])
  | inr new ↦ rw (insert_level, new) (has_level-append ls m n)
]

module _ (atoi : Text → ℤ) where
  has_level-insert_rounds :
      (k : Text) (s : Settings) (strs : List Text) (ls : Levels) (n : ℤ)
      → has_level (insert_rounds atoi k s strs ls) n
        ≡ (has_level ls n || (not_empty strs && eqb_ℤ (atoi (value_or (lookup k s.args) [])) n))
  unfolding insert_rounds
  has_level-insert_rounds k s [] ls n = ground arith
  has_level-insert_rounds k s (str ∷ strs) ls n =
      let v = atoi (value_or (lookup k s.args) []) in
      ground (
        arith,
        has_level-insert_rounds k s strs (insert_level v ls) n,
        has_level-insert_level ls v n,
      )

  -- For a key with values a level is on afterwards exactly if it was on or is the number that the
  -- key's value in `mapArgs` spells. The key's other values in `mapMultiArgs` turn no level on.
  pub has_level-init_levels :
      (k v : Text) (s : Settings) (ls : Levels) (n : ℤ)
      → lookup k s.args ≡ some v
      → not_empty (values k s.multi) ≡ true
      → has_level (init_levels atoi k s ls) n ≡ (has_level ls n || eqb_ℤ (atoi v) n)
  unfolding init_levels
  has_level-init_levels k v s ls n given listed =
      ground (arith, has_level-insert_rounds k s (values k s.multi) ls n)
