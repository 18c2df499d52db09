-- ===== src/Key/Find/Targets.antt =====
-- The loop over the targets is a conjunction.
use coin_tool.Base.{
  ℕ, ◌+◌, ◌≡◌, refl, Bool, ◌&&◌, List, [], ◌∷◌, arith, not_empty, length, all, Text,
}
use coin_tool.Key.Find.{is_found, match_targets}

match_targets_from :
    (is_case : Bool) (address : Text) (ts : List Text) (imatch : ℕ)
    → match_targets is_case address (imatch + length ts) ts imatch
      ≡ (not_empty ts && all (is_found is_case address) ts)
unfolding match_targets
match_targets_from is_case address [] imatch = refl
match_targets_from is_case address (t ∷ []) imatch = ground arith
match_targets_from is_case address (t ∷ u ∷ ts) imatch =
    let more : imatch + 1 + length (u ∷ ts) ≡ imatch + length (t ∷ u ∷ ts) = omega arith in
    ground (arith, more, match_targets_from is_case address (u ∷ ts) (imatch + 1))

-- An address is taken exactly if there is a target and every target is found in it.
pub match_targets_lem :
    (is_case : Bool) (address : Text) (ts : List Text)
    → match_targets is_case address (length ts) ts 0
      ≡ (not_empty ts && all (is_found is_case address) ts)
match_targets_lem is_case address ts =
    let size : 0 + length ts ≡ length ts = omega arith in
    rw size at (match_targets_from is_case address ts 0)
