-- ===== src/Utils/Search.antt =====
-- `my_equal` and `ci_find_substr` of `common/utils.h`, in the "C" locale that the program runs in,
-- and the standard library's `std::search` and `std::string::find`.
pub mod Laws
use mathlib.Core.Option
use coin_tool.Base.{
  ℕ, zero, suc, ◌-◌, Bool, true, false, ◌&&◌, Option, none, some, List, [], ◌∷◌, length, leb, ◌==◌,
  if◌then◌else◌, Text,
}
use coin_tool.Base.Int.{ℤ, pos, negsuc}

-- `std::toupper` in the "C" locale.
unfoldable pub to_upper : ℕ → ℕ
to_upper c = if leb b'a' c && leb c b'z' then c - 32 else c

unfoldable pub my_equal : ℕ → ℕ → Bool
unfolding to_upper
my_equal a b = to_upper a == to_upper b

module _ (same : ℕ → ℕ → Bool) where
  -- Whether a text begins with a target.
  unfoldable pub starts_with : Text → Text → Bool
  starts_with s [] = true
  starts_with [] (y ∷ t) = false
  starts_with (x ∷ s) (y ∷ t) = same x y && starts_with s t

  -- `std::search`, as the distance from the begin; the end is returned if there is no match.
  unfoldable pub search_range : Text → Text → ℕ
  unfolding starts_with
  search_range [] t = 0
  search_range (x ∷ s) t = if starts_with (x ∷ s) t then 0 else suc (search_range s t)

-- The position of the first match, and -1 if the search came to the end.
unfoldable pub ci_find_substr : Text → Text → ℤ
unfolding search_range my_equal
ci_find_substr s t = let i = search_range my_equal s t in if i == length s then negsuc 0 else pos i

-- `s.find(t)`; `none` is `npos`.
unfoldable pub find : Text → Text → Option ℕ
unfolding starts_with
find [] t = if starts_with ◌==◌ [] t then some 0 else none
find (x ∷ s) t = if starts_with ◌==◌ (x ∷ s) t then some 0 else Option.map suc (find s t)
