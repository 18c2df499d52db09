-- ===== src/Utils/Rank.antt =====
-- `GetRankString` and `atob` of `common/utils.cpp`.
pub mod Laws
use coin_tool.Base.{ℕ, Bool, [], ◌∷◌, ◌++◌, ltb, ◌==◌, if◌then◌else◌, Text, bytes, text_eq}
use coin_tool.Base.Int.{ℤ, pos, negsuc}
use coin_tool.Number.{decimal}

unfoldable pub get_rank_string : ℤ → Text
get_rank_string (negsuc n) = []
get_rank_string (pos n) =
    if n == 1
    then bytes "1st"
    else if n == 2
    then bytes "2nd"
    else if n == 3
    then bytes "3rd"
    else if ltb n 1
    then []
    else decimal n ++ bytes "th"

unfoldable pub atob : Text → Bool
atob s = text_eq (bytes "true") s
