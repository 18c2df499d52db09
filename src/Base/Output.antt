-- ===== src/Base/Output.antt =====
-- What the program writes to `std::cout`, as the items that it inserts, in order.
use coin_tool.Base.Bytes.{Text}
use coin_tool.Base.Int.{ℤ}
use Prim.Native.Nat.{ℕ}
use Prim.Native.String.{String}
use mathlib.Core.List.{List}

-- A literal, a `std::string`, a number, a `setw` for the next item, and `endl`.
pub data Item : Type 0 where
  lit : String → Item
  text : Text → Item
  int : ℤ → Item
  setw : ℕ → Item
  endl : Item

abbrev pub Out : Type 0
Out = List Item
