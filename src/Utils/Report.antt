-- ===== src/Utils/Report.antt =====
-- `showerror` and `showreturn` of `common/utils.cpp`: a message is formatted by `vsprintf` into a
-- buffer on the stack, and printed behind "ERROR: ".
pub mod Laws
use mathlib.Core.Option
use coin_tool.Base.{
  ℕ, zero, suc, ◌-◌, Bool, true, false, Option, none, some, List, [], ◌∷◌, ◌++◌, length, ltb, ◌==◌,
  if◌then◌else◌, Text, bytes,
}
use coin_tool.Base.Int.{ℤ, negsuc}
use coin_tool.Base.Output.{Out, text}

-- `strlen` stops at the first zero byte.
unfoldable pub c_string : Text → Text
c_string [] = []
c_string (c ∷ s) = let rest = c_string s in if c == 0 then [] else c ∷ rest

-- `vsprintf(buf, …)` with `char buf[size]`, and the string that is read back from `buf`. `none` is a
-- write behind the end of the buffer: the text and its terminating zero do not fit.
unfoldable pub vsprintf : ℕ → Text → Option Text
unfolding c_string
vsprintf size formatted = if ltb (length formatted) size then some (c_string formatted) else none

abbrev pub error_line : Text → Out
error_line s = text (bytes "ERROR: " ++ (s ++ bytes "\n")) ∷ []

-- The argument is the formatted message; the results are the returned value and what is printed.
unfoldable pub showerror : Text → Option (Bool × Out)
unfolding vsprintf
showerror formatted = Option.map (λ s. (false, error_line s)) (vsprintf 100 formatted)

unfoldable pub showreturn : Text → Option (ℤ × Out)
unfolding vsprintf
showreturn formatted = Option.map (λ s. (negsuc 0, error_line s)) (vsprintf 100 formatted)
