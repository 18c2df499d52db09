-- ===== src/Utils/Report/Laws.antt =====
-- When an error message fits the buffer that it is formatted into.
use coin_tool.Base.{
  ℕ, ◌<◌, ◌≤◌, ◌≡◌, refl, ◌↔◌, ◌⊎◌, false, none, some, [], ◌∷◌, arith, length, Text, All,
}
use coin_tool.Utils.Report.{c_string, vsprintf, showerror, error_line}

-- No byte of the text is zero.
abbrev pub HasNoNul : Text → Type 0
HasNoNul = All (λ c. 1 ≤ c)

pub c_string_lem : (s : Text) → HasNoNul s → c_string s ≡ s
unfolding c_string
c_string_lem [] h = refl
c_string_lem (c ∷ s) h = ground (arith, c_string_lem s h.1)

pub vsprintf_fits : (size : ℕ) (s : Text) → HasNoNul s → length s < size → vsprintf size s ≡ some s
unfolding vsprintf
vsprintf_fits size s h fits = ground (arith, c_string_lem s h)

pub vsprintf-eq-none : (size : ℕ) (s : Text) → (vsprintf size s ≡ none) ↔ (size ≤ length s)
unfolding vsprintf
vsprintf-eq-none size s = (λ h. ground arith, λ h. ground arith)

pub vsprintf-cases :
    (size : ℕ) (s : Text) → HasNoNul s → (vsprintf size s ≡ none) ⊎ (vsprintf size s ≡ some s)
unfolding vsprintf
vsprintf-cases size s h = ground (arith, c_string_lem s h)

-- An error is printed whole, and false is returned, if the message has at most 99 bytes; the call
-- writes behind its buffer exactly if it has more.
pub showerror_lem :
    (s : Text)
    → HasNoNul s
    → (length s < 100 → showerror s ≡ some (false, error_line s))
      × ((showerror s ≡ none) ↔ (100 ≤ length s))
unfolding showerror
showerror_lem s h =
    (λ fits. rw (vsprintf_fits 100 s h fits), (λ e. ground arith, λ e. ground arith))
