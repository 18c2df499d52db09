-- ===== src/Number/RoundTrip.antt =====
-- `atoi` reads back what a stream prints.
use coin_tool.Base.{
  ℕ, zero, suc, ◌+◌, ◌*◌, ◌/◌, ◌%◌, ◌<◌, ◌≡◌, ◌∙◌, ◌-◌, ap, refl, inl, inr, true, false, [], ◌∷◌,
  ◌++◌, append-nil, arith, ◌==◌, Bool-cases, Text,
}
use coin_tool.Base.Int.{pos}
use coin_tool.Number.{
  is_digit, signed_value, is_space, digits_value, skip_space, atoi, decimal_loop, decimal,
}

pub decimal_loop-append :
    (f n : ℕ) (s t : Text) → decimal_loop f n s ++ t ≡ decimal_loop f n (s ++ t)
unfolding decimal_loop
decimal_loop-append zero n s t = refl
decimal_loop-append (suc f) n s t = elim (Bool-cases (n / 10 == 0)) [
  | inl e ↦ rw e
  | inr e ↦ rw e (decimal_loop-append f (n / 10) _ t)
]

digits_value-digit :
    (acc d : ℕ) (rest : Text)
    → d < 10
    → digits_value acc ((b'0' + d) ∷ rest) ≡ digits_value (acc * 10 + d) rest
unfolding digits_value
digits_value-digit acc d rest h =
    let digit : is_digit (b'0' + d) ≡ true = ground arith in
    let same : acc * 10 + (b'0' + d - b'0') ≡ acc * 10 + d = omega arith in rw (digit, same)

-- Reading the digits of `n` is reading what follows them with `n` read so far.
pub digits_value-decimal_loop :
    (f n : ℕ) (rest : Text) → n < f → digits_value 0 (decimal_loop f n rest) ≡ digits_value n rest
unfolding decimal_loop
digits_value-decimal_loop zero n rest h = elim h [ ]
digits_value-decimal_loop (suc f) n rest h = elim (Bool-cases (n / 10 == 0)) [
  | inl e ↦ rw e (
      digits_value-digit 0 (n % 10) rest (omega arith)
      ∙ ap (λ (t : ℕ). digits_value t rest) (ground arith))
  | inr e ↦ rw e (
      digits_value-decimal_loop f (n / 10) _ (ground arith)
      ∙ digits_value-digit (n / 10) (n % 10) rest (omega arith)
      ∙ ap (λ (t : ℕ). digits_value t rest) (omega arith))
]

atoi-digit :
    (d : ℕ) (s : Text) → d < 10 → atoi ((b'0' + d) ∷ s) ≡ pos (digits_value 0 ((b'0' + d) ∷ s))
unfolding atoi
atoi-digit d s h =
    let not_space : is_space (b'0' + d) ≡ false = ground arith in
    let not_minus : (b'0' + d == b'-') ≡ false = ground arith in
    let not_plus : (b'0' + d == b'+') ≡ false = ground arith in
    rw not_space (rw (not_minus, not_plus))

-- The text begins with a digit, so `atoi` skips no space and finds no sign.
atoi-decimal_loop_unsigned :
    (f n : ℕ) (rest : Text)
    → n < f
    → atoi (decimal_loop f n rest) ≡ pos (digits_value 0 (decimal_loop f n rest))
unfolding decimal_loop
atoi-decimal_loop_unsigned zero n rest h = elim h [ ]
atoi-decimal_loop_unsigned (suc f) n rest h = elim (Bool-cases (n / 10 == 0)) [
  | inl e ↦ rw e (atoi-digit (n % 10) rest (omega arith))
  | inr e ↦ rw e (atoi-decimal_loop_unsigned f (n / 10) _ (ground arith))
]

-- A text that begins with the digits of `n` is read as `n`, if no digit follows.
pub atoi-decimal :
    (n : ℕ) (rest : Text) → digits_value n rest ≡ n → atoi (decimal n ++ rest) ≡ pos n
unfolding decimal
atoi-decimal n rest h =
    rw (decimal_loop-append, atoi-decimal_loop_unsigned (suc n) n rest (omega arith))
      (ap pos (digits_value-decimal_loop (suc n) n rest (omega arith) ∙ h))

digits_value-nil : (n : ℕ) → digits_value n [] ≡ n
unfolding digits_value
digits_value-nil n = refl

pub atoi-decimal_self : (n : ℕ) → atoi (decimal n) ≡ pos n
atoi-decimal_self n =
    let plain : decimal n ++ [] ≡ decimal n = append-nil (decimal n) in
    rw plain at (atoi-decimal n [] (digits_value-nil n))

-- A text that begins with no digit, space or sign spells zero.
pub atoi_word :
    (c : ℕ) (s : Text)
    → is_digit c ≡ false
    → is_space c ≡ false
    → (c == b'-') ≡ false
    → (c == b'+') ≡ false
    → atoi (c ∷ s) ≡ pos 0
unfolding atoi signed_value skip_space digits_value
atoi_word c s digit space minus plus = rw (space, minus, plus, digit) refl
