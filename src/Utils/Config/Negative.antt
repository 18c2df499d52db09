-- ===== src/Utils/Config/Negative.antt =====
-- Keys of the form "-noX".
use coin_tool.Base.{
  ℕ, [], ◌≢◌, ◌↔◌, ◌⊎◌, false, ◌≡◌, refl, true, not, ◌∷◌, arith, Bool-cases, inl, inr, Text, bytes,
}
use coin_tool.Base.Int.{ℤ, pos, eqb_ℤ_sound}
use coin_tool.Utils.Config.{is_negative, tools_interpret_bool, tools_interpret_negative_setting}

abbrev pub minus_no : Text → Text
minus_no x = b'-' ∷ b'n' ∷ b'o' ∷ x

is_negative-minus_no : (c : ℕ) (x : Text) → is_negative (minus_no (c ∷ x)) ≡ true
unfolding is_negative
is_negative-minus_no c x = ground arith

module _ (atoi : Text → ℤ) where
  tools_interpret_bool_iff :
      (v : Text) → (tools_interpret_bool atoi v ≡ true) ↔ ((v ≡ []) ⊎ (atoi v ≢ pos 0))
  unfolding tools_interpret_bool
  tools_interpret_bool_iff [] = (λ _. inl refl, λ _. refl)
  tools_interpret_bool_iff (c ∷ v) = (
    λ h. inr (λ e. ground (arith, h, e)),
    λ h. ground (arith, h, eqb_ℤ_sound (atoi (c ∷ v)) (pos 0)),
  )

  unset_value : (v : Text) → tools_interpret_bool atoi v ≡ false → (v ≢ []) × (atoi v ≡ pos 0)
  unfolding tools_interpret_bool
  unset_value [] h = cc
  unset_value (c ∷ v) h = (λ e. cc, eqb_ℤ_sound _ _ (ground arith))

  -- Setting -noX sets X to "0" if the value of -noX is empty or `atoi` reads it as another number
  -- than 0, and to "1" otherwise; the value of X read as a test is the negation of the value of
  -- -noX. `atoi` need only read "0" and "1".
  pub tools_interpret_negative_setting_negates :
      (c : ℕ) (x v : Text)
      → atoi (bytes "0") ≡ pos 0
      → atoi (bytes "1") ≡ pos 1
      → let (k', v') = tools_interpret_negative_setting atoi (minus_no (c ∷ x)) v in
        (k' ≡ b'-' ∷ c ∷ x)
        × (((v' ≡ bytes "0") × ((v ≡ []) ⊎ (atoi v ≢ pos 0)))
            ⊎ ((v' ≡ bytes "1") × (v ≢ []) × (atoi v ≡ pos 0)))
        × (tools_interpret_bool atoi v' ≡ not (tools_interpret_bool atoi v))
  unfolding tools_interpret_negative_setting
  tools_interpret_negative_setting_negates c x v zero one =
      let read = tools_interpret_bool_iff v in
      elim (Bool-cases (tools_interpret_bool atoi v)) [
        | inl set ↦
            rw (is_negative-minus_no c x, set) (refl, inl (refl, read.0 set), ground (arith, zero))
        | inr unset ↦
            let (given, zero_read) = unset_value v unset in
            rw (is_negative-minus_no c x, unset)
              (refl, inr (refl, given, zero_read), ground (arith, one))
      ]
