-- ===== src/Key/Address/Laws.antt =====
-- What "newaddress" prints, and when a failed check of a new key writes behind its buffer.
use coin_tool.Base.{
  Bool-cases, text_eq, text_eq_iff, inl, inr, sym, ◌∙◌, ℕ, zero, suc, ◌+◌, ◌≤◌, ◌≡◌, refl, ◌↔◌,
  Bool, true, false, none, some, List, [], ◌∷◌, ◌++◌, arith, length, Text, bytes,
}
use coin_tool.Base.Output.{Out}
use coin_tool.Chain.{Crypto}
use coin_tool.Number.{decimal}
use coin_tool.Number.RoundTrip.{atoi-decimal_self}
use coin_tool.Utils.Rank.{atob}
use coin_tool.Utils.Report.{showerror}
use coin_tool.Utils.Report.Laws.{vsprintf-eq-none}
use coin_tool.Key.Address.{new_key_lines, make_new_key, new_address_rounds, new_address}

module _ (C : Crypto) where
  open C use {Key, get_pub_key, verify_pub_key, hex_pub_key}

  -- A new key that fails its check makes the tool write behind the buffer of the error message
  -- exactly if the key's public key has 80 hexadecimal digits or more; a key that passes never does.
  pub make_new_key-eq-none :
      (compressed : Bool) (k : Key)
      → (make_new_key C compressed k ≡ none)
        ↔ ((verify_pub_key k (get_pub_key k) ≡ false) × (80 ≤ length (hex_pub_key (get_pub_key k))))
  unfolding make_new_key showerror
  make_new_key-eq-none compressed k =
      let hex = hex_pub_key (get_pub_key k) in
      let overrun = vsprintf-eq-none 100 (bytes "VerifyPubKey failed " ++ hex) in
      (λ h. ground (arith, overrun.0), λ h. ground (arith, overrun.1))

  module _ (make : Bool → ℕ → Key) where
    -- The lines of the keys from number `i` on.
    pub address_blocks : Bool → ℕ → ℕ → Out
    address_blocks compressed i zero = []
    address_blocks compressed i (suc more) =
        new_key_lines C compressed (make compressed i) ++ address_blocks compressed (i + 1) more

    new_address_rounds_lem :
        ((k : Key) → verify_pub_key k (get_pub_key k) ≡ true)
        → (compressed : Bool) (i n : ℕ)
        → new_address_rounds C make compressed i n ≡ some (address_blocks compressed i n)
    unfolding new_address_rounds make_new_key address_blocks
    new_address_rounds_lem verified compressed i zero = refl
    new_address_rounds_lem verified compressed i (suc more) = ground (
      arith,
      verified (make compressed i),
      new_address_rounds_lem verified compressed (i + 1) more,
    )

    atob_lem : (flag : Text) (b : Bool) → ((b ≡ true) ↔ (flag ≡ bytes "true")) → atob flag ≡ b
    unfolding atob
    atob_lem flag true h = (text_eq_iff (bytes "true") flag).1 (sym (h.0 refl))
    atob_lem flag false h = elim (Bool-cases (text_eq (bytes "true") flag)) [
      | inl e ↦ e ∙ sym (h.1 (sym ((text_eq_iff (bytes "true") flag).0 e)))
      | inr e ↦ e
    ]

    -- Where every new key passes its check, "newaddress" with the decimal digits of a number prints
    -- that many new keys in order, compressed exactly if the first argument is the text "true".
    pub new_address_lem :
        ((k : Key) → verify_pub_key k (get_pub_key k) ≡ true)
        → (prog cmd flag : Text) (compressed : Bool) (n : ℕ) (rest : List Text)
        → ((compressed ≡ true) ↔ (flag ≡ bytes "true"))
        → new_address C make (prog ∷ cmd ∷ flag ∷ decimal n ∷ rest)
          ≡ some (address_blocks compressed 0 n)
    unfolding new_address
    new_address_lem verified prog cmd flag compressed n rest meant = ground (
      arith,
      atoi-decimal_self n,
      atob_lem flag compressed meant,
      new_address_rounds_lem verified compressed 0 n,
    )
