-- ===== src/Chain/Toy.antt =====
-- A small instance of the chain library's interface: it shows that the laws can hold together, and
-- the tests run over it. A key is a number and its own public key.
use coin_tool.Base.{
  ℕ, refl, Option, none, some, [], ◌∷◌, arith, ◌==◌, if◌then◌else◌, Text, text_eq, text_eq_refl,
  first,
}
use coin_tool.Chain.{Crypto, IsLawful}
use mathlib.Core.List.{flatten}

abbrev pub recover : Text → Text → Option ℕ
recover d [] = none
recover d (k ∷ s) = if text_eq s d then some k else none

abbrev pub toy : Crypto
toy = record {
  Key = ℕ;
  PubKey = ℕ;
  KeyId = ℕ;
  Digest = Text;
  get_pub_key = λ k. k;
  verify_pub_key = λ k p. k == p;
  get_id = λ p. p;
  id_eq = λ i j. i == j;
  hash = flatten;
  sign = λ k d. if k == 0 then none else some (k ∷ d);
  sign_compact = λ k d. if k == 0 then none else some (k ∷ d);
  verify = λ p d s. text_eq (p ∷ d) s;
  recover_compact = recover;
  parse_secret = first;
  secret_string = λ k. k ∷ [];
  hex_key = λ k. k ∷ [];
  hex_pub_key = λ p. p ∷ [];
  parse_pub_key = λ s. elim (first s) [ none ↦ 0 | some p ↦ p ];
  address_string = λ i. b'U' ∷ i ∷ [];
  id_string = λ i. i ∷ [];
  encode_base64 = λ s. s;
  decode_base64 = λ s. s;
}

pub toy-IsLawful : IsLawful toy
toy-IsLawful = record {
  verify-sign = λ k d s h. ground (arith, text_eq_refl (k ∷ d));
  recover-sign = λ k d s h. ground (arith, text_eq_refl d);
  id_eq_refl = λ i. ground arith;
  decode-encode = λ s. refl;
}
