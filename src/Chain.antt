-- ===== src/Chain.antt =====
-- The chain library that the program links, which is no part of this repository: its keys and
-- hashes, and the texts that it makes of them, are parameters of the model.
pub mod Toy
use coin_tool.Base.{ℕ, ◌≡◌, ◌≢◌, Bool, true, Option, none, some, List, Text, []}

pub record Crypto : Type 1 where
  pub Key : Type 0
  pub PubKey : Type 0
  pub KeyId : Type 0
  pub Digest : Type 0
  -- `CKey::GetPubKey`, `CKey::VerifyPubKey`, `CPubKey::GetID` and `==` of key ids
  pub get_pub_key : Key → PubKey
  pub verify_pub_key : Key → PubKey → Bool
  pub get_id : PubKey → KeyId
  pub id_eq : KeyId → KeyId → Bool
  -- the hash of a `CHashWriter` that has received these strings
  pub hash : List Text → Digest
  -- `CKey::Sign`, `CKey::SignCompact`, `CPubKey::Verify`, `CPubKey::RecoverCompact`
  pub sign : Key → Digest → Option Text
  pub sign_compact : Key → Digest → Option Text
  pub verify : PubKey → Digest → Text → Bool
  pub recover_compact : Digest → Text → Option PubKey
  -- `CBitcoinSecret::SetString` and `GetKey`, and the texts of keys and addresses
  pub parse_secret : Text → Option Key
  pub secret_string : Key → Text
  pub hex_key : Key → Text
  pub hex_pub_key : PubKey → Text
  pub parse_pub_key : Text → PubKey
  pub address_string : KeyId → Text
  pub id_string : KeyId → Text
  pub encode_base64 : Text → Text
  pub decode_base64 : Text → Text

-- What the library documents: a signature is accepted for the public key of its key, the public key
-- can be recovered from a compact signature, ids can be compared, and base64 can be read back.
pub record IsLawful (C : Crypto) : Type 0 where
  pub verify-sign :
      (k : C.Key) (d : C.Digest) (s : Text)
      → C.sign k d ≡ some s
      → C.verify (C.get_pub_key k) d s ≡ true
  pub recover-sign :
      (k : C.Key) (d : C.Digest) (s : Text)
      → C.sign_compact k d ≡ some s
      → C.recover_compact d s ≡ some (C.get_pub_key k)
  pub id_eq_refl : (i : C.KeyId) → C.id_eq i i ≡ true
  pub decode-encode : (s : Text) → C.decode_base64 (C.encode_base64 s) ≡ s
