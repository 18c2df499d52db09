-- ===== src/Key/Message/Laws.antt =====
-- A signature verifies for the public key of its key, and the test for a pair tells by the key id.
use coin_tool.Base.{◌≡◌, Bool, true, some, [], arith, Option-cases, inl, inr, Text}
use coin_tool.Chain.{Crypto, IsLawful}
use coin_tool.Key.Message.{
  message_hash, compact_sign, compact_verify, msg_sign, msg_verify, is_pair_of_key,
}

module _ (C : Crypto) (L : IsLawful C) where
  open C use {Key, PubKey, Digest, get_pub_key, get_id, id_eq, sign, sign_compact, verify}

  -- What `MsgSign` returns, `MsgVerify` accepts for the public key of the key, and prints nothing.
  pub msg_verify-msg_sign :
      (k : Key) (message sig : Text) (log log' : Bool)
      → (msg_sign C k message log).0 ≡ some sig
      → msg_verify C (get_pub_key k) message sig log' ≡ (true, [])
  unfolding msg_sign msg_verify
  msg_verify-msg_sign k message sig log log' e =
      ground (arith, L.verify-sign k (message_hash C message) sig)

  -- What `CompactSign` returns, `CompactVerify` accepts for every public key with the id of the
  -- key's own, and for no other.
  pub compact_verify-compact_sign :
      (k : Key) (p : PubKey) (message sig : Text) (log : Bool)
      → compact_sign C k message ≡ some sig
      → (compact_verify C p message sig log).0 ≡ id_eq (get_id (get_pub_key k)) (get_id p)
  unfolding compact_sign compact_verify
  compact_verify-compact_sign k p message sig log e =
      ground (arith, L.recover-sign k (message_hash C message) sig)

  -- A key that can sign the message in both ways is paired with its own public key, and nothing is
  -- printed, if the library keeps its laws.
  pub is_pair_of_key-get_pub_key :
      (k : Key) (message sig compact : Text)
      → sign k (message_hash C message) ≡ some sig
      → sign_compact k (message_hash C message) ≡ some compact
      → is_pair_of_key C k (get_pub_key k) message ≡ (true, [])
  unfolding is_pair_of_key
  is_pair_of_key-get_pub_key k message sig compact e e' = ground (
    arith,
    L.verify-sign k (message_hash C message) sig,
    L.recover-sign k (message_hash C message) compact,
    L.id_eq_refl (get_id (get_pub_key k)),
  )

  -- A public key that is paired with a key has the id of the key's own public key, if the library
  -- keeps its laws.
  pub id_eq_of_is_pair_of_key :
      (k : Key) (p : PubKey) (message : Text)
      → (is_pair_of_key C k p message).0 ≡ true
      → id_eq (get_id (get_pub_key k)) (get_id p) ≡ true
  unfolding is_pair_of_key
  id_eq_of_is_pair_of_key k p message h =
      elim (Option-cases (sign_compact k (message_hash C message))) [
        | inl e ↦ ground (arith, e)
        | inr (s, e) ↦ ground (arith, e, L.recover-sign k (message_hash C message) s e)
      ]
