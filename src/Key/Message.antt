-- ===== src/Key/Message.antt =====
-- Signing and verifying a message, and whether a private and a public key belong together
-- (`common/keytool.cpp`).
pub mod Laws
use coin_tool.Base.{
  ℕ, Bool, true, false, not, Option, none, some, List, [], ◌∷◌, ◌++◌, if◌then◌else◌, Text, bytes,
}
use coin_tool.Base.Output.{Out, lit, text, endl}
use coin_tool.Chain.{Crypto}

-- `strMessageCustom`
abbrev pub message_custom : Text
message_custom = bytes "Ulord Signed Message:\n"

module _ (C : Crypto) where
  open C use {
    Key, PubKey, Digest, get_id, id_eq, hash, sign, sign_compact, verify, recover_compact, hex_key,
    hex_pub_key, id_string, encode_base64,
  }

  -- The hash that each of the four functions builds.
  unfoldable pub message_hash : Text → Digest
  message_hash message = hash (message_custom ∷ message ∷ [])

  unfoldable pub compact_sign : Key → Text → Option Text
  unfolding message_hash
  compact_sign key message = sign_compact key (message_hash message)

  unfoldable pub compact_verify : PubKey → Text → Text → Bool → Bool × Out
  unfolding message_hash
  compact_verify pub_key message sig log = elim (recover_compact (message_hash message) sig) [
    | none ↦ (false, lit "Error recovering public key." ∷ endl ∷ [])
    | some from_sig ↦
        if not (id_eq (get_id from_sig) (get_id pub_key))
        then (
          false,
          if log
              then lit "Keys don't match : pubkey = "
                ∷ text (hex_pub_key pub_key)
                ∷ lit ", pubkeyFromSig="
                ∷ text (hex_pub_key from_sig)
                ∷ lit ", strMessage="
                ∷ text message
                ∷ lit ", vchSig="
                ∷ text (encode_base64 sig)
                ∷ endl
                ∷ []
              else [],
        )
        else (true, [])
  ]

  unfoldable pub msg_sign : Key → Text → Bool → Option Text × Out
  unfolding message_hash
  msg_sign key message log = elim (sign key (message_hash message)) [
    | none ↦ (
      none,
      if log
          then lit "Error: CheckSign: Sign msg failed! privkey = " ∷ text (hex_key key) ∷ endl ∷ []
          else [],
    )
    | some sig ↦ (some sig, [])
  ]

  unfoldable pub msg_verify : PubKey → Text → Text → Bool → Bool × Out
  unfolding message_hash
  msg_verify pub_key message sig log =
      if not (verify pub_key (message_hash message) sig)
      then (
        false,
        if log
            then lit "Error: CheckSign: Verify failed! pubkey = "
              ∷ text (id_string (get_id pub_key))
              ∷ endl
              ∷ []
            else [],
      )
      else (true, [])

  -- The four tests in order. Only the last can print, since the others are called without `blog`.
  unfoldable pub is_pair_of_key : Key → PubKey → Text → Bool × Out
  unfolding msg_sign msg_verify compact_sign compact_verify
  is_pair_of_key key pub_key msg = elim (msg_sign key msg false).0 [
    | none ↦ (false, [])
    | some sig1 ↦
        if not (msg_verify pub_key msg sig1 false).0
        then (false, [])
        else elim (compact_sign key msg) [
          | none ↦ (false, [])
          | some sig ↦ compact_verify pub_key msg sig false
        ]
  ]
