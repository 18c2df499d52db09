-- ===== src/Key/Commands/Laws.antt =====
-- What one command prints, the other accepts.
use coin_tool.Base.{◌≡◌, some, List, ◌∷◌, arith, Text}
use coin_tool.Chain.{Crypto, IsLawful}
use coin_tool.Key.Message.{message_hash}
use coin_tool.Key.Commands.{
  sign_msg, sign_verify, compact_sign_handle, compact_verify_handle, base64_line, verify_success,
}

module _ (C : Crypto) (L : IsLawful C) where
  open C use {Key, get_pub_key, sign, sign_compact, parse_secret, parse_pub_key, encode_base64}

  -- If "signmsg" is given a private key that can sign the message, it prints a text with which
  -- "verifymsg", given the key's public key and the message, prints success, further arguments of
  -- either command aside; the library keeps its laws.
  pub sign_verify-sign_msg :
      (prog cmd cmd' secret pub_text message : Text) (rest rest' : List Text) (k : Key) (sig : Text)
      → parse_secret secret ≡ some k
      → parse_pub_key pub_text ≡ get_pub_key k
      → sign k (message_hash C message) ≡ some sig
      → (code : Text) × (sign_msg C (prog ∷ cmd ∷ secret ∷ message ∷ rest) ≡ base64_line code)
        × (sign_verify C (prog ∷ cmd' ∷ pub_text ∷ message ∷ code ∷ rest') ≡ verify_success)
  unfolding sign_msg sign_verify
  sign_verify-sign_msg prog cmd cmd' secret pub_text message rest rest' k sig parsed same signed = (
    encode_base64 sig,
    ground (arith, parsed, signed),
    ground (arith, same, L.decode-encode sig, L.verify-sign k (message_hash C message) sig signed),
  )

  -- If "compactsign" is given a private key that can sign the message compactly, it prints a text
  -- with which "compactverify", given the key's public key and the message, prints success, further
  -- arguments of either command aside; the library keeps its laws.
  pub compact_verify_handle-compact_sign_handle :
      (prog cmd cmd' secret pub_text message : Text) (rest rest' : List Text) (k : Key) (sig : Text)
      → parse_secret secret ≡ some k
      → parse_pub_key pub_text ≡ get_pub_key k
      → sign_compact k (message_hash C message) ≡ some sig
      → (code : Text) × (compact_sign_handle C (prog ∷ cmd ∷ secret ∷ message ∷ rest)
          ≡ base64_line code)
        × (compact_verify_handle C (prog ∷ cmd' ∷ pub_text ∷ message ∷ code ∷ rest')
            ≡ verify_success)
  unfolding compact_sign_handle compact_verify_handle
  compact_verify_handle-compact_sign_handle prog cmd cmd' secret pub_text message rest rest' k sig
        parsed same signed =
      (
        encode_base64 sig,
        ground (arith, parsed, signed),
        ground (
          arith,
          same,
          L.decode-encode sig,
          L.recover-sign k (message_hash C message) sig signed,
          L.id_eq_refl (C.get_id (get_pub_key k)),
        ),
      )
