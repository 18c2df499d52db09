-- ===== src/Key/Commands.antt =====
-- The commands that sign and verify messages (`common/keytool.cpp`): each takes `argv` and prints.
pub mod Laws
use coin_tool.Base.{
  ℕ, zero, suc, ◌+◌, Bool, true, false, not, Option, none, some, List, [], ◌∷◌, ◌++◌, length,
  get_or, ltb, if◌then◌else◌, String, Text, bytes,
}
use coin_tool.Base.Int.{ℤ, pos, negsuc}
use coin_tool.Base.Output.{Out, lit, text, endl}
use coin_tool.Chain.{Crypto}
use coin_tool.Number.{atoi}
use coin_tool.Utils.Argv.{lacks, argument, help}
use coin_tool.Utils.Report.{showerror, vsprintf}
use coin_tool.Key.Message.{compact_sign, compact_verify, msg_sign, msg_verify}
use coin_tool.Key.Check.{get_keys_from_secret}

abbrev pub verify_success : Out
verify_success = lit "Verify Success !" ∷ endl ∷ []

abbrev pub base64_line : Text → Out
base64_line code = lit "Base64Code: " ∷ text code ∷ endl ∷ []

abbrev bad_key : Text → Out
bad_key s = lit "Error: privkey <" ∷ text s ∷ lit "> getpubkey failed!" ∷ endl ∷ []

module _ (C : Crypto) where
  open C use {
    Key, PubKey, get_pub_key, verify_pub_key, get_id, secret_string, hex_pub_key, parse_pub_key,
    address_string, id_string, encode_base64, decode_base64,
  }

  abbrev sign_failed : Key → Out
  sign_failed key = lit "Error: Sign msg failed! privkey = " ∷ text (secret_string key) ∷ endl ∷ []

  unfoldable pub sign_msg : List Text → Out
  unfolding get_keys_from_secret msg_sign
  sign_msg argv =
      if lacks argv 3
      then help "Command \"signmsg\" example :" "signmsg privatekey \"message\""
      else elim (get_keys_from_secret C (argument argv 1)) [
        | none ↦ bad_key (argument argv 1)
        | some (key, _) ↦ elim (msg_sign C key (argument argv 2) false).0 [
          | none ↦ sign_failed key
          | some sig ↦ base64_line (encode_base64 sig)
        ]
      ]

  unfoldable pub sign_verify : List Text → Out
  unfolding msg_verify
  sign_verify argv =
      if lacks argv 4
      then help "Command \"verifymsg\" example :" "verifymsg publickey \"message\" \"signature\""
      else let sig = decode_base64 (argument argv 3) in
        let pub_key = parse_pub_key (argument argv 1) in
        if not (msg_verify C pub_key (argument argv 2) sig false).0
        then lit "Error: Verify failed! pubkey = " ∷ text (hex_pub_key pub_key) ∷ endl ∷ []
        else verify_success

  unfoldable pub compact_sign_handle : List Text → Out
  unfolding get_keys_from_secret compact_sign
  compact_sign_handle argv =
      if lacks argv 3
      then help "Command \"compactsign\" example :" "compactsign privatekey \"message\""
      else elim (get_keys_from_secret C (argument argv 1)) [
        | none ↦ bad_key (argument argv 1)
        | some (key, _) ↦ elim (compact_sign C key (argument argv 2)) [
          | none ↦ sign_failed key
          | some sig ↦ base64_line (encode_base64 sig)
        ]
      ]

  unfoldable pub compact_verify_handle : List Text → Out
  unfolding compact_verify
  compact_verify_handle argv =
      if lacks argv 4
      then help "Command \"compactverify\" example :"
          "compactverify publickey \"message\" \"signature\""
      else let sig = decode_base64 (argument argv 3) in
        let pub_key = parse_pub_key (argument argv 1) in
        let (verified, out) = compact_verify C pub_key (argument argv 2) sig true in
        if not verified then out else out ++ verify_success
