-- ===== src/Key/Address.antt =====
-- `PrivKey`, `MakeNewKey` and `NewAddress` of `common/keytool.cpp`.
pub mod Laws
use coin_tool.Base.{
  ℕ, zero, suc, ◌+◌, Bool, true, false, not, Option, none, some, List, [], ◌∷◌, ◌++◌, if◌then◌else◌,
  Text, bytes,
}
use coin_tool.Base.Int.{ℤ, pos, negsuc, pos_part}
use coin_tool.Base.Output.{Out, lit, text, endl}
use coin_tool.Chain.{Crypto}
use coin_tool.Number.{atoi}
use coin_tool.Utils.Argv.{lacks, argument, help}
use coin_tool.Utils.Rank.{atob}
use coin_tool.Utils.Report.{showerror, vsprintf}
use coin_tool.Key.Check.{get_keys_from_secret}

module _ (C : Crypto) where
  open C use {
    Key, PubKey, get_pub_key, verify_pub_key, get_id, secret_string, hex_pub_key, address_string,
    id_string,
  }

  -- What "privkey" prints through `ToolLog`; `none` is a write behind the buffer of `ToolLog`.
  abbrev pub key_block : Key → PubKey → Text
  key_block key pub_key =
      bytes "private key    "
      ++ (secret_string key
          ++ (bytes "\n{\n\tpublic key    "
              ++ (hex_pub_key pub_key
                  ++ (bytes "\n\taddress       "
                      ++ (address_string (get_id pub_key) ++ bytes "\n}\n")))))

  unfoldable pub priv_key : List Text → Option Out
  unfolding get_keys_from_secret
  priv_key argv =
      if lacks argv 2
      then some (help "Command \"privkey\" example :" "privkey privatekey")
      else elim (get_keys_from_secret C (argument argv 1)) [
        | none ↦ some (
            lit "Error: privkey <" ∷ text (argument argv 1) ∷ lit "> getpubkey failed!" ∷ endl ∷ [])
        | some (key, pub_key) ↦ elim (vsprintf 1000 (key_block key pub_key)) [
          | none ↦ none
          | some s ↦ some (text s ∷ [])
        ]
      ]

  abbrev pub new_key_lines : Bool → Key → Out
  new_key_lines compressed secret =
      let pub_key = get_pub_key secret in
      endl
      ∷ lit "privkey : "
      ∷ text (secret_string secret)
      ∷ endl
      ∷ (if compressed then lit "compressed pubkey : " else lit "uncompressed pubkey : ")
      ∷ text (hex_pub_key pub_key)
      ∷ endl
      ∷ lit "pubkey2 : "
      ∷ text (id_string (get_id pub_key))
      ∷ endl
      ∷ lit "address : "
      ∷ text (address_string (get_id pub_key))
      ∷ endl
      ∷ endl
      ∷ []

  -- The random key that `CKey::MakeNewKey` makes is an argument; `none` is a write behind the buffer
  -- of `showerror`.
  unfoldable pub make_new_key : Bool → Key → Option (Bool × Out)
  make_new_key compressed secret =
      let pub_key = get_pub_key secret in
      if not (verify_pub_key secret pub_key)
      then showerror (bytes "VerifyPubKey failed " ++ hex_pub_key pub_key)
      else some (true, new_key_lines compressed secret)

  -- `make i` is the random key of round `i`, compressed or not.
  module _ (make : Bool → ℕ → Key) where
    unfoldable pub new_address_rounds : Bool → ℕ → ℕ → Option Out
    unfolding make_new_key
    new_address_rounds compressed i zero = some []
    new_address_rounds compressed i (suc more) =
        let rest = new_address_rounds compressed (i + 1) more in
        elim (make_new_key compressed (make compressed i)) [
          | none ↦ none
          | some (_, out) ↦ elim rest [ none ↦ none | some out' ↦ some (out ++ out') ]
        ]

    -- A number of rounds that is not positive makes no round.
    unfoldable pub new_address : List Text → Option Out
    unfolding new_address_rounds
    new_address argv =
        if lacks argv 3
        then some (help "Command \"newaddress\" example :" "newaddress Ifcompressed number")
        else new_address_rounds (atob (argument argv 1)) 0 (pos_part (atoi (argument argv 2)))
