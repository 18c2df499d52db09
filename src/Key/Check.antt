-- ===== src/Key/Check.antt =====
-- `CheckKey` of `common/keytool.cpp`: which of the given public keys belong to the given private keys.
pub mod Laws
pub mod Outcome
use coin_tool.Base.{
  ℕ, Bool, true, false, ◌||◌, not, Option, none, some, List, [], ◌∷◌, ◌++◌, if◌then◌else◌, Text,
  bytes, map,
}
use coin_tool.Base.Dict.{lookup, contains, values, value_or}
use coin_tool.Base.Output.{Out, lit, text, endl}
use coin_tool.Chain.{Crypto}
use coin_tool.Utils.Config.{Settings}
use coin_tool.Utils.Report.{showerror}
use coin_tool.Key.Message.{is_pair_of_key}

module _ (C : Crypto) where
  open C use {
    Key, PubKey, get_pub_key, get_id, parse_secret, secret_string, hex_pub_key, parse_pub_key,
    address_string,
  }

  -- `GetKeysFromSecret` of `common/utils.cpp`
  unfoldable pub get_keys_from_secret : Text → Option (Key × PubKey)
  get_keys_from_secret s = elim (parse_secret s) [
    | none ↦ none
    | some key ↦ some (key, get_pub_key key)
  ]

  -- The loop over the texts of the private keys: a text that is no key is reported and left out.
  unfoldable pub read_secrets : List Text → List Key × Out
  unfolding get_keys_from_secret
  read_secrets [] = ([], [])
  read_secrets (s ∷ ss) =
      let (keys, out) = read_secrets ss in
      elim (get_keys_from_secret s) [
        | none ↦ (keys, lit "Error: privkey <" ∷ text s ∷ lit "> getpubkey failed!" ∷ endl ∷ out)
        | some (key, _) ↦ (key ∷ keys, out)
      ]

  unfoldable pub read_pub_keys : List Text → List PubKey
  read_pub_keys [] = []
  read_pub_keys (s ∷ ss) = parse_pub_key s ∷ read_pub_keys ss

  pub record Matched : Type 0 where
    pub is_pair : Bool
    pub left : List PubKey
    pub out : Out

  -- The inner loop: the public keys that pair with the private key are printed and erased.
  unfoldable pub match_pub_keys : Key → Text → List PubKey → Matched
  match_pub_keys key msg [] = record { is_pair = false; left = []; out = [] }
  match_pub_keys key msg (p ∷ ps) =
      let (paired, printed) = is_pair_of_key C key p msg in
      let rest = match_pub_keys key msg ps in
      if paired
      then record {
        is_pair = true;
        left = rest.left;
        out =
            printed
            ++ (lit "    publickey <"
                ∷ text (hex_pub_key p)
                ∷ lit "> address "
                ∷ text (address_string (get_id p))
                ∷ endl
                ∷ rest.out);
      }
      else record { is_pair = rest.is_pair; left = p ∷ rest.left; out = printed ++ rest.out }

  unfoldable pub no_pair_lines : Key → Out
  no_pair_lines key =
      lit "get publickey <"
      ∷ text (hex_pub_key (get_pub_key key))
      ∷ lit "> address "
      ∷ text (address_string (get_id (get_pub_key key)))
      ∷ endl
      ∷ endl
      ∷ []

  -- The outer loop; the result has the public keys that are left over.
  unfoldable pub check_keys : List Key → Text → List PubKey → List PubKey × Out
  unfolding match_pub_keys no_pair_lines
  check_keys [] msg ps = (ps, [])
  check_keys (key ∷ keys) msg ps =
      let m = match_pub_keys key msg ps in
      let (left, out) = check_keys keys msg m.left in
      (
        left,
        lit "private key <"
            ∷ text (secret_string key)
            ∷ lit ">"
            ∷ endl
            ∷ lit "{"
            ∷ endl
            ∷ (m.out ++ (lit "}" ∷ endl ∷ ((if m.is_pair then [] else no_pair_lines key) ++ out))),
      )

  unfoldable pub address_lines : List PubKey → Out
  address_lines [] = []
  address_lines (p ∷ ps) =
      lit "publickey <"
      ∷ text (hex_pub_key p)
      ∷ lit "> get address "
      ∷ text (address_string (get_id p))
      ∷ endl
      ∷ address_lines ps

  unfoldable pub left_over : List PubKey → Out
  unfolding address_lines
  left_over [] = []
  left_over (p ∷ ps) = endl ∷ lit "Get address from pubkey:" ∷ endl ∷ address_lines (p ∷ ps)

  -- `none` is a write behind the buffer of `showerror`. What was printed before an error counts too.
  abbrev pub fail_with : Out → Text → Option (Bool × Out)
  fail_with out message = elim (showerror message) [
    | none ↦ none
    | some (b, line) ↦ some (b, out ++ line)
  ]

  unfoldable pub check_key : Settings → Option (Bool × Out)
  unfolding read_secrets read_pub_keys check_keys left_over
  check_key s =
      if not (contains (bytes "-privkey") s.args)
      then fail_with [] (bytes "File without privkey, add privkey= frist!")
      else let (secrets, out) = read_secrets (values (bytes "-privkey") s.multi) in
        if not (contains (bytes "-pubkey") s.args)
        then fail_with out (bytes "File without pubkey, add pubkey= frist!")
        else if not (contains (bytes "-message") s.args)
        then fail_with out (bytes "File without message, add message= frist!")
        else let msg = value_or (lookup (bytes "-message") s.args) [] in
          let pubs = read_pub_keys (values (bytes "-pubkey") s.multi) in
          let (left, lines) = check_keys secrets msg pubs in
          some (true, out ++ (lines ++ left_over left))
