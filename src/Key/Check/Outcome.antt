-- ===== src/Key/Check/Outcome.antt =====
-- What `CheckKey` as a whole returns and prints last.
use coin_tool.Base.{
  ◌≡◌, refl, ◌∙◌, ap, Bool, true, false, not, Option, none, some, List, [], ◌∷◌, ◌++◌, arith,
  append_assoc, if◌then◌else◌, Text, Bool-cases, inl, inr, bytes, map,
}
use coin_tool.Base.Dict.{lookup, contains, values, value_or}
use coin_tool.Base.Output.{Out, lit, text, endl}
use mathlib.Core.List.{flatten}
use coin_tool.Chain.{Crypto}
use coin_tool.Utils.Config.{Settings}
use coin_tool.Utils.Report.{showerror, error_line}
use coin_tool.Key.Check.{
  read_secrets, read_pub_keys, check_keys, left_over, address_lines, check_key,
}
use coin_tool.Key.Check.Laws.{without_partner, check_keys-left}

module _ (C : Crypto) where
  open C use {Key, PubKey, parse_secret, parse_pub_key, hex_pub_key, address_string, get_id}

  -- The texts that are private keys, as keys.
  pub good_keys : List Text → List Key
  good_keys [] = []
  good_keys (s ∷ ss) = elim (parse_secret s) [ none ↦ good_keys ss | some key ↦ key ∷ good_keys ss ]

  read_secrets-good_keys : (ss : List Text) → (read_secrets C ss).0 ≡ good_keys ss
  unfolding read_secrets good_keys
  read_secrets-good_keys [] = refl
  read_secrets-good_keys (s ∷ ss) = ground (arith, read_secrets-good_keys ss)

  read_pub_keys-map : (ss : List Text) → read_pub_keys C ss ≡ map parse_pub_key ss
  unfolding read_pub_keys
  read_pub_keys-map [] = refl
  read_pub_keys-map (s ∷ ss) = ap (λ l. parse_pub_key s ∷ l) (read_pub_keys-map ss)

  abbrev pub address_line : PubKey → Out
  address_line p =
      lit "publickey <"
      ∷ text (hex_pub_key p)
      ∷ lit "> get address "
      ∷ text (address_string (get_id p))
      ∷ endl
      ∷ []

  -- A heading and a line for each key, and nothing for no key.
  abbrev pub report : List PubKey → Out
  report [] = []
  report (p ∷ ps) =
      endl ∷ lit "Get address from pubkey:" ∷ endl ∷ flatten (map address_line (p ∷ ps))

  address_lines-flatten : (ps : List PubKey) → address_lines C ps ≡ flatten (map address_line ps)
  unfolding address_lines flatten
  address_lines-flatten [] = refl
  address_lines-flatten (p ∷ ps) = ap (λ l. address_line p ++ l) (address_lines-flatten ps)

  left_over-report : (ps : List PubKey) → left_over C ps ≡ report ps
  unfolding left_over
  left_over-report [] = refl
  left_over-report (p ∷ ps) =
      ap (λ l. endl ∷ lit "Get address from pubkey:" ∷ endl ∷ l) (address_lines-flatten (p ∷ ps))

  -- The error of the first setting that is missing.
  abbrev pub missing : Settings → Option Text
  missing s =
      if not (contains (bytes "-privkey") s.args)
      then some (bytes "File without privkey, add privkey= frist!")
      else if not (contains (bytes "-pubkey") s.args)
      then some (bytes "File without pubkey, add pubkey= frist!")
      else if not (contains (bytes "-message") s.args)
      then some (bytes "File without message, add message= frist!")
      else none

  -- With an error the result is false, and the error is printed last; with none it is true, and the
  -- addresses of the public keys without a partner are printed last.
  abbrev pub EndsWith : Settings → Option Text → Option (Bool × Out) → Type 0
  EndsWith s (some error) r = (front : Out) × (r ≡ some (false, front ++ error_line error))
  EndsWith s none r =
      (front : Out) × (r
        ≡ some (
          true,
          front
              ++ report (
                  without_partner C (good_keys (values (bytes "-privkey") s.multi))
                    (value_or (lookup (bytes "-message") s.args) [])
                    (map parse_pub_key (values (bytes "-pubkey") s.multi))),
        ))

  -- `CheckKey` never writes behind the buffer of its errors. Without a private key, a public key or a
  -- message it returns false, with the error of the first that is missing printed last; with all
  -- three it returns true, and prints last the addresses of those public keys with which none of the
  -- well-formed private keys is paired for the message.
  pub check_key-EndsWith : (s : Settings) → EndsWith s (missing s) (check_key C s)
  unfolding check_key showerror
  check_key-EndsWith s =
      let (secrets, out) = read_secrets C (values (bytes "-privkey") s.multi) in
      let msg = value_or (lookup (bytes "-message") s.args) [] in
      let pubs = read_pub_keys C (values (bytes "-pubkey") s.multi) in
      let left : (check_keys C secrets msg pubs).0
          ≡ without_partner C (good_keys (values (bytes "-privkey") s.multi)) msg
              (map parse_pub_key (values (bytes "-pubkey") s.multi)) =
        check_keys-left C secrets msg pubs
        ∙ rw
            (
              read_secrets-good_keys (values (bytes "-privkey") s.multi),
              read_pub_keys-map (values (bytes "-pubkey") s.multi),
            )
            refl in
      let shown = left_over-report (
        without_partner C (good_keys (values (bytes "-privkey") s.multi)) msg
          (map parse_pub_key (values (bytes "-pubkey") s.multi))) in
      elim (Bool-cases (contains (bytes "-privkey") s.args)) [
        | inr no_key ↦ rw no_key ([], refl)
        | inl key ↦ elim (Bool-cases (contains (bytes "-pubkey") s.args)) [
          | inr no_pub ↦ rw (key, no_pub) (out, refl)
          | inl pub_given ↦ elim (Bool-cases (contains (bytes "-message") s.args)) [
            | inr no_message ↦ rw (key, pub_given, no_message) (out, refl)
            | inl message ↦
                rw (key, pub_given, message)
                  (out ++ (check_keys C secrets msg pubs).1, rw (append_assoc, left) (rw shown))
          ]
        ]
      ]
