-- ===== src/Genesis/Rpc/Laws.antt =====
-- The authorization can be taken apart again.
use coin_tool.Base.{
  ◌≡◌, ◌≢◌, refl, Option, none, some, List, [], ◌∷◌, ◌++◌, arith, All, ◌==◌, if◌then◌else◌, Text,
  bytes,
}
use coin_tool.Base.Output.{lit, text, endl}
use coin_tool.Chain.{Crypto, IsLawful}
use coin_tool.Genesis.Rpc.{get_rpc_authorization}

-- The parts of a text before and behind its first colon, as a server reads the credentials.
pub split_colon : Text → Option (Text × Text)
split_colon [] = none
split_colon (c ∷ s) =
    let rest = split_colon s in
    if c == b':'
    then some ([], s)
    else elim rest [ none ↦ none | some (user, password) ↦ some (c ∷ user, password) ]

split_colon-append :
    (user password : Text)
    → All (λ c. c ≢ b':') user
    → split_colon (user ++ (bytes ":" ++ password)) ≡ some (user, password)
unfolding split_colon
split_colon-append [] password h = refl
split_colon-append (c ∷ user) password h = ground (arith, h.0, split_colon-append user password h.1)

-- For a user with no colon in the name, "getrpc" prints behind "Basic " a text that decodes to the
-- credentials: the part before its first colon is the user, the part behind it the password,
-- if the library keeps its laws.
pub get_rpc_authorization_lem :
    (C : Crypto) (prog cmd user password : Text) (rest : List Text)
    → IsLawful C
    → All (λ c. c ≢ b':') user
    → (code : Text) × (get_rpc_authorization C (prog ∷ cmd ∷ user ∷ password ∷ rest)
        ≡ lit "rpcuser="
          ∷ text user
          ∷ lit ", rpcpassword="
          ∷ text password
          ∷ endl
          ∷ lit "Basic "
          ∷ text code
          ∷ endl
          ∷ [])
      × (split_colon (C.decode_base64 code) ≡ some (user, password))
unfolding get_rpc_authorization
get_rpc_authorization_lem C prog cmd user password rest L h = (
  C.encode_base64 (user ++ (bytes ":" ++ password)),
  ground arith,
  rw L.decode-encode (split_colon-append user password h),
)
