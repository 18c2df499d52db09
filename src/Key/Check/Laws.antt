-- ===== src/Key/Check/Laws.antt =====
-- Which public keys `CheckKey` leaves over.
use coin_tool.Base.{
  ◌≡◌, refl, ◌∙◌, sym, ap, Bool, true, false, ◌||◌, some, List, [], ◌∷◌, ◌++◌, arith, if◌then◌else◌,
  Text,
}
use coin_tool.Base.Output.{Out}
use coin_tool.Chain.{Crypto, IsLawful}
use coin_tool.Key.Message.{is_pair_of_key, message_hash}
use coin_tool.Key.Message.Laws.{is_pair_of_key-get_pub_key}
use coin_tool.Key.Check.{match_pub_keys, check_keys}

module _ (C : Crypto) where
  open C use {Key, PubKey, get_pub_key}

  -- Whether one of the keys is paired with a public key.
  pub has_partner : List Key → Text → PubKey → Bool
  has_partner [] msg p = false
  has_partner (k ∷ ks) msg p = (is_pair_of_key C k p msg).0 || has_partner ks msg p

  pub without_partner : List Key → Text → List PubKey → List PubKey
  without_partner ks msg [] = []
  without_partner ks msg (p ∷ ps) =
      let rest = without_partner ks msg ps in if has_partner ks msg p then rest else p ∷ rest

  without_partner-nil : (msg : Text) (ps : List PubKey) → without_partner [] msg ps ≡ ps
  unfolding without_partner has_partner
  without_partner-nil msg [] = refl
  without_partner-nil msg (p ∷ ps) = ap (λ l. p ∷ l) (without_partner-nil msg ps)

  without_partner-match_pub_keys :
      (k : Key) (ks : List Key) (msg : Text) (ps : List PubKey)
      → without_partner ks msg (match_pub_keys C k msg ps).left ≡ without_partner (k ∷ ks) msg ps
  unfolding without_partner has_partner match_pub_keys
  without_partner-match_pub_keys k ks msg [] = refl
  without_partner-match_pub_keys k ks msg (p ∷ ps) =
      ground (arith, without_partner-match_pub_keys k ks msg ps)

  -- The public keys that are left over are those with which no private key is paired, in order.
  pub check_keys-left :
      (ks : List Key) (msg : Text) (ps : List PubKey)
      → (check_keys C ks msg ps).0 ≡ without_partner ks msg ps
  unfolding check_keys
  check_keys-left [] msg ps = sym (without_partner-nil msg ps)
  check_keys-left (k ∷ ks) msg ps =
      check_keys-left ks msg (match_pub_keys C k msg ps).left
      ∙ without_partner-match_pub_keys k ks msg ps

  -- Public keys that are paired with a key are erased when the key is met, so the same key met again
  -- finds no partner and erases nothing.
  pub match_pub_keys-again :
      (k : Key) (msg : Text) (ps : List PubKey)
      → let ps' = (match_pub_keys C k msg ps).left in
        let again = match_pub_keys C k msg ps' in (again.is_pair ≡ false) × (again.left ≡ ps')
  unfolding match_pub_keys
  match_pub_keys-again k msg [] = (refl, refl)
  match_pub_keys-again k msg (p ∷ ps) = ground (arith, match_pub_keys-again k msg ps)

  has_partner-append :
      (ks : List Key) (k : Key) (ks' : List Key) (msg : Text) (p : PubKey)
      → (is_pair_of_key C k p msg).0 ≡ true
      → has_partner (ks ++ (k ∷ ks')) msg p ≡ true
  unfolding has_partner
  has_partner-append [] k ks' msg p h = ground arith
  has_partner-append (j ∷ ks) k ks' msg p h = ground (arith, has_partner-append ks k ks' msg p)

  -- The public key of a given private key that can sign the message in both ways is never left over:
  -- with it in front of other public keys, those alone decide what is left, if the library keeps its
  -- laws.
  pub check_keys-get_pub_key :
      IsLawful C
      → (ks : List Key) (k : Key) (ks' : List Key) (msg sig compact : Text) (ps : List PubKey)
      → C.sign k (message_hash C msg) ≡ some sig
      → C.sign_compact k (message_hash C msg) ≡ some compact
      → (check_keys C (ks ++ (k ∷ ks')) msg (get_pub_key k ∷ ps)).0
        ≡ (check_keys C (ks ++ (k ∷ ks')) msg ps).0
  unfolding without_partner
  check_keys-get_pub_key L ks k ks' msg sig compact ps e e' =
      let paired =
        ap (λ (r : Bool × Out). r.0) (is_pair_of_key-get_pub_key C L k msg sig compact e e') in
      rw (check_keys-left, check_keys-left)
        (rw (has_partner-append ks k ks' msg (get_pub_key k) paired))
