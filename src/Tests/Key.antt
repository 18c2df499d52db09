-- ===== src/Tests/Key.antt =====
-- Concrete runs of the functions of `common/keytool.cpp` over the small instance of the library.
use mathlib.Core.List.{flatten}
use coin_tool.Base.{
  ℕ, ◌+◌, ◌≤◌, ◌≡◌, refl, ◌↔◌, ◌⊎◌, Bool, true, false, ◌&&◌, none, some, List, [], ◌∷◌, ◌++◌, arith,
  length, All, all, not_empty, Text, text_eq, bytes, ◌==◌,
}
use coin_tool.Number.{decimal}
use coin_tool.Chain.Toy.{toy, toy-IsLawful}
use coin_tool.Key.Message.{message_hash, is_pair_of_key}
use coin_tool.Key.Message.Laws.{id_eq_of_is_pair_of_key}
use coin_tool.Key.Check.{check_key, check_keys, match_pub_keys}
use coin_tool.Key.Check.Laws.{
  without_partner, check_keys-left, match_pub_keys-again, check_keys-get_pub_key,
}
use coin_tool.Key.Commands.{
  sign_msg, sign_verify, compact_sign_handle, compact_verify_handle, base64_line, verify_success,
}
use coin_tool.Key.Commands.Laws.{sign_verify-sign_msg, compact_verify_handle-compact_sign_handle}
use coin_tool.Key.Check.Outcome.{missing, EndsWith, check_key-EndsWith}
use coin_tool.Utils.Config.{Settings}
use coin_tool.Key.Address.{make_new_key, new_address}
use coin_tool.Key.Address.Laws.{address_blocks, new_address_lem, make_new_key-eq-none}
use coin_tool.Key.Find.{address_of, advance, is_found, match_targets, start, run}
use coin_tool.Key.Find.Targets.{match_targets_lem}
use coin_tool.Key.Find.Counts.{count_found, is_failed}
use coin_tool.Key.Find.Threads.{IsTrue, has_target, run_reports, run_over}

-- Key 7, the message "m", and its hash.
abbrev note : Text
note = bytes "m"

abbrev digest : Text
digest = bytes "Ulord Signed Message:\nm"

sign_verify-sign_msg_example :
    (code : Text) × (sign_msg toy (bytes "tool" ∷ bytes "signmsg" ∷ (7 ∷ []) ∷ note ∷ [])
      ≡ base64_line code)
    × (sign_verify toy (bytes "tool" ∷ bytes "verifymsg" ∷ (7 ∷ []) ∷ note ∷ code ∷ [])
        ≡ verify_success)
unfolding message_hash flatten
sign_verify-sign_msg_example =
    sign_verify-sign_msg toy toy-IsLawful (bytes "tool") (bytes "signmsg") (bytes "verifymsg")
      (7 ∷ []) (7 ∷ []) note [] [] 7 (7 ∷ digest) refl refl refl

compact_verify_handle-compact_sign_handle_example :
    (code : Text) × (compact_sign_handle toy
        (bytes "tool" ∷ bytes "compactsign" ∷ (7 ∷ []) ∷ note ∷ [])
      ≡ base64_line code)
    × (compact_verify_handle toy
          (bytes "tool" ∷ bytes "compactverify" ∷ (7 ∷ []) ∷ note ∷ code ∷ [])
        ≡ verify_success)
unfolding message_hash flatten
compact_verify_handle-compact_sign_handle_example =
    compact_verify_handle-compact_sign_handle toy toy-IsLawful (bytes "tool") (bytes "compactsign")
      (bytes "compactverify") (7 ∷ []) (7 ∷ []) note [] [] 7 (7 ∷ digest) refl refl refl

id_eq_of_is_pair_of_key_example : (7 == 7) ≡ true
unfolding is_pair_of_key text_eq flatten
id_eq_of_is_pair_of_key_example = id_eq_of_is_pair_of_key toy toy-IsLawful 7 7 note refl

check_keys-left_example :
    (check_keys toy (7 ∷ 0 ∷ []) note (7 ∷ 0 ∷ 9 ∷ [])).0
    ≡ without_partner toy (7 ∷ 0 ∷ []) note (7 ∷ 0 ∷ 9 ∷ [])
check_keys-left_example = check_keys-left toy (7 ∷ 0 ∷ []) note (7 ∷ 0 ∷ 9 ∷ [])

keys_left : (check_keys toy (7 ∷ 0 ∷ []) note (7 ∷ 0 ∷ 9 ∷ [])).0 ≡ 0 ∷ 9 ∷ []
unfolding check_keys is_pair_of_key text_eq flatten
keys_left = refl

-- Key 7 and its public key, and a public key of none.
abbrev key_settings : Settings
key_settings = record {
  args =
      (bytes "-privkey", 7 ∷ []) ∷ (bytes "-pubkey", 7 ∷ []) ∷ (bytes "-message", bytes "m") ∷ [];
  multi = (bytes "-privkey", (7 ∷ []) ∷ []) ∷ (bytes "-pubkey", (7 ∷ []) ∷ (9 ∷ []) ∷ []) ∷ [];
}

check_key-EndsWith_example :
    EndsWith toy key_settings (missing toy key_settings) (check_key toy key_settings)
check_key-EndsWith_example = check_key-EndsWith toy key_settings

match_pub_keys-again_example :
    let ps' = (match_pub_keys toy 7 note (9 ∷ 7 ∷ [])).left in
    let again = match_pub_keys toy 7 note ps' in (again.is_pair ≡ false) × (again.left ≡ ps')
match_pub_keys-again_example = match_pub_keys-again toy 7 note (9 ∷ 7 ∷ [])

check_keys-get_pub_key_example :
    (check_keys toy ((5 ∷ []) ++ (7 ∷ [])) note (7 ∷ 9 ∷ [])).0
    ≡ (check_keys toy ((5 ∷ []) ++ (7 ∷ [])) note (9 ∷ [])).0
unfolding message_hash flatten
check_keys-get_pub_key_example =
    check_keys-get_pub_key toy toy-IsLawful (5 ∷ []) 7 [] note (7 ∷ digest) (7 ∷ digest) (9 ∷ [])
      refl refl

make_new_key-eq-none_example :
    (make_new_key toy true 7 ≡ none) ↔ (((7 == 7) ≡ false) × (80 ≤ length (toy.hex_pub_key 7)))
make_new_key-eq-none_example = make_new_key-eq-none toy true 7

-- The keys of the rounds, in order.
abbrev nth_key : Bool → ℕ → ℕ
nth_key compressed i = i + 1

new_address_lem_example :
    new_address toy nth_key (bytes "tool" ∷ bytes "newaddress" ∷ bytes "true" ∷ decimal 2 ∷ [])
    ≡ some (address_blocks toy nth_key true 0 2)
new_address_lem_example =
    new_address_lem toy nth_key (λ k. ground arith) (bytes "tool") (bytes "newaddress")
      (bytes "true") true 2 [] (λ e. refl, λ e. refl)

match_targets_lem_example :
    match_targets true
      (bytes "Uab")
      (length (bytes "U" ∷ bytes "b" ∷ []))
      (bytes "U" ∷ bytes "b" ∷ [])
      0
    ≡ (not_empty (bytes "U" ∷ bytes "b" ∷ [])
        && all (is_found true (bytes "Uab")) (bytes "U" ∷ bytes "b" ∷ []))
match_targets_lem_example = match_targets_lem true (bytes "Uab") (bytes "U" ∷ bytes "b" ∷ [])

-- Two threads look for an address with "U" and "a": the first makes the wanted key, the second sees
-- the counter.
abbrev wanted : List Text
wanted = bytes "U" ∷ bytes "a" ∷ []

abbrev schedule : List (ℕ × ℕ)
schedule = (0, 1) ∷ (0, 1) ∷ (0, 2) ∷ (0, b'a') ∷ (0, 0) ∷ (0, 0) ∷ (1, 3) ∷ []

run_reports_example :
    let st = run toy true wanted (start toy 2) schedule in
    All (IsTrue toy true wanted) st.reports
    × (st.result ≤ count_found st.threads)
    × (count_found st.threads ≤ 100)
run_reports_example = run_reports toy true wanted 2 schedule

run_over_example :
    let st = run toy true wanted (start toy 2) schedule in
    (has_target toy st.reports ≡ true) ⊎ (all is_failed st.threads ≡ true)
unfolding run start advance match_targets address_of
run_over_example = run_over toy true wanted 2 schedule refl

one_find : (run toy true wanted (start toy 2) schedule).result ≡ 1
unfolding run start advance match_targets address_of
one_find = refl
