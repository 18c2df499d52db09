-- ===== src/Key/Find.antt =====
-- `_getaddress` and `FindAddress` of `common/keytool.cpp`: threads look for an address that contains
-- all targets, and stop by the counter that they share.
pub mod Targets
pub mod Counts
pub mod Threads
use coin_tool.Base.{
  ℕ, zero, suc, ◌+◌, Bool, true, false, not, ◌||◌, Option, none, some, List, [], ◌∷◌, ◌++◌, length,
  drop, get_elem?, set, replicate, ltb, ◌==◌, if◌then◌else◌, Text,
}
use Prim.Native.Nat.{min}
use coin_tool.Base.Int.{ℤ, pos, negsuc, eqb_ℤ}
use coin_tool.Base.Dict.{is_some}
use coin_tool.Base.Output.{Out, lit, text, int, endl}
use coin_tool.Chain.{Crypto}
use coin_tool.Utils.Argv.{lacks, argument, help, cmdindex}
use coin_tool.Utils.Rank.{atob}
use coin_tool.Utils.Search.{ci_find_substr, find}

-- Whether an address has a target in it, with or without regard to case.
unfoldable pub is_found : Bool → Text → Text → Bool
unfolding ci_find_substr find
is_found is_case address target =
    if not is_case
    then not (eqb_ℤ (negsuc 0) (ci_find_substr address target))
    else is_some (find address target)

-- The loop over the targets, from `imatch`; it is left by the `return` at the last target, and by
-- the `break` at a target that is not found. The number of targets fits 32 bits.
unfoldable pub match_targets : Bool → Text → ℕ → List Text → ℕ → Bool
unfolding is_found
match_targets is_case address size [] imatch = false
match_targets is_case address size (target ∷ targets) imatch =
    let next = match_targets is_case address size targets (imatch + 1) in
    if is_found is_case address target then if size == imatch + 1 then true else next else false

-- Where a thread stands: at the test of the loop, in its body, behind the printing of a find, between
-- the read and the write of `(*result)++`, or at its end.
pub data Thread : Type 0 where
  testing searching reporting found failed stopped : Thread
  loaded : ℕ → Thread

module _ (C : Crypto) where
  open C use {Key, get_pub_key, verify_pub_key, get_id, secret_string, hex_pub_key, address_string}

  -- What a thread prints.
  pub data Report : Type 0 where
    got_target : ℕ → Key → Report
    verify_failed : Key → Report

  unfoldable pub address_of : Key → Text
  address_of key = address_string (get_id (get_pub_key key))

  unfoldable pub report_lines : Report → Out
  unfolding address_of
  report_lines (got_target index key) =
      endl
      ∷ lit "Task "
      ∷ int (pos index)
      ∷ lit " get target."
      ∷ endl
      ∷ lit "privkey : "
      ∷ text (secret_string key)
      ∷ endl
      ∷ lit "address : "
      ∷ text (address_of key)
      ∷ endl
      ∷ endl
      ∷ []
  report_lines (verify_failed key) =
      lit "VerifyPubKey failed " ∷ text (hex_pub_key (get_pub_key key)) ∷ []

  pub record State : Type 0 where
    pub result : ℕ
    pub threads : List Thread
    pub reports : List Report

  -- `std::min(GetNumCores(), 100)` threads at the beginning of their loops
  unfoldable pub start : ℕ → State
  start cores = record { result = 0; threads = replicate (min cores 100) testing; reports = [] }

  unfoldable pub all_lines : List Report → Out
  unfolding report_lines
  all_lines [] = []
  all_lines (r ∷ rs) = report_lines r ++ all_lines rs

  module _ (is_case : Bool) (targets : List Text) where
    abbrev pub is_wanted : Key → Bool
    is_wanted key = match_targets is_case (address_of key) (length targets) targets 0

    -- One step of thread `index`, which makes `key` if it is in the body of the loop: its new place,
    -- the counter, and what it prints.
    unfoldable pub advance : ℕ → Key → ℕ → Thread → Thread × ℕ × List Report
    advance index key result testing = (if result == 0 then searching else stopped, result, [])
    advance index key result searching =
        if not (verify_pub_key key (get_pub_key key))
        then (failed, result, verify_failed key ∷ [])
        else if is_wanted key
        then (reporting, result, got_target index key ∷ [])
        else (testing, result, [])
    advance index key result reporting = (loaded result, result, [])
    advance index key result (loaded v) = (found, suc v, [])
    advance index key result found = (found, result, [])
    advance index key result failed = (failed, result, [])
    advance index key result stopped = (stopped, result, [])

    -- The scheduler picks a thread, and the random source a key.
    unfoldable pub step : State → ℕ × Key → State
    step st (index, key) = elim (get_elem? st.threads index) [
      | none ↦ st
      | some t ↦
          let (t', result', more) = advance index key st.result t in
          record {
            result = result';
            threads = set st.threads index t';
            reports = st.reports ++ more;
          }
    ]

    unfoldable pub run : State → List (ℕ × Key) → State
    unfolding step
    run st [] = st
    run st (e ∷ schedule) = run (step st e) schedule

  -- The command, for a schedule in which every thread comes to its end.
  unfoldable pub find_address : ℕ → List (ℕ × Key) → List Text → Out
  unfolding run start all_lines
  find_address cores schedule argv =
      if lacks argv 3
      then lit "Command \"findaddress\" example :"
        ∷ endl
        ∷ endl
        ∷ lit "findaddress IsCase \"target\" ..."
        ∷ endl
        ∷ lit "findaddress true \"example\""
        ∷ endl
        ∷ []
      else let is_case = atob (argument argv 1) in
        let targets = drop (cmdindex + 2) argv in
        let st = run is_case targets (start cores) schedule in
        lit "Looking for ... ..."
        ∷ endl
        ∷ lit "Get "
        ∷ int (pos (min cores 100))
        ∷ lit " cpus to use"
        ∷ endl
        ∷ (all_lines st.reports
            ++ (endl ∷ lit "Congratulations! Find an expectant address" ∷ endl ∷ []))
