-- ===== src/Tests/Genesis.antt =====
-- Concrete runs of the functions of `common/genesis.cpp`.
use coin_tool.Base.{
  ℕ, ◌+◌, ◌%◌, ◌^◌, ◌≤◌, ◌<◌, ◌≡◌, ◌≢◌, refl, false, some, [], ◌∷◌, arith, length, All, Text, bytes,
  ◌==◌, if◌then◌else◌,
}
use coin_tool.Base.Output.{lit, text, endl}
use coin_tool.Number.{decimal}
use coin_tool.Chain.Toy.{toy, toy-IsLawful}
use coin_tool.Genesis.Mine.{Header, Round, target, word256, start_nonce, get}
use coin_tool.Genesis.Mine.Laws.{SameTemplate, get-target, get_finds}
use coin_tool.Genesis.Mine.Nonces.{start_nonce_apart}
use coin_tool.Genesis.Threads.{next_round, Event, hashing, spawn, act, start_state, advance, run}
use coin_tool.Genesis.Threads.Laws.{IsSolution, run-IsSolution, run-printed}
use coin_tool.Base.{List}
use coin_tool.Genesis.Block.{ChainLib, test, genesis_look_for}
use coin_tool.Genesis.Block.Laws.{IsGenesis, searches_on, genesis_look_for_lem}
use coin_tool.Genesis.Rpc.{get_rpc_authorization}
use coin_tool.Genesis.Rpc.Laws.{split_colon, get_rpc_authorization_lem}

abbrev template : Header
template = record {
  version = 1;
  prev_block = 0;
  merkle_root = 5;
  claim_trie = 1;
  time = 100;
  bits = 7;
  nonce = 65536;
}

abbrev solved : Header
solved = record template { nonce = 65537 }

-- A hash that is small for one nonce only.
abbrev toy_hash : Header → ℕ
toy_hash h = if h.nonce == 65537 then 0 else 9

abbrev calm : Round
calm = record { others = false; now = 60 }

get-target_example :
    (toy_hash solved ≤ 3)
    × SameTemplate solved template
    × ((k : ℕ) × (k < length (calm ∷ calm ∷ [])) × (solved.nonce ≡ (template.nonce + k) % word256))
unfolding get
get-target_example = get-target toy_hash 3 template solved 50 (calm ∷ calm ∷ []) (omega arith) refl

get_finds_example : (h : Header) × (get toy_hash 3 template 50 (calm ∷ calm ∷ []) ≡ target h)
get_finds_example =
    get_finds toy_hash 3 template 50 1 (calm ∷ calm ∷ []) (omega arith) (omega arith) (omega arith)
      (refl, (refl, tt)) (omega arith)

start_nonce_apart_example : (start_nonce 1 + 5) % word256 ≢ (start_nonce 2 + 9) % word256
unfolding start_nonce
start_nonce_apart_example = start_nonce_apart 1 2 5 9 (ground arith) (omega arith) (omega arith)

abbrev test_chain : ChainLib
test_chain = record {
  block_merkle_root = λ txs. 77;
  parse_hex = λ s. s;
  get_compact = λ n. n % 2 ^ 32;
  network = test;
  pow_limit = 2 ^ 240;
  genesis_reward = 5;
  hash_string = λ n. decimal n;
}

genesis_look_for_lem_example :
    let searches =
      (genesis_look_for test_chain
        (bytes "tool" ∷ bytes "genesis" ∷ decimal 1526947200 ∷ bytes "stamp" ∷ [])).0 in
    (length searches ≡ searches_on test_chain.network)
    × All (λ s. IsGenesis test_chain (bytes "stamp") (1526947200 % 2 ^ 32) s.block) searches
genesis_look_for_lem_example =
    genesis_look_for_lem test_chain (bytes "tool") (bytes "genesis") (bytes "stamp") 1526947200 []
      (omega arith)

get_rpc_authorization_lem_example :
    (code : Text) × (get_rpc_authorization toy
        (bytes "tool" ∷ bytes "getrpc" ∷ bytes "th" ∷ bytes "1:2" ∷ [])
      ≡ lit "rpcuser="
        ∷ text (bytes "th")
        ∷ lit ", rpcpassword="
        ∷ text (bytes "1:2")
        ∷ endl
        ∷ lit "Basic "
        ∷ text code
        ∷ endl
        ∷ [])
    × (split_colon (toy.decode_base64 code) ≡ some (bytes "th", bytes "1:2"))
get_rpc_authorization_lem_example =
    get_rpc_authorization_lem toy (bytes "tool") (bytes "getrpc") (bytes "th") (bytes "1:2") []
      toy-IsLawful (omega arith, (omega arith, tt))

-- One thread begins with the nonce 65536 and finds the next one.
abbrev events : List Event
events = spawn 1 ∷ act 0 50 ∷ act 0 50 ∷ act 0 51 ∷ act 0 51 ∷ act 0 51 ∷ act 0 51 ∷ act 0 51 ∷ []

run-IsSolution_example :
    All (IsSolution toy_hash 3 template) (run toy_hash 3 (start_state template) events).printed
run-IsSolution_example = run-IsSolution toy_hash 3 template events

run-printed_example : 1 ≤ length (run toy_hash 3 (start_state template) events).printed
unfolding run start_state start_nonce advance next_round
run-printed_example = run-printed toy_hash 3 template events refl refl

-- Two threads that begin after the loop has come to its end hash the same header.
late_threads_race :
    (run toy_hash 3 (start_state template) (spawn 1 ∷ spawn 2 ∷ act 0 50 ∷ act 1 50 ∷ [])).workers
    ≡ hashing
        (record { header = record template { nonce = 131072 }; time = 100; start = 50; cnt = 0 })
      ∷ hashing
          (record { header = record template { nonce = 131072 }; time = 100; start = 50; cnt = 0 })
      ∷ []
unfolding run start_state start_nonce advance
late_threads_race = refl
