-- ===== src/Genesis/Block/Laws.antt =====
-- Every block that a search is begun with.
use coin_tool.Base.{ℕ, ◌%◌, ◌^◌, ◌≡◌, refl, false, List, [], ◌∷◌, arith, All, length, Text}
use coin_tool.Number.{decimal}
use coin_tool.Number.RoundTrip.{atoi-decimal_self}
use coin_tool.Utils.Argv.{lacks}
use coin_tool.Utils.Report.Laws.{HasNoNul, c_string_lem}
use coin_tool.Genesis.Block.{
  ChainLib, Block, Transaction, NetworkId, main, test, other, ScriptItem, push_int, push_num,
  push_bytes, create_genesis_block, begin_searches, genesis_look_for,
}

-- How many searches the command begins on a network: on the main network a second one is for regtest.
abbrev pub searches_on : NetworkId → ℕ
searches_on main = 2
searches_on test = 1
searches_on other = 0

module _ (lib : ChainLib) where
  -- A block with one transaction, whose input carries the stamp and whose root the header has; the
  -- header has the time and the nonce 1, and no block before it.
  abbrev pub IsGenesis : Text → ℕ → Block → Type 0
  IsGenesis stamp time block =
      let header = block.header in
      ((tx : Transaction) × (block.vtx ≡ tx ∷ [])
        × (tx.script_sig ≡ push_int 486604799 ∷ push_num 4 ∷ push_bytes stamp ∷ []))
      × (header.merkle_root ≡ lib.block_merkle_root block.vtx)
      × (header.prev_block ≡ 0)
      × (header.time ≡ time)
      × (header.nonce ≡ 1)

  create_genesis_block-IsGenesis :
      (stamp : Text) (script : List ScriptItem) (time bits version reward : ℕ)
      → HasNoNul stamp
      → IsGenesis stamp time (create_genesis_block lib stamp script time 1 bits version reward)
  unfolding create_genesis_block
  create_genesis_block-IsGenesis stamp script time bits version reward h =
      ((_, refl, rw (c_string_lem stamp h)), refl, refl, refl, refl)

  begin_searches-IsGenesis :
      (network : NetworkId) (stamp : Text) (time : ℕ)
      → HasNoNul stamp
      → let searches = (begin_searches lib network stamp time).0 in
        (length searches ≡ searches_on network) × All (λ s. IsGenesis stamp time s.block) searches
  unfolding begin_searches
  begin_searches-IsGenesis main stamp time h = (
    refl,
    (
      create_genesis_block-IsGenesis stamp _ time _ 1 _ h,
      (create_genesis_block-IsGenesis stamp _ time _ 1 _ h, tt),
    ),
  )
  begin_searches-IsGenesis test stamp time h =
      (refl, (create_genesis_block-IsGenesis stamp _ time _ 1 _ h, tt))
  begin_searches-IsGenesis other stamp time h = (refl, tt)

  -- "genesis" with the digits of a time and a stamp without zero bytes begins two searches on the main network, one on
  -- the test network and none elsewhere, each with a block whose only transaction carries the stamp,
  -- whose root is that transaction's, and whose time is the given one as a 32-bit word.
  pub genesis_look_for_lem :
      (prog cmd stamp : Text) (t : ℕ) (rest : List Text)
      → HasNoNul stamp
      → let searches = (genesis_look_for lib (prog ∷ cmd ∷ decimal t ∷ stamp ∷ rest)).0 in
        (length searches ≡ searches_on lib.network)
        × All (λ s. IsGenesis stamp (t % 2 ^ 32) s.block) searches
  unfolding genesis_look_for
  genesis_look_for_lem prog cmd stamp t rest h =
      let given : lacks (prog ∷ cmd ∷ decimal t ∷ stamp ∷ rest) 3 ≡ false = ground arith in
      rw (given, atoi-decimal_self t) (begin_searches-IsGenesis lib.network stamp (t % 2 ^ 32) h)
