-- ===== src/Genesis/Block.antt =====
-- `CreateGenesisBlock` and `GenesisLookFor` of `common/genesis.cpp`.
pub mod Laws
use coin_tool.Base.{
  ℕ, ◌+◌, ◌-◌, ◌*◌, ◌%◌, ◌^◌, Bool, true, false, List, [], ◌∷◌, ◌++◌, if◌then◌else◌, Text, bytes,
}
use coin_tool.Base.Int.{ℤ, pos, negsuc}
use coin_tool.Base.Output.{Out, lit, text, int, endl}
use coin_tool.Number.{atoi, to_uint32}
use coin_tool.Utils.Argv.{lacks, argument, help}
use coin_tool.Utils.Report.{c_string}
use coin_tool.Genesis.Mine.{Header}

-- What is pushed on a `CScript`.
pub data ScriptItem : Type 0 where
  push_int : ℕ → ScriptItem
  push_num : ℕ → ScriptItem
  push_bytes : Text → ScriptItem
  op_checksig : ScriptItem

pub record Transaction : Type 0 where
  pub version : ℕ
  pub script_sig : List ScriptItem
  pub value : ℕ
  pub script_pub_key : List ScriptItem

pub record Block : Type 0 where
  pub header : Header
  pub vtx : List Transaction

-- The blocks that the command hands to `findGenesis`, in order, each behind what is printed before.
pub record Search : Type 0 where
  pub before : Out
  pub block : Block

-- The networks that the chain library knows.
pub data NetworkId : Type 0 where
  main test other : NetworkId

-- The chain library: the merkle root of transactions, `ParseHex`, the compact form of a target, and
-- the parameters of the selected network.
pub record ChainLib : Type 0 where
  pub block_merkle_root : List Transaction → ℕ
  pub parse_hex : Text → Text
  pub get_compact : ℕ → ℕ
  pub network : NetworkId
  pub pow_limit : ℕ
  pub genesis_reward : ℕ
  pub hash_string : ℕ → Text

abbrev pub coin_unit : ℕ
coin_unit = 100000000

module _ (lib : ChainLib) where
  unfoldable pub create_genesis_block : Text → List ScriptItem → ℕ → ℕ → ℕ → ℕ → ℕ → Block
  unfolding c_string
  create_genesis_block stamp output_script time nonce bits version reward =
      let tx : Transaction = record {
        version = 1;
        script_sig = push_int 486604799 ∷ push_num 4 ∷ push_bytes (c_string stamp) ∷ [];
        value = reward;
        script_pub_key = output_script;
      } in
      record {
        header = record {
          version = version;
          prev_block = 0;
          merkle_root = lib.block_merkle_root (tx ∷ []);
          claim_trie = 1;
          time = time;
          bits = bits;
          nonce = nonce;
        };
        vtx = tx ∷ [];
      }

  abbrev pub main_script : List ScriptItem
  main_script =
      push_bytes (
        lib.parse_hex (
          bytes
            "041c508f27e982c369486c0f1a42779208b3f5dc96c21a2af6004cb18d1529f42182425db1e1632dc6e73ff687592e148569022cee52b4b4eb10e8bb11bd927ec0"))
      ∷ op_checksig
      ∷ []

  abbrev pub test_script : List ScriptItem
  test_script =
      push_bytes
        (lib.parse_hex (bytes "034c73d75f59061a08032b68369e5034390abc5215b3df79be01fb4319173a88f8"))
      ∷ op_checksig
      ∷ []

  abbrev pub found_lines : ℕ → Block → Out
  found_lines a genesis =
      lit "\tpow:\t"
      ∷ int (pos (lib.get_compact a))
      ∷ lit " "
      ∷ int (pos (lib.get_compact lib.pow_limit))
      ∷ endl
      ∷ lit "hashMerkleRoot: "
      ∷ text (lib.hash_string genesis.header.merkle_root)
      ∷ endl
      ∷ []

  -- From the test for the network on: the searches in order, and what is printed behind the last.
  unfoldable pub begin_searches : NetworkId → Text → ℕ → List Search × Out
  begin_searches main stamp time =
      let bits = lib.get_compact lib.pow_limit in
      let genesis = create_genesis_block stamp main_script time 1 bits 1 lib.genesis_reward in
      let regtest = create_genesis_block stamp main_script time 1 0x200f0f0f 1 (1 * coin_unit) in
      (
        record { before = found_lines (0x000009b173 * 2 ^ 216) genesis; block = genesis }
            ∷ record { before = endl ∷ lit "Looking for regtest: " ∷ endl ∷ []; block = regtest }
            ∷ [],
        lit "create end." ∷ endl ∷ [],
      )
  begin_searches test stamp time =
      let bits = lib.get_compact lib.pow_limit in
      let genesis = create_genesis_block stamp test_script time 1 bits 1 (1 * coin_unit) in
      (
        record { before = found_lines (0x000fffffff * 2 ^ 216) genesis; block = genesis } ∷ [],
        lit "create end." ∷ endl ∷ [],
      )
  begin_searches other stamp time = ([], [])

  unfoldable pub genesis_look_for : List Text → List Search × Out
  unfolding begin_searches
  genesis_look_for argv =
      if lacks argv 3
      then ([], help "Command \"genesis\" example :" "genesis unixTime \"stamp\" ...")
      else begin_searches lib.network (argument argv 2) (to_uint32 (atoi (argument argv 1)))
