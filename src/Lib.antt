-- ===== src/Lib.antt =====
-- coin-tool: a command-line tool around a coin's chain library. `tool/main.cpp` fills a table of
-- commands and calls the handler of the first argument; the handlers stand in `common/`. They sign
-- and verify messages, make and look for addresses, print reward tables, send alerts to nodes, look
-- for genesis blocks and fill a memory pool. A configuration file gives settings to some of them.
--
-- The parts, and the files that model them:
-- Base: texts as lists of bytes, integers, maps, and what is written to `std::cout` as a list of
--   items; Number: `atoi` and decimal numbers of the standard library.
-- Utils: `common/utils.h` and `common/utils.cpp`. Utils.Config has the settings (`mapArgs`,
--   `mapMultiArgs`), `SetFilePath`, `ReadFile` and `ReadCurrentFile`; Utils.Init has `InitSys`;
--   Utils.Report `showerror`; Utils.Log `ToolLog` and `WriteStr`; Utils.Search `ci_find_substr`;
--   Utils.Rank `GetRankString` and `atob`; Utils.Nodes `AddOneNode` and `FreeNode`; Utils.Argv the
--   test of `argc`.
-- Chain: the interface of the chain library's keys and hashes, with the laws that it documents, and a
--   small instance of it.
-- Key: `common/keytool.cpp`. Key.Message signs and verifies, Key.Check is `CheckKey`, Key.Commands
--   and Key.Address have the handlers, Key.Find is `_getaddress` and `FindAddress`.
-- Reward: `common/rewardtool.cpp`: `AddReward`, `RewardStatistics`, the handlers in
--   Reward.Commands, and `MemPoolFee`, `GetTust` and `CalcMemFee` in Reward.Fees.
-- Alert: `common/alerttool.cpp`: `CreateAlert`, and `SendAlert` in Alert.Send.
-- Genesis: `common/genesis.cpp`: `_get` in Genesis.Mine, `findGenesis` with its threads in
--   Genesis.Threads, `CreateGenesisBlock` and
--   `GenesisLookFor` in Genesis.Block, `GetRPCAuthorization` and `GetTimeHandle` in Genesis.Rpc.
-- Mempool: `common/mempool.cpp`. Command: `tool/main.cpp`. Tests: runs on concrete inputs.
--
-- A function of the source has its name in lower case with underscores, state that it changes is an
-- argument and a result, and what it prints is a result. The chain library, boost's parser, files,
-- clocks, random keys and the scheduler are parameters. A result `none` stands for undefined
-- behaviour: a write behind a buffer of 100 or 1000 bytes, or to a file that is not open.
--
-- Loops are structural, with these numbers of rounds given: the loop that fills the pool takes rounds
-- as fuel, and as many as bytes are missing, and one, are enough; `CalcMemFee` takes rounds as
-- fuel too, and as many as its first base with a large rate needs; the search of a mining thread runs
-- over a list of rounds, and the threads of the address search over a schedule, of any length. Nonces
-- wrap at 256 bits and block times at 32; heights, amounts and sizes are taken without wrapping.
--
-- Not modelled: `ShowVersion`, which prints two constants of the library, `showvector`, which nothing
-- calls, `src/utiltool.cpp`, an older copy of the helpers, `src/centerserver.cpp`, whose `runHttpd`
-- binds an HTTP server of libevent and dispatches its events, and `src/ucenter/main.cpp`, whose
-- `InitUCenter` makes the start-up calls of `main`.
pub mod Base
pub mod Number
pub mod Utils
pub mod Chain
pub mod Key
pub mod Reward
pub mod Alert
pub mod Genesis
pub mod Mempool
pub mod Command
mod Tests
