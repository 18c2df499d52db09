-- ===== src/Genesis/Mine.antt =====
-- `_get` and the nonces of `findGenesis` (`common/genesis.cpp`).
pub mod Laws
pub mod Nonces
use coin_tool.Base.{
  ℕ, zero, suc, ◌+◌, ◌-◌, ◌*◌, ◌/◌, ◌%◌, ◌^◌, Bool, true, false, ◌||◌, List, [], ◌∷◌, ltb, leb,
  if◌then◌else◌, map, Text,
}

-- The chain library's `CBlockHeader`; the hashes are 256-bit numbers, the other fields 32-bit words.
pub record Header : Type 0 where
  pub version : ℕ
  pub prev_block : ℕ
  pub merkle_root : ℕ
  pub claim_trie : ℕ
  pub time : ℕ
  pub bits : ℕ
  pub nonce : ℕ

abbrev pub word256 : ℕ
word256 = 2 ^ 256

-- `pblock->nTime - GetTime()` added to a later `GetTime()`, as a 32-bit word: `start` is the clock at
-- the beginning and `now` the clock at the refresh.
unfoldable pub refreshed_time : ℕ → ℕ → ℕ → ℕ
refreshed_time time start now = (time + now + (2 ^ 32 - start % 2 ^ 32)) % 2 ^ 32

-- What a round of the loop meets: whether another thread has raised `*result` by then, and the clock.
pub record Round : Type 0 where
  pub others : Bool
  pub now : ℕ

-- How the loop of a thread ends: it prints a header, another thread has found one, or the rounds
-- that are given end first.
pub data Ending : Type 0 where
  target : Header → Ending
  stopped : Header → Ending
  running : Header → ℕ → Ending

-- The chain library's `GetHash`, as a number, and the target.
module _ (hash : Header → ℕ) (hash_target : ℕ) where
  -- The template's time and the clock at the start are kept for the refresh; `cnt` counts the rounds
  -- since the last one.
  unfoldable pub get_rounds : ℕ → ℕ → List Round → Header → ℕ → Ending
  unfolding refreshed_time
  get_rounds time start [] pb cnt = running pb cnt
  get_rounds time start (r ∷ rs) pb cnt =
      let nonce' = (pb.nonce + 1) % word256 in
      let refreshed =
        get_rounds time start rs
          (record pb { nonce = nonce'; time = refreshed_time time start r.now }) 1 in
      let going = get_rounds time start rs (record pb { nonce = nonce' }) (cnt + 1) in
      if leb (hash pb) hash_target
      then target pb
      else if r.others
      then stopped pb
      else if ltb 1000 cnt
      then refreshed
      else going

  -- `_get` for a template, begun at the clock `start`.
  unfoldable pub get : Header → ℕ → List Round → Ending
  unfolding get_rounds
  get pblock start rounds = get_rounds pblock.time start rounds pblock 0

-- The random nonce of a thread: `nonce <<= 32; nonce >>= 16;` on 256 bits.
unfoldable pub start_nonce : ℕ → ℕ
start_nonce random = random * 2 ^ 32 % word256 / 2 ^ 16
