-- ===== src/Genesis/Threads.antt =====
-- `findGenesis` of `common/genesis.cpp`: the threads that run `_get` over a shared header and counter.
pub mod Laws
use coin_tool.Base.{
  ℕ, zero, suc, ◌+◌, ◌%◌, Bool, true, false, Option, none, some, List, [], ◌∷◌, ◌++◌, ltb, leb, set,
  get_elem?, if◌then◌else◌,
}
use coin_tool.Genesis.Mine.{Header, word256, refreshed_time, start_nonce}

-- What a thread of `_get` has: its copy of the header, the time of the template and the clock at its
-- beginning, and the rounds since the last refresh.
pub record Work : Type 0 where
  pub header : Header
  pub time : ℕ
  pub start : ℕ
  pub cnt : ℕ

-- Where a thread stands: before it copies the header, at the test of the hash, between the read and
-- the write of `(*result)++`, before it prints, at the test of `*result`, or at its end.
pub data Worker : Type 0 where
  created over : Worker
  hashing printing testing : Work → Worker
  loaded : Work → ℕ → Worker

-- The end of a round: the next nonce, and a new time when 1000 rounds have passed.
unfoldable pub next_round : ℕ → Work → Work
next_round now w =
    let nonce' = (w.header.nonce + 1) % word256 in
    if ltb 1000 w.cnt
    then record w {
      header = record w.header { nonce = nonce'; time = refreshed_time w.time w.start now };
      cnt = 1;
    }
    else record w { header = record w.header { nonce = nonce' }; cnt = w.cnt + 1 }

pub record State : Type 0 where
  pub result : ℕ
  pub shared : Header
  pub workers : List Worker
  -- the headers that were printed, in order
  pub printed : List Header

-- The loop of `findGenesis` starts a thread with a random number, or the scheduler picks a thread,
-- which then reads the clock.
pub data Event : Type 0 where
  spawn : ℕ → Event
  act : ℕ → ℕ → Event

unfoldable pub start_state : Header → State
start_state pb = record { result = 0; shared = pb; workers = []; printed = [] }

-- The chain library's `GetHash`, as a number, and the target.
module _ (hash : Header → ℕ) (hash_target : ℕ) where
  -- One step of a thread: its new place, the counter, and the headers that it prints.
  unfoldable pub advance : Header → ℕ → ℕ → Worker → Worker × ℕ × List Header
  advance shared now result created =
      (hashing (record { header = shared; time = shared.time; start = now; cnt = 0 }), result, [])
  advance shared now result (hashing w) =
      (if leb (hash w.header) hash_target then loaded w result else testing w, result, [])
  advance shared now result (loaded w v) = (printing w, suc v, [])
  advance shared now result (printing w) = (testing w, result, w.header ∷ [])
  advance shared now result (testing w) =
      (if ltb 0 result then over else hashing (next_round now w), result, [])
  advance shared now result over = (over, result, [])

  -- The loop writes the nonce of a new thread into the header that all threads share.
  unfoldable pub step : State → Event → State
  step st (spawn random) = record st {
    shared = record st.shared { nonce = start_nonce random };
    workers = st.workers ++ (created ∷ []);
  }
  step st (act index now) = elim (get_elem? st.workers index) [
    | none ↦ st
    | some t ↦
        let (t', result', more) = advance st.shared now st.result t in
        record st {
          result = result';
          workers = set st.workers index t';
          printed = st.printed ++ more;
        }
  ]

  unfoldable pub run : State → List Event → State
  unfolding step
  run st [] = st
  run st (e ∷ es) = run (step st e) es
