-- ===== src/Key/Find/Counts.antt =====
-- Counting the threads of "findaddress" by their places.
use coin_tool.Base.{
  ℕ, zero, suc, ◌+◌, ◌≤◌, ◌≡◌, Bool, true, false, some, List, [], ◌∷◌, arith, length, get_elem?,
  set, length-replicate,
}
use Prim.Native.Nat.{min}
use coin_tool.Chain.{Crypto}
use coin_tool.Key.Find.{Thread, testing, found, failed, stopped, start}

abbrev pub is_over : Thread → Bool
is_over found = true
is_over failed = true
is_over stopped = true
is_over _ = false

abbrev pub is_failed : Thread → Bool
is_failed failed = true
is_failed _ = false

abbrev pub count_found : List Thread → ℕ
count_found [] = 0
count_found (t ∷ ts) = (elim t [ found ↦ 1 | _ ↦ 0 ]) + count_found ts

pub count_found-set :
    (ts : List Thread) (i : ℕ) (t t' : Thread)
    → get_elem? ts i ≡ some t
    → count_found (set ts i t') + count_found (t ∷ []) ≡ count_found ts + count_found (t' ∷ [])
count_found-set [] i t t' e = cc
count_found-set (u ∷ ts) zero t t' e = ground (arith, e)
count_found-set (u ∷ ts) (suc i) t t' e = omega (arith, count_found-set ts i t t' e)

pub count_found-le : (ts : List Thread) → count_found ts ≤ length ts
count_found-le [] = omega arith
count_found-le (t ∷ ts) = ground (arith, count_found-le ts)

pub length-start : (C : Crypto) (cores : ℕ) → length (start C cores).threads ≤ 100
unfolding start
length-start C cores = omega (arith, length-replicate {0} (min cores 100) testing)
