-- ===== src/Locks/Tests.antt =====
-- Concrete runs of the locks: thread 1 takes the lock and counts it.
use jsntp_lcdd.Prelude.{
  ℕ, ◌+◌, ◌-◌, ◌*◌, ◌/◌, ◌%◌, ◌^◌, bit_and, bit_or, bit_xor, ◌≡◌, ◌≢◌, ◌⊎◌, ◌↔◌, refl, true, not,
  some, none, ◌==◌, leb, ltb,
}
use jsntp_lcdd.Prelude.Int.{pos, ◌+ℤ◌}
use jsntp_lcdd.Locks.Defs.{
  LockableEx, new_lockable_ex, acquire, get, set, lock_with, lock_ex, unlock_ex,
}
use jsntp_lcdd.Locks.Threads.{
  running, locking, counting, call_lock, take, count, update, System, start, pick, Reach, here,
  next, holds,
}
use jsntp_lcdd.Locks.Exclusion.{mutual_exclusion, owner_iff, self_wait}
use jsntp_lcdd.Locks.Abstract.{Holder, replay, View, replay-refines}
use jsntp_lcdd.Locks.Progress.{CanMove, waits_for_owner}
use jsntp_lcdd.Locks.Balance.{unlock-lock}
use jsntp_lcdd.Locks.Atomic.{
  Arith, AtomicNum, assign, add_assign, sub_assign, mul_assign, div_assign, mod_assign, shl_assign,
  shr_assign, xor_assign, and_assign, or_assign,
}
use jsntp_lcdd.Locks.Operators.{Becomes, assignments_lem}

abbrev called : System
called = record {
  mem = new_lockable_ex;
  pc = update start.pc 1 (locking 0 (get 1 new_lockable_ex.tinfo));
}

abbrev pub taken : System
taken = record {
  mem = record new_lockable_ex { lock = record { owner = some 1 } };
  pc = update called.pc 1 (counting 0 (get 1 new_lockable_ex.tinfo +ℤ pos 1));
}

abbrev counted : System
counted = record {
  mem = record taken.mem { tinfo = set 1 (get 1 new_lockable_ex.tinfo +ℤ pos 1) taken.mem.tinfo };
  pc = update taken.pc 1 (running 1);
}

called_reached : Reach called
called_reached = next here (pick 1 call_lock)

pub taken_reached : Reach taken
unfolding get acquire
taken_reached = next called_reached (pick 1 (take refl refl))

counted_reached : Reach counted
counted_reached = next taken_reached (pick 1 count)

mutual_exclusion_example : ◌≡◌ {A = ℕ} 1 1
mutual_exclusion_example = mutual_exclusion {s = counted} 1 1 counted_reached refl refl

owner_iff_example : (counted.mem.lock.owner ≡ some 1) ↔ (holds (counted.pc 1) ≡ true)
owner_iff_example = owner_iff {s = counted} 1 counted_reached

self_wait_example : lock_ex 1 taken.mem ≡ none
self_wait_example =
    self_wait {s = taken} 1 (get 1 new_lockable_ex.tinfo +ℤ pos 1) taken_reached refl

replay_example : (h : Holder) × (replay counted_reached ≡ some h) × View counted h
replay_example = replay-refines {s = counted} counted_reached

-- Thread 2 while thread 1 has the mutex.
moves_example :
    CanMove 2 taken.mem (taken.pc 2)
    ⊎ ((j : ℕ) × (taken.mem.lock.owner ≡ some j) × (2 ≢ j) × CanMove j taken.mem (taken.pc j))
moves_example = waits_for_owner {s = taken} 2 taken_reached

abbrev once : LockableEx
once = record { lock = record { owner = some 1 }; tinfo = set 1 (pos 1) new_lockable_ex.tinfo }

lock_once : lock_ex 1 new_lockable_ex ≡ some once
unfolding lock_ex lock_with get acquire ◌+ℤ◌
lock_once = refl

unlock-lock_example : unlock_ex 1 once ≡ new_lockable_ex
unlock-lock_example = unlock-lock 1 new_lockable_ex lock_once

-- The operators of numbers below 2^32.
abbrev pub word : Arith ℕ
word = record {
  add = λ a b. (a + b) % 2 ^ 32;
  sub = λ a b. (2 ^ 32 + a - b) % 2 ^ 32;
  mul = λ a b. a * b % 2 ^ 32;
  div = λ a b. a / b;
  rem = λ a b. a % b;
  shl = λ a b. a * 2 ^ b % 2 ^ 32;
  shr = λ a b. a / 2 ^ b;
  bxor = bit_xor;
  band = bit_and;
  bor = bit_or;
  eq = λ a b. a == b;
  ne = λ a b. not (a == b);
  gt = λ a b. ltb b a;
  lt = λ a b. ltb a b;
  ge = λ a b. leb b a;
  le = λ a b. leb a b;
}

abbrev seven : AtomicNum ℕ
seven = record { ex = new_lockable_ex; value = 7 }

pub seven_free : lock_ex 1 new_lockable_ex ≢ none
unfolding lock_ex lock_with get acquire ◌+ℤ◌
seven_free e = cc

assignments_example :
    Becomes word 1 seven (assign 1 3 seven) 3
    × Becomes word 1 seven (add_assign word 1 3 seven) (word.add 7 3)
    × Becomes word 1 seven (sub_assign word 1 3 seven) (word.sub 7 3)
    × Becomes word 1 seven (mul_assign word 1 3 seven) (word.mul 7 3)
    × Becomes word 1 seven (div_assign word 1 3 seven) (word.div 7 3)
    × Becomes word 1 seven (mod_assign word 1 3 seven) (word.rem 7 3)
    × Becomes word 1 seven (shl_assign word 1 3 seven) (word.shl 7 3)
    × Becomes word 1 seven (shr_assign word 1 3 seven) (word.shr 7 3)
    × Becomes word 1 seven (xor_assign word 1 3 seven) (word.bxor 7 3)
    × Becomes word 1 seven (and_assign word 1 3 seven) (word.band 7 3)
    × Becomes word 1 seven (or_assign word 1 3 seven) (word.bor 7 3)
assignments_example = assignments_lem word 1 seven 3 seven_free
