-- ===== src/Locks/Threads.antt =====
-- Any number of threads over one `LockableEx`. A step is one access to what the threads share: the
-- map, which has a lock of its own around each access, or the mutex.
use jsntp_lcdd.Prelude.{ℕ, zero, suc, some, Bool, true, false, if◌then◌else◌, ◌==◌, ◌≡◌}
use jsntp_lcdd.Prelude.Int.{ℤ, pos, ◌+ℤ◌, ◌-ℤ◌}
use jsntp_lcdd.Locks.Defs.{
  Lockable, LockableEx, new_lockable_ex, acquire, release, get, set, is_zero,
}

-- Where a thread stands. `depth` counts the calls of `lock` that have returned and whose `unlock`
-- has not begun; the other argument is the local variable `_locked`.
pub data Pc : Type 0 where
  running : (depth : ℕ) → Pc
  locking : (depth : ℕ) (locked : ℤ) → Pc  -- in `lock`, before the test
  counting : (depth : ℕ) (locked : ℤ) → Pc  -- in `lock`, before the write to the map
  unlocking : (depth : ℕ) (locked : ℤ) → Pc  -- in `unlock`, before the test
  dropping : (depth : ℕ) (locked : ℤ) → Pc  -- in `unlock`, before the write to the map

-- One step of thread `self`. It calls `unlock` only for a `lock` of its own.
pub data Move (self : ℕ) (m : LockableEx) : Pc → LockableEx → Pc → Type 0 where
  call_lock : {d : ℕ} → Move self m (running d) m (locking d (get self m.tinfo))
  take :
      {d : ℕ} {n : ℤ} {l : Lockable}
      → is_zero n ≡ true
      → acquire self m.lock ≡ some l
      → Move self m (locking d n) (record m { lock = l }) (counting d (n +ℤ pos 1))
  again :
      {d : ℕ} {n : ℤ} → is_zero n ≡ false → Move self m (locking d n) m (counting d (n +ℤ pos 1))
  count :
      {d : ℕ} {v : ℤ}
      → Move self m (counting d v) (record m { tinfo = set self v m.tinfo }) (running (suc d))
  call_unlock :
      {d e : ℕ} → e ≡ suc d → Move self m (running e) m (unlocking d (get self m.tinfo -ℤ pos 1))
  give :
      {d : ℕ} {n : ℤ}
      → is_zero n ≡ true
      → Move self m (unlocking d n) (record m { lock = release m.lock }) (dropping d n)
  hold : {d : ℕ} {n : ℤ} → is_zero n ≡ false → Move self m (unlocking d n) m (dropping d n)
  uncount :
      {d : ℕ} {v : ℤ}
      → Move self m (dropping d v) (record m { tinfo = set self v m.tinfo }) (running d)

abbrev pub update : (ℕ → Pc) → ℕ → Pc → ℕ → Pc
update f i p j = if i == j then p else f j

pub record System : Type 0 where
  pub mem : LockableEx
  pub pc : ℕ → Pc

abbrev pub start : System
start = record { mem = new_lockable_ex; pc = λ _. running 0 }

pub data Step (s : System) : System → Type 0 where
  pick :
      (i : ℕ) {m : LockableEx} {p : Pc}
      → Move i s.mem (s.pc i) m p
      → Step s (record { mem = m; pc = update s.pc i p })

pub data Reach : System → Type 0 where
  here : Reach start
  next : {s t : System} → Reach s → Step s t → Reach t

-- Between the acquisition of the mutex and its release.
abbrev pub holds : Pc → Bool
holds (running zero) = false
holds (running (suc d)) = true
holds (locking zero n) = false
holds (locking (suc d) n) = true
holds (counting d v) = true
holds (unlocking d n) = true
holds (dropping zero v) = false
holds (dropping (suc d) v) = true
