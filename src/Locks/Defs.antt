-- ===== src/Locks/Defs.antt =====
-- The lock classes (Linux branches). A `pthread_t` is a number.
use jsntp_lcdd.Prelude.{ℕ, Option, none, some, Bool, false, if◌then◌else◌, ◌==◌}
use jsntp_lcdd.Prelude.Int.{ℤ, pos, negsuc, ◌+ℤ◌, ◌-ℤ◌}

-- `class Lockable`: a mutex of the default kind, with the thread that has it.
pub record Lockable : Type 0 where
  pub owner : Option ℕ

abbrev pub new_lockable : Lockable
new_lockable = record { owner = none }

-- `lock()`: `none` while the mutex is taken, also by the caller itself; the thread waits.
unfoldable pub acquire : ℕ → Lockable → Option Lockable
acquire self l = elim l.owner [ none ↦ some (record { owner = some self }) | some t ↦ none ]

-- `unlock()`.
unfoldable pub release : Lockable → Lockable
release l = record { owner = none }

-- `class TSSimpleMap<pthread_t, int>`. `operator[]` of `std::map` makes a missing entry 0.
abbrev pub Counts : Type 0
Counts = ℕ → ℤ

unfoldable pub get : ℕ → Counts → ℤ
get key m = m key

unfoldable pub set : ℕ → ℤ → Counts → Counts
set key v m k = if key == k then v else m k

-- `class LockableEx`: a mutex, and how often each thread has it.
pub record LockableEx : Type 0 where
  pub lock : Lockable
  pub tinfo : Counts

abbrev pub new_lockable_ex : LockableEx
new_lockable_ex = record { lock = new_lockable; tinfo = λ _. pos 0 }

abbrev pub is_zero : ℤ → Bool
is_zero (pos n) = n == 0
is_zero (negsuc n) = false

-- The body of `lock()` with the value that it read from the map.
unfoldable pub lock_with : ℕ → LockableEx → ℤ → Option LockableEx
unfolding acquire ◌+ℤ◌
lock_with self x locked =
    let counted : Counts = set self (locked +ℤ pos 1) x.tinfo in
    if is_zero locked
    then elim (acquire self x.lock) [
      | none ↦ none
      | some l ↦ some (record { lock = l; tinfo = counted })
    ]
    else some (record x { tinfo = counted })

-- `lock()`, run by one thread with no other in between; `none` if it has to wait.
unfoldable pub lock_ex : ℕ → LockableEx → Option LockableEx
unfolding lock_with get
lock_ex self x = lock_with self x (get self x.tinfo)

-- The body of `unlock()` with the value that it read, one less.
unfoldable pub unlock_with : ℕ → LockableEx → ℤ → LockableEx
unfolding release
unlock_with self x locked = record {
  lock = if is_zero locked then release x.lock else x.lock;
  tinfo = set self locked x.tinfo;
}

-- `unlock()`: `--_locked` comes before the test.
unfoldable pub unlock_ex : ℕ → LockableEx → LockableEx
unfolding unlock_with get ◌-ℤ◌
unlock_ex self x = unlock_with self x (get self x.tinfo -ℤ pos 1)
