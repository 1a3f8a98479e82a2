-- ===== src/Smart/Threads.antt =====
-- Any number of threads over one root: `addRef` and `delRef` of `SmartPointer`, one step for each
-- access to the lock or the count, and of `SmartPointerNTS`, which has no lock.
use jsntp_lcdd.Prelude.{
  ℕ, suc, ◌+◌, ◌-◌, ◌<◌, ◌≡◌, true, false, Option, some, List, [], ◌∷◌, if◌then◌else◌, ◌==◌, leb,
}
use jsntp_lcdd.Locks.Defs.{Lockable, new_lockable, acquire, release}

pub data Class : Type 0 where
  smart_pointer smart_pointer_nts : Class

-- `pLock->lock()` and `pLock->unlock()`, where the class has a lock.
abbrev pub take_lock : Class → ℕ → Lockable → Option Lockable
take_lock smart_pointer self l = acquire self l
take_lock smart_pointer_nts self l = some l

abbrev pub give_lock : Class → Lockable → Lockable
give_lock smart_pointer l = release l
give_lock smart_pointer_nts l = l

pub data Op : Type 0 where
  adding dropping : Op

-- Where a thread stands in `addRef` or `delRef`.
pub data Pc : Type 0 where
  idle : Pc
  calling : Op → Pc  -- before the lock
  entered : Op → Pc  -- before the count is read
  loaded : Op → (count : ℕ) → Pc  -- before it is written
  leaving : Pc  -- before the lock is given back

-- `owners` has a thread once for each handle on the root that it has; the code does not keep it.
pub record Root : Type 0 where
  pub ref_count : ℕ
  pub deletions : ℕ
  pub lock : Lockable
  pub owners : List ℕ

-- How many handles a thread has.
abbrev pub share_of : ℕ → List ℕ → ℕ
share_of i [] = 0
share_of i (j ∷ js) = (if j == i then 1 else 0) + share_of i js

-- One handle of a thread less.
abbrev pub without : ℕ → List ℕ → List ℕ
without i [] = []
without i (j ∷ js) = let rest = without i js in if j == i then js else j ∷ rest

-- One step of a thread. It starts a call only through a handle of its own.
pub data Move (c : Class) (self : ℕ) (r : Root) : Pc → Root → Pc → Type 0 where
  -- Another thread is given a handle.
  hand :
      (to : ℕ)
      → 0 < share_of self r.owners
      → Move c self r idle (record r { owners = to ∷ without self r.owners }) idle
  call : (op : Op) → 0 < share_of self r.owners → Move c self r idle r (calling op)
  enter :
      {op : Op} {l : Lockable}
      → take_lock c self r.lock ≡ some l
      → Move c self r (calling op) (record r { lock = l }) (entered op)
  load : {op : Op} → Move c self r (entered op) r (loaded op r.ref_count)
  store_more :
      {v : ℕ}
      → Move c self r
          (loaded adding v)
          (record r { ref_count = v + 1; owners = self ∷ r.owners })
          leaving
  store_less :
      {v : ℕ}
      → leb v 1 ≡ false
      → Move c self r
          (loaded dropping v)
          (record r { ref_count = v - 1; owners = without self r.owners })
          leaving
  -- `delete m_ptr; delete this; return;`
  delete_root :
      {v : ℕ}
      → leb v 1 ≡ true
      → Move c self r
          (loaded dropping v)
          (record r {
            ref_count = v - 1;
            deletions = suc r.deletions;
            owners = without self r.owners;
          })
          idle
  leave : Move c self r leaving (record r { lock = give_lock c r.lock }) idle

pub record System : Type 0 where
  pub root : Root
  pub pc : ℕ → Pc

abbrev pub update : (ℕ → Pc) → ℕ → Pc → ℕ → Pc
update f i p j = if i == j then p else f j

-- A thread has made the root, with one handle on it.
abbrev pub start : ℕ → System
start i = record {
  root = record { ref_count = 1; deletions = 0; lock = new_lockable; owners = i ∷ [] };
  pc = λ _. idle;
}

pub data Step (c : Class) (s : System) : System → Type 0 where
  pick :
      (i : ℕ) {r : Root} {p : Pc}
      → Move c i s.root (s.pc i) r p
      → Step c s (record { root = r; pc = update s.pc i p })

pub data Reach (c : Class) : System → Type 0 where
  here : (i : ℕ) → Reach c (start i)
  next : {s t : System} → Reach c s → Step c s t → Reach c t
