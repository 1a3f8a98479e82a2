-- ===== src/Locks/Exclusion.antt =====
-- What holds in every interleaving of threads over one `LockableEx`.
use jsntp_lcdd.Prelude.{
  ℕ, suc, none, some, true, false, ◌==◌, ◌≡◌, ◌↔◌, ◌∙◌, refl, inl, inr, arith, ==_iff, ap, subst,
  Bool-cases,
}
use jsntp_lcdd.Prelude.Int.{ℤ, pos, ◌+ℤ◌, ◌-ℤ◌}
use jsntp_lcdd.Locks.Defs.{LockableEx, acquire, release, get, set, lock_with, lock_ex}
use jsntp_lcdd.Locks.Threads.{
  Pc, running, locking, counting, unlocking, dropping, Move, take, again, call_unlock, give, hold,
  System, Step, pick, Reach, here, next, holds,
}

pub lock_with-suc :
    (i d : ℕ) (x : LockableEx)
    → lock_with i x (pos (suc d)) ≡ some (record x { tinfo = set i (pos (suc (suc d))) x.tinfo })
unfolding lock_with
lock_with-suc i d x = ground arith

lock_with-taken : (i j : ℕ) (x : LockableEx) → x.lock.owner ≡ some j → lock_with i x (pos 0) ≡ none
unfolding lock_with
lock_with-taken i j x h = ground arith

lock_with-free :
    (i : ℕ) (x : LockableEx)
    → x.lock.owner ≡ none
    → lock_with i x (pos 0)
      ≡ some (record { lock = record { owner = some i }; tinfo = set i (pos 1) x.tinfo })
unfolding lock_with
lock_with-free i x h = ground arith

-- The entry of a thread in the map, and its local variable, follow from where it stands.
abbrev pub entry : Pc → ℤ
entry (running d) = pos d
entry (locking d n) = pos d
entry (counting d v) = pos d
entry (unlocking d n) = pos (suc d)
entry (dropping d v) = pos (suc d)

abbrev pub Local : Pc → Type 0
Local (running d) = Unit {0}
Local (locking d n) = n ≡ pos d
Local (counting d v) = v ≡ pos (suc d)
Local (unlocking d n) = n ≡ pos d
Local (dropping d v) = v ≡ pos d

pub record Agrees (m : LockableEx) (i : ℕ) (p : Pc) : Type 0 where
  pub counted : m.tinfo i ≡ entry p
  pub known : Local p
  pub owns : holds p ≡ true → m.lock.owner ≡ some i
  pub owned : m.lock.owner ≡ some i → holds p ≡ true

-- The thread that moves.
Move-Agrees :
    {i : ℕ} {m m' : LockableEx} {p p' : Pc} → Move i m p m' p' → Agrees m i p → Agrees m' i p'
unfolding acquire release get set ◌+ℤ◌ ◌-ℤ◌
Move-Agrees {i} (take z q) a = ground arith
Move-Agrees {i} (again z) a = ground arith
Move-Agrees {i} (give z) a = ground arith
Move-Agrees {i} (hold z) a = ground arith
Move-Agrees {i} (call_unlock e) a = ground arith
Move-Agrees {i} mv a = ground arith

-- Any other thread keeps its entry, and the mutex if it has it.
Other-Agrees :
    {i j : ℕ} {m m' : LockableEx} {p p' q : Pc}
    → (i == j) ≡ false
    → Move i m p m' p'
    → Agrees m i p
    → Agrees m j q
    → Agrees m' j q
unfolding acquire release get set ◌+ℤ◌ ◌-ℤ◌
Other-Agrees e (take z q) a b = ground arith
Other-Agrees e (again z) a b = ground arith
Other-Agrees e (give z) a b = ground arith
Other-Agrees e (hold z) a b = ground arith
Other-Agrees e mv a b = ground arith

abbrev pub Inv : System → Type 0
Inv s = (i : ℕ) → Agrees s.mem i (s.pc i)

Step-Inv : {s t : System} → Step s t → Inv s → Inv t
Step-Inv {s} (pick i {m = m} {p = p} mv) inv j = elim (Bool-cases (i == j)) [
  | inl e ↦ rw e (subst (λ k. Agrees m k p) ((==_iff i j).0 e) (Move-Agrees mv (inv i)))
  | inr e ↦ rw e (Other-Agrees e mv (inv i) (inv j))
]

pub Reach-Inv : {s : System} → Reach s → Inv s
Reach-Inv here i = record { counted = refl; known = tt; owns = λ e. cc; owned = λ e. cc }
Reach-Inv (next r st) i = Step-Inv st (Reach-Inv r) i

-- In every interleaving of threads that unlock only their own locks, two threads that are
-- inside the same LockableEx are one thread.
pub mutual_exclusion :
    {s : System} (i j : ℕ) → Reach s → holds (s.pc i) ≡ true → holds (s.pc j) ≡ true → i ≡ j
mutual_exclusion {s} i j r hi hj =
    let a = (Reach-Inv r i).owns hi in let b = (Reach-Inv r j).owns hj in cc

-- In every interleaving the mutex is owned by a thread exactly when that thread stands between
-- its acquisition and its release.
pub owner_iff :
    {s : System} (i : ℕ) → Reach s → (s.mem.lock.owner ≡ some i) ↔ (holds (s.pc i) ≡ true)
owner_iff i r = ((Reach-Inv r i).owned, (Reach-Inv r i).owns)

-- A thread that is inside a lock of its own goes through its next lock, which changes only its
-- count.
pub relock :
    {s : System} (i d : ℕ)
    → Reach s
    → s.pc i ≡ running (suc d)
    → lock_ex i s.mem ≡ some (record s.mem { tinfo = set i (pos (suc (suc d))) s.mem.tinfo })
unfolding lock_ex
relock {s} i d r e =
    ap (lock_with i s.mem) ((Reach-Inv r i).counted ∙ ap entry e) ∙ lock_with-suc i d s.mem

-- Between the acquisition of the mutex and the write to the map, the thread's own `lock` waits.
pub self_wait :
    {s : System} (i : ℕ) (v : ℤ) → Reach s → s.pc i ≡ counting 0 v → lock_ex i s.mem ≡ none
unfolding lock_ex
self_wait {s} i v r e =
    let a = Reach-Inv r i in
    ap (lock_with i s.mem) (a.counted ∙ ap entry e)
    ∙ lock_with-taken i i s.mem (a.owns (ap holds e))

-- In every reachable state with the mutex free, a thread outside every lock goes through its
-- lock and owns the mutex.
pub free_lock :
    {s : System} (i : ℕ)
    → Reach s
    → s.pc i ≡ running 0
    → s.mem.lock.owner ≡ none
    → lock_ex i s.mem
      ≡ some (record { lock = record { owner = some i }; tinfo = set i (pos 1) s.mem.tinfo })
unfolding lock_ex
free_lock {s} i r e f =
    ap (lock_with i s.mem) ((Reach-Inv r i).counted ∙ ap entry e) ∙ lock_with-free i s.mem f
