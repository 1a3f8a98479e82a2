-- ===== src/Locks/Progress.antt =====
-- No thread is stuck for good by the lock itself, and the functions of one thread are runs of the
-- step relation.
use mathlib.Core.Path.{fun_ext}
use jsntp_lcdd.Prelude.{
  ℕ, zero, suc, ◌≡◌, ◌≢◌, refl, sym, subst, ◌⊎◌, inl, inr, true, false, none, some, ==_iff,
  Bool-cases, Option-cases, arith,
}
use jsntp_lcdd.Prelude.Int.{ℤ, pos, ◌-ℤ◌}
use jsntp_lcdd.Locks.Defs.{Lockable, LockableEx, acquire, get, is_zero, unlock_with, unlock_ex}
use jsntp_lcdd.Locks.Threads.{
  Pc, running, locking, counting, unlocking, dropping, Move, call_lock, take, again, count,
  call_unlock, give, hold, uncount, update, System, pick, Reach, next, holds,
}
use jsntp_lcdd.Locks.Exclusion.{Agrees, Reach-Inv, owner_iff}

-- A thread at `p` has a step with this memory.
abbrev pub CanMove : ℕ → LockableEx → Pc → Type 0
CanMove i m p = (m' : LockableEx) × (p' : Pc) × Move i m p m' p'

holder-CanMove : (i : ℕ) (m : LockableEx) (p : Pc) → Agrees m i p → holds p ≡ true → CanMove i m p
holder-CanMove i m (running d) a h = (_, _, call_lock)
holder-CanMove i m (locking zero n) a h = absurd (cc)
holder-CanMove i m (locking (suc d) n) a h = (_, _, again (ground (arith, a.known)))
holder-CanMove i m (counting d v) a h = (_, _, count)
holder-CanMove i m (unlocking d n) a h = elim (Bool-cases (is_zero n)) [
  | inl z ↦ (_, _, give z)
  | inr z ↦ (_, _, hold z)
]
holder-CanMove i m (dropping d v) a h = (_, _, uncount)

acquire_free :
    (i : ℕ) (l : Lockable) → l.owner ≡ none → acquire i l ≡ some (record { owner = some i })
unfolding acquire
acquire_free i l e = rw (e, acquire)

-- A thread that cannot move stands before an owned mutex.
free-CanMove :
    (i : ℕ) (m : LockableEx) (p : Pc)
    → Agrees m i p
    → holds p ≡ false
    → CanMove i m p ⊎ ((j : ℕ) × (m.lock.owner ≡ some j))
free-CanMove i m (running d) a h = inl (_, _, call_lock)
free-CanMove i m (locking zero n) a h = elim (Option-cases m.lock.owner) [
  | inl f ↦ inl (
    _,
    _,
    take {l = record { owner = some i }} (ground (arith, a.known)) (acquire_free i m.lock f),
  )
  | inr (j, o) ↦ inr (j, o)
]
free-CanMove i m (locking (suc d) n) a h = absurd (cc)
free-CanMove i m (counting d v) a h = absurd (cc)
free-CanMove i m (unlocking d n) a h = absurd (cc)
free-CanMove i m (dropping d v) a h = inl (_, _, uncount)

-- In every interleaving a thread has a next step, or another thread owns the mutex and has
-- one.
pub waits_for_owner :
    {s : System} (i : ℕ)
    → Reach s
    → CanMove i s.mem (s.pc i)
      ⊎ ((j : ℕ) × (s.mem.lock.owner ≡ some j) × (i ≢ j) × CanMove j s.mem (s.pc j))
waits_for_owner {s} i r = elim (Bool-cases (holds (s.pc i))) [
  | inl h ↦ inl (holder-CanMove i s.mem (s.pc i) (Reach-Inv r i) h)
  | inr h ↦ elim (free-CanMove i s.mem (s.pc i) (Reach-Inv r i) h) [
    | inl m ↦ inl m
    | inr (j, o) ↦
        let holds_j = (owner_iff j r).0 o in
        inr (j, o, (λ e. cc), holder-CanMove j s.mem (s.pc j) (Reach-Inv r j) holds_j)
  ]
]

update_same : (f : ℕ → Pc) (i : ℕ) (p : Pc) → update f i p i ≡ p
update_same f i p = ground (arith, ==_iff i i)

update_twice : (f : ℕ → Pc) (i : ℕ) (p q : Pc) → update (update f i p) i q ≡ update f i q
update_twice f i p q = fun_ext λ j. ground arith

abbrev set_pc : System → ℕ → LockableEx → Pc → System
set_pc s i m p = record { mem = m; pc = update s.pc i p }

-- A run of thread `i` alone.
pub data Alone (i : ℕ) (s : System) : System → Type 0 where
  stays : Alone i s s
  more :
      {t : System} {m : LockableEx} {p : Pc}
      → Alone i s t
      → Move i t.mem (t.pc i) m p
      → Alone i s (record { mem = m; pc = update t.pc i p })

Alone-Reach : (i : ℕ) {s t : System} → Alone i s t → Reach s → Reach t
Alone-Reach i stays r = r
Alone-Reach i (more a mv) r = next (Alone-Reach i a r) (pick i mv)

-- The first step of thread `i`, which stands at `p`.
first :
    (s : System) (i : ℕ) {p p' : Pc} {m : LockableEx}
    → s.pc i ≡ p
    → Move i s.mem p m p'
    → Alone i s (set_pc s i m p')
first s i {p' = p'} {m = m} e mv = more stays (subst (λ k. Move i s.mem k m p') (sym e) mv)

-- A further step of the same thread.
then_step :
    (s : System) (i : ℕ) {p p' : Pc} {m m' : LockableEx}
    → Alone i s (set_pc s i m p)
    → Move i m p m' p'
    → Alone i s (set_pc s i m' p')
then_step s i {p = p} {p' = p'} {m = m} {m' = m'} r mv =
    subst (λ f. Alone i s (record { mem = m'; pc = f })) (update_twice s.pc i p p')
      (more r (subst (λ k. Move i m k m' p') (sym (update_same s.pc i p)) mv))

unlock_with-Alone :
    (s : System) (i d : ℕ) (n : ℤ)
    → Alone i s (set_pc s i s.mem (unlocking d n))
    → Alone i s (set_pc s i (unlock_with i s.mem n) (running d))
unfolding unlock_with
unlock_with-Alone s i d n r = elim (Bool-cases (is_zero n)) [
  | inl z ↦ rw z (then_step s i (then_step s i r (give z)) uncount)
  | inr z ↦ rw z (then_step s i (then_step s i r (hold z)) uncount)
]

unlock_ex-Alone :
    (s : System) (i d : ℕ)
    → s.pc i ≡ running (suc d)
    → Alone i s (record { mem = unlock_ex i s.mem; pc = update s.pc i (running d) })
unfolding unlock_ex
unlock_ex-Alone s i d e =
    unlock_with-Alone s i d (get i s.mem.tinfo -ℤ pos 1) (first s i e (call_unlock refl))
