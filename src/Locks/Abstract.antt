-- ===== src/Locks/Abstract.antt =====
-- The lock that `LockableEx` stands for: one holder, and how often it has the lock.
use jsntp_lcdd.Prelude.{
  ℕ, zero, suc, ◌≡◌, refl, sym, ap, ◌∙◌, subst, inl, inr, true, false, Option, none, some,
  if◌then◌else◌, ◌==◌, ==_iff, Bool-cases, arith,
}
use jsntp_lcdd.Locks.Defs.{LockableEx, acquire}
use jsntp_lcdd.Locks.Threads.{
  Pc, running, locking, counting, unlocking, dropping, Move, call_lock, take, again, count,
  call_unlock, give, hold, uncount, update, System, pick, Reach, here, next, holds,
}
use jsntp_lcdd.Locks.Exclusion.{Agrees, Inv, Reach-Inv}

-- `held i d` is thread `i` with `d` locks inside its first one.
pub data Holder : Type 0 where
  free : Holder
  held : (by deeper : ℕ) → Holder

pub data Op : Type 0 where
  lock unlock : Op

-- What the specification allows.
unfoldable pub apply : ℕ → Op → Holder → Option Holder
apply i lock free = some (held i 0)
apply i lock (held j d) = if j == i then some (held j (suc d)) else none
apply i unlock free = none
apply i unlock (held j zero) = if j == i then some free else none
apply i unlock (held j (suc d)) = if j == i then some (held j d) else none

-- Where a call takes effect.
abbrev pub effect : {i : ℕ} {m m' : LockableEx} {p p' : Pc} → Move i m p m' p' → Option Op
effect (take z q) = some lock
effect (again z) = some lock
effect (give z) = some unlock
effect (hold z) = some unlock
effect call_lock = none
effect count = none
effect (call_unlock e) = none
effect uncount = none

abbrev pub follow : ℕ → Option Op → Holder → Option Holder
follow i none h = some h
follow i (some op) h = apply i op h

abbrev pub and_then : Option Holder → (Holder → Option Holder) → Option Holder
and_then none f = none
and_then (some h) f = f h

-- The effects of a run, replayed on the specification.
abbrev pub replay : {s : System} → Reach s → Option Holder
replay here = some free
replay (next r (pick i mv)) = and_then (replay r) (follow i (effect mv))

-- How often a thread has the lock, by its program counter and by the specification.
abbrev pub level : Pc → ℕ
level (running d) = d
level (locking d n) = d
level (counting d v) = suc d
level (unlocking d n) = suc d
level (dropping d v) = d

abbrev pub depth_of : Holder → ℕ → ℕ
depth_of free j = 0
depth_of (held i d) j = if i == j then suc d else 0

-- The specification after a move of thread `i`.
record After (i : ℕ) (e : Option Op) (p' : Pc) (h h' : Holder) : Type 0 where
  allowed : follow i e h ≡ some h'
  mover : level p' ≡ depth_of h' i
  others : (j : ℕ) → (i == j) ≡ false → depth_of h' j ≡ depth_of h j

holder_of : (h : Holder) (i d : ℕ) → suc d ≡ depth_of h i → h ≡ held i d
holder_of free i d e = absurd (ground arith)
holder_of (held j k) i d e = ground (arith, ==_iff j i)

stay : {i : ℕ} (p' : Pc) (h : Holder) → level p' ≡ depth_of h i → After i none p' h h
stay p' h e = record { allowed = refl; mover = e; others = λ j a. refl }

Move-After :
    {i : ℕ} {m m' : LockableEx} {p p' : Pc} (h : Holder)
    → (mv : Move i m p m' p') → Agrees m i p
    → (m.lock.owner ≡ none → h ≡ free)
    → level p ≡ depth_of h i
    → (h' : Holder) × After i (effect mv) p' h h'
unfolding apply acquire
Move-After h call_lock a o e = (h, stay (locking _ _) h e)
Move-After h count a o e = (h, stay (running _) h e)
Move-After h uncount a o e = (h, stay (running _) h e)
Move-After h (call_unlock q) a o e = (h, stay (unlocking _ _) h (ground arith))
Move-After {i} h (take z q) a o e = (
  held i 0,
  record {
    allowed = ground arith;
    mover = ground (arith, ==_iff i i);
    others = λ j f. ground arith;
  },
)
Move-After h (again {d = zero} z) a o e = absurd (ground arith)
Move-After {i} h (again {d = suc k} z) a o e =
    let is = holder_of h i k e in
    (
      held i (suc k),
      record {
        allowed = ground (arith, is, ==_iff i i);
        mover = ground (arith, ==_iff i i);
        others = λ j f. ground (arith, is);
      },
    )
Move-After {i} h (give {d = d} z) a o e =
    let is = holder_of h i d e in
    (
      free,
      record {
        allowed = ground (arith, is, ==_iff i i);
        mover = ground arith;
        others = λ j f. ground (arith, is);
      },
    )
Move-After h (hold {d = zero} z) a o e = absurd (ground arith)
Move-After {i} h (hold {d = suc k} z) a o e =
    let is = holder_of h i (suc k) e in
    (
      held i k,
      record {
        allowed = ground (arith, is, ==_iff i i);
        mover = ground (arith, ==_iff i i);
        others = λ j f. ground (arith, is);
      },
    )

-- The holder of the specification and the program counters agree on every thread.
abbrev pub View : System → Holder → Type 0
View s h = (j : ℕ) → level (s.pc j) ≡ depth_of h j

holds_of_level : (p : Pc) (d : ℕ) → level p ≡ suc d → holds p ≡ true
holds_of_level (running zero) d e = absurd (omega arith)
holds_of_level (running (suc k)) d e = refl
holds_of_level (locking zero n) d e = absurd (omega arith)
holds_of_level (locking (suc k) n) d e = refl
holds_of_level (counting k v) d e = refl
holds_of_level (unlocking k n) d e = refl
holds_of_level (dropping zero v) d e = absurd (omega arith)
holds_of_level (dropping (suc k) v) d e = refl

-- With the mutex free the specification is free.
free_of_View : (s : System) (h : Holder) → Inv s → View s h → s.mem.lock.owner ≡ none → h ≡ free
free_of_View s free inv v o = refl
free_of_View s (held i d) inv v o =
    let up : level (s.pc i) ≡ suc d = v i ∙ ground (arith, ==_iff i i) in
    let own = (inv i).owns (holds_of_level (s.pc i) d up) in absurd (ground (arith, own))

After-View :
    (s : System) (i : ℕ) (m : LockableEx) (e : Option Op) (p' : Pc) (h h' : Holder)
    → View s h
    → After i e p' h h'
    → View (record { mem = m; pc = update s.pc i p' }) h'
After-View s i m e p' h h' v a j = elim (Bool-cases (i == j)) [
  | inl same ↦ rw same (subst (λ k. level p' ≡ depth_of h' k) ((==_iff i j).0 same) a.mover)
  | inr apart ↦ rw apart (v j ∙ sym (a.others j apart))
]

-- Every run of the threads, read by what its calls bring about, is a run of a reentrant lock
-- with one holder and a depth: each step is allowed there, and afterwards each thread has the
-- lock as often as the specification says.
pub replay-refines : {s : System} (r : Reach s) → (h : Holder) × (replay r ≡ some h) × View s h
replay-refines here = (free, refl, λ j. refl)
replay-refines (next {s = s} r (pick i {m = m} {p = p'} mv)) =
    let (h, e, v) = replay-refines r in
    let inv = Reach-Inv r in
    let (h', a) = Move-After h mv (inv i) (free_of_View s h inv v) (v i) in
    (
      h',
      ap (λ (o : Option Holder). and_then o (follow i (effect mv))) e ∙ a.allowed,
      After-View s i m (effect mv) p' h h' v a,
    )
