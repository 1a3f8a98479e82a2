-- ===== src/Locks/Balance.antt =====
-- `unlock` after `lock`, one thread alone, and what an `unlock` too many does.
use mathlib.Core.Path.{fun_ext}
use jsntp_lcdd.Prelude.{
  ℕ, none, some, true, false, if◌then◌else◌, ◌==◌, ◌≡◌, refl, sym, ◌∙◌, ap, arith, Bool-cases, inl,
  inr, ==_iff, ◌⊎◌,
}
use jsntp_lcdd.Prelude.Int.{ℤ, pos, negsuc, ◌+ℤ◌, ◌-ℤ◌}
use jsntp_lcdd.Locks.Defs.{
  Lockable, LockableEx, Counts, release, get, set, is_zero, lock_with, lock_ex, unlock_with,
  unlock_ex,
}

set-set : (i : ℕ) (v w : ℤ) (m : Counts) → set i v (set i w m) ≡ set i v m
unfolding set
set-set i v w m = fun_ext λ k. ground arith

set-get : (i : ℕ) (m : Counts) → set i (get i m) m ≡ m
unfolding set get
set-get i m =
    fun_ext
      λ k. elim (Bool-cases (i == k)) [ inl e ↦ rw e (ap m ((==_iff i k).0 e)) | inr e ↦ rw e ]

get-set : (i : ℕ) (v : ℤ) (m : Counts) → get i (set i v m) ≡ v
unfolding set get
get-set i v m = ground arith

add_sub_one : (n : ℤ) → n +ℤ pos 1 -ℤ pos 1 ≡ n
unfolding ◌+ℤ◌ ◌-ℤ◌
add_sub_one n = ground arith

-- `lock` takes the mutex exactly when `unlock` gives it back.
lock_with-owner :
    (i : ℕ) (x : LockableEx) (n : ℤ) (l : Lockable)
    → ((is_zero n ≡ true) × (x.lock.owner ≡ none)) ⊎ ((is_zero n ≡ false) × (l ≡ x.lock))
    → (if is_zero n then release l else l) ≡ x.lock
unfolding release
lock_with-owner i x n l h = ground arith

abbrev counted : ℕ → LockableEx → ℤ → Lockable → LockableEx
counted i x n l = record { lock = l; tinfo = set i (n +ℤ pos 1) x.tinfo }

unlock-counted :
    (i : ℕ) (x : LockableEx) (n : ℤ) (l : Lockable)
    → get i x.tinfo ≡ n
    → unlock_ex i (counted i x n l)
      ≡ record { lock = if is_zero n then release l else l; tinfo = x.tinfo }
unfolding unlock_ex
unlock-counted i x n l g =
    ap (λ (k : ℤ). unlock_with i (counted i x n l) (k -ℤ pos 1)) (get-set i (n +ℤ pos 1) x.tinfo)
    ∙ ap (unlock_with i (counted i x n l)) (add_sub_one n)
    ∙ ap (λ (m : Counts). record { lock = if is_zero n then release l else l; tinfo = m })
        (set-set i n (n +ℤ pos 1) x.tinfo
          ∙ ap (λ (k : ℤ). set i k x.tinfo) (sym g)
          ∙ set-get i x.tinfo)

-- The two ways through `lock`.
lock_with-cases :
    (i : ℕ) (x : LockableEx) (n : ℤ) {y : LockableEx}
    → lock_with i x n ≡ some y
    → (l : Lockable) × (counted i x n l ≡ y)
      × (((is_zero n ≡ true) × (x.lock.owner ≡ none)) ⊎ ((is_zero n ≡ false) × (l ≡ x.lock)))
unfolding lock_with
lock_with-cases i x n h = elim (Bool-cases (is_zero n)) [
  | inl z ↦ (record { owner = some i }, ground arith, ground arith)
  | inr z ↦ (x.lock, ground arith, ground arith)
]

unlock-lock_with :
    (i : ℕ) (x : LockableEx) (n : ℤ) {y : LockableEx}
    → get i x.tinfo ≡ n
    → lock_with i x n ≡ some y
    → unlock_ex i y ≡ x
unlock-lock_with i x n g h =
    let (l, e, o) = lock_with-cases i x n h in
    ap (unlock_ex i) (sym e)
    ∙ unlock-counted i x n l g
    ∙ ap (λ (k : Lockable). record x { lock = k }) (lock_with-owner i x n l o)

-- A lock that goes through and then an unlock leave the LockableEx as it was.
pub unlock-lock :
    (i : ℕ) (x : LockableEx) {y : LockableEx} → lock_ex i x ≡ some y → unlock_ex i y ≡ x
unfolding lock_ex
unlock-lock i x h = unlock-lock_with i x (get i x.tinfo) refl h

-- After an unlock without a lock, the next lock of the thread returns without taking the
-- mutex.
pub lock-unlock_unbalanced :
    (i : ℕ) (x : LockableEx) → get i x.tinfo ≡ pos 0 → lock_ex i (unlock_ex i x) ≡ some x
unfolding lock_ex unlock_ex
lock-unlock_unbalanced i x g =
    let y : LockableEx = record x { tinfo = set i (negsuc 0) x.tinfo } in
    ap (λ (k : ℤ). lock_ex i (unlock_with i x (k -ℤ pos 1))) g
    ∙ ap (lock_with i y) (get-set i (negsuc 0) x.tinfo)
    ∙ ap (λ (m : Counts). some (record x { tinfo = m }))
        (set-set i (pos 0) (negsuc 0) x.tinfo
          ∙ ap (λ (k : ℤ). set i k x.tinfo) (sym g)
          ∙ set-get i x.tinfo)
