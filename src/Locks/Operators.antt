-- ===== src/Locks/Operators.antt =====
-- What each operation of `AtomicNum` answers and leaves, and that it leaves the lock as it was.
use jsntp_lcdd.Prelude.{
  ℕ, Option, none, some, Bool, true, false, if◌then◌else◌, ◌≡◌, ◌≢◌, ◌⊎◌, refl, ap, ◌∙◌,
  Option-cases, inl, inr,
}
use jsntp_lcdd.Locks.Defs.{LockableEx, lock_ex}
use jsntp_lcdd.Locks.Balance.{unlock-lock}
use jsntp_lcdd.Locks.Atomic.{
  Arith, AtomicNum, locked, add_assign, sub_assign, mul_assign, div_assign, mod_assign, shl_assign,
  shr_assign, xor_assign, and_assign, or_assign, is_eq, is_ne, is_gt, is_lt, is_ge, is_le, getifset,
  getifnset, assign, load, getset,
}

-- The lock is as it was before, and the value what the body makes of it, unless the thread waits.
pub locked_lem :
    {T R : Type 0} (self : ℕ) (body : T → R × T) (a : AtomicNum T)
    → ((lock_ex self a.ex ≡ none) × (locked self body a ≡ none))
      ⊎ (locked self body a ≡ some ((body a.value).0, record a { value = (body a.value).1 }))
unfolding locked
locked_lem self body a = elim (Option-cases (lock_ex self a.ex)) [
  | inl e ↦ inl (e, rw (e, locked))
  | inr (x, e) ↦ inr (
      rw (e, locked)
        (ap
          (λ (k : LockableEx). some ((body a.value).0, record { ex = k; value = (body a.value).1 }))
          (unlock-lock self a.ex e)))
]

pub locked-runs :
    {T R : Type 0} (self : ℕ) (body : T → R × T) (a : AtomicNum T)
    → lock_ex self a.ex ≢ none
    → locked self body a ≡ some ((body a.value).0, record a { value = (body a.value).1 })
locked-runs self body a h = elim (locked_lem self body a) [
  | inl (waits, _) ↦ absurd (h waits)
  | inr e ↦ e
]

pub locked-waits :
    {T R : Type 0} (self : ℕ) (body : T → R × T) (a : AtomicNum T)
    → lock_ex self a.ex ≡ none
    → locked self body a ≡ none
unfolding locked
locked-waits self body a h = rw (h, locked)

choose_value :
    {T : Type 0} (b : Bool) (a : AtomicNum T) (v : T)
    → ◌≡◌ {A = AtomicNum T}
        (record a { value = if b then v else a.value })
        (if b then record a { value = v } else a)
choose_value true a v = refl
choose_value false a v = refl

module _ {T : Type 0} (ops : Arith T) (self : ℕ) (a : AtomicNum T) where
  -- When the lock can be taken, getifset returns the old value, stores the new one exactly
  -- when the old one was the expected one, and leaves the lock as before.
  pub getifset_lem :
      (value ifvalue : T)
      → lock_ex self a.ex ≢ none
      → getifset ops self value ifvalue a
        ≡ some (a.value, if ops.eq a.value ifvalue then record a { value = value } else a)
  unfolding getifset
  getifset_lem value ifvalue h =
      locked-runs self (λ old. (old, if ops.eq old ifvalue then value else old)) a h
      ∙ ap (λ (k : AtomicNum T). some (a.value, k)) (choose_value (ops.eq a.value ifvalue) a value)

  pub getifset_waits :
      (value ifvalue : T) → lock_ex self a.ex ≡ none → getifset ops self value ifvalue a ≡ none
  unfolding getifset
  getifset_waits value ifvalue h =
      locked-waits self (λ old. (old, if ops.eq old ifvalue then value else old)) a h

  -- When the lock can be taken, getifnset returns the old value, stores the new one exactly
  -- when the old one was not the given one, and leaves the lock as before.
  pub getifnset_lem :
      (value ifnvalue : T)
      → lock_ex self a.ex ≢ none
      → getifnset ops self value ifnvalue a
        ≡ some (a.value, if ops.ne a.value ifnvalue then record a { value = value } else a)
  unfolding getifnset
  getifnset_lem value ifnvalue h =
      locked-runs self (λ old. (old, if ops.ne old ifnvalue then value else old)) a h
      ∙ ap (λ (k : AtomicNum T). some (a.value, k)) (choose_value (ops.ne a.value ifnvalue) a value)

  abbrev pub Becomes : Option (Unit {0} × AtomicNum T) → T → Type 0
  Becomes r v = r ≡ some (tt, record a { value = v })

  -- When the lock can be taken, each of the eleven assignments leaves its operator's result
  -- and the lock as before.
  pub assignments_lem :
      (y : T)
      → lock_ex self a.ex ≢ none
      → Becomes (assign self y a) y
        × Becomes (add_assign ops self y a) (ops.add a.value y)
        × Becomes (sub_assign ops self y a) (ops.sub a.value y)
        × Becomes (mul_assign ops self y a) (ops.mul a.value y)
        × Becomes (div_assign ops self y a) (ops.div a.value y)
        × Becomes (mod_assign ops self y a) (ops.rem a.value y)
        × Becomes (shl_assign ops self y a) (ops.shl a.value y)
        × Becomes (shr_assign ops self y a) (ops.shr a.value y)
        × Becomes (xor_assign ops self y a) (ops.bxor a.value y)
        × Becomes (and_assign ops self y a) (ops.band a.value y)
        × Becomes (or_assign ops self y a) (ops.bor a.value y)
  unfolding assign add_assign sub_assign mul_assign div_assign mod_assign shl_assign shr_assign
      xor_assign and_assign or_assign
  assignments_lem y h =
      let go = λ (f : T → T). locked-runs self (λ v. (tt, f v)) a h in
      (
        go (λ v. y),
        go (λ v. ops.add v y),
        go (λ v. ops.sub v y),
        go (λ v. ops.mul v y),
        go (λ v. ops.div v y),
        go (λ v. ops.rem v y),
        go (λ v. ops.shl v y),
        go (λ v. ops.shr v y),
        go (λ v. ops.bxor v y),
        go (λ v. ops.band v y),
        go (λ v. ops.bor v y),
      )

  abbrev pub Tells : Option (Bool × AtomicNum T) → Bool → Type 0
  Tells r b = r ≡ some (b, a)

  -- When the lock can be taken, each comparison and the read answer for the value and change
  -- nothing, and getset swaps.
  pub comparisons_lem :
      (y : T)
      → lock_ex self a.ex ≢ none
      → Tells (is_eq ops self y a) (ops.eq a.value y)
        × Tells (is_ne ops self y a) (ops.ne a.value y)
        × Tells (is_gt ops self y a) (ops.gt a.value y)
        × Tells (is_lt ops self y a) (ops.lt a.value y)
        × Tells (is_ge ops self y a) (ops.ge a.value y)
        × Tells (is_le ops self y a) (ops.le a.value y)
        × (load self a ≡ some (a.value, a))
        × (getset self y a ≡ some (a.value, record a { value = y }))
  unfolding is_eq is_ne is_gt is_lt is_ge is_le load getset
  comparisons_lem y h =
      let go = λ (f : T → Bool). locked-runs self (λ v. (f v, v)) a h in
      (
        go (λ v. ops.eq v y),
        go (λ v. ops.ne v y),
        go (λ v. ops.gt v y),
        go (λ v. ops.lt v y),
        go (λ v. ops.ge v y),
        go (λ v. ops.le v y),
        locked-runs self (λ v. (v, v)) a h,
        locked-runs self (λ v. (v, y)) a h,
      )
