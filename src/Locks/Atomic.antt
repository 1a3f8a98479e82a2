-- ===== src/Locks/Atomic.antt =====
-- `AtomicNum`: each operation is the same body under the lock of the number.
use jsntp_lcdd.Prelude.{ℕ, Option, none, some, Bool, if◌then◌else◌}
use jsntp_lcdd.Locks.Defs.{LockableEx, lock_ex, unlock_ex}

-- What `T` offers to the template.
pub record Arith (T : Type 0) : Type 0 where
  pub add : T → T → T
  pub sub : T → T → T
  pub mul : T → T → T
  pub div : T → T → T
  pub rem : T → T → T
  pub shl : T → T → T
  pub shr : T → T → T
  pub bxor : T → T → T
  pub band : T → T → T
  pub bor : T → T → T
  pub eq : T → T → Bool
  pub ne : T → T → Bool
  pub gt : T → T → Bool
  pub lt : T → T → Bool
  pub ge : T → T → Bool
  pub le : T → T → Bool

pub record AtomicNum (T : Type 0) : Type 0 where
  pub ex : LockableEx
  pub value : T

-- `lock(); ... unlock();` around a body that reads the value and leaves a new one.
unfoldable pub locked : {T R : Type 0} → ℕ → (T → R × T) → AtomicNum T → Option (R × AtomicNum T)
locked self body a = elim (lock_ex self a.ex) [
  | none ↦ none
  | some x ↦ let (r, v) = body a.value in some (r, record { ex = unlock_ex self x; value = v })
]

module _ {T : Type 0} (ops : Arith T) where
  abbrev pub Modifies : Type 0
  Modifies = ℕ → T → AtomicNum T → Option (Unit {0} × AtomicNum T)

  abbrev pub Asks : Type 0
  Asks = ℕ → T → AtomicNum T → Option (Bool × AtomicNum T)

  -- `operator+=`.
  unfoldable pub add_assign : Modifies
  unfolding locked
  add_assign self y = locked self (λ v. (tt, ops.add v y))

  -- `operator-=`.
  unfoldable pub sub_assign : Modifies
  unfolding locked
  sub_assign self y = locked self (λ v. (tt, ops.sub v y))

  -- `operator*=`.
  unfoldable pub mul_assign : Modifies
  unfolding locked
  mul_assign self y = locked self (λ v. (tt, ops.mul v y))

  -- `operator/=`.
  unfoldable pub div_assign : Modifies
  unfolding locked
  div_assign self y = locked self (λ v. (tt, ops.div v y))

  -- `operator%=`.
  unfoldable pub mod_assign : Modifies
  unfolding locked
  mod_assign self y = locked self (λ v. (tt, ops.rem v y))

  -- `operator<<=`.
  unfoldable pub shl_assign : Modifies
  unfolding locked
  shl_assign self y = locked self (λ v. (tt, ops.shl v y))

  -- `operator>>=`.
  unfoldable pub shr_assign : Modifies
  unfolding locked
  shr_assign self y = locked self (λ v. (tt, ops.shr v y))

  -- `operator^=`.
  unfoldable pub xor_assign : Modifies
  unfolding locked
  xor_assign self y = locked self (λ v. (tt, ops.bxor v y))

  -- `operator&=`.
  unfoldable pub and_assign : Modifies
  unfolding locked
  and_assign self y = locked self (λ v. (tt, ops.band v y))

  -- `operator|=`.
  unfoldable pub or_assign : Modifies
  unfolding locked
  or_assign self y = locked self (λ v. (tt, ops.bor v y))

  -- `operator==`.
  unfoldable pub is_eq : Asks
  unfolding locked
  is_eq self y = locked self (λ v. (ops.eq v y, v))

  -- `operator!=`.
  unfoldable pub is_ne : Asks
  unfolding locked
  is_ne self y = locked self (λ v. (ops.ne v y, v))

  -- `operator>`.
  unfoldable pub is_gt : Asks
  unfolding locked
  is_gt self y = locked self (λ v. (ops.gt v y, v))

  -- `operator<`.
  unfoldable pub is_lt : Asks
  unfolding locked
  is_lt self y = locked self (λ v. (ops.lt v y, v))

  -- `operator>=`.
  unfoldable pub is_ge : Asks
  unfolding locked
  is_ge self y = locked self (λ v. (ops.ge v y, v))

  -- `operator<=`.
  unfoldable pub is_le : Asks
  unfolding locked
  is_le self y = locked self (λ v. (ops.le v y, v))

  unfoldable pub getifset : ℕ → (value ifvalue : T) → AtomicNum T → Option (T × AtomicNum T)
  unfolding locked
  getifset self value ifvalue =
      locked self (λ old. (old, if ops.eq old ifvalue then value else old))

  unfoldable pub getifnset : ℕ → (value ifnvalue : T) → AtomicNum T → Option (T × AtomicNum T)
  unfolding locked
  getifnset self value ifnvalue =
      locked self (λ old. (old, if ops.ne old ifnvalue then value else old))

module _ {T : Type 0} where
  -- `operator=`.
  unfoldable pub assign : ℕ → T → AtomicNum T → Option (Unit {0} × AtomicNum T)
  unfolding locked
  assign self y = locked self (λ v. (tt, y))

  -- `get()`, and `operator T()`, which has the same body.
  unfoldable pub load : ℕ → AtomicNum T → Option (T × AtomicNum T)
  unfolding locked
  load self = locked self (λ v. (v, v))

  unfoldable pub getset : ℕ → T → AtomicNum T → Option (T × AtomicNum T)
  unfolding locked
  getset self value = locked self (λ old. (old, value))
