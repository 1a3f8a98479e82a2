-- ===== src/Endian.antt =====
-- JsCPPUtils/Endian.h: the test of the machine's byte order.
-- How the machine stores a number of 32 bits is a parameter: the byte at each offset.
use jsntp_lcdd.Prelude.{
  ℕ, zero, suc, refl, ◌*◌, ◌-◌, ◌/◌, ◌%◌, ◌^◌, ◌<◌, ◌≡◌, ◌↔◌, Bool, ◌&&◌, if◌then◌else◌, ◌==◌,
  arith,
}
use jsntp_lcdd.Prelude.Int.{ℤ, pos, negsuc}
mod Tests

unfoldable pub get_endian : (memory : ℕ → ℕ → ℕ) → ℤ
get_endian memory =
    let p = memory 0x12345678 in
    if p 0 == 0x78 && p 1 == 0x56 && p 2 == 0x34 && p 3 == 0x12
    then pos 0
    else if p 0 == 0x12 && p 1 == 0x34 && p 2 == 0x56 && p 3 == 0x78
    then pos 1
    else negsuc 0

-- A machine that has at offset `i` the byte `order i` of a number, counted from the lowest.
abbrev pub stored : (order : ℕ → ℕ) → ℕ → ℕ → ℕ
stored order x i = x / 256 ^ order i % 256

abbrev pub Ordered : (order meant : ℕ → ℕ) → Type 0
Ordered order meant =
    (order 0 ≡ meant 0) × (order 1 ≡ meant 1) × (order 2 ≡ meant 2) × (order 3 ≡ meant 3)

-- The bytes of the number go down in equal steps.
byte_lem : (k : ℕ) → k < 4 → 0x12345678 / 256 ^ k % 256 ≡ 0x78 - 0x22 * k
byte_lem zero h = refl
byte_lem (suc zero) h = refl
byte_lem (suc (suc zero)) h = refl
byte_lem (suc (suc (suc zero))) h = refl
byte_lem (suc (suc (suc (suc k)))) h = absurd (omega arith)

-- On a machine that has the bytes of a number in some order, getEndian returns 0 exactly when
-- the lowest byte comes first and the others follow in order, and 1 exactly when they come in
-- the opposite order.
pub get_endian_lem :
    (order : ℕ → ℕ)
    → (order 0 < 4) × (order 1 < 4) × (order 2 < 4) × (order 3 < 4)
    → ((get_endian (stored order) ≡ pos 0) ↔ Ordered order (λ i. i))
      × ((get_endian (stored order) ≡ pos 1) ↔ Ordered order (λ i. 3 - i))
unfolding get_endian
get_endian_lem order h =
    let b0 = byte_lem (order 0) h.0 in
    let b1 = byte_lem (order 1) h.1 in
    let b2 = byte_lem (order 2) h.2 in
    let b3 = byte_lem (order 3) h.3 in rw (b0, b1, b2, b3, get_endian) (ground arith)
