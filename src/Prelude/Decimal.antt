-- ===== src/Prelude/Decimal.antt =====
-- Decimal numbers as `printf` writes them.
use Prim.Native.Nat.{ℕ, zero, suc, ◌+◌, ◌-◌, ◌*◌, ◌/◌, ◌%◌, ◌^◌, ◌≤◌, ◌<◌}
use mathlib.Core.Path.{◌≡◌, ap}
use mathlib.Core.List.{List, [], ◌∷◌}
use native.Mathlib.Nat.{pow-suc}
use native.Mathlib.Omega.{arith}
use jsntp_lcdd.Prelude.Tests.{ltb, if◌then◌else◌}
use jsntp_lcdd.Prelude.Lists.{length}

-- The digits of a number in front of a text; the fuel bounds their count.
unfoldable pub digits : ℕ → ℕ → List ℕ → List ℕ
digits zero n acc = acc
digits (suc f) n acc =
    let here = (b'0' + n % 10) ∷ acc in
    let rest = digits f (n / 10) here in if ltb n 10 then here else rest

-- `%d` of a number that is not negative.
unfoldable pub decimal : ℕ → List ℕ
unfolding digits
decimal n = digits (suc n) n []

-- The number that a text of digits stands for, after those read so far.
unfoldable pub value : ℕ → List ℕ → ℕ
value so_far [] = so_far
value so_far (c ∷ cs) = value (so_far * 10 + (c - b'0')) cs

digits-length :
    (f n k : ℕ) (acc : List ℕ) → n < 10 ^ suc k → length (digits f n acc) ≤ suc k + length acc
unfolding digits
digits-length zero n k acc h = omega arith
digits-length (suc f) n zero acc h = ground arith
digits-length (suc f) n (suc k) acc h =
    let small : n / 10 < 10 ^ suc k = omega (arith, pow-suc 10 (suc k)) in
    ground (arith, digits-length f (n / 10) k ((b'0' + n % 10) ∷ acc) small)

-- A number below a power of ten has no more digits than the power has zeros.
pub length-decimal : (n k : ℕ) → n < 10 ^ suc k → length (decimal n) ≤ suc k
unfolding decimal
length-decimal n k h = omega (arith, digits-length (suc n) n k [] h)

value-digits : (f n : ℕ) (acc : List ℕ) → n < f → value 0 (digits f n acc) ≡ value n acc
unfolding digits value
value-digits zero n acc h = elim h [ ]
value-digits (suc f) n acc h =
    let one : 0 * 10 + (b'0' + n % 10 - b'0') ≡ n % 10 = omega arith in
    let more : n / 10 * 10 + (b'0' + n % 10 - b'0') ≡ n = omega arith in
    ground (
      arith,
      ap (λ (k : ℕ). value k acc) one,
      ap (λ (k : ℕ). value k acc) more,
      value-digits f (n / 10) ((b'0' + n % 10) ∷ acc),
    )

-- What is printed reads back.
pub value-decimal : (n : ℕ) → value 0 (decimal n) ≡ n
unfolding decimal value
value-decimal n = value-digits (suc n) n [] (omega arith)
