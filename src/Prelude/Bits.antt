-- ===== src/Prelude/Bits.antt =====
-- Facts about bytes by evaluation: a test that succeeds for each value of a byte.
use Prim.Native.Nat.{ℕ, zero, suc, ◌<◌}
use mathlib.Core.Path.{◌≡◌}
use mathlib.Core.Bool.{Bool, true, ◌&&◌}
use native.Mathlib.Omega.{arith}

unfoldable pub passes : (test : ℕ → Bool) (bound : ℕ) → Bool
passes test zero = true
passes test (suc last) = passes test last && test last

pub passes-at :
    (test : ℕ → Bool) (bound : ℕ)
    → passes test bound ≡ true
    → (value : ℕ) → value < bound
    → test value ≡ true
unfolding passes
passes-at test zero all value below = absurd (omega arith)
passes-at test (suc last) all value below =
    let earlier : passes test last ≡ true → value < last → test value ≡ true =
      λ h. passes-at test last h value in
    ground (arith, earlier)
