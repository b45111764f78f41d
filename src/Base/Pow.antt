-- ===== src/Base/Pow.antt =====
-- Powers of two over the native numbers.
use Prim.Native.Nat.{ℕ, zero, suc, ◌+◌, ◌*◌, ◌^◌, ◌≤◌, ◌<◌}
use mathlib.Core.Path.{◌≡◌, ap}
use native.Mathlib.Nat.{pow-suc, one-le-pow}
use native.Mathlib.Omega.{arith}

pub two_pow_pos : (k : ℕ) → 0 < 2 ^ k
two_pow_pos k = one-le-pow k 2 (omega arith)

pub two_pow_suc : (k : ℕ) → 2 ^ suc k ≡ 2 * 2 ^ k
two_pow_suc k = omega (arith, pow-suc 2 k)

pub two_pow_add : (a b : ℕ) → 2 ^ (a + b) ≡ 2 ^ a * 2 ^ b
two_pow_add zero b = omega (arith, ap (λ (t : ℕ). 2 ^ t) (let e : 0 + b ≡ b = omega arith in e))
two_pow_add (suc a) b = omega (
  arith,
  ap (λ (t : ℕ). 2 ^ t) (let e : suc a + b ≡ suc (a + b) = omega arith in e),
  two_pow_suc (a + b),
  two_pow_add a b,
  ap (λ (t : ℕ). t * 2 ^ b) (two_pow_suc a),
)

pub two_pow_mono : (a b : ℕ) → a ≤ b → 2 ^ a ≤ 2 ^ b
two_pow_mono zero b h = two_pow_pos b
two_pow_mono (suc a) zero h = absurd (omega arith)
two_pow_mono (suc a) (suc b) h =
    omega (arith, two_pow_suc a, two_pow_suc b, two_pow_mono a b (omega arith))
