-- ===== src/Base/Flags.antt =====
-- The test of one bit by its mask.
use Prim.Native.Nat.{ℕ, zero, suc, ◌*◌, ◌^◌, ◌≤◌, ◌<◌, bit_and}
use mathlib.Core.Path.{◌≡◌}
use mathlib.Core.Bool.{not}
use native.Mathlib.Omega.{arith}
use virtio_device_poc.Base.Tests.{◌==◌}
use virtio_device_poc.Base.Bits.{bit, bit_and-pow, bit-le-one}
use virtio_device_poc.Base.Pow.{two_pow_pos}

nonzero_test : (x p : ℕ) → x ≤ 1 → 0 < p → not (x * p == 0) ≡ (x == 1)
nonzero_test zero p h q = rw (let e : 0 * p ≡ 0 = omega arith in e)
nonzero_test (suc zero) p h q = rw (let e : 1 * p ≡ p = omega arith in e) (ground arith)
nonzero_test (suc (suc x)) p h q = absurd (omega arith)

pub bit_test : (byte k : ℕ) → not (bit_and byte (2 ^ k) == 0) ≡ (bit byte k == 1)
bit_test byte k =
    rw (bit_and-pow byte k) (nonzero_test (bit byte k) (2 ^ k) (bit-le-one byte k) (two_pow_pos k))
