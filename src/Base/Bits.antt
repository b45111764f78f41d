-- ===== src/Base/Bits.antt =====
-- The bits of native numbers: `bit x i` is bit i of x. The native bit_and, bit_or and bit_xor work
-- on one bit at a time, and masks, shifts and complements are read off the bits.
use Prim.Native.Nat.{
  ℕ, zero, suc, ◌+◌, ◌-◌, ◌*◌, ◌/◌, ◌%◌, ◌^◌, ◌≤◌, ◌<◌, min, max, bit_and, bit_or, bit_xor, differ,
  digits, bit_and-bitwise, bit_or-bitwise, bit_xor-bitwise,
}
use mathlib.Core.Path.{◌≡◌, refl, sym, ap, ◌∙◌}
use mathlib.Core.Logic.{◌≢◌}
use native.Mathlib.Nat.{
  le_refl, pow-suc, one-le-pow, div-add-mod', mod-lt, mul-add-mod_self_right, mod-eq_of_lt,
}
use native.Mathlib.Omega.{arith}

unfoldable pub bit : ℕ → ℕ → ℕ
bit x zero = x % 2
bit x (suc i) = bit (x / 2) i

pub bit-le-one : (x i : ℕ) → bit x i ≤ 1
unfolding bit
bit-le-one x zero = omega arith
bit-le-one x (suc i) = bit-le-one (x / 2) i

pub bit-zero : (i : ℕ) → bit 0 i ≡ 0
unfolding bit
bit-zero zero = refl
bit-zero (suc i) = bit-zero i

-- Numbers with the same bits are equal.
bit_ext_fuel : (n a b : ℕ) → a ≤ n → b ≤ n → ((i : ℕ) → bit a i ≡ bit b i) → a ≡ b
unfolding bit
bit_ext_fuel zero a b p q h = omega arith
bit_ext_fuel (suc n) a b p q h =
    omega (arith, h 0, bit_ext_fuel n (a / 2) (b / 2) (omega arith) (omega arith) (λ i. h (suc i)))

pub bit_ext : (a b : ℕ) → ((i : ℕ) → bit a i ≡ bit b i) → a ≡ b
bit_ext a b h = bit_ext_fuel (a + b) a b (omega arith) (omega arith) h

-- An operation on two bits, and what it makes of the second number where the first has ended.
module _ (z : ℕ → ℕ) (f : ℕ → ℕ → ℕ) (small : (x y : ℕ) → x ≤ 1 → y ≤ 1 → f x y ≤ 1)
    (ended : (y i : ℕ) → bit (z y) i ≡ f 0 (bit y i)) where
  bit-digits : (fuel a b i : ℕ) → a ≤ fuel → bit (digits z f fuel a b) i ≡ f (bit a i) (bit b i)
  unfolding bit
  bit-digits zero (suc a) b i enough = absurd (omega arith)
  bit-digits zero zero b i enough = ended b i ∙ ap (λ x. f x (bit b i)) (sym (bit-zero i))
  bit-digits (suc fuel) zero b i enough = ended b i ∙ ap (λ x. f x (bit b i)) (sym (bit-zero i))
  bit-digits (suc fuel) (suc a) b zero enough =
      omega (arith, small (suc a % 2) (b % 2) (omega arith) (omega arith))
  bit-digits (suc fuel) (suc a) b (suc i) enough =
      let rest = digits z f fuel (suc a / 2) (b / 2) in
      let last = f (suc a % 2) (b % 2) in
      let shifted : (rest * 2 + last) / 2 ≡ rest =
        omega (arith, small (suc a % 2) (b % 2) (omega arith) (omega arith)) in
      ap (λ x. bit x i) shifted ∙ bit-digits fuel (suc a / 2) (b / 2) i (omega arith)

pub bit-bit_or : (a b i : ℕ) → bit (bit_or a b) i ≡ max (bit a i) (bit b i)
bit-bit_or a b i =
    ap (λ x. bit x i) (λ j. bit_or-bitwise a b j)
    ∙ bit-digits (λ y. y) max (λ x y p q. omega arith) (λ y k. omega arith) a a b i (le_refl a)

pub bit-bit_and : (a b i : ℕ) → bit (bit_and a b) i ≡ min (bit a i) (bit b i)
bit-bit_and a b i =
    ap (λ x. bit x i) (λ j. bit_and-bitwise a b j)
    ∙ bit-digits (λ y. 0) min (λ x y p q. omega arith) (λ y k. omega (arith, bit-zero k)) a a b i
        (le_refl a)

differ_bits : (x y : ℕ) → x ≤ 1 → y ≤ 1 → differ x y ≡ (x + y) % 2
differ_bits zero y p q = omega arith
differ_bits (suc zero) zero p q = refl
differ_bits (suc zero) (suc zero) p q = refl
differ_bits (suc zero) (suc (suc y)) p q = absurd (omega arith)
differ_bits (suc (suc x)) y p q = absurd (omega arith)

pub bit-bit_xor : (a b i : ℕ) → bit (bit_xor a b) i ≡ (bit a i + bit b i) % 2
bit-bit_xor a b i =
    ap (λ x. bit x i) (λ j. bit_xor-bitwise a b j)
    ∙ bit-digits (λ y. y) differ (λ x y p q. omega (arith, differ_bits x y p q)) (λ y k. refl) a a b
        i (le_refl a)
    ∙ differ_bits (bit a i) (bit b i) (bit-le-one a i) (bit-le-one b i)

pub bit_and-zero : (a : ℕ) → bit_and a 0 ≡ 0
bit_and-zero a = bit_ext _ _ λ i. omega (arith, bit-bit_and a 0 i, bit-zero i)

pub bit_or-zero : (a : ℕ) → bit_or a 0 ≡ a
bit_or-zero a = bit_ext _ _ λ i. omega (arith, bit-bit_or a 0 i, bit-zero i)

pub bit_or_comm : (a b : ℕ) → bit_or a b ≡ bit_or b a
bit_or_comm a b = bit_ext _ _ λ i. omega (arith, bit-bit_or a b i, bit-bit_or b a i)

-- The low bit and the rest of an `or` and of an `and`.
bit_or_halves : (a b : ℕ) → bit_or a b / 2 ≡ bit_or (a / 2) (b / 2)
unfolding bit
bit_or_halves a b = bit_ext _ _ λ i. bit-bit_or a b (suc i) ∙ sym (bit-bit_or (a / 2) (b / 2) i)

bit_or_low : (a b : ℕ) → bit_or a b % 2 ≡ max (a % 2) (b % 2)
unfolding bit
bit_or_low a b = bit-bit_or a b 0

bit_and_halves : (a b : ℕ) → bit_and a b / 2 ≡ bit_and (a / 2) (b / 2)
unfolding bit
bit_and_halves a b = bit_ext _ _ λ i. bit-bit_and a b (suc i) ∙ sym (bit-bit_and (a / 2) (b / 2) i)

bit_and_low : (a b : ℕ) → bit_and a b % 2 ≡ min (a % 2) (b % 2)
unfolding bit
bit_and_low a b = bit-bit_and a b 0

half_pow : (k : ℕ) → 2 ^ suc k / 2 ≡ 2 ^ k
half_pow k = omega (arith, pow-suc 2 k)

pub bit-pow_self : (k : ℕ) → bit (2 ^ k) k ≡ 1
unfolding bit
bit-pow_self zero = refl
bit-pow_self (suc k) = rw (half_pow k) (bit-pow_self k)

pub bit-pow_ne : (k i : ℕ) → k ≢ i → bit (2 ^ k) i ≡ 0
unfolding bit
bit-pow_ne zero zero h = absurd (h refl)
bit-pow_ne zero (suc i) h = bit-zero i
bit-pow_ne (suc k) zero h = omega (arith, pow-suc 2 k)
bit-pow_ne (suc k) (suc i) h = rw (half_pow k) (bit-pow_ne k i (λ e. h (ap suc e)))

-- `x & (1 << k)` is not 0 exactly when bit k of x is set.
pub bit_and-pow : (x k : ℕ) → bit_and x (2 ^ k) ≡ bit x k * 2 ^ k
unfolding bit
bit_and-pow x zero = omega (arith, bit_and_low x 1, bit_and_halves x 1, bit_and-zero (x / 2))
bit_and-pow x (suc k) = omega (
  arith,
  bit_and_low x (2 ^ suc k),
  bit_and_halves x (2 ^ suc k),
  pow-suc 2 k,
  ap (λ (t : ℕ). bit_and (x / 2) t) (half_pow k),
  bit_and-pow (x / 2) k,
  ap (λ (t : ℕ). bit (x / 2) k * t) (pow-suc 2 k),
)

shifted_more : (q k : ℕ) → q * 2 ^ suc k ≡ q * 2 ^ k * 2
shifted_more q k = let e = ap (λ (t : ℕ). q * t) (pow-suc 2 k) in omega (arith, e)

-- `(q << k) | r` is a sum when `r` fits k bits.
pub bit_or_fields : (k q r : ℕ) → r < 2 ^ k → bit_or (q * 2 ^ k) r ≡ q * 2 ^ k + r
bit_or_fields zero q r fits =
    let none_left : r ≡ 0 = omega arith in rw none_left (bit_or-zero (q * 1) ∙ omega arith)
bit_or_fields (suc k) q r fits =
    let half : q * 2 ^ suc k / 2 ≡ q * 2 ^ k = omega (arith, shifted_more q k) in
    let rest = bit_or_fields k q (r / 2) (omega (arith, pow-suc 2 k)) in
    let high = bit_or_halves (q * 2 ^ suc k) r ∙ ap (λ (t : ℕ). bit_or t (r / 2)) half ∙ rest in
    omega (arith, high, bit_or_low (q * 2 ^ suc k) r, shifted_more q k)

mod-two-pow-suc : (k a : ℕ) → a % 2 ^ suc k ≡ (a / 2) % 2 ^ k * 2 + a % 2
mod-two-pow-suc k a =
    let q = a / 2 / 2 ^ k in
    let r = (a / 2) % 2 ^ k * 2 + a % 2 in
    let split : a ≡ q * 2 ^ suc k + r =
      omega (arith, shifted_more q k, div-add-mod' (a / 2) (2 ^ k)) in
    let small : r < 2 ^ suc k =
      omega (arith, pow-suc 2 k, mod-lt (a / 2) (one-le-pow k 2 (omega arith))) in
    ap (λ (x : ℕ). x % 2 ^ suc k) split
    ∙ mul-add-mod_self_right q (2 ^ suc k) r
    ∙ mod-eq_of_lt small

-- `a & ((1 << k) - 1)` is the remainder by `2 ^ k`.
pub bit_and_mask : (k a : ℕ) → bit_and a (2 ^ k - 1) ≡ a % 2 ^ k
bit_and_mask zero a = bit_and-zero a ∙ omega arith
bit_and_mask (suc k) a =
    let half : (2 ^ suc k - 1) / 2 ≡ 2 ^ k - 1 = omega (arith, pow-suc 2 k, one-le-pow k 2) in
    let high =
      bit_and_halves a (2 ^ suc k - 1) ∙ ap (bit_and (a / 2)) half ∙ bit_and_mask k (a / 2) in
    omega
      (arith, high, bit_and_low a (2 ^ suc k - 1), mod-two-pow-suc k a, pow-suc 2 k, one-le-pow k 2)

-- A number of w bits has no bit from w on.
pub bit_high : (w x i : ℕ) → x < 2 ^ w → w ≤ i → bit x i ≡ 0
unfolding bit
bit_high zero x i p q = rw (let e : x ≡ 0 = omega arith in e) (bit-zero i)
bit_high (suc w) x zero p q = absurd (omega arith)
bit_high (suc w) x (suc i) p q = bit_high w (x / 2) i (omega (arith, pow-suc 2 w)) (omega arith)

-- `!x` on w bits is `2 ^ w - 1 - x`.
pub bit_complement : (w x i : ℕ) → x < 2 ^ w → i < w → bit (2 ^ w - 1 - x) i + bit x i ≡ 1
unfolding bit
bit_complement zero x i p q = absurd (omega arith)
bit_complement (suc w) x zero p q = omega (arith, pow-suc 2 w, one-le-pow w 2)
bit_complement (suc w) x (suc i) p q =
    let e : (2 ^ suc w - 1 - x) / 2 ≡ 2 ^ w - 1 - x / 2 =
      omega (arith, pow-suc 2 w, one-le-pow w 2) in
    rw e (bit_complement w (x / 2) i (omega (arith, pow-suc 2 w)) (omega arith))
