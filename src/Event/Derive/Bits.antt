-- ===== src/Event/Derive/Bits.antt =====
-- The number of tag bits: enough for the variants, and no more than are needed.
use virtio_device_poc.Base.{
  ℕ, zero, suc, ◌+◌, ◌*◌, ◌/◌, ◌%◌, ◌^◌, ◌≤◌, ◌≡◌, refl, inl, inr, ap, List, [], ◌∷◌, arith, length,
  leb, Bool-cases, leb→le,
}
use virtio_device_poc.Base.Pow.{two_pow_suc, two_pow_mono}
use virtio_device_poc.Event.Derive.{Variant, next_power_of_two, trailing_zeros, variant_bits}

record IsNextPower (k fuel n p : ℕ) : Type 0 where
  exponent : ℕ
  is_power : p ≡ 2 ^ exponent
  enough : n ≤ p
  bounded : exponent ≤ k + fuel
  least : (i : ℕ) → k ≤ i → n ≤ 2 ^ i → exponent ≤ i

next_power_of_two_lem :
    (fuel k n : ℕ) → n ≤ 2 ^ (k + fuel) → IsNextPower k fuel n (next_power_of_two fuel (2 ^ k) n)
unfolding next_power_of_two
next_power_of_two_lem zero k n h = record {
  exponent = k;
  is_power = refl;
  enough = omega (arith, ap (λ (t : ℕ). 2 ^ t) (let e : k + 0 ≡ k = omega arith in e));
  bounded = omega arith;
  least = λ i p q. p;
}
next_power_of_two_lem (suc fuel) k n h = elim (Bool-cases (leb n (2 ^ k))) [
  | inl small ↦ rw small (record {
    exponent = k;
    is_power = refl;
    enough = leb→le _ _ small;
    bounded = omega arith;
    least = λ i p q. p;
  })
  | inr large ↦
      let shift : k + suc fuel ≡ suc k + fuel = omega arith in
      let rest = next_power_of_two_lem fuel (suc k) n (rw shift at h) in
      let twice : 2 ^ k * 2 ≡ 2 ^ suc k = omega (arith, two_pow_suc k) in
      rw large (
        rw twice (record {
          exponent = rest.exponent;
          is_power = rest.is_power;
          enough = rest.enough;
          bounded = omega (arith, rest.bounded);
          least = λ i p q. rest.least i (ground (arith, two_pow_mono i k)) q;
        }))
]

trailing_zeros_lem : (fuel j : ℕ) → j ≤ fuel → trailing_zeros fuel (2 ^ j) ≡ j
unfolding trailing_zeros
trailing_zeros_lem zero zero h = refl
trailing_zeros_lem zero (suc j) h = absurd (omega arith)
trailing_zeros_lem (suc fuel) zero h = refl
trailing_zeros_lem (suc fuel) (suc j) h =
    let half : 2 ^ suc j / 2 ≡ 2 ^ j = omega (arith, two_pow_suc j) in
    let even : 2 ^ suc j % 2 ≡ 0 = omega (arith, two_pow_suc j) in
    rw even (rw half (rw (trailing_zeros_lem fuel j (omega arith)) (omega arith)))

-- The tag bits number the variants, and no smaller width does.
pub variant_bits_lem :
    (vs : List Variant)
    → length vs ≤ 2 ^ 63
    → (length vs ≤ 2 ^ variant_bits vs)
      × (variant_bits vs ≤ 63)
      × ((k : ℕ) → length vs ≤ 2 ^ k → variant_bits vs ≤ k)
unfolding variant_bits
variant_bits_lem [] h = (omega arith, omega arith, λ k q. omega arith)
variant_bits_lem (v ∷ vs) h =
    let next = next_power_of_two_lem 64 0 (length (v ∷ vs)) (omega arith) in
    let exact : variant_bits (v ∷ vs) ≡ next.exponent =
      rw next.is_power (trailing_zeros_lem 64 next.exponent (omega (arith, next.bounded))) in
    rw exact (
      rw (← next.is_power) next.enough,
      next.least 63 (omega arith) h,
      λ k q. next.least k (omega arith) q,
    )
