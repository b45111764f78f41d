-- ===== src/Event/Derive/Laws.antt =====
-- The derived implementation meets the trait's contract.
use virtio_device_poc.Base.{
  ℕ, ◌+◌, ◌-◌, ◌%◌, ◌^◌, ◌≤◌, ◌<◌, ◌≡◌, ◌≢◌, ◌↔◌, inl, inr, none, some, List, arith, length, subst,
  map-eq-some, Option-cases,
}
use virtio_device_poc.Base.Bits.{bit_and_mask}
use virtio_device_poc.Event.Token.{EventToken, IsLawful, uint_token}
use virtio_device_poc.Event.Derive.{
  Variant, variant_bits, max_allowed_bits, used_bits_const, used_bits_expressions, maximum,
  enum_as_raw_token, enum_from_raw_token, derived, event_token, as_raw_arms, variant_mask,
}
use virtio_device_poc.Event.Derive.Bits.{variant_bits_lem}
use virtio_device_poc.Event.Derive.Arms.{
  HasLawfulFields, HasFieldBits, as_raw_arms_bounds, from_raw_arms-as_raw_arms,
  used_bits_expressions-HasFieldBits, HasFieldBits-mono, used_bits_expressions-some,
}
use native.Mathlib.Nat.{mod-eq_of_lt}
use virtio_device_poc.Base.Pow.{two_pow_mono}

derived-IsLawful :
    (vs : List Variant) (m : ℕ)
    → length vs ≤ 2 ^ 31
    → HasLawfulFields vs
    → HasFieldBits m vs
    → m ≤ max_allowed_bits vs
    → IsLawful (derived vs (m + variant_bits vs))
unfolding derived enum_as_raw_token enum_from_raw_token max_allowed_bits variant_mask
derived-IsLawful vs m short lawful sizes room =
    let (enough, small, least) = variant_bits_lem vs (omega arith) in
    let few : variant_bits vs ≤ 31 = least 31 short in
    let shift : variant_bits vs % 32 ≡ variant_bits vs = omega arith in
    let fits : m + variant_bits vs ≤ 64 = omega arith in
    record {
      used_fits = fits;
      raw_fits = λ x v.
          (as_raw_arms_bounds (variant_bits vs) m fits 0 vs x (omega arith) lawful sizes v).1;
      round_trip = λ x v. rw shift (
          rw (bit_and_mask (variant_bits vs) (as_raw_arms (variant_bits vs) 0 vs x)) (
            from_raw_arms-as_raw_arms (variant_bits vs) m fits 0 vs x (omega arith) lawful sizes
              v));
    }

-- Whenever the const of the derive macro evaluates for an enum of at most 2^31 variants, whose
-- fields' types implement EventToken lawfully, the generated implementation is lawful: every
-- value's raw token fits USED_BITS bits, these are at most 64, and from_raw_token gives the value
-- back without a panic.
pub event_token-IsLawful :
    (vs : List Variant) (t : EventToken)
    → length vs ≤ 2 ^ 31
    → HasLawfulFields vs
    → event_token vs ≡ some t
    → IsLawful t
unfolding event_token used_bits_const
event_token-IsLawful vs t short lawful e =
    let outer = map-eq-some (derived vs) _ t e in
    let inner = map-eq-some (λ us. maximum 0 us + variant_bits vs) _ outer.0 outer.1 in
    let sizes =
      used_bits_expressions-HasFieldBits (max_allowed_bits vs) vs inner.0 0 (omega arith) inner.1 in
    subst IsLawful outer.2 (
      subst (λ u. IsLawful (derived vs u)) inner.2
        (derived-IsLawful vs (maximum 0 inner.0) short lawful sizes.0 sizes.1))

evaluates_iff :
    (vs : List Variant) → (used_bits_const vs ≢ none) ↔ HasFieldBits (max_allowed_bits vs) vs
unfolding used_bits_const
evaluates_iff vs = (
  λ evaluates. elim (Option-cases (used_bits_expressions (max_allowed_bits vs) vs)) [
    | inl e ↦ absurd (evaluates (rw e))
    | inr (us, e) ↦
        let sizes =
          used_bits_expressions-HasFieldBits (max_allowed_bits vs) vs us 0 (omega arith) e in
        HasFieldBits-mono (maximum 0 us) (max_allowed_bits vs) vs sizes.1 sizes.0
  ],
  λ sizes e.
      let (us, e') = used_bits_expressions-some (max_allowed_bits vs) vs sizes in
      let no_const : some (maximum 0 us + variant_bits vs) ≡ none = rw e' at e in cc,
)

-- For b the least number of bits that number all variants, the const USED_BITS evaluates exactly if
-- each field's type uses at most 64 - b bits; otherwise it is a panic at compile time.
pub used_bits_const_iff :
    (vs : List Variant) (b : ℕ)
    → length vs ≤ 2 ^ 63
    → length vs ≤ 2 ^ b
    → ((k : ℕ) → length vs ≤ 2 ^ k → b ≤ k)
    → (used_bits_const vs ≢ none) ↔ HasFieldBits (64 - b) vs
unfolding max_allowed_bits
used_bits_const_iff vs b short enough least =
    let (enough', small, least') = variant_bits_lem vs short in
    let above : b ≤ variant_bits vs = least (variant_bits vs) enough' in
    let below : variant_bits vs ≤ b = least' b enough in
    let same : variant_bits vs ≡ b = omega arith in
    subst (λ k. (used_bits_const vs ≢ none) ↔ HasFieldBits (64 - k) vs) same (evaluates_iff vs)

-- The bits of the tag number every variant, and no smaller count of bits would.
pub variant_bits_least :
    (vs : List Variant)
    → length vs ≤ 2 ^ 63
    → (length vs ≤ 2 ^ variant_bits vs) × ((k : ℕ) → length vs ≤ 2 ^ k → variant_bits vs ≤ k)
variant_bits_least vs short = let all = variant_bits_lem vs short in (all.0, all.2)

-- The implementation for an unsigned integer type of at most 64 bits is lawful.
pub uint_token-IsLawful : (w : ℕ) → w ≤ 64 → IsLawful (uint_token w)
uint_token-IsLawful w h = record {
  used_fits = h;
  raw_fits = λ x v. rw (exact x v) v;
  round_trip = λ x v. rw (exact x v) (rw (mod-eq_of_lt v));
}
  where
    exact : (x : ℕ) → x < 2 ^ w → x % 2 ^ 64 ≡ x
    exact x v = omega (arith, two_pow_mono w 64 h)
