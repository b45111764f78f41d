-- ===== src/Event/Derive/Arms.antt =====
-- The generated arms, by induction on the variants: the tag and the field are read back.
use virtio_device_poc.Base.{
  ℕ, ◌+◌, ◌*◌, ◌/◌, ◌%◌, ◌^◌, ◌≤◌, ◌<◌, ◌≡◌, refl, inl, inr, some, List, [], ◌∷◌, arith, length,
  map-eq-some, if◌then◌else◌, eq→==, ne→==, Bool-cases, leb, leb→le, le→leb, ltb, subst,
}
use native.Mathlib.Nat.{mod-eq_of_lt}
use virtio_device_poc.Base.Bits.{bit_or_fields, bit_or_comm}
use virtio_device_poc.Base.Pow.{two_pow_add, two_pow_mono, two_pow_pos}
use virtio_device_poc.Event.Token.{EventToken, IsLawful}
use virtio_device_poc.Event.Derive.{
  Variant, unit_variant, field_variant, Value, IsEnumValue, encode_arm, decode_arm, as_raw_arms,
  from_raw_arms, used_bits_expressions, maximum,
}

-- Every field's type implements EventToken as the trait asks.
abbrev pub HasLawfulFields : List Variant → Type 0
HasLawfulFields [] = Unit
HasLawfulFields (unit_variant ∷ vs) = HasLawfulFields vs
HasLawfulFields (field_variant t ∷ vs) = IsLawful t × HasLawfulFields vs

-- Every field fits `m` bits.
abbrev pub HasFieldBits : ℕ → List Variant → Type 0
HasFieldBits m [] = Unit
HasFieldBits m (unit_variant ∷ vs) = HasFieldBits m vs
HasFieldBits m (field_variant t ∷ vs) = (t.used_bits ≤ m) × HasFieldBits m vs

shifted_fits : (r u m bits : ℕ) → r < 2 ^ u → u ≤ m → r * 2 ^ bits + 2 ^ bits ≤ 2 ^ (m + bits)
shifted_fits r u m bits h k =
    let below : r + 1 ≤ 2 ^ m = omega (arith, two_pow_mono u m k) in
    let scaled : (r + 1) * 2 ^ bits ≤ 2 ^ m * 2 ^ bits = grind arith in
    omega (arith, two_pow_add m bits)

module _ (bits m : ℕ) (fits : m + bits ≤ 64) where
  encode_field :
      (index : ℕ) (t : EventToken) (x : t.Carrier)
      → index < 2 ^ bits
      → IsLawful t
      → t.used_bits ≤ m
      → t.IsValue x
      → encode_arm bits index (field_variant t) x ≡ t.as_raw_token x * 2 ^ bits + index
  unfolding encode_arm
  encode_field index t x in_tag lawful small valid =
      let r : ℕ = t.as_raw_token x in
      let room = shifted_fits r t.used_bits m bits (lawful.raw_fits x valid) small in
      let no_wrap : r * 2 ^ bits % 2 ^ 64 ≡ r * 2 ^ bits =
        omega (arith, two_pow_mono (m + bits) 64 fits, room, two_pow_pos bits) in
      rw no_wrap (rw bit_or_comm (bit_or_fields bits r index in_tag))

  split_raw : (r index : ℕ) → index < 2 ^ bits → (r * 2 ^ bits + index) % 2 ^ bits ≡ index
  split_raw r index h = grind arith

  split_data : (r index : ℕ) → index < 2 ^ bits → (r * 2 ^ bits + index) / 2 ^ bits ≡ r
  split_data r index h = grind arith

  pub as_raw_arms_bounds :
      (index : ℕ) (vs : List Variant) (x : Value vs)
      → index + length vs ≤ 2 ^ bits
      → HasLawfulFields vs
      → HasFieldBits m vs
      → IsEnumValue vs x
      → (index ≤ as_raw_arms bits index vs x % 2 ^ bits)
        × (as_raw_arms bits index vs x < 2 ^ (m + bits))
  unfolding as_raw_arms
  as_raw_arms_bounds index [] x h l b v = elim x [ ]
  as_raw_arms_bounds index (unit_variant ∷ vs) (inl x) h l b v =
      let wide = two_pow_mono bits (m + bits) (omega arith) in
      unfold encode_arm in
      (omega (arith, mod-eq_of_lt (let p : index < 2 ^ bits = omega arith in p)), omega arith)
  as_raw_arms_bounds index (field_variant t ∷ vs) (inl x) h l b v =
      let in_tag : index < 2 ^ bits = omega arith in
      let r : ℕ = t.as_raw_token x in
      rw (encode_field index t x in_tag l.0 b.0 v) (
        omega (arith, split_raw r index in_tag),
        omega (arith, shifted_fits r t.used_bits m bits (l.0.raw_fits x v) b.0),
      )
  as_raw_arms_bounds index (unit_variant ∷ vs) (inr y) h l b v =
      omega (arith, as_raw_arms_bounds (index + 1) vs y (omega arith) l b v)
  as_raw_arms_bounds index (field_variant t ∷ vs) (inr y) h l b v =
      omega (arith, as_raw_arms_bounds (index + 1) vs y (omega arith) l.1 b.1 v)

  pub from_raw_arms-as_raw_arms :
      (index : ℕ) (vs : List Variant) (x : Value vs)
      → index + length vs ≤ 2 ^ bits
      → HasLawfulFields vs
      → HasFieldBits m vs
      → IsEnumValue vs x
      → let raw = as_raw_arms bits index vs x in
        from_raw_arms bits raw (raw % 2 ^ bits) index vs ≡ some x
  unfolding as_raw_arms from_raw_arms
  from_raw_arms-as_raw_arms index [] x h l b v = elim x [ ]
  from_raw_arms-as_raw_arms index (unit_variant ∷ vs) (inl x) h l b v =
      let in_tag : index < 2 ^ bits = omega arith in
      unfold encode_arm decode_arm in rw (mod-eq_of_lt in_tag) (rw (eq→== index index refl) refl)
  from_raw_arms-as_raw_arms index (field_variant t ∷ vs) (inl x) h l b v =
      let in_tag : index < 2 ^ bits = omega arith in
      let r : ℕ = t.as_raw_token x in
      unfold decode_arm in
      rw (encode_field index t x in_tag l.0 b.0 v) (
        rw (split_raw r index in_tag)
          (rw (eq→== index index refl) (rw (split_data r index in_tag) (rw (l.0.round_trip x v)))))
  from_raw_arms-as_raw_arms index (unit_variant ∷ vs) (inr y) h l b v =
      let later = as_raw_arms_bounds (index + 1) vs y (omega arith) l b v in
      rw (ne→== (as_raw_arms bits (index + 1) vs y % 2 ^ bits) index (omega arith))
        (rw (from_raw_arms-as_raw_arms (index + 1) vs y (omega arith) l b v))
  from_raw_arms-as_raw_arms index (field_variant t ∷ vs) (inr y) h l b v =
      let later = as_raw_arms_bounds (index + 1) vs y (omega arith) l.1 b.1 v in
      rw (ne→== (as_raw_arms bits (index + 1) vs y % 2 ^ bits) index (omega arith))
        (rw (from_raw_arms-as_raw_arms (index + 1) vs y (omega arith) l.1 b.1 v))

maximum-ge : (m : ℕ) (us : List ℕ) → m ≤ maximum m us
unfolding maximum
maximum-ge m [] = omega arith
maximum-ge m (u ∷ us) = ground (arith, maximum-ge (if ltb m u then u else m) us)

abbrev larger : ℕ → ℕ → ℕ
larger m u = if ltb m u then u else m

field_case :
    (allowed m : ℕ) (t : EventToken) (vs : List Variant) (rest us : List ℕ)
    → t.used_bits ∷ rest ≡ us
    → HasFieldBits (maximum (larger m t.used_bits) rest) vs
      × (maximum (larger m t.used_bits) rest ≤ allowed)
    → HasFieldBits (maximum m us) (field_variant t ∷ vs) × (maximum m us ≤ allowed)
field_case allowed m t vs rest us p ih =
    subst (λ w. HasFieldBits (maximum m w) (field_variant t ∷ vs) × (maximum m w ≤ allowed)) p
      (unfold maximum in ((ground (arith, maximum-ge (larger m t.used_bits) rest), ih.0), ih.1))

-- Where the const evaluates, every field fits the bits that `maximum` computed, and these fit too.
pub used_bits_expressions-HasFieldBits :
    (allowed : ℕ) (vs : List Variant) (us : List ℕ) (m : ℕ)
    → m ≤ allowed
    → used_bits_expressions allowed vs ≡ some us
    → HasFieldBits (maximum m us) vs × (maximum m us ≤ allowed)
unfolding used_bits_expressions
used_bits_expressions-HasFieldBits allowed [] us m k h =
    (tt, let e : [] ≡ us = cc in rw (← e) (unfold maximum in k))
used_bits_expressions-HasFieldBits allowed (unit_variant ∷ vs) us m k h =
    used_bits_expressions-HasFieldBits allowed vs us m k h
used_bits_expressions-HasFieldBits allowed (field_variant t ∷ vs) us m k h =
    elim (Bool-cases (leb t.used_bits allowed)) [
      | inr big ↦ let h' = rw big at h in cc
      | inl small ↦
          let parts : (a : List ℕ) × (used_bits_expressions allowed vs ≡ some a)
              × (t.used_bits ∷ a ≡ us) =
            map-eq-some (λ us. t.used_bits ∷ us) _ us (rw small at h) in
          let room : larger m t.used_bits ≤ allowed = ground (arith, leb→le t.used_bits allowed) in
          field_case allowed m t vs parts.0 us parts.2 (
            used_bits_expressions-HasFieldBits allowed vs parts.0 (larger m t.used_bits) room
              parts.1)
    ]

pub HasFieldBits-mono :
    (m n : ℕ) (vs : List Variant) → m ≤ n → HasFieldBits m vs → HasFieldBits n vs
HasFieldBits-mono m n [] k h = tt
HasFieldBits-mono m n (unit_variant ∷ vs) k h = HasFieldBits-mono m n vs k h
HasFieldBits-mono m n (field_variant t ∷ vs) k h = (omega arith, HasFieldBits-mono m n vs k h.1)

-- Where every field fits, the constant evaluates.
pub used_bits_expressions-some :
    (allowed : ℕ) (vs : List Variant)
    → HasFieldBits allowed vs
    → (us : List ℕ) × (used_bits_expressions allowed vs ≡ some us)
unfolding used_bits_expressions
used_bits_expressions-some allowed [] h = ([], refl)
used_bits_expressions-some allowed (unit_variant ∷ vs) h = used_bits_expressions-some allowed vs h
used_bits_expressions-some allowed (field_variant t ∷ vs) h =
    let (us, e) = used_bits_expressions-some allowed vs h.1 in
    (t.used_bits ∷ us, rw (le→leb t.used_bits allowed h.0) (rw e))
