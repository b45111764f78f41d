-- ===== src/Event/Derive.antt =====
-- The derive macro of EventToken: the code that it generates for an enum.
-- (event_token_derive/src/lib.rs)
mod Bits
pub mod Arms
pub mod Laws
use virtio_device_poc.Base.{
  ℕ, zero, suc, ◌+◌, ◌-◌, ◌*◌, ◌/◌, ◌%◌, ◌^◌, ◌⊎◌, inl, inr, Bool, true, false, Option, none, some,
  List, [], ◌∷◌, max, bit_and, bit_or, length, leb, ltb, ◌==◌, if◌then◌else◌,
}
use virtio_device_poc.Event.Token.{EventToken}
use mathlib.Core.Option

-- A variant is a unit variant or has one field, whose type has its own EventToken.
pub data Variant : Type 1 where
  unit_variant : Variant
  field_variant : EventToken → Variant

-- `usize::next_power_of_two` and `trailing_zeros`, as loops over the exponents.
unfoldable pub next_power_of_two : ℕ → ℕ → ℕ → ℕ
next_power_of_two zero p n = p
next_power_of_two (suc fuel) p n =
    let rest = next_power_of_two fuel (p * 2) n in if leb n p then p else rest

unfoldable pub trailing_zeros : ℕ → ℕ → ℕ
trailing_zeros zero x = 0
trailing_zeros (suc fuel) x =
    let rest = trailing_zeros fuel (x / 2) in if x % 2 == 0 then rest + 1 else 0

-- The number of variants is a length in memory, so 64 rounds are more than enough.
unfoldable pub variant_bits : List Variant → ℕ
unfolding next_power_of_two trailing_zeros
variant_bits [] = 0
variant_bits (v ∷ vs) = trailing_zeros 64 (next_power_of_two 64 1 (length (v ∷ vs)))

unfoldable pub max_allowed_bits : List Variant → ℕ
max_allowed_bits vs = 64 - variant_bits vs

-- The bits of the variants' fields, in order. `none` is the panic at compile time.
unfoldable pub used_bits_expressions : ℕ → List Variant → Option (List ℕ)
used_bits_expressions allowed [] = some []
used_bits_expressions allowed (unit_variant ∷ vs) = used_bits_expressions allowed vs
used_bits_expressions allowed (field_variant t ∷ vs) =
    if leb t.used_bits allowed
    then Option.map (λ us. t.used_bits ∷ us) (used_bits_expressions allowed vs)
    else none

-- The loop of `maximum`.
unfoldable pub maximum : ℕ → List ℕ → ℕ
maximum m [] = m
maximum m (n ∷ ns) = maximum (if ltb m n then n else m) ns

unfoldable pub used_bits_const : List Variant → Option ℕ
unfolding used_bits_expressions maximum max_allowed_bits
used_bits_const vs =
    Option.map (λ us. maximum 0 us + variant_bits vs)
      (used_bits_expressions (max_allowed_bits vs) vs)

-- The values of the enum: a variant's position, with its field.
abbrev pub Field : Variant → Type 0
Field unit_variant = Unit {0}
Field (field_variant t) = t.Carrier

abbrev pub Value : List Variant → Type 0
Value [] = ⊥
Value (v ∷ vs) = Field v ⊎ Value vs

abbrev pub IsField : (v : Variant) → Field v → Type 0
IsField unit_variant x = Unit {0}
IsField (field_variant t) x = t.IsValue x

abbrev pub IsEnumValue : (vs : List Variant) → Value vs → Type 0
IsEnumValue [] x = ⊥
IsEnumValue (v ∷ vs) (inl x) = IsField v x
IsEnumValue (v ∷ vs) (inr y) = IsEnumValue vs y

-- `index | (data << bits)` on u64, or `index` alone.
unfoldable pub encode_arm : ℕ → ℕ → (v : Variant) → Field v → ℕ
encode_arm bits index unit_variant x = index
encode_arm bits index (field_variant t) x = bit_or index (t.as_raw_token x * 2 ^ bits % 2 ^ 64)

-- The arms of the generated `as_raw_token`, numbered from `index` on.
unfoldable pub as_raw_arms : ℕ → ℕ → (vs : List Variant) → Value vs → ℕ
as_raw_arms bits index [] x = elim x [ ]
as_raw_arms bits index (v ∷ vs) (inl x) = encode_arm bits index v x
as_raw_arms bits index (v ∷ vs) (inr y) = as_raw_arms bits (index + 1) vs y

unfoldable pub decode_arm : ℕ → ℕ → (v : Variant) → Option (Field v)
decode_arm bits raw unit_variant = some tt
decode_arm bits raw (field_variant t) = t.from_raw_token (raw / 2 ^ bits)

-- The arms of the generated `from_raw_token`; the last one is `unreachable!()`.
unfoldable pub from_raw_arms : ℕ → ℕ → ℕ → ℕ → (vs : List Variant) → Option (Value vs)
from_raw_arms bits raw tag index [] = none
from_raw_arms bits raw tag index (v ∷ vs) =
    let rest = from_raw_arms bits raw tag (index + 1) vs in
    if tag == index then Option.map inl (decode_arm bits raw v) else Option.map inr rest

unfoldable pub enum_as_raw_token : (vs : List Variant) → Value vs → ℕ
unfolding as_raw_arms
enum_as_raw_token vs x = as_raw_arms (variant_bits vs) 0 vs x

-- The mask is computed on i32, in a release build: a shift is modulo 32, and 2^31 less 1 wraps.
unfoldable pub variant_mask : ℕ → ℕ
variant_mask bits = 2 ^ (bits % 32) - 1

unfoldable pub enum_from_raw_token : (vs : List Variant) → ℕ → Option (Value vs)
unfolding from_raw_arms variant_mask
enum_from_raw_token vs raw =
    let bits = variant_bits vs in from_raw_arms bits raw (bit_and raw (variant_mask bits)) 0 vs

-- The generated implementation, with the bits that the constant evaluated to.
unfoldable pub derived : List Variant → ℕ → EventToken
unfolding enum_as_raw_token enum_from_raw_token
derived vs used = record {
  Carrier = Value vs;
  IsValue = IsEnumValue vs;
  used_bits = used;
  as_raw_token = enum_as_raw_token vs;
  from_raw_token = enum_from_raw_token vs;
}

-- `none` where the const USED_BITS panics at compile time.
unfoldable pub event_token : List Variant → Option EventToken
unfolding used_bits_const derived
event_token vs = Option.map (derived vs) (used_bits_const vs)
