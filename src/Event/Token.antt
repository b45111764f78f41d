-- ===== src/Event/Token.antt =====
-- The trait EventToken and its implementations for the integer types and ().
-- (event_manager/src/lib.rs)
use virtio_device_poc.Base.{ℕ, ◌%◌, ◌^◌, ◌≤◌, ◌<◌, ◌≡◌, Option, some}

-- `IsValue` says which values of `Carrier` the Rust type has. `from_raw_token` is `none` where the
-- code panics.
pub record EventToken : Type 1 where
  pub Carrier : Type 0
  pub IsValue : Carrier → Type 0
  pub used_bits : ℕ
  pub as_raw_token : Carrier → ℕ
  pub from_raw_token : ℕ → Option Carrier

-- What the trait asks of an implementation.
pub record IsLawful (t : EventToken) : Type 0 where
  pub used_fits : t.used_bits ≤ 64
  pub raw_fits : (x : t.Carrier) → t.IsValue x → t.as_raw_token x < 2 ^ t.used_bits
  pub round_trip : (x : t.Carrier) → t.IsValue x → t.from_raw_token (t.as_raw_token x) ≡ some x

-- The implementation for the unsigned type of w bits: `u64::from` one way, `as Self` back.
abbrev pub uint_token : ℕ → EventToken
uint_token w = record {
  Carrier = ℕ;
  IsValue = λ x. x < 2 ^ w;
  used_bits = w;
  as_raw_token = λ x. x % 2 ^ 64;
  from_raw_token = λ raw. some (raw % 2 ^ w);
}

abbrev pub usize_token : EventToken
usize_token = uint_token 64

abbrev pub u64_token : EventToken
u64_token = uint_token 64

abbrev pub u32_token : EventToken
u32_token = uint_token 32

abbrev pub u16_token : EventToken
u16_token = uint_token 16

abbrev pub u8_token : EventToken
u8_token = uint_token 8

abbrev pub unit_token : EventToken
unit_token = record {
  Carrier = Unit {0};
  IsValue = λ _. Unit {0};
  used_bits = 0;
  as_raw_token = λ _. 0;
  from_raw_token = λ _. some tt;
}
