-- ===== src/Tests/Tokens.antt =====
-- The derive on an enum with a queue's index, a unit variant and a byte.
use virtio_device_poc.Base.{
  ℕ, zero, suc, ◌^◌, ◌-◌, ◌↔◌, ◌≤◌, ◌≡◌, ◌≢◌, refl, none, some, inl, List, [], ◌∷◌, arith,
}
use virtio_device_poc.Event.Token.{IsLawful, u16_token, u8_token}
use virtio_device_poc.Event.Derive.{
  Variant, unit_variant, field_variant, encode_arm, variant_bits, used_bits_const, event_token,
  derived, enum_as_raw_token,
}
use virtio_device_poc.Event.Derive.Arms.{HasFieldBits}
use virtio_device_poc.Event.Derive.Laws.{
  event_token-IsLawful, uint_token-IsLawful, used_bits_const_iff,
}

-- enum { Queue(u16), Wake, Byte(u8) }
abbrev worker_token : List Variant
worker_token = field_variant u16_token ∷ unit_variant ∷ field_variant u8_token ∷ []

worker_token_evaluates : event_token worker_token ≡ some (derived worker_token 18)
unfolding event_token variant_bits
worker_token_evaluates = refl

queue_seven : enum_as_raw_token worker_token (inl 7) ≡ 28
unfolding enum_as_raw_token encode_arm variant_bits
queue_seven = refl

event_token-IsLawful_example : IsLawful (derived worker_token 18)
event_token-IsLawful_example =
    event_token-IsLawful worker_token (derived worker_token 18) (omega arith)
      (uint_token-IsLawful 16 (omega arith), (uint_token-IsLawful 8 (omega arith), tt))
      worker_token_evaluates

two_least : (k : ℕ) → 3 ≤ 2 ^ k → 2 ≤ k
two_least zero h = absurd (omega arith)
two_least (suc zero) h = absurd (omega arith)
two_least (suc (suc k)) h = omega arith

used_bits_const_iff_example :
    (used_bits_const worker_token ≢ none) ↔ HasFieldBits (64 - 2) worker_token
used_bits_const_iff_example =
    used_bits_const_iff worker_token 2 (omega arith) (omega arith) two_least
