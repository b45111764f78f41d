-- ===== src/VhostUser/Handler/Negotiation.antt =====
-- What the negotiation of features accepts, and what it does with the rings.
-- (vhost-user/src/handler.rs)
use virtio_device_poc.Base.{
  ℕ, zero, suc, ◌^◌, ◌≤◌, ◌<◌, ◌≡◌, ◌≢◌, ◌↔◌, ◌⊎◌, inl, inr, refl, sym, ap, ap₂, ◌∙◌, Bool, true,
  false, not, ◌||◌, some, List, [], ◌∷◌, map, ◌==◌, if◌then◌else◌, arith, bit_and, get_elem?,
  Bool-cases, Option-cases, by_bool, by_option, eq→==, ==_iff, length, get_elem?-some, get_elem?-lt,
}
use virtio_device_poc.Base.Bits.{
  bit, bit_ext, bit-bit_and, bit-zero, bit-le-one, bit_high, bit_complement,
}
use virtio_device_poc.VhostUser.Host.{Host}
use virtio_device_poc.VhostUser.Vring.{Vring, set_enabled}
use virtio_device_poc.VhostUser.Handler.Types.{
  Reply, reply, refuse, invalid_param, Device, VhostUserHandler,
}
use virtio_device_poc.VhostUser.Handler.Features.{
  complement, protocol_features_mask, check_feature, enable_all, set_event_idx_all,
  negotiated_vrings, set_features,
}
use virtio_device_poc.VhostUser.Handler.Rings.{set_vring_enable}
use virtio_device_poc.Base.Flags.{bit_test}
use mathlib.Core.Option.{some-injective}

-- Every feature of the first set is in the second.
abbrev pub IsSubset : ℕ → ℕ → Type 0
IsSubset a b = (i : ℕ) → bit a i ≤ bit b i

subset_iff : (a b : ℕ) → a < 2 ^ 64 → b < 2 ^ 64 → (bit_and a (complement b) ≡ 0) ↔ IsSubset a b
subset_iff a b p q = (
  λ e i. elim (below_or_above i) [
    | inl low ↦
        let none_left : bit (bit_and a (complement b)) i ≡ 0 = ap (λ x. bit x i) e ∙ bit-zero i in
        omega (
          arith,
          bit-bit_and a (complement b) i,
          bit_complement 64 b i q low,
          none_left,
          bit-le-one a i,
          bit-le-one b i,
        )
    | inr high ↦ omega (arith, bit_high 64 a i p high)
  ],
  λ subset. bit_ext _ _ λ i. elim (below_or_above i) [
    | inl low ↦
        let here = subset i in
        omega (
          arith,
          bit-bit_and a (complement b) i,
          bit_complement 64 b i q low,
          bit-zero i,
          bit-le-one a i,
          bit-le-one b i,
          here,
        )
    | inr high ↦ omega (arith, bit-bit_and a (complement b) i, bit_high 64 a i p high, bit-zero i)
  ],
)
  where
    below_or_above : (i : ℕ) → (i < 64) ⊎ (64 ≤ i)
    below_or_above i = ground arith

get_elem?-map :
    {A B : Type 0} (f : A → B) (xs : List A) (i : ℕ) (x : A)
    → get_elem? xs i ≡ some x
    → get_elem? (map f xs) i ≡ some (f x)
get_elem?-map f [] i x e = cc
get_elem?-map f (y ∷ xs) zero x e = ap (λ z. some (f z)) (some-injective y x e)
get_elem?-map f (y ∷ xs) (suc i) x e = get_elem?-map f xs i x e

-- Whether a set has the feature of the bit.
abbrev pub has_feature : ℕ → ℕ → Bool
has_feature features b = bit features b == 1

module _ (h : Host) (d : Device h) where
  abbrev Handler : Type 0
  Handler = VhostUserHandler h d

  -- SET_FEATURES is refused exactly if it asks for a feature that the device does not offer.
  pub set_features_iff :
      (s : Handler) (features : ℕ)
      → features < 2 ^ 64
      → d.avail_features s.device < 2 ^ 64
      → ((set_features h d s features).1 ≢ refuse invalid_param)
        ↔ IsSubset features (d.avail_features s.device)
  unfolding set_features
  set_features_iff s features p q =
      let (there, back) = subset_iff features (d.avail_features s.device) p q in
      elim (Bool-cases (bit_and features (complement (d.avail_features s.device)) == 0)) [
        | inl offered ↦ rw offered (
          λ e. there ((==_iff _ _).0 offered),
          λ subset.
              by_option (λ (r : Handler × Reply (Unit {0})). r.1 ≢ refuse invalid_param)
                (d.set_acked_features s.device features) _ _ (λ n e. cc) (λ x n e. cc),
        )
        | inr more ↦
            rw more (λ e. absurd (e refl), λ subset. let no = eq→== _ 0 (back subset) in cc)
      ]

  -- How the negotiation leaves a ring.
  abbrev pub negotiated : ℕ → Vring h → Vring h
  negotiated features v = record v {
    enabled = not (has_feature features h.protocol_features_bit) || v.enabled;
    queue = h.set_event_idx v.queue (has_feature features h.event_idx_bit);
  }

  enable_choice :
      (none_left : Bool) (vs : List (Vring h)) (i : ℕ) (v : Vring h)
      → get_elem? vs i ≡ some v
      → get_elem?
          (if none_left then map (λ (u : Vring h). record u { enabled = true }) vs else vs)
          i
        ≡ some (record v { enabled = none_left || v.enabled })
  enable_choice true vs i v found =
      get_elem?-map (λ (u : Vring h). record u { enabled = true }) vs i v found
  enable_choice false vs i v found = found

  not-not : (b : Bool) → b ≡ not (not b)
  not-not true = refl
  not-not false = refl

  ring_negotiated :
      (features : ℕ) (vs : List (Vring h)) (i : ℕ) (v : Vring h)
      → get_elem? vs i ≡ some v
      → get_elem? (negotiated_vrings h d features vs) i ≡ some (negotiated features v)
  unfolding negotiated_vrings enable_all set_event_idx_all set_enabled
  ring_negotiated features vs i v found =
      let none_left = bit_and features (protocol_features_mask h d) == 0 in
      let event_idx = not (bit_and features (2 ^ h.event_idx_bit) == 0) in
      let same = not-not none_left ∙ ap not (bit_test features h.protocol_features_bit) in
      get_elem?-map (λ (u : Vring h). record u { queue = h.set_event_idx u.queue event_idx }) _ i _
        (enable_choice none_left vs i v found)
      ∙ ap₂
          (λ a b. some (
            let r : Vring h = record v {
              enabled = a || v.enabled;
              queue = h.set_event_idx v.queue b;
            } in
            r))
          same (bit_test features h.event_idx_bit)

  -- What set_features-negotiates states of the result.
  unfoldable pub IsNegotiated : Handler → ℕ → Handler × Reply (Unit {0}) → Type 0
  IsNegotiated s features r =
      r.1 ≢ refuse invalid_param
      → (r.0.acked_features ≡ features)
        × ((i : ℕ) (v : Vring h)
            → get_elem? s.vrings i ≡ some v
            → get_elem? r.0.vrings i ≡ some (negotiated features v))

  -- Unless SET_FEATURES is refused, the features are acknowledged, each ring uses event indices
  -- exactly if EVENT_IDX is among them, and without PROTOCOL_FEATURES each ring is enabled; a ring
  -- keeps the rest, and with PROTOCOL_FEATURES also whether it is enabled.
  pub set_features-negotiates :
      (s : Handler) (features : ℕ) → IsNegotiated s features (set_features h d s features)
  unfolding set_features IsNegotiated
  set_features-negotiates s features =
      by_bool (IsNegotiated s features)
        (not (bit_and features (complement (d.avail_features s.device)) == 0)) _ _
        (λ e accepted. absurd (accepted refl))
        (λ e.
          by_option (IsNegotiated s features) (d.set_acked_features s.device features) _ _
            (λ n accepted. (refl, λ i v found. ring_negotiated features s.vrings i v found))
            (λ device n accepted. (refl, λ i v found. ring_negotiated features s.vrings i v found)))

  -- SET_VRING_ENABLE is answered exactly if PROTOCOL_FEATURES was acknowledged and the ring exists.
  pub set_vring_enable_iff :
      (s : Handler) (index : ℕ) (enable : Bool)
      → ((set_vring_enable h d s index enable).1 ≡ reply tt)
        ↔ ((bit s.acked_features h.protocol_features_bit ≡ 1) × (index < length s.vrings))
  unfolding set_vring_enable check_feature
  set_vring_enable_iff s index enable =
      elim (Bool-cases (not (bit_and s.acked_features (protocol_features_mask h d) == 0))) [
        | inl acked ↦
            let flag : bit s.acked_features h.protocol_features_bit ≡ 1 =
              (==_iff _ _).0 (sym (bit_test s.acked_features h.protocol_features_bit) ∙ acked) in
            rw (acked, set_vring_enable)
              (elim (Option-cases (get_elem? s.vrings index)) [
                | inl missing ↦ rw missing (
                  λ e. cc,
                  λ (a, small). let (v, found) = get_elem?-lt s.vrings index small in cc,
                )
                | inr (v, found) ↦
                    rw found (λ e. (flag, get_elem?-some s.vrings index v found), λ p. refl)
              ])
        | inr absent ↦
            let flag : (bit s.acked_features h.protocol_features_bit == 1) ≡ false =
              sym (bit_test s.acked_features h.protocol_features_bit) ∙ absent in
            rw (absent, set_vring_enable) (λ e. cc, λ (a, small). let no = eq→== _ 1 a in cc)
      ]
