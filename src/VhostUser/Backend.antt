-- ===== src/VhostUser/Backend.antt =====
-- A virtio device behind vhost-user: the delegation that adds the feature PROTOCOL_FEATURES.
-- (vhost-user/src/backend.rs; the trait VirtioDevice is in virtio/src/lib.rs)
use virtio_device_poc.Base.{
  ℕ, ◌^◌, ◌≤◌, ◌≡◌, refl, sym, ap, ◌∙◌, Bool, Option, none, some, List, Result, ◌==◌, if◌then◌else◌,
  bit_and, bit_or, bit_xor, arith, by_bool, eq→==, ◌*◌, ℕ_discrete,
}
use mathlib.Core.Option.{some-injective}
use virtio_device_poc.Base.Bits.{
  bit, bit_ext, bit-bit_or, bit-bit_and, bit-bit_xor, bit_and-pow, bit-pow_self, bit-pow_ne,
  bit-le-one,
}
use virtio_device_poc.VhostUser.Host.{Host}
use virtio_device_poc.VhostUser.Vring.{Vring}
use virtio_device_poc.VhostUser.Handler.Types.{Device, DeviceLaws}

-- VirtioDevice; `none` is a panic.
pub record VirtioDevice (h : Host) : Type 1 where
  pub State : Type 0
  pub avail_features : State → ℕ
  pub acked_features : State → ℕ
  pub set_acked_features : State → ℕ → State
  pub queues : State → List ℕ
  pub read_config : State → ℕ → ℕ → Option (Result (List ℕ) ℕ)
  pub write_config : State → ℕ → List ℕ → State × Result (Unit {0}) ℕ
  pub activate : State → h.Mem → List (Vring h) → Option (State × Result (Unit {0}) ℕ)
  pub stop : State → State
  pub reset : State → State × Result Bool ℕ

-- The offered features are constant.
pub record VirtioLaws (h : Host) (v : VirtioDevice h) : Type 0 where
  pub offers-set_acked :
      (x : v.State) (f : ℕ) → v.avail_features (v.set_acked_features x f) ≡ v.avail_features x
  pub offers-write :
      (x : v.State) (offset : ℕ) (buf : List ℕ)
      → v.avail_features (v.write_config x offset buf).0 ≡ v.avail_features x
  pub offers-activate :
      (x y : v.State) (mem : h.Mem) (vrings : List (Vring h)) (r : Result (Unit {0}) ℕ)
      → v.activate x mem vrings ≡ some (y, r)
      → v.avail_features y ≡ v.avail_features x
  pub offers-reset : (x : v.State) → v.avail_features (v.reset x).0 ≡ v.avail_features x

module _ (h : Host) (v : VirtioDevice h) (protocol_features : v.State → ℕ) where
  abbrev protocol_bit : ℕ
  protocol_bit = 2 ^ h.protocol_features_bit

  unfoldable pub avail_features : v.State → ℕ
  avail_features x = bit_or (v.avail_features x) protocol_bit

  unfoldable pub acked_features : v.State → ℕ
  acked_features x = bit_or (v.acked_features x) protocol_bit

  -- `none` is the failed assertion.
  unfoldable pub set_acked_features : v.State → ℕ → Option v.State
  set_acked_features x acked =
      if bit_and acked protocol_bit == protocol_bit
      then some (v.set_acked_features x (bit_xor acked protocol_bit))
      else none

  -- The VhostUserDevice of a VhostUserDeviceImplementer.
  unfoldable pub implementer : Device h
  unfolding avail_features set_acked_features
  implementer = record {
    State = v.State;
    protocol_features = protocol_features;
    avail_features = avail_features;
    set_acked_features = set_acked_features;
    queues = v.queues;
    read_config = v.read_config;
    write_config = v.write_config;
    activate = v.activate;
    stop = v.stop;
    reset = v.reset;
    set_gpu_socket = λ x gpu_backend. x;
  }

  module _ (laws : VirtioLaws h v) where
    -- The delegation is a lawful device of the handler.
    pub implementer-DeviceLaws : DeviceLaws h implementer
    unfolding implementer avail_features
    implementer-DeviceLaws = record {
      offers-set_acked = λ x y f e. ap (λ a. bit_or a protocol_bit) (same x y f e);
      offers-write = λ x o buf. ap (λ a. bit_or a protocol_bit) (laws.offers-write x o buf);
      offers-activate =
          λ x y m vs r e. ap (λ a. bit_or a protocol_bit) (laws.offers-activate x y m vs r e);
      offers-reset = λ x. ap (λ a. bit_or a protocol_bit) (laws.offers-reset x);
      offers-set_gpu_socket = λ x g. refl;
    }
      where
        same :
            (x y : v.State) (f : ℕ)
            → set_acked_features x f ≡ some y
            → v.avail_features y ≡ v.avail_features x
        same x y f =
            by_bool (λ (o : Option v.State). o ≡ some y → v.avail_features y ≡ v.avail_features x)
              (bit_and f protocol_bit == protocol_bit) _ _
              (λ p e.
                ap v.avail_features
                  (sym (some-injective (v.set_acked_features x (bit_xor f protocol_bit)) y e))
                ∙ laws.offers-set_acked x (bit_xor f protocol_bit))
              (λ p e. cc)

  -- Of a device that acknowledges what it offers, and does not offer PROTOCOL_FEATURES itself: a
  -- set of offered features that includes PROTOCOL_FEATURES is accepted without a panic, and is
  -- then exactly what is acknowledged.
  pub acked_features-set_acked_features :
      (x : v.State) (f : ℕ)
      → ((f' : ℕ) → v.acked_features (v.set_acked_features x f') ≡ bit_and (v.avail_features x) f')
      → bit (v.avail_features x) h.protocol_features_bit ≡ 0
      → bit f h.protocol_features_bit ≡ 1
      → ((i : ℕ) → bit f i ≤ bit (avail_features x) i)
      → (y : v.State) × (set_acked_features x f ≡ some y) × (acked_features y ≡ f)
  unfolding set_acked_features acked_features avail_features
  acked_features-set_acked_features x f keeps free asked offered = (
    v.set_acked_features x (bit_xor f protocol_bit),
    rw
        (eq→== _ protocol_bit
          (bit_and-pow f h.protocol_features_bit ∙ ap (λ b. b * protocol_bit) asked ∙ omega arith))
        refl,
    ap (λ a. bit_or a protocol_bit) (keeps (bit_xor f protocol_bit)) ∙ bit_ext _ _ same_bit,
  )
    where
      same_bit :
          (i : ℕ)
          → bit (bit_or (bit_and (v.avail_features x) (bit_xor f protocol_bit)) protocol_bit) i
            ≡ bit f i
      same_bit i =
          let kept = bit_and (v.avail_features x) (bit_xor f protocol_bit) in
          elim (ℕ_discrete h.protocol_features_bit i) [
            | yes here ↦ omega (
              arith,
              bit-bit_or kept protocol_bit i,
              bit-bit_and (v.avail_features x) (bit_xor f protocol_bit) i,
              ap (bit protocol_bit) (sym here) ∙ bit-pow_self h.protocol_features_bit,
              ap (bit f) (sym here) ∙ asked,
              ap (bit (v.avail_features x)) (sym here) ∙ free,
            )
            | no other ↦ omega (
              arith,
              bit-bit_or kept protocol_bit i,
              bit-bit_and (v.avail_features x) (bit_xor f protocol_bit) i,
              bit-bit_xor f protocol_bit i,
              bit-bit_or (v.avail_features x) protocol_bit i,
              bit-pow_ne h.protocol_features_bit i other,
              bit-le-one f i,
              offered i,
            )
          ]
