-- ===== src/VhostUser/Handler/Keeps/Features.antt =====
-- The requests on ownership, features and configuration. (vhost-user/src/handler.rs)
use virtio_device_poc.Base.{
  ℕ, ◌≡◌, refl, sym, ap, ◌∙◌, inl, Bool, true, false, not, Option, some, none, List, [], ◌∷◌, map,
  length, suc, bit_and, ◌==◌, by_bool, length-map, by_option, by_result, arith, ok, err,
  if◌then◌else◌,
}
use virtio_device_poc.Base.Bits.{bit_ext, bit-bit_and, bit-zero}
use virtio_device_poc.VhostUser.Host.{Host}
use virtio_device_poc.VhostUser.Vring.{Vring, World, stop, set_enabled, IoResult}
use virtio_device_poc.VhostUser.Handler.Types.{Device, DeviceLaws, VhostUserHandler}
use virtio_device_poc.VhostUser.Handler.Features.{
  complement, set_owner, reset_owner, reset_device, stop_all, negotiated_vrings, enable_all,
  set_event_idx_all, set_features, set_config, set_gpu_socket, protocol_features_mask, get_config,
  set_protocol_features,
}
use virtio_device_poc.VhostUser.Handler.Keeps.{IsOffered, Keeps, IsKept, is_kept, kept, offered_by}
use mathlib.Core.Option.{some-injective}

pub zero_is_offered : (x : ℕ) → bit_and 0 x ≡ 0
zero_is_offered x = bit_ext _ _ λ i. omega (arith, bit-bit_and 0 x i, bit-zero i)

module _ (h : Host) (d : Device h) where
  abbrev Handler : Type 0
  Handler = VhostUserHandler h d

  length-choice :
      (b : Bool) (vs : List (Vring h))
      → length (if b then map (λ v. set_enabled h v true) vs else vs) ≡ length vs
  length-choice true vs = length-map vs (λ v. set_enabled h v true)
  length-choice false vs = refl

  pub length-negotiated_vrings :
      (features : ℕ) (vs : List (Vring h)) → length (negotiated_vrings h d features vs) ≡ length vs
  unfolding negotiated_vrings enable_all set_event_idx_all
  length-negotiated_vrings features vs =
      length-map _ _ ∙ length-choice (bit_and features (protocol_features_mask h d) == 0) vs

  -- The result has a ring for each of `n` rings.
  abbrev HasLength : ℕ → Option (List (Vring h) × World h) → Type 0
  HasLength n o = (vs : List (Vring h)) (w : World h) → o ≡ some (vs, w) → length vs ≡ n

  stop_one :
      (v : Vring h) (n : ℕ) (o : Option (List (Vring h) × World h))
      → HasLength n o
      → HasLength (suc n) (elim o [ none ↦ none | some (vs, w) ↦ some (v ∷ vs, w) ])
  stop_one v n none ih vs w e = cc
  stop_one v n (some (vs', w')) ih vs w e =
      let all = some-injective (v ∷ vs', w') (vs, w) e in
      sym (ap (λ (r : List (Vring h) × World h). length r.0) all) ∙ ap suc (ih vs' w' refl)

  stop_or_panic :
      (n : ℕ) (r : IoResult h (Unit {0})) (o : Option (List (Vring h) × World h))
      → HasLength n o
      → HasLength n (elim r [ err x ↦ none | ok done ↦ o ])
  stop_or_panic n (ok done) o p vs w e = p vs w e
  stop_or_panic n (err x) o p vs w e = cc

  length-stop_all : (vs : List (Vring h)) (w : World h) → HasLength (length vs) (stop_all h d vs w)
  unfolding stop_all
  length-stop_all [] w vs' w' e =
      ap (λ (r : List (Vring h) × World h). length r.0) (sym (some-injective ([], w) (vs', w') e))
  length-stop_all (v ∷ vs) w vs' w' e =
      let (v₁, w₁, r) = stop h (set_enabled h v false) w in
      stop_or_panic (length (v ∷ vs)) r _
        (stop_one v₁ (length vs) (stop_all h d vs w₁) (length-stop_all vs w₁)) vs' w' e

  pub set_owner-Keeps : (s : Handler) → IsKept h d s (set_owner h d s)
  unfolding set_owner
  set_owner-Keeps s =
      by_bool (IsKept h d s) (s.owned) _ _ (λ e. kept h d s _)
        (λ e. is_kept h d s _ _ (record {
          same_queues = refl;
          same_rings = refl;
          stays_activated = λ p. p;
          needs_memory = inl;
          stays_updated = λ p. p;
          stays_offered = λ p. p;
        }))

  pub reset_owner-Keeps : (s : Handler) → IsKept h d s (reset_owner h d s)
  unfolding reset_owner
  reset_owner-Keeps s = is_kept h d s _ _ (record {
    same_queues = refl;
    same_rings = refl;
    stays_activated = λ p. p;
    needs_memory = inl;
    stays_updated = λ p. p;
    stays_offered = λ p. zero_is_offered _;
  })

  pub set_protocol_features-Keeps :
      (s : Handler) (features : ℕ) → IsKept h d s (set_protocol_features h d s features)
  unfolding set_protocol_features
  set_protocol_features-Keeps s features = is_kept h d s _ _ (record {
    same_queues = refl;
    same_rings = refl;
    stays_activated = λ p. p;
    needs_memory = inl;
    stays_updated = λ p. p;
    stays_offered = λ p. p;
  })

  pub get_config-Keeps :
      (s : Handler) (offset size : ℕ) → IsKept h d s (get_config h d s offset size)
  unfolding get_config
  get_config-Keeps s offset size =
      by_option (IsKept h d s) (d.read_config s.device offset size) _ _ (λ e. kept h d s _)
        (λ r e. by_result (IsKept h d s) r _ _ (λ a e. kept h d s _) (λ a e. kept h d s _))

  module _ (laws : DeviceLaws h d) where
    pub reset_device-Keeps : (s : Handler) → IsKept h d s (reset_device h d s)
    unfolding reset_device
    reset_device-Keeps s =
        by_option (IsKept h d s) (stop_all h d s.vrings s.world) _ _ (λ e. kept h d s _)
          (λ (vs, w) e.
            by_result (IsKept h d s) ((d.reset s.device).1) _ _
              (λ again q. is_kept h d s _ _ (after vs w e))
              (λ x q. is_kept h d s _ _ (after vs w e)))
      where
        after :
            (vs : List (Vring h)) (w : World h)
            → stop_all h d s.vrings s.world ≡ some (vs, w)
            → Keeps h d s (record s {
              vrings = vs;
              world = w;
              features_acked = false;
              acked_features = 0;
              device = (d.reset s.device).0;
            })
        after vs w e = record {
          same_queues = refl;
          same_rings = length-stop_all s.vrings s.world vs w e;
          stays_activated = λ p. p;
          needs_memory = inl;
          stays_updated = λ p. p;
          stays_offered = λ p. zero_is_offered _;
        }

    pub set_features-Keeps :
        (s : Handler) (features : ℕ) → IsKept h d s (set_features h d s features)
    unfolding set_features
    set_features-Keeps s features =
        by_bool (IsKept h d s)
          (not (bit_and features (complement (d.avail_features s.device)) == 0)) _ _
          (λ e. kept h d s _)
          (λ e.
            by_option (IsKept h d s) (d.set_acked_features s.device features) _ _
              (λ n. is_kept h d s _ _ (negotiated e s.device refl))
              (λ device q.
                is_kept h d s _ _
                  (negotiated e device (laws.offers-set_acked s.device device features q))))
      where
        negotiated :
            not (bit_and features (complement (d.avail_features s.device)) == 0) ≡ false
            → (device : d.State) → d.avail_features device ≡ d.avail_features s.device
            → Keeps h d s (record s {
              acked_features = features;
              features_acked = true;
              vrings = negotiated_vrings h d features s.vrings;
              device = device;
            })
        negotiated e device q = record {
          same_queues = refl;
          same_rings = length-negotiated_vrings features s.vrings;
          stays_activated = λ p. p;
          needs_memory = inl;
          stays_updated = λ p. p;
          stays_offered = λ p.
              offered_by h d features s.device device q
                (let offered : IsOffered h d features s.device = ground arith in offered);
        }

    device_changed :
        (s : Handler) (device : d.State)
        → d.avail_features device ≡ d.avail_features s.device
        → Keeps h d s (record s { device = device })
    device_changed s device q = record {
      same_queues = refl;
      same_rings = refl;
      stays_activated = λ p. p;
      needs_memory = inl;
      stays_updated = λ p. p;
      stays_offered = offered_by h d s.acked_features s.device device q;
    }

    pub set_config-Keeps :
        (s : Handler) (offset : ℕ) (buf : List ℕ) → IsKept h d s (set_config h d s offset buf)
    unfolding set_config
    set_config-Keeps s offset buf =
        let changed = device_changed s _ (laws.offers-write s.device offset buf) in
        by_result (IsKept h d s) ((d.write_config s.device offset buf).1) _ _
          (λ a e. is_kept h d s _ _ changed) (λ a e. is_kept h d s _ _ changed)

    pub set_gpu_socket-Keeps :
        (s : Handler) (backend : ℕ) → IsKept h d s (set_gpu_socket h d s backend)
    unfolding set_gpu_socket
    set_gpu_socket-Keeps s backend =
        is_kept h d s _ _ (device_changed s _ (laws.offers-set_gpu_socket s.device backend))
