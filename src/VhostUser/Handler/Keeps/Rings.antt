-- ===== src/VhostUser/Handler/Keeps/Rings.antt =====
-- The requests on one ring. (vhost-user/src/handler.rs)
use virtio_device_poc.Base.{Result}
use virtio_device_poc.Base.{
  ℕ, ◌≡◌, refl, Bool, true, not, ◌&&◌, ◌||◌, Option, none, some, by_bool, by_option, by_result,
  get_elem?, arith, ltb, ◌==◌, is_empty,
}
use virtio_device_poc.VhostUser.Host.{Host}
use virtio_device_poc.VhostUser.Vring.{
  set_queue_info, set_enabled, set_call, set_err, has_kick_event, start, stop, set_kick,
}
use virtio_device_poc.VhostUser.Handler.Types.{
  Reply, reply, refuse, panic, Device, DeviceLaws, VhostUserHandler, invalid_param,
}
use virtio_device_poc.VhostUser.Handler.Features.{check_feature, protocol_features_mask}
use virtio_device_poc.VhostUser.Handler.Memory.{vmm_va_to_gpa}
use virtio_device_poc.VhostUser.Handler.Rings.{
  put_vring, activate_device, initialize_vring, set_vring_num, set_vring_addresses, set_vring_addr,
  set_vring_base, get_vring_base, set_vring_kick, set_vring_call, set_vring_err, set_vring_enable,
}
use virtio_device_poc.VhostUser.Handler.Keeps.{
  Keeps, IsKept, IsKept-Keeps, is_kept, kept, kept_then, offered_by, put_vring-Keeps,
  put_vring_world-Keeps,
}

module _ (h : Host) (d : Device h) where
  abbrev Handler : Type 0
  Handler = VhostUserHandler h d

  -- First `t`, which keeps, then an operation on it.
  after_keeping :
      {A : Type 0} (s t : Handler) (r : Handler × Reply A)
      → Keeps h d s t
      → IsKept h d t r
      → IsKept h d s r
  after_keeping s t r a b = is_kept h d s r.0 r.1 (kept_then h d s t r.0 a (IsKept-Keeps h d t r b))

  pub set_vring_num-Keeps :
      (s : Handler) (index num : ℕ) → IsKept h d s (set_vring_num h d s index num)
  unfolding set_vring_num
  set_vring_num-Keeps s index num =
      by_option (IsKept h d s) (get_elem? s.vrings index) _ _ (λ e. kept h d s _)
        (λ v e.
          by_option (IsKept h d s) (get_elem? s.requested_queues index) _ _
            (λ q. by_bool (IsKept h d s) (num == 0) _ _ (λ p. kept h d s _) (λ p. kept h d s _))
            (λ max_size q.
              by_bool (IsKept h d s) (num == 0 || ltb max_size num) _ _ (λ p. kept h d s _)
                (λ p. is_kept h d s _ _ (put_vring-Keeps h d s index _))))

  pub set_vring_addresses-Keeps :
      (s : Handler) (index desc_table avail_ring used_ring : ℕ)
      → IsKept h d s (set_vring_addresses h d s index desc_table avail_ring used_ring)
  unfolding set_vring_addresses
  set_vring_addresses-Keeps s index desc_table avail_ring used_ring =
      by_option (IsKept h d s) (get_elem? s.vrings index) _ _ (λ e. kept h d s _)
        (λ v e.
          let info = set_queue_info h v desc_table avail_ring used_ring in
          by_result (IsKept h d s) info.1 _ _
            (λ done p.
              by_result (IsKept h d s) (h.used_idx info.0.queue s.atomic_mem) _ _
                (λ idx q. is_kept h d s _ _ (put_vring-Keeps h d s index _))
                (λ x q. is_kept h d s _ _ (put_vring-Keeps h d s index _)))
            (λ x p. is_kept h d s _ _ (put_vring-Keeps h d s index _)))

  pub set_vring_addr-Keeps :
      (s : Handler) (index descriptor used available : ℕ)
      → IsKept h d s (set_vring_addr h d s index descriptor used available)
  unfolding set_vring_addr
  set_vring_addr-Keeps s index descriptor used available =
      by_bool (IsKept h d s) (is_empty s.mappings) _ _ (λ e. kept h d s _)
        (λ e.
          by_result (IsKept h d s) (vmm_va_to_gpa h d s descriptor) _ _
            (λ desc_table p.
              by_result (IsKept h d s) (vmm_va_to_gpa h d s available) _ _
                (λ avail_ring q.
                  by_result (IsKept h d s) (vmm_va_to_gpa h d s used) _ _
                    (λ used_ring r.
                      set_vring_addresses-Keeps s index desc_table avail_ring used_ring)
                    (λ x r. kept h d s _))
                (λ x q. kept h d s _))
            (λ x p. kept h d s _))

  pub set_vring_base-Keeps :
      (s : Handler) (index base : ℕ) → IsKept h d s (set_vring_base h d s index base)
  unfolding set_vring_base
  set_vring_base-Keeps s index base =
      by_option (IsKept h d s) (get_elem? s.vrings index) _ _ (λ e. kept h d s _)
        (λ v e. is_kept h d s _ _ (put_vring-Keeps h d s index _))

  pub get_vring_base-Keeps : (s : Handler) (index : ℕ) → IsKept h d s (get_vring_base h d s index)
  unfolding get_vring_base
  get_vring_base-Keeps s index =
      by_option (IsKept h d s) (get_elem? s.vrings index) _ _ (λ e. kept h d s _)
        (λ v e.
          let (v₁, w₁, r₁) = stop h v s.world in
          let (v₂, w₂, r₂) = set_kick h v₁ w₁ none in
          by_result (IsKept h d s) r₁ _ _
            (λ done p.
              by_result (IsKept h d s) r₂ _ _
                (λ done q. is_kept h d s _ _ (put_vring_world-Keeps h d s index _ w₂))
                (λ x q. is_kept h d s _ _ (put_vring_world-Keeps h d s index _ w₂)))
            (λ x p. is_kept h d s _ _ (put_vring_world-Keeps h d s index _ w₁)))

  pub set_vring_err-Keeps :
      (s : Handler) (index : ℕ) (file : Option ℕ) → IsKept h d s (set_vring_err h d s index file)
  unfolding set_vring_err
  set_vring_err-Keeps s index file =
      by_option (IsKept h d s) (get_elem? s.vrings index) _ _ (λ e. kept h d s _)
        (λ v e. is_kept h d s _ _ (put_vring-Keeps h d s index (set_err h v file)))

  pub set_vring_enable-Keeps :
      (s : Handler) (index : ℕ) (enable : Bool) → IsKept h d s (set_vring_enable h d s index enable)
  unfolding set_vring_enable
  set_vring_enable-Keeps s index enable = checked (check_feature h d s (protocol_features_mask h d))
    where
      checked :
          (c : Reply (Unit {0}))
          → let r : Handler × Reply (Unit {0}) = elim c [
            | panic ↦ (s, panic)
            | refuse e ↦ (s, refuse e)
            | reply done ↦ elim (get_elem? s.vrings index) [
              | none ↦ (s, refuse invalid_param)
              | some v ↦ (put_vring h d s index (set_enabled h v enable), reply tt)
            ]
          ] in
            IsKept h d s r
      checked panic = kept h d s _
      checked (refuse e) = kept h d s _
      checked (reply done) =
          by_option (IsKept h d s) (get_elem? s.vrings index) _ _ (λ e. kept h d s _)
            (λ v e. is_kept h d s _ _ (put_vring-Keeps h d s index (set_enabled h v enable)))

  module _ (laws : DeviceLaws h d) where
    -- The device is activated only if the memory table came.
    activate_device-Keeps : (s : Handler) → IsKept h d s (activate_device h d s)
    unfolding activate_device
    activate_device-Keeps s =
        by_bool (IsKept h d s) (not s.device_activated && s.memory_updated) _ _
          (λ e.
            by_option (IsKept h d s) (d.activate s.device s.atomic_mem s.vrings) _ _
              (λ n. is_kept h d s _ _ (activated e s.device refl))
              (λ (device, r) n.
                by_result (IsKept h d s) r _ _
                  (λ done q. is_kept h d s _ _ (activated e device (offers device r n)))
                  (λ x q. is_kept h d s _ _ (activated e device (offers device r n)))))
          (λ e. kept h d s _)
      where
        offers :
            (device : d.State) (r : Result (Unit {0}) ℕ)
            → d.activate s.device s.atomic_mem s.vrings ≡ some (device, r)
            → d.avail_features device ≡ d.avail_features s.device
        offers device r n = laws.offers-activate s.device device s.atomic_mem s.vrings r n

        activated :
            (not s.device_activated && s.memory_updated) ≡ true
            → (device : d.State) → d.avail_features device ≡ d.avail_features s.device
            → Keeps h d s (record s { device_activated = true; device = device })
        activated e device same = record {
          same_queues = refl;
          same_rings = refl;
          stays_activated = λ p. refl;
          needs_memory = λ p. ground arith;
          stays_updated = λ p. p;
          stays_offered = offered_by h d s.acked_features s.device device same;
        }

    initialize_vring-Keeps : (s : Handler) (index : ℕ) → IsKept h d s (initialize_vring h d s index)
    unfolding initialize_vring
    initialize_vring-Keeps s index =
        by_option (IsKept h d s) (get_elem? s.vrings index) _ _ (λ e. kept h d s _)
          (λ v e.
            by_bool (IsKept h d s) (not (h.ready v.queue) && has_kick_event h v) _ _
              (λ p.
                let (v', w', r) = start h v s.world in
                by_result (IsKept h d s) r _ _
                  (λ done q.
                    after_keeping s _ _ (put_vring_world-Keeps h d s index v' w')
                      (activate_device-Keeps _))
                  (λ x q. is_kept h d s _ _ (put_vring_world-Keeps h d s index v' w')))
              (λ p. kept h d s _))

    pub set_vring_kick-Keeps :
        (s : Handler) (index : ℕ) (file : Option ℕ) → IsKept h d s (set_vring_kick h d s index file)
    unfolding set_vring_kick
    set_vring_kick-Keeps s index file =
        by_option (IsKept h d s) (get_elem? s.vrings index) _ _ (λ e. kept h d s _)
          (λ v e.
            let (v', w', r) = set_kick h v s.world file in
            by_result (IsKept h d s) r _ _
              (λ done q.
                after_keeping s _ _ (put_vring_world-Keeps h d s index v' w')
                  (initialize_vring-Keeps _ index))
              (λ x q. is_kept h d s _ _ (put_vring_world-Keeps h d s index v' w')))

    pub set_vring_call-Keeps :
        (s : Handler) (index : ℕ) (file : Option ℕ) → IsKept h d s (set_vring_call h d s index file)
    unfolding set_vring_call
    set_vring_call-Keeps s index file =
        by_option (IsKept h d s) (get_elem? s.vrings index) _ _ (λ e. kept h d s _)
          (λ v e.
            after_keeping s _ _ (put_vring-Keeps h d s index (set_call h v file))
              (initialize_vring-Keeps _ index))
