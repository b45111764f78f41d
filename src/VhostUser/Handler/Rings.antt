-- ===== src/VhostUser/Handler/Rings.antt =====
-- The requests on one ring, and the start of a ring and of the device.
-- (vhost-user/src/handler.rs)
use virtio_device_poc.Base.{
  ℕ, ◌%◌, ◌^◌, Bool, true, not, ◌&&◌, ◌||◌, Option, none, some, ok, err, ◌==◌, ltb, if◌then◌else◌,
  get_elem?, set, is_empty,
}
use virtio_device_poc.VhostUser.Host.{Host}
use virtio_device_poc.VhostUser.Vring.{
  Vring, set_queue_info, set_enabled, set_call, set_err, has_kick_event, start, stop, set_kick,
}
use virtio_device_poc.VhostUser.Handler.Types.{
  invalid_param, backend_internal_error, Reply, reply, refuse, panic, Device, VhostUserHandler,
}
use virtio_device_poc.VhostUser.Handler.Features.{check_feature, protocol_features_mask}
use virtio_device_poc.VhostUser.Handler.Memory.{vmm_va_to_gpa}

module _ (h : Host) (d : Device h) where
  abbrev Handler : Type 0
  Handler = VhostUserHandler h d

  -- A ring is changed in place.
  abbrev pub put_vring : Handler → ℕ → Vring h → Handler
  put_vring s index v = record s { vrings = set s.vrings index v }

  -- The device is activated once, when a ring starts after the memory table came.
  unfoldable pub activate_device : Handler → Handler × Reply (Unit {0})
  activate_device s =
      if not s.device_activated && s.memory_updated
      then elim (d.activate s.device s.atomic_mem s.vrings) [
        | none ↦ (record s { device_activated = true }, panic)
        | some (device, r) ↦
            let s' : Handler = record s { device_activated = true; device = device } in
            elim r [ err e ↦ (s', refuse backend_internal_error) | ok done ↦ (s', reply tt) ]
      ]
      else (s, reply tt)

  unfoldable pub initialize_vring : Handler → ℕ → Handler × Reply (Unit {0})
  unfolding activate_device
  initialize_vring s index = elim (get_elem? s.vrings index) [
    | none ↦ (s, panic)
    | some v ↦
        if not (h.ready v.queue) && has_kick_event h v
        then (let (v', w', r) = start h v s.world in
            let s' : Handler = record (put_vring s index v') { world = w' } in
            elim r [ err e ↦ (s', panic) | ok done ↦ activate_device s' ])
        else (s, reply tt)
  ]

  unfoldable pub set_vring_num : Handler → ℕ → ℕ → Handler × Reply (Unit {0})
  set_vring_num s index num = elim (get_elem? s.vrings index) [
    | none ↦ (s, refuse invalid_param)
    | some v ↦ elim (get_elem? s.requested_queues index) [
      | none ↦ if num == 0 then (s, refuse invalid_param) else (s, panic)
      | some max_size ↦ if num == 0 || ltb max_size num then (s, refuse invalid_param) else (
        put_vring s index (record v { queue = h.set_size v.queue (num % 2 ^ 16) }),
        reply tt,
      )
    ]
  ]

  -- The used index is read from guest memory, since SET_VRING_BASE restores the other one only.
  unfoldable pub set_vring_addresses : Handler → ℕ → ℕ → ℕ → ℕ → Handler × Reply (Unit {0})
  set_vring_addresses s index desc_table avail_ring used_ring = elim (get_elem? s.vrings index) [
    | none ↦ (s, refuse invalid_param)
    | some v ↦
        let (v', r) = set_queue_info h v desc_table avail_ring used_ring in
        elim r [
          | err e ↦ (put_vring s index v', refuse invalid_param)
          | ok done ↦ elim (h.used_idx v'.queue s.atomic_mem) [
            | err e ↦ (put_vring s index v', refuse backend_internal_error)
            | ok idx ↦
                (put_vring s index (record v' { queue = h.set_next_used v'.queue idx }), reply tt)
          ]
        ]
  ]

  unfoldable pub set_vring_addr : Handler → ℕ → ℕ → ℕ → ℕ → Handler × Reply (Unit {0})
  unfolding set_vring_addresses
  set_vring_addr s index descriptor used available =
      if is_empty s.mappings
      then (s, refuse invalid_param)
      else elim (vmm_va_to_gpa h d s descriptor) [
        | err e ↦ (s, refuse e)
        | ok desc_table ↦ elim (vmm_va_to_gpa h d s available) [
          | err e ↦ (s, refuse e)
          | ok avail_ring ↦ elim (vmm_va_to_gpa h d s used) [
            | err e ↦ (s, refuse e)
            | ok used_ring ↦ set_vring_addresses s index desc_table avail_ring used_ring
          ]
        ]
      ]

  unfoldable pub set_vring_base : Handler → ℕ → ℕ → Handler × Reply (Unit {0})
  set_vring_base s index base = elim (get_elem? s.vrings index) [
    | none ↦ (s, refuse invalid_param)
    | some v ↦ (
      put_vring s index (record v { queue = h.set_next_avail v.queue (base % 2 ^ 16) }),
      reply tt,
    )
  ]

  -- The answer is a VhostUserVringState: the ring's index and its next available index.
  unfoldable pub get_vring_base : Handler → ℕ → Handler × Reply (ℕ × ℕ)
  get_vring_base s index = elim (get_elem? s.vrings index) [
    | none ↦ (s, refuse invalid_param)
    | some v ↦
        let (v₁, w₁, r₁) = stop h v s.world in
        let (v₂, w₂, r₂) = set_kick h v₁ w₁ none in
        let stopped : Handler = record (put_vring s index v₁) { world = w₁ } in
        let unkicked : Handler = record (put_vring s index v₂) { world = w₂ } in
        elim r₁ [
          | err e ↦ (stopped, panic)
          | ok done ↦ elim r₂ [
            | err e ↦ (unkicked, panic)
            | ok done ↦ (
              record (put_vring s index (set_call h v₂ none)) { world = w₂ },
              reply (index, h.next_avail v₁.queue),
            )
          ]
        ]
  ]

  unfoldable pub set_vring_kick : Handler → ℕ → Option ℕ → Handler × Reply (Unit {0})
  unfolding initialize_vring
  set_vring_kick s index file = elim (get_elem? s.vrings index) [
    | none ↦ (s, refuse invalid_param)
    | some v ↦
        let (v', w', r) = set_kick h v s.world file in
        let s' : Handler = record (put_vring s index v') { world = w' } in
        elim r [ err e ↦ (s', panic) | ok done ↦ initialize_vring s' index ]
  ]

  unfoldable pub set_vring_call : Handler → ℕ → Option ℕ → Handler × Reply (Unit {0})
  unfolding initialize_vring
  set_vring_call s index file = elim (get_elem? s.vrings index) [
    | none ↦ (s, refuse invalid_param)
    | some v ↦ initialize_vring (put_vring s index (set_call h v file)) index
  ]

  unfoldable pub set_vring_err : Handler → ℕ → Option ℕ → Handler × Reply (Unit {0})
  set_vring_err s index file = elim (get_elem? s.vrings index) [
    | none ↦ (s, refuse invalid_param)
    | some v ↦ (put_vring s index (set_err h v file), reply tt)
  ]

  unfoldable pub set_vring_enable : Handler → ℕ → Bool → Handler × Reply (Unit {0})
  unfolding check_feature
  set_vring_enable s index enable = elim (check_feature h d s (protocol_features_mask h d)) [
    | panic ↦ (s, panic)
    | refuse e ↦ (s, refuse e)
    | reply done ↦ elim (get_elem? s.vrings index) [
      | none ↦ (s, refuse invalid_param)
      | some v ↦ (put_vring s index (set_enabled h v enable), reply tt)
    ]
  ]
