-- ===== src/VhostUser/Handler/Features.antt =====
-- Ownership, feature negotiation, the configuration space, and the requests that the handler does
-- not support. (vhost-user/src/handler.rs)
use virtio_device_poc.Base.{
  ℕ, ◌-◌, ◌^◌, Bool, true, false, not, Option, none, some, List, [], ◌∷◌, map, ok, err, ◌==◌,
  if◌then◌else◌, bit_and, length,
}
use virtio_device_poc.VhostUser.Host.{Host}
use virtio_device_poc.VhostUser.Vring.{Vring, World, set_enabled, stop}
use virtio_device_poc.VhostUser.Handler.Types.{
  already_claimed, not_supported, invalid_operation, invalid_param, backend_internal_error,
  inactive_feature, Reply, reply, refuse, panic, Device, VhostUserHandler,
}

-- `!x` on u64.
abbrev pub complement : ℕ → ℕ
complement x = 2 ^ 64 - 1 - x

module _ (h : Host) (d : Device h) where
  abbrev Handler : Type 0
  Handler = VhostUserHandler h d

  abbrev pub protocol_features_mask : ℕ
  protocol_features_mask = 2 ^ h.protocol_features_bit

  unfoldable pub check_feature : Handler → ℕ → Reply (Unit {0})
  check_feature s feat =
      if not (bit_and s.acked_features feat == 0) then reply tt else refuse (inactive_feature feat)

  unfoldable pub set_owner : Handler → Handler × Reply (Unit {0})
  set_owner s =
      if s.owned
      then (s, refuse (invalid_operation already_claimed))
      else (record s { owned = true }, reply tt)

  unfoldable pub reset_owner : Handler → Handler × Reply (Unit {0})
  reset_owner s = (
    record s {
      owned = false;
      features_acked = false;
      acked_features = 0;
      acked_protocol_features = 0;
    },
    reply tt,
  )

  -- The loop of `reset_device`: `none` is the panic of a failed stop.
  unfoldable pub stop_all : List (Vring h) → World h → Option (List (Vring h) × World h)
  stop_all [] w = some ([], w)
  stop_all (v ∷ vs) w =
      let (v', w', r) = stop h (set_enabled h v false) w in
      let rest = stop_all vs w' in
      elim r [
        | err x ↦ none
        | ok done ↦ elim rest [ none ↦ none | some (vs', w'') ↦ some (v' ∷ vs', w'') ]
      ]

  unfoldable pub reset_device : Handler → Handler × Reply (Unit {0})
  unfolding stop_all
  reset_device s = elim (stop_all s.vrings s.world) [
    | none ↦ (s, panic)
    | some (vs, w) ↦
        let (device, r) = d.reset s.device in
        let s' : Handler = record s {
          vrings = vs;
          world = w;
          features_acked = false;
          acked_features = 0;
          device = device;
        } in
        elim r [ err x ↦ (s', panic) | ok again ↦ (s', reply tt) ]
  ]

  unfoldable pub get_features : Handler → Handler × Reply ℕ
  get_features s = (s, reply (d.avail_features s.device))

  unfoldable pub enable_all : List (Vring h) → List (Vring h)
  enable_all = map (λ v. set_enabled h v true)

  unfoldable pub set_event_idx_all : Bool → List (Vring h) → List (Vring h)
  set_event_idx_all b = map (λ (v : Vring h). record v { queue = h.set_event_idx v.queue b })

  -- Without PROTOCOL_FEATURES the rings are enabled at once.
  unfoldable pub negotiated_vrings : ℕ → List (Vring h) → List (Vring h)
  unfolding enable_all set_event_idx_all
  negotiated_vrings features vs =
      let enabled = if bit_and features protocol_features_mask == 0 then enable_all vs else vs in
      set_event_idx_all (not (bit_and features (2 ^ h.event_idx_bit) == 0)) enabled

  unfoldable pub set_features : Handler → ℕ → Handler × Reply (Unit {0})
  unfolding negotiated_vrings
  set_features s features =
      if not (bit_and features (complement (d.avail_features s.device)) == 0)
      then (s, refuse invalid_param)
      else (let s' : Handler = record s {
        acked_features = features;
        features_acked = true;
        vrings = negotiated_vrings features s.vrings;
      } in
          elim (d.set_acked_features s.device features) [
            | none ↦ (s', panic)
            | some device ↦ (record s' { device = device }, reply tt)
          ])

  unfoldable pub get_protocol_features : Handler → Handler × Reply ℕ
  get_protocol_features s = (s, reply (d.protocol_features s.device))

  unfoldable pub set_protocol_features : Handler → ℕ → Handler × Reply (Unit {0})
  set_protocol_features s features = (record s { acked_protocol_features = features }, reply tt)

  unfoldable pub get_queue_num : Handler → Handler × Reply ℕ
  get_queue_num s = (s, reply (length s.requested_queues))

  unfoldable pub get_config : Handler → ℕ → ℕ → Handler × Reply (List ℕ)
  get_config s offset size = elim (d.read_config s.device offset size) [
    | none ↦ (s, panic)
    | some r ↦ elim r [ ok bytes ↦ (s, reply bytes) | err e ↦ (s, refuse backend_internal_error) ]
  ]

  unfoldable pub set_config : Handler → ℕ → List ℕ → Handler × Reply (Unit {0})
  set_config s offset buf =
      let (device, r) = d.write_config s.device offset buf in
      let s' : Handler = record s { device = device } in
      elim r [ ok done ↦ (s', reply tt) | err e ↦ (s', refuse backend_internal_error) ]

  unfoldable pub set_gpu_socket : Handler → ℕ → Handler × Reply (Unit {0})
  set_gpu_socket s gpu_backend =
      (record s { device = d.set_gpu_socket s.device gpu_backend }, reply tt)

  unfoldable pub get_inflight_fd : Handler → Handler × Reply (Unit {0})
  get_inflight_fd s = (s, refuse (invalid_operation not_supported))

  unfoldable pub set_inflight_fd : Handler → Handler × Reply (Unit {0})
  set_inflight_fd s = (s, refuse (invalid_operation not_supported))

  unfoldable pub get_max_mem_slots : Handler → Handler × Reply ℕ
  get_max_mem_slots s = (s, reply 509)

  -- `todo!()`
  unfoldable pub set_device_state_fd : Handler → Handler × Reply (Unit {0})
  set_device_state_fd s = (s, panic)

  unfoldable pub check_device_state : Handler → Handler × Reply (Unit {0})
  check_device_state s = (s, panic)
