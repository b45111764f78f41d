-- ===== src/Tests/Handling.antt =====
-- A handler with two rings, and a device that does nothing but answer.
use virtio_device_poc.Base.{
  ℕ, ◌+◌, ◌≡◌, ◌≤◌, ◌<◌, ◌^◌, ◌↔◌, refl, Bool, true, false, some, none, ok, err, List, [], ◌∷◌,
  ◌++◌, ◌≢◌, arith, get_elem?, map,
}
use virtio_device_poc.VhostUser.Vring.{Vring, new, is_started, try_lock_queue}
use virtio_device_poc.VhostUser.Vring.Epolls.{AllEntries}
use virtio_device_poc.VhostUser.Vring.Tracked.{IsWatching}
use virtio_device_poc.VhostUser.Handler.Types.{
  Device, DeviceLaws, VhostUserHandler, new_handler, new_vrings, reply,
}
use virtio_device_poc.VhostUser.Handler.Memory.{
  MemoryRegion, mapping_of, map_regions, guest_region, set_mem_table, add_mem_region,
  remove_mem_region, vmm_va_to_gpa, set_log_base,
}
use virtio_device_poc.VhostUser.Handler.Rings.{
  activate_device, set_vring_num, get_vring_base, set_vring_kick,
}
use virtio_device_poc.VhostUser.Handler.Features.{set_features}
use virtio_device_poc.VhostUser.Handler.Dispatch
use virtio_device_poc.VhostUser.Handler.Dispatch.{Request, serve}
use virtio_device_poc.VhostUser.Handler.Keeps.Requests.{
  IsConsistent, serve-IsConsistent, serve-activated,
}
use virtio_device_poc.VhostUser.Handler.Translation.{
  AnyMapping, IsAt, set_mem_table-translates, add-remove_mem_region,
}
use virtio_device_poc.VhostUser.Handler.RingLaws.{set_vring_num_iff, KeepsOthers, IsTrackedRing}
use virtio_device_poc.VhostUser.Handler.RingLaws.Stopping.{get_vring_base-stops}
use virtio_device_poc.VhostUser.Handler.RingLaws.Starting.{set_vring_kick-starts, IsStartedWith}
use virtio_device_poc.VhostUser.Handler.Negotiation.{IsNegotiated, set_features-negotiates}
use virtio_device_poc.VhostUser.Handler.Logging.{IsLoggedAllOrNothing, set_log_base-all_or_nothing}
use virtio_device_poc.Tests.Model.{toy, toy_queues, toy_epolls, new_toy_queue}
use virtio_device_poc.Tests.Rings.{ring, world, ring-IsTracked, nine_is_free}

-- It offers PROTOCOL_FEATURES and EVENT_IDX; its state counts its activations.
abbrev pub offered : ℕ
offered = 2 ^ 29 + 2 ^ 30

abbrev pub counter : Device toy
counter = record {
  State = ℕ;
  protocol_features = λ s. 0;
  avail_features = λ s. offered;
  set_acked_features = λ s features. some s;
  queues = λ s. 16 ∷ 16 ∷ [];
  read_config = λ s offset size. some (err 22);
  write_config = λ s offset buf. (s, ok tt);
  activate = λ s mem vrings. some (s + 1, ok tt);
  stop = λ s. s;
  reset = λ s. (s, ok true);
  set_gpu_socket = λ s backend. s;
}

counter_laws : DeviceLaws toy counter
counter_laws = record {
  offers-set_acked = λ x y features e. refl;
  offers-write = λ x offset buf. refl;
  offers-activate = λ x y mem vrings r e. refl;
  offers-reset = λ x. refl;
  offers-set_gpu_socket = λ x backend. refl;
}

abbrev pub handler : Bool → VhostUserHandler toy counter
handler started = record {
  device = 0;
  device_activated = false;
  memory_updated = true;
  requested_queues = 16 ∷ 16 ∷ [];
  owned = true;
  features_acked = true;
  acked_features = 2 ^ 30;
  acked_protocol_features = 0;
  mappings = [];
  atomic_mem = (0x4000, 0x8000) ∷ [];
  vrings = ring started ∷ ring false ∷ [];
  world = world started;
  log = [];
  installed = λ start. none;
}

abbrev idle_ring : Vring toy
idle_ring = record {
  queue = new_toy_queue 16;
  enabled = false;
  kick = none;
  call = none;
  error = none;
  epolls = [];
}

abbrev fresh : VhostUserHandler toy counter
fresh = record {
  device = 0;
  device_activated = false;
  memory_updated = false;
  requested_queues = 16 ∷ 16 ∷ [];
  owned = false;
  features_acked = false;
  acked_features = 0;
  acked_protocol_features = 0;
  mappings = [];
  atomic_mem = [];
  vrings = idle_ring ∷ idle_ring ∷ [];
  world = world false;
  log = [];
  installed = λ start. none;
}

fresh_is_new : new_handler toy counter 0 [] (world false) ≡ ok fresh
unfolding new_handler new_vrings new
fresh_is_new = refl

abbrev start_up : List Request
start_up =
    Dispatch.set_owner
    ∷ Dispatch.set_features (2 ^ 30)
    ∷ Dispatch.set_vring_num 0 8
    ∷ Dispatch.set_vring_kick 0 (some 5)
    ∷ []

serve-IsConsistent_example :
    IsConsistent toy counter counter_laws (serve toy counter fresh start_up)
serve-IsConsistent_example =
    serve-IsConsistent toy counter counter_laws 0 [] (world false) fresh start_up fresh_is_new

abbrev active : VhostUserHandler toy counter
active = record (handler true) { device_activated = true }

serve-activated_example :
    let s = serve toy counter active (Dispatch.reset_device ∷ []) in
    (s.device_activated ≡ true) × (activate_device toy counter s ≡ (s, reply tt))
serve-activated_example =
    serve-activated toy counter counter_laws active (Dispatch.reset_device ∷ []) refl

abbrev low_region : MemoryRegion
low_region = record {
  guest_phys_addr = 0x4000;
  memory_size = 0x8000;
  user_addr = 0x7f0000;
  mmap_offset = 0;
}

set_mem_table_answers :
    (set_mem_table toy counter (handler true) (low_region ∷ []) (3 ∷ [])).1 ≡ reply tt
unfolding set_mem_table map_regions guest_region
set_mem_table_answers = refl

set_mem_table-translates_example :
    let s = (set_mem_table toy counter (handler true) (low_region ∷ []) (3 ∷ [])).0 in
    (vmm_va_to_gpa toy counter s 0x7f0010 ≡ ok 0x4010)
    ↔ AnyMapping (IsAt 0x7f0010 0x4010) (map mapping_of (low_region ∷ []))
set_mem_table-translates_example =
    set_mem_table-translates toy counter (handler true) (low_region ∷ []) (3 ∷ []) refl
      ((omega arith, omega arith), tt) (tt, tt) set_mem_table_answers 0x7f0010 0x4010

add_answers : (add_mem_region toy counter (handler true) low_region 3).1 ≡ reply tt
unfolding add_mem_region guest_region
add_answers = refl

remove_answers :
    (remove_mem_region toy counter
      (add_mem_region toy counter (handler true) low_region 3).0
      low_region).1
    ≡ reply tt
unfolding remove_mem_region add_mem_region
remove_answers = refl

add-remove_mem_region_example :
    ((add_mem_region toy counter (handler true) low_region 3).0.mappings
      ≡ [] ++ mapping_of low_region ∷ [])
    × ((add_mem_region toy counter (handler true) low_region 3).0.installed
          low_region.guest_phys_addr
        ≡ none)
    × ((remove_mem_region toy counter
          (add_mem_region toy counter (handler true) low_region 3).0
          low_region).0.mappings
        ≡ [])
    × ((remove_mem_region toy counter
            (add_mem_region toy counter (handler true) low_region 3).0
            low_region).0.installed
          low_region.guest_phys_addr
        ≡ none)
    × ((start : ℕ)
        → start ≢ low_region.guest_phys_addr
        → (remove_mem_region toy counter
              (add_mem_region toy counter (handler true) low_region 3).0
              low_region).0.installed
            start
          ≡ (handler true).installed start)
add-remove_mem_region_example =
    add-remove_mem_region toy counter (handler true) low_region 3 tt add_answers remove_answers

set_vring_num_iff_example : ((set_vring_num toy counter (handler true) 1 8).1 ≡ reply tt) ↔ (
    (max_size : ℕ) × (get_elem? (handler true).requested_queues 1 ≡ some max_size)
    × (0 < 8)
    × (8 ≤ max_size))
set_vring_num_iff_example = set_vring_num_iff toy counter (handler true) 1 8 refl

get_vring_base-stops_example :
    ((get_vring_base toy counter (handler true) 0).1 ≡ reply (0, 0))
    × KeepsOthers toy counter 0 (handler true) (get_vring_base toy counter (handler true) 0).0
    × ((v' : Vring toy) × (get_elem? (get_vring_base toy counter (handler true) 0).0.vrings 0
          ≡ some v')
        × (is_started toy v' ≡ false)
        × (v'.kick ≡ none)
        × (v'.call ≡ none)
        × (try_lock_queue toy v' ≡ none)
        × IsTrackedRing toy counter toy_epolls toy_queues v'
            (get_vring_base toy counter (handler true) 0).0.world)
    × AllEntries
        (IsWatching toy toy_epolls toy_queues false
          (ring true).kick
          (get_vring_base toy counter (handler true) 0).0.world)
        (ring true).epolls
get_vring_base-stops_example =
    get_vring_base-stops toy counter toy_epolls toy_queues (handler true) 0 (ring true) refl
      (ring-IsTracked true) (unfold is_started in refl)

set_vring_kick-starts_example :
    IsStartedWith toy counter toy_epolls toy_queues 0 9
      (handler false)
      (set_vring_kick toy counter (handler false) 0 (some 9))
set_vring_kick-starts_example =
    set_vring_kick-starts toy counter toy_epolls toy_queues (handler false) 0 9 (ring false) refl
      (ring-IsTracked false) (unfold is_started in refl) (nine_is_free false, tt)

set_features-negotiates_example :
    IsNegotiated toy counter
      (handler true)
      (2 ^ 29)
      (set_features toy counter (handler true) (2 ^ 29))
set_features-negotiates_example = set_features-negotiates toy counter (handler true) (2 ^ 29)

set_log_base-all_or_nothing_example :
    IsLoggedAllOrNothing toy counter (handler true) (set_log_base toy counter (handler true) 7 0 16)
set_log_base-all_or_nothing_example = set_log_base-all_or_nothing toy counter (handler true) 7 0 16
