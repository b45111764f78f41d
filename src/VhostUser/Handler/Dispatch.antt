-- ===== src/VhostUser/Handler/Dispatch.antt =====
-- The requests of the front-end, and the handler's method for each of them.
-- (vhost-user/src/handler.rs, the implementation of VhostUserBackendReqHandlerMut)
use virtio_device_poc.Base.{ℕ, Bool, Option, List, [], ◌∷◌}
use virtio_device_poc.VhostUser.Host.{Host}
use virtio_device_poc.VhostUser.Handler.Types.{
  Reply, reply, refuse, panic, Device, VhostUserHandler,
}
use virtio_device_poc.VhostUser.Handler.Features
use virtio_device_poc.VhostUser.Handler.Memory
use virtio_device_poc.VhostUser.Handler.Memory.{MemoryRegion}
use virtio_device_poc.VhostUser.Handler.Rings

pub data Request : Type 0 where
  set_owner reset_owner reset_device get_features : Request
  set_features : ℕ → Request
  set_mem_table : List MemoryRegion → List ℕ → Request
  set_vring_num set_vring_base : ℕ → ℕ → Request
  set_vring_addr : ℕ → ℕ → ℕ → ℕ → Request
  get_vring_base : ℕ → Request
  set_vring_kick set_vring_call set_vring_err : ℕ → Option ℕ → Request
  get_protocol_features : Request
  set_protocol_features : ℕ → Request
  get_queue_num : Request
  set_vring_enable : ℕ → Bool → Request
  get_config : ℕ → ℕ → Request
  set_config : ℕ → List ℕ → Request
  set_gpu_socket : ℕ → Request
  get_inflight_fd set_inflight_fd get_max_mem_slots : Request
  add_mem_region : MemoryRegion → ℕ → Request
  remove_mem_region : MemoryRegion → Request
  set_device_state_fd check_device_state : Request
  set_log_base : ℕ → ℕ → ℕ → Request

-- What an answer carries.
pub data Answer : Type 0 where
  acknowledged : Answer
  number : ℕ → Answer
  state : ℕ × ℕ → Answer
  bytes : List ℕ → Answer

abbrev pub answer_with : {S A : Type 0} → (A → Answer) → S × Reply A → S × Reply Answer
answer_with f (s, reply a) = (s, reply (f a))
answer_with f (s, refuse e) = (s, refuse e)
answer_with f (s, panic) = (s, panic)

abbrev pub acknowledge : {S : Type 0} → S × Reply (Unit {0}) → S × Reply Answer
acknowledge = answer_with (λ done. acknowledged)

module _ (h : Host) (d : Device h) where
  abbrev Handler : Type 0
  Handler = VhostUserHandler h d

  unfoldable pub handle : Handler → Request → Handler × Reply Answer
  handle s set_owner = acknowledge (Features.set_owner h d s)
  handle s reset_owner = acknowledge (Features.reset_owner h d s)
  handle s reset_device = acknowledge (Features.reset_device h d s)
  handle s get_features = answer_with number (Features.get_features h d s)
  handle s (set_features features) = acknowledge (Features.set_features h d s features)
  handle s (set_mem_table ctx files) = acknowledge (Memory.set_mem_table h d s ctx files)
  handle s (set_vring_num index num) = acknowledge (Rings.set_vring_num h d s index num)
  handle s (set_vring_base index base) = acknowledge (Rings.set_vring_base h d s index base)
  handle s (set_vring_addr index descriptor used available) =
      acknowledge (Rings.set_vring_addr h d s index descriptor used available)
  handle s (get_vring_base index) = answer_with state (Rings.get_vring_base h d s index)
  handle s (set_vring_kick index file) = acknowledge (Rings.set_vring_kick h d s index file)
  handle s (set_vring_call index file) = acknowledge (Rings.set_vring_call h d s index file)
  handle s (set_vring_err index file) = acknowledge (Rings.set_vring_err h d s index file)
  handle s get_protocol_features = answer_with number (Features.get_protocol_features h d s)
  handle s (set_protocol_features features) =
      acknowledge (Features.set_protocol_features h d s features)
  handle s get_queue_num = answer_with number (Features.get_queue_num h d s)
  handle s (set_vring_enable index enable) = acknowledge (Rings.set_vring_enable h d s index enable)
  handle s (get_config offset size) = answer_with bytes (Features.get_config h d s offset size)
  handle s (set_config offset buf) = acknowledge (Features.set_config h d s offset buf)
  handle s (set_gpu_socket backend) = acknowledge (Features.set_gpu_socket h d s backend)
  handle s get_inflight_fd = acknowledge (Features.get_inflight_fd h d s)
  handle s set_inflight_fd = acknowledge (Features.set_inflight_fd h d s)
  handle s get_max_mem_slots = answer_with number (Features.get_max_mem_slots h d s)
  handle s (add_mem_region r file) = acknowledge (Memory.add_mem_region h d s r file)
  handle s (remove_mem_region r) = acknowledge (Memory.remove_mem_region h d s r)
  handle s set_device_state_fd = acknowledge (Features.set_device_state_fd h d s)
  handle s check_device_state = acknowledge (Features.check_device_state h d s)
  handle s (set_log_base file mmap_offset mmap_size) =
      acknowledge (Memory.set_log_base h d s file mmap_offset mmap_size)

  -- A connection: requests, until one of them panics.
  unfoldable pub serve : Handler → List Request → Handler
  unfolding handle
  serve s [] = s
  serve s (r ∷ rs) = elim (handle s r).1 [ panic ↦ (handle s r).0 | _ ↦ serve (handle s r).0 rs ]
