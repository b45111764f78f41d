-- ===== src/VhostUser/Host.antt =====
-- What the vhost-user crate calls and does not implement: the queues of virtio-queue, the guest
-- memory of vm-memory, the epoll instances and event counters of vmm-sys-util. An error of theirs
-- is a number; a raw file descriptor is a number.
use virtio_device_poc.Base.{ℕ, ◌≡◌, ◌≢◌, Bool, Option, none, some, List, Result, ok}

-- `EventFd::read`: a count, EAGAIN, or another error.
pub data ReadResult : Type 0 where
  got : ℕ → ReadResult
  would_block : ReadResult
  failed : ℕ → ReadResult

pub record Host : Type 1 where
  -- virtio_queue::Queue
  pub Queue : Type 0
  pub new_queue : ℕ → Result Queue ℕ
  pub ready : Queue → Bool
  pub set_ready : Queue → Bool → Queue
  pub set_size : Queue → ℕ → Queue
  pub set_event_idx : Queue → Bool → Queue
  pub try_set_desc_table_address : Queue → ℕ → Result Queue ℕ
  pub try_set_avail_ring_address : Queue → ℕ → Result Queue ℕ
  pub try_set_used_ring_address : Queue → ℕ → Result Queue ℕ
  pub next_avail : Queue → ℕ
  pub set_next_avail : Queue → ℕ → Queue
  pub set_next_used : Queue → ℕ → Queue
  -- vm_memory: guest memory, its regions (as start and length), and mmap of a region or of the log
  -- from a file
  pub Mem : Type 0
  pub Region : Type 0
  pub mmap_region : ℕ → ℕ → ℕ → Result Region ℕ
  pub new_region : Region → ℕ → Result Region ℕ
  pub from_regions : List Region → Result Mem ℕ
  pub insert_region : Mem → Region → Result Mem ℕ
  pub remove_region : Mem → ℕ → ℕ → Result Mem ℕ
  pub used_idx : Queue → Mem → Result ℕ ℕ
  pub regions : Mem → List (ℕ × ℕ)
  pub mmap : ℕ → ℕ → ℕ → Result (List ℕ) ℕ
  -- the bits VIRTIO_RING_F_EVENT_IDX and VHOST_USER_F_PROTOCOL_FEATURES of a feature set
  pub event_idx_bit : ℕ
  pub protocol_features_bit : ℕ
  -- vmm_sys_util::epoll::Epoll: `watched e fd` is the token that fd is registered with
  pub Epoll : Type 0
  pub watched : Epoll → ℕ → Option ℕ
  pub ctl_add : Epoll → ℕ → ℕ → Result Epoll ℕ
  pub ctl_delete : Epoll → ℕ → Result Epoll ℕ
  -- vmm_sys_util::eventfd::EventFd: all counters together
  pub Events : Type 0
  pub event_write : Events → ℕ → Result Events ℕ
  pub event_read : Events → ℕ → Events × ReadResult

-- What is documented of a queue's `ready` flag and its indices.
pub record QueueLaws (h : Host) : Type 0 where
  pub ready-set_ready : (q : h.Queue) (b : Bool) → h.ready (h.set_ready q b) ≡ b
  pub ready-set_event_idx : (q : h.Queue) (b : Bool) → h.ready (h.set_event_idx q b) ≡ h.ready q
  pub ready-set_size : (q : h.Queue) (n : ℕ) → h.ready (h.set_size q n) ≡ h.ready q
  pub ready-set_next_avail : (q : h.Queue) (n : ℕ) → h.ready (h.set_next_avail q n) ≡ h.ready q
  pub next_avail-set_ready :
      (q : h.Queue) (b : Bool) → h.next_avail (h.set_ready q b) ≡ h.next_avail q
  pub next_avail-set_next_avail : (q : h.Queue) (n : ℕ) → h.next_avail (h.set_next_avail q n) ≡ n

-- What epoll_ctl(2) documents: EPOLL_CTL_ADD of a new descriptor, EPOLL_CTL_DEL of a present one.
pub record EpollLaws (h : Host) : Type 0 where
  pub add_new :
      (e : h.Epoll) (fd token : ℕ)
      → h.watched e fd ≡ none
      → (e' : h.Epoll) × (h.ctl_add e fd token ≡ ok e')
        × (h.watched e' fd ≡ some token)
        × ((other : ℕ) → other ≢ fd → h.watched e' other ≡ h.watched e other)
  pub delete_present :
      (e : h.Epoll) (fd token : ℕ)
      → h.watched e fd ≡ some token
      → (e' : h.Epoll) × (h.ctl_delete e fd ≡ ok e')
        × (h.watched e' fd ≡ none)
        × ((other : ℕ) → other ≢ fd → h.watched e' other ≡ h.watched e other)
