-- ===== src/VhostUser/Handler/Types.antt =====
-- The handler's state, its errors and its replies, and the device that it drives.
-- (vhost-user/src/handler.rs; the trait VhostUserDevice is in vhost-user/src/backend.rs)
use virtio_device_poc.Base.{
  ℕ, ◌≡◌, Bool, Option, none, some, List, [], ◌∷◌, Result, ok, ◌>>=◌, false,
}
use virtio_device_poc.VhostUser.Host.{Host}
use virtio_device_poc.VhostUser.Vring.{Vring, World, new}
use virtio_device_poc.VhostUser.Bitmap.{AtomicBitmapMmap, LogMem, IoError}

pub data Reason : Type 0 where
  already_claimed not_supported : Reason

pub data Cause : Type 0 where
  missing_memory_mapping : Cause
  memory_error : ℕ → Cause
  log_error : IoError → Cause

-- The errors of vhost::vhost_user that the handler answers with.
pub data VhostUserError : Type 0 where
  invalid_operation : Reason → VhostUserError
  invalid_param backend_internal_error : VhostUserError
  inactive_feature : ℕ → VhostUserError
  mmap_error : ℕ → VhostUserError
  req_handler_error : Cause → VhostUserError

-- An answer, an error, or a panic (an `unwrap` of an error, an index out of range).
pub data Reply (A : Type 0) : Type 0 where
  reply : A → Reply A
  refuse : VhostUserError → Reply A
  panic : Reply A

pub record AddrMapping : Type 0 where
  pub vmm_addr : ℕ
  pub size : ℕ
  pub gpa_base : ℕ

-- A VhostUserDevice. `none` is a panic of the device.
pub record Device (h : Host) : Type 1 where
  pub State : Type 0
  pub protocol_features : State → ℕ
  pub avail_features : State → ℕ
  pub set_acked_features : State → ℕ → Option State
  pub queues : State → List ℕ
  pub read_config : State → ℕ → ℕ → Option (Result (List ℕ) ℕ)
  pub write_config : State → ℕ → List ℕ → State × Result (Unit {0}) ℕ
  pub activate : State → h.Mem → List (Vring h) → Option (State × Result (Unit {0}) ℕ)
  pub stop : State → State
  pub reset : State → State × Result Bool ℕ
  pub set_gpu_socket : State → ℕ → State

-- The offered features do not depend on what the device went through.
pub record DeviceLaws (h : Host) (d : Device h) : Type 0 where
  pub offers-set_acked :
      (x y : d.State) (features : ℕ)
      → d.set_acked_features x features ≡ some y
      → d.avail_features y ≡ d.avail_features x
  pub offers-write :
      (x : d.State) (offset : ℕ) (buf : List ℕ)
      → d.avail_features (d.write_config x offset buf).0 ≡ d.avail_features x
  pub offers-activate :
      (x y : d.State) (mem : h.Mem) (vrings : List (Vring h)) (r : Result (Unit {0}) ℕ)
      → d.activate x mem vrings ≡ some (y, r)
      → d.avail_features y ≡ d.avail_features x
  pub offers-reset : (x : d.State) → d.avail_features (d.reset x).0 ≡ d.avail_features x
  pub offers-set_gpu_socket :
      (x : d.State) (gpu_backend : ℕ)
      → d.avail_features (d.set_gpu_socket x gpu_backend) ≡ d.avail_features x

module _ (h : Host) (d : Device h) where
  -- VhostUserHandler without the optional postcopy support. `world` is what the rings share with
  -- the workers; `log` and `installed` are the migration log and the bitmaps of the regions, by
  -- the region's start.
  pub record VhostUserHandler : Type 0 where
    pub device : d.State
    pub device_activated : Bool
    pub memory_updated : Bool
    pub requested_queues : List ℕ
    pub owned : Bool
    pub features_acked : Bool
    pub acked_features : ℕ
    pub acked_protocol_features : ℕ
    pub mappings : List AddrMapping
    pub atomic_mem : h.Mem
    pub vrings : List (Vring h)
    pub world : World h
    pub log : LogMem
    pub installed : ℕ → Option AtomicBitmapMmap

  -- `collect` of the rings: the first error ends it.
  unfoldable pub new_vrings : List ℕ → Result (List (Vring h)) ℕ
  new_vrings [] = ok []
  new_vrings (q ∷ qs) = new h q >>= λ v. new_vrings qs >>= λ vs. ok (v ∷ vs)

  -- `VhostUserHandler::new`: CreateVring is the only error.
  unfoldable pub new_handler : d.State → h.Mem → World h → Result VhostUserHandler ℕ
  unfolding new_vrings
  new_handler device mem world = new_vrings (d.queues device) >>= λ vrings. ok (record {
    device = device;
    device_activated = false;
    memory_updated = false;
    requested_queues = d.queues device;
    owned = false;
    features_acked = false;
    acked_features = 0;
    acked_protocol_features = 0;
    mappings = [];
    atomic_mem = mem;
    vrings = vrings;
    world = world;
    log = [];
    installed = λ start. none;
  })
