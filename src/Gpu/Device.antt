-- ===== src/Gpu/Device.antt =====
-- The GPU as a virtio device. (device/virtio-gpu/src/device.rs)
pub mod Laws
use virtio_device_poc.Base.{
  ℕ, ◌+◌, ◌-◌, ◌^◌, ◌≡◌, refl, Bool, true, false, not, Option, none, some, List, [], ◌∷◌, ◌++◌,
  Result, ok, err, ltb, leb, ◌==◌, if◌then◌else◌, bit_and, bit_or, drop, length, get_elem?,
}
use virtio_device_poc.Gpu.Layout.{ByteValued, le32, struct, ◌&◌}
use virtio_device_poc.Gpu.Protocol.Responses.{max_scanouts}
use virtio_device_poc.Gpu.Config.{GpuConfig, num_capsets}
use virtio_device_poc.VhostUser.Host.{Host}
use virtio_device_poc.VhostUser.Vring.{Vring}
use virtio_device_poc.VhostUser.Backend.{VirtioDevice}

pub record VirtioGpuConfig : Type 0 where
  pub events_read : ℕ
  pub events_clear : ℕ
  pub num_scanouts : ℕ
  pub num_capsets : ℕ

unfoldable pub virtio_gpu_config : ByteValued VirtioGpuConfig
unfolding struct ◌&◌
virtio_gpu_config =
    struct
      (λ (events_read, (events_clear, (num_scanouts, num_capsets))). record {
        events_read = events_read;
        events_clear = events_clear;
        num_scanouts = num_scanouts;
        num_capsets = num_capsets;
      })
      (λ r. (r.events_read, (r.events_clear, (r.num_scanouts, r.num_capsets)))) (λ r. refl)
      (le32 & le32 & le32 & le32)

-- VIRTIO_F_VERSION_1, VIRTIO_F_RING_RESET, VIRTIO_F_NOTIFY_ON_EMPTY, VIRTIO_RING_F_INDIRECT_DESC,
-- VIRTIO_RING_F_EVENT_IDX, and VIRTIO_GPU_F_VIRGL, EDID, RESOURCE_BLOB and CONTEXT_INIT.
abbrev pub all_features : ℕ
all_features = bit_or (2 ^ 32) (
    bit_or (2 ^ 40) (
      bit_or (2 ^ 24) (
        bit_or (2 ^ 28)
          (bit_or (2 ^ 29) (bit_or (2 ^ 0) (bit_or (2 ^ 1) (bit_or (2 ^ 3) (2 ^ 4))))))))

-- `running` is whether there is a worker thread, `exits` the count in `exit_event`.
pub record GpuDevice (Backend : Type 0) : Type 0 where
  pub virtio_cfg : VirtioGpuConfig
  pub acked_features : ℕ
  pub running : Bool
  pub exits : ℕ
  pub gpu_backend : Option Backend
  pub gpu_config : GpuConfig

module _ {Backend : Type 0} where
  unfoldable pub new_device : GpuConfig → GpuDevice Backend
  new_device gpu_config = record {
    virtio_cfg = record {
      events_read = 0;
      events_clear = 0;
      num_scanouts = max_scanouts;
      num_capsets = num_capsets gpu_config.capset;
    };
    acked_features = 0;
    running = false;
    exits = 0;
    gpu_backend = none;
    gpu_config = gpu_config;
  }

  unfoldable pub set_gpu_socket : GpuDevice Backend → Backend → GpuDevice Backend
  set_gpu_socket g backend = record g { gpu_backend = some backend }

  unfoldable pub set_acked_features : GpuDevice Backend → ℕ → GpuDevice Backend
  set_acked_features g acked = record g { acked_features = bit_and acked all_features }

  -- `none` is the panic of the slice.
  unfoldable pub read_config : GpuDevice Backend → ℕ → ℕ → Option (Result (List ℕ) ℕ)
  read_config g offset size =
      let cfg = virtio_gpu_config.as_bytes g.virtio_cfg in
      if ltb (length cfg) offset
      then none
      else if length (drop offset cfg) == size
      then some (ok (drop offset cfg))
      else some (err 22)

  unfoldable pub write_config :
      GpuDevice Backend → ℕ → List ℕ → GpuDevice Backend × Result (Unit {0}) ℕ
  write_config g offset buf = (g, err 22)

  -- The worker is told to exit, and joined. Whether it ends is not modelled.
  unfoldable pub stop : GpuDevice Backend → GpuDevice Backend
  stop g = if g.running then record g { running = false; exits = g.exits + 1 } else g

  -- The provided method of the trait.
  unfoldable pub reset : GpuDevice Backend → GpuDevice Backend × Result Bool ℕ
  unfolding stop
  reset g = (stop g, ok false)

module _ (h : Host) (Backend : Type 0)
    (started : GpuConfig → Backend → h.Mem → Vring h → Vring h → Result (Unit {0}) ℕ) where
  -- The two queues and the connection are taken; `started` is what the new thread reports.
  unfoldable pub activate :
      GpuDevice Backend → h.Mem → List (Vring h) → GpuDevice Backend × Result (Unit {0}) ℕ
  activate g mem vrings = elim (get_elem? vrings 0) [
    | none ↦ (g, err 1)
    | some control_queue ↦ elim (get_elem? vrings 1) [
      | none ↦ (g, err 1)
      | some cursor_queue ↦ elim g.gpu_backend [
        | none ↦ (g, err 2)
        | some backend ↦ (
          record g { gpu_backend = none; running = true },
          started g.gpu_config backend mem control_queue cursor_queue,
        )
      ]
    ]
  ]

  unfoldable pub gpu_device : VirtioDevice h
  unfolding set_acked_features read_config write_config activate stop reset
  gpu_device = record {
    State = GpuDevice Backend;
    avail_features = λ g. all_features;
    acked_features = λ g. g.acked_features;
    set_acked_features = set_acked_features;
    queues = λ g. 256 ∷ 256 ∷ [];
    read_config = read_config;
    write_config = write_config;
    activate = λ g mem vrings. some (activate g mem vrings);
    stop = stop;
    reset = reset;
  }
