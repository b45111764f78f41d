-- ===== src/Gpu/Device/Laws.antt =====
-- What the GPU device answers to the front-end. (device/virtio-gpu/src/device.rs)
use virtio_device_poc.Base.{
  ℕ, ◌+◌, ◌<◌, ◌≤◌, ◌≡◌, ◌↔◌, refl, ◌∙◌, none, some, List, [], ◌∷◌, ◌++◌, Result, ok, err, drop,
  length, length-append, length-drop, arith,
}
use virtio_device_poc.Base.Bytes.{le_bytes, length-le_bytes}
use virtio_device_poc.Gpu.Layout.{le, struct, ◌&◌}
use virtio_device_poc.Gpu.Config.{GpuConfig}
use virtio_device_poc.Gpu.Device.{
  VirtioGpuConfig, virtio_gpu_config, GpuDevice, read_config, stop, activate, gpu_device,
}
use virtio_device_poc.VhostUser.Host.{Host}
use virtio_device_poc.VhostUser.Vring.{Vring}
use virtio_device_poc.VhostUser.Backend.{VirtioLaws}

length-config : (c : VirtioGpuConfig) → length (virtio_gpu_config.as_bytes c) ≡ 16
unfolding virtio_gpu_config struct ◌&◌ le
length-config c =
    let a = le_bytes 4 c.events_read in
    let b = le_bytes 4 c.events_clear in
    let d = le_bytes 4 c.num_scanouts in
    let e = le_bytes 4 c.num_capsets in
    omega (
      arith,
      length-append a (b ++ (d ++ e)),
      length-append b (d ++ e),
      length-append d e,
      length-le_bytes 4 c.events_read,
      length-le_bytes 4 c.events_clear,
      length-le_bytes 4 c.num_scanouts,
      length-le_bytes 4 c.num_capsets,
    )

module _ {Backend : Type 0} (g : GpuDevice Backend) (offset size : ℕ) where
  -- A read of the configuration is answered exactly if it ends where the configuration does, with
  -- its bytes from the offset on, and panics exactly if it begins beyond the end.
  pub read_config_iff :
      ((bytes : List ℕ)
        → (read_config g offset size ≡ some (ok bytes)) ↔ (
            (offset + size ≡ 16) × (bytes ≡ drop offset (virtio_gpu_config.as_bytes g.virtio_cfg))))
      × ((read_config g offset size ≡ none) ↔ (16 < offset))
  unfolding read_config
  read_config_iff =
      let cfg = virtio_gpu_config.as_bytes g.virtio_cfg in
      let all = length-config g.virtio_cfg in
      let left_over = length-drop offset cfg in
      (
        λ bytes. (λ h. (ground arith, ground arith), λ (e, same). ground arith),
        (λ h. ground arith, λ h. ground arith),
      )

module _ (h : Host) (Backend : Type 0)
    (started : GpuConfig → Backend → h.Mem → Vring h → Vring h → Result (Unit {0}) ℕ) where
  -- The GPU is a lawful virtio device: what it offers is constant.
  pub gpu_device-VirtioLaws : VirtioLaws h (gpu_device h Backend started)
  unfolding gpu_device
  gpu_device-VirtioLaws = record {
    offers-set_acked = λ x f. refl;
    offers-write = λ x o buf. refl;
    offers-activate = λ x y m vs r e. refl;
    offers-reset = λ x. refl;
  }

  activate-takes :
      (g : GpuDevice Backend) (mem : h.Mem) (vrings : List (Vring h))
      → 2 ≤ length vrings
      → (activate h Backend started g mem vrings).0.gpu_backend ≡ none
  unfolding activate
  activate-takes g mem [] few = absurd (omega arith)
  activate-takes g mem (x ∷ []) few = absurd (omega arith)
  activate-takes g mem (x ∷ (y ∷ vrings)) few = ground arith

  activate-without :
      (g : GpuDevice Backend) (mem : h.Mem) (vrings : List (Vring h))
      → 2 ≤ length vrings
      → g.gpu_backend ≡ none
      → activate h Backend started g mem vrings ≡ (g, err 2)
  unfolding activate
  activate-without g mem [] few e = absurd (omega arith)
  activate-without g mem (x ∷ []) few e = absurd (omega arith)
  activate-without g mem (x ∷ (y ∷ vrings)) few e = ground arith

  stop-gpu_backend : (g : GpuDevice Backend) → (stop g).gpu_backend ≡ g.gpu_backend
  unfolding stop
  stop-gpu_backend g = ground arith

  -- With two queues an activation, answered or not, leaves the device without a connection to the
  -- front-end; after a stop every further activation with two queues is refused and changes
  -- nothing.
  pub activate-once :
      (g : GpuDevice Backend) (mem mem' : h.Mem) (vrings vrings' : List (Vring h))
      → 2 ≤ length vrings
      → 2 ≤ length vrings'
      → ((activate h Backend started g mem vrings).0.gpu_backend ≡ none)
        × (activate h Backend started
              (stop (activate h Backend started g mem vrings).0)
              mem'
              vrings'
            ≡ (stop (activate h Backend started g mem vrings).0, err 2))
  activate-once g mem mem' vrings vrings' few few' =
      let taken = activate-takes g mem vrings few in
      let stopped = stop (activate h Backend started g mem vrings).0 in
      (
        taken,
        activate-without stopped mem' vrings' few'
            (stop-gpu_backend (activate h Backend started g mem vrings).0 ∙ taken),
      )
