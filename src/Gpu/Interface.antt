-- ===== src/Gpu/Interface.antt =====
-- The trait VirtioGpu, which the worker calls. (device/virtio-gpu/src/virtio_gpu.rs)
use virtio_device_poc.Base.{ℕ, Bool, Option, some, List, [], ◌∷◌, ◌++◌, ◌≡◌, if◌then◌else◌}
use virtio_device_poc.Gpu.Protocol.Structs.{VirtioGpuRect}
use virtio_device_poc.Gpu.Protocol.Responses.{VirtioGpuResult}
use virtio_device_poc.Gpu.Fences.{VirtioGpuRing, RutabagaFence}

pub record Rectangle : Type 0 where
  pub x : ℕ
  pub y : ℕ
  pub width : ℕ
  pub height : ℕ

abbrev pub rectangle : VirtioGpuRect → Rectangle
rectangle r = record { x = r.x; y = r.y; width = r.width; height = r.height }

-- ResourceCreate3D and Transfer3D of rutabaga_gfx.
pub record ResourceCreate3d : Type 0 where
  pub target : ℕ
  pub format : ℕ
  pub bind : ℕ
  pub width : ℕ
  pub height : ℕ
  pub depth : ℕ
  pub array_size : ℕ
  pub last_level : ℕ
  pub nr_samples : ℕ
  pub flags : ℕ

pub record Transfer3d : Type 0 where
  pub x : ℕ
  pub y : ℕ
  pub z : ℕ
  pub w : ℕ
  pub h : ℕ
  pub d : ℕ
  pub level : ℕ
  pub stride : ℕ
  pub layer_stride : ℕ
  pub offset : ℕ

-- VhostUserGpuCursorPos of vhost.
pub record CursorPos : Type 0 where
  pub scanout_id : ℕ
  pub x : ℕ
  pub y : ℕ

-- A RutabagaIovec: where it lies, and its length.
abbrev pub RutabagaIovec : Type 0
RutabagaIovec = ℕ × ℕ

-- `get_edid` panics where it gives `none`.
pub record VirtioGpu : Type 1 where
  pub Gpu : Type 0
  pub force_ctx_0 : Gpu → Gpu
  pub display_info : Gpu → Gpu × VirtioGpuResult
  pub get_edid : Gpu → ℕ → Option (Gpu × VirtioGpuResult)
  pub set_scanout : Gpu → ℕ → ℕ → Rectangle → Gpu × VirtioGpuResult
  pub resource_create_3d : Gpu → ℕ → ResourceCreate3d → Gpu × VirtioGpuResult
  pub unref_resource : Gpu → ℕ → Gpu × VirtioGpuResult
  pub flush_resource : Gpu → ℕ → Rectangle → Gpu × VirtioGpuResult
  pub transfer_write : Gpu → ℕ → ℕ → Transfer3d → Gpu × VirtioGpuResult
  pub transfer_read : Gpu → ℕ → ℕ → Transfer3d → Gpu × VirtioGpuResult
  pub attach_backing : Gpu → ℕ → List RutabagaIovec → Gpu × VirtioGpuResult
  pub detach_backing : Gpu → ℕ → Gpu × VirtioGpuResult
  pub update_cursor : Gpu → ℕ → CursorPos → ℕ → ℕ → Gpu × VirtioGpuResult
  pub move_cursor : Gpu → ℕ → CursorPos → Gpu × VirtioGpuResult
  pub get_capset_info : Gpu → ℕ → Gpu × VirtioGpuResult
  pub get_capset : Gpu → ℕ → ℕ → Gpu × VirtioGpuResult
  pub create_context : Gpu → ℕ → ℕ → List ℕ → Gpu × VirtioGpuResult
  pub destroy_context : Gpu → ℕ → Gpu × VirtioGpuResult
  pub context_attach_resource : Gpu → ℕ → ℕ → Gpu × VirtioGpuResult
  pub context_detach_resource : Gpu → ℕ → ℕ → Gpu × VirtioGpuResult
  pub submit_command : Gpu → ℕ → List ℕ → List ℕ → Gpu × VirtioGpuResult
  pub create_fence : Gpu → RutabagaFence → Gpu × VirtioGpuResult
  pub process_fence : Gpu → VirtioGpuRing → ℕ → ℕ → ℕ → Gpu × Bool

-- The heads of the chains that fences hold: only `process_fence` adds one, where it answers false.
pub record HoldLaws (v : VirtioGpu) : Type 0 where
  pub held : v.Gpu → List ℕ
  pub force_ctx_0-held : (gpu : v.Gpu) → held (v.force_ctx_0 gpu) ≡ held gpu
  pub get_edid-held :
      (gpu : v.Gpu) (i : ℕ) (r : v.Gpu × VirtioGpuResult)
      → v.get_edid gpu i ≡ some r
      → held r.0 ≡ held gpu
  pub display_info-held : (gpu : v.Gpu) → held (v.display_info gpu).0 ≡ held gpu
  pub set_scanout-held :
      (gpu : v.Gpu) (i j : ℕ) (r : Rectangle) → held (v.set_scanout gpu i j r).0 ≡ held gpu
  pub resource_create_3d-held :
      (gpu : v.Gpu) (i : ℕ) (c : ResourceCreate3d)
      → held (v.resource_create_3d gpu i c).0 ≡ held gpu
  pub unref_resource-held : (gpu : v.Gpu) (i : ℕ) → held (v.unref_resource gpu i).0 ≡ held gpu
  pub flush_resource-held :
      (gpu : v.Gpu) (i : ℕ) (r : Rectangle) → held (v.flush_resource gpu i r).0 ≡ held gpu
  pub transfer_write-held :
      (gpu : v.Gpu) (i j : ℕ) (t : Transfer3d) → held (v.transfer_write gpu i j t).0 ≡ held gpu
  pub transfer_read-held :
      (gpu : v.Gpu) (i j : ℕ) (t : Transfer3d) → held (v.transfer_read gpu i j t).0 ≡ held gpu
  pub attach_backing-held :
      (gpu : v.Gpu) (i : ℕ) (iovecs : List RutabagaIovec)
      → held (v.attach_backing gpu i iovecs).0 ≡ held gpu
  pub detach_backing-held : (gpu : v.Gpu) (i : ℕ) → held (v.detach_backing gpu i).0 ≡ held gpu
  pub update_cursor-held :
      (gpu : v.Gpu) (i : ℕ) (p : CursorPos) (x y : ℕ)
      → held (v.update_cursor gpu i p x y).0 ≡ held gpu
  pub move_cursor-held :
      (gpu : v.Gpu) (i : ℕ) (p : CursorPos) → held (v.move_cursor gpu i p).0 ≡ held gpu
  pub get_capset_info-held : (gpu : v.Gpu) (i : ℕ) → held (v.get_capset_info gpu i).0 ≡ held gpu
  pub get_capset-held : (gpu : v.Gpu) (i j : ℕ) → held (v.get_capset gpu i j).0 ≡ held gpu
  pub create_context-held :
      (gpu : v.Gpu) (i j : ℕ) (name : List ℕ) → held (v.create_context gpu i j name).0 ≡ held gpu
  pub destroy_context-held : (gpu : v.Gpu) (i : ℕ) → held (v.destroy_context gpu i).0 ≡ held gpu
  pub context_attach_resource-held :
      (gpu : v.Gpu) (i j : ℕ) → held (v.context_attach_resource gpu i j).0 ≡ held gpu
  pub context_detach_resource-held :
      (gpu : v.Gpu) (i j : ℕ) → held (v.context_detach_resource gpu i j).0 ≡ held gpu
  pub submit_command-held :
      (gpu : v.Gpu) (i : ℕ) (commands fence_ids : List ℕ)
      → held (v.submit_command gpu i commands fence_ids).0 ≡ held gpu
  pub create_fence-held :
      (gpu : v.Gpu) (fence : RutabagaFence) → held (v.create_fence gpu fence).0 ≡ held gpu
  pub process_fence-held :
      (gpu : v.Gpu) (ring : VirtioGpuRing) (fence_id head len : ℕ)
      → held (v.process_fence gpu ring fence_id head len).0 ≡ (
          if (v.process_fence gpu ring fence_id head len).1
          then held gpu
          else held gpu ++ head ∷ [])
