-- ===== src/Tests/Screens.antt =====
-- A flush of a shown resource, and a GPU device with its configuration.
use virtio_device_poc.Base.{
  ℕ, ◌+◌, ◌<◌, ◌≡◌, ◌↔◌, refl, true, none, some, List, [], ◌∷◌, ◌++◌, map, length, ok, err, drop,
  arith,
}
use virtio_device_poc.Base.Bits.{bit}
use virtio_device_poc.Gpu.Interface.{Rectangle}
use virtio_device_poc.Gpu.Protocol.Responses.{ok_no_data}
use virtio_device_poc.Gpu.Scanouts.{
  GpuHost, RutabagaVirtioGpu, ScanoutUpdate, VirtioGpuResource, new_gpu, resource_create_3d,
  set_scanout, leave_resource, enable_scanout, announce_scanout, put_resource,
}
use virtio_device_poc.Gpu.Listing.{Shows}
use virtio_device_poc.Gpu.Linked.{IsLinked}
use virtio_device_poc.Gpu.Reachable.{IsReachable, reset, scanout_set, created, IsReachable-IsLinked}
use virtio_device_poc.Gpu.Rutabaga.{flush_resource}
use virtio_device_poc.Gpu.Rutabaga.Flushed.{IsAmong, Ascends, flush_resource-updates}
use virtio_device_poc.Gpu.Config.{
  virgl_renderer, CapsetNumbers, new_default, GpuConfig, capset_or_default, all_capsets, new,
}
use virtio_device_poc.Gpu.Config.Laws.{Within, new_iff}
use virtio_device_poc.Gpu.Device.{GpuDevice, new_device, virtio_gpu_config, read_config}
use virtio_device_poc.Gpu.Device.Laws.{read_config_iff}
use virtio_device_poc.Tests.Displays.{screen, texture}

-- A front-end that keeps the updates.
abbrev monitors : GpuHost
monitors = record screen {
  Rutabaga = ℕ;
  GpuBackend = List ScanoutUpdate;
  set_scanout = λ x id width height. (x, ok tt);
  get_display_info = λ x. (x, ok []);
  get_edid = λ x id. (x, err 0);
  update_scanout = λ x update bytes. (x ++ update ∷ [], ok tt);
  cursor_update = λ x pos hot_x hot_y bytes. (x, ok tt);
  cursor_pos = λ x pos. (x, ok tt);
  cursor_pos_hide = λ x pos. (x, ok tt);
}

abbrev made : RutabagaVirtioGpu monitors
made = (resource_create_3d monitors (new_gpu monitors 0 []) 7 texture).0

abbrev shown : RutabagaVirtioGpu monitors
shown = (set_scanout monitors made 2 7 640 480).0

is_answered : (set_scanout monitors made 2 7 640 480).1 ≡ ok ok_no_data
unfolding new_gpu resource_create_3d set_scanout leave_resource enable_scanout announce_scanout
    put_resource
is_answered = refl

made-IsReachable : IsReachable monitors made
unfolding new_gpu
made-IsReachable = created (new_gpu monitors 0 []) 7 texture (reset 0 []) refl

shown-IsLinked : IsLinked monitors shown
shown-IsLinked =
    IsReachable-IsLinked monitors shown (scanout_set made 2 7 640 480 made-IsReachable is_answered)

abbrev picture : VirtioGpuResource
picture = record { id = 7; width = 640; height = 480; scanouts = 4 }

has_picture : shown.resources 7 ≡ some picture
unfolding new_gpu resource_create_3d set_scanout leave_resource enable_scanout announce_scanout
    put_resource
has_picture = refl

length-shown : length shown.scanouts ≡ 16
unfolding new_gpu resource_create_3d set_scanout leave_resource enable_scanout announce_scanout
length-shown = refl

abbrev everything : Rectangle
everything = record { x = 0; y = 0; width = 640; height = 480 }

flush_resource-updates_example :
    (ids : List ℕ) × ((flush_resource monitors shown 7 everything).1 ≡ ok ok_no_data)
    × ((flush_resource monitors shown 7 everything).0.gpu_backend
        ≡ shown.gpu_backend
          ++ map (λ i. record { scanout_id = i; x = 0; y = 0; width = 640; height = 480 }) ids)
    × Ascends 0 ids
    × ((i : ℕ) → IsAmong i ids ↔ Shows shown.scanouts i 7)
flush_resource-updates_example =
    flush_resource-updates monitors (λ x. x) (λ x id t len. ([], refl)) (λ x u bytes. (refl, refl))
      shown 7 everything picture shown-IsLinked length-shown (λ e. omega arith) has_picture
      (omega arith)

abbrev numbers : CapsetNumbers
numbers = record { virgl = 1; virgl2 = 2; gfxstream_vulkan = 3; gfxstream_gles = 8 }

abbrev accepted : GpuConfig
accepted = record { gpu_mode = virgl_renderer; capset = 4; flags = new_default }

new_iff_example : (new numbers virgl_renderer (some 4) new_default ≡ ok accepted) ↔ (
    (accepted ≡ record {
      gpu_mode = virgl_renderer;
      capset = capset_or_default numbers virgl_renderer (some 4);
      flags = new_default;
    })
    × Within
        (capset_or_default numbers virgl_renderer (some 4))
        (all_capsets numbers virgl_renderer)
    × (bit (capset_or_default numbers virgl_renderer (some 4)) 8 ≡ 1 → true ≡ true))
new_iff_example = new_iff numbers virgl_renderer (some 4) new_default accepted

accepts : new numbers virgl_renderer (some 4) new_default ≡ ok accepted
unfolding new
accepts = refl

abbrev device : GpuDevice ℕ
device = new_device accepted

read_config_iff_example :
    ((bytes : List ℕ)
      → (read_config device 8 4 ≡ some (ok bytes))
        ↔ ((8 + 4 ≡ 16) × (bytes ≡ drop 8 (virtio_gpu_config.as_bytes device.virtio_cfg))))
    × ((read_config device 8 4 ≡ none) ↔ (16 < 8))
read_config_iff_example = read_config_iff device 8 4
