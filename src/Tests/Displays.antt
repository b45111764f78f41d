-- ===== src/Tests/Displays.antt =====
-- A GPU device with one resource, shown by one scanout.
use virtio_device_poc.Base.{ℕ, ◌+◌, ◌≡◌, ◌≢◌, refl, some, none, ok, err, get_elem?, [], ◌∷◌, arith}
use virtio_device_poc.Base.Bits.{bit}
use virtio_device_poc.Gpu.Interface.{ResourceCreate3d}
use virtio_device_poc.Gpu.Scanouts.{
  GpuHost, RutabagaVirtioGpu, new_gpu, resource_create_3d, set_scanout, unref_resource,
  leave_resource, enable_scanout, announce_scanout, put_resource, VirtioGpuResource, ok_no_data,
  err_unspec, err_invalid_resource_id,
}
use virtio_device_poc.Gpu.Listing.{Shows}
use virtio_device_poc.Gpu.Linked.{IsLinked, set_scanout-IsLinked, set_scanout-unlinks}
use virtio_device_poc.Gpu.Stranded.{Follows, unref_resource-strands}
use virtio_device_poc.Gpu.Reachable.{IsReachable, reset, scanout_set, created, IsReachable-IsLinked}

-- The connection counts the calls.
abbrev pub screen : GpuHost
screen = record {
  Rutabaga = ℕ;
  GpuBackend = ℕ;
  resource_create_3d = λ x id create. (x, ok tt);
  unref_resource = λ x id. (x, ok tt);
  query = λ x id. err 0;
  set_scanout = λ x id width height. (x + 1, ok tt);
  force_ctx_0 = λ x. x;
  transfer_write = λ x ctx id transfer. (x, ok tt);
  transfer_read = λ x ctx id transfer. (x, ok tt);
  transfer_read_to = λ x ctx id transfer len. (x, ok []);
  attach_backing = λ x id iovecs. (x, ok tt);
  detach_backing = λ x id. (x, ok tt);
  get_capset_info = λ x index. err 0;
  get_capset = λ x id version. err 0;
  create_context = λ x ctx init name. (x, ok tt);
  destroy_context = λ x ctx. (x, ok tt);
  context_attach_resource = λ x ctx id. (x, ok tt);
  context_detach_resource = λ x ctx id. (x, ok tt);
  submit_command = λ x ctx commands fence_ids. (x, ok tt);
  create_fence = λ x fence. (x, fence ∷ [], ok tt);
  get_display_info = λ x. (x, ok []);
  get_edid = λ x id. (x, err 0);
  update_scanout = λ x update bytes. (x + 1, ok tt);
  cursor_update = λ x pos hot_x hot_y bytes. (x, ok tt);
  cursor_pos = λ x pos. (x, ok tt);
  cursor_pos_hide = λ x pos. (x, ok tt);
}

abbrev pub texture : ResourceCreate3d
texture = record {
  target = 2;
  format = 67;
  bind = 2;
  width = 640;
  height = 480;
  depth = 1;
  array_size = 1;
  last_level = 0;
  nr_samples = 0;
  flags = 0;
}

abbrev with_resource : RutabagaVirtioGpu screen
with_resource = (resource_create_3d screen (new_gpu screen 0 0) 7 texture).0

abbrev displayed : RutabagaVirtioGpu screen
displayed = (set_scanout screen with_resource 2 7 640 480).0

is_answered : (set_scanout screen with_resource 2 7 640 480).1 ≡ ok ok_no_data
unfolding new_gpu resource_create_3d set_scanout leave_resource enable_scanout announce_scanout
    put_resource
is_answered = refl

with_resource-IsReachable : IsReachable screen with_resource
unfolding new_gpu
with_resource-IsReachable = created (new_gpu screen 0 0) 7 texture (reset 0 0) refl

displayed-IsReachable : IsReachable screen displayed
displayed-IsReachable = scanout_set with_resource 2 7 640 480 with_resource-IsReachable is_answered

IsReachable-IsLinked_example : IsLinked screen displayed
IsReachable-IsLinked_example = IsReachable-IsLinked screen displayed displayed-IsReachable

set_scanout-IsLinked_example :
    IsLinked screen displayed
    × (get_elem? displayed.scanouts 2 ≡ some (some 7))
    × ((j : ℕ) → 2 ≢ j → get_elem? displayed.scanouts j ≡ get_elem? with_resource.scanouts j)
set_scanout-IsLinked_example =
    set_scanout-IsLinked screen with_resource 2 7 640 480
      (IsReachable-IsLinked screen with_resource with_resource-IsReachable) is_answered

is_shown : Shows displayed.scanouts 2 7
is_shown =
    (set_scanout-IsLinked screen with_resource 2 7 640 480
      (IsReachable-IsLinked screen with_resource with_resource-IsReachable) is_answered).1

unref_resource-strands_example :
    ((unref_resource screen displayed 7).1 ≡ err err_unspec)
    × ((unref_resource screen displayed 7).0.resources 7 ≡ none)
    × ((x : RutabagaVirtioGpu screen)
        → Follows screen 7 (unref_resource screen displayed 7).0 x
        → (r' width height : ℕ)
        → set_scanout screen x 2 r' width height ≡ (x, err err_invalid_resource_id))
unref_resource-strands_example =
    unref_resource-strands screen displayed 2 7
      (IsReachable-IsLinked screen displayed displayed-IsReachable) is_shown

has_no_nine : displayed.resources 9 ≡ none
unfolding new_gpu resource_create_3d set_scanout leave_resource enable_scanout announce_scanout
    put_resource
has_no_nine = refl

set_scanout-unlinks_example :
    ((set_scanout screen displayed 2 9 640 480).1 ≡ err err_invalid_resource_id)
    × Shows (set_scanout screen displayed 2 9 640 480).0.scanouts 2 7
    × ((x : VirtioGpuResource) × ((set_scanout screen displayed 2 9 640 480).0.resources 7 ≡ some x)
        × (bit x.scanouts 2 ≡ 0))
set_scanout-unlinks_example =
    set_scanout-unlinks screen displayed 2 7 9 640 480
      (IsReachable-IsLinked screen displayed displayed-IsReachable) is_shown has_no_nine
      (λ e. omega arith)
