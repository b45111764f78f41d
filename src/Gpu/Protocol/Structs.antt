-- ===== src/Gpu/Protocol/Structs.antt =====
-- The structures of the 2D commands, the cursor and the header of every message, packed.
-- (device/virtio-gpu/src/protocol.rs)
use virtio_device_poc.Base.{ℕ, List, refl}
use virtio_device_poc.Gpu.Layout.{ByteValued, le, le32, le64, array, struct, ◌&◌}

pub record VirtioGpuCtrlHdr : Type 0 where
  pub type_ : ℕ
  pub flags : ℕ
  pub fence_id : ℕ
  pub ctx_id : ℕ
  pub ring_idx : ℕ
  pub padding : List ℕ

unfoldable pub virtio_gpu_ctrl_hdr : ByteValued VirtioGpuCtrlHdr
unfolding struct ◌&◌ array le
virtio_gpu_ctrl_hdr =
    struct
      (λ (type', (flags, (fence_id, (ctx_id, (ring_idx, padding))))). record {
        type_ = type';
        flags = flags;
        fence_id = fence_id;
        ctx_id = ctx_id;
        ring_idx = ring_idx;
        padding = padding;
      })
      (λ r. (r.type_, (r.flags, (r.fence_id, (r.ctx_id, (r.ring_idx, r.padding)))))) (λ r. refl)
      (le32 & le32 & le64 & le32 & le 1 & array 3)

pub record VirtioGpuRect : Type 0 where
  pub x : ℕ
  pub y : ℕ
  pub width : ℕ
  pub height : ℕ

unfoldable pub virtio_gpu_rect : ByteValued VirtioGpuRect
unfolding struct ◌&◌
virtio_gpu_rect =
    struct (λ (x', (y, (width, height))). record { x = x'; y = y; width = width; height = height })
      (λ r. (r.x, (r.y, (r.width, r.height)))) (λ r. refl) (le32 & le32 & le32 & le32)

pub record VirtioGpuCursorPos : Type 0 where
  pub scanout_id : ℕ
  pub x : ℕ
  pub y : ℕ
  pub padding : ℕ

unfoldable pub virtio_gpu_cursor_pos : ByteValued VirtioGpuCursorPos
unfolding struct ◌&◌
virtio_gpu_cursor_pos =
    struct
      (λ (scanout_id, (x', (y, padding))). record {
        scanout_id = scanout_id;
        x = x';
        y = y;
        padding = padding;
      })
      (λ r. (r.scanout_id, (r.x, (r.y, r.padding)))) (λ r. refl) (le32 & le32 & le32 & le32)

pub record VirtioGpuUpdateCursor : Type 0 where
  pub pos : VirtioGpuCursorPos
  pub resource_id : ℕ
  pub hot_x : ℕ
  pub hot_y : ℕ
  pub padding : ℕ

unfoldable pub virtio_gpu_update_cursor : ByteValued VirtioGpuUpdateCursor
unfolding struct ◌&◌ virtio_gpu_cursor_pos
virtio_gpu_update_cursor =
    struct
      (λ (pos, (resource_id, (hot_x, (hot_y, padding)))). record {
        pos = pos;
        resource_id = resource_id;
        hot_x = hot_x;
        hot_y = hot_y;
        padding = padding;
      })
      (λ r. (r.pos, (r.resource_id, (r.hot_x, (r.hot_y, r.padding))))) (λ r. refl)
      (virtio_gpu_cursor_pos & le32 & le32 & le32 & le32)

pub record VirtioGpuGetEdid : Type 0 where
  pub scanout : ℕ
  pub padding : ℕ

unfoldable pub virtio_gpu_get_edid : ByteValued VirtioGpuGetEdid
unfolding struct ◌&◌
virtio_gpu_get_edid =
    struct (λ (scanout, padding). record { scanout = scanout; padding = padding })
      (λ r. (r.scanout, r.padding)) (λ r. refl) (le32 & le32)

pub record VirtioGpuResourceUnref : Type 0 where
  pub resource_id : ℕ
  pub padding : ℕ

unfoldable pub virtio_gpu_resource_unref : ByteValued VirtioGpuResourceUnref
unfolding struct ◌&◌
virtio_gpu_resource_unref =
    struct (λ (resource_id, padding). record { resource_id = resource_id; padding = padding })
      (λ r. (r.resource_id, r.padding)) (λ r. refl) (le32 & le32)

pub record VirtioGpuResourceCreate2d : Type 0 where
  pub resource_id : ℕ
  pub format : ℕ
  pub width : ℕ
  pub height : ℕ

unfoldable pub virtio_gpu_resource_create_2d : ByteValued VirtioGpuResourceCreate2d
unfolding struct ◌&◌
virtio_gpu_resource_create_2d =
    struct
      (λ (resource_id, (format, (width, height))). record {
        resource_id = resource_id;
        format = format;
        width = width;
        height = height;
      })
      (λ r. (r.resource_id, (r.format, (r.width, r.height)))) (λ r. refl)
      (le32 & le32 & le32 & le32)

pub record VirtioGpuSetScanout : Type 0 where
  pub r : VirtioGpuRect
  pub scanout_id : ℕ
  pub resource_id : ℕ

unfoldable pub virtio_gpu_set_scanout : ByteValued VirtioGpuSetScanout
unfolding struct ◌&◌ virtio_gpu_rect
virtio_gpu_set_scanout =
    struct
      (λ (r, (scanout_id, resource_id)). record {
        r = r;
        scanout_id = scanout_id;
        resource_id = resource_id;
      })
      (λ r. (r.r, (r.scanout_id, r.resource_id))) (λ r. refl) (virtio_gpu_rect & le32 & le32)

pub record VirtioGpuResourceFlush : Type 0 where
  pub r : VirtioGpuRect
  pub resource_id : ℕ
  pub padding : ℕ

unfoldable pub virtio_gpu_resource_flush : ByteValued VirtioGpuResourceFlush
unfolding struct ◌&◌ virtio_gpu_rect
virtio_gpu_resource_flush =
    struct
      (λ (r, (resource_id, padding)). record {
        r = r;
        resource_id = resource_id;
        padding = padding;
      })
      (λ r. (r.r, (r.resource_id, r.padding))) (λ r. refl) (virtio_gpu_rect & le32 & le32)

pub record VirtioGpuTransferToHost2d : Type 0 where
  pub r : VirtioGpuRect
  pub offset : ℕ
  pub resource_id : ℕ
  pub padding : ℕ

unfoldable pub virtio_gpu_transfer_to_host_2d : ByteValued VirtioGpuTransferToHost2d
unfolding struct ◌&◌ virtio_gpu_rect
virtio_gpu_transfer_to_host_2d =
    struct
      (λ (r, (offset, (resource_id, padding))). record {
        r = r;
        offset = offset;
        resource_id = resource_id;
        padding = padding;
      })
      (λ r. (r.r, (r.offset, (r.resource_id, r.padding)))) (λ r. refl)
      (virtio_gpu_rect & le64 & le32 & le32)

pub record VirtioGpuMemEntry : Type 0 where
  pub addr : ℕ
  pub length : ℕ
  pub padding : ℕ

unfoldable pub virtio_gpu_mem_entry : ByteValued VirtioGpuMemEntry
unfolding struct ◌&◌
virtio_gpu_mem_entry =
    struct
      (λ (addr, (length', padding)). record { addr = addr; length = length'; padding = padding })
      (λ r. (r.addr, (r.length, r.padding))) (λ r. refl) (le64 & le32 & le32)

pub record VirtioGpuResourceAttachBacking : Type 0 where
  pub resource_id : ℕ
  pub nr_entries : ℕ

unfoldable pub virtio_gpu_resource_attach_backing : ByteValued VirtioGpuResourceAttachBacking
unfolding struct ◌&◌
virtio_gpu_resource_attach_backing =
    struct
      (λ (resource_id, nr_entries). record { resource_id = resource_id; nr_entries = nr_entries })
      (λ r. (r.resource_id, r.nr_entries)) (λ r. refl) (le32 & le32)

pub record VirtioGpuResourceDetachBacking : Type 0 where
  pub resource_id : ℕ
  pub padding : ℕ

unfoldable pub virtio_gpu_resource_detach_backing : ByteValued VirtioGpuResourceDetachBacking
unfolding struct ◌&◌
virtio_gpu_resource_detach_backing =
    struct (λ (resource_id, padding). record { resource_id = resource_id; padding = padding })
      (λ r. (r.resource_id, r.padding)) (λ r. refl) (le32 & le32)
