-- ===== src/Gpu/Protocol/Blob.antt =====
-- The structures of the commands on blobs and uuids, packed. (device/virtio-gpu/src/protocol.rs)
use virtio_device_poc.Base.{ℕ, List, refl}
use virtio_device_poc.Gpu.Layout.{ByteValued, le32, le64, struct, ◌&◌}
use virtio_device_poc.Gpu.Layout.Arrays.{many}
use virtio_device_poc.Gpu.Protocol.Structs.{virtio_gpu_rect, VirtioGpuRect}

pub record VirtioGpuResourceCreateBlob : Type 0 where
  pub resource_id : ℕ
  pub blob_mem : ℕ
  pub blob_flags : ℕ
  pub nr_entries : ℕ
  pub blob_id : ℕ
  pub size : ℕ

unfoldable pub virtio_gpu_resource_create_blob : ByteValued VirtioGpuResourceCreateBlob
unfolding struct ◌&◌
virtio_gpu_resource_create_blob =
    struct
      (λ (resource_id, (blob_mem, (blob_flags, (nr_entries, (blob_id, size'))))). record {
        resource_id = resource_id;
        blob_mem = blob_mem;
        blob_flags = blob_flags;
        nr_entries = nr_entries;
        blob_id = blob_id;
        size = size';
      })
      (λ r. (r.resource_id, (r.blob_mem, (r.blob_flags, (r.nr_entries, (r.blob_id, r.size))))))
      (λ r. refl) (le32 & le32 & le32 & le32 & le64 & le64)

pub record VirtioGpuResourceMapBlob : Type 0 where
  pub resource_id : ℕ
  pub padding : ℕ
  pub offset : ℕ

unfoldable pub virtio_gpu_resource_map_blob : ByteValued VirtioGpuResourceMapBlob
unfolding struct ◌&◌
virtio_gpu_resource_map_blob =
    struct
      (λ (resource_id, (padding, offset)). record {
        resource_id = resource_id;
        padding = padding;
        offset = offset;
      })
      (λ r. (r.resource_id, (r.padding, r.offset))) (λ r. refl) (le32 & le32 & le64)

pub record VirtioGpuResourceUnmapBlob : Type 0 where
  pub resource_id : ℕ
  pub padding : ℕ

unfoldable pub virtio_gpu_resource_unmap_blob : ByteValued VirtioGpuResourceUnmapBlob
unfolding struct ◌&◌
virtio_gpu_resource_unmap_blob =
    struct (λ (resource_id, padding). record { resource_id = resource_id; padding = padding })
      (λ r. (r.resource_id, r.padding)) (λ r. refl) (le32 & le32)

pub record VirtioGpuResourceAssignUuid : Type 0 where
  pub resource_id : ℕ
  pub padding : ℕ

unfoldable pub virtio_gpu_resource_assign_uuid : ByteValued VirtioGpuResourceAssignUuid
unfolding struct ◌&◌
virtio_gpu_resource_assign_uuid =
    struct (λ (resource_id, padding). record { resource_id = resource_id; padding = padding })
      (λ r. (r.resource_id, r.padding)) (λ r. refl) (le32 & le32)

pub record VirtioGpuSetScanoutBlob : Type 0 where
  pub r : VirtioGpuRect
  pub scanout_id : ℕ
  pub resource_id : ℕ
  pub width : ℕ
  pub height : ℕ
  pub format : ℕ
  pub padding : ℕ
  pub strides : List ℕ
  pub offsets : List ℕ

unfoldable pub virtio_gpu_set_scanout_blob : ByteValued VirtioGpuSetScanoutBlob
unfolding struct ◌&◌ many virtio_gpu_rect
virtio_gpu_set_scanout_blob =
    struct
      (λ (
        r,
        (scanout_id, (resource_id, (width, (height, (format, (padding, (strides, offsets))))))),
      ).
        record {
          r = r;
          scanout_id = scanout_id;
          resource_id = resource_id;
          width = width;
          height = height;
          format = format;
          padding = padding;
          strides = strides;
          offsets = offsets;
        })
      (λ r. (
        r.r,
        (
          r.scanout_id,
          (r.resource_id, (r.width, (r.height, (r.format, (r.padding, (r.strides, r.offsets)))))),
        ),
      ))
      (λ r. refl)
      (virtio_gpu_rect & le32 & le32 & le32 & le32 & le32 & le32 & many le32 4 & many le32 4)
