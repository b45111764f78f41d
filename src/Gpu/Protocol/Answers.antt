-- ===== src/Gpu/Protocol/Answers.antt =====
-- The structures of the responses, packed. (device/virtio-gpu/src/protocol.rs)
use virtio_device_poc.Base.{ℕ, List, refl}
use virtio_device_poc.Gpu.Layout.{ByteValued, le32, le64, array, struct, ◌&◌}
use virtio_device_poc.Gpu.Layout.Arrays.{many}
use virtio_device_poc.Gpu.Protocol.Structs.{
  virtio_gpu_ctrl_hdr, VirtioGpuCtrlHdr, virtio_gpu_rect, VirtioGpuRect,
}

pub record VirtioGpuDisplayOne : Type 0 where
  pub r : VirtioGpuRect
  pub enabled : ℕ
  pub flags : ℕ

unfoldable pub virtio_gpu_display_one : ByteValued VirtioGpuDisplayOne
unfolding struct ◌&◌ virtio_gpu_rect
virtio_gpu_display_one =
    struct (λ (r, (enabled, flags)). record { r = r; enabled = enabled; flags = flags })
      (λ r. (r.r, (r.enabled, r.flags))) (λ r. refl) (virtio_gpu_rect & le32 & le32)

pub record VirtioGpuRespDisplayInfo : Type 0 where
  pub hdr : VirtioGpuCtrlHdr
  pub pmodes : List VirtioGpuDisplayOne

unfoldable pub virtio_gpu_resp_display_info : ByteValued VirtioGpuRespDisplayInfo
unfolding struct ◌&◌ many virtio_gpu_ctrl_hdr virtio_gpu_display_one
virtio_gpu_resp_display_info =
    struct (λ (hdr, pmodes). record { hdr = hdr; pmodes = pmodes }) (λ r. (r.hdr, r.pmodes))
      (λ r. refl) (virtio_gpu_ctrl_hdr & many virtio_gpu_display_one 16)

pub record VirtioGpuRespEdid : Type 0 where
  pub hdr : VirtioGpuCtrlHdr
  pub size : ℕ
  pub padding : ℕ
  pub edid : List ℕ

unfoldable pub virtio_gpu_resp_edid : ByteValued VirtioGpuRespEdid
unfolding struct ◌&◌ array virtio_gpu_ctrl_hdr
virtio_gpu_resp_edid =
    struct
      (λ (hdr, (size', (padding, edid))). record {
        hdr = hdr;
        size = size';
        padding = padding;
        edid = edid;
      })
      (λ r. (r.hdr, (r.size, (r.padding, r.edid)))) (λ r. refl)
      (virtio_gpu_ctrl_hdr & le32 & le32 & array 1024)

pub record VirtioGpuRespCapsetInfo : Type 0 where
  pub hdr : VirtioGpuCtrlHdr
  pub capset_id : ℕ
  pub capset_max_version : ℕ
  pub capset_max_size : ℕ
  pub padding : ℕ

unfoldable pub virtio_gpu_resp_capset_info : ByteValued VirtioGpuRespCapsetInfo
unfolding struct ◌&◌ virtio_gpu_ctrl_hdr
virtio_gpu_resp_capset_info =
    struct
      (λ (hdr, (capset_id, (capset_max_version, (capset_max_size, padding)))). record {
        hdr = hdr;
        capset_id = capset_id;
        capset_max_version = capset_max_version;
        capset_max_size = capset_max_size;
        padding = padding;
      })
      (λ r. (r.hdr, (r.capset_id, (r.capset_max_version, (r.capset_max_size, r.padding)))))
      (λ r. refl) (virtio_gpu_ctrl_hdr & le32 & le32 & le32 & le32)

pub record VirtioGpuRespResourcePlaneInfo : Type 0 where
  pub hdr : VirtioGpuCtrlHdr
  pub count : ℕ
  pub padding : ℕ
  pub format_modifier : ℕ
  pub strides : List ℕ
  pub offsets : List ℕ

unfoldable pub virtio_gpu_resp_resource_plane_info : ByteValued VirtioGpuRespResourcePlaneInfo
unfolding struct ◌&◌ many virtio_gpu_ctrl_hdr
virtio_gpu_resp_resource_plane_info =
    struct
      (λ (hdr, (count, (padding, (format_modifier, (strides, offsets))))). record {
        hdr = hdr;
        count = count;
        padding = padding;
        format_modifier = format_modifier;
        strides = strides;
        offsets = offsets;
      })
      (λ r. (r.hdr, (r.count, (r.padding, (r.format_modifier, (r.strides, r.offsets))))))
      (λ r. refl) (virtio_gpu_ctrl_hdr & le32 & le32 & le64 & many le32 4 & many le32 4)

pub record VirtioGpuRespResourceUuid : Type 0 where
  pub hdr : VirtioGpuCtrlHdr
  pub uuid : List ℕ

unfoldable pub virtio_gpu_resp_resource_uuid : ByteValued VirtioGpuRespResourceUuid
unfolding struct ◌&◌ array virtio_gpu_ctrl_hdr
virtio_gpu_resp_resource_uuid =
    struct (λ (hdr, uuid). record { hdr = hdr; uuid = uuid }) (λ r. (r.hdr, r.uuid)) (λ r. refl)
      (virtio_gpu_ctrl_hdr & array 16)

pub record VirtioGpuRespMapInfo : Type 0 where
  pub hdr : VirtioGpuCtrlHdr
  pub map_info : ℕ
  pub padding : ℕ

unfoldable pub virtio_gpu_resp_map_info : ByteValued VirtioGpuRespMapInfo
unfolding struct ◌&◌ virtio_gpu_ctrl_hdr
virtio_gpu_resp_map_info =
    struct
      (λ (hdr, (map_info, padding)). record { hdr = hdr; map_info = map_info; padding = padding })
      (λ r. (r.hdr, (r.map_info, r.padding))) (λ r. refl) (virtio_gpu_ctrl_hdr & le32 & le32)
