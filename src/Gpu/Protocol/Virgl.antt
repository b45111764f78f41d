-- ===== src/Gpu/Protocol/Virgl.antt =====
-- The structures of the 3D commands and the contexts, packed. (device/virtio-gpu/src/protocol.rs)
use virtio_device_poc.Base.{ℕ, List, refl}
use virtio_device_poc.Gpu.Layout.{ByteValued, le32, le64, array, struct, ◌&◌}

pub record VirtioGpuBox : Type 0 where
  pub x : ℕ
  pub y : ℕ
  pub z : ℕ
  pub w : ℕ
  pub h : ℕ
  pub d : ℕ

unfoldable pub virtio_gpu_box : ByteValued VirtioGpuBox
unfolding struct ◌&◌
virtio_gpu_box =
    struct (λ (x', (y, (z, (w, (h, d))))). record { x = x'; y = y; z = z; w = w; h = h; d = d })
      (λ r. (r.x, (r.y, (r.z, (r.w, (r.h, r.d)))))) (λ r. refl)
      (le32 & le32 & le32 & le32 & le32 & le32)

pub record VirtioGpuTransferHost3d : Type 0 where
  pub box_ : VirtioGpuBox
  pub offset : ℕ
  pub resource_id : ℕ
  pub level : ℕ
  pub stride : ℕ
  pub layer_stride : ℕ

unfoldable pub virtio_gpu_transfer_host_3d : ByteValued VirtioGpuTransferHost3d
unfolding struct ◌&◌ virtio_gpu_box
virtio_gpu_transfer_host_3d =
    struct
      (λ (box, (offset, (resource_id, (level, (stride, layer_stride))))). record {
        box_ = box;
        offset = offset;
        resource_id = resource_id;
        level = level;
        stride = stride;
        layer_stride = layer_stride;
      })
      (λ r. (r.box_, (r.offset, (r.resource_id, (r.level, (r.stride, r.layer_stride))))))
      (λ r. refl) (virtio_gpu_box & le64 & le32 & le32 & le32 & le32)

pub record VirtioGpuResourceCreate3d : Type 0 where
  pub resource_id : ℕ
  pub target : ℕ
  pub format : ℕ
  pub bind : ℕ
  pub width : ℕ
  pub height : ℕ
  pub depth : ℕ
  pub array_size : ℕ
  pub last_level : ℕ
  pub nr_samples : ℕ
  pub flags : ℕ
  pub padding : ℕ

unfoldable pub virtio_gpu_resource_create_3d : ByteValued VirtioGpuResourceCreate3d
unfolding struct ◌&◌
virtio_gpu_resource_create_3d =
    struct
      (λ (
        resource_id,
        (
          target,
          (
            format,
            (
              bind,
              (
                width,
                (height, (depth, (array_size, (last_level, (nr_samples, (flags, padding)))))),
              ),
            ),
          ),
        ),
      ).
        record {
          resource_id = resource_id;
          target = target;
          format = format;
          bind = bind;
          width = width;
          height = height;
          depth = depth;
          array_size = array_size;
          last_level = last_level;
          nr_samples = nr_samples;
          flags = flags;
          padding = padding;
        })
      (λ r. (
        r.resource_id,
        (
          r.target,
          (
            r.format,
            (
              r.bind,
              (
                r.width,
                (
                  r.height,
                  (r.depth, (r.array_size, (r.last_level, (r.nr_samples, (r.flags, r.padding))))),
                ),
              ),
            ),
          ),
        ),
      ))
      (λ r. refl)
      (le32 & le32 & le32 & le32 & le32 & le32 & le32 & le32 & le32 & le32 & le32 & le32)

pub record VirtioGpuCtxCreate : Type 0 where
  pub nlen : ℕ
  pub context_init : ℕ
  pub debug_name : List ℕ

unfoldable pub virtio_gpu_ctx_create : ByteValued VirtioGpuCtxCreate
unfolding struct ◌&◌ array
virtio_gpu_ctx_create =
    struct
      (λ (nlen, (context_init, debug_name)). record {
        nlen = nlen;
        context_init = context_init;
        debug_name = debug_name;
      })
      (λ r. (r.nlen, (r.context_init, r.debug_name))) (λ r. refl) (le32 & le32 & array 64)

pub record VirtioGpuCtxResource : Type 0 where
  pub resource_id : ℕ
  pub padding : ℕ

unfoldable pub virtio_gpu_ctx_resource : ByteValued VirtioGpuCtxResource
unfolding struct ◌&◌
virtio_gpu_ctx_resource =
    struct (λ (resource_id, padding). record { resource_id = resource_id; padding = padding })
      (λ r. (r.resource_id, r.padding)) (λ r. refl) (le32 & le32)

pub record VirtioGpuCmdSubmit : Type 0 where
  pub size : ℕ
  pub num_in_fences : ℕ

unfoldable pub virtio_gpu_cmd_submit : ByteValued VirtioGpuCmdSubmit
unfolding struct ◌&◌
virtio_gpu_cmd_submit =
    struct (λ (size', num_in_fences). record { size = size'; num_in_fences = num_in_fences })
      (λ r. (r.size, r.num_in_fences)) (λ r. refl) (le32 & le32)

pub record VirtioGpuGetCapsetInfo : Type 0 where
  pub capset_index : ℕ
  pub padding : ℕ

unfoldable pub virtio_gpu_get_capset_info : ByteValued VirtioGpuGetCapsetInfo
unfolding struct ◌&◌
virtio_gpu_get_capset_info =
    struct (λ (capset_index, padding). record { capset_index = capset_index; padding = padding })
      (λ r. (r.capset_index, r.padding)) (λ r. refl) (le32 & le32)

pub record VirtioGpuGetCapset : Type 0 where
  pub capset_id : ℕ
  pub capset_version : ℕ

unfoldable pub virtio_gpu_get_capset : ByteValued VirtioGpuGetCapset
unfolding struct ◌&◌
virtio_gpu_get_capset =
    struct
      (λ (capset_id, capset_version). record {
        capset_id = capset_id;
        capset_version = capset_version;
      })
      (λ r. (r.capset_id, r.capset_version)) (λ r. refl) (le32 & le32)
