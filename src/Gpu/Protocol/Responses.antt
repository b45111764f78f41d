-- ===== src/Gpu/Protocol/Responses.antt =====
-- The responses to the guest, and how they are written. (device/virtio-gpu/src/protocol.rs)
pub mod Written
pub mod Faults
use virtio_device_poc.Base.{
  ℕ, zero, suc, ◌+◌, ◌^◌, ◌≤◌, ◌<◌, ◌≡◌, Bool, true, false, Option, none, some, List, [], ◌∷◌, ◌++◌,
  Result, ok, err, ◌==◌, leb, ltb, if◌then◌else◌, length, replicate,
}
use virtio_device_poc.Gpu.Layout.{ByteValued}
use virtio_device_poc.Gpu.Protocol.Structs.{VirtioGpuCtrlHdr, virtio_gpu_ctrl_hdr, VirtioGpuRect}
use virtio_device_poc.Gpu.Protocol.Answers.{
  VirtioGpuDisplayOne, VirtioGpuRespDisplayInfo, virtio_gpu_resp_display_info, VirtioGpuRespEdid,
  virtio_gpu_resp_edid, VirtioGpuRespCapsetInfo, virtio_gpu_resp_capset_info,
  VirtioGpuRespResourcePlaneInfo, virtio_gpu_resp_resource_plane_info, VirtioGpuRespResourceUuid,
  virtio_gpu_resp_resource_uuid, VirtioGpuRespMapInfo, virtio_gpu_resp_map_info,
}

pub data GpuResponse : Type 0 where
  ok_no_data : GpuResponse
  ok_display_info : List (ℕ × ℕ × Bool) → GpuResponse
  ok_edid : (blob : List ℕ) → GpuResponse
  ok_capset_info : (capset_id version size : ℕ) → GpuResponse
  ok_capset : List ℕ → GpuResponse
  ok_resource_plane_info : (format_modifier : ℕ) → (plane_info : List (ℕ × ℕ)) → GpuResponse
  ok_resource_uuid : (uuid : List ℕ) → GpuResponse
  ok_map_info : (map_info : ℕ) → GpuResponse
  err_unspec : GpuResponse
  err_rutabaga : ℕ → GpuResponse
  err_scanout : (num_scanouts : ℕ) → GpuResponse
  err_out_of_memory : GpuResponse
  err_invalid_scanout_id : GpuResponse
  err_invalid_resource_id : GpuResponse
  err_invalid_context_id : GpuResponse
  err_invalid_parameter : GpuResponse

abbrev pub VirtioGpuResult : Type 0
VirtioGpuResult = Result GpuResponse GpuResponse

pub data GpuResponseEncodeError : Type 0 where
  size_overflow descriptor_write_failed : GpuResponseEncodeError
  too_many_displays too_many_planes : ℕ → GpuResponseEncodeError

-- The constants VIRTIO_GPU_RESP_* of virtio_bindings.
pub data ResponseType : Type 0 where
  resp_ok_nodata resp_ok_display_info resp_ok_edid resp_ok_capset_info resp_ok_capset : ResponseType
  resp_ok_resource_uuid resp_ok_map_info resp_err_unspec resp_err_out_of_memory : ResponseType
  resp_err_invalid_scanout_id resp_err_invalid_resource_id : ResponseType
  resp_err_invalid_context_id resp_err_invalid_parameter : ResponseType

abbrev pub resp_ok_resource_plane_info : ℕ
resp_ok_resource_plane_info = 0x11ff

abbrev pub max_scanouts : ℕ
max_scanouts = 16

abbrev pub plane_info_max_count : ℕ
plane_info_max_count = 4

abbrev pub edid_blob_max_size : ℕ
edid_blob_max_size = 1024

-- The Writer of a chain, in virtio-queue: `write_obj` fails or writes all, `write` writes as much
-- as there is room for.
pub record WriterApi : Type 1 where
  pub Writer : Type 0
  pub available_bytes : Writer → ℕ
  pub write_obj : Writer → List ℕ → Option Writer
  pub write : Writer → List ℕ → Option (Writer × ℕ)

-- The `zip` of the modes of the response with the displays.
unfoldable pub display_modes : ℕ → List (ℕ × ℕ × Bool) → List VirtioGpuDisplayOne
display_modes zero info = []
display_modes (suc n) [] =
    record { r = record { x = 0; y = 0; width = 0; height = 0 }; enabled = 0; flags = 0 }
    ∷ display_modes n []
display_modes (suc n) ((width, height, enabled) ∷ info) =
    record {
      r = record { x = 0; y = 0; width = width; height = height };
      enabled = if enabled then 1 else 0;
      flags = 0;
    }
    ∷ display_modes n info

module _ (code : ResponseType → ℕ) where
  unfoldable pub get_type : GpuResponse → ℕ
  get_type ok_no_data = code resp_ok_nodata
  get_type (ok_display_info info) = code resp_ok_display_info
  get_type (ok_edid blob) = code resp_ok_edid
  get_type (ok_capset_info capset_id version size) = code resp_ok_capset_info
  get_type (ok_capset bytes) = code resp_ok_capset
  get_type (ok_resource_plane_info format_modifier plane_info) = resp_ok_resource_plane_info
  get_type (ok_resource_uuid uuid) = code resp_ok_resource_uuid
  get_type (ok_map_info map_info) = code resp_ok_map_info
  get_type err_unspec = code resp_err_unspec
  get_type (err_rutabaga e) = code resp_err_unspec
  get_type (err_scanout num_scanouts) = code resp_err_unspec
  get_type err_out_of_memory = code resp_err_out_of_memory
  get_type err_invalid_scanout_id = code resp_err_invalid_scanout_id
  get_type err_invalid_resource_id = code resp_err_invalid_resource_id
  get_type err_invalid_context_id = code resp_err_invalid_context_id
  get_type err_invalid_parameter = code resp_err_invalid_parameter

  module _ (w : WriterApi) where
    -- `none` is a panic.
    abbrev pub Encoded : Type 0
    Encoded = Option (Result (w.Writer × ℕ) GpuResponseEncodeError)

    -- `u32::try_from(len)` on what was written.
    unfoldable pub written : w.Writer → ℕ → Encoded
    written writer len =
        if ltb len (2 ^ 32) then some (ok (writer, len)) else some (err size_overflow)

    -- `write_obj(obj)?` as the whole response.
    unfoldable pub write_one : {A : Type 0} → ByteValued A → A → w.Writer → Encoded
    unfolding written
    write_one l x writer = elim (w.write_obj writer (l.as_bytes x)) [
      | none ↦ some (err descriptor_write_failed)
      | some writer' ↦ written writer' l.size
    ]

    unfoldable pub write_capset : VirtioGpuCtrlHdr → List ℕ → w.Writer → Encoded
    unfolding written
    write_capset hdr bytes writer = elim (w.write_obj writer (virtio_gpu_ctrl_hdr.as_bytes hdr)) [
      | none ↦ some (err descriptor_write_failed)
      | some writer' ↦ elim (w.write writer' bytes) [
        | none ↦ some (err descriptor_write_failed)
        | some (writer'', n) ↦ written writer'' (virtio_gpu_ctrl_hdr.size + length bytes)
      ]
    ]

    -- The response with the planes is not written, only its size is used.
    unfoldable pub write_planes : VirtioGpuCtrlHdr → w.Writer → Encoded
    unfolding written write_one
    write_planes hdr writer =
        if leb virtio_gpu_resp_resource_plane_info.size (w.available_bytes writer)
        then written writer virtio_gpu_resp_resource_plane_info.size
        else write_one virtio_gpu_ctrl_hdr (record hdr { type_ = code resp_ok_nodata }) writer

    -- `copy_from_slice` panics where the lengths differ.
    unfoldable pub write_edid : VirtioGpuCtrlHdr → List ℕ → w.Writer → Encoded
    unfolding write_one
    write_edid hdr blob writer =
        if leb (2 ^ 32) (length blob)
        then some (err size_overflow)
        else if length blob == edid_blob_max_size
        then write_one virtio_gpu_resp_edid
            (record { hdr = hdr; size = length blob; padding = 0; edid = blob }) writer
        else none

    unfoldable pub encode_body : VirtioGpuCtrlHdr → GpuResponse → w.Writer → Encoded
    unfolding write_one write_capset write_planes write_edid display_modes
    encode_body hdr (ok_display_info info) writer =
        if ltb max_scanouts (length info)
        then some (err (too_many_displays (length info)))
        else write_one virtio_gpu_resp_display_info
            (record { hdr = hdr; pmodes = display_modes max_scanouts info }) writer
    encode_body hdr (ok_edid blob) writer = write_edid hdr blob writer
    encode_body hdr (ok_capset_info capset_id version size) writer =
        write_one virtio_gpu_resp_capset_info
          (record {
            hdr = hdr;
            capset_id = capset_id;
            capset_max_version = version;
            capset_max_size = size;
            padding = 0;
          })
          writer
    encode_body hdr (ok_capset bytes) writer = write_capset hdr bytes writer
    encode_body hdr (ok_resource_plane_info format_modifier plane_info) writer =
        if ltb plane_info_max_count (length plane_info)
        then some (err (too_many_planes (length plane_info)))
        else write_planes hdr writer
    encode_body hdr (ok_resource_uuid uuid) writer =
        write_one virtio_gpu_resp_resource_uuid (record { hdr = hdr; uuid = uuid }) writer
    encode_body hdr (ok_map_info map_info) writer =
        write_one virtio_gpu_resp_map_info (record { hdr = hdr; map_info = map_info; padding = 0 })
          writer
    encode_body hdr ok_no_data writer = write_one virtio_gpu_ctrl_hdr hdr writer
    encode_body hdr err_unspec writer = write_one virtio_gpu_ctrl_hdr hdr writer
    encode_body hdr (err_rutabaga e) writer = write_one virtio_gpu_ctrl_hdr hdr writer
    encode_body hdr (err_scanout num_scanouts) writer = write_one virtio_gpu_ctrl_hdr hdr writer
    encode_body hdr err_out_of_memory writer = write_one virtio_gpu_ctrl_hdr hdr writer
    encode_body hdr err_invalid_scanout_id writer = write_one virtio_gpu_ctrl_hdr hdr writer
    encode_body hdr err_invalid_resource_id writer = write_one virtio_gpu_ctrl_hdr hdr writer
    encode_body hdr err_invalid_context_id writer = write_one virtio_gpu_ctrl_hdr hdr writer
    encode_body hdr err_invalid_parameter writer = write_one virtio_gpu_ctrl_hdr hdr writer

  abbrev pub response_hdr : GpuResponse → ℕ → ℕ → ℕ → ℕ → VirtioGpuCtrlHdr
  response_hdr r flags fence_id ctx_id ring_idx = record {
    type_ = get_type r;
    flags = flags;
    fence_id = fence_id;
    ctx_id = ctx_id;
    ring_idx = ring_idx;
    padding = 0 ∷ 0 ∷ 0 ∷ [];
  }

  unfoldable pub encode : (w : WriterApi) → GpuResponse → ℕ → ℕ → ℕ → ℕ → w.Writer → Encoded w
  unfolding encode_body
  encode w r flags fence_id ctx_id ring_idx writer =
      encode_body w (response_hdr r flags fence_id ctx_id ring_idx) r writer
