-- ===== src/Gpu/Protocol/Commands.antt =====
-- The commands of the guest, and how they are read. (device/virtio-gpu/src/protocol.rs)
pub mod Written
pub mod Places
pub mod RoundTrip
pub mod Refusals
use virtio_device_poc.Base.{
  ℕ, zero, suc, ◌+◌, ◌*◌, ◌≡◌, Bool, true, false, Option, none, some, List, [], ◌∷◌, ◌++◌, map,
  Result, ok, err, ◌>>=◌, ◌==◌, if◌then◌else◌,
}
use virtio_device_poc.Base.Bytes.{Reading, read_exact}
use virtio_device_poc.Gpu.Layout.{ByteValued, le, le64}
use virtio_device_poc.Gpu.Layout.Arrays.{read_many}
use virtio_device_poc.Gpu.Protocol.Structs.{
  virtio_gpu_ctrl_hdr, VirtioGpuCtrlHdr, virtio_gpu_rect, VirtioGpuRect, virtio_gpu_cursor_pos,
  VirtioGpuCursorPos, virtio_gpu_update_cursor, VirtioGpuUpdateCursor, virtio_gpu_get_edid,
  VirtioGpuGetEdid, virtio_gpu_resource_unref, VirtioGpuResourceUnref,
  virtio_gpu_resource_create_2d, VirtioGpuResourceCreate2d, virtio_gpu_set_scanout,
  VirtioGpuSetScanout, virtio_gpu_resource_flush, VirtioGpuResourceFlush,
  virtio_gpu_transfer_to_host_2d, VirtioGpuTransferToHost2d, virtio_gpu_mem_entry,
  VirtioGpuMemEntry, virtio_gpu_resource_attach_backing, VirtioGpuResourceAttachBacking,
  virtio_gpu_resource_detach_backing, VirtioGpuResourceDetachBacking,
}
use virtio_device_poc.Gpu.Protocol.Virgl.{
  virtio_gpu_box, VirtioGpuBox, virtio_gpu_transfer_host_3d, VirtioGpuTransferHost3d,
  virtio_gpu_resource_create_3d, VirtioGpuResourceCreate3d, virtio_gpu_ctx_create,
  VirtioGpuCtxCreate, virtio_gpu_ctx_resource, VirtioGpuCtxResource, virtio_gpu_cmd_submit,
  VirtioGpuCmdSubmit, virtio_gpu_get_capset_info, VirtioGpuGetCapsetInfo, virtio_gpu_get_capset,
  VirtioGpuGetCapset,
}
use virtio_device_poc.Gpu.Protocol.Blob.{
  virtio_gpu_resource_create_blob, VirtioGpuResourceCreateBlob, virtio_gpu_resource_map_blob,
  VirtioGpuResourceMapBlob, virtio_gpu_resource_unmap_blob, VirtioGpuResourceUnmapBlob,
  virtio_gpu_resource_assign_uuid, VirtioGpuResourceAssignUuid, virtio_gpu_set_scanout_blob,
  VirtioGpuSetScanoutBlob,
}

-- The constants VIRTIO_GPU_CMD_* of virtio_bindings, in the order in which `decode` tries them.
pub data CommandType : Type 0 where
  cmd_get_display_info cmd_get_edid cmd_resource_create_2d cmd_resource_unref cmd_set_scanout
        cmd_set_scanout_blob cmd_resource_flush cmd_transfer_to_host_2d cmd_resource_attach_backing
        cmd_resource_detach_backing cmd_get_capset_info cmd_get_capset cmd_ctx_create
        cmd_ctx_destroy cmd_ctx_attach_resource cmd_ctx_detach_resource cmd_resource_create_3d
        cmd_transfer_to_host_3d cmd_transfer_from_host_3d cmd_submit_3d cmd_resource_create_blob
        cmd_resource_map_blob cmd_resource_unmap_blob cmd_update_cursor cmd_move_cursor
        cmd_resource_assign_uuid :
      CommandType

abbrev pub command_types : List CommandType
command_types =
    cmd_get_display_info ∷ cmd_get_edid ∷ cmd_resource_create_2d ∷ cmd_resource_unref
    ∷ cmd_set_scanout ∷ cmd_set_scanout_blob ∷ cmd_resource_flush ∷ cmd_transfer_to_host_2d
    ∷ cmd_resource_attach_backing ∷ cmd_resource_detach_backing ∷ cmd_get_capset_info
    ∷ cmd_get_capset ∷ cmd_ctx_create ∷ cmd_ctx_destroy ∷ cmd_ctx_attach_resource
    ∷ cmd_ctx_detach_resource ∷ cmd_resource_create_3d ∷ cmd_transfer_to_host_3d
    ∷ cmd_transfer_from_host_3d ∷ cmd_submit_3d ∷ cmd_resource_create_blob ∷ cmd_resource_map_blob
    ∷ cmd_resource_unmap_blob ∷ cmd_update_cursor ∷ cmd_move_cursor ∷ cmd_resource_assign_uuid ∷ []

pub data GpuCommand : Type 0 where
  get_display_info : GpuCommand
  get_edid : VirtioGpuGetEdid → GpuCommand
  resource_create_2d : VirtioGpuResourceCreate2d → GpuCommand
  resource_unref : VirtioGpuResourceUnref → GpuCommand
  set_scanout : VirtioGpuSetScanout → GpuCommand
  set_scanout_blob : VirtioGpuSetScanoutBlob → GpuCommand
  resource_flush : VirtioGpuResourceFlush → GpuCommand
  transfer_to_host_2d : VirtioGpuTransferToHost2d → GpuCommand
  resource_attach_backing : VirtioGpuResourceAttachBacking → List (ℕ × ℕ) → GpuCommand
  resource_detach_backing : VirtioGpuResourceDetachBacking → GpuCommand
  get_capset_info : VirtioGpuGetCapsetInfo → GpuCommand
  get_capset : VirtioGpuGetCapset → GpuCommand
  ctx_create : VirtioGpuCtxCreate → GpuCommand
  ctx_destroy : GpuCommand
  ctx_attach_resource : VirtioGpuCtxResource → GpuCommand
  ctx_detach_resource : VirtioGpuCtxResource → GpuCommand
  resource_create_3d : VirtioGpuResourceCreate3d → GpuCommand
  transfer_to_host_3d : VirtioGpuTransferHost3d → GpuCommand
  transfer_from_host_3d : VirtioGpuTransferHost3d → GpuCommand
  cmd_submit_3d : (cmd_data : List ℕ) → (fence_ids : List ℕ) → GpuCommand
  resource_create_blob : VirtioGpuResourceCreateBlob → GpuCommand
  resource_map_blob : VirtioGpuResourceMapBlob → GpuCommand
  resource_unmap_blob : VirtioGpuResourceUnmapBlob → GpuCommand
  update_cursor : VirtioGpuUpdateCursor → GpuCommand
  move_cursor : VirtioGpuUpdateCursor → GpuCommand
  resource_assign_uuid : VirtioGpuResourceAssignUuid → GpuCommand

pub data GpuCommandDecodeError : Type 0 where
  invalid_type : ℕ → GpuCommandDecodeError
  descriptor_read_failed : GpuCommandDecodeError

abbrev pub Decoded : Type 0 → Type 0
Decoded A = Result A GpuCommandDecodeError

-- `read_obj().map_err(|_| DescriptorReadFailed)?`.
unfoldable pub obj :
    {A B : Type 0}
    → Reading A
    → (A → List ℕ → Result B GpuCommandDecodeError)
    → Result B GpuCommandDecodeError
obj none f = err descriptor_read_failed
obj (some (x, rest)) f = f x rest

unfoldable pub entry_of : VirtioGpuMemEntry → ℕ × ℕ
entry_of e = (e.addr, e.length)

-- The two arms that read more than one structure.
unfoldable pub with_entries : VirtioGpuResourceAttachBacking → List ℕ → Decoded GpuCommand
unfolding obj entry_of
with_entries info bytes =
    obj (read_many virtio_gpu_mem_entry info.nr_entries bytes)
      λ entries rest. ok (resource_attach_backing info (map entry_of entries))

unfoldable pub with_data : List ℕ → ℕ → List ℕ → Decoded GpuCommand
unfolding obj
with_data fence_ids size bytes =
    obj (read_exact size bytes) λ cmd_data rest. ok (cmd_submit_3d cmd_data fence_ids)

unfoldable pub with_fences : VirtioGpuCmdSubmit → List ℕ → Decoded GpuCommand
unfolding obj with_data
with_fences info bytes =
    obj (read_many le64 info.num_in_fences bytes)
      λ fence_ids rest. with_data fence_ids info.size rest

-- The arm of a type, on what follows the header.
unfoldable pub decode_command : CommandType → List ℕ → Decoded GpuCommand
unfolding obj with_entries with_fences
decode_command cmd_get_display_info bytes = ok get_display_info
decode_command cmd_get_edid bytes =
    obj (virtio_gpu_get_edid.read_obj bytes) λ info rest. ok (get_edid info)
decode_command cmd_resource_create_2d bytes =
    obj (virtio_gpu_resource_create_2d.read_obj bytes) λ info rest. ok (resource_create_2d info)
decode_command cmd_resource_unref bytes =
    obj (virtio_gpu_resource_unref.read_obj bytes) λ info rest. ok (resource_unref info)
decode_command cmd_set_scanout bytes =
    obj (virtio_gpu_set_scanout.read_obj bytes) λ info rest. ok (set_scanout info)
decode_command cmd_set_scanout_blob bytes =
    obj (virtio_gpu_set_scanout_blob.read_obj bytes) λ info rest. ok (set_scanout_blob info)
decode_command cmd_resource_flush bytes =
    obj (virtio_gpu_resource_flush.read_obj bytes) λ info rest. ok (resource_flush info)
decode_command cmd_transfer_to_host_2d bytes =
    obj (virtio_gpu_transfer_to_host_2d.read_obj bytes) λ info rest. ok (transfer_to_host_2d info)
decode_command cmd_resource_attach_backing bytes =
    obj (virtio_gpu_resource_attach_backing.read_obj bytes) with_entries
decode_command cmd_resource_detach_backing bytes =
    obj (virtio_gpu_resource_detach_backing.read_obj bytes)
      λ info rest. ok (resource_detach_backing info)
decode_command cmd_get_capset_info bytes =
    obj (virtio_gpu_get_capset_info.read_obj bytes) λ info rest. ok (get_capset_info info)
decode_command cmd_get_capset bytes =
    obj (virtio_gpu_get_capset.read_obj bytes) λ info rest. ok (get_capset info)
decode_command cmd_ctx_create bytes =
    obj (virtio_gpu_ctx_create.read_obj bytes) λ info rest. ok (ctx_create info)
decode_command cmd_ctx_destroy bytes = ok ctx_destroy
decode_command cmd_ctx_attach_resource bytes =
    obj (virtio_gpu_ctx_resource.read_obj bytes) λ info rest. ok (ctx_attach_resource info)
decode_command cmd_ctx_detach_resource bytes =
    obj (virtio_gpu_ctx_resource.read_obj bytes) λ info rest. ok (ctx_detach_resource info)
decode_command cmd_resource_create_3d bytes =
    obj (virtio_gpu_resource_create_3d.read_obj bytes) λ info rest. ok (resource_create_3d info)
decode_command cmd_transfer_to_host_3d bytes =
    obj (virtio_gpu_transfer_host_3d.read_obj bytes) λ info rest. ok (transfer_to_host_3d info)
decode_command cmd_transfer_from_host_3d bytes =
    obj (virtio_gpu_transfer_host_3d.read_obj bytes) λ info rest. ok (transfer_from_host_3d info)
decode_command cmd_submit_3d bytes = obj (virtio_gpu_cmd_submit.read_obj bytes) with_fences
decode_command cmd_resource_create_blob bytes =
    obj (virtio_gpu_resource_create_blob.read_obj bytes) λ info rest. ok (resource_create_blob info)
decode_command cmd_resource_map_blob bytes =
    obj (virtio_gpu_resource_map_blob.read_obj bytes) λ info rest. ok (resource_map_blob info)
decode_command cmd_resource_unmap_blob bytes =
    obj (virtio_gpu_resource_unmap_blob.read_obj bytes) λ info rest. ok (resource_unmap_blob info)
decode_command cmd_update_cursor bytes =
    obj (virtio_gpu_update_cursor.read_obj bytes) λ info rest. ok (update_cursor info)
decode_command cmd_move_cursor bytes =
    obj (virtio_gpu_update_cursor.read_obj bytes) λ info rest. ok (move_cursor info)
decode_command cmd_resource_assign_uuid bytes =
    obj (virtio_gpu_resource_assign_uuid.read_obj bytes) λ info rest. ok (resource_assign_uuid info)

module _ (code : CommandType → ℕ) where
  -- The first arm whose constant is the type.
  unfoldable pub find_type : ℕ → List CommandType → Option CommandType
  find_type type_ [] = none
  find_type type_ (k ∷ ks) =
      let rest = find_type type_ ks in if type_ == code k then some k else rest

  unfoldable pub with_header : VirtioGpuCtrlHdr → List ℕ → Decoded (VirtioGpuCtrlHdr × GpuCommand)
  with_header hdr bytes = elim (find_type hdr.type_ command_types) [
    | none ↦ err (invalid_type hdr.type_)
    | some k ↦ elim (decode_command k bytes) [ err e ↦ err e | ok cmd ↦ ok (hdr, cmd) ]
  ]

  unfoldable pub decode : List ℕ → Decoded (VirtioGpuCtrlHdr × GpuCommand)
  unfolding obj
  decode bytes = obj (virtio_gpu_ctrl_hdr.read_obj bytes) with_header
