-- ===== src/Gpu/Protocol/Commands/Written.antt =====
-- The bytes of a command.
-- (device/virtio-gpu/src/protocol.rs)
use virtio_device_poc.Base.{ℕ, ◌≡◌, List, [], ◌++◌, map, length}
use virtio_device_poc.Gpu.Layout.{le64}
use virtio_device_poc.Gpu.Layout.Arrays.{many_bytes, AllFit}
use virtio_device_poc.Gpu.Protocol.Structs.{
  virtio_gpu_update_cursor, virtio_gpu_get_edid, virtio_gpu_resource_unref,
  virtio_gpu_resource_create_2d, virtio_gpu_set_scanout, virtio_gpu_resource_flush,
  virtio_gpu_transfer_to_host_2d, virtio_gpu_mem_entry, VirtioGpuMemEntry,
  virtio_gpu_resource_attach_backing, virtio_gpu_resource_detach_backing,
}
use virtio_device_poc.Gpu.Protocol.Virgl.{
  virtio_gpu_transfer_host_3d, virtio_gpu_resource_create_3d, virtio_gpu_ctx_create,
  virtio_gpu_ctx_resource, virtio_gpu_cmd_submit, VirtioGpuCmdSubmit, virtio_gpu_get_capset_info,
  virtio_gpu_get_capset,
}
use virtio_device_poc.Gpu.Protocol.Blob.{
  virtio_gpu_resource_create_blob, virtio_gpu_resource_map_blob, virtio_gpu_resource_unmap_blob,
  virtio_gpu_resource_assign_uuid, virtio_gpu_set_scanout_blob,
}
use virtio_device_poc.Gpu.Protocol.Commands.{
  CommandType, GpuCommand, get_display_info, get_edid, resource_create_2d, resource_unref,
  set_scanout, set_scanout_blob, resource_flush, transfer_to_host_2d, resource_attach_backing,
  resource_detach_backing, get_capset_info, get_capset, ctx_create, ctx_destroy,
  ctx_attach_resource, ctx_detach_resource, resource_create_3d, transfer_to_host_3d,
  transfer_from_host_3d, resource_create_blob, resource_map_blob, resource_unmap_blob,
  update_cursor, move_cursor, resource_assign_uuid, cmd_submit_3d, cmd_get_display_info,
  cmd_get_edid, cmd_resource_create_2d, cmd_resource_unref, cmd_set_scanout, cmd_set_scanout_blob,
  cmd_resource_flush, cmd_transfer_to_host_2d, cmd_resource_attach_backing,
  cmd_resource_detach_backing, cmd_get_capset_info, cmd_get_capset, cmd_ctx_create, cmd_ctx_destroy,
  cmd_ctx_attach_resource, cmd_ctx_detach_resource, cmd_resource_create_3d, cmd_transfer_to_host_3d,
  cmd_transfer_from_host_3d, cmd_resource_create_blob, cmd_resource_map_blob,
  cmd_resource_unmap_blob, cmd_update_cursor, cmd_move_cursor, cmd_resource_assign_uuid,
}

abbrev pub command_type : GpuCommand → CommandType
command_type get_display_info = cmd_get_display_info
command_type (get_edid info) = cmd_get_edid
command_type (resource_create_2d info) = cmd_resource_create_2d
command_type (resource_unref info) = cmd_resource_unref
command_type (set_scanout info) = cmd_set_scanout
command_type (set_scanout_blob info) = cmd_set_scanout_blob
command_type (resource_flush info) = cmd_resource_flush
command_type (transfer_to_host_2d info) = cmd_transfer_to_host_2d
command_type (resource_attach_backing info entries) = cmd_resource_attach_backing
command_type (resource_detach_backing info) = cmd_resource_detach_backing
command_type (get_capset_info info) = cmd_get_capset_info
command_type (get_capset info) = cmd_get_capset
command_type (ctx_create info) = cmd_ctx_create
command_type ctx_destroy = cmd_ctx_destroy
command_type (ctx_attach_resource info) = cmd_ctx_attach_resource
command_type (ctx_detach_resource info) = cmd_ctx_detach_resource
command_type (resource_create_3d info) = cmd_resource_create_3d
command_type (transfer_to_host_3d info) = cmd_transfer_to_host_3d
command_type (transfer_from_host_3d info) = cmd_transfer_from_host_3d
command_type (cmd_submit_3d cmd_data fence_ids) = cmd_submit_3d
command_type (resource_create_blob info) = cmd_resource_create_blob
command_type (resource_map_blob info) = cmd_resource_map_blob
command_type (resource_unmap_blob info) = cmd_resource_unmap_blob
command_type (update_cursor info) = cmd_update_cursor
command_type (move_cursor info) = cmd_move_cursor
command_type (resource_assign_uuid info) = cmd_resource_assign_uuid

-- What the driver pads with zeros.
abbrev pub mem_entry_of : ℕ × ℕ → VirtioGpuMemEntry
mem_entry_of (addr, len) = record { addr = addr; length = len; padding = 0 }

abbrev pub submit_of : List ℕ → List ℕ → VirtioGpuCmdSubmit
submit_of cmd_data fence_ids = record { size = length cmd_data; num_in_fences = length fence_ids }

-- What follows the header.
unfoldable pub command_bytes : GpuCommand → List ℕ
command_bytes get_display_info = []
command_bytes (get_edid info) = virtio_gpu_get_edid.as_bytes info
command_bytes (resource_create_2d info) = virtio_gpu_resource_create_2d.as_bytes info
command_bytes (resource_unref info) = virtio_gpu_resource_unref.as_bytes info
command_bytes (set_scanout info) = virtio_gpu_set_scanout.as_bytes info
command_bytes (set_scanout_blob info) = virtio_gpu_set_scanout_blob.as_bytes info
command_bytes (resource_flush info) = virtio_gpu_resource_flush.as_bytes info
command_bytes (transfer_to_host_2d info) = virtio_gpu_transfer_to_host_2d.as_bytes info
command_bytes (resource_attach_backing info entries) =
    virtio_gpu_resource_attach_backing.as_bytes info
    ++ many_bytes virtio_gpu_mem_entry (map mem_entry_of entries)
command_bytes (resource_detach_backing info) = virtio_gpu_resource_detach_backing.as_bytes info
command_bytes (get_capset_info info) = virtio_gpu_get_capset_info.as_bytes info
command_bytes (get_capset info) = virtio_gpu_get_capset.as_bytes info
command_bytes (ctx_create info) = virtio_gpu_ctx_create.as_bytes info
command_bytes ctx_destroy = []
command_bytes (ctx_attach_resource info) = virtio_gpu_ctx_resource.as_bytes info
command_bytes (ctx_detach_resource info) = virtio_gpu_ctx_resource.as_bytes info
command_bytes (resource_create_3d info) = virtio_gpu_resource_create_3d.as_bytes info
command_bytes (transfer_to_host_3d info) = virtio_gpu_transfer_host_3d.as_bytes info
command_bytes (transfer_from_host_3d info) = virtio_gpu_transfer_host_3d.as_bytes info
command_bytes (cmd_submit_3d cmd_data fence_ids) =
    virtio_gpu_cmd_submit.as_bytes (submit_of cmd_data fence_ids)
    ++ (many_bytes le64 fence_ids ++ cmd_data)
command_bytes (resource_create_blob info) = virtio_gpu_resource_create_blob.as_bytes info
command_bytes (resource_map_blob info) = virtio_gpu_resource_map_blob.as_bytes info
command_bytes (resource_unmap_blob info) = virtio_gpu_resource_unmap_blob.as_bytes info
command_bytes (update_cursor info) = virtio_gpu_update_cursor.as_bytes info
command_bytes (move_cursor info) = virtio_gpu_update_cursor.as_bytes info
command_bytes (resource_assign_uuid info) = virtio_gpu_resource_assign_uuid.as_bytes info

-- Each field fits its type, and a count says how many items follow.
unfoldable pub IsCommand : GpuCommand → Type 0
IsCommand get_display_info = Unit
IsCommand (get_edid info) = virtio_gpu_get_edid.Fits info
IsCommand (resource_create_2d info) = virtio_gpu_resource_create_2d.Fits info
IsCommand (resource_unref info) = virtio_gpu_resource_unref.Fits info
IsCommand (set_scanout info) = virtio_gpu_set_scanout.Fits info
IsCommand (set_scanout_blob info) = virtio_gpu_set_scanout_blob.Fits info
IsCommand (resource_flush info) = virtio_gpu_resource_flush.Fits info
IsCommand (transfer_to_host_2d info) = virtio_gpu_transfer_to_host_2d.Fits info
IsCommand (resource_attach_backing info entries) =
    virtio_gpu_resource_attach_backing.Fits info
    × (info.nr_entries ≡ length entries)
    × AllFit virtio_gpu_mem_entry (map mem_entry_of entries)
IsCommand (resource_detach_backing info) = virtio_gpu_resource_detach_backing.Fits info
IsCommand (get_capset_info info) = virtio_gpu_get_capset_info.Fits info
IsCommand (get_capset info) = virtio_gpu_get_capset.Fits info
IsCommand (ctx_create info) = virtio_gpu_ctx_create.Fits info
IsCommand ctx_destroy = Unit
IsCommand (ctx_attach_resource info) = virtio_gpu_ctx_resource.Fits info
IsCommand (ctx_detach_resource info) = virtio_gpu_ctx_resource.Fits info
IsCommand (resource_create_3d info) = virtio_gpu_resource_create_3d.Fits info
IsCommand (transfer_to_host_3d info) = virtio_gpu_transfer_host_3d.Fits info
IsCommand (transfer_from_host_3d info) = virtio_gpu_transfer_host_3d.Fits info
IsCommand (cmd_submit_3d cmd_data fence_ids) =
    virtio_gpu_cmd_submit.Fits (submit_of cmd_data fence_ids) × AllFit le64 fence_ids
IsCommand (resource_create_blob info) = virtio_gpu_resource_create_blob.Fits info
IsCommand (resource_map_blob info) = virtio_gpu_resource_map_blob.Fits info
IsCommand (resource_unmap_blob info) = virtio_gpu_resource_unmap_blob.Fits info
IsCommand (update_cursor info) = virtio_gpu_update_cursor.Fits info
IsCommand (move_cursor info) = virtio_gpu_update_cursor.Fits info
IsCommand (resource_assign_uuid info) = virtio_gpu_resource_assign_uuid.Fits info
