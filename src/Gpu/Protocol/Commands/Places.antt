-- ===== src/Gpu/Protocol/Commands/Places.antt =====
-- The place of each type of command in the list of them.
-- (device/virtio-gpu/src/protocol.rs)
use virtio_device_poc.Base.{ℕ, ◌≡◌, refl, some, get_elem?}
use virtio_device_poc.Gpu.Protocol.Commands.{
  CommandType, command_types, cmd_submit_3d, cmd_get_display_info, cmd_get_edid,
  cmd_resource_create_2d, cmd_resource_unref, cmd_set_scanout, cmd_set_scanout_blob,
  cmd_resource_flush, cmd_transfer_to_host_2d, cmd_resource_attach_backing,
  cmd_resource_detach_backing, cmd_get_capset_info, cmd_get_capset, cmd_ctx_create, cmd_ctx_destroy,
  cmd_ctx_attach_resource, cmd_ctx_detach_resource, cmd_resource_create_3d, cmd_transfer_to_host_3d,
  cmd_transfer_from_host_3d, cmd_resource_create_blob, cmd_resource_map_blob,
  cmd_resource_unmap_blob, cmd_update_cursor, cmd_move_cursor, cmd_resource_assign_uuid,
}

abbrev pub position : CommandType → ℕ
position cmd_get_display_info = 0
position cmd_get_edid = 1
position cmd_resource_create_2d = 2
position cmd_resource_unref = 3
position cmd_set_scanout = 4
position cmd_set_scanout_blob = 5
position cmd_resource_flush = 6
position cmd_transfer_to_host_2d = 7
position cmd_resource_attach_backing = 8
position cmd_resource_detach_backing = 9
position cmd_get_capset_info = 10
position cmd_get_capset = 11
position cmd_ctx_create = 12
position cmd_ctx_destroy = 13
position cmd_ctx_attach_resource = 14
position cmd_ctx_detach_resource = 15
position cmd_resource_create_3d = 16
position cmd_transfer_to_host_3d = 17
position cmd_transfer_from_host_3d = 18
position cmd_submit_3d = 19
position cmd_resource_create_blob = 20
position cmd_resource_map_blob = 21
position cmd_resource_unmap_blob = 22
position cmd_update_cursor = 23
position cmd_move_cursor = 24
position cmd_resource_assign_uuid = 25

pub get_elem?-position : (k : CommandType) → get_elem? command_types (position k) ≡ some k
get_elem?-position cmd_get_display_info = refl
get_elem?-position cmd_get_edid = refl
get_elem?-position cmd_resource_create_2d = refl
get_elem?-position cmd_resource_unref = refl
get_elem?-position cmd_set_scanout = refl
get_elem?-position cmd_set_scanout_blob = refl
get_elem?-position cmd_resource_flush = refl
get_elem?-position cmd_transfer_to_host_2d = refl
get_elem?-position cmd_resource_attach_backing = refl
get_elem?-position cmd_resource_detach_backing = refl
get_elem?-position cmd_get_capset_info = refl
get_elem?-position cmd_get_capset = refl
get_elem?-position cmd_ctx_create = refl
get_elem?-position cmd_ctx_destroy = refl
get_elem?-position cmd_ctx_attach_resource = refl
get_elem?-position cmd_ctx_detach_resource = refl
get_elem?-position cmd_resource_create_3d = refl
get_elem?-position cmd_transfer_to_host_3d = refl
get_elem?-position cmd_transfer_from_host_3d = refl
get_elem?-position cmd_submit_3d = refl
get_elem?-position cmd_resource_create_blob = refl
get_elem?-position cmd_resource_map_blob = refl
get_elem?-position cmd_resource_unmap_blob = refl
get_elem?-position cmd_update_cursor = refl
get_elem?-position cmd_move_cursor = refl
get_elem?-position cmd_resource_assign_uuid = refl
