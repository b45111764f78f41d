-- ===== src/Gpu/Worker.antt =====
-- The commands as the worker runs them. (device/virtio-gpu/src/worker.rs)
pub mod Queues
use virtio_device_poc.Base.{
  ℕ, zero, suc, ◌+◌, ◌≡◌, Bool, true, false, Option, none, some, List, [], ◌∷◌, ◌++◌, take, min,
  map, Result, ok, err, ◌==◌, if◌then◌else◌,
}
use virtio_device_poc.Gpu.Protocol.Structs.{
  VirtioGpuCtrlHdr, VirtioGpuGetEdid, VirtioGpuResourceCreate2d, VirtioGpuTransferToHost2d,
  VirtioGpuUpdateCursor,
}
use virtio_device_poc.Gpu.Protocol.Virgl.{
  VirtioGpuCtxCreate, VirtioGpuResourceCreate3d, VirtioGpuTransferHost3d,
}
use virtio_device_poc.Gpu.Protocol.Commands
use virtio_device_poc.Gpu.Protocol.Commands.{GpuCommand}
use virtio_device_poc.Gpu.Protocol.Responses.{VirtioGpuResult, err_invalid_parameter}
use virtio_device_poc.Gpu.Interface.{
  Rectangle, rectangle, ResourceCreate3d, Transfer3d, CursorPos, RutabagaIovec, VirtioGpu,
}

-- What the worker takes from rutabaga_gfx, from the guest's memory, and from the conversion of C
-- strings: `get_slice` is `none` for a range that is no guest memory.
pub record WorkerApi : Type 0 where
  pub pipe_texture_2d : ℕ
  pub pipe_bind_render_target : ℕ
  pub new_2d : ℕ → ℕ → ℕ → ℕ → ℕ → Transfer3d
  pub get_slice : ℕ → ℕ → Option ℕ
  pub to_string_lossy : List ℕ → List ℕ
  pub from_bytes_error : List ℕ → List ℕ

-- `CStr::from_bytes_with_nul`: the bytes before the only zero, which is the last byte.
unfoldable pub from_bytes_with_nul : List ℕ → Option (List ℕ)
from_bytes_with_nul [] = none
from_bytes_with_nul (c ∷ []) = if c == 0 then some [] else none
from_bytes_with_nul (c ∷ (d ∷ cs)) = elim (from_bytes_with_nul (d ∷ cs)) [
  | none ↦ none
  | some text ↦ if c == 0 then none else some (c ∷ text)
]

module _ (a : WorkerApi) where
  unfoldable pub get_debug_name : VirtioGpuCtxCreate → List ℕ
  unfolding from_bytes_with_nul
  get_debug_name req =
      let bytes = take (min 64 req.nlen) req.debug_name in
      elim (from_bytes_with_nul bytes) [
        | none ↦ a.from_bytes_error bytes
        | some text ↦ a.to_string_lossy text
      ]

  -- Nothing is attached unless each entry is guest memory.
  unfoldable pub rutabaga_iovecs_from_guest_mem : List (ℕ × ℕ) → Option (List RutabagaIovec)
  rutabaga_iovecs_from_guest_mem [] = some []
  rutabaga_iovecs_from_guest_mem ((addr, len) ∷ vecs) = elim (a.get_slice addr len) [
    | none ↦ none
    | some base ↦ elim (rutabaga_iovecs_from_guest_mem vecs) [
      | none ↦ none
      | some iovecs ↦ some ((base, len) ∷ iovecs)
    ]
  ]

  module _ (v : VirtioGpu) where
    unfoldable pub handle_resource_create_2d :
        v.Gpu → VirtioGpuResourceCreate2d → v.Gpu × VirtioGpuResult
    handle_resource_create_2d gpu req = v.resource_create_3d gpu req.resource_id (record {
      target = a.pipe_texture_2d;
      format = req.format;
      bind = a.pipe_bind_render_target;
      width = req.width;
      height = req.height;
      depth = 1;
      array_size = 1;
      last_level = 0;
      nr_samples = 0;
      flags = 0;
    })

    unfoldable pub handle_transfer_to_host_2d :
        v.Gpu → VirtioGpuTransferToHost2d → v.Gpu × VirtioGpuResult
    handle_transfer_to_host_2d gpu req =
        v.transfer_write gpu 0 req.resource_id
          (a.new_2d req.r.x req.r.y req.r.width req.r.height req.offset)

    abbrev cursor_pos : VirtioGpuUpdateCursor → CursorPos
    cursor_pos req = record { scanout_id = req.pos.scanout_id; x = req.pos.x; y = req.pos.y }

    unfoldable pub handle_update_cursor : v.Gpu → VirtioGpuUpdateCursor → v.Gpu × VirtioGpuResult
    handle_update_cursor gpu req =
        v.update_cursor gpu req.resource_id (cursor_pos req) req.hot_x req.hot_y

    unfoldable pub handle_move_cursor : v.Gpu → VirtioGpuUpdateCursor → v.Gpu × VirtioGpuResult
    handle_move_cursor gpu req = v.move_cursor gpu req.resource_id (cursor_pos req)

    unfoldable pub handle_ctx_create :
        v.Gpu → VirtioGpuCtrlHdr → VirtioGpuCtxCreate → v.Gpu × VirtioGpuResult
    handle_ctx_create gpu hdr req =
        v.create_context gpu hdr.ctx_id req.context_init (get_debug_name req)

    unfoldable pub handle_resource_create_3d :
        v.Gpu → VirtioGpuResourceCreate3d → v.Gpu × VirtioGpuResult
    handle_resource_create_3d gpu req = v.resource_create_3d gpu req.resource_id (record {
      target = req.target;
      format = req.format;
      bind = req.bind;
      width = req.width;
      height = req.height;
      depth = req.depth;
      array_size = req.array_size;
      last_level = req.last_level;
      nr_samples = req.nr_samples;
      flags = req.flags;
    })

    abbrev transfer_3d : VirtioGpuTransferHost3d → Transfer3d
    transfer_3d req = record {
      x = req.box_.x;
      y = req.box_.y;
      z = req.box_.z;
      w = req.box_.w;
      h = req.box_.h;
      d = req.box_.d;
      level = req.level;
      stride = req.stride;
      layer_stride = req.layer_stride;
      offset = req.offset;
    }

    unfoldable pub handle_transfer_to_host_3d :
        v.Gpu → ℕ → VirtioGpuTransferHost3d → v.Gpu × VirtioGpuResult
    handle_transfer_to_host_3d gpu ctx_id req =
        v.transfer_write gpu ctx_id req.resource_id (transfer_3d req)

    unfoldable pub handle_transfer_from_host_3d :
        v.Gpu → ℕ → VirtioGpuTransferHost3d → v.Gpu × VirtioGpuResult
    handle_transfer_from_host_3d gpu ctx_id req =
        v.transfer_read gpu ctx_id req.resource_id (transfer_3d req)

    unfoldable pub handle_attach_backing : v.Gpu → ℕ → List (ℕ × ℕ) → v.Gpu × VirtioGpuResult
    handle_attach_backing gpu resource_id vecs = elim (rutabaga_iovecs_from_guest_mem vecs) [
      | none ↦ (gpu, err err_invalid_parameter)
      | some iovecs ↦ v.attach_backing gpu resource_id iovecs
    ]

    -- The arm of a command; `none` is a panic.
    unfoldable pub run_command :
        v.Gpu → VirtioGpuCtrlHdr → GpuCommand → Option (v.Gpu × VirtioGpuResult)
    unfolding handle_resource_create_2d handle_transfer_to_host_2d handle_update_cursor
        handle_move_cursor handle_ctx_create handle_resource_create_3d handle_transfer_to_host_3d
        handle_transfer_from_host_3d handle_attach_backing
    run_command gpu hdr Commands.get_display_info = some (v.display_info gpu)
    run_command gpu hdr (Commands.get_edid req) = v.get_edid gpu req.scanout
    run_command gpu hdr (Commands.resource_create_2d req) = some (handle_resource_create_2d gpu req)
    run_command gpu hdr (Commands.resource_unref req) = some (v.unref_resource gpu req.resource_id)
    run_command gpu hdr (Commands.set_scanout req) =
        some (v.set_scanout gpu req.scanout_id req.resource_id (rectangle req.r))
    run_command gpu hdr (Commands.resource_flush req) =
        some (v.flush_resource gpu req.resource_id (rectangle req.r))
    run_command gpu hdr (Commands.transfer_to_host_2d req) =
        some (handle_transfer_to_host_2d gpu req)
    run_command gpu hdr (Commands.resource_attach_backing req iovecs) =
        some (handle_attach_backing gpu req.resource_id iovecs)
    run_command gpu hdr (Commands.resource_detach_backing req) =
        some (v.detach_backing gpu req.resource_id)
    run_command gpu hdr (Commands.update_cursor req) = some (handle_update_cursor gpu req)
    run_command gpu hdr (Commands.move_cursor req) = some (handle_move_cursor gpu req)
    run_command gpu hdr (Commands.resource_assign_uuid req) = none
    run_command gpu hdr (Commands.get_capset_info req) =
        some (v.get_capset_info gpu req.capset_index)
    run_command gpu hdr (Commands.get_capset req) =
        some (v.get_capset gpu req.capset_id req.capset_version)
    run_command gpu hdr (Commands.ctx_create req) = some (handle_ctx_create gpu hdr req)
    run_command gpu hdr Commands.ctx_destroy = some (v.destroy_context gpu hdr.ctx_id)
    run_command gpu hdr (Commands.ctx_attach_resource req) =
        some (v.context_attach_resource gpu hdr.ctx_id req.resource_id)
    run_command gpu hdr (Commands.ctx_detach_resource req) =
        some (v.context_detach_resource gpu hdr.ctx_id req.resource_id)
    run_command gpu hdr (Commands.resource_create_3d req) = some (handle_resource_create_3d gpu req)
    run_command gpu hdr (Commands.transfer_to_host_3d req) =
        some (handle_transfer_to_host_3d gpu hdr.ctx_id req)
    run_command gpu hdr (Commands.transfer_from_host_3d req) =
        some (handle_transfer_from_host_3d gpu hdr.ctx_id req)
    run_command gpu hdr (Commands.cmd_submit_3d cmd_data fence_ids) =
        some (v.submit_command gpu hdr.ctx_id cmd_data fence_ids)
    run_command gpu hdr (Commands.resource_create_blob req) = none
    run_command gpu hdr (Commands.set_scanout_blob req) = none
    run_command gpu hdr (Commands.resource_map_blob req) = none
    run_command gpu hdr (Commands.resource_unmap_blob req) = none

    unfoldable pub process_gpu_command :
        v.Gpu → VirtioGpuCtrlHdr → GpuCommand → Option (v.Gpu × VirtioGpuResult)
    unfolding run_command
    process_gpu_command gpu hdr cmd = run_command (v.force_ctx_0 gpu) hdr cmd
