-- ===== src/Gpu/Worker/Queues/Settled.antt =====
-- Each chain of a queue is returned to the used ring or held by a fence.
use virtio_device_poc.Base.{ℕ, ◌≡◌, refl, Option, none, some, List, by_option}
use virtio_device_poc.Gpu.Interface.{VirtioGpu, HoldLaws}
use virtio_device_poc.Gpu.Protocol.Structs.{VirtioGpuCtrlHdr}
use virtio_device_poc.Gpu.Protocol.Commands
use virtio_device_poc.Gpu.Protocol.Commands.{CommandType, GpuCommand, decode}
use virtio_device_poc.Gpu.Protocol.Responses.{VirtioGpuResult}
use virtio_device_poc.Gpu.Worker.{
  WorkerApi, run_command, handle_resource_create_2d, handle_transfer_to_host_2d,
  handle_update_cursor, handle_move_cursor, handle_ctx_create, handle_resource_create_3d,
  handle_transfer_to_host_3d, handle_transfer_from_host_3d, handle_attach_backing,
  rutabaga_iovecs_from_guest_mem,
}
use virtio_device_poc.Gpu.Worker.Queues.{
  Outcome, done, failed, panicked, out_of_fuel, ◌>>=◌, or_fail, or_panic, WorkerError,
}

-- The fuel suffices, and what is returned satisfies P.
abbrev pub Ends : {A : Type 0} → (A → Type 0) → Outcome A → Type 0
Ends P (done a) = P a
Ends P (failed e) = Unit
Ends P panicked = Unit
Ends P out_of_fuel = ⊥

pub Ends-imp :
    {A : Type 0} {P Q : A → Type 0} → ((a : A) → P a → Q a) → (m : Outcome A) → Ends P m → Ends Q m
Ends-imp k (done a) h = k a h
Ends-imp k (failed e) h = tt
Ends-imp k panicked h = tt
Ends-imp k out_of_fuel h = h

pub Ends-bind :
    {A B : Type 0} (P : A → Type 0) (Q : B → Type 0) (m : Outcome A) (f : A → Outcome B)
    → Ends P m
    → ((a : A) → P a → Ends Q (f a))
    → Ends Q (m >>= f)
Ends-bind P Q (done a) f h k = k a h
Ends-bind P Q (failed e) f h k = tt
Ends-bind P Q panicked f h k = tt
Ends-bind P Q out_of_fuel f h k = absurd h

pub or_fail-bind :
    {A B : Type 0} (Q : B → Type 0) (e : WorkerError) (o : Option A) (f : A → Outcome B)
    → ((a : A) → o ≡ some a → Ends Q (f a))
    → Ends Q (or_fail e o >>= f)
or_fail-bind Q e none f k = tt
or_fail-bind Q e (some a) f k = k a refl

pub or_panic-bind :
    {A B : Type 0} (Q : B → Type 0) (o : Option A) (f : A → Outcome B)
    → ((a : A) → o ≡ some a → Ends Q (f a))
    → Ends Q (or_panic o >>= f)
or_panic-bind Q none f k = tt
or_panic-bind Q (some a) f k = k a refl

pub or_panic-Ends :
    {A : Type 0} (Q : A → Type 0) (o : Option A)
    → ((a : A) → o ≡ some a → Q a)
    → Ends Q (or_panic o)
or_panic-Ends Q none k = tt
or_panic-Ends Q (some a) k = k a refl

abbrev pub OnSome : {A : Type 0} → (A → Type 0) → Option A → Type 0
OnSome P none = Unit
OnSome P (some a) = P a

module _ (a : WorkerApi) (v : VirtioGpu) (holds : HoldLaws v) where
  open holds use {held}

  abbrev pub Holds : v.Gpu → v.Gpu × VirtioGpuResult → Type 0
  Holds gpu r = held r.0 ≡ held gpu

  attach-Holds :
      (gpu : v.Gpu) (i : ℕ) (vecs : List (ℕ × ℕ)) → Holds gpu (handle_attach_backing a v gpu i vecs)
  unfolding handle_attach_backing
  attach-Holds gpu i vecs =
      by_option (Holds gpu) (rutabaga_iovecs_from_guest_mem a vecs) _ _ (λ bad. refl)
        (λ iovecs e. holds.attach_backing-held gpu i iovecs)

  edid-Holds : (gpu : v.Gpu) (i : ℕ) → OnSome (Holds gpu) (v.get_edid gpu i)
  edid-Holds gpu i =
      elim (v.get_edid gpu i) as (λ o. (v.get_edid gpu i ≡ o) → OnSome (Holds gpu) o) [
        | none ↦ λ e. tt
        | some r ↦ λ e. holds.get_edid-held gpu i r e
      ]
        refl

  pub run_command-Holds :
      (gpu : v.Gpu) (hdr : VirtioGpuCtrlHdr) (cmd : GpuCommand)
      → OnSome (Holds gpu) (run_command a v gpu hdr cmd)
  unfolding run_command handle_resource_create_2d handle_transfer_to_host_2d handle_update_cursor
      handle_move_cursor handle_ctx_create handle_resource_create_3d handle_transfer_to_host_3d
      handle_transfer_from_host_3d
  run_command-Holds gpu hdr Commands.get_display_info = holds.display_info-held gpu
  run_command-Holds gpu hdr (Commands.resource_create_2d req) =
      holds.resource_create_3d-held gpu _ _
  run_command-Holds gpu hdr (Commands.resource_unref req) = holds.unref_resource-held gpu _
  run_command-Holds gpu hdr (Commands.set_scanout req) = holds.set_scanout-held gpu _ _ _
  run_command-Holds gpu hdr (Commands.resource_flush req) = holds.flush_resource-held gpu _ _
  run_command-Holds gpu hdr (Commands.transfer_to_host_2d req) = holds.transfer_write-held gpu _ _ _
  run_command-Holds gpu hdr (Commands.resource_detach_backing req) = holds.detach_backing-held gpu _
  run_command-Holds gpu hdr (Commands.update_cursor req) = holds.update_cursor-held gpu _ _ _ _
  run_command-Holds gpu hdr (Commands.move_cursor req) = holds.move_cursor-held gpu _ _
  run_command-Holds gpu hdr (Commands.get_capset_info req) = holds.get_capset_info-held gpu _
  run_command-Holds gpu hdr (Commands.get_capset req) = holds.get_capset-held gpu _ _
  run_command-Holds gpu hdr (Commands.ctx_create req) = holds.create_context-held gpu _ _ _
  run_command-Holds gpu hdr Commands.ctx_destroy = holds.destroy_context-held gpu _
  run_command-Holds gpu hdr (Commands.ctx_attach_resource req) =
      holds.context_attach_resource-held gpu _ _
  run_command-Holds gpu hdr (Commands.ctx_detach_resource req) =
      holds.context_detach_resource-held gpu _ _
  run_command-Holds gpu hdr (Commands.resource_create_3d req) =
      holds.resource_create_3d-held gpu _ _
  run_command-Holds gpu hdr (Commands.transfer_to_host_3d req) = holds.transfer_write-held gpu _ _ _
  run_command-Holds gpu hdr (Commands.transfer_from_host_3d req) =
      holds.transfer_read-held gpu _ _ _
  run_command-Holds gpu hdr (Commands.cmd_submit_3d cmd_data fence_ids) =
      holds.submit_command-held gpu _ _ _
  run_command-Holds gpu hdr (Commands.get_edid req) = edid-Holds gpu req.scanout
  run_command-Holds gpu hdr (Commands.resource_attach_backing req vecs) =
      attach-Holds gpu req.resource_id vecs
  run_command-Holds gpu hdr (Commands.resource_assign_uuid req) = tt
  run_command-Holds gpu hdr (Commands.resource_create_blob req) = tt
  run_command-Holds gpu hdr (Commands.set_scanout_blob req) = tt
  run_command-Holds gpu hdr (Commands.resource_map_blob req) = tt
  run_command-Holds gpu hdr (Commands.resource_unmap_blob req) = tt
