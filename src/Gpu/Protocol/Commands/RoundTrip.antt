-- ===== src/Gpu/Protocol/Commands/RoundTrip.antt =====
-- The commands as a driver writes them, and that `decode` reads them back.
-- (device/virtio-gpu/src/protocol.rs)
use virtio_device_poc.Base.{
  ℕ, zero, suc, ◌≡◌, refl, sym, ap, ◌∙◌, inl, inr, some, List, [], ◌∷◌, ◌++◌, map, ok, ◌==◌, length,
  length-map, get_elem?, eq→==, ==_iff, Bool-cases,
}
use mathlib.Core.List.{append_assoc}
use mathlib.Core.Option.{some-injective}
use virtio_device_poc.Base.Bytes.{read_exact-append}
use virtio_device_poc.Gpu.Layout.{ByteValued, le64}
use virtio_device_poc.Gpu.Layout.Arrays.{read_many, many_bytes, read_many-many_bytes}
use virtio_device_poc.Gpu.Protocol.Structs.{
  virtio_gpu_ctrl_hdr, VirtioGpuCtrlHdr, virtio_gpu_update_cursor, virtio_gpu_get_edid,
  virtio_gpu_resource_unref, virtio_gpu_resource_create_2d, virtio_gpu_set_scanout,
  virtio_gpu_resource_flush, virtio_gpu_transfer_to_host_2d, virtio_gpu_mem_entry,
  VirtioGpuMemEntry, virtio_gpu_resource_attach_backing, VirtioGpuResourceAttachBacking,
  virtio_gpu_resource_detach_backing,
}
use virtio_device_poc.Gpu.Protocol.Virgl.{
  virtio_gpu_transfer_host_3d, virtio_gpu_resource_create_3d, virtio_gpu_ctx_create,
  virtio_gpu_ctx_resource, virtio_gpu_cmd_submit, virtio_gpu_get_capset_info, virtio_gpu_get_capset,
}
use virtio_device_poc.Gpu.Protocol.Blob.{
  virtio_gpu_resource_create_blob, virtio_gpu_resource_map_blob, virtio_gpu_resource_unmap_blob,
  virtio_gpu_resource_assign_uuid, virtio_gpu_set_scanout_blob,
}
use virtio_device_poc.Gpu.Protocol.Commands.{
  CommandType, command_types, GpuCommand, Decoded, obj, entry_of, decode_command, find_type, decode,
  with_entries, with_fences, with_data, with_header, get_display_info, get_edid, resource_create_2d,
  resource_unref, set_scanout, set_scanout_blob, resource_flush, transfer_to_host_2d,
  resource_attach_backing, resource_detach_backing, get_capset_info, get_capset, ctx_create,
  ctx_destroy, ctx_attach_resource, ctx_detach_resource, resource_create_3d, transfer_to_host_3d,
  transfer_from_host_3d, resource_create_blob, resource_map_blob, resource_unmap_blob,
  update_cursor, move_cursor, resource_assign_uuid, cmd_submit_3d, cmd_resource_attach_backing,
}
use virtio_device_poc.Gpu.Protocol.Commands.Written.{
  command_type, mem_entry_of, submit_of, command_bytes, IsCommand,
}
use virtio_device_poc.Gpu.Protocol.Commands.Places.{position, get_elem?-position}

obj-as_bytes :
    {A B : Type 0} (l : ByteValued A) (x : A) (rest : List ℕ)
    → l.Fits x
    → (f : A → List ℕ → Decoded B) → obj (l.read_obj (l.as_bytes x ++ rest)) f ≡ f x rest
unfolding obj
obj-as_bytes l x rest fits f = ap (λ r. obj r f) (l.read-as_bytes x rest fits)

entries_back : (entries : List (ℕ × ℕ)) → map entry_of (map mem_entry_of entries) ≡ entries
unfolding entry_of
entries_back [] = refl
entries_back (e ∷ es) = ap (λ l. e ∷ l) (entries_back es)

attach_back :
    (info : VirtioGpuResourceAttachBacking) (entries : List (ℕ × ℕ)) (rest : List ℕ)
    → IsCommand (resource_attach_backing info entries)
    → decode_command cmd_resource_attach_backing
        (command_bytes (resource_attach_backing info entries) ++ rest)
      ≡ ok (resource_attach_backing info entries)
unfolding decode_command command_bytes IsCommand
attach_back info entries rest (fits, count, all) =
    let structs : List VirtioGpuMemEntry = map mem_entry_of entries in
    let more = many_bytes virtio_gpu_mem_entry structs in
    let many : info.nr_entries ≡ length structs = count ∙ sym (length-map entries mem_entry_of) in
    rw (append_assoc (virtio_gpu_resource_attach_backing.as_bytes info) more rest) (
      obj-as_bytes virtio_gpu_resource_attach_backing info (more ++ rest) fits with_entries
      ∙ unfold with_entries obj in
        rw
          (
            ap (λ k. read_many virtio_gpu_mem_entry k (more ++ rest)) many
                ∙ read_many-many_bytes virtio_gpu_mem_entry structs rest all,
            with_entries,
          )
          (ap (λ l. ok (resource_attach_backing info l)) (entries_back entries)))

submit_back :
    (cmd_data fence_ids rest : List ℕ)
    → IsCommand (cmd_submit_3d cmd_data fence_ids)
    → decode_command cmd_submit_3d (command_bytes (cmd_submit_3d cmd_data fence_ids) ++ rest)
      ≡ ok (cmd_submit_3d cmd_data fence_ids)
unfolding decode_command command_bytes IsCommand
submit_back cmd_data fence_ids rest (fits, all) =
    let info = submit_of cmd_data fence_ids in
    let ids = many_bytes le64 fence_ids in
    rw (append_assoc (virtio_gpu_cmd_submit.as_bytes info) (ids ++ cmd_data) rest) (
      rw (append_assoc ids cmd_data rest) (
        obj-as_bytes virtio_gpu_cmd_submit info (ids ++ (cmd_data ++ rest)) fits with_fences
        ∙ unfold with_fences with_data obj in
          rw (read_many-many_bytes le64 fence_ids (cmd_data ++ rest) all, with_fences)
            (rw (read_exact-append cmd_data rest, with_data) refl)))

decode_command-command_bytes :
    (cmd : GpuCommand) (rest : List ℕ)
    → IsCommand cmd
    → decode_command (command_type cmd) (command_bytes cmd ++ rest) ≡ ok cmd
unfolding decode_command command_bytes IsCommand
decode_command-command_bytes get_display_info rest fits = refl
decode_command-command_bytes (get_edid info) rest fits =
    obj-as_bytes virtio_gpu_get_edid info rest fits _
decode_command-command_bytes (resource_create_2d info) rest fits =
    obj-as_bytes virtio_gpu_resource_create_2d info rest fits _
decode_command-command_bytes (resource_unref info) rest fits =
    obj-as_bytes virtio_gpu_resource_unref info rest fits _
decode_command-command_bytes (set_scanout info) rest fits =
    obj-as_bytes virtio_gpu_set_scanout info rest fits _
decode_command-command_bytes (set_scanout_blob info) rest fits =
    obj-as_bytes virtio_gpu_set_scanout_blob info rest fits _
decode_command-command_bytes (resource_flush info) rest fits =
    obj-as_bytes virtio_gpu_resource_flush info rest fits _
decode_command-command_bytes (transfer_to_host_2d info) rest fits =
    obj-as_bytes virtio_gpu_transfer_to_host_2d info rest fits _
decode_command-command_bytes (resource_attach_backing info entries) rest fits =
    attach_back info entries rest fits
decode_command-command_bytes (resource_detach_backing info) rest fits =
    obj-as_bytes virtio_gpu_resource_detach_backing info rest fits _
decode_command-command_bytes (get_capset_info info) rest fits =
    obj-as_bytes virtio_gpu_get_capset_info info rest fits _
decode_command-command_bytes (get_capset info) rest fits =
    obj-as_bytes virtio_gpu_get_capset info rest fits _
decode_command-command_bytes (ctx_create info) rest fits =
    obj-as_bytes virtio_gpu_ctx_create info rest fits _
decode_command-command_bytes ctx_destroy rest fits = refl
decode_command-command_bytes (ctx_attach_resource info) rest fits =
    obj-as_bytes virtio_gpu_ctx_resource info rest fits _
decode_command-command_bytes (ctx_detach_resource info) rest fits =
    obj-as_bytes virtio_gpu_ctx_resource info rest fits _
decode_command-command_bytes (resource_create_3d info) rest fits =
    obj-as_bytes virtio_gpu_resource_create_3d info rest fits _
decode_command-command_bytes (transfer_to_host_3d info) rest fits =
    obj-as_bytes virtio_gpu_transfer_host_3d info rest fits _
decode_command-command_bytes (transfer_from_host_3d info) rest fits =
    obj-as_bytes virtio_gpu_transfer_host_3d info rest fits _
decode_command-command_bytes (cmd_submit_3d cmd_data fence_ids) rest fits =
    submit_back cmd_data fence_ids rest fits
decode_command-command_bytes (resource_create_blob info) rest fits =
    obj-as_bytes virtio_gpu_resource_create_blob info rest fits _
decode_command-command_bytes (resource_map_blob info) rest fits =
    obj-as_bytes virtio_gpu_resource_map_blob info rest fits _
decode_command-command_bytes (resource_unmap_blob info) rest fits =
    obj-as_bytes virtio_gpu_resource_unmap_blob info rest fits _
decode_command-command_bytes (update_cursor info) rest fits =
    obj-as_bytes virtio_gpu_update_cursor info rest fits _
decode_command-command_bytes (move_cursor info) rest fits =
    obj-as_bytes virtio_gpu_update_cursor info rest fits _
decode_command-command_bytes (resource_assign_uuid info) rest fits =
    obj-as_bytes virtio_gpu_resource_assign_uuid info rest fits _

module _ (code : CommandType → ℕ) (distinct : (j k : CommandType) → code j ≡ code k → j ≡ k) where
  find_type-code :
      (ks : List CommandType) (i : ℕ) (k : CommandType)
      → get_elem? ks i ≡ some k
      → find_type code (code k) ks ≡ some k
  unfolding find_type
  find_type-code [] i k e = cc
  find_type-code (j ∷ ks) zero k e =
      rw (some-injective j k e) (rw (eq→== (code k) (code k) refl) refl)
  find_type-code (j ∷ ks) (suc i) k e = elim (Bool-cases (code k == code j)) [
    | inl same ↦ rw same (ap some (sym (distinct k j ((==_iff _ _).0 same))))
    | inr other ↦ rw other (find_type-code ks i k e)
  ]

  -- Where the types have different constants, a header and a command whose fields fit their types
  -- are read back from their bytes, whatever follows them.
  pub decode-command_bytes :
      (hdr : VirtioGpuCtrlHdr) (cmd : GpuCommand) (rest : List ℕ)
      → virtio_gpu_ctrl_hdr.Fits hdr
      → hdr.type_ ≡ code (command_type cmd)
      → IsCommand cmd
      → decode code (virtio_gpu_ctrl_hdr.as_bytes hdr ++ (command_bytes cmd ++ rest))
        ≡ ok (hdr, cmd)
  unfolding decode
  decode-command_bytes hdr cmd rest fits type_is good =
      obj-as_bytes virtio_gpu_ctrl_hdr hdr (command_bytes cmd ++ rest) fits (with_header code)
      ∙ (let k = command_type cmd in
          let found =
            ap (λ c. find_type code c command_types) type_is
            ∙ find_type-code command_types (position k) k (get_elem?-position k) in
          unfold with_header in
          rw (found, with_header) (rw (decode_command-command_bytes cmd rest good) refl))
