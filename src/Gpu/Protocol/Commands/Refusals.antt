-- ===== src/Gpu/Protocol/Commands/Refusals.antt =====
-- What `decode` refuses. (device/virtio-gpu/src/protocol.rs)
use virtio_device_poc.Base.{
  ℕ, zero, suc, ◌<◌, ◌≡◌, ◌≢◌, ◌↔◌, refl, sym, ap, ◌∙◌, inl, inr, none, some, List, [], ◌∷◌, map,
  ok, err, ◌==◌, length, get_elem?, ne→==, Bool-cases, arith, by_option, by_result,
}
use mathlib.Core.Option.{some-injective}
use virtio_device_poc.Base.Bytes.{Reading, read_exact}
use virtio_device_poc.Gpu.Layout.{le64}
use virtio_device_poc.Gpu.Layout.Arrays.{read_many}
use virtio_device_poc.Gpu.Protocol.Structs.{
  VirtioGpuCtrlHdr, virtio_gpu_ctrl_hdr, virtio_gpu_resource_attach_backing, virtio_gpu_mem_entry,
}
use virtio_device_poc.Gpu.Protocol.Virgl.{virtio_gpu_cmd_submit}
use virtio_device_poc.Gpu.Protocol.Commands.{
  CommandType, command_types, GpuCommand, invalid_type, descriptor_read_failed, Decoded, obj,
  decode_command, find_type, decode, with_entries, with_fences, with_data, with_header, entry_of,
  resource_attach_backing, cmd_submit_3d, cmd_get_display_info, cmd_get_edid,
  cmd_resource_create_2d, cmd_resource_unref, cmd_set_scanout, cmd_set_scanout_blob,
  cmd_resource_flush, cmd_transfer_to_host_2d, cmd_resource_attach_backing,
  cmd_resource_detach_backing, cmd_get_capset_info, cmd_get_capset, cmd_ctx_create, cmd_ctx_destroy,
  cmd_ctx_attach_resource, cmd_ctx_detach_resource, cmd_resource_create_3d, cmd_transfer_to_host_3d,
  cmd_transfer_from_host_3d, cmd_resource_create_blob, cmd_resource_map_blob,
  cmd_resource_unmap_blob, cmd_update_cursor, cmd_move_cursor, cmd_resource_assign_uuid,
}
use virtio_device_poc.Gpu.Protocol.Commands.Places.{position, get_elem?-position}

-- Not refused for its type.
unfoldable IsTyped : {A : Type 0} → Decoded A → Type 0
IsTyped r = (t : ℕ) → r ≢ err (invalid_type t)

obj-IsTyped :
    {A B : Type 0} (r : Reading A) (f : A → List ℕ → Decoded B)
    → ((x : A) (rest : List ℕ) → IsTyped (f x rest))
    → IsTyped (obj r f)
unfolding obj IsTyped
obj-IsTyped none f p = λ t e. cc
obj-IsTyped (some (x, rest)) f p = p x rest

-- One structure and nothing more.
read_one-IsTyped : {A B : Type 0} (r : Reading A) (f : A → B) → IsTyped (obj r (λ x rest. ok (f x)))
unfolding obj IsTyped
read_one-IsTyped none f = λ t e. cc
read_one-IsTyped (some (x, rest)) f = λ t e. cc

decode_command-IsTyped : (k : CommandType) (bytes : List ℕ) → IsTyped (decode_command k bytes)
unfolding decode_command
decode_command-IsTyped cmd_get_display_info bytes = unfold IsTyped in (λ t e. cc)
decode_command-IsTyped cmd_get_edid bytes = read_one-IsTyped _ _
decode_command-IsTyped cmd_resource_create_2d bytes = read_one-IsTyped _ _
decode_command-IsTyped cmd_resource_unref bytes = read_one-IsTyped _ _
decode_command-IsTyped cmd_set_scanout bytes = read_one-IsTyped _ _
decode_command-IsTyped cmd_set_scanout_blob bytes = read_one-IsTyped _ _
decode_command-IsTyped cmd_resource_flush bytes = read_one-IsTyped _ _
decode_command-IsTyped cmd_transfer_to_host_2d bytes = read_one-IsTyped _ _
decode_command-IsTyped cmd_resource_attach_backing bytes =
    obj-IsTyped (virtio_gpu_resource_attach_backing.read_obj bytes) with_entries (λ info rest.
      unfold with_entries in
      read_one-IsTyped (read_many virtio_gpu_mem_entry info.nr_entries rest)
        (λ xs. resource_attach_backing info (map entry_of xs)))
decode_command-IsTyped cmd_resource_detach_backing bytes = read_one-IsTyped _ _
decode_command-IsTyped cmd_get_capset_info bytes = read_one-IsTyped _ _
decode_command-IsTyped cmd_get_capset bytes = read_one-IsTyped _ _
decode_command-IsTyped cmd_ctx_create bytes = read_one-IsTyped _ _
decode_command-IsTyped cmd_ctx_destroy bytes = unfold IsTyped in (λ t e. cc)
decode_command-IsTyped cmd_ctx_attach_resource bytes = read_one-IsTyped _ _
decode_command-IsTyped cmd_ctx_detach_resource bytes = read_one-IsTyped _ _
decode_command-IsTyped cmd_resource_create_3d bytes = read_one-IsTyped _ _
decode_command-IsTyped cmd_transfer_to_host_3d bytes = read_one-IsTyped _ _
decode_command-IsTyped cmd_transfer_from_host_3d bytes = read_one-IsTyped _ _
decode_command-IsTyped cmd_submit_3d bytes =
    obj-IsTyped (virtio_gpu_cmd_submit.read_obj bytes) with_fences (λ info rest.
      unfold with_fences in
      obj-IsTyped (read_many le64 info.num_in_fences rest) (λ ids. with_data ids info.size)
        (λ ids rest'.
          unfold with_data in
          read_one-IsTyped (read_exact info.size rest') (λ xs. cmd_submit_3d xs ids)))
decode_command-IsTyped cmd_resource_create_blob bytes = read_one-IsTyped _ _
decode_command-IsTyped cmd_resource_map_blob bytes = read_one-IsTyped _ _
decode_command-IsTyped cmd_resource_unmap_blob bytes = read_one-IsTyped _ _
decode_command-IsTyped cmd_update_cursor bytes = read_one-IsTyped _ _
decode_command-IsTyped cmd_move_cursor bytes = read_one-IsTyped _ _
decode_command-IsTyped cmd_resource_assign_uuid bytes = read_one-IsTyped _ _

not_refused : {A : Type 0} (r : Decoded A) → IsTyped r → (t : ℕ) → r ≢ err (invalid_type t)
unfolding IsTyped
not_refused r typed = typed

module _ (code : CommandType → ℕ) where
  find_type-none :
      (t : ℕ) (ks : List CommandType) (i : ℕ) (k : CommandType)
      → find_type code t ks ≡ none
      → get_elem? ks i ≡ some k
      → code k ≢ t
  unfolding find_type
  find_type-none t [] i k e q = cc
  find_type-none t (j ∷ ks) zero k e q = elim (Bool-cases (t == code j)) [
    | inl same ↦ let p = rw same at e in cc
    | inr other ↦ λ c. absurd (ground (arith, ap code (some-injective j k q)))
  ]
  find_type-none t (j ∷ ks) (suc i) k e q = elim (Bool-cases (t == code j)) [
    | inl same ↦ let p = rw same at e in cc
    | inr other ↦ find_type-none t ks i k (rw other at e) q
  ]

  find_type-unknown :
      (t : ℕ) (ks : List CommandType)
      → ((k : CommandType) → code k ≢ t)
      → find_type code t ks ≡ none
  unfolding find_type
  find_type-unknown t [] unknown = refl
  find_type-unknown t (k ∷ ks) unknown =
      rw (ne→== t (code k) (λ e. unknown k (sym e))) (find_type-unknown t ks unknown)

  abbrev IsUnknown : List ℕ → ℕ → Type 0
  IsUnknown bytes t =
      (hdr : VirtioGpuCtrlHdr) × (rest : List ℕ) × (virtio_gpu_ctrl_hdr.read_obj bytes
        ≡ some (hdr, rest))
      × (hdr.type_ ≡ t)
      × ((k : CommandType) → code k ≢ t)

  with_header-unknown :
      (hdr : VirtioGpuCtrlHdr) (rest : List ℕ) (t : ℕ)
      → with_header code hdr rest ≡ err (invalid_type t)
      → (hdr.type_ ≡ t) × ((k : CommandType) → code k ≢ t)
  unfolding with_header
  with_header-unknown hdr rest t =
      by_option Unknown (find_type code hdr.type_ command_types) _ _
        (λ missing e.
          let same : hdr.type_ ≡ t = cc in
          (
            same,
            λ k c.
                find_type-none hdr.type_ command_types (position k) k missing (get_elem?-position k)
                  (c ∙ sym same),
          ))
        (λ k found.
          by_result Unknown (decode_command k rest) _ _ (λ cmd decoded e. cc)
            (λ x failed e. absurd (
              not_refused _ (decode_command-IsTyped k rest) t
                (failed ∙ (let p : x ≡ invalid_type t = cc in ap err p)))))
    where
      Unknown : Decoded (VirtioGpuCtrlHdr × GpuCommand) → Type 0
      Unknown r = r ≡ err (invalid_type t) → (hdr.type_ ≡ t) × ((k : CommandType) → code k ≢ t)

  -- A message is refused for its type exactly if it holds a whole header and the type in it is the
  -- constant of no command; one that is shorter than a header is refused as unreadable.
  pub decode-invalid_type :
      (bytes : List ℕ) (t : ℕ)
      → ((decode code bytes ≡ err (invalid_type t)) ↔ (
          (hdr : VirtioGpuCtrlHdr) × (rest : List ℕ) × (virtio_gpu_ctrl_hdr.read_obj bytes
            ≡ some (hdr, rest))
          × (hdr.type_ ≡ t)
          × ((k : CommandType) → code k ≢ t)))
        × (length bytes < 24 → decode code bytes ≡ err descriptor_read_failed)
  unfolding decode obj virtio_gpu_ctrl_hdr
  decode-invalid_type bytes t = (
    (forward (virtio_gpu_ctrl_hdr.read_obj bytes) refl, backward),
    λ short. rw (virtio_gpu_ctrl_hdr.read-short bytes short, decode) refl,
  )
    where
      forward :
          (r : Reading VirtioGpuCtrlHdr)
          → virtio_gpu_ctrl_hdr.read_obj bytes ≡ r
          → obj r (with_header code) ≡ err (invalid_type t)
          → IsUnknown bytes t
      forward none e q = cc
      forward (some (hdr, rest)) e q =
          let (same, unknown) = with_header-unknown hdr rest t q in (hdr, rest, e, same, unknown)

      backward : IsUnknown bytes t → decode code bytes ≡ err (invalid_type t)
      backward (hdr, rest, e, same, unknown) =
          rw (e, decode)
            (let missing =
                ap (λ c. find_type code c command_types) same
                ∙ find_type-unknown t command_types unknown in
              unfold with_header in rw (missing, with_header) (ap (λ c. err (invalid_type c)) same))
