-- ===== src/Gpu/Protocol/Responses/Written.antt =====
-- What the guest reads of an encoded response.
use virtio_device_poc.Base.{
  ℕ, zero, suc, ◌+◌, ◌^◌, ◌≤◌, ◌<◌, ◌≡◌, refl, sym, ap, ◌∙◌, Bool, true, false, some, List, [], ◌∷◌,
  ◌++◌, ok, ◌==◌, leb, ltb, if◌then◌else◌, length, length-append, arith,
}
use mathlib.Core.List.{append_assoc, append-nil}
use virtio_device_poc.Gpu.Layout.{ByteValued, le, array, struct, ◌&◌}
use virtio_device_poc.Gpu.Layout.Arrays.{many, AllFit}
use virtio_device_poc.Gpu.Protocol.Structs.{VirtioGpuCtrlHdr, virtio_gpu_ctrl_hdr, virtio_gpu_rect}
use virtio_device_poc.Gpu.Protocol.Answers.{
  virtio_gpu_display_one, virtio_gpu_resp_display_info, virtio_gpu_resp_edid,
  virtio_gpu_resp_capset_info, virtio_gpu_resp_resource_uuid, virtio_gpu_resp_map_info,
}
use virtio_device_poc.Gpu.Protocol.Responses.{
  GpuResponse, ok_no_data, ok_display_info, ok_edid, ok_capset_info, ok_capset,
  ok_resource_plane_info, ok_resource_uuid, ok_map_info, err_unspec, err_rutabaga, err_scanout,
  err_out_of_memory, err_invalid_scanout_id, err_invalid_resource_id, err_invalid_context_id,
  err_invalid_parameter, ResponseType, WriterApi, display_modes, Encoded, written, write_one,
  write_capset, write_edid, encode_body, response_hdr, encode, get_type, resp_ok_nodata,
  resp_ok_display_info, resp_ok_edid, resp_ok_capset_info, resp_ok_capset, resp_ok_resource_uuid,
  resp_ok_map_info, resp_err_unspec, resp_err_out_of_memory, resp_err_invalid_scanout_id,
  resp_err_invalid_resource_id, resp_err_invalid_context_id, resp_err_invalid_parameter,
}

-- The Writer of virtio-queue writes all of what it has room for behind what it wrote before.
pub record WriterLaws (w : WriterApi) : Type 0 where
  pub contents : w.Writer → List ℕ
  pub write_obj_fits :
      (writer : w.Writer) (bytes : List ℕ)
      → length bytes ≤ w.available_bytes writer
      → (writer' : w.Writer) × (w.write_obj writer bytes ≡ some writer')
        × (contents writer' ≡ contents writer ++ bytes)
        × (w.available_bytes writer' + length bytes ≡ w.available_bytes writer)
  pub write_fits :
      (writer : w.Writer) (bytes : List ℕ)
      → length bytes ≤ w.available_bytes writer
      → (writer' : w.Writer) × (w.write writer bytes ≡ some (writer', length bytes))
        × (contents writer' ≡ contents writer ++ bytes)
        × (w.available_bytes writer' + length bytes ≡ w.available_bytes writer)

-- The length of a response.
unfoldable pub response_size : GpuResponse → ℕ
response_size (ok_display_info info) = 408
response_size (ok_edid blob) = 1056
response_size (ok_capset_info capset_id version size) = 40
response_size (ok_capset bytes) = 24 + length bytes
response_size (ok_resource_plane_info format_modifier plane_info) = 72
response_size (ok_resource_uuid uuid) = 40
response_size (ok_map_info map_info) = 32
response_size r = 24

abbrev pub ModesFit : List (ℕ × ℕ × Bool) → Type 0
ModesFit [] = Unit
ModesFit ((width, height, enabled) ∷ info) = (width < 256 ^ 4) × (height < 256 ^ 4) × ModesFit info

-- What the field types enforce, without too many displays, a short EDID, or planes.
abbrev pub IsEncodable : GpuResponse → Type 0
IsEncodable (ok_display_info info) = (length info ≤ 16) × ModesFit info
IsEncodable (ok_edid blob) = length blob ≡ 1024
IsEncodable (ok_capset_info capset_id version size) =
    (capset_id < 256 ^ 4) × (version < 256 ^ 4) × (size < 256 ^ 4)
IsEncodable (ok_capset bytes) = 24 + length bytes < 2 ^ 32
IsEncodable (ok_resource_plane_info format_modifier plane_info) = ⊥
IsEncodable (ok_resource_uuid uuid) = length uuid ≡ 16
IsEncodable (ok_map_info map_info) = map_info < 256 ^ 4
IsEncodable r = Unit

length-display_modes : (n : ℕ) (info : List (ℕ × ℕ × Bool)) → length (display_modes n info) ≡ n
unfolding display_modes
length-display_modes zero info = refl
length-display_modes (suc n) [] = omega (arith, length-display_modes n [])
length-display_modes (suc n) ((width, height, enabled) ∷ info) =
    omega (arith, length-display_modes n info)

enabled-fits : (b : Bool) → (if b then 1 else 0) < 256 ^ 4
enabled-fits true = omega arith
enabled-fits false = omega arith

display_modes-AllFit :
    (n : ℕ) (info : List (ℕ × ℕ × Bool))
    → ModesFit info
    → AllFit virtio_gpu_display_one (display_modes n info)
unfolding display_modes virtio_gpu_display_one virtio_gpu_rect struct ◌&◌ le
display_modes-AllFit zero info f = tt
display_modes-AllFit (suc n) [] f = (
  ((omega arith, (omega arith, (omega arith, omega arith))), (omega arith, omega arith)),
  display_modes-AllFit n [] tt,
)
display_modes-AllFit (suc n) ((width, height, enabled) ∷ info) f = (
  ((omega arith, (omega arith, (f.0, f.1))), (enabled-fits enabled, omega arith)),
  display_modes-AllFit n info f.2,
)

module _ (code : ResponseType → ℕ) (w : WriterApi) (laws : WriterLaws w) where
  -- The call answers that it wrote so many bytes, and so many follow, the header first.
  abbrev pub Writes : VirtioGpuCtrlHdr → w.Writer → ℕ → Encoded code w → Type 0
  Writes hdr writer size e =
      (writer' : w.Writer) × (body : List ℕ) × (e ≡ some (ok (writer', size)))
      × (laws.contents writer' ≡ laws.contents writer ++ (virtio_gpu_ctrl_hdr.as_bytes hdr ++ body))
      × (length (virtio_gpu_ctrl_hdr.as_bytes hdr ++ body) ≡ size)

  pub written-small :
      (writer : w.Writer) (len : ℕ)
      → len < 2 ^ 32
      → written code w writer len ≡ some (ok (writer, len))
  unfolding written
  written-small writer len small = ground arith

  pub write_one-writes :
      {A : Type 0} (l : ByteValued A) (x : A) (writer : w.Writer)
      → l.Fits x
      → l.size ≤ w.available_bytes writer
      → l.size < 2 ^ 32
      → (writer' : w.Writer) × (write_one code w l x writer ≡ some (ok (writer', l.size)))
        × (laws.contents writer' ≡ laws.contents writer ++ l.as_bytes x)
  unfolding write_one
  write_one-writes l x writer f room small =
      let len = l.length-as_bytes x f in
      let (writer', e, c, a) = laws.write_obj_fits writer (l.as_bytes x) (omega arith) in
      (writer', rw (e, write_one) (written-small writer' l.size small), c)

  -- A structure that begins with the header.
  one-Writes :
      {A : Type 0} (l : ByteValued A) (x : A) (hdr : VirtioGpuCtrlHdr) (writer : w.Writer)
      → (body : List ℕ) × (l.as_bytes x ≡ virtio_gpu_ctrl_hdr.as_bytes hdr ++ body)
      → l.Fits x
      → l.size ≤ w.available_bytes writer
      → l.size < 2 ^ 32
      → Writes hdr writer l.size (write_one code w l x writer)
  one-Writes l x hdr writer (body, same) f room small =
      let (writer', e, c) = write_one-writes l x writer f room small in
      (
        writer',
        body,
        e,
        c ∙ ap (λ bytes. laws.contents writer ++ bytes) same,
        ap length (sym same) ∙ l.length-as_bytes x f,
      )

  hdr-Writes :
      (hdr : VirtioGpuCtrlHdr) (writer : w.Writer)
      → virtio_gpu_ctrl_hdr.Fits hdr
      → 24 ≤ w.available_bytes writer
      → Writes hdr writer 24 (write_one code w virtio_gpu_ctrl_hdr hdr writer)
  unfolding virtio_gpu_ctrl_hdr struct ◌&◌ array le
  hdr-Writes hdr writer f room =
      one-Writes virtio_gpu_ctrl_hdr hdr hdr writer
        ([], sym (append-nil (virtio_gpu_ctrl_hdr.as_bytes hdr))) f room (omega arith)

  capset-Writes :
      (hdr : VirtioGpuCtrlHdr) (bytes : List ℕ) (writer : w.Writer)
      → virtio_gpu_ctrl_hdr.Fits hdr
      → 24 + length bytes < 2 ^ 32
      → 24 + length bytes ≤ w.available_bytes writer
      → Writes hdr writer (24 + length bytes) (write_capset code w hdr bytes writer)
  unfolding write_capset
  capset-Writes hdr bytes writer f small room =
      let len : length (virtio_gpu_ctrl_hdr.as_bytes hdr) ≡ 24 =
        unfold virtio_gpu_ctrl_hdr struct ◌&◌ array le in
        virtio_gpu_ctrl_hdr.length-as_bytes hdr f in
      let size : virtio_gpu_ctrl_hdr.size ≡ 24 =
        unfold virtio_gpu_ctrl_hdr struct ◌&◌ array le in refl in
      let (one, e, c, a) =
        laws.write_obj_fits writer (virtio_gpu_ctrl_hdr.as_bytes hdr) (omega arith) in
      let (two, e', c', a') = laws.write_fits one bytes (omega arith) in
      (
        two,
        bytes,
        rw (e, write_capset) (rw e' (rw size (written-small two (24 + length bytes) small))),
        c'
            ∙ ap (λ before. before ++ bytes) c
            ∙ append_assoc (laws.contents writer) (virtio_gpu_ctrl_hdr.as_bytes hdr) bytes,
        length-append (virtio_gpu_ctrl_hdr.as_bytes hdr) bytes ∙ omega arith,
      )

  body-Writes :
      (hdr : VirtioGpuCtrlHdr) (r : GpuResponse) (writer : w.Writer)
      → virtio_gpu_ctrl_hdr.Fits hdr
      → IsEncodable r
      → response_size r ≤ w.available_bytes writer
      → Writes hdr writer (response_size r) (encode_body code w hdr r writer)
  unfolding encode_body response_size write_edid virtio_gpu_resp_display_info virtio_gpu_resp_edid
      virtio_gpu_resp_capset_info virtio_gpu_resp_resource_uuid virtio_gpu_resp_map_info
      virtio_gpu_ctrl_hdr virtio_gpu_display_one virtio_gpu_rect struct ◌&◌ array le many
  body-Writes hdr (ok_display_info info) writer f g room =
      let few : ltb 16 (length info) ≡ false = ground arith in
      rw few (
        one-Writes virtio_gpu_resp_display_info _ hdr writer (_, refl)
          (f, (length-display_modes 16 info, display_modes-AllFit 16 info g.1)) room (omega arith))
  body-Writes hdr (ok_edid blob) writer f g room =
      let small : leb (2 ^ 32) (length blob) ≡ false = ground arith in
      let whole : (length blob == 1024) ≡ true = ground arith in
      rw (small, write_edid)
        (rw whole (
          one-Writes virtio_gpu_resp_edid _ hdr writer (_, refl)
            (f, (omega arith, (omega arith, g))) room (omega arith)))
  body-Writes hdr (ok_capset_info capset_id version size) writer f g room =
      one-Writes virtio_gpu_resp_capset_info _ hdr writer (_, refl)
        (f, (g.0, (g.1, (g.2, omega arith)))) room (omega arith)
  body-Writes hdr (ok_capset bytes) writer f g room = capset-Writes hdr bytes writer f g room
  body-Writes hdr (ok_resource_plane_info format_modifier plane_info) writer f g room = absurd g
  body-Writes hdr (ok_resource_uuid uuid) writer f g room =
      one-Writes virtio_gpu_resp_resource_uuid _ hdr writer (_, refl) (f, g) room (omega arith)
  body-Writes hdr (ok_map_info map_info) writer f g room =
      one-Writes virtio_gpu_resp_map_info _ hdr writer (_, refl) (f, (g, omega arith)) room
        (omega arith)
  body-Writes hdr ok_no_data writer f g room = hdr-Writes hdr writer f room
  body-Writes hdr err_unspec writer f g room = hdr-Writes hdr writer f room
  body-Writes hdr (err_rutabaga e) writer f g room = hdr-Writes hdr writer f room
  body-Writes hdr (err_scanout n) writer f g room = hdr-Writes hdr writer f room
  body-Writes hdr err_out_of_memory writer f g room = hdr-Writes hdr writer f room
  body-Writes hdr err_invalid_scanout_id writer f g room = hdr-Writes hdr writer f room
  body-Writes hdr err_invalid_resource_id writer f g room = hdr-Writes hdr writer f room
  body-Writes hdr err_invalid_context_id writer f g room = hdr-Writes hdr writer f room
  body-Writes hdr err_invalid_parameter writer f g room = hdr-Writes hdr writer f room

  -- The type that the VIRTIO specification gives a response: one for each kind of answer, and the
  -- unspecified error for those of the renderer and of the scanouts.
  abbrev pub specified_type : GpuResponse → ℕ
  specified_type (ok_display_info info) = code resp_ok_display_info
  specified_type (ok_capset_info capset_id version size) = code resp_ok_capset_info
  specified_type (ok_capset bytes) = code resp_ok_capset
  specified_type (ok_edid blob) = code resp_ok_edid
  specified_type (ok_resource_uuid uuid) = code resp_ok_resource_uuid
  specified_type (ok_map_info map_info) = code resp_ok_map_info
  specified_type (ok_resource_plane_info format_modifier plane_info) = 0x11ff
  specified_type ok_no_data = code resp_ok_nodata
  specified_type err_out_of_memory = code resp_err_out_of_memory
  specified_type err_invalid_scanout_id = code resp_err_invalid_scanout_id
  specified_type err_invalid_resource_id = code resp_err_invalid_resource_id
  specified_type err_invalid_context_id = code resp_err_invalid_context_id
  specified_type err_invalid_parameter = code resp_err_invalid_parameter
  specified_type err_unspec = code resp_err_unspec
  specified_type (err_rutabaga e) = code resp_err_unspec
  specified_type (err_scanout num_scanouts) = code resp_err_unspec

  get_type-specified : (r : GpuResponse) → get_type code r ≡ specified_type r
  unfolding get_type
  get_type-specified ok_no_data = refl
  get_type-specified (ok_display_info info) = refl
  get_type-specified (ok_edid blob) = refl
  get_type-specified (ok_capset_info capset_id version size) = refl
  get_type-specified (ok_capset bytes) = refl
  get_type-specified (ok_resource_plane_info format_modifier plane_info) = refl
  get_type-specified (ok_resource_uuid uuid) = refl
  get_type-specified (ok_map_info map_info) = refl
  get_type-specified err_unspec = refl
  get_type-specified (err_rutabaga e) = refl
  get_type-specified (err_scanout num_scanouts) = refl
  get_type-specified err_out_of_memory = refl
  get_type-specified err_invalid_scanout_id = refl
  get_type-specified err_invalid_resource_id = refl
  get_type-specified err_invalid_context_id = refl
  get_type-specified err_invalid_parameter = refl

  module _ (r : GpuResponse) (flags fence_id ctx_id ring_idx : ℕ) (writer : w.Writer) where
    -- The header that the guest has to read.
    abbrev pub answered_hdr : VirtioGpuCtrlHdr
    answered_hdr = record {
      type_ = specified_type r;
      flags = flags;
      fence_id = fence_id;
      ctx_id = ctx_id;
      ring_idx = ring_idx;
      padding = 0 ∷ 0 ∷ 0 ∷ [];
    }

    -- A response that has room, other than one with planes or an EDID of another length than 1024,
    -- is answered with the number of bytes that were written behind what the chain held, and the
    -- guest that reads a header from these gets the type that is specified for the response, and
    -- the flags, the fence, the context and the ring that were asked for.
    pub encode-writes :
        virtio_gpu_ctrl_hdr.Fits answered_hdr
        → IsEncodable r
        → response_size r ≤ w.available_bytes writer
        → (writer' : w.Writer) × (bytes body : List ℕ) × (encode code w r flags fence_id ctx_id
              ring_idx writer
            ≡ some (ok (writer', response_size r)))
          × (laws.contents writer' ≡ laws.contents writer ++ bytes)
          × (length bytes ≡ response_size r)
          × (virtio_gpu_ctrl_hdr.read_obj bytes ≡ some (answered_hdr, body))
    unfolding encode
    encode-writes f g room =
        let same : response_hdr code r flags fence_id ctx_id ring_idx ≡ answered_hdr =
          ap (λ t. record answered_hdr { type_ = t }) (get_type-specified r) in
        let (writer', body, e, c, l) = body-Writes answered_hdr r writer f g room in
        (
          writer',
          virtio_gpu_ctrl_hdr.as_bytes answered_hdr ++ body,
          body,
          ap (λ hdr. encode_body code w hdr r writer) same ∙ e,
          c,
          l,
          virtio_gpu_ctrl_hdr.read-as_bytes answered_hdr body f,
        )
