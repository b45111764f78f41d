-- ===== src/Gpu/Protocol/Responses/Faults.antt =====
-- The two responses that the encoding does not write.
use virtio_device_poc.Base.{
  ℕ, ◌+◌, ◌^◌, ◌≤◌, ◌<◌, ◌≡◌, ◌≢◌, ◌⊎◌, inl, inr, ◌↔◌, Bool, false, none, some, List, ◌++◌, Result,
  ok, err, ◌==◌, leb, ltb, length, arith, by_bool, by_option, Bool-cases,
}
use virtio_device_poc.Gpu.Layout.{ByteValued}
use virtio_device_poc.Gpu.Protocol.Structs.{VirtioGpuCtrlHdr, virtio_gpu_ctrl_hdr}
use virtio_device_poc.Gpu.Protocol.Answers.{
  virtio_gpu_resp_edid, virtio_gpu_resp_display_info, virtio_gpu_resp_capset_info,
  virtio_gpu_resp_resource_uuid, virtio_gpu_resp_map_info, virtio_gpu_resp_resource_plane_info,
}
use virtio_device_poc.Gpu.Layout.{struct, le, array, ◌&◌}
use virtio_device_poc.Gpu.Layout.Arrays.{many}
use virtio_device_poc.Gpu.Protocol.Responses.{
  GpuResponse, ok_no_data, ok_display_info, ok_edid, ok_capset_info, ok_capset,
  ok_resource_plane_info, ok_resource_uuid, ok_map_info, err_unspec, err_rutabaga, err_scanout,
  err_out_of_memory, err_invalid_scanout_id, err_invalid_resource_id, err_invalid_context_id,
  err_invalid_parameter, GpuResponseEncodeError, too_many_displays, too_many_planes, display_modes,
  ResponseType, resp_ok_nodata, WriterApi, Encoded, written, write_one, write_capset, write_planes,
  write_edid, encode_body, response_hdr, encode, get_type,
}
use virtio_device_poc.Gpu.Protocol.Responses.Written.{WriterLaws, written-small, write_one-writes}

-- An EDID that is not as long as the array it is copied to.
abbrev pub IsMisfit : GpuResponse → Type 0
IsMisfit (ok_edid blob) = (length blob < 2 ^ 32) × (length blob ≢ 1024)
IsMisfit r = ⊥

module _ (code : ResponseType → ℕ) (w : WriterApi) where
  -- Shut, so that what answers is found by unification.
  IsAnswered : Encoded code w → Type 0
  IsAnswered e = e ≢ none

  answered : (r : Result (w.Writer × ℕ) GpuResponseEncodeError) → IsAnswered (some r)
  unfolding IsAnswered
  answered r h = cc

  IsAnswered-ne : {e : Encoded code w} → IsAnswered e → e ≢ none
  unfolding IsAnswered
  IsAnswered-ne a = a

  written-answers : (writer : w.Writer) (len : ℕ) → IsAnswered (written code w writer len)
  unfolding written
  written-answers writer len =
      by_bool IsAnswered (ltb len (2 ^ 32)) (some (ok (writer, len))) _ (λ l. answered _)
        (λ l. answered _)

  write_one-answers :
      {A : Type 0} (l : ByteValued A) (x : A) (writer : w.Writer)
      → IsAnswered (write_one code w l x writer)
  unfolding write_one
  write_one-answers l x writer =
      by_option IsAnswered (w.write_obj writer (l.as_bytes x)) _ _ (λ full. answered _)
        (λ writer' e. written-answers writer' l.size)

  capset-answers :
      (hdr : VirtioGpuCtrlHdr) (bytes : List ℕ) (writer : w.Writer)
      → IsAnswered (write_capset code w hdr bytes writer)
  unfolding write_capset
  capset-answers hdr bytes writer =
      by_option IsAnswered (w.write_obj writer (virtio_gpu_ctrl_hdr.as_bytes hdr)) _ _
        (λ full. answered _)
        (λ writer' e.
          by_option IsAnswered (w.write writer' bytes) _ _ (λ full. answered _)
            (λ (writer'', n) e'.
              written-answers writer'' (virtio_gpu_ctrl_hdr.size + length bytes)))

  planes-answers :
      (hdr : VirtioGpuCtrlHdr) (writer : w.Writer) → IsAnswered (write_planes code w hdr writer)
  unfolding write_planes
  planes-answers hdr writer =
      by_bool IsAnswered (leb virtio_gpu_resp_resource_plane_info.size (w.available_bytes writer))
        (written code w writer virtio_gpu_resp_resource_plane_info.size)
        (write_one code w virtio_gpu_ctrl_hdr (record hdr { type_ = code resp_ok_nodata }) writer)
        (λ room. written-answers writer _) (λ full. write_one-answers virtio_gpu_ctrl_hdr _ writer)

  edid-answers :
      (hdr : VirtioGpuCtrlHdr) (blob : List ℕ) (writer : w.Writer)
      → length blob ≡ 1024
      → IsAnswered (write_edid code w hdr blob writer)
  unfolding write_edid
  edid-answers hdr blob writer whole =
      by_bool IsAnswered (leb (2 ^ 32) (length blob)) _ _ (λ large. answered _)
        (λ small.
          by_bool IsAnswered (length blob == 1024)
            (write_one code w virtio_gpu_resp_edid
              (record { hdr = hdr; size = length blob; padding = 0; edid = blob }) writer)
            none (λ same. write_one-answers virtio_gpu_resp_edid _ writer)
            (λ other. absurd (ground arith)))

  edid_iff :
      (hdr : VirtioGpuCtrlHdr) (blob : List ℕ) (writer : w.Writer)
      → (write_edid code w hdr blob writer ≡ none) ↔ ((length blob < 2 ^ 32) × (length blob ≢ 1024))
  unfolding write_edid
  edid_iff hdr blob writer = (
    λ h. (ground arith, λ whole. IsAnswered-ne (edid-answers hdr blob writer whole) h),
    λ (small, other). ground arith,
  )

  display-answers :
      (hdr : VirtioGpuCtrlHdr) (info : List (ℕ × ℕ × Bool)) (writer : w.Writer)
      → IsAnswered (encode_body code w hdr (ok_display_info info) writer)
  unfolding encode_body
  display-answers hdr info writer =
      by_bool IsAnswered (ltb 16 (length info)) (some (err (too_many_displays (length info))))
        (write_one code w virtio_gpu_resp_display_info
          (record { hdr = hdr; pmodes = display_modes 16 info }) writer)
        (λ many. answered _) (λ few. write_one-answers virtio_gpu_resp_display_info _ writer)

  plane_info-answers :
      (hdr : VirtioGpuCtrlHdr) (m : ℕ) (planes : List (ℕ × ℕ)) (writer : w.Writer)
      → IsAnswered (encode_body code w hdr (ok_resource_plane_info m planes) writer)
  unfolding encode_body
  plane_info-answers hdr m planes writer =
      by_bool IsAnswered (ltb 4 (length planes)) (some (err (too_many_planes (length planes))))
        (write_planes code w hdr writer) (λ many. answered _) (λ few. planes-answers hdr writer)

  hdr_iff :
      (hdr : VirtioGpuCtrlHdr) (writer : w.Writer)
      → (write_one code w virtio_gpu_ctrl_hdr hdr writer ≡ none) ↔ ⊥
  hdr_iff hdr writer =
      (IsAnswered-ne (write_one-answers virtio_gpu_ctrl_hdr hdr writer), λ h. absurd h)

  body_iff :
      (hdr : VirtioGpuCtrlHdr) (r : GpuResponse) (writer : w.Writer)
      → (encode_body code w hdr r writer ≡ none) ↔ IsMisfit r
  unfolding encode_body
  body_iff hdr (ok_edid blob) writer = edid_iff hdr blob writer
  body_iff hdr (ok_display_info info) writer =
      (IsAnswered-ne (display-answers hdr info writer), λ h. absurd h)
  body_iff hdr (ok_capset bytes) writer =
      (IsAnswered-ne (capset-answers hdr bytes writer), λ h. absurd h)
  body_iff hdr (ok_resource_plane_info m planes) writer =
      (IsAnswered-ne (plane_info-answers hdr m planes writer), λ h. absurd h)
  body_iff hdr (ok_capset_info capset_id version size) writer =
      (IsAnswered-ne (write_one-answers virtio_gpu_resp_capset_info _ writer), λ h. absurd h)
  body_iff hdr (ok_resource_uuid uuid) writer =
      (IsAnswered-ne (write_one-answers virtio_gpu_resp_resource_uuid _ writer), λ h. absurd h)
  body_iff hdr (ok_map_info map_info) writer =
      (IsAnswered-ne (write_one-answers virtio_gpu_resp_map_info _ writer), λ h. absurd h)
  body_iff hdr ok_no_data writer = hdr_iff hdr writer
  body_iff hdr err_unspec writer = hdr_iff hdr writer
  body_iff hdr (err_rutabaga e) writer = hdr_iff hdr writer
  body_iff hdr (err_scanout n) writer = hdr_iff hdr writer
  body_iff hdr err_out_of_memory writer = hdr_iff hdr writer
  body_iff hdr err_invalid_scanout_id writer = hdr_iff hdr writer
  body_iff hdr err_invalid_resource_id writer = hdr_iff hdr writer
  body_iff hdr err_invalid_context_id writer = hdr_iff hdr writer
  body_iff hdr err_invalid_parameter writer = hdr_iff hdr writer

  -- Writing an answer panics exactly for an EDID of less than 2^32 bytes that are not 1024.
  pub encode-panic_iff :
      (r : GpuResponse) (flags fence_id ctx_id ring_idx : ℕ) (writer : w.Writer)
      → (encode code w r flags fence_id ctx_id ring_idx writer ≡ none) ↔ IsMisfit r
  unfolding encode
  encode-panic_iff r flags fence_id ctx_id ring_idx writer = body_iff _ r writer

  module _ (laws : WriterLaws w) where
    -- An answer about planes never holds the planes: up to four of them are either reported as 72
    -- bytes, of which none was written, or, where there is less room, as the header of an answer
    -- without data, which is what was written then.
    pub encode-forgets_planes :
        (format_modifier : ℕ) (plane_info : List (ℕ × ℕ)) (flags fence_id ctx_id ring_idx : ℕ)
        (writer : w.Writer)
        → virtio_gpu_ctrl_hdr.Fits (response_hdr code ok_no_data flags fence_id ctx_id ring_idx)
        → length plane_info ≤ 4
        → 24 ≤ w.available_bytes writer
        → (encode code w
              (ok_resource_plane_info format_modifier plane_info)
              flags
              fence_id
              ctx_id
              ring_idx
              writer
            ≡ some (ok (writer, 72)))
          ⊎ ((w.available_bytes writer < 72)
              × (writer' : w.Writer) × (encode code w
                    (ok_resource_plane_info format_modifier plane_info)
                    flags
                    fence_id
                    ctx_id
                    ring_idx
                    writer
                  ≡ some (ok (writer', 24)))
              × (laws.contents writer'
                  ≡ laws.contents writer
                    ++ virtio_gpu_ctrl_hdr.as_bytes
                        (response_hdr code ok_no_data flags fence_id ctx_id ring_idx)))
    unfolding encode encode_body get_type write_planes virtio_gpu_resp_resource_plane_info
        virtio_gpu_ctrl_hdr struct ◌&◌ le array many
    encode-forgets_planes m planes flags fence_id ctx_id ring_idx writer f few room =
        let some_planes : ltb 4 (length planes) ≡ false = ground arith in
        rw some_planes (elim (Bool-cases (leb 72 (w.available_bytes writer))) [
          | inl whole ↦ inl (rw whole (written-small code w laws writer 72 (omega arith)))
          | inr less ↦
              let (writer', e, c) =
                write_one-writes code w laws virtio_gpu_ctrl_hdr
                  (response_hdr code ok_no_data flags fence_id ctx_id ring_idx) writer f room
                  (omega arith) in
              inr (ground arith, writer', rw less e, c)
        ])
