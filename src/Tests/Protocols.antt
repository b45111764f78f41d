-- ===== src/Tests/Protocols.antt =====
-- Commands and responses of the GPU protocol, over a writer of a fixed room.
use virtio_device_poc.Base.{
  ℕ, ◌-◌, ◌^◌, ◌<◌, ◌≡◌, ◌≢◌, ◌↔◌, ◌⊎◌, refl, sym, ap, ◌∙◌, none, some, List, [], ◌∷◌, ◌++◌, ok,
  err, length, replicate, get_elem?, take, leb, if◌then◌else◌, arith, le→leb, min,
}
use mathlib.Core.Option.{some-injective}
use virtio_device_poc.Gpu.Layout.{le, struct, array, ◌&◌}
use virtio_device_poc.Gpu.Protocol.Structs.{
  VirtioGpuCtrlHdr, virtio_gpu_ctrl_hdr, virtio_gpu_rect, virtio_gpu_set_scanout,
}
use virtio_device_poc.Gpu.Protocol.Commands
use virtio_device_poc.Gpu.Protocol.Commands.{
  CommandType, command_types, GpuCommand, decode, invalid_type, descriptor_read_failed,
}
use virtio_device_poc.Gpu.Protocol.Commands.Written.{command_bytes, IsCommand}
use virtio_device_poc.Gpu.Protocol.Commands.Places.{position, get_elem?-position}
use virtio_device_poc.Gpu.Protocol.Commands.RoundTrip.{decode-command_bytes}
use virtio_device_poc.Gpu.Protocol.Commands.Refusals.{decode-invalid_type}
use virtio_device_poc.Gpu.Protocol.Responses.{
  GpuResponse, ok_no_data, ok_edid, ok_map_info, ok_resource_plane_info, ResponseType, WriterApi,
  response_hdr, encode, get_type,
}
use virtio_device_poc.Gpu.Protocol.Responses.Written.{WriterLaws, response_size, encode-writes}
use virtio_device_poc.Gpu.Protocol.Responses.Faults.{
  IsMisfit, encode-panic_iff, encode-forgets_planes,
}

-- The types are numbered in order.
position-injective : (j k : CommandType) → position j ≡ position k → j ≡ k
position-injective j k e =
    some-injective j k
      (sym (get_elem?-position j) ∙ ap (get_elem? command_types) e ∙ get_elem?-position k)

abbrev hdr : ℕ → VirtioGpuCtrlHdr
hdr type_ = record {
  type_ = type_;
  flags = 1;
  fence_id = 9;
  ctx_id = 0;
  ring_idx = 0;
  padding = 0 ∷ 0 ∷ 0 ∷ [];
}

abbrev show : GpuCommand
show = Commands.set_scanout (record {
  r = record { x = 0; y = 0; width = 640; height = 480 };
  scanout_id = 2;
  resource_id = 7;
})

hdr_fits : virtio_gpu_ctrl_hdr.Fits (hdr 4)
unfolding virtio_gpu_ctrl_hdr struct ◌&◌ array le
hdr_fits = (omega arith, (omega arith, (omega arith, (omega arith, (omega arith, refl)))))

show-IsCommand : IsCommand show
unfolding IsCommand virtio_gpu_set_scanout virtio_gpu_rect struct ◌&◌ le
show-IsCommand =
    ((omega arith, (omega arith, (omega arith, omega arith))), (omega arith, omega arith))

decode-command_bytes_example :
    decode position (virtio_gpu_ctrl_hdr.as_bytes (hdr 4) ++ (command_bytes show ++ 1 ∷ 2 ∷ []))
    ≡ ok (hdr 4, show)
decode-command_bytes_example =
    decode-command_bytes position position-injective (hdr 4) show (1 ∷ 2 ∷ []) hdr_fits refl
      show-IsCommand

abbrev short : List ℕ
short = 1 ∷ 2 ∷ []

decode-invalid_type_example :
    ((decode position short ≡ err (invalid_type 99)) ↔ (
      (h : VirtioGpuCtrlHdr) × (rest : List ℕ) × (virtio_gpu_ctrl_hdr.read_obj short
        ≡ some (h, rest))
      × (h.type_ ≡ 99)
      × ((k : CommandType) → position k ≢ 99)))
    × (length short < 24 → decode position short ≡ err descriptor_read_failed)
decode-invalid_type_example = decode-invalid_type position short 99

-- A writer is what it wrote, and its room.
abbrev pub buffer : WriterApi
buffer = record {
  Writer = List ℕ × ℕ;
  available_bytes = λ (written, room). room;
  write_obj = λ (written, room) bytes.
      if leb (length bytes) room then some (written ++ bytes, room - length bytes) else none;
  write = λ (written, room) bytes. some (
    (written ++ take (min room (length bytes)) bytes, room - length bytes),
    min room (length bytes),
  );
}

buffer-WriterLaws : WriterLaws buffer
buffer-WriterLaws = record {
  contents = λ (written, room). written;
  write_obj_fits = λ (written, room) bytes fits. (
    (written ++ bytes, room - length bytes),
    rw (le→leb (length bytes) room fits) refl,
    refl,
    omega arith,
  );
  write_fits = λ (written, room) bytes fits.
      let whole : min room (length bytes) ≡ length bytes = omega arith in
      (
        (written ++ bytes, room - length bytes),
        rw whole (λ i. some ((written ++ take_whole bytes i, room - length bytes), length bytes)),
        refl,
        omega arith,
      );
}
  where
    take_whole : (bytes : List ℕ) → take (length bytes) bytes ≡ bytes
    take_whole [] = refl
    take_whole (b ∷ bytes) = ap (λ l. b ∷ l) (take_whole bytes)

abbrev pub code : ResponseType → ℕ
code r = 0x1100

response_fits :
    (r : GpuResponse)
    → get_type code r < 256 ^ 4
    → virtio_gpu_ctrl_hdr.Fits (response_hdr code r 1 9 0 0)
unfolding virtio_gpu_ctrl_hdr struct ◌&◌ array le
response_fits r fits = (fits, (omega arith, (omega arith, (omega arith, (omega arith, refl)))))

abbrev mapped : GpuResponse
mapped = ok_map_info 3

abbrev map_hdr : VirtioGpuCtrlHdr
map_hdr = record {
  type_ = 0x1100;
  flags = 1;
  fence_id = 9;
  ctx_id = 0;
  ring_idx = 0;
  padding = 0 ∷ 0 ∷ 0 ∷ [];
}

map_hdr-Fits : virtio_gpu_ctrl_hdr.Fits map_hdr
unfolding virtio_gpu_ctrl_hdr struct ◌&◌ array le
map_hdr-Fits = (omega arith, (omega arith, (omega arith, (omega arith, (omega arith, refl)))))

encode-writes_example :
    (writer' : List ℕ × ℕ) × (bytes body : List ℕ) × (encode code buffer mapped 1 9 0 0 ([], 100)
      ≡ some (ok (writer', 32)))
    × (writer'.0 ≡ [] ++ bytes)
    × (length bytes ≡ 32)
    × (virtio_gpu_ctrl_hdr.read_obj bytes ≡ some (map_hdr, body))
unfolding response_size buffer-WriterLaws
encode-writes_example =
    encode-writes code buffer buffer-WriterLaws mapped 1 9 0 0 ([], 100) map_hdr-Fits (omega arith)
      (omega arith)

-- An EDID of 128 bytes, as many monitors have.
abbrev monitor : GpuResponse
monitor = ok_edid (replicate 128 0)

encode-panic_iff_example : (encode code buffer monitor 1 9 0 0 ([], 2000) ≡ none) ↔ IsMisfit monitor
encode-panic_iff_example = encode-panic_iff code buffer monitor 1 9 0 0 ([], 2000)

monitor-IsMisfit : IsMisfit monitor
monitor-IsMisfit = (omega arith, omega arith)

abbrev planes : List (ℕ × ℕ)
planes = (2560, 0) ∷ []

encode-forgets_planes_example :
    (encode code buffer (ok_resource_plane_info 5 planes) 1 9 0 0 ([], 100)
      ≡ some (ok (([], 100), 72)))
    ⊎ ((100 < 72)
        × (writer' : List ℕ × ℕ) × (encode code buffer
              (ok_resource_plane_info 5 planes)
              1
              9
              0
              0
              ([], 100)
            ≡ some (ok (writer', 24)))
        × (writer'.0 ≡ [] ++ virtio_gpu_ctrl_hdr.as_bytes (response_hdr code ok_no_data 1 9 0 0)))
unfolding buffer-WriterLaws virtio_gpu_ctrl_hdr
encode-forgets_planes_example =
    encode-forgets_planes code buffer buffer-WriterLaws 5 planes 1 9 0 0 ([], 100)
      (response_fits ok_no_data (unfold get_type in omega arith)) (omega arith) (omega arith)
