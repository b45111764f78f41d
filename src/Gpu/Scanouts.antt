-- ===== src/Gpu/Scanouts.antt =====
-- Resources and the scanouts that show them. (device/virtio-gpu/src/virtio_gpu.rs)
use virtio_device_poc.Base.{
  ℕ, ◌^◌, Option, none, some, List, Result, ok, err, ◌==◌, if◌then◌else◌, bit_xor, bit_or,
  replicate, set, get_elem?, not,
}
pub use virtio_device_poc.Gpu.Protocol.Responses.{
  GpuResponse, ok_no_data, ok_resource_plane_info, err_unspec, err_invalid_scanout_id,
  err_invalid_resource_id, err_rutabaga, max_scanouts, VirtioGpuResult,
}
use virtio_device_poc.Gpu.Interface.{ResourceCreate3d, Transfer3d, CursorPos, RutabagaIovec}
use virtio_device_poc.Gpu.Fences.{FenceState, new_fence_state, RutabagaFence}

-- VhostUserGpuUpdate of vhost.
pub record ScanoutUpdate : Type 0 where
  pub scanout_id : ℕ
  pub x : ℕ
  pub y : ℕ
  pub width : ℕ
  pub height : ℕ

-- What the commands call in rutabaga and in the connection to the front-end. `transfer_read_to`
-- gives the bytes that it leaves in a buffer of so many zeros, and `create_fence` the fences for
-- which the fence handler is called before it returns.
pub record GpuHost : Type 1 where
  pub Rutabaga : Type 0
  pub GpuBackend : Type 0
  pub resource_create_3d : Rutabaga → ℕ → ResourceCreate3d → Rutabaga × Result (Unit {0}) ℕ
  pub unref_resource : Rutabaga → ℕ → Rutabaga × Result (Unit {0}) ℕ
  pub query : Rutabaga → ℕ → Result (ℕ × List (ℕ × ℕ)) ℕ
  pub set_scanout : GpuBackend → ℕ → ℕ → ℕ → GpuBackend × Result (Unit {0}) ℕ
  pub force_ctx_0 : Rutabaga → Rutabaga
  pub transfer_write : Rutabaga → ℕ → ℕ → Transfer3d → Rutabaga × Result (Unit {0}) ℕ
  pub transfer_read : Rutabaga → ℕ → ℕ → Transfer3d → Rutabaga × Result (Unit {0}) ℕ
  pub transfer_read_to : Rutabaga → ℕ → ℕ → Transfer3d → ℕ → Rutabaga × Result (List ℕ) ℕ
  pub attach_backing : Rutabaga → ℕ → List RutabagaIovec → Rutabaga × Result (Unit {0}) ℕ
  pub detach_backing : Rutabaga → ℕ → Rutabaga × Result (Unit {0}) ℕ
  pub get_capset_info : Rutabaga → ℕ → Result (ℕ × ℕ × ℕ) ℕ
  pub get_capset : Rutabaga → ℕ → ℕ → Result (List ℕ) ℕ
  pub create_context : Rutabaga → ℕ → ℕ → List ℕ → Rutabaga × Result (Unit {0}) ℕ
  pub destroy_context : Rutabaga → ℕ → Rutabaga × Result (Unit {0}) ℕ
  pub context_attach_resource : Rutabaga → ℕ → ℕ → Rutabaga × Result (Unit {0}) ℕ
  pub context_detach_resource : Rutabaga → ℕ → ℕ → Rutabaga × Result (Unit {0}) ℕ
  pub submit_command : Rutabaga → ℕ → List ℕ → List ℕ → Rutabaga × Result (Unit {0}) ℕ
  pub create_fence : Rutabaga → RutabagaFence → Rutabaga × List RutabagaFence × Result (Unit {0}) ℕ
  pub get_display_info : GpuBackend → GpuBackend × Result (List (ℕ × ℕ × ℕ)) ℕ
  pub get_edid : GpuBackend → ℕ → GpuBackend × Result (ℕ × List ℕ) ℕ
  pub update_scanout : GpuBackend → ScanoutUpdate → List ℕ → GpuBackend × Result (Unit {0}) ℕ
  pub cursor_update : GpuBackend → CursorPos → ℕ → ℕ → List ℕ → GpuBackend × Result (Unit {0}) ℕ
  pub cursor_pos : GpuBackend → CursorPos → GpuBackend × Result (Unit {0}) ℕ
  pub cursor_pos_hide : GpuBackend → CursorPos → GpuBackend × Result (Unit {0}) ℕ

-- AssociatedScanouts: a bit for each scanout.
unfoldable pub enable : ℕ → ℕ → ℕ
enable scanouts scanout_id = bit_or scanouts (2 ^ scanout_id)

unfoldable pub disable : ℕ → ℕ → ℕ
disable scanouts scanout_id = bit_xor scanouts (2 ^ scanout_id)

pub record VirtioGpuResource : Type 0 where
  pub id : ℕ
  pub width : ℕ
  pub height : ℕ
  pub scanouts : ℕ

abbrev pub Resources : Type 0
Resources = ℕ → Option VirtioGpuResource

unfoldable pub put_resource : Resources → ℕ → Option VirtioGpuResource → Resources
put_resource resources resource_id resource id =
    if id == resource_id then resource else resources id

module _ (h : GpuHost) where
  -- A scanout is `none` while it is disabled, and the id of its resource otherwise.
  pub record RutabagaVirtioGpu : Type 0 where
    pub rutabaga : h.Rutabaga
    pub gpu_backend : h.GpuBackend
    pub resources : Resources
    pub scanouts : List (Option ℕ)
    pub fence_state : FenceState

  unfoldable pub new_gpu : h.Rutabaga → h.GpuBackend → RutabagaVirtioGpu
  new_gpu rutabaga gpu_backend = record {
    rutabaga = rutabaga;
    gpu_backend = gpu_backend;
    resources = λ id. none;
    scanouts = replicate max_scanouts none;
    fence_state = new_fence_state;
  }

  -- The resource that the scanout showed no longer lists it; `none` if there is no such resource.
  unfoldable pub leave_resource : RutabagaVirtioGpu → ℕ → Option ℕ → Option RutabagaVirtioGpu
  unfolding disable put_resource
  leave_resource g scanout_id none = some g
  leave_resource g scanout_id (some resource_id) = elim (g.resources resource_id) [
    | none ↦ none
    | some resource ↦ some (record g {
      resources =
          put_resource g.resources resource_id
            (some (record resource { scanouts = disable resource.scanouts scanout_id }));
    })
  ]

  unfoldable pub disable_scanout : RutabagaVirtioGpu → ℕ → RutabagaVirtioGpu × VirtioGpuResult
  disable_scanout g scanout_id =
      let (gpu_backend, r) = h.set_scanout g.gpu_backend scanout_id 0 0 in
      let disabled : RutabagaVirtioGpu = record g {
        gpu_backend = gpu_backend;
        scanouts = set g.scanouts scanout_id none;
      } in
      elim r [ err e ↦ (disabled, err err_unspec) | ok done ↦ (disabled, ok ok_no_data) ]

  -- The front-end is told of a scanout that was disabled only.
  unfoldable pub announce_scanout :
      RutabagaVirtioGpu → ℕ → Option ℕ → ℕ → ℕ → h.GpuBackend × Result (Unit {0}) ℕ
  announce_scanout g scanout_id none width height =
      h.set_scanout g.gpu_backend scanout_id width height
  announce_scanout g scanout_id (some id) width height = (g.gpu_backend, ok tt)

  unfoldable pub enable_scanout :
      RutabagaVirtioGpu → ℕ → Option ℕ → ℕ → ℕ → ℕ → RutabagaVirtioGpu × VirtioGpuResult
  unfolding announce_scanout enable put_resource
  enable_scanout g scanout_id scanout resource_id width height =
      let (gpu_backend, r) = announce_scanout g scanout_id scanout width height in
      let announced : RutabagaVirtioGpu = record g { gpu_backend = gpu_backend } in
      elim r [
        | err e ↦ (announced, err err_unspec)
        | ok done ↦ elim (g.resources resource_id) [
          | none ↦ (announced, err err_invalid_resource_id)
          | some resource ↦ (
            record announced {
              resources =
                  put_resource g.resources resource_id
                    (some (record resource { scanouts = enable resource.scanouts scanout_id }));
              scanouts = set g.scanouts scanout_id (some resource_id);
            },
            ok ok_no_data,
          )
        ]
      ]

  unfoldable pub set_scanout :
      RutabagaVirtioGpu → ℕ → ℕ → ℕ → ℕ → RutabagaVirtioGpu × VirtioGpuResult
  unfolding leave_resource disable_scanout enable_scanout
  set_scanout g scanout_id resource_id width height = elim (get_elem? g.scanouts scanout_id) [
    | none ↦ (g, err err_invalid_scanout_id)
    | some scanout ↦ elim (leave_resource g scanout_id scanout) [
      | none ↦ (g, err err_invalid_resource_id)
      | some left ↦
          if resource_id == 0
          then disable_scanout left scanout_id
          else enable_scanout left scanout_id scanout resource_id width height
    ]
  ]

  unfoldable pub result_from_query : RutabagaVirtioGpu → ℕ → GpuResponse
  result_from_query g resource_id = elim (h.query g.rutabaga resource_id) [
    | err e ↦ ok_no_data
    | ok (modifier, planes) ↦ ok_resource_plane_info modifier planes
  ]

  -- The assertion on a duplicate, which a release build leaves out, is left out.
  unfoldable pub resource_create_3d :
      RutabagaVirtioGpu → ℕ → ResourceCreate3d → RutabagaVirtioGpu × VirtioGpuResult
  unfolding put_resource result_from_query
  resource_create_3d g resource_id create =
      let (rutabaga, r) = h.resource_create_3d g.rutabaga resource_id create in
      let called : RutabagaVirtioGpu = record g { rutabaga = rutabaga } in
      let created : RutabagaVirtioGpu = record called {
        resources = put_resource g.resources resource_id (
            some (record {
              id = resource_id;
              width = create.width;
              height = create.height;
              scanouts = 0;
            }));
      } in
      elim r [
        | err e ↦ (called, err (err_rutabaga e))
        | ok done ↦ (created, ok (result_from_query created resource_id))
      ]

  unfoldable pub unref_resource : RutabagaVirtioGpu → ℕ → RutabagaVirtioGpu × VirtioGpuResult
  unfolding put_resource
  unref_resource g resource_id =
      let removed : RutabagaVirtioGpu = record g {
        resources = put_resource g.resources resource_id none;
      } in
      let (rutabaga, r) = h.unref_resource g.rutabaga resource_id in
      let released : RutabagaVirtioGpu = record removed { rutabaga = rutabaga } in
      elim (g.resources resource_id) [
        | none ↦ (removed, err err_invalid_resource_id)
        | some resource ↦
            if not (resource.scanouts == 0) then (removed, err err_unspec) else elim r [
              | err e ↦ (released, err (err_rutabaga e))
              | ok done ↦ (released, ok ok_no_data)
            ]
      ]
