-- ===== src/Gpu/Rutabaga.antt =====
-- The other operations of RutabagaVirtioGpu, and that it implements VirtioGpu.
-- (device/virtio-gpu/src/virtio_gpu.rs)
pub mod Flushed
pub mod Holding
use virtio_device_poc.Base.{
  ℕ, zero, suc, ◌+◌, ◌*◌, ◌%◌, ◌^◌, ◌≡◌, refl, sym, Bool, true, false, not, ◌||◌, Option, none,
  some, List, [], ◌∷◌, ◌++◌, map, Result, ok, err, ◌==◌, leb, ltb, if◌then◌else◌, take, length,
}
use virtio_device_poc.Base.Bits.{bit}
use virtio_device_poc.Gpu.Fences.{
  VirtioGpuRing, process_fence, signal_fences, RutabagaFence, FenceDescriptor,
}
use virtio_device_poc.Gpu.Interface.{
  Transfer3d, CursorPos, Rectangle, ResourceCreate3d, RutabagaIovec, VirtioGpu, HoldLaws,
}
use virtio_device_poc.Gpu.Protocol.Responses.{
  GpuResponse, VirtioGpuResult, ok_no_data, ok_display_info, ok_edid, ok_capset_info, ok_capset,
  err_unspec, err_rutabaga, err_invalid_resource_id, err_invalid_parameter, max_scanouts,
}
use virtio_device_poc.Gpu.Scanouts.{
  GpuHost, ScanoutUpdate, VirtioGpuResource, RutabagaVirtioGpu, set_scanout, unref_resource,
  resource_create_3d,
}

abbrev pub read_resource_bytes_per_pixel : ℕ
read_resource_bytes_per_pixel = 4

-- `checked_mul` on usize.
unfoldable pub checked_mul : ℕ → ℕ → Option ℕ
checked_mul x y = if ltb (x * y) (2 ^ 64) then some (x * y) else none

unfoldable pub calculate_size : VirtioGpuResource → Option ℕ
unfolding checked_mul
calculate_size r = elim (checked_mul r.width r.height) [
  | none ↦ none
  | some pixels ↦ checked_mul pixels read_resource_bytes_per_pixel
]

-- The scanouts from i on, so many, that are enabled.
unfoldable pub enabled_from : ℕ → ℕ → ℕ → List ℕ
enabled_from zero i scanouts = []
enabled_from (suc n) i scanouts =
    let rest = enabled_from n (i + 1) scanouts in if bit scanouts i == 1 then i ∷ rest else rest

unfoldable pub iter_enabled : ℕ → List ℕ
unfolding enabled_from
iter_enabled scanouts = enabled_from max_scanouts 0 scanouts

abbrev pub cursor_width : ℕ
cursor_width = 64

abbrev pub cursor_height : ℕ
cursor_height = 64

module _ (h : GpuHost) where
  abbrev pub Gpu : Type 0
  Gpu = RutabagaVirtioGpu h

  -- `self.rutabaga.f(..)?; Ok(OkNoData)`.
  unfoldable pub delegated : Gpu → h.Rutabaga × Result (Unit {0}) ℕ → Gpu × VirtioGpuResult
  delegated g (rutabaga, r) = (
    record g { rutabaga = rutabaga },
    elim r [ ok done ↦ ok ok_no_data | err e ↦ err (err_rutabaga e) ],
  )

  -- A call of the front-end, whose error is ErrUnspec.
  unfoldable pub fronted : Gpu → h.GpuBackend × Result (Unit {0}) ℕ → Gpu × VirtioGpuResult
  fronted g (gpu_backend, r) = (
    record g { gpu_backend = gpu_backend },
    elim r [ ok done ↦ ok ok_no_data | err e ↦ err err_unspec ],
  )

  unfoldable pub create_fence : Gpu → RutabagaFence → Gpu × VirtioGpuResult
  unfolding delegated signal_fences
  create_fence g fence =
      let (rutabaga, signalled, r) = h.create_fence g.rutabaga fence in
      delegated (record g { fence_state = signal_fences g.fence_state signalled }) (rutabaga, r)

  unfoldable pub display_info : Gpu → Gpu × VirtioGpuResult
  display_info g =
      let (gpu_backend, r) = h.get_display_info g.gpu_backend in
      (
        record g { gpu_backend = gpu_backend },
        elim r [
          | err e ↦ err err_unspec
          | ok pmodes ↦ ok (
              ok_display_info
                (map (λ (width, height, enabled). (width, height, enabled == 1)) pmodes))
        ],
      )

  -- The slice panics if the front-end gives a size beyond the array.
  unfoldable pub get_edid : Gpu → ℕ → Option (Gpu × VirtioGpuResult)
  get_edid g scanout_id =
      let (gpu_backend, r) = h.get_edid g.gpu_backend scanout_id in
      let called : Gpu = record g { gpu_backend = gpu_backend } in
      elim r [
        | err e ↦ some (called, err err_unspec)
        | ok (size, edid) ↦
            if leb size (length edid) then some (called, ok (ok_edid (take size edid))) else none
      ]

  -- The stride wraps in a release build. The assertion on the buffer is met by both callers.
  abbrev pub whole_resource : VirtioGpuResource → Transfer3d
  whole_resource r = record {
    x = 0;
    y = 0;
    z = 0;
    w = r.width;
    h = r.height;
    d = 1;
    level = 0;
    stride = r.width * read_resource_bytes_per_pixel % 2 ^ 32;
    layer_stride = 0;
    offset = 0;
  }

  -- The bytes that are read, or `none`.
  unfoldable pub read_2d_resource : Gpu → VirtioGpuResource → ℕ → Gpu × Option (List ℕ)
  unfolding calculate_size
  read_2d_resource g r len = elim (calculate_size r) [
    | none ↦ (g, none)
    | some size ↦
        let (rutabaga, read) = h.transfer_read_to g.rutabaga 0 r.id (whole_resource r) len in
        (record g { rutabaga = rutabaga }, elim read [ err e ↦ none | ok bytes ↦ some bytes ])
  ]

  -- The loop over the scanouts.
  unfoldable pub flush_scanouts : Gpu → VirtioGpuResource → List ℕ → Gpu × VirtioGpuResult
  unfolding read_2d_resource
  flush_scanouts g r [] = (g, ok ok_no_data)
  flush_scanouts g r (scanout_id ∷ ids) = elim (calculate_size r) [
    | none ↦ (g, err err_unspec)
    | some size ↦
        let (g', read) = read_2d_resource g r size in
        elim read [
          | none ↦ flush_scanouts g' r ids
          | some bytes ↦
              let (gpu_backend, updated) =
                h.update_scanout g'.gpu_backend
                  (record {
                    scanout_id = scanout_id;
                    x = 0;
                    y = 0;
                    width = r.width;
                    height = r.height;
                  })
                  bytes in
              elim updated [
                | err e ↦ (record g' { gpu_backend = gpu_backend }, err err_unspec)
                | ok done ↦ flush_scanouts (record g' { gpu_backend = gpu_backend }) r ids
              ]
        ]
  ]

  unfoldable pub flush_resource : Gpu → ℕ → Rectangle → Gpu × VirtioGpuResult
  unfolding flush_scanouts iter_enabled
  flush_resource g resource_id rect =
      if resource_id == 0 then (g, ok ok_no_data) else elim (g.resources resource_id) [
        | none ↦ (g, err err_invalid_resource_id)
        | some r ↦ flush_scanouts g r (iter_enabled r.scanouts)
      ]

  unfoldable pub send_cursor : Gpu → CursorPos → ℕ → ℕ → Option (List ℕ) → Gpu × VirtioGpuResult
  unfolding fronted
  send_cursor g pos hot_x hot_y none = (g, err err_unspec)
  send_cursor g pos hot_x hot_y (some bytes) =
      fronted g (h.cursor_update g.gpu_backend pos hot_x hot_y bytes)

  unfoldable pub update_cursor : Gpu → ℕ → CursorPos → ℕ → ℕ → Gpu × VirtioGpuResult
  unfolding read_2d_resource send_cursor
  update_cursor g resource_id pos hot_x hot_y = elim (g.resources resource_id) [
    | none ↦ (g, err err_invalid_resource_id)
    | some r ↦
        if not (r.width == cursor_width) || not (r.height == cursor_height)
        then (g, err err_invalid_parameter)
        else (let (g', read) =
              read_2d_resource g r (read_resource_bytes_per_pixel * cursor_width * cursor_height) in
            send_cursor g' pos hot_x hot_y read)
  ]

  unfoldable pub move_cursor : Gpu → ℕ → CursorPos → Gpu × VirtioGpuResult
  unfolding fronted
  move_cursor g resource_id pos =
      if resource_id == 0
      then fronted g (h.cursor_pos_hide g.gpu_backend pos)
      else fronted g (h.cursor_pos g.gpu_backend pos)

  unfoldable pub get_capset_info : Gpu → ℕ → VirtioGpuResult
  get_capset_info g index = elim (h.get_capset_info g.rutabaga index) [
    | err e ↦ err (err_rutabaga e)
    | ok (capset_id, version, size) ↦ ok (ok_capset_info capset_id version size)
  ]

  unfoldable pub get_capset : Gpu → ℕ → ℕ → VirtioGpuResult
  get_capset g capset_id version = elim (h.get_capset g.rutabaga capset_id version) [
    | err e ↦ err (err_rutabaga e)
    | ok capset ↦ ok (ok_capset capset)
  ]

  unfoldable pub hold_fence : Gpu → VirtioGpuRing → ℕ → ℕ → ℕ → Gpu × Bool
  hold_fence g ring fence_id desc_index len =
      let (fence_state, done) = process_fence g.fence_state ring fence_id desc_index len in
      (record g { fence_state = fence_state }, done)

  -- `impl VirtioGpu for RutabagaVirtioGpu`.
  unfoldable pub rutabaga_virtio_gpu : VirtioGpu
  unfolding delegated display_info get_edid flush_resource update_cursor move_cursor get_capset_info
      get_capset hold_fence
  rutabaga_virtio_gpu = record {
    Gpu = Gpu;
    force_ctx_0 = λ g. record g { rutabaga = h.force_ctx_0 g.rutabaga };
    display_info = display_info;
    get_edid = get_edid;
    set_scanout = λ g i r rect. set_scanout h g i r rect.width rect.height;
    resource_create_3d = resource_create_3d h;
    unref_resource = unref_resource h;
    flush_resource = flush_resource;
    transfer_write = λ g ctx i t. delegated g (h.transfer_write g.rutabaga ctx i t);
    transfer_read = λ g ctx i t. delegated g (h.transfer_read g.rutabaga ctx i t);
    attach_backing = λ g i iovecs. delegated g (h.attach_backing g.rutabaga i iovecs);
    detach_backing = λ g i. delegated g (h.detach_backing g.rutabaga i);
    update_cursor = update_cursor;
    move_cursor = move_cursor;
    get_capset_info = λ g index. (g, get_capset_info g index);
    get_capset = λ g i version. (g, get_capset g i version);
    create_context = λ g ctx init name. delegated g (h.create_context g.rutabaga ctx init name);
    destroy_context = λ g ctx. delegated g (h.destroy_context g.rutabaga ctx);
    context_attach_resource = λ g ctx i. delegated g (h.context_attach_resource g.rutabaga ctx i);
    context_detach_resource = λ g ctx i. delegated g (h.context_detach_resource g.rutabaga ctx i);
    submit_command = λ g ctx commands fence_ids.
        delegated g (h.submit_command g.rutabaga ctx commands fence_ids);
    create_fence = create_fence;
    process_fence = hold_fence;
  }
