-- ===== src/Gpu/Rutabaga/Holding.antt =====
-- Only `process_fence` of RutabagaVirtioGpu holds a chain.
use virtio_device_poc.Base.{
  ℕ, ◌≡◌, ◌<◌, ◌≤◌, ◌⊎◌, true, false, refl, sym, ap, ◌∙◌, none, some, List, [], ◌∷◌, ◌++◌, map,
  Result, ◌==◌, if◌then◌else◌, arith, by_bool, by_option, by_result, ltb, Bool-cases, inl, inr,
}
use mathlib.Core.List.{map-append}
use virtio_device_poc.Gpu.Fences.{
  FenceState, VirtioGpuRing, RutabagaFence, process_fence, completed, signal_fences,
}
use virtio_device_poc.Gpu.Interface.{CursorPos, Rectangle, ResourceCreate3d, HoldLaws}
use virtio_device_poc.Gpu.Protocol.Responses.{VirtioGpuResult}
use virtio_device_poc.Gpu.Scanouts.{
  GpuHost, VirtioGpuResource, set_scanout, unref_resource, resource_create_3d, leave_resource,
  disable_scanout, enable_scanout, announce_scanout,
}
use virtio_device_poc.Gpu.Rutabaga.{
  Gpu, calculate_size, iter_enabled, delegated, fronted, display_info, get_edid, read_2d_resource,
  flush_scanouts, flush_resource, send_cursor, update_cursor, move_cursor, hold_fence, create_fence,
  rutabaga_virtio_gpu,
}

module _ (h : GpuHost) where
  Keeps : Gpu h → Gpu h × VirtioGpuResult → Type 0
  Keeps g p = p.0.fence_state ≡ g.fence_state

  Keeps-of : (g g' : Gpu h) (r : VirtioGpuResult) → g'.fence_state ≡ g.fence_state → Keeps g (g', r)
  unfolding Keeps
  Keeps-of g g' r e = e

  Keeps-trans :
      (g g' : Gpu h) (p : Gpu h × VirtioGpuResult)
      → g'.fence_state ≡ g.fence_state
      → Keeps g' p
      → Keeps g p
  unfolding Keeps
  Keeps-trans g g' p e k = k ∙ e

  set_scanout-Keeps :
      (g : Gpu h) (i r width height : ℕ) → Keeps g (set_scanout h g i r width height)
  unfolding Keeps set_scanout leave_resource disable_scanout enable_scanout announce_scanout
  set_scanout-Keeps g i r width height = ground arith

  resource_create_3d-Keeps :
      (g : Gpu h) (i : ℕ) (create : ResourceCreate3d) → Keeps g (resource_create_3d h g i create)
  unfolding Keeps resource_create_3d
  resource_create_3d-Keeps g i create = ground arith

  unref_resource-Keeps : (g : Gpu h) (i : ℕ) → Keeps g (unref_resource h g i)
  unfolding Keeps unref_resource
  unref_resource-Keeps g i = ground arith

  read_2d_resource-keeps :
      (g : Gpu h) (r : VirtioGpuResource) (len : ℕ)
      → (read_2d_resource h g r len).0.fence_state ≡ g.fence_state
  unfolding read_2d_resource
  read_2d_resource-keeps g r len = ground arith

  flush_scanouts-Keeps :
      (g : Gpu h) (r : VirtioGpuResource) (ids : List ℕ) → Keeps g (flush_scanouts h g r ids)
  unfolding flush_scanouts
  flush_scanouts-Keeps g r [] = Keeps-of g g _ refl
  flush_scanouts-Keeps g r (i ∷ ids) =
      by_option (Keeps g) (calculate_size r) _ _ (λ large. Keeps-of g g _ refl)
        (λ size e.
          let same = read_2d_resource-keeps g r size in
          let g' = (read_2d_resource h g r size).0 in
          by_option (Keeps g) (read_2d_resource h g r size).1 _ _
            (λ unread.
              Keeps-trans g g' (flush_scanouts h g' r ids) same (flush_scanouts-Keeps g' r ids))
            (λ bytes e'.
              by_result (Keeps g)
                (h.update_scanout g'.gpu_backend
                  (record { scanout_id = i; x = 0; y = 0; width = r.width; height = r.height })
                  bytes).1
                _ _ (λ done e''. Keeps-trans g _ _ same (flush_scanouts-Keeps _ r ids))
                (λ error e''. Keeps-of g _ _ same)))

  flush_resource-Keeps :
      (g : Gpu h) (i : ℕ) (rect : Rectangle) → Keeps g (flush_resource h g i rect)
  unfolding flush_resource
  flush_resource-Keeps g i rect =
      by_bool (Keeps g) (i == 0) _ _ (λ nothing. Keeps-of g g _ refl)
        (λ some_id.
          by_option (Keeps g) (g.resources i) _ _ (λ missing. Keeps-of g g _ refl)
            (λ r e. flush_scanouts-Keeps g r (iter_enabled r.scanouts)))

  update_cursor-Keeps :
      (g : Gpu h) (i : ℕ) (pos : CursorPos) (x y : ℕ) → Keeps g (update_cursor h g i pos x y)
  unfolding Keeps update_cursor send_cursor fronted read_2d_resource
  update_cursor-Keeps g i pos x y = ground arith

  move_cursor-Keeps : (g : Gpu h) (i : ℕ) (pos : CursorPos) → Keeps g (move_cursor h g i pos)
  unfolding Keeps move_cursor fronted
  move_cursor-Keeps g i pos = ground arith

  get_edid-Keeps :
      (g : Gpu h) (i : ℕ) (r : Gpu h × VirtioGpuResult) → get_edid h g i ≡ some r → Keeps g r
  unfolding Keeps get_edid
  get_edid-Keeps g i r e = ground arith

  delegated-Keeps : (g : Gpu h) (r : h.Rutabaga × Result (Unit {0}) ℕ) → Keeps g (delegated h g r)
  unfolding Keeps delegated
  delegated-Keeps g r = refl

  display_info-Keeps : (g : Gpu h) → Keeps g (display_info h g)
  unfolding Keeps display_info
  display_info-Keeps g = refl

  abbrev held_heads : FenceState → List ℕ
  held_heads s = map (λ d. d.desc_index) s.descs

  hold_fence-held :
      (g : Gpu h) (ring : VirtioGpuRing) (fence_id head len : ℕ)
      → held_heads (hold_fence h g ring fence_id head len).0.fence_state ≡ (
          if (hold_fence h g ring fence_id head len).1
          then held_heads g.fence_state
          else held_heads g.fence_state ++ head ∷ [])
  unfolding hold_fence process_fence
  hold_fence-held g ring fence_id head len =
      elim (Bool-cases (ltb (completed g.fence_state ring) fence_id)) [
        | inl later ↦
            rw (later, process_fence) (map-append (λ d. d.desc_index) g.fence_state.descs _)
        | inr past ↦ rw (past, process_fence) refl
      ]

  signal_fences-descs :
      (fences : List RutabagaFence) (s : FenceState) → (signal_fences s fences).descs ≡ s.descs
  unfolding signal_fences
  signal_fences-descs [] s = refl
  signal_fences-descs (fence ∷ fences) s = signal_fences-descs fences _

  create_fence-held :
      (g : Gpu h) (fence : RutabagaFence)
      → held_heads (create_fence h g fence).0.fence_state ≡ held_heads g.fence_state
  unfolding create_fence delegated
  create_fence-held g fence =
      ap (map (λ d. d.desc_index))
        (signal_fences-descs (h.create_fence g.rutabaga fence).1 g.fence_state)

  -- The id of the last fence of the ring that completed, 0 for none.
  abbrev pub IsLast : FenceState → VirtioGpuRing → ℕ → Type 0
  IsLast s ring last =
      (s.completed_fences ring ≡ some last) ⊎ ((s.completed_fences ring ≡ none) × (last ≡ 0))

  IsLast-completed :
      (s : FenceState) (ring : VirtioGpuRing) (last : ℕ)
      → IsLast s ring last
      → completed s ring ≡ last
  unfolding completed
  IsLast-completed s ring last (inl e) = rw (e, completed) refl
  IsLast-completed s ring last (inr (e, z)) = rw (e, completed) (sym z)

  hold_fence-later :
      (g : Gpu h) (ring : VirtioGpuRing) (fence_id head len : ℕ)
      → completed g.fence_state ring < fence_id
      → ((hold_fence h g ring fence_id head len).1 ≡ false)
        × (held_heads (hold_fence h g ring fence_id head len).0.fence_state
            ≡ held_heads g.fence_state ++ head ∷ [])
  unfolding hold_fence process_fence
  hold_fence-later g ring fence_id head len later =
      let test : ltb (completed g.fence_state ring) fence_id ≡ true = ground arith in
      rw (test, process_fence) (refl, map-append (λ d. d.desc_index) g.fence_state.descs _)

  hold_fence-past :
      (g : Gpu h) (ring : VirtioGpuRing) (fence_id head len : ℕ)
      → fence_id ≤ completed g.fence_state ring
      → hold_fence h g ring fence_id head len ≡ (g, true)
  unfolding hold_fence process_fence
  hold_fence-past g ring fence_id head len past =
      let test : ltb (completed g.fence_state ring) fence_id ≡ false = ground arith in
      rw (test, process_fence) refl

  pub rutabaga_virtio_gpu-HoldLaws :
      (laws : HoldLaws (rutabaga_virtio_gpu h)) × (unfold rutabaga_virtio_gpu in
        ((g : Gpu h) → laws.held g ≡ map (λ d. d.desc_index) g.fence_state.descs)
        × ((g : Gpu h) (ring : VirtioGpuRing) (last fence_id head len : ℕ)
            → IsLast g.fence_state ring last
            → (last < fence_id
                → (((rutabaga_virtio_gpu h).process_fence g ring fence_id head len).1 ≡ false)
                  × (laws.held ((rutabaga_virtio_gpu h).process_fence g ring fence_id head len).0
                      ≡ laws.held g ++ head ∷ []))
              × (fence_id ≤ last
                  → (rutabaga_virtio_gpu h).process_fence g ring fence_id head len ≡ (g, true))))
  unfolding rutabaga_virtio_gpu Keeps
  rutabaga_virtio_gpu-HoldLaws = (
    record {
      held = λ g. held_heads g.fence_state;
      force_ctx_0-held = λ g. refl;
      get_edid-held = λ g i r e. ap held_heads (get_edid-Keeps g i r e);
      display_info-held = λ g. ap held_heads (display_info-Keeps g);
      set_scanout-held = λ g i j r. ap held_heads (set_scanout-Keeps g i j r.width r.height);
      resource_create_3d-held = λ g i c. ap held_heads (resource_create_3d-Keeps g i c);
      unref_resource-held = λ g i. ap held_heads (unref_resource-Keeps g i);
      flush_resource-held = λ g i r. ap held_heads (flush_resource-Keeps g i r);
      transfer_write-held =
          λ g i j t. ap held_heads (delegated-Keeps g (h.transfer_write g.rutabaga i j t));
      transfer_read-held =
          λ g i j t. ap held_heads (delegated-Keeps g (h.transfer_read g.rutabaga i j t));
      attach_backing-held =
          λ g i iovecs. ap held_heads (delegated-Keeps g (h.attach_backing g.rutabaga i iovecs));
      detach_backing-held =
          λ g i. ap held_heads (delegated-Keeps g (h.detach_backing g.rutabaga i));
      update_cursor-held = λ g i p x y. ap held_heads (update_cursor-Keeps g i p x y);
      move_cursor-held = λ g i p. ap held_heads (move_cursor-Keeps g i p);
      get_capset_info-held = λ g i. refl;
      get_capset-held = λ g i j. refl;
      create_context-held =
          λ g i j name. ap held_heads (delegated-Keeps g (h.create_context g.rutabaga i j name));
      destroy_context-held =
          λ g i. ap held_heads (delegated-Keeps g (h.destroy_context g.rutabaga i));
      context_attach_resource-held =
          λ g i j. ap held_heads (delegated-Keeps g (h.context_attach_resource g.rutabaga i j));
      context_detach_resource-held =
          λ g i j. ap held_heads (delegated-Keeps g (h.context_detach_resource g.rutabaga i j));
      submit_command-held =
          λ g i c f. ap held_heads (delegated-Keeps g (h.submit_command g.rutabaga i c f));
      create_fence-held = λ g f. create_fence-held g f;
      process_fence-held = λ g ring f i l. hold_fence-held g ring f i l;
    },
    (
      λ g. refl,
      λ g ring last fence_id head len is_last.
          let same = IsLast-completed g.fence_state ring last is_last in
          (
            λ later. hold_fence-later g ring fence_id head len (omega arith),
            λ past. hold_fence-past g ring fence_id head len (omega arith),
          ),
    ),
  )
