-- ===== src/Gpu/Linked.antt =====
-- A scanout and its resource name each other. (device/virtio-gpu/src/virtio_gpu.rs)
use virtio_device_poc.Base.{
  ℕ, ◌<◌, length, ◌≡◌, ◌≢◌, refl, sym, ap, ◌∙◌, subst, Option, none, some, ok, err, ◌==◌,
  if◌then◌else◌, set, get_elem?, not, arith, ne→==, get_elem?-set_self, get_elem?-set_ne,
  get_elem?-some, by_bool, by_option, by_result,
}
use mathlib.Core.Option.{some-injective}
use virtio_device_poc.Base.Bits.{bit}
use virtio_device_poc.Gpu.Interface.{ResourceCreate3d}
use virtio_device_poc.Gpu.Scanouts.{
  ok_no_data, err_invalid_resource_id, GpuHost, enable, disable, VirtioGpuResource, put_resource,
  RutabagaVirtioGpu, leave_resource, disable_scanout, announce_scanout, enable_scanout, set_scanout,
  unref_resource, resource_create_3d, new_gpu, VirtioGpuResult, max_scanouts,
}
use virtio_device_poc.Gpu.Listing.{
  Shows, Lists, Except, bit-disable_self, put_resource_self, put_resource_ne, left_none, left_some,
  entered, cleared, removed, created, all_disabled,
}

module _ (h : GpuHost) where
  abbrev pub Gpu : Type 0
  Gpu = RutabagaVirtioGpu h

  -- A resource lists exactly the scanouts that show it, and a scanout shows a resource that exists.
  abbrev pub IsLinked : Gpu → Type 0
  IsLinked g = Lists (Shows g.scanouts) g.resources

  abbrev IsLeft : Gpu → ℕ → Option Gpu → Type 0
  IsLeft g i o =
      (left : Gpu)
      → o ≡ some left
      → Lists (Except i g.scanouts) left.resources × (left.scanouts ≡ g.scanouts)

  left :
      (g : Gpu) (i : ℕ) (x : Gpu)
      → Lists (Except i g.scanouts) x.resources
      → x.scanouts ≡ g.scanouts
      → IsLeft g i (some x)
  left g i x l e y p =
      let same = some-injective x y p in
      (
        subst (λ (z : Gpu). Lists (Except i g.scanouts) z.resources) same l,
        ap (λ (z : Gpu). z.scanouts) (sym same) ∙ e,
      )

  leave_resource-IsLeft :
      (g : Gpu) (i : ℕ) (scanout : Option ℕ)
      → IsLinked g
      → get_elem? g.scanouts i ≡ some scanout
      → IsLeft g i (leave_resource h g i scanout)
  unfolding leave_resource
  leave_resource-IsLeft g i none l e = left g i g (left_none g.resources g.scanouts i l e) refl
  leave_resource-IsLeft g i (some o) l e =
      by_option (IsLeft g i) (g.resources o) _ _ (λ missing x p. cc)
        (λ x found. left g i _ (left_some g.resources g.scanouts i o x l e found) refl)

  -- If the command is answered, the scanout i is `shown` and the others are as before.
  abbrev IsShowing : Gpu → ℕ → Option ℕ → Gpu × VirtioGpuResult → Type 0
  IsShowing g i shown p =
      p.1 ≡ ok ok_no_data
      → IsLinked p.0
        × (get_elem? p.0.scanouts i ≡ some shown)
        × ((j : ℕ) → i ≢ j → get_elem? p.0.scanouts j ≡ get_elem? g.scanouts j)

  module _ (g x : Gpu) (i : ℕ) (freed : Lists (Except i g.scanouts) x.resources)
      (same : x.scanouts ≡ g.scanouts) (small : i < length g.scanouts) where
    now : (shown : Option ℕ) → get_elem? (set x.scanouts i shown) i ≡ some shown
    now shown =
        ap (λ l. get_elem? (set l i shown) i) same ∙ get_elem?-set_self g.scanouts i shown small

    others :
        (shown : Option ℕ) (j : ℕ)
        → i ≢ j
        → get_elem? (set x.scanouts i shown) j ≡ get_elem? g.scanouts j
    others shown j ne =
        ap (λ l. get_elem? (set l i shown) j) same ∙ get_elem?-set_ne g.scanouts i j shown ne

    disable_scanout-IsShowing : IsShowing g i none (disable_scanout h x i)
    unfolding disable_scanout
    disable_scanout-IsShowing =
        by_result (IsShowing g i none) (h.set_scanout x.gpu_backend i 0 0).1 _ _
          (λ done e q. (
            subst (λ l. Lists (Shows (set l i none)) x.resources) (sym same)
                (cleared x.resources g.scanouts i freed small),
            now none,
            others none,
          ))
          (λ e f q. cc)

    enable_scanout-IsShowing :
        (scanout : Option ℕ) (r width height : ℕ)
        → IsShowing g i (some r) (enable_scanout h x i scanout r width height)
    unfolding enable_scanout
    enable_scanout-IsShowing scanout r width height =
        by_result (IsShowing g i (some r)) (announce_scanout h x i scanout width height).1 _ _
          (λ done e.
            by_option (IsShowing g i (some r)) (x.resources r) _ _ (λ missing q. cc)
              (λ y found q. (
                subst
                    (λ l. Lists (Shows (set l i (some r))) (
                      put_resource x.resources r
                        (some (record y { scanouts = enable y.scanouts i }))))
                    (sym same) (entered x.resources g.scanouts i r y freed small found),
                now (some r),
                others (some r),
              )))
          (λ e f q. cc)

  -- An answered SET_SCANOUT keeps scanouts and resources linked: the scanout then shows the
  -- resource, or is disabled for the resource 0, and the other scanouts are as before.
  pub set_scanout-IsLinked :
      (g : Gpu) (i r width height : ℕ)
      → IsLinked g
      → (set_scanout h g i r width height).1 ≡ ok ok_no_data
      → IsLinked (set_scanout h g i r width height).0
        × (get_elem? (set_scanout h g i r width height).0.scanouts i
            ≡ some (if r == 0 then none else some r))
        × ((j : ℕ)
            → i ≢ j
            → get_elem? (set_scanout h g i r width height).0.scanouts j ≡ get_elem? g.scanouts j)
  unfolding set_scanout
  set_scanout-IsLinked g i r width height l =
      let shown : Option ℕ = if r == 0 then none else some r in
      by_option (IsShowing g i shown) (get_elem? g.scanouts i) _ _ (λ n q. cc)
        (λ scanout e.
          by_option (IsShowing g i shown) (leave_resource h g i scanout) _ _ (λ n q. cc)
            (λ x p.
              let (freed, same) = leave_resource-IsLeft g i scanout l e x p in
              let small = get_elem?-some g.scanouts i scanout e in
              by_bool (IsShowing g i shown) (r == 0) _ _
                (λ zero. rw zero (disable_scanout-IsShowing g x i freed same small))
                (λ other.
                  rw other
                    (enable_scanout-IsShowing g x i freed same small scanout r width height))))

  -- UNREF of a resource that is answered keeps scanouts and resources linked.
  pub unref_resource-IsLinked :
      (g : Gpu) (r : ℕ)
      → IsLinked g
      → (unref_resource h g r).1 ≡ ok ok_no_data
      → IsLinked (unref_resource h g r).0 × ((unref_resource h g r).0.resources r ≡ none)
  unfolding unref_resource
  unref_resource-IsLinked g r l =
      by_option IsReleased (g.resources r) _ _ (λ n q. cc)
        (λ x found.
          by_bool IsReleased (not (x.scanouts == 0)) _ _ (λ used q. cc)
            (λ free.
              by_result IsReleased (h.unref_resource g.rutabaga r).1 _ _
                (λ done e q. (
                  removed g.resources g.scanouts r x l found (ground arith),
                  put_resource_self g.resources r none,
                ))
                (λ e f q. cc)))
    where
      IsReleased : Gpu × VirtioGpuResult → Type 0
      IsReleased p = p.1 ≡ ok ok_no_data → IsLinked p.0 × (p.0.resources r ≡ none)

  -- SET_SCANOUT of an enabled scanout with a resource that does not exist is refused, and leaves
  -- the scanout with the resource that it showed, which no longer lists it.
  pub set_scanout-unlinks :
      (g : Gpu) (i o r width height : ℕ)
      → IsLinked g
      → Shows g.scanouts i o
      → g.resources r ≡ none
      → r ≢ 0
      → ((set_scanout h g i r width height).1 ≡ err err_invalid_resource_id)
        × Shows (set_scanout h g i r width height).0.scanouts i o
        × ((x : VirtioGpuResource) × ((set_scanout h g i r width height).0.resources o ≡ some x)
            × (bit x.scanouts i ≡ 0))
  unfolding set_scanout leave_resource enable_scanout announce_scanout
  set_scanout-unlinks g i o r width height l shown missing some_id =
      let (x, found) = l.known i o shown in
      let on = (l.listed o x found i).1 shown in
      let y : VirtioGpuResource = record x { scanouts = disable x.scanouts i } in
      let apart : r ≢ o = λ e. (let p = sym missing ∙ ap g.resources e ∙ found in cc) in
      let still = put_resource_ne g.resources o r (some y) apart ∙ missing in
      rw (shown, set_scanout)
        (rw found (
          rw (ne→== r 0 some_id) (
            rw (still, enable_scanout)
              (
                refl,
                shown,
                (y, put_resource_self g.resources o (some y), bit-disable_self x.scanouts i on),
              ))))

  -- The new device has no resources, and all scanouts are disabled.
  pub new_gpu-IsLinked :
      (rutabaga : h.Rutabaga) (gpu_backend : h.GpuBackend)
      → IsLinked (new_gpu h rutabaga gpu_backend)
  unfolding new_gpu
  new_gpu-IsLinked rutabaga gpu_backend = record {
    known = λ j r s. absurd (all_disabled max_scanouts j r s);
    listed = λ r x e j. cc;
  }

  -- A resource that is created under an id that no resource has keeps scanouts and resources
  -- linked.
  pub resource_create_3d-IsLinked :
      (g : Gpu) (r : ℕ) (create : ResourceCreate3d)
      → IsLinked g
      → g.resources r ≡ none
      → IsLinked (resource_create_3d h g r create).0
  unfolding resource_create_3d
  resource_create_3d-IsLinked g r create l unused =
      by_result (λ (p : Gpu × VirtioGpuResult). IsLinked p.0)
        (h.resource_create_3d g.rutabaga r create).1 _ _
        (λ done e. created g.resources g.scanouts r _ l unused refl) (λ e f. l)
