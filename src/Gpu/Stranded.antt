-- ===== src/Gpu/Stranded.antt =====
-- A scanout whose resource was removed. (device/virtio-gpu/src/virtio_gpu.rs)
use virtio_device_poc.Base.{
  ℕ, ◌≡◌, ◌≢◌, refl, sym, ap, ◌∙◌, arith, Option, none, some, err, false, ◌==◌, ne→==, get_elem?,
  not, get_elem?-set_ne, by_bool, by_option, by_result, ℕ_discrete, subst,
}
use mathlib.Core.Option.{some-injective}
use virtio_device_poc.Base.Bits.{bit, bit-zero}
use virtio_device_poc.Gpu.Interface.{ResourceCreate3d}
use virtio_device_poc.Gpu.Scanouts.{
  err_unspec, err_invalid_resource_id, GpuHost, VirtioGpuResource, Resources, put_resource,
  RutabagaVirtioGpu, leave_resource, disable_scanout, announce_scanout, enable_scanout, set_scanout,
  unref_resource, resource_create_3d, VirtioGpuResult,
}
use virtio_device_poc.Gpu.Listing.{Shows, put_resource_self, put_resource_ne}
use virtio_device_poc.Gpu.Linked.{IsLinked}

module _ (h : GpuHost) where
  abbrev Gpu : Type 0
  Gpu = RutabagaVirtioGpu h

  -- What may follow on g: SET_SCANOUT and UNREF, answered or not, and the creation of resources
  -- under other ids than r.
  pub data Follows (r : ℕ) (g : Gpu) : Gpu → Type 0 where
    at_once : Follows r g g
    scanout_set :
        (x : Gpu) (j r' width height : ℕ)
        → Follows r g x
        → Follows r g (set_scanout h x j r' width height).0
    unreferenced : (x : Gpu) (r' : ℕ) → Follows r g x → Follows r g (unref_resource h x r').0
    created :
        (x : Gpu) (r' : ℕ) (create : ResourceCreate3d)
        → r ≢ r'
        → Follows r g x
        → Follows r g (resource_create_3d h x r' create).0

  module _ (i r : ℕ) where
    -- The scanout shows a resource that does not exist.
    abbrev IsStranded : Gpu → Type 0
    IsStranded g = Shows g.scanouts i r × (g.resources r ≡ none)

    refused :
        (g : Gpu) (r' width height : ℕ)
        → IsStranded g
        → set_scanout h g i r' width height ≡ (g, err err_invalid_resource_id)
    unfolding set_scanout leave_resource
    refused g r' width height (shown, gone) = rw (shown, set_scanout) (rw gone refl)

    still_gone :
        (resources : Resources) (o : ℕ) (x y : VirtioGpuResource)
        → resources r ≡ none
        → resources o ≡ some x
        → put_resource resources o (some y) r ≡ none
    still_gone resources o x y gone found =
        let apart : r ≢ o = λ e. (let p = sym gone ∙ ap resources e ∙ found in cc) in
        put_resource_ne resources o r (some y) apart ∙ gone

    removed_gone :
        (resources : Resources) (o : ℕ)
        → resources r ≡ none
        → put_resource resources o none r ≡ none
    removed_gone resources o gone = elim (ℕ_discrete r o) [
      | yes same ↦
          subst (λ k. put_resource resources o none k ≡ none) (sym same)
            (put_resource_self resources o none)
      | no apart ↦ put_resource_ne resources o r none apart ∙ gone
    ]

    abbrev IsLeftStranded : Option Gpu → Type 0
    IsLeftStranded o = (left : Gpu) → o ≡ some left → IsStranded left

    leave_resource-IsStranded :
        (g : Gpu) (j : ℕ) (scanout : Option ℕ)
        → IsStranded g
        → IsLeftStranded (leave_resource h g j scanout)
    unfolding leave_resource
    leave_resource-IsStranded g j none s = λ left p. subst IsStranded (some-injective g left p) s
    leave_resource-IsStranded g j (some o) s =
        by_option IsLeftStranded (g.resources o) _ _ (λ missing left p. cc)
          (λ x found left p.
            subst IsStranded (some-injective _ left p)
              (s.0, still_gone g.resources o x _ s.1 found))

    disable_scanout-IsStranded :
        (g : Gpu) (j : ℕ) → j ≢ i → IsStranded g → IsStranded (disable_scanout h g j).0
    unfolding disable_scanout
    disable_scanout-IsStranded g j apart s =
        let kept = get_elem?-set_ne g.scanouts j i none apart ∙ s.0 in
        by_result (λ (p : Gpu × VirtioGpuResult). IsStranded p.0)
          (h.set_scanout g.gpu_backend j 0 0).1 _ _ (λ done e. (kept, s.1)) (λ x e. (kept, s.1))

    enable_scanout-IsStranded :
        (g : Gpu) (j : ℕ) (scanout : Option ℕ) (r' width height : ℕ)
        → j ≢ i
        → IsStranded g
        → IsStranded (enable_scanout h g j scanout r' width height).0
    unfolding enable_scanout
    enable_scanout-IsStranded g j scanout r' width height apart s =
        by_result (λ (p : Gpu × VirtioGpuResult). IsStranded p.0)
          (announce_scanout h g j scanout width height).1 _ _
          (λ done e.
            by_option (λ (p : Gpu × VirtioGpuResult). IsStranded p.0) (g.resources r') _ _
              (λ missing. s)
              (λ x found. (
                get_elem?-set_ne g.scanouts j i (some r') apart ∙ s.0,
                still_gone g.resources r' x _ s.1 found,
              )))
          (λ x e. s)

    set_scanout-IsStranded :
        (g : Gpu) (j r' width height : ℕ)
        → IsStranded g
        → IsStranded (set_scanout h g j r' width height).0
    unfolding set_scanout
    set_scanout-IsStranded g j r' width height s = elim (ℕ_discrete j i) [
      | yes same ↦
          subst (λ k. IsStranded (set_scanout h g k r' width height).0) (sym same)
            (subst (λ (p : Gpu × VirtioGpuResult). IsStranded p.0)
              (sym (refused g r' width height s)) s)
      | no apart ↦
          by_option (λ (p : Gpu × VirtioGpuResult). IsStranded p.0) (get_elem? g.scanouts j) _ _
            (λ missing. s)
            (λ scanout e.
              by_option (λ (p : Gpu × VirtioGpuResult). IsStranded p.0)
                (leave_resource h g j scanout) _ _ (λ missing. s)
                (λ left p.
                  let s' = leave_resource-IsStranded g j scanout s left p in
                  by_bool (λ (p : Gpu × VirtioGpuResult). IsStranded p.0) (r' == 0) _ _
                    (λ zero_id. disable_scanout-IsStranded left j apart s')
                    (λ some_id. enable_scanout-IsStranded left j scanout r' width height apart s')))
    ]

    unref_resource-IsStranded :
        (g : Gpu) (r' : ℕ) → IsStranded g → IsStranded (unref_resource h g r').0
    unfolding unref_resource
    unref_resource-IsStranded g r' s =
        let s' = removed_gone g.resources r' s.1 in
        by_option (λ (p : Gpu × VirtioGpuResult). IsStranded p.0) (g.resources r') _ _
          (λ missing. (s.0, s'))
          (λ x found.
            by_bool (λ (p : Gpu × VirtioGpuResult). IsStranded p.0) (not (x.scanouts == 0)) _ _
              (λ used. (s.0, s'))
              (λ unused.
                by_result (λ (p : Gpu × VirtioGpuResult). IsStranded p.0)
                  (h.unref_resource g.rutabaga r').1 _ _ (λ done e. (s.0, s')) (λ e f. (s.0, s'))))

    resource_create_3d-IsStranded :
        (g : Gpu) (r' : ℕ) (create : ResourceCreate3d)
        → r ≢ r'
        → IsStranded g
        → IsStranded (resource_create_3d h g r' create).0
    unfolding resource_create_3d
    resource_create_3d-IsStranded g r' create apart s =
        by_result (λ (p : Gpu × VirtioGpuResult). IsStranded p.0)
          (h.resource_create_3d g.rutabaga r' create).1 _ _
          (λ done e. (s.0, put_resource_ne g.resources r' r _ apart ∙ s.1)) (λ e f. s)

    Follows-IsStranded : (g x : Gpu) → IsStranded g → Follows r g x → IsStranded x
    Follows-IsStranded g x s at_once = s
    Follows-IsStranded g x s (scanout_set y j r' width height f) =
        set_scanout-IsStranded y j r' width height (Follows-IsStranded g y s f)
    Follows-IsStranded g x s (unreferenced y r' f) =
        unref_resource-IsStranded y r' (Follows-IsStranded g y s f)
    Follows-IsStranded g x s (created y r' create apart f) =
        resource_create_3d-IsStranded y r' create apart (Follows-IsStranded g y s f)

  -- UNREF of a resource that a scanout shows is refused, and yet removes the resource. From then
  -- on, through every SET_SCANOUT and UNREF, answered or not, and every creation of a resource
  -- under another id, every SET_SCANOUT of that scanout is refused and changes nothing, so that the
  -- scanout can neither be disabled nor show another resource.
  pub unref_resource-strands :
      (g : Gpu) (i r : ℕ)
      → IsLinked h g
      → Shows g.scanouts i r
      → ((unref_resource h g r).1 ≡ err err_unspec)
        × ((unref_resource h g r).0.resources r ≡ none)
        × ((x : Gpu)
            → Follows r (unref_resource h g r).0 x
            → (r' width height : ℕ)
            → set_scanout h x i r' width height ≡ (x, err err_invalid_resource_id))
  unfolding unref_resource
  unref_resource-strands g i r l shown =
      let (x, found) = l.known i r shown in
      let on = (l.listed r x found i).1 shown in
      let used : (x.scanouts == 0) ≡ false =
        ne→== x.scanouts 0 (λ e. omega (arith, on, ap (λ m. bit m i) e, bit-zero i)) in
      let gone = put_resource_self g.resources r none in
      rw (found, unref_resource)
        (rw used (
          refl,
          gone,
          λ y f r' width height. refused i r y r' width height (
              Follows-IsStranded i r (record g { resources = put_resource g.resources r none }) y
                (shown, gone) f),
        ))
