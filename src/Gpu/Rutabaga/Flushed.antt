-- ===== src/Gpu/Rutabaga/Flushed.antt =====
-- A flush shows a resource on the scanouts that show it, and on no other.
use virtio_device_poc.Base.{
  ℕ, zero, suc, ◌+◌, ◌*◌, ◌^◌, ◌<◌, ◌≤◌, ◌≡◌, ◌≢◌, ◌↔◌, ◌⊎◌, inl, inr, refl, sym, ap, ◌∙◌, some,
  List, [], ◌∷◌, ◌++◌, map, length, ok, ◌==◌, arith, Bool-cases, ℕ_discrete, get_elem?-some,
  by_bool, ne→==,
}
use mathlib.Core.List.{append_assoc, append-nil}
use virtio_device_poc.Base.Bits.{bit}
use virtio_device_poc.Gpu.Interface.{Rectangle, Transfer3d}
use virtio_device_poc.Gpu.Protocol.Responses.{ok_no_data}
use virtio_device_poc.Gpu.Scanouts.{GpuHost, ScanoutUpdate, VirtioGpuResource}
use virtio_device_poc.Gpu.Listing.{Shows}
use virtio_device_poc.Gpu.Linked.{IsLinked}
use virtio_device_poc.Gpu.Rutabaga.{
  Gpu, checked_mul, calculate_size, enabled_from, iter_enabled, read_2d_resource, flush_scanouts,
  flush_resource, whole_resource,
}

abbrev pub IsAmong : ℕ → List ℕ → Type 0
IsAmong i [] = ⊥
IsAmong i (j ∷ js) = (i ≡ j) ⊎ IsAmong i js

-- Each is less than the next one, and none is less than the bound.
abbrev pub Ascends : ℕ → List ℕ → Type 0
Ascends k [] = Unit
Ascends k (i ∷ is) = (k ≤ i) × Ascends (i + 1) is

Ascends-le : (k l : ℕ) (is : List ℕ) → k ≤ l → Ascends l is → Ascends k is
Ascends-le k l [] le a = tt
Ascends-le k l (i ∷ is) le a = (omega arith, a.1)

enabled_from-Ascends : (n i m : ℕ) → Ascends i (enabled_from n i m)
unfolding enabled_from
enabled_from-Ascends zero i m = tt
enabled_from-Ascends (suc n) i m =
    by_bool (Ascends i) (bit m i == 1) (i ∷ enabled_from n (i + 1) m) (enabled_from n (i + 1) m)
      (λ on. (omega arith, enabled_from-Ascends n (i + 1) m))
      (λ off. Ascends-le i (i + 1) _ (omega arith) (enabled_from-Ascends n (i + 1) m))

enabled_from_iff :
    (n i m j : ℕ) → IsAmong j (enabled_from n i m) ↔ ((i ≤ j) × (j < i + n) × (bit m j ≡ 1))
unfolding enabled_from
enabled_from_iff zero i m j = (λ h. absurd h, λ (a, b, c). absurd (omega arith))
enabled_from_iff (suc n) i m j =
    let (to, from) = enabled_from_iff n (i + 1) m j in
    elim (Bool-cases (bit m i == 1)) [
      | inl on ↦ rw on (
        λ h. elim h [
          | inl e ↦ (omega arith, omega arith, ap (bit m) e ∙ ground arith)
          | inr later ↦ let (a, b, c) = to later in (omega arith, omega arith, c)
        ],
        λ (a, b, c). elim (ℕ_discrete j i) [
          | yes e ↦ inl e
          | no ne ↦ inr (from (omega arith, omega arith, c))
        ],
      )
      | inr off ↦ rw off (
        λ h. let (a, b, c) = to h in (omega arith, omega arith, c),
        λ (a, b, c). elim (ℕ_discrete j i) [
          | yes e ↦ let on = sym (ap (bit m) e) ∙ c in absurd (ground arith)
          | no ne ↦ from (omega arith, omega arith, c)
        ],
      )
    ]

module _ (h : GpuHost) (updates : h.GpuBackend → List ScanoutUpdate)
    (reads : (x : h.Rutabaga) (id : ℕ) (t : Transfer3d) (len : ℕ)
      → (bytes : List ℕ) × ((h.transfer_read_to x 0 id t len).1 ≡ ok bytes))
    (takes : (x : h.GpuBackend) (u : ScanoutUpdate) (bytes : List ℕ)
      → ((h.update_scanout x u bytes).1 ≡ ok tt)
        × (updates (h.update_scanout x u bytes).0 ≡ updates x ++ u ∷ [])) where
  abbrev pub whole : VirtioGpuResource → ℕ → ScanoutUpdate
  whole r i = record { scanout_id = i; x = 0; y = 0; width = r.width; height = r.height }

  read_2d_resource-reads :
      (g : Gpu h) (r : VirtioGpuResource) (size len : ℕ)
      → calculate_size r ≡ some size
      → (bytes : List ℕ) × ((read_2d_resource h g r len).1 ≡ some bytes)
        × ((read_2d_resource h g r len).0.gpu_backend ≡ g.gpu_backend)
  unfolding read_2d_resource
  read_2d_resource-reads g r size len e =
      let (bytes, e') = reads g.rutabaga r.id (whole_resource h r) len in
      (bytes, rw (e, read_2d_resource) (rw e' refl), rw (e, read_2d_resource) refl)

  flush_scanouts-updates :
      (g : Gpu h) (r : VirtioGpuResource) (size : ℕ) (ids : List ℕ)
      → calculate_size r ≡ some size
      → ((flush_scanouts h g r ids).1 ≡ ok ok_no_data)
        × (updates (flush_scanouts h g r ids).0.gpu_backend
            ≡ updates g.gpu_backend ++ map (whole r) ids)
  unfolding flush_scanouts
  flush_scanouts-updates g r size [] e = (refl, sym (append-nil (updates g.gpu_backend)))
  flush_scanouts-updates g r size (i ∷ ids) e =
      let (bytes, e', same) = read_2d_resource-reads g r size size e in
      let g' = (read_2d_resource h g r size).0 in
      let (answered, shown) = takes g'.gpu_backend (whole r i) bytes in
      let g'' : Gpu h = record g' {
        gpu_backend = (h.update_scanout g'.gpu_backend (whole r i) bytes).0;
      } in
      let (ok', shown') = flush_scanouts-updates g'' r size ids e in
      rw (e, flush_scanouts)
        (rw e' (
          rw answered (
            ok',
            shown'
                ∙ ap (λ l. l ++ map (whole r) ids)
                    (shown ∙ ap (λ x. updates x ++ whole r i ∷ []) same)
                ∙ append_assoc (updates g.gpu_backend) (whole r i ∷ []) (map (whole r) ids),
          )))

  -- With a front-end that takes the updates and a rutabaga that reads the resource, the flush of a
  -- resource whose size fits sends one update of the whole resource to each scanout that shows it,
  -- in ascending order, and to no other, if resources and scanouts are linked.
  pub flush_resource-updates :
      (g : Gpu h) (id : ℕ) (rect : Rectangle) (r : VirtioGpuResource)
      → IsLinked h g
      → length g.scanouts ≡ 16
      → id ≢ 0
      → g.resources id ≡ some r
      → r.width * r.height * 4 < 2 ^ 64
      → (ids : List ℕ) × ((flush_resource h g id rect).1 ≡ ok ok_no_data)
        × (updates (flush_resource h g id rect).0.gpu_backend
            ≡ updates g.gpu_backend ++ map (whole r) ids)
        × Ascends 0 ids
        × ((i : ℕ) → IsAmong i ids ↔ Shows g.scanouts i id)
  unfolding flush_resource iter_enabled calculate_size checked_mul
  flush_resource-updates g id rect r linked all ne e fits =
      let ids = enabled_from 16 0 r.scanouts in
      let size : calculate_size r ≡ some (r.width * r.height * 4) = ground arith in
      let (ok', shown) = flush_scanouts-updates g r (r.width * r.height * 4) ids size in
      (
        ids,
        rw (ne→== id 0 ne) (rw e ok'),
        rw (ne→== id 0 ne) (rw e shown),
        enabled_from-Ascends 16 0 r.scanouts,
        λ i. (
          λ among. (linked.listed id r e i).0 ((enabled_from_iff 16 0 r.scanouts i).0 among).2,
          λ shows.
              let small = get_elem?-some g.scanouts i (some id) shows in
              (enabled_from_iff 16 0 r.scanouts i).1
                (omega arith, omega arith, (linked.listed id r e i).1 shows),
        ),
      )
