-- ===== src/VhostUser/Handler/Keeps/Memory.antt =====
-- The requests on the memory table and the log. (vhost-user/src/handler.rs)
use virtio_device_poc.Base.{ℕ, refl, inl, List, by_result}
use virtio_device_poc.VhostUser.Host.{Host}
use virtio_device_poc.VhostUser.Handler.Types.{Device, VhostUserHandler}
use virtio_device_poc.VhostUser.Handler.Memory.{
  MemoryRegion, set_mem_table, add_mem_region, remove_mem_region, set_log_base, map_regions,
  guest_region, new_bitmaps,
}
use virtio_device_poc.VhostUser.Bitmap.{from_file}
use virtio_device_poc.VhostUser.Handler.Keeps.{IsKept, is_kept, kept}

module _ (h : Host) (d : Device h) where
  abbrev Handler : Type 0
  Handler = VhostUserHandler h d

  pub set_mem_table-Keeps :
      (s : Handler) (ctx : List MemoryRegion) (files : List ℕ)
      → IsKept h d s (set_mem_table h d s ctx files)
  unfolding set_mem_table
  set_mem_table-Keeps s ctx files =
      by_result (IsKept h d s) (map_regions h d ctx files) _ _
        (λ (regions, mappings) e.
          by_result (IsKept h d s) (h.from_regions regions) _ _
            (λ mem q. is_kept h d s _ _ (record {
              same_queues = refl;
              same_rings = refl;
              stays_activated = λ p. p;
              needs_memory = inl;
              stays_updated = λ p. refl;
              stays_offered = λ p. p;
            }))
            (λ x q. kept h d s _))
        (λ x e. kept h d s _)

  pub add_mem_region-Keeps :
      (s : Handler) (r : MemoryRegion) (file : ℕ) → IsKept h d s (add_mem_region h d s r file)
  unfolding add_mem_region
  add_mem_region-Keeps s r file =
      by_result (IsKept h d s) (guest_region h d r file) _ _
        (λ g e.
          by_result (IsKept h d s) (h.insert_region s.atomic_mem g) _ _
            (λ mem q. is_kept h d s _ _ (record {
              same_queues = refl;
              same_rings = refl;
              stays_activated = λ p. p;
              needs_memory = inl;
              stays_updated = λ p. p;
              stays_offered = λ p. p;
            }))
            (λ x q. kept h d s _))
        (λ x e. kept h d s _)

  pub remove_mem_region-Keeps :
      (s : Handler) (r : MemoryRegion) → IsKept h d s (remove_mem_region h d s r)
  unfolding remove_mem_region
  remove_mem_region-Keeps s r =
      by_result (IsKept h d s) (h.remove_region s.atomic_mem r.guest_phys_addr r.memory_size) _ _
        (λ mem q. is_kept h d s _ _ (record {
          same_queues = refl;
          same_rings = refl;
          stays_activated = λ p. p;
          needs_memory = inl;
          stays_updated = λ p. p;
          stays_offered = λ p. p;
        }))
        (λ x q. kept h d s _)

  pub set_log_base-Keeps :
      (s : Handler) (file mmap_offset mmap_size : ℕ)
      → IsKept h d s (set_log_base h d s file mmap_offset mmap_size)
  unfolding set_log_base
  set_log_base-Keeps s file mmap_offset mmap_size =
      by_result (IsKept h d s) (from_file (h.mmap file) mmap_offset mmap_size) _ _
        (λ logmem e.
          by_result (IsKept h d s) (new_bitmaps h d logmem (h.regions s.atomic_mem)) _ _
            (λ bitmaps q. is_kept h d s _ _ (record {
              same_queues = refl;
              same_rings = refl;
              stays_activated = λ p. p;
              needs_memory = inl;
              stays_updated = λ p. p;
              stays_offered = λ p. p;
            }))
            (λ x q. kept h d s _))
        (λ x e. kept h d s _)
