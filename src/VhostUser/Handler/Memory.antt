-- ===== src/VhostUser/Handler/Memory.antt =====
-- The guest memory table, the translation of front-end addresses, and the migration log.
-- (vhost-user/src/handler.rs)
use virtio_device_poc.Base.{
  ℕ, ◌+◌, ◌-◌, ◌%◌, ◌^◌, true, ◌&&◌, Option, none, some, List, [], ◌∷◌, ◌++◌, Result, ok, err, ◌==◌,
  ltb, leb, if◌then◌else◌,
}
use virtio_device_poc.VhostUser.Host.{Host}
use virtio_device_poc.VhostUser.Bitmap.{AtomicBitmapMmap, LogMem, IoError, from_file}
use virtio_device_poc.VhostUser.Bitmap
use virtio_device_poc.VhostUser.Handler.Types.{
  VhostUserError, mmap_error, req_handler_error, memory_error, log_error, missing_memory_mapping,
  Reply, reply, refuse, AddrMapping, Device, VhostUserHandler,
}

-- VhostUserMemoryRegion, and the region of a VhostUserSingleMemoryRegion.
pub record MemoryRegion : Type 0 where
  pub guest_phys_addr : ℕ
  pub memory_size : ℕ
  pub user_addr : ℕ
  pub mmap_offset : ℕ

abbrev pub mapping_of : MemoryRegion → AddrMapping
mapping_of r = record { vmm_addr = r.user_addr; size = r.memory_size; gpa_base = r.guest_phys_addr }

-- The loop of `vmm_va_to_gpa`. The sums are on u64 and wrap, as in a release build.
unfoldable pub va_to_gpa : List AddrMapping → ℕ → Option ℕ
va_to_gpa [] va = none
va_to_gpa (m ∷ ms) va =
    if leb m.vmm_addr va && ltb va ((m.vmm_addr + m.size) % 2 ^ 64)
    then some ((va - m.vmm_addr + m.gpa_base) % 2 ^ 64)
    else va_to_gpa ms va

-- `retain` on the mappings.
unfoldable pub retain_mappings : ℕ → List AddrMapping → List AddrMapping
retain_mappings gpa [] = []
retain_mappings gpa (m ∷ ms) =
    let rest = retain_mappings gpa ms in if m.gpa_base == gpa then rest else m ∷ rest

module _ (h : Host) (d : Device h) where
  abbrev Handler : Type 0
  Handler = VhostUserHandler h d

  unfoldable pub vmm_va_to_gpa : Handler → ℕ → Result ℕ VhostUserError
  vmm_va_to_gpa s vmm_va = elim (va_to_gpa s.mappings vmm_va) [
    | none ↦ err (req_handler_error missing_memory_mapping)
    | some gpa ↦ ok gpa
  ]

  -- Mapping one region's file into the process.
  unfoldable pub guest_region : MemoryRegion → ℕ → Result h.Region VhostUserError
  guest_region r file = elim (h.mmap_region file r.mmap_offset r.memory_size) [
    | err e ↦ err (mmap_error e)
    | ok m ↦ elim (h.new_region m r.guest_phys_addr) [
      | err e ↦ err (req_handler_error (memory_error e))
      | ok g ↦ ok g
    ]
  ]

  -- The loop of `set_mem_table` over the regions, each with its file.
  unfoldable pub map_regions :
      List MemoryRegion → List ℕ → Result (List h.Region × List AddrMapping) VhostUserError
  map_regions [] files = ok ([], [])
  map_regions (r ∷ rs) [] = ok ([], [])
  map_regions (r ∷ rs) (f ∷ fs) =
      let rest = map_regions rs fs in
      elim (guest_region r f) [
        | err e ↦ err e
        | ok g ↦ elim rest [ err e ↦ err e | ok (gs, ms) ↦ ok (g ∷ gs, mapping_of r ∷ ms) ]
      ]

  -- The new table's regions have no bitmap yet.
  unfoldable pub set_mem_table : Handler → List MemoryRegion → List ℕ → Handler × Reply (Unit {0})
  set_mem_table s ctx files = elim (map_regions ctx files) [
    | err e ↦ (s, refuse e)
    | ok (regions, mappings) ↦ elim (h.from_regions regions) [
      | err e ↦ (s, refuse (req_handler_error (memory_error e)))
      | ok mem ↦ (
        record s {
          atomic_mem = mem;
          memory_updated = true;
          mappings = mappings;
          installed = λ start. none;
        },
        reply tt,
      )
    ]
  ]

  -- A region that is added or removed leaves no bitmap at its start.
  unfoldable pub without_bitmap : (ℕ → Option AtomicBitmapMmap) → ℕ → ℕ → Option AtomicBitmapMmap
  without_bitmap installed gpa start = if start == gpa then none else installed start

  unfoldable pub add_mem_region : Handler → MemoryRegion → ℕ → Handler × Reply (Unit {0})
  add_mem_region s r file = elim (guest_region r file) [
    | err e ↦ (s, refuse e)
    | ok g ↦ elim (h.insert_region s.atomic_mem g) [
      | err e ↦ (s, refuse (req_handler_error (memory_error e)))
      | ok mem ↦ (
        record s {
          atomic_mem = mem;
          mappings = s.mappings ++ mapping_of r ∷ [];
          installed = without_bitmap s.installed r.guest_phys_addr;
        },
        reply tt,
      )
    ]
  ]

  unfoldable pub remove_mem_region : Handler → MemoryRegion → Handler × Reply (Unit {0})
  remove_mem_region s r = elim (h.remove_region s.atomic_mem r.guest_phys_addr r.memory_size) [
    | err e ↦ (s, refuse (req_handler_error (memory_error e)))
    | ok mem ↦ (
      record s {
        atomic_mem = mem;
        mappings = retain_mappings r.guest_phys_addr s.mappings;
        installed = without_bitmap s.installed r.guest_phys_addr;
      },
      reply tt,
    )
  ]

  -- All bitmaps, before any is installed.
  unfoldable pub new_bitmaps : LogMem → List (ℕ × ℕ) → Result (List (ℕ × AtomicBitmapMmap)) IoError
  new_bitmaps logmem [] = ok []
  new_bitmaps logmem ((start, len) ∷ rs) =
      let rest = new_bitmaps logmem rs in
      elim (Bitmap.new start len logmem) [
        | err e ↦ err e
        | ok b ↦ elim rest [ err e ↦ err e | ok bs ↦ ok ((start, b) ∷ bs) ]
      ]

  unfoldable pub install :
      List (ℕ × AtomicBitmapMmap) → (ℕ → Option AtomicBitmapMmap) → ℕ → Option AtomicBitmapMmap
  install [] old start = old start
  install ((s, b) ∷ bs) old start = if start == s then some b else install bs old start

  unfoldable pub set_log_base : Handler → ℕ → ℕ → ℕ → Handler × Reply (Unit {0})
  set_log_base s file mmap_offset mmap_size = elim (from_file (h.mmap file) mmap_offset mmap_size) [
    | err e ↦ (s, refuse (req_handler_error (log_error e)))
    | ok logmem ↦ elim (new_bitmaps logmem (h.regions s.atomic_mem)) [
      | err e ↦ (s, refuse (req_handler_error (log_error e)))
      | ok bitmaps ↦ (record s { log = logmem; installed = install bitmaps s.installed }, reply tt)
    ]
  ]
