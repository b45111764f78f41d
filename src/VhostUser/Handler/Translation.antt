-- ===== src/VhostUser/Handler/Translation.antt =====
-- The translation of the front-end's addresses, and the memory table that it reads.
-- (vhost-user/src/handler.rs)
use virtio_device_poc.Base.{
  ℕ, ◌+◌, ◌-◌, ◌%◌, ◌^◌, ◌≤◌, ◌<◌, ◌≡◌, ◌≢◌, ◌↔◌, ◌⊎◌, inl, inr, refl, sym, ap, ◌∙◌, subst, Bool,
  true, ◌&&◌, Option, none, some, List, [], ◌∷◌, ◌++◌, Result, ok, err, ltb, leb, arith, length,
  map, ne→==, eq→==, Bool-cases, ok-injective, by_result,
}
use mathlib.Core.Option.{some-injective}
use virtio_device_poc.VhostUser.Host.{Host}
use virtio_device_poc.VhostUser.Bitmap.{AtomicBitmapMmap}
use virtio_device_poc.VhostUser.Handler.Types.{
  VhostUserError, Reply, reply, AddrMapping, Device, VhostUserHandler, req_handler_error,
  missing_memory_mapping,
}
use virtio_device_poc.VhostUser.Handler.Memory.{
  MemoryRegion, mapping_of, va_to_gpa, retain_mappings, vmm_va_to_gpa, guest_region, map_regions,
  set_mem_table, add_mem_region, remove_mem_region, without_bitmap,
}

abbrev pub AllMappings : (AddrMapping → Type 0) → List AddrMapping → Type 0
AllMappings P [] = Unit {0}
AllMappings P (m ∷ ms) = P m × AllMappings P ms

abbrev pub AnyMapping : (AddrMapping → Type 0) → List AddrMapping → Type 0
AnyMapping P [] = ⊥
AnyMapping P (m ∷ ms) = P m ⊎ AnyMapping P ms

-- Neither end of the mapping wraps around 64 bits.
abbrev pub IsRepresentable : AddrMapping → Type 0
IsRepresentable m = (m.vmm_addr + m.size < 2 ^ 64) × (m.gpa_base + m.size ≤ 2 ^ 64)

abbrev pub IsApart : List AddrMapping → Type 0
IsApart [] = Unit {0}
IsApart (m ∷ ms) =
    AllMappings (λ n. (m.vmm_addr + m.size ≤ n.vmm_addr) ⊎ (n.vmm_addr + n.size ≤ m.vmm_addr)) ms
    × IsApart ms

-- The address lies in the mapping, and `gpa` is as far into the guest's part.
abbrev pub IsAt : ℕ → ℕ → AddrMapping → Type 0
IsAt va gpa m =
    (m.vmm_addr ≤ va) × (va < m.vmm_addr + m.size) × (gpa ≡ m.gpa_base + (va - m.vmm_addr))

abbrev inside : ℕ → AddrMapping → Bool
inside va m = leb m.vmm_addr va && ltb va ((m.vmm_addr + m.size) % 2 ^ 64)

IsAt-inside :
    (va gpa : ℕ) (m : AddrMapping) → IsRepresentable m → IsAt va gpa m → inside va m ≡ true
IsAt-inside va gpa m (r, s) (a, b, c) = ground arith

inside-IsAt :
    (va : ℕ) (m : AddrMapping)
    → IsRepresentable m
    → inside va m ≡ true
    → IsAt va ((va - m.vmm_addr + m.gpa_base) % 2 ^ 64) m
inside-IsAt va m (r, s) p =
    let below : m.vmm_addr ≤ va = ground arith in
    let above : va < m.vmm_addr + m.size = ground arith in
    let offset : (va - m.vmm_addr + m.gpa_base) % 2 ^ 64 ≡ m.gpa_base + (va - m.vmm_addr) =
      omega arith in
    (below, above, offset)

not_also :
    (va gpa : ℕ) (m : AddrMapping) (ms : List AddrMapping)
    → AllMappings (λ n. (m.vmm_addr + m.size ≤ n.vmm_addr) ⊎ (n.vmm_addr + n.size ≤ m.vmm_addr)) ms
    → (m.vmm_addr ≤ va) × (va < m.vmm_addr + m.size)
    → AnyMapping (IsAt va gpa) ms
    → ⊥
not_also va gpa m [] a p f = f
not_also va gpa m (n ∷ ms) a p (inl (x, y, z)) = elim a.0 [
  | inl q ↦ omega arith
  | inr q ↦ omega arith
]
not_also va gpa m (n ∷ ms) a p (inr f) = not_also va gpa m ms a.1 p f

va_to_gpa_iff :
    (ms : List AddrMapping) (va gpa : ℕ)
    → AllMappings IsRepresentable ms
    → IsApart ms
    → (va_to_gpa ms va ≡ some gpa) ↔ AnyMapping (IsAt va gpa) ms
unfolding va_to_gpa
va_to_gpa_iff [] va gpa r a = (λ e. cc, λ f. elim f [ ])
va_to_gpa_iff (m ∷ ms) va gpa r a = elim (Bool-cases (inside va m)) [
  | inl within ↦
      let here = inside-IsAt va m r.0 within in
      rw (within, va_to_gpa)
        (
          λ e. inl (subst (λ g. IsAt va g m) (some-injective _ gpa e) here),
          λ f. elim f [
            | inl at ↦ ap some (here.2 ∙ sym at.2)
            | inr later ↦ absurd (not_also va gpa m ms a.0 (here.0, here.1) later)
          ],
        )
  | inr outside ↦
      let (there, back) = va_to_gpa_iff ms va gpa r.1 a.1 in
      rw (outside, va_to_gpa)
        (
          λ e. inr (there e),
          λ f. elim f [
            | inl at ↦ let no = IsAt-inside va gpa m r.0 at in cc
            | inr later ↦ back later
          ],
        )
]

module _ (h : Host) (d : Device h) where
  abbrev Handler : Type 0
  Handler = VhostUserHandler h d

  map_regions_step :
      (r : MemoryRegion) (g : Result h.Region VhostUserError)
      (rest : Result (List h.Region × List AddrMapping) VhostUserError) (gs : List h.Region)
      (ms : List AddrMapping) (rs : List MemoryRegion)
      → (let r : Result (List h.Region × List AddrMapping) VhostUserError = elim g [
        | err e ↦ err e
        | ok x ↦ elim rest [ err e ↦ err e | ok (xs, ys) ↦ ok (x ∷ xs, mapping_of r ∷ ys) ]
      ] in
          r ≡ ok (gs, ms))
      → ((gs' : List h.Region) (ms' : List AddrMapping)
          → rest ≡ ok (gs', ms')
          → ms' ≡ map mapping_of rs)
      → ms ≡ mapping_of r ∷ map mapping_of rs
  map_regions_step r (err x) rest gs ms rs e ih = cc
  map_regions_step r (ok x) (err y) gs ms rs e ih = cc
  map_regions_step r (ok x) (ok (xs, ys)) gs ms rs e ih =
      let same = ih xs ys refl in
      let whole =
        ap (λ (p : List h.Region × List AddrMapping). p.1)
          (ok-injective (x ∷ xs, mapping_of r ∷ ys) (gs, ms) e) in
      sym whole ∙ ap (λ l. mapping_of r ∷ l) same

  map_regions_lem :
      (rs : List MemoryRegion) (fs : List ℕ) (gs : List h.Region) (ms : List AddrMapping)
      → length rs ≡ length fs
      → map_regions h d rs fs ≡ ok (gs, ms)
      → ms ≡ map mapping_of rs
  unfolding map_regions
  map_regions_lem [] fs gs ms same e = cc
  map_regions_lem (r ∷ rs) [] gs ms same e = absurd (omega arith)
  map_regions_lem (r ∷ rs) (f ∷ fs) gs ms same e =
      map_regions_step r (guest_region h d r f) (map_regions h d rs fs) gs ms rs e
        (λ gs' ms' e'. map_regions_lem rs fs gs' ms' (omega arith) e')

  unfoldable translate : List AddrMapping → ℕ → Result ℕ VhostUserError
  translate ms va = elim (va_to_gpa ms va) [
    | none ↦ err (req_handler_error missing_memory_mapping)
    | some gpa ↦ ok gpa
  ]

  translate_iff :
      (ms : List AddrMapping) (va gpa : ℕ)
      → AllMappings IsRepresentable ms
      → IsApart ms
      → (translate ms va ≡ ok gpa) ↔ AnyMapping (IsAt va gpa) ms
  unfolding translate
  translate_iff ms va gpa r a =
      let (there, back) = va_to_gpa_iff ms va gpa r a in
      (λ e. there (found (va_to_gpa ms va) e), λ f. rw (back f, translate) refl)
    where
      found :
          (o : Option ℕ)
          → (elim o [ none ↦ err (req_handler_error missing_memory_mapping) | some x ↦ ok x ])
            ≡ ok gpa
          → o ≡ some gpa
      found none e = cc
      found (some x) e = cc

  -- The mappings after an answer.
  unfoldable HasMappings : List AddrMapping → Handler × Reply (Unit {0}) → Type 0
  HasMappings ms r = r.1 ≡ reply tt → r.0.mappings ≡ ms

  set_mem_table-mappings :
      (s : Handler) (ctx : List MemoryRegion) (files : List ℕ)
      → length ctx ≡ length files
      → HasMappings (map mapping_of ctx) (set_mem_table h d s ctx files)
  unfolding set_mem_table HasMappings
  set_mem_table-mappings s ctx files same =
      by_result (HasMappings (map mapping_of ctx)) (map_regions h d ctx files) _ _
        (λ (gs, ms) e.
          by_result (HasMappings (map mapping_of ctx)) (h.from_regions gs) _ _
            (λ mem q p. map_regions_lem ctx files gs ms same e) (λ x q p. cc))
        (λ x e p. cc)

  add_mem_region-mappings :
      (s : Handler) (r : MemoryRegion) (file : ℕ)
      → HasMappings (s.mappings ++ mapping_of r ∷ []) (add_mem_region h d s r file)
  unfolding add_mem_region HasMappings
  add_mem_region-mappings s r file =
      by_result (HasMappings _) (guest_region h d r file) _ _
        (λ g e.
          by_result (HasMappings _) (h.insert_region s.atomic_mem g) _ _ (λ mem q p. refl)
            (λ x q p. cc))
        (λ x e p. cc)

  remove_mem_region-mappings :
      (s : Handler) (r : MemoryRegion)
      → HasMappings (retain_mappings r.guest_phys_addr s.mappings) (remove_mem_region h d s r)
  unfolding remove_mem_region HasMappings
  remove_mem_region-mappings s r =
      by_result (HasMappings _) (h.remove_region s.atomic_mem r.guest_phys_addr r.memory_size) _ _
        (λ mem q p. refl) (λ x q p. cc)

  -- A SET_MEM_TABLE that is answered replaces the whole translation: afterwards an address of
  -- the front-end is translated exactly if it lies in one of the request's regions, and then to
  -- the guest address as far into that region. The request has a file for each region, and its
  -- regions neither wrap around nor overlap in the front-end's address space.
  pub set_mem_table-translates :
      (s : Handler) (ctx : List MemoryRegion) (files : List ℕ)
      → length ctx ≡ length files
      → AllMappings IsRepresentable (map mapping_of ctx)
      → IsApart (map mapping_of ctx)
      → (set_mem_table h d s ctx files).1 ≡ reply tt
      → (va gpa : ℕ)
      → (vmm_va_to_gpa h d (set_mem_table h d s ctx files).0 va ≡ ok gpa)
        ↔ AnyMapping (IsAt va gpa) (map mapping_of ctx)
  unfolding HasMappings translate vmm_va_to_gpa
  set_mem_table-translates s ctx files same r a e va gpa =
      subst (λ ms. (translate ms va ≡ ok gpa) ↔ AnyMapping (IsAt va gpa) (map mapping_of ctx))
        (sym (set_mem_table-mappings s ctx files same e))
        (translate_iff (map mapping_of ctx) va gpa r a)

  retain_all :
      (gpa : ℕ) (m : AddrMapping) (ms : List AddrMapping)
      → m.gpa_base ≡ gpa
      → AllMappings (λ n. n.gpa_base ≢ gpa) ms
      → retain_mappings gpa (ms ++ m ∷ []) ≡ ms
  unfolding retain_mappings
  retain_all gpa m [] e a = rw (eq→== m.gpa_base gpa e, retain_mappings) refl
  retain_all gpa m (n ∷ ms) e a =
      rw (ne→== n.gpa_base gpa a.0, retain_mappings) (ap (λ l. n ∷ l) (retain_all gpa m ms e a.1))

  -- The bitmaps after an answer.
  unfoldable HasBitmaps : (ℕ → Option AtomicBitmapMmap) → Handler × Reply (Unit {0}) → Type 0
  HasBitmaps bitmaps r = r.1 ≡ reply tt → r.0.installed ≡ bitmaps

  add_mem_region-bitmaps :
      (s : Handler) (r : MemoryRegion) (file : ℕ)
      → HasBitmaps (without_bitmap h d s.installed r.guest_phys_addr) (add_mem_region h d s r file)
  unfolding add_mem_region HasBitmaps
  add_mem_region-bitmaps s r file =
      by_result (HasBitmaps _) (guest_region h d r file) _ _
        (λ g e.
          by_result (HasBitmaps _) (h.insert_region s.atomic_mem g) _ _ (λ mem q p. refl)
            (λ x q p. cc))
        (λ x e p. cc)

  remove_mem_region-bitmaps :
      (s : Handler) (r : MemoryRegion)
      → HasBitmaps (without_bitmap h d s.installed r.guest_phys_addr) (remove_mem_region h d s r)
  unfolding remove_mem_region HasBitmaps
  remove_mem_region-bitmaps s r =
      by_result (HasBitmaps _) (h.remove_region s.atomic_mem r.guest_phys_addr r.memory_size) _ _
        (λ mem q p. refl) (λ x q p. cc)

  without_bitmap_self :
      (bitmaps : ℕ → Option AtomicBitmapMmap) (gpa : ℕ) → without_bitmap h d bitmaps gpa gpa ≡ none
  unfolding without_bitmap
  without_bitmap_self bitmaps gpa = rw (eq→== gpa gpa refl) refl

  without_bitmap-other :
      (bitmaps : ℕ → Option AtomicBitmapMmap) (gpa start : ℕ)
      → start ≢ gpa
      → without_bitmap h d bitmaps gpa start ≡ bitmaps start
  unfolding without_bitmap
  without_bitmap-other bitmaps gpa start apart = rw (ne→== start gpa apart) refl

  -- Where no region starts at the new region's guest address yet, an answered ADD_MEM_REG puts the
  -- region's mapping behind the others and the region has no bitmap; an answered REM_MEM_REG of the
  -- region then leaves the mappings that were there, no bitmap at the region's start, and the other
  -- bitmaps as they were.
  pub add-remove_mem_region :
      (s : Handler) (r : MemoryRegion) (file : ℕ)
      → AllMappings (λ n. n.gpa_base ≢ r.guest_phys_addr) s.mappings
      → (add_mem_region h d s r file).1 ≡ reply tt
      → (remove_mem_region h d (add_mem_region h d s r file).0 r).1 ≡ reply tt
      → ((add_mem_region h d s r file).0.mappings ≡ s.mappings ++ mapping_of r ∷ [])
        × ((add_mem_region h d s r file).0.installed r.guest_phys_addr ≡ none)
        × ((remove_mem_region h d (add_mem_region h d s r file).0 r).0.mappings ≡ s.mappings)
        × ((remove_mem_region h d (add_mem_region h d s r file).0 r).0.installed r.guest_phys_addr
            ≡ none)
        × ((start : ℕ)
            → start ≢ r.guest_phys_addr
            → (remove_mem_region h d (add_mem_region h d s r file).0 r).0.installed start
              ≡ s.installed start)
  unfolding HasMappings HasBitmaps
  add-remove_mem_region s r file a e q =
      let gpa = r.guest_phys_addr in
      let added = add_mem_region-bitmaps s r file e in
      let left = remove_mem_region-bitmaps (add_mem_region h d s r file).0 r q in
      (
        add_mem_region-mappings s r file e,
        ap (λ b. b gpa) added ∙ without_bitmap_self s.installed gpa,
        remove_mem_region-mappings (add_mem_region h d s r file).0 r q
            ∙ ap (retain_mappings gpa) (add_mem_region-mappings s r file e)
            ∙ retain_all gpa (mapping_of r) s.mappings refl a,
        ap (λ b. b gpa) left ∙ without_bitmap_self _ gpa,
        λ start apart.
            ap (λ b. b start) left
            ∙ without_bitmap-other _ gpa start apart
            ∙ ap (λ b. b start) added
            ∙ without_bitmap-other s.installed gpa start apart,
      )
