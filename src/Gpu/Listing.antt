-- ===== src/Gpu/Listing.antt =====
-- The scanouts that the resources list, and what each change of the tables makes of them.
-- (device/virtio-gpu/src/virtio_gpu.rs)
use virtio_device_poc.Base.{
  ℕ, zero, suc, ◌<◌, length, ◌^◌, ◌≡◌, ◌≢◌, ◌↔◌, refl, sym, ap, ◌∙◌, subst, Option, none, some,
  List, replicate, set, get_elem?, arith, eq→==, ne→==, ℕ_discrete, get_elem?-set_self,
  get_elem?-set_ne,
}
use mathlib.Core.Option.{some-injective}
use virtio_device_poc.Base.Bits.{
  bit, bit-le-one, bit-bit_or, bit-bit_xor, bit-pow_self, bit-pow_ne, bit-zero,
}
use virtio_device_poc.Gpu.Scanouts.{enable, disable, VirtioGpuResource, Resources, put_resource}

pub bit-disable_self : (m i : ℕ) → bit m i ≡ 1 → bit (disable m i) i ≡ 0
unfolding disable
bit-disable_self m i e = omega (arith, bit-bit_xor m (2 ^ i) i, bit-pow_self i, e)

bit-disable_ne : (m i j : ℕ) → i ≢ j → bit (disable m i) j ≡ bit m j
unfolding disable
bit-disable_ne m i j ne = omega (arith, bit-bit_xor m (2 ^ i) j, bit-pow_ne i j ne, bit-le-one m j)

bit-enable_self : (m i : ℕ) → bit (enable m i) i ≡ 1
unfolding enable
bit-enable_self m i = omega (arith, bit-bit_or m (2 ^ i) i, bit-pow_self i, bit-le-one m i)

bit-enable_ne : (m i j : ℕ) → i ≢ j → bit (enable m i) j ≡ bit m j
unfolding enable
bit-enable_ne m i j ne = omega (arith, bit-bit_or m (2 ^ i) j, bit-pow_ne i j ne)

pub put_resource_self :
    (f : Resources) (r : ℕ) (x : Option VirtioGpuResource) → put_resource f r x r ≡ x
unfolding put_resource
put_resource_self f r x = rw (eq→== r r refl) refl

pub put_resource_ne :
    (f : Resources) (r k : ℕ) (x : Option VirtioGpuResource) → k ≢ r → put_resource f r x k ≡ f k
unfolding put_resource
put_resource_ne f r k x ne = rw (ne→== k r ne) refl

abbrev pub Shows : List (Option ℕ) → ℕ → ℕ → Type 0
Shows scanouts i r = get_elem? scanouts i ≡ some (some r)

-- The scanouts that `Shown` gives are listed by the resources, and no others.
pub record Lists (Shown : ℕ → ℕ → Type 0) (resources : Resources) : Type 0 where
  pub known : (i r : ℕ) → Shown i r → (x : VirtioGpuResource) × (resources r ≡ some x)
  pub listed :
      (r : ℕ) (x : VirtioGpuResource)
      → resources r ≡ some x
      → (i : ℕ) → (bit x.scanouts i ≡ 1) ↔ Shown i r

-- Without the scanout i.
abbrev pub Except : ℕ → List (Option ℕ) → ℕ → ℕ → Type 0
Except i scanouts j r = (i ≢ j) × Shows scanouts j r

pub left_none :
    (resources : Resources) (scanouts : List (Option ℕ)) (i : ℕ)
    → Lists (Shows scanouts) resources
    → get_elem? scanouts i ≡ some none
    → Lists (Except i scanouts) resources
left_none resources scanouts i l e = record {
  known = λ j r s. l.known j r s.1;
  listed = λ r x f j. (
    λ b.
        let shows = (l.listed r x f j).0 b in
        (λ same. let p = ap (get_elem? scanouts) same in cc, shows),
    λ s. (l.listed r x f j).1 s.1,
  );
}

put_resource-Lists :
    (P : ℕ → ℕ → Type 0) (f : Resources) (o : ℕ) (y : VirtioGpuResource)
    → ((j r : ℕ) → r ≢ o → P j r → (x : VirtioGpuResource) × (f r ≡ some x))
    → ((j : ℕ) → (bit y.scanouts j ≡ 1) ↔ P j o)
    → ((r : ℕ) (x : VirtioGpuResource)
        → r ≢ o
        → f r ≡ some x
        → (j : ℕ) → (bit x.scanouts j ≡ 1) ↔ P j r)
    → Lists P (put_resource f o (some y))
put_resource-Lists P f o y known own others = record {
  known = λ j r s. elim (ℕ_discrete r o) [
    | yes same ↦ (y, ap (put_resource f o (some y)) same ∙ put_resource_self f o (some y))
    | no ne ↦ let (x, e) = known j r ne s in (x, put_resource_ne f o r (some y) ne ∙ e)
  ];
  listed = λ r x e j. elim (ℕ_discrete r o) [
    | yes same ↦
        let p =
          some-injective y x (
            sym (put_resource_self f o (some y)) ∙ ap (put_resource f o (some y)) (sym same) ∙ e) in
        subst (λ k. (bit x.scanouts j ≡ 1) ↔ P j k) (sym same)
          (subst (λ (z : VirtioGpuResource). (bit z.scanouts j ≡ 1) ↔ P j o) p (own j))
    | no ne ↦ others r x ne (sym (put_resource_ne f o r (some y) ne) ∙ e) j
  ];
}

-- The resource o, which the scanout i showed, without i.
pub left_some :
    (resources : Resources) (scanouts : List (Option ℕ)) (i o : ℕ) (x : VirtioGpuResource)
    → Lists (Shows scanouts) resources
    → Shows scanouts i o
    → resources o ≡ some x
    → Lists
        (Except i scanouts)
        (put_resource resources o (some (record x { scanouts = disable x.scanouts i })))
left_some resources scanouts i o x l shown found =
    put_resource-Lists (Except i scanouts) resources o
      (record x { scanouts = disable x.scanouts i }) (λ j r ne s. l.known j r s.1) own
      (λ r y ne e j. (
        λ b.
            let shows = (l.listed r y e j).0 b in
            (
              λ same. ne (
                  some-injective r o (
                    some-injective (some r) (some o)
                      (sym shows ∙ ap (get_elem? scanouts) (sym same) ∙ shown))),
              shows,
            ),
        λ s. (l.listed r y e j).1 s.1,
      ))
  where
    on : bit x.scanouts i ≡ 1
    on = (l.listed o x found i).1 shown

    own : (j : ℕ) → (bit (disable x.scanouts i) j ≡ 1) ↔ Except i scanouts j o
    own j = elim (ℕ_discrete i j) [
      | yes same ↦ (
        λ b. absurd (
            omega
              (arith, b, ap (bit (disable x.scanouts i)) same, bit-disable_self x.scanouts i on)),
        λ s. absurd (s.0 same),
      )
      | no ne ↦ (
        λ b. (ne, (l.listed o x found j).0 (sym (bit-disable_ne x.scanouts i j ne) ∙ b)),
        λ s. bit-disable_ne x.scanouts i j ne ∙ (l.listed o x found j).1 s.1,
      )
    ]

-- The resource o with the scanout i.
pub entered :
    (resources : Resources) (scanouts : List (Option ℕ)) (i o : ℕ) (x : VirtioGpuResource)
    → Lists (Except i scanouts) resources
    → i < length scanouts
    → resources o ≡ some x
    → Lists
        (Shows (set scanouts i (some o)))
        (put_resource resources o (some (record x { scanouts = enable x.scanouts i })))
entered resources scanouts i o x l small found =
    put_resource-Lists (Shows after) resources o (record x { scanouts = enable x.scanouts i })
      (λ j r ne s. l.known j r (only j r ne s)) own
      (λ r y ne e j.
        (λ b. kept j r ((l.listed r y e j).0 b), λ s. (l.listed r y e j).1 (only j r ne s)))
  where
    after : List (Option ℕ)
    after = set scanouts i (some o)

    only : (j r : ℕ) → r ≢ o → Shows after j r → Except i scanouts j r
    only j r ne s = elim (ℕ_discrete i j) [
      | yes same ↦ absurd (
          ne (
            some-injective r o (
              some-injective (some r) (some o) (
                sym s
                ∙ ap (get_elem? after) (sym same)
                ∙ get_elem?-set_self scanouts i (some o) small))))
      | no apart ↦ (apart, sym (get_elem?-set_ne scanouts i j (some o) apart) ∙ s)
    ]

    kept : (j r : ℕ) → Except i scanouts j r → Shows after j r
    kept j r s = get_elem?-set_ne scanouts i j (some o) s.0 ∙ s.1

    own : (j : ℕ) → (bit (enable x.scanouts i) j ≡ 1) ↔ Shows after j o
    own j = elim (ℕ_discrete i j) [
      | yes same ↦ (
        λ b. ap (get_elem? after) (sym same) ∙ get_elem?-set_self scanouts i (some o) small,
        λ s. ap (bit (enable x.scanouts i)) (sym same) ∙ bit-enable_self x.scanouts i,
      )
      | no ne ↦ (
        λ b. kept j o ((l.listed o x found j).0 (sym (bit-enable_ne x.scanouts i j ne) ∙ b)),
        λ s.
            bit-enable_ne x.scanouts i j ne
            ∙ (l.listed o x found j).1 (ne, sym (get_elem?-set_ne scanouts i j (some o) ne) ∙ s),
      )
    ]

-- No resource with the scanout i, which is disabled.
pub cleared :
    (resources : Resources) (scanouts : List (Option ℕ)) (i : ℕ)
    → Lists (Except i scanouts) resources
    → i < length scanouts
    → Lists (Shows (set scanouts i none)) resources
cleared resources scanouts i l small = record {
  known = λ j r s. l.known j r (only j r s);
  listed = λ r x e j. (
    λ b. let s = (l.listed r x e j).0 b in get_elem?-set_ne scanouts i j none s.0 ∙ s.1,
    λ s. (l.listed r x e j).1 (only j r s),
  );
}
  where
    only : (j r : ℕ) → Shows (set scanouts i none) j r → Except i scanouts j r
    only j r s = elim (ℕ_discrete i j) [
      | yes same ↦
          let e =
            ap (get_elem? (set scanouts i none)) (sym same)
            ∙ get_elem?-set_self scanouts i none small in
          cc
      | no apart ↦ (apart, sym (get_elem?-set_ne scanouts i j none apart) ∙ s)
    ]

pub all_disabled : (n j r : ℕ) → Shows (replicate n none) j r → ⊥
all_disabled zero j r s = cc
all_disabled (suc n) zero r s = cc
all_disabled (suc n) (suc j) r s = all_disabled n j r s

-- With a new resource, which no scanout shows.
pub created :
    (resources : Resources) (scanouts : List (Option ℕ)) (o : ℕ) (x : VirtioGpuResource)
    → Lists (Shows scanouts) resources
    → resources o ≡ none
    → x.scanouts ≡ 0
    → Lists (Shows scanouts) (put_resource resources o (some x))
created resources scanouts o x l unused empty =
    put_resource-Lists (Shows scanouts) resources o x (λ j r ne s. l.known j r s)
      (λ j. (
        λ b. absurd (omega (arith, b, ap (λ m. bit m j) empty, bit-zero j)),
        λ s. let (y, e) = l.known j o s in cc,
      ))
      (λ r y ne e. l.listed r y e)

-- Without a resource that no scanout shows.
pub removed :
    (resources : Resources) (scanouts : List (Option ℕ)) (o : ℕ) (x : VirtioGpuResource)
    → Lists (Shows scanouts) resources
    → resources o ≡ some x
    → x.scanouts ≡ 0
    → Lists (Shows scanouts) (put_resource resources o none)
removed resources scanouts o x l found free = record {
  known = λ j r s. elim (ℕ_discrete r o) [
    | yes same ↦
        let on = (l.listed o x found j).1 (s ∙ ap (λ k. some (some k)) same) in
        absurd (omega (arith, on, ap (λ m. bit m j) free, bit-zero j))
    | no ne ↦ let (y, e) = l.known j r s in (y, put_resource_ne resources o r none ne ∙ e)
  ];
  listed = λ r y e j. elim (ℕ_discrete r o) [
    | yes same ↦
        let gone =
          sym (put_resource_self resources o none)
          ∙ ap (put_resource resources o none) (sym same)
          ∙ e in
        cc
    | no ne ↦ l.listed r y (sym (put_resource_ne resources o r none ne) ∙ e) j
  ];
}
