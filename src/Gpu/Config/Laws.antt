-- ===== src/Gpu/Config/Laws.antt =====
-- Which configurations are accepted. (device/virtio-gpu/src/lib.rs)
use virtio_device_poc.Base.{
  ℕ, ◌+◌, ◌^◌, ◌≡◌, ◌≢◌, ◌↔◌, refl, sym, ap, ◌∙◌, inl, inr, Bool, true, false, not, ◌&&◌, Option,
  none, some, List, [], ◌∷◌, ◌++◌, Result, ok, err, ◌==◌, if◌then◌else◌, bit_and, bit_xor, arith,
  Bool-cases, ℕ_discrete, by_option, ne→==, min, ◌%◌,
}
use virtio_device_poc.Base.Bits.{
  bit, bit-le-one, bit-zero, bit_ext, bit-bit_or, bit-bit_and, bit-bit_xor, bit-pow_self,
  bit-pow_ne,
}
use virtio_device_poc.Gpu.Fences.Waiting.{All}
use virtio_device_poc.Gpu.Config.{
  GpuMode, virgl_renderer, gfxstream, CapsetNumbers, GpuFlags, GpuConfig, GpuConfigError,
  capset_unsuported_by_mode, gles_required_by_gfxstream, contains, all_capsets, known, known_bits,
  named, unknown, iter, first_unsupported, validate_capset, capset_or_default, new,
}

-- Every bit of the first is one of the second.
abbrev pub Within : ℕ → ℕ → Type 0
Within a b = (i : ℕ) → bit a i ≡ 1 → bit b i ≡ 1

ok-injective : (x y : GpuConfig) → ◌≡◌ {A = Result GpuConfig GpuConfigError} (ok x) (ok y) → x ≡ y
ok-injective x y h = cc

contains_iff : (mask f : ℕ) → (contains mask f ≡ true) ↔ Within f mask
unfolding contains
contains_iff mask f = (
  λ h i on.
      let e : bit_and mask f ≡ f = ground arith in
      let b = bit-bit_and mask f i in
      let b' = ap (λ x. bit x i) e in omega (arith, bit-le-one mask i),
  λ w.
      let e : bit_and mask f ≡ f = bit_ext (bit_and mask f) f (λ i.
        bit-bit_and mask f i ∙ elim (ℕ_discrete (bit f i) 1) [
          | yes on ↦ let m = w i on in omega arith
          | no off ↦ omega (arith, bit-le-one f i)
        ]) in
      ground arith,
)

first_unsupported_iff :
    (n : CapsetNumbers) (mask : ℕ) (fs : List ℕ)
    → (first_unsupported n mask fs ≡ none) ↔ All (λ f. Within f mask) fs
unfolding first_unsupported
first_unsupported_iff n mask [] = (λ h. tt, λ h. refl)
first_unsupported_iff n mask (f ∷ fs) =
    let (to, from) = first_unsupported_iff n mask fs in
    let (in', out) = contains_iff mask f in
    elim (Bool-cases (contains mask f)) [
      | inl has ↦ rw has (λ h. (in' has, to h), λ (w, ws). from ws)
      | inr lacks ↦ rw lacks (λ h. cc, λ (w, ws). let has = out w in cc)
    ]

All-append : (P : ℕ → Type 0) (xs ys : List ℕ) → All P (xs ++ ys) ↔ (All P xs × All P ys)
All-append P [] ys = (λ h. (tt, h), λ (a, b). b)
All-append P (x ∷ xs) ys =
    let (to, from) = All-append P xs ys in
    (λ (p, h). let (a, b) = to h in ((p, a), b), λ ((p, a), b). (p, from (a, b)))

module _ (n : CapsetNumbers) (mask capset : ℕ) where
  -- A named flag that the capset has is given by the iteration.
  named-has :
      (fs : List ℕ)
      → All (λ f. Within f mask) (named n capset fs)
      → All (λ f. contains capset f ≡ true → Within f mask) fs
  unfolding named
  named-has [] all = tt
  named-has (f ∷ fs) all = elim (Bool-cases (contains capset f)) [
    | inl has ↦ let both = rw has at all in (λ h. both.0, named-has fs both.1)
    | inr lacks ↦ let rest = rw lacks at all in (λ h. cc, named-has fs rest)
  ]

  named-Within : Within capset mask → (fs : List ℕ) → All (λ f. Within f mask) (named n capset fs)
  unfolding named
  named-Within w [] = tt
  named-Within w (f ∷ fs) = elim (Bool-cases (contains capset f)) [
    | inl has ↦ rw has (λ i on. w i ((contains_iff capset f).0 has i on), named-Within w fs)
    | inr lacks ↦ rw lacks (named-Within w fs)
  ]

  abbrev rest : ℕ
  rest = bit_xor capset (bit_and capset (known_bits n))

  rest-bit : (i : ℕ) → bit rest i ≡ (bit capset i + min (bit capset i) (bit (known_bits n) i)) % 2
  rest-bit i =
      bit-bit_xor capset (bit_and capset (known_bits n)) i
      ∙ ap (λ b. (bit capset i + b) % 2) (bit-bit_and capset (known_bits n) i)

  unknown-has : All (λ f. Within f mask) (unknown n capset) → rest ≢ 0 → Within rest mask
  unfolding unknown
  unknown-has all ne = (rw (ne→== rest 0 ne) at all).0

  unknown-Within : Within capset mask → All (λ f. Within f mask) (unknown n capset)
  unfolding unknown
  unknown-Within w = elim (Bool-cases (rest == 0)) [
    | inl none_left ↦ rw none_left tt
    | inr some_left ↦ rw some_left (
      λ i on.
          let e = rest-bit i in
          w i (omega (arith, bit-le-one capset i, bit-le-one (known_bits n) i)),
      tt,
    )
  ]

  -- A known flag is supported, if the capset has it.
  at_number :
      (k i : ℕ)
      → (contains capset (2 ^ k) ≡ true → Within (2 ^ k) mask)
      → bit capset i ≡ 1
      → i ≡ k
      → bit mask i ≡ 1
  at_number k i has on e =
      has
        ((contains_iff capset (2 ^ k)).1 (λ j on_j. elim (ℕ_discrete k j) [
          | yes same ↦ ap (bit capset) (sym (e ∙ same)) ∙ on
          | no ne ↦ absurd (omega (arith, bit-pow_ne k j ne, on_j))
        ]))
        i (ap (bit (2 ^ k)) e ∙ bit-pow_self k)

  known-bit :
      (i : ℕ)
      → i ≢ n.virgl
      → i ≢ n.virgl2
      → i ≢ n.gfxstream_vulkan
      → i ≢ n.gfxstream_gles
      → bit (known_bits n) i ≡ 0
  unfolding all_capsets
  known-bit i a b c d = omega (
    arith,
    bit-bit_or (all_capsets n virgl_renderer) (all_capsets n gfxstream) i,
    bit-bit_or (2 ^ n.virgl) (2 ^ n.virgl2) i,
    bit-bit_or (2 ^ n.gfxstream_vulkan) (2 ^ n.gfxstream_gles) i,
    bit-pow_ne n.virgl i (λ e. a (sym e)),
    bit-pow_ne n.virgl2 i (λ e. b (sym e)),
    bit-pow_ne n.gfxstream_vulkan i (λ e. c (sym e)),
    bit-pow_ne n.gfxstream_gles i (λ e. d (sym e)),
  )

  iter_iff : All (λ f. Within f mask) (iter n capset) ↔ Within capset mask
  unfolding iter
  iter_iff = (
    λ all i on.
        let (a, b) =
          (All-append (λ f. Within f mask) (named n capset (known n)) (unknown n capset)).0 all in
        let (h1, (h2, (h3, (h4, u)))) = named-has (known n) a in
        elim (ℕ_discrete i n.virgl) [
          | yes e ↦ at_number n.virgl i h1 on e
          | no ne1 ↦ elim (ℕ_discrete i n.virgl2) [
            | yes e ↦ at_number n.virgl2 i h2 on e
            | no ne2 ↦ elim (ℕ_discrete i n.gfxstream_vulkan) [
              | yes e ↦ at_number n.gfxstream_vulkan i h3 on e
              | no ne3 ↦ elim (ℕ_discrete i n.gfxstream_gles) [
                | yes e ↦ at_number n.gfxstream_gles i h4 on e
                | no ne4 ↦
                    let bit_on : bit rest i ≡ 1 =
                      omega (arith, rest-bit i, known-bit i ne1 ne2 ne3 ne4) in
                    unknown-has b (λ e. absurd (omega (arith, ap (λ x. bit x i) e, bit-zero i))) i
                      bit_on
              ]
            ]
          ]
        ],
    λ w.
        (All-append (λ f. Within f mask) (named n capset (known n)) (unknown n capset)).1
          (named-Within w (known n), unknown-Within w),
  )

validate_capset_iff :
    (n : CapsetNumbers) (gpu_mode : GpuMode) (capset : ℕ)
    → (validate_capset n gpu_mode capset ≡ none) ↔ Within capset (all_capsets n gpu_mode)
unfolding validate_capset
validate_capset_iff n gpu_mode capset =
    let mask = all_capsets n gpu_mode in
    let (to, from) = first_unsupported_iff n mask (iter n capset) in
    let (in', out) = iter_iff n mask capset in
    (
      λ h. in' (
          to (
            by_option
              (λ (e : Option GpuConfigError).
                e ≡ none → first_unsupported n mask (iter n capset) ≡ none)
              (first_unsupported n mask (iter n capset)) none
              (λ f. some (capset_unsuported_by_mode gpu_mode f)) (λ e h'. e) (λ f e h'. cc) h)),
      λ w. rw (from (out w), validate_capset) refl,
    )

contains-pow_iff : (c k : ℕ) → (contains c (2 ^ k) ≡ true) ↔ (bit c k ≡ 1)
contains-pow_iff c k = (
  λ h. (contains_iff c (2 ^ k)).0 h k (bit-pow_self k),
  λ on. (contains_iff c (2 ^ k)).1 (λ j on_j. elim (ℕ_discrete k j) [
    | yes same ↦ ap (bit c) (sym same) ∙ on
    | no ne ↦ absurd (omega (arith, bit-pow_ne k j ne, on_j))
  ]),
)

accept_iff :
    (v : Option GpuConfigError) (b u : Bool) (made config : GpuConfig)
    → ((elim v as (λ x. Result GpuConfig GpuConfigError) [
      | some e ↦ err e
      | none ↦ if b && not u then err gles_required_by_gfxstream else ok made
    ])
        ≡ ok config)
      ↔ ((config ≡ made) × (v ≡ none) × (b ≡ true → u ≡ true))
accept_iff (some e) b u made config = (λ h. cc, λ (p, q, r). cc)
accept_iff none false u made config =
    (λ h. (sym (ok-injective made config h), refl, λ e. cc), λ (p, q, r). ap ok (sym p))
accept_iff none true true made config =
    (λ h. (sym (ok-injective made config h), refl, λ e. refl), λ (p, q, r). ap ok (sym p))
accept_iff none true false made config = (λ h. cc, λ (p, q, r). let e = r refl in cc)

-- Without capsets the default of the mode is taken. A configuration is accepted exactly if each bit
-- of its capsets is supported by the mode, and GLES is used if the capset gfxstream-gles is among
-- them; it then holds the mode, the capsets and the flags.
pub new_iff :
    (n : CapsetNumbers) (gpu_mode : GpuMode) (capset : Option ℕ) (flags : GpuFlags)
    (config : GpuConfig)
    → (new n gpu_mode capset flags ≡ ok config) ↔ (
        (config ≡ record {
          gpu_mode = gpu_mode;
          capset = capset_or_default n gpu_mode capset;
          flags = flags;
        })
        × Within (capset_or_default n gpu_mode capset) (all_capsets n gpu_mode)
        × (bit (capset_or_default n gpu_mode capset) n.gfxstream_gles ≡ 1 → flags.use_gles ≡ true))
unfolding new
new_iff n gpu_mode capset flags config =
    let c = capset_or_default n gpu_mode capset in
    let made : GpuConfig = record { gpu_mode = gpu_mode; capset = c; flags = flags } in
    let (to, from) = validate_capset_iff n gpu_mode c in
    let (has, has') = contains-pow_iff c n.gfxstream_gles in
    let (in', out) =
      accept_iff (validate_capset n gpu_mode c) (contains c (2 ^ n.gfxstream_gles)) flags.use_gles
        made config in
    (
      λ h. let (p, q, r) = in' h in (p, to q, λ on. r (has' on)),
      λ (p, q, r). out (p, from q, λ on. r (has on)),
    )
