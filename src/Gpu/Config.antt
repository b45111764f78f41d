-- ===== src/Gpu/Config.antt =====
-- The configuration of the GPU device, with the feature gfxstream. (device/virtio-gpu/src/lib.rs)
pub mod Laws
use virtio_device_poc.Base.{
  ℕ, zero, suc, ◌+◌, ◌/◌, ◌%◌, ◌^◌, ◌≡◌, Bool, true, false, not, ◌&&◌, Option, none, some, List, [],
  ◌∷◌, ◌++◌, Result, ok, err, ◌==◌, if◌then◌else◌, bit_and, bit_or, bit_xor,
}

pub data GpuMode : Type 0 where
  virgl_renderer gfxstream : GpuMode

-- The numbers RUTABAGA_CAPSET_* of rutabaga_gfx.
pub record CapsetNumbers : Type 0 where
  pub virgl : ℕ
  pub virgl2 : ℕ
  pub gfxstream_vulkan : ℕ
  pub gfxstream_gles : ℕ

pub record GpuFlags : Type 0 where
  pub use_egl : Bool
  pub use_glx : Bool
  pub use_gles : Bool
  pub use_surfaceless : Bool

abbrev pub new_default : GpuFlags
new_default = record { use_egl = true; use_glx = false; use_gles = true; use_surfaceless = true }

pub record GpuConfig : Type 0 where
  pub gpu_mode : GpuMode
  pub capset : ℕ
  pub flags : GpuFlags

pub data GpuConfigError : Type 0 where
  capset_unsuported_by_mode : GpuMode → ℕ → GpuConfigError
  gles_required_by_gfxstream : GpuConfigError

-- `count_ones` of a u64.
unfoldable pub count_ones : ℕ → ℕ → ℕ
count_ones zero c = 0
count_ones (suc n) c = c % 2 + count_ones n (c / 2)

unfoldable pub num_capsets : ℕ → ℕ
unfolding count_ones
num_capsets capset = count_ones 64 capset

-- `contains` of bitflags.
unfoldable pub contains : ℕ → ℕ → Bool
contains mask capset = bit_and mask capset == capset

module _ (n : CapsetNumbers) where
  unfoldable pub all_capsets : GpuMode → ℕ
  all_capsets virgl_renderer = bit_or (2 ^ n.virgl) (2 ^ n.virgl2)
  all_capsets gfxstream = bit_or (2 ^ n.gfxstream_vulkan) (2 ^ n.gfxstream_gles)

  abbrev pub known : List ℕ
  known =
      (2 ^ n.virgl) ∷ ((2 ^ n.virgl2) ∷ ((2 ^ n.gfxstream_vulkan) ∷ ((2 ^ n.gfxstream_gles) ∷ [])))

  abbrev pub known_bits : ℕ
  known_bits = bit_or (all_capsets virgl_renderer) (all_capsets gfxstream)

  -- `iter` of bitflags gives the named flags that are contained, and the unknown bits together.
  unfoldable pub named : ℕ → List ℕ → List ℕ
  unfolding contains
  named capset [] = []
  named capset (f ∷ fs) = if contains capset f then f ∷ named capset fs else named capset fs

  unfoldable pub unknown : ℕ → List ℕ
  unknown capset =
      let rest = bit_xor capset (bit_and capset known_bits) in if rest == 0 then [] else rest ∷ []

  unfoldable pub iter : ℕ → List ℕ
  unfolding named unknown
  iter capset = named capset known ++ unknown capset

  unfoldable pub first_unsupported : ℕ → List ℕ → Option ℕ
  unfolding contains
  first_unsupported mask [] = none
  first_unsupported mask (f ∷ fs) =
      if not (contains mask f) then some f else first_unsupported mask fs

  unfoldable pub validate_capset : GpuMode → ℕ → Option GpuConfigError
  unfolding all_capsets first_unsupported iter
  validate_capset gpu_mode capset = elim (first_unsupported (all_capsets gpu_mode) (iter capset)) [
    | none ↦ none
    | some f ↦ some (capset_unsuported_by_mode gpu_mode f)
  ]

  unfoldable pub capset_or_default : GpuMode → Option ℕ → ℕ
  unfolding all_capsets
  capset_or_default gpu_mode none = all_capsets gpu_mode
  capset_or_default gpu_mode (some capset) = capset

  unfoldable pub new : GpuMode → Option ℕ → GpuFlags → Result GpuConfig GpuConfigError
  unfolding validate_capset capset_or_default contains
  new gpu_mode capset flags =
      let c = capset_or_default gpu_mode capset in
      elim (validate_capset gpu_mode c) [
        | some e ↦ err e
        | none ↦
            if contains c (2 ^ n.gfxstream_gles) && not flags.use_gles
            then err gles_required_by_gfxstream
            else ok (record { gpu_mode = gpu_mode; capset = c; flags = flags })
      ]
