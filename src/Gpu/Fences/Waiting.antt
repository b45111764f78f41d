-- ===== src/Gpu/Fences/Waiting.antt =====
-- The descriptors that wait for a fence. (device/virtio-gpu/src/virtio_gpu.rs)
use virtio_device_poc.Base.{
  ℕ, ◌+◌, ◌≤◌, ◌<◌, ◌≡◌, ◌↔◌, refl, ap, Bool, true, false, List, [], ◌∷◌, ◌++◌, map, if◌then◌else◌,
  arith, Bool-cases, inl, inr,
}
use virtio_device_poc.Gpu.Fences.{
  VirtioGpuRing, global, context_specific, ring_eq, FenceDescriptor, is_done,
}

pub ring_eq_iff : (a b : VirtioGpuRing) → (ring_eq a b ≡ true) ↔ (a ≡ b)
unfolding ring_eq
ring_eq_iff global global = (λ h. refl, λ h. refl)
ring_eq_iff global (context_specific d j) = (λ h. cc, λ h. cc)
ring_eq_iff (context_specific c i) global = (λ h. cc, λ h. cc)
ring_eq_iff (context_specific c i) (context_specific d j) = (λ h. ground arith, λ h. ground arith)

-- One list is made of two others, in order.
pub data Splits {A : Type 0} : List A → List A → List A → Type 0 where
  end : Splits [] [] []
  left : {a : A} {xs ys zs : List A} → Splits xs ys zs → Splits (a ∷ xs) ys (a ∷ zs)
  right : {a : A} {xs ys zs : List A} → Splits xs ys zs → Splits xs (a ∷ ys) (a ∷ zs)

abbrev pub All : {A : Type 0} → (A → Type 0) → List A → Type 0
All P [] = Unit
All P (x ∷ xs) = P x × All P xs

abbrev pub WaitsFor : VirtioGpuRing → ℕ → FenceDescriptor → Type 0
WaitsFor ring fence_id d = (d.ring ≡ ring) × (d.fence_id ≤ fence_id)

abbrev pub WaitsForNot : VirtioGpuRing → ℕ → FenceDescriptor → Type 0
WaitsForNot ring fence_id d = d.ring ≡ ring → fence_id < d.fence_id

pub is_done-true :
    (ring : VirtioGpuRing) (fence_id : ℕ) (d : FenceDescriptor)
    → is_done ring fence_id d ≡ true
    → WaitsFor ring fence_id d
unfolding is_done
is_done-true ring fence_id d h = (ground (arith, (ring_eq_iff d.ring ring).0), ground arith)

pub is_done-false :
    (ring : VirtioGpuRing) (fence_id : ℕ) (d : FenceDescriptor)
    → is_done ring fence_id d ≡ false
    → WaitsForNot ring fence_id d
unfolding is_done
is_done-false ring fence_id d h same = let e = (ring_eq_iff d.ring ring).1 same in ground arith

-- The elements at whose turn the ring is enabled and ready.
abbrev pub taken : {A : Type 0} → (ℕ → Bool) → ℕ → List A → List A
taken free n [] = []
taken free n (x ∷ xs) = if free n then x ∷ taken free (n + 1) xs else taken free (n + 1) xs

abbrev pub entries : List FenceDescriptor → List (ℕ × ℕ)
entries = map (λ d. (d.desc_index, d.len))

pub taken-cons :
    (free : ℕ → Bool) (n : ℕ) (d : FenceDescriptor) (ds : List FenceDescriptor)
    → taken free n (d ∷ ds) ≡ taken free n (d ∷ []) ++ taken free (n + 1) ds
taken-cons free n d ds = elim (Bool-cases (free n)) [
  | inl can ↦ rw can refl
  | inr cannot ↦ rw cannot refl
]

pub taken-all : (n : ℕ) (ds : List FenceDescriptor) → taken (λ k. true) n ds ≡ ds
taken-all n [] = refl
taken-all n (d ∷ ds) = ap (λ l. d ∷ l) (taken-all (n + 1) ds)

pub taken-never : (n : ℕ) (ds : List FenceDescriptor) → taken (λ k. false) n ds ≡ []
taken-never n [] = refl
taken-never n (d ∷ ds) = taken-never (n + 1) ds
