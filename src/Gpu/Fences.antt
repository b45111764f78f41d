-- ===== src/Gpu/Fences.antt =====
-- Descriptors that wait for a fence, and what a completed fence does with them.
-- (device/virtio-gpu/src/virtio_gpu.rs)
pub mod Waiting
pub mod Laws
pub mod Reachable
use virtio_device_poc.Base.{
  ℕ, ◌+◌, ◌≡◌, Bool, true, false, ◌&&◌, not, Option, none, some, List, [], ◌∷◌, ◌++◌, ◌==◌, leb,
  ltb, if◌then◌else◌, bit_and,
}
use virtio_device_poc.Gpu.Queue.{QueueApi}

pub data VirtioGpuRing : Type 0 where
  global : VirtioGpuRing
  context_specific : (ctx_id ring_idx : ℕ) → VirtioGpuRing

-- The derived equality.
unfoldable pub ring_eq : VirtioGpuRing → VirtioGpuRing → Bool
ring_eq global global = true
ring_eq (context_specific c i) (context_specific d j) = c == d && i == j
ring_eq a b = false

pub record FenceDescriptor : Type 0 where
  pub ring : VirtioGpuRing
  pub fence_id : ℕ
  pub desc_index : ℕ
  pub len : ℕ

pub record FenceState : Type 0 where
  pub descs : List FenceDescriptor
  pub completed_fences : VirtioGpuRing → Option ℕ

abbrev pub new_fence_state : FenceState
new_fence_state = record { descs = []; completed_fences = λ ring. none }

pub record RutabagaFence : Type 0 where
  pub flags : ℕ
  pub fence_id : ℕ
  pub ctx_id : ℕ
  pub ring_idx : ℕ

abbrev pub virtio_gpu_flag_fence : ℕ
virtio_gpu_flag_fence = 1

abbrev pub virtio_gpu_flag_info_ring_idx : ℕ
virtio_gpu_flag_info_ring_idx = 2

unfoldable pub ring_of : ℕ → ℕ → ℕ → VirtioGpuRing
ring_of flags ctx_id ring_idx =
    if bit_and flags virtio_gpu_flag_info_ring_idx == 0
    then global
    else context_specific ctx_id ring_idx

-- `*completed_fences.get(&ring).unwrap_or(&0)`.
unfoldable pub completed : FenceState → VirtioGpuRing → ℕ
completed s ring = elim (s.completed_fences ring) [ none ↦ 0 | some fence_id ↦ fence_id ]

unfoldable pub process_fence : FenceState → VirtioGpuRing → ℕ → ℕ → ℕ → FenceState × Bool
process_fence s ring fence_id desc_index len =
    if ltb (completed s ring) fence_id
    then (
      record s {
        descs =
            s.descs
            ++ record { ring = ring; fence_id = fence_id; desc_index = desc_index; len = len } ∷ [];
      },
      false,
    )
    else (s, true)

unfoldable pub is_done : VirtioGpuRing → ℕ → FenceDescriptor → Bool
is_done ring fence_id d = ring_eq d.ring ring && leb d.fence_id fence_id

unfoldable pub insert_completed : FenceState → VirtioGpuRing → ℕ → VirtioGpuRing → Option ℕ
insert_completed s ring fence_id other =
    if ring_eq other ring then some fence_id else s.completed_fences other

-- The fences that rutabaga signals in the course of a command, while the worker holds the queue,
-- are completed. A descriptor that waits for one of them would have to be returned to that queue:
-- the handler would wait for it without end, and such a run is not modelled.
unfoldable pub signal_fences : FenceState → List RutabagaFence → FenceState
unfolding ring_of insert_completed
signal_fences s [] = s
signal_fences s (fence ∷ fences) =
    signal_fences
      (record s {
        completed_fences =
            insert_completed s (ring_of fence.flags fence.ctx_id fence.ring_idx) fence.fence_id;
      })
      fences

module _ (q : QueueApi) where
  -- A descriptor of the completed fence: it is lost if the ring is disabled or not ready, for which
  -- `try_lock_queue` gives no queue.
  unfoldable pub return_descriptor : Bool → q.Queue → FenceDescriptor → Option q.Queue
  return_descriptor free queue d =
      if free
      then elim (q.add_used queue d.desc_index d.len) [
        | none ↦ none
        | some added ↦ q.signal_used_queue added
      ]
      else some queue

  -- The loop over the descriptors. `free n` is whether the ring is enabled and ready when its
  -- queue is locked for the n-th descriptor, and `none` is a panic.
  unfoldable pub complete :
      (ℕ → Bool)
      → VirtioGpuRing
      → ℕ
      → List FenceDescriptor
      → ℕ
      → q.Queue
      → Option (List FenceDescriptor × q.Queue)
  unfolding return_descriptor
  complete free ring fence_id [] n queue = some ([], queue)
  complete free ring fence_id (d ∷ descs) n queue = elim (is_done ring fence_id d) [
    | true ↦ elim (return_descriptor (free n) queue d) [
      | none ↦ none
      | some queue' ↦ complete free ring fence_id descs (n + 1) queue'
    ]
    | false ↦ elim (complete free ring fence_id descs n queue) [
      | none ↦ none
      | some (kept, queue') ↦ some (d ∷ kept, queue')
    ]
  ]

  unfoldable pub fence_handler :
      (ℕ → Bool) → RutabagaFence → FenceState → q.Queue → Option (FenceState × q.Queue)
  unfolding complete ring_of insert_completed
  fence_handler free fence s queue =
      let ring = ring_of fence.flags fence.ctx_id fence.ring_idx in
      elim (complete free ring fence.fence_id s.descs 0 queue) [
        | none ↦ none
        | some (descs, queue') ↦ some (
          record { descs = descs; completed_fences = insert_completed s ring fence.fence_id },
          queue',
        )
      ]
