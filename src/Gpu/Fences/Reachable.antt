-- ===== src/Gpu/Fences/Reachable.antt =====
-- No descriptor waits for a fence that has completed.
use virtio_device_poc.Base.{
  ℕ, ◌<◌, ◌≡◌, sym, Bool, Option, none, some, List, [], ◌∷◌, ◌++◌, if◌then◌else◌, ltb, arith,
  by_option, by_bool, subst, ◌+◌, Bool-cases, inl, inr,
}
use virtio_device_poc.Gpu.Queue.{QueueApi}
use virtio_device_poc.Gpu.Fences.{
  VirtioGpuRing, ring_eq, FenceDescriptor, FenceState, new_fence_state, RutabagaFence, ring_of,
  completed, process_fence, is_done, insert_completed, return_descriptor, complete, fence_handler,
}
use virtio_device_poc.Gpu.Fences.Waiting.{All, WaitsForNot, is_done-false, ring_eq_iff}

abbrev pub IsWaiting : FenceState → Type 0
IsWaiting s = All (λ d. completed s d.ring < d.fence_id) s.descs

All-imp :
    {P Q : FenceDescriptor → Type 0} (ds : List FenceDescriptor)
    → ((d : FenceDescriptor) → P d → Q d)
    → All P ds
    → All Q ds
All-imp [] f all = tt
All-imp (d ∷ ds) f all = (f d all.0, All-imp ds f all.1)

All-snoc :
    (P : FenceDescriptor → Type 0) (ds : List FenceDescriptor) (d : FenceDescriptor)
    → All P ds
    → P d
    → All P (ds ++ d ∷ [])
All-snoc P [] d all p = (p, tt)
All-snoc P (e ∷ ds) d all p = (all.0, All-snoc P ds d all.1 p)

process_fence-IsWaiting :
    (s : FenceState) (ring : VirtioGpuRing) (fence_id desc_index len : ℕ)
    → IsWaiting s
    → IsWaiting (process_fence s ring fence_id desc_index len).0
unfolding process_fence completed
process_fence-IsWaiting s ring fence_id desc_index len all =
    elim (Bool-cases (ltb (completed s ring) fence_id)) [
      | inl later ↦
          rw (later, process_fence)
            (All-snoc (λ d. completed s d.ring < d.fence_id) s.descs _ all (ground arith))
      | inr past ↦ rw (past, process_fence) all
    ]

insert_completed-waits :
    (s : FenceState) (ring : VirtioGpuRing) (fence_id : ℕ) (kept : List FenceDescriptor)
    (d : FenceDescriptor)
    → (completed s d.ring < d.fence_id) × WaitsForNot ring fence_id d
    → completed
        (record { descs = kept; completed_fences = insert_completed s ring fence_id })
        d.ring
      < d.fence_id
unfolding completed insert_completed
insert_completed-waits s ring fence_id kept d (before, other) =
    let e : completed (record { descs = kept; completed_fences = insert_completed s ring fence_id })
          d.ring
        ≡ (if ring_eq d.ring ring then fence_id else completed s d.ring) =
      ground arith in
    subst (λ last. last < d.fence_id) (sym e)
      (by_bool (λ last. last < d.fence_id) (ring_eq d.ring ring) fence_id (completed s d.ring)
        (λ same. other ((ring_eq_iff d.ring ring).0 same)) (λ elsewhere. before))

module _ (q : QueueApi) where
  -- The worker asks to wait for a fence, or rutabaga completes one, whatever it finds of the queue.
  pub data IsReachable : FenceState → Type 0 where
    start : IsReachable new_fence_state
    ask :
        {s : FenceState} (ring : VirtioGpuRing) (fence_id desc_index len : ℕ)
        → IsReachable s
        → IsReachable (process_fence s ring fence_id desc_index len).0
    signal :
        {s s' : FenceState} (free : ℕ → Bool) (fence : RutabagaFence) (queue queue' : q.Queue)
        → fence_handler q free fence s queue ≡ some (s', queue')
        → IsReachable s
        → IsReachable s'

  module _ (P : FenceDescriptor → Type 0) (free : ℕ → Bool) (ring : VirtioGpuRing)
      (fence_id : ℕ) where
    abbrev Keeps : Option (List FenceDescriptor × q.Queue) → Type 0
    Keeps none = Unit
    Keeps (some (kept, queue)) = All (λ d. P d × WaitsForNot ring fence_id d) kept

    Keeps-cons :
        (d : FenceDescriptor) (r : Option (List FenceDescriptor × q.Queue))
        → P d × WaitsForNot ring fence_id d
        → Keeps r
        → Keeps (elim r [ none ↦ none | some (kept, queue) ↦ some (d ∷ kept, queue) ])
    Keeps-cons d none h k = tt
    Keeps-cons d (some (kept, queue)) h k = (h, k)

    complete-Keeps :
        (descs : List FenceDescriptor) (n : ℕ) (queue : q.Queue)
        → All P descs
        → Keeps (complete q free ring fence_id descs n queue)
    unfolding complete
    complete-Keeps [] n queue all = tt
    complete-Keeps (d ∷ descs) n queue all = elim (Bool-cases (is_done ring fence_id d)) [
      | inl done ↦
          rw (done, complete)
            (by_option Keeps (return_descriptor q (free n) queue d) none
              (λ queue'. complete q free ring fence_id descs (n + 1) queue') (λ e. tt)
              (λ queue' e. complete-Keeps descs (n + 1) queue' all.1))
      | inr waits ↦
          rw (waits, complete)
            (Keeps-cons d (complete q free ring fence_id descs n queue)
              (all.0, is_done-false ring fence_id d waits) (complete-Keeps descs n queue all.1))
    ]

  abbrev Ends : Option (FenceState × q.Queue) → Type 0
  Ends none = Unit
  Ends (some (s, queue)) = IsWaiting s

  Keeps-Ends :
      (s : FenceState) (free : ℕ → Bool) (ring : VirtioGpuRing) (fence_id : ℕ)
      (r : Option (List FenceDescriptor × q.Queue))
      → Keeps (λ d. completed s d.ring < d.fence_id) free ring fence_id r
      → Ends (elim r [
        | none ↦ none
        | some (descs, queue) ↦
            some
              (record { descs = descs; completed_fences = insert_completed s ring fence_id }, queue)
      ])
  Keeps-Ends s free ring fence_id none k = tt
  Keeps-Ends s free ring fence_id (some (kept, queue)) k =
      All-imp kept (insert_completed-waits s ring fence_id kept) k

  fence_handler-Ends :
      (free : ℕ → Bool) (fence : RutabagaFence) (s : FenceState) (queue : q.Queue)
      → IsWaiting s
      → Ends (fence_handler q free fence s queue)
  unfolding fence_handler
  fence_handler-Ends free fence s queue all =
      let ring = ring_of fence.flags fence.ctx_id fence.ring_idx in
      Keeps-Ends s free ring fence.fence_id _ (
        complete-Keeps (λ d. completed s d.ring < d.fence_id) free ring fence.fence_id s.descs 0
          queue all)

  -- In every state that is reached by commands with fences and by completed fences, in any order
  -- and whatever the queue does, a descriptor that is held waits for a fence that is later than
  -- the completed one of its ring.
  pub IsReachable-IsWaiting : {s : FenceState} → IsReachable s → IsWaiting s
  IsReachable-IsWaiting start = tt
  IsReachable-IsWaiting (ask {s} ring fence_id desc_index len r) =
      process_fence-IsWaiting s ring fence_id desc_index len (IsReachable-IsWaiting r)
  IsReachable-IsWaiting (signal {s} {s'} free fence queue queue' e r) =
      subst Ends e (fence_handler-Ends free fence s queue (IsReachable-IsWaiting r))
