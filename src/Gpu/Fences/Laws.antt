-- ===== src/Gpu/Fences/Laws.antt =====
-- A completed fence returns the descriptors that wait for it, in their order, to the queue.
use virtio_device_poc.Base.{
  ℕ, ◌+◌, ◌≡◌, refl, sym, ap, ◌∙◌, Bool, true, false, Option, some, List, [], ◌∷◌, ◌++◌,
  if◌then◌else◌, length, length-append, arith, Bool-cases, inl, inr,
}
use mathlib.Core.List.{append_assoc, append-nil, map-append}
use virtio_device_poc.Gpu.Queue.{QueueApi, QueueLaws}
use virtio_device_poc.Gpu.Fences.{
  VirtioGpuRing, ring_eq, FenceDescriptor, FenceState, RutabagaFence, ring_of, completed, is_done,
  insert_completed, return_descriptor, complete, fence_handler,
}
use virtio_device_poc.Gpu.Fences.Waiting.{
  Splits, end, left, right, All, WaitsFor, WaitsForNot, is_done-true, is_done-false, taken, entries,
  taken-cons, taken-all, taken-never,
}

module _ (q : QueueApi) (laws : QueueLaws q)
    (room : (x : q.Queue) (head len : ℕ) → (y : q.Queue) × (q.add_used x head len ≡ some y))
    (heard : (x : q.Queue) → (y : q.Queue) × (q.signal_used_queue x ≡ some y)) where
  -- What the loop leaves.
  record IsCompleted (free : ℕ → Bool) (ring : VirtioGpuRing) (fence_id : ℕ)
      (descs : List FenceDescriptor) (n : ℕ) (queue : q.Queue)
      (r : Option (List FenceDescriptor × q.Queue)) : Type 0 where
    done : List FenceDescriptor
    kept : List FenceDescriptor
    after : q.Queue
    returns : r ≡ some (kept, after)
    splits : Splits done kept descs
    done_all : All (WaitsFor ring fence_id) done
    kept_all : All (WaitsForNot ring fence_id) kept
    used : laws.used after ≡ laws.used queue ++ entries (taken free n done)
    notified : laws.notified after ≡ laws.notified queue + length (taken free n done)

  add_done :
      (free : ℕ → Bool) (ring : VirtioGpuRing) (fence_id : ℕ) (d : FenceDescriptor)
      (descs : List FenceDescriptor) (n : ℕ) (queue queue' : q.Queue)
      → return_descriptor q (free n) queue d ≡ some queue'
      → is_done ring fence_id d ≡ true
      → (laws.used queue' ≡ laws.used queue ++ entries (taken free n (d ∷ [])))
        × (laws.notified queue' ≡ laws.notified queue + length (taken free n (d ∷ [])))
      → IsCompleted free ring fence_id descs
          (n + 1)
          queue'
          (complete q free ring fence_id descs (n + 1) queue')
      → IsCompleted free ring fence_id
          (d ∷ descs)
          n
          queue
          (complete q free ring fence_id (d ∷ descs) n queue)
  unfolding complete
  add_done free ring fence_id d descs n queue queue' e yes_done (used, heard') c = record {
    done = d ∷ c.done;
    kept = c.kept;
    after = c.after;
    returns = rw (yes_done, complete) (rw e c.returns);
    splits = left c.splits;
    done_all = (is_done-true ring fence_id d yes_done, c.done_all);
    kept_all = c.kept_all;
    used =
        c.used
        ∙ ap (λ l. l ++ entries (taken free (n + 1) c.done)) used
        ∙ append_assoc (laws.used queue) (entries (taken free n (d ∷ [])))
            (entries (taken free (n + 1) c.done))
        ∙ ap (λ l. laws.used queue ++ l)
            (sym (map-append _ (taken free n (d ∷ [])) (taken free (n + 1) c.done))
              ∙ ap entries (sym (taken-cons free n d c.done)));
    notified =
        let parts = ap length (taken-cons free n d c.done) in
        let both = length-append (taken free n (d ∷ [])) (taken free (n + 1) c.done) in
        let rest = c.notified in omega arith;
  }

  add_kept :
      (free : ℕ → Bool) (ring : VirtioGpuRing) (fence_id : ℕ) (d : FenceDescriptor)
      (descs : List FenceDescriptor) (n : ℕ) (queue : q.Queue)
      → is_done ring fence_id d ≡ false
      → IsCompleted free ring fence_id descs n queue (complete q free ring fence_id descs n queue)
      → IsCompleted free ring fence_id
          (d ∷ descs)
          n
          queue
          (complete q free ring fence_id (d ∷ descs) n queue)
  unfolding complete
  add_kept free ring fence_id d descs n queue waits c = record {
    done = c.done;
    kept = d ∷ c.kept;
    after = c.after;
    returns = rw (waits, complete) (rw c.returns refl);
    splits = right c.splits;
    done_all = c.done_all;
    kept_all = (is_done-false ring fence_id d waits, c.kept_all);
    used = c.used;
    notified = c.notified;
  }

  returned :
      (free : ℕ → Bool) (n : ℕ) (d : FenceDescriptor) (queue : q.Queue)
      → (queue' : q.Queue) × (return_descriptor q (free n) queue d ≡ some queue')
        × (laws.used queue' ≡ laws.used queue ++ entries (taken free n (d ∷ [])))
        × (laws.notified queue' ≡ laws.notified queue + length (taken free n (d ∷ [])))
  unfolding return_descriptor
  returned free n d queue = elim (Bool-cases (free n)) [
    | inl can ↦
        let (added, e) = room queue d.desc_index d.len in
        let (signalled, e') = heard added in
        let (u, p, c) = laws.add_used_some queue added d.desc_index d.len e in
        let (u', p', c') = laws.signal_some added signalled e' in
        (signalled, rw (can, return_descriptor) (rw e e'), rw can (u' ∙ u), rw can (omega arith))
    | inr cannot ↦ (
      queue,
      rw (cannot, return_descriptor) refl,
      rw cannot (sym (append-nil (laws.used queue))),
      rw cannot (omega arith),
    )
  ]

  complete-IsCompleted :
      (free : ℕ → Bool) (ring : VirtioGpuRing) (fence_id : ℕ) (descs : List FenceDescriptor) (n : ℕ)
      (queue : q.Queue)
      → IsCompleted free ring fence_id descs n queue (complete q free ring fence_id descs n queue)
  unfolding complete
  complete-IsCompleted free ring fence_id [] n queue = record {
    done = [];
    kept = [];
    after = queue;
    returns = refl;
    splits = end;
    done_all = tt;
    kept_all = tt;
    used = sym (append-nil (laws.used queue));
    notified = omega arith;
  }
  complete-IsCompleted free ring fence_id (d ∷ descs) n queue =
      elim (Bool-cases (is_done ring fence_id d)) [
        | inl yes_done ↦
            let (queue', e, u, k) = returned free n d queue in
            add_done free ring fence_id d descs n queue queue' e yes_done (u, k)
              (complete-IsCompleted free ring fence_id descs (n + 1) queue')
        | inr waits ↦
            add_kept free ring fence_id d descs n queue waits
              (complete-IsCompleted free ring fence_id descs n queue)
      ]

  -- The effect of a completed fence, if the ring is enabled and ready, or if it is not.
  abbrev Handled : Bool → RutabagaFence → FenceState → q.Queue → Type 0
  Handled free fence s queue =
      let ring = ring_of fence.flags fence.ctx_id fence.ring_idx in
      (s' : FenceState) × (after : q.Queue) × (done : List FenceDescriptor) × (fence_handler q
          (λ n. free) fence s queue
        ≡ some (s', after))
      × (Splits done s'.descs s.descs)
      × (All (WaitsFor ring fence.fence_id) done)
      × (All (WaitsForNot ring fence.fence_id) s'.descs)
      × ((other : VirtioGpuRing)
          → completed s' other ≡ (if ring_eq other ring then fence.fence_id else completed s other))
      × (laws.used after ≡ laws.used queue ++ entries (taken (λ n. free) 0 done))
      × (laws.notified after ≡ laws.notified queue + length (taken (λ n. free) 0 done))

  handled :
      (free : Bool) (fence : RutabagaFence) (s : FenceState) (queue : q.Queue)
      → Handled free fence s queue
  unfolding fence_handler
  handled free fence s queue =
      let ring = ring_of fence.flags fence.ctx_id fence.ring_idx in
      let c = complete-IsCompleted (λ n. free) ring fence.fence_id s.descs 0 queue in
      (
        record { descs = c.kept; completed_fences = insert_completed s ring fence.fence_id },
        c.after,
        c.done,
        rw (c.returns, fence_handler) refl,
        c.splits,
        c.done_all,
        c.kept_all,
        λ other. unfold completed insert_completed in ground arith,
        c.used,
        c.notified,
      )

  module _ (fence : RutabagaFence) (s : FenceState) (queue : q.Queue) where
    -- Where the handler of a completed fence finds the ring enabled and ready each time, and the
    -- queue takes every entry, the handler ends without a panic: the descriptors that wait for a
    -- fence of its ring up to its id are returned to the used ring, in their order and with their
    -- lengths, the guest is notified of each, the others are kept in their order, and the fence is
    -- the completed one of its ring alone.
    pub fence_handler-returns :
        let ring = ring_of fence.flags fence.ctx_id fence.ring_idx in
        (s' : FenceState) × (after : q.Queue) × (done : List FenceDescriptor) × (fence_handler q
            (λ n. true)
            fence
            s
            queue
          ≡ some (s', after))
        × (Splits done s'.descs s.descs)
        × (All (WaitsFor ring fence.fence_id) done)
        × (All (WaitsForNot ring fence.fence_id) s'.descs)
        × ((other : VirtioGpuRing)
            → completed s' other
              ≡ (if ring_eq other ring then fence.fence_id else completed s other))
        × (laws.used after ≡ laws.used queue ++ entries done)
        × (laws.notified after ≡ laws.notified queue + length done)
    fence_handler-returns =
        let (s', after, done, e, splits, waits, others, last, used, notified) =
          handled true fence s queue in
        let all = taken-all 0 done in
        (
          s',
          after,
          done,
          e,
          splits,
          waits,
          others,
          last,
          used ∙ ap (λ l. laws.used queue ++ entries l) all,
          notified ∙ ap (λ l. laws.notified queue + length l) all,
        )

    -- Where the ring is disabled or not ready each time, the handler ends without a panic and drops
    -- the descriptors that wait for the fence: they are held no longer, and nothing is returned or
    -- notified.
    pub fence_handler-loses :
        let ring = ring_of fence.flags fence.ctx_id fence.ring_idx in
        (s' : FenceState) × (after : q.Queue) × (done : List FenceDescriptor) × (fence_handler q
            (λ n. false)
            fence
            s
            queue
          ≡ some (s', after))
        × (Splits done s'.descs s.descs)
        × (All (WaitsFor ring fence.fence_id) done)
        × (All (WaitsForNot ring fence.fence_id) s'.descs)
        × (laws.used after ≡ laws.used queue)
        × (laws.notified after ≡ laws.notified queue)
    fence_handler-loses =
        let (s', after, done, e, splits, waits, others, last, used, notified) =
          handled false fence s queue in
        let lost = taken-never 0 done in
        (
          s',
          after,
          done,
          e,
          splits,
          waits,
          others,
          used ∙ ap (λ l. laws.used queue ++ entries l) lost ∙ append-nil (laws.used queue),
          notified ∙ ap (λ l. laws.notified queue + length l) lost ∙ omega arith,
        )
