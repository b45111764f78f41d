-- ===== src/Tests/Fences.antt =====
-- Two fenced commands of the GPU, and a fence that completes the first.
use virtio_device_poc.Base.{
  ◌+◌, ◌≡◌, refl, true, false, some, List, [], ◌∷◌, ◌++◌, length, if◌then◌else◌,
}
use virtio_device_poc.Gpu.Fences.{
  VirtioGpuRing, global, ring_eq, FenceDescriptor, FenceState, new_fence_state, RutabagaFence,
  ring_of, completed, process_fence, fence_handler,
}
use virtio_device_poc.Gpu.Fences.Waiting.{Splits, All, WaitsFor, WaitsForNot, entries}
use virtio_device_poc.Gpu.Fences.Laws.{fence_handler-returns, fence_handler-loses}
use virtio_device_poc.Gpu.Fences.Reachable.{start, ask, IsWaiting, IsReachable-IsWaiting}
use virtio_device_poc.Tests.Queue.{Ring, ring_queue, ring_queue-QueueLaws}

abbrev one_asked : FenceState
one_asked = (process_fence new_fence_state global 5 3 24).0

abbrev asked : FenceState
asked = (process_fence one_asked global 6 4 24).0

abbrev five : RutabagaFence
five = record { flags = 1; fence_id = 5; ctx_id = 0; ring_idx = 0 }

abbrev empty : Ring
empty = record { chains = []; used = []; notified = 0 }

IsReachable-IsWaiting_example : IsWaiting asked
IsReachable-IsWaiting_example =
    IsReachable-IsWaiting ring_queue {s = asked}
      (ask {s = one_asked} global 6 4 24 (ask {s = new_fence_state} global 5 3 24 start))

both_are_held : length asked.descs ≡ 2
unfolding process_fence completed
both_are_held = refl

fence_handler-returns_example :
    let ring = ring_of five.flags five.ctx_id five.ring_idx in
    (s' : FenceState) × (after : Ring) × (done : List FenceDescriptor) × (fence_handler ring_queue
        (λ n. true)
        five
        asked
        empty
      ≡ some (s', after))
    × (Splits done s'.descs asked.descs)
    × (All (WaitsFor ring 5) done)
    × (All (WaitsForNot ring 5) s'.descs)
    × ((other : VirtioGpuRing)
        → completed s' other ≡ (if ring_eq other ring then 5 else completed asked other))
    × (after.used ≡ empty.used ++ entries done)
    × (after.notified ≡ 0 + length done)
unfolding ring_queue-QueueLaws
fence_handler-returns_example =
    fence_handler-returns ring_queue ring_queue-QueueLaws
      (λ x head len. (record x { used = x.used ++ (head, len) ∷ [] }, refl))
      (λ x. (record x { notified = x.notified + 1 }, refl)) five asked empty

fence_handler-loses_example :
    let ring = ring_of five.flags five.ctx_id five.ring_idx in
    (s' : FenceState) × (after : Ring) × (done : List FenceDescriptor) × (fence_handler ring_queue
        (λ n. false)
        five
        asked
        empty
      ≡ some (s', after))
    × (Splits done s'.descs asked.descs)
    × (All (WaitsFor ring 5) done)
    × (All (WaitsForNot ring 5) s'.descs)
    × (after.used ≡ empty.used)
    × (after.notified ≡ 0)
unfolding ring_queue-QueueLaws
fence_handler-loses_example =
    fence_handler-loses ring_queue ring_queue-QueueLaws
      (λ x head len. (record x { used = x.used ++ (head, len) ∷ [] }, refl))
      (λ x. (record x { notified = x.notified + 1 }, refl)) five asked empty
