-- ===== src/Gpu/Queue.antt =====
-- The queue of virtio-queue and the DeviceQueue around it, as far as the GPU uses them.
-- (device/virtio-gpu/src/worker.rs, device/virtio-gpu/src/virtio_gpu.rs)
use virtio_device_poc.Base.{ℕ, Bool, false, Option, List, ◌≡◌, ◌+◌, none, some, [], ◌∷◌, ◌++◌}

-- `none` is an error.
pub record QueueApi : Type 1 where
  pub Queue : Type 0
  pub Chain : Type 0
  pub pop_descriptor_chain : Queue → Option (Chain × Queue)
  pub head_index : Chain → ℕ
  pub add_used : Queue → ℕ → ℕ → Option Queue
  pub event_idx_enabled : Queue → Bool
  pub disable_notification : Queue → Option Queue
  pub enable_notification : Queue → Option (Queue × Bool)
  pub signal_used_queue : Queue → Option Queue

-- What the used ring holds, the heads of the chains that wait, and how often the guest was
-- notified, while the guest adds no chain.
pub record QueueLaws (q : QueueApi) : Type 0 where
  pub used : q.Queue → List (ℕ × ℕ)
  pub waiting : q.Queue → List ℕ
  pub notified : q.Queue → ℕ
  pub add_used_some :
      (x y : q.Queue) (head len : ℕ)
      → q.add_used x head len ≡ some y
      → (used y ≡ used x ++ (head, len) ∷ []) × (waiting y ≡ waiting x) × (notified y ≡ notified x)
  pub signal_some :
      (x y : q.Queue)
      → q.signal_used_queue x ≡ some y
      → (used y ≡ used x) × (waiting y ≡ waiting x) × (notified y ≡ notified x + 1)
  pub pop_some :
      (x y : q.Queue) (c : q.Chain)
      → q.pop_descriptor_chain x ≡ some (c, y)
      → (used y ≡ used x) × (waiting x ≡ q.head_index c ∷ waiting y) × (notified y ≡ notified x)
  pub pop_none : (x : q.Queue) → q.pop_descriptor_chain x ≡ none → waiting x ≡ []
  pub disable_some :
      (x y : q.Queue)
      → q.disable_notification x ≡ some y
      → (used y ≡ used x) × (waiting y ≡ waiting x) × (notified y ≡ notified x)
  pub enable_some :
      (x y : q.Queue) (more : Bool)
      → q.enable_notification x ≡ some (y, more)
      → (used y ≡ used x)
        × (waiting y ≡ waiting x)
        × (notified y ≡ notified x)
        × (waiting x ≡ [] → more ≡ false)
