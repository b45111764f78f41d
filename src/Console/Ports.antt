-- ===== src/Console/Ports.antt =====
-- What the threads of a port share: the queue of virtio-queue, the guest memory's `try_access`, and
-- how the round of an event loop ends.
-- (device/virtio-console/src/process_rx.rs, device/virtio-console/src/process_tx.rs)
pub mod Input
use virtio_device_poc.Base.{
  ℕ, zero, ◌+◌, ◌≤◌, ◌≡◌, Bool, Option, none, some, List, [], ◌∷◌, ◌++◌, Result, ok, err,
}

-- An error of the guest memory, and the two kinds of an error of reading or writing.
pub data IoError : Type 0 where
  would_block other_error : IoError

pub data GuestMemoryError : Type 0 where
  io_error invalid_guest_address : GuestMemoryError

-- `descriptors` gives those of a chain in the direction of the port. `try_access` calls its
-- function for the pieces of a descriptor in turn, with what is done already and the length of the
-- piece. The error of `add_used` is only logged, so that it gives a queue in any case; `none` of
-- `signal_used_queue` is an error.
pub record PortQueue : Type 1 where
  pub Queue : Type 0
  pub Chain : Type 0
  pub Descriptor : Type 0
  pub descriptors : Chain → List Descriptor
  pub head_index : Chain → ℕ
  pub pop_descriptor_chain : Queue → Option (Chain × Queue)
  pub go_to_previous_position : Queue → Queue
  pub add_used : Queue → ℕ → ℕ → Queue
  pub signal_used_queue : Queue → Option Queue
  pub try_access :
      {S : Type 0}
      → Descriptor
      → (ℕ → ℕ → S → S × Result ℕ GuestMemoryError)
      → S
      → S × Result ℕ GuestMemoryError

-- The chains that wait, the used ring, and the notifications, while the guest adds no chain; and
-- `try_access` as a loop: what each call keeps is kept, and the number that it gives is the sum of
-- those of its calls.
pub record PortQueueLaws (q : PortQueue) : Type 1 where
  pub pending : q.Queue → List q.Chain
  pub used : q.Queue → List (ℕ × ℕ)
  pub notified : q.Queue → ℕ
  pub pop_none : (x : q.Queue) → q.pop_descriptor_chain x ≡ none → pending x ≡ []
  pub pop_some :
      (x y : q.Queue) (c : q.Chain)
      → q.pop_descriptor_chain x ≡ some (c, y)
      → (pending x ≡ c ∷ pending y) × (used y ≡ used x) × (notified y ≡ notified x)
  pub previous_some :
      (x y : q.Queue) (c : q.Chain)
      → q.pop_descriptor_chain x ≡ some (c, y)
      → (pending (q.go_to_previous_position y) ≡ pending x)
        × (used (q.go_to_previous_position y) ≡ used x)
        × (notified (q.go_to_previous_position y) ≡ notified x)
  pub add_used_all :
      (x : q.Queue) (head len : ℕ)
      → (pending (q.add_used x head len) ≡ pending x)
        × (used (q.add_used x head len) ≡ used x ++ (head, len) ∷ [])
        × (notified (q.add_used x head len) ≡ notified x)
  pub signal_all :
      (x : q.Queue)
      → (y : q.Queue) × (q.signal_used_queue x ≡ some y)
        × (pending y ≡ pending x)
        × (used y ≡ used x)
        × (notified y ≡ notified x + 1)
  pub try_access-keeps :
      {S : Type 0} (P : S → Type 0) (f : ℕ → ℕ → S → S × Result ℕ GuestMemoryError)
      → ((n len : ℕ) (s : S) → P s → P (f n len s).0)
      → (d : q.Descriptor) (s : S) → P s
      → P (q.try_access d f s).0
  pub try_access-sums :
      {S : Type 0} (P : S → ℕ → Type 0) (f : ℕ → ℕ → S → S × Result ℕ GuestMemoryError)
      → ((n len k : ℕ) (s : S) → P s n → (f n len s).1 ≡ ok k → P (f n len s).0 (n + k))
      → (d : q.Descriptor) (s : S) (n : ℕ) → P s 0
      → (q.try_access d f s).1 ≡ ok n
      → P (q.try_access d f s).0 n

-- A round of an event loop: it goes on, the thread ends, or the thread panics.
pub data PortRound (S : Type 0) : Type 0 where
  continues ends : S → PortRound S
  panicked out_of_fuel : PortRound S
