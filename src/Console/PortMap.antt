-- ===== src/Console/PortMap.antt =====
-- The numbering of the queues by port and direction.
-- (device/virtio-console/src/port_queue_mapping.rs)
use virtio_device_poc.Base.{
  ℕ, ◌+◌, ◌-◌, ◌*◌, ◌/◌, ◌%◌, ◌<◌, ◌≡◌, ◌↔◌, ◌⊎◌, inl, inr, Option, none, some, ◌==◌, ◌||◌,
  if◌then◌else◌, arith, Option-cases,
}

pub data QueueDirection : Type 0 where
  rx tx : QueueDirection

unfoldable pub port_id_to_queue_idx : QueueDirection → ℕ → ℕ
port_id_to_queue_idx rx port_id = if port_id == 0 then 0 else 2 + 2 * port_id
port_id_to_queue_idx tx port_id = if port_id == 0 then 1 else 2 + 2 * port_id + 1

-- The port; `none` is the panic on a control queue.
unfoldable pub queue_port : ℕ → Option ℕ
queue_port queue_index =
    if queue_index == 0 || queue_index == 1
    then some 0
    else if queue_index == 2 || queue_index == 3
    then none
    else some (queue_index / 2 - 1)

unfoldable pub queue_idx_to_port_id : ℕ → Option (QueueDirection × ℕ)
unfolding queue_port
queue_idx_to_port_id queue_index = elim (queue_port queue_index) [
  | none ↦ none
  | some port_id ↦ some ((if queue_index % 2 == 0 then rx else tx), port_id)
]

unfoldable pub num_queues : ℕ → ℕ
num_queues num_ports = 2 + 2 * num_ports

-- The two numberings are inverse to each other: a queue index names a port and a direction exactly
-- if it is the index of that port's queue in that direction.
pub queue_idx_to_port_id_iff :
    (i : ℕ) (direction : QueueDirection) (port_id : ℕ)
    → (queue_idx_to_port_id i ≡ some (direction, port_id))
      ↔ (port_id_to_queue_idx direction port_id ≡ i)
unfolding queue_idx_to_port_id queue_port port_id_to_queue_idx
queue_idx_to_port_id_iff i rx port_id = (λ e. ground arith, λ e. ground arith)
queue_idx_to_port_id_iff i tx port_id = (λ e. ground arith, λ e. ground arith)

no_port : (i : ℕ) → queue_idx_to_port_id i ≡ none → (i ≡ 2) ⊎ (i ≡ 3)
unfolding queue_idx_to_port_id queue_port
no_port i e = ground arith

-- The queues of a device with at least one port are the two control queues and, for each port, one
-- queue per direction: each index below num_queues is of one kind or the other, and each port's
-- queues have indices below num_queues.
pub num_queues-covers :
    (num_ports i : ℕ)
    → 0 < num_ports
    → (i < num_queues num_ports) ↔ (
        (i ≡ 2)
        ⊎ ((i ≡ 3)
            ⊎ ((direction : QueueDirection) × (port_id : ℕ) × (port_id < num_ports)
                × (port_id_to_queue_idx direction port_id ≡ i))))
unfolding num_queues port_id_to_queue_idx
num_queues-covers num_ports i some_port = (
  λ small. elim (kind i) [
    | inl two ↦ inl two
    | inr (inl three) ↦ inr (inl three)
    | inr (inr (direction, port_id, e)) ↦
        inr (inr (direction, port_id, below direction port_id i e small, e))
  ],
  λ k. elim k [
    | inl two ↦ omega arith
    | inr (inl three) ↦ omega arith
    | inr (inr (direction, port_id, l, e)) ↦ within direction port_id i e l
  ],
)
  where
    kind :
        (i : ℕ)
        → (i ≡ 2)
          ⊎ ((i ≡ 3)
              ⊎ ((direction : QueueDirection) × (port_id : ℕ) × (port_id_to_queue_idx direction
                      port_id
                    ≡ i)))
    kind i = elim (Option-cases (queue_idx_to_port_id i)) [
      | inl e ↦ elim (no_port i e) [ inl two ↦ inl two | inr three ↦ inr (inl three) ]
      | inr ((direction, port_id), e) ↦
          inr (inr (direction, port_id, (queue_idx_to_port_id_iff i direction port_id).0 e))
    ]

    below :
        (direction : QueueDirection) (port_id i : ℕ)
        → port_id_to_queue_idx direction port_id ≡ i
        → i < 2 + 2 * num_ports
        → port_id < num_ports
    below rx port_id i e l = ground arith
    below tx port_id i e l = ground arith

    within :
        (direction : QueueDirection) (port_id i : ℕ)
        → port_id_to_queue_idx direction port_id ≡ i
        → port_id < num_ports
        → i < 2 + 2 * num_ports
    within rx port_id i e l = ground arith
    within tx port_id i e l = ground arith
