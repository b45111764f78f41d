-- ===== src/Console/Control.antt =====
-- The control queues: the messages that wait for the guest, and the worker that delivers them and
-- answers the guest's. (device/virtio-console/src/console_control.rs)
pub mod Delivery
pub mod Commands
pub mod Answers
use virtio_device_poc.Base.{
  ◌≡◌, ℕ, zero, suc, ◌+◌, Bool, true, false, not, Option, none, some, List, [], ◌∷◌, ◌++◌, Result,
  ok, err, ◌==◌, ltb, if◌then◌else◌, length, get_elem?, is_empty,
}
use virtio_device_poc.Console.Message.{
  VirtioConsoleControl, VirtioConsoleResize, Payload, console_control, raw_bytes, payload_bytes,
  control_bytes, resize_bytes, read_control,
}
use virtio_device_poc.Console.Port.{Port}

abbrev pub virtio_console_device_ready : ℕ
virtio_console_device_ready = 0

abbrev pub virtio_console_port_add : ℕ
virtio_console_port_add = 1

abbrev pub virtio_console_port_ready : ℕ
virtio_console_port_ready = 3

abbrev pub virtio_console_console_port : ℕ
virtio_console_console_port = 4

abbrev pub virtio_console_resize : ℕ
virtio_console_resize = 5

abbrev pub virtio_console_port_open : ℕ
virtio_console_port_open = 6

abbrev pub virtio_console_port_name : ℕ
virtio_console_port_name = 7

-- `ConsoleControl`, first message first, with the counter of `queue_evt`.
pub record ConsoleControl : Type 0 where
  pub queue : List Payload
  pub queue_evt : ℕ

abbrev pub new_control : ConsoleControl
new_control = record { queue = []; queue_evt = 0 }

unfoldable pub push_msg : ConsoleControl → VirtioConsoleControl → ConsoleControl
push_msg c msg = record { queue = c.queue ++ console_control msg ∷ []; queue_evt = c.queue_evt + 1 }

unfoldable pub push_vec : ConsoleControl → List ℕ → ConsoleControl
push_vec c buf = record { queue = c.queue ++ raw_bytes buf ∷ []; queue_evt = c.queue_evt + 1 }

-- `none` leaves the queue empty as it was.
unfoldable pub queue_pop : ConsoleControl → Option (Payload × ConsoleControl)
queue_pop c = elim c.queue [ [] ↦ none | x ∷ xs ↦ some (x, record c { queue = xs }) ]

unfoldable pub mark_console_port : ConsoleControl → ℕ → ConsoleControl
unfolding push_msg
mark_console_port c port_id =
    push_msg c (record { id = port_id; event = virtio_console_console_port; value = 1 })

unfoldable pub console_resize : ConsoleControl → ℕ → VirtioConsoleResize → ConsoleControl
unfolding push_vec
console_resize c port_id new_size = push_vec c (
    control_bytes (record { id = port_id; event = virtio_console_resize; value = 0 })
    ++ resize_bytes new_size)

unfoldable pub port_add : ConsoleControl → ℕ → ConsoleControl
unfolding push_msg
port_add c port_id =
    push_msg c (record { id = port_id; event = virtio_console_port_add; value = 0 })

unfoldable pub port_open : ConsoleControl → ℕ → Bool → ConsoleControl
unfolding push_msg
port_open c port_id open_port =
    push_msg c (record {
      id = port_id;
      event = virtio_console_port_open;
      value = if open_port then 1 else 0;
    })

unfoldable pub port_name : ConsoleControl → ℕ → List ℕ → ConsoleControl
unfolding push_vec
port_name c port_id name =
    push_vec c
      (control_bytes (record { id = port_id; event = virtio_console_port_name; value = 1 }) ++ name)

-- `0..self.ports.len()`, from `port_id` on.
unfoldable pub add_ports : ConsoleControl → ℕ → List Port → ConsoleControl
add_ports c port_id [] = c
add_ports c port_id (p ∷ ports) = add_ports (port_add c port_id) (port_id + 1) ports

abbrev pub get_win_size : ℕ × ℕ
get_win_size = (80, 24)

unfoldable pub port_is_ready : Port → ConsoleControl → ℕ → ConsoleControl
port_is_ready port c id =
    let opened =
      if port.represents_console
      then console_resize (port_open (mark_console_port c id) id true) id
          (record { rows = get_win_size.1; cols = get_win_size.0 })
      else port_open c id true in
    if is_empty port.name then opened else port_name opened id port.name

-- The reaction to one command of the guest; `none` is the panic of a port that does not exist.
unfoldable pub handle_command :
    List Port → ConsoleControl → VirtioConsoleControl → Option ConsoleControl
unfolding add_ports port_is_ready
handle_command ports c cmd =
    if cmd.event == virtio_console_device_ready
    then some (add_ports c 0 ports)
    else if cmd.event == virtio_console_port_ready
    then (if not (cmd.value == 1) then some c else elim (get_elem? ports cmd.id) [
      | none ↦ none
      | some port ↦ some (port_is_ready port c cmd.id)
    ])
    else some c

-- What the worker calls in virtio-queue and vm-memory: a queue of descriptor chains, of which it
-- takes and puts back the first one; the Reader and the Writer of a chain.
pub record ControlQueue : Type 1 where
  pub Queue : Type 0
  pub Chain : Type 0
  pub Mem : Type 0
  pub pop_descriptor_chain : Queue → Option (Chain × Queue)
  pub go_to_previous_position : Queue → Queue
  pub head_index : Chain → ℕ
  pub add_used : Queue → ℕ → ℕ → Result Queue ℕ
  pub write : Mem → Chain → List ℕ → Mem × Result ℕ ℕ
  pub read : Mem → Chain → List ℕ

module _ (q : ControlQueue) where
  pub record RxState : Type 0 where
    pub mem : q.Mem
    pub queue : q.Queue
    pub control : ConsoleControl
    pub raise_irq : Bool

  -- One popped chain of `process_rx`, with a message for it.
  unfoldable pub deliver : RxState → q.Chain → q.Queue → Payload → ConsoleControl → RxState
  deliver s head queue buf control =
      let (mem, r) = q.write s.mem head (payload_bytes buf) in
      let popped : RxState = record {
        mem = mem;
        queue = queue;
        control = control;
        raise_irq = s.raise_irq;
      } in
      elim r [
        | err e ↦ popped
        | ok n ↦
            if not (n == length (payload_bytes buf))
            then popped
            else elim (q.add_used queue (q.head_index head) n) [
              | ok used ↦ record popped { queue = used; raise_irq = true }
              | err e ↦ record popped { raise_irq = true }
            ]
      ]

  -- The loop of `process_rx`; `none` if the fuel runs out.
  unfoldable pub rx_loop : ℕ → RxState → Option RxState
  unfolding deliver queue_pop
  rx_loop zero s = none
  rx_loop (suc fuel) s = elim (q.pop_descriptor_chain s.queue) [
    | none ↦ some s
    | some (head, queue) ↦ elim (queue_pop s.control) [
      | none ↦ some (record s { queue = q.go_to_previous_position queue })
      | some (buf, control) ↦ rx_loop fuel (deliver s head queue buf control)
    ]
  ]

  pub record TxState : Type 0 where
    pub queue : q.Queue
    pub control : ConsoleControl
    pub raise_irq : Bool

  -- `let head_index = 0`: every command is returned under the index 0.
  unfoldable pub return_command : q.Queue → q.Queue
  return_command queue = elim (q.add_used queue 0 8) [ ok used ↦ used | err e ↦ queue ]

  -- The loop of `process_tx`; the outer `none` if the fuel runs out, the inner one a panic.
  unfoldable pub tx_loop : ℕ → List Port → q.Mem → TxState → Option (Option TxState)
  unfolding return_command handle_command
  tx_loop zero ports mem s = none
  tx_loop (suc fuel) ports mem s = elim (q.pop_descriptor_chain s.queue) [
    | none ↦ some (some s)
    | some (head, queue) ↦ elim (read_control (q.read mem head)) [
      | none ↦ tx_loop fuel ports mem (record s { queue = queue; raise_irq = true })
      | some cmd ↦ elim (handle_command ports s.control cmd) [
        | none ↦ some none
        | some control ↦
            tx_loop fuel ports mem
              (record { queue = return_command queue; control = control; raise_irq = true })
      ]
    ]
  ]

  -- `process_rx`: what the kick and the lock of the queue gave.
  unfoldable pub process_rx : ℕ → Bool → Option q.Queue → RxState → Option RxState
  unfolding rx_loop
  process_rx fuel kicked locked s = if not kicked then some s else elim locked [
    | none ↦ some (record s { control = record s.control { queue_evt = 0 } })
    | some queue ↦
        rx_loop fuel (record s { queue = queue; control = record s.control { queue_evt = 0 } })
  ]

-- What is documented of the queue: a popped chain is no longer pending until it is put back, and
-- add_used puts one entry into the used ring.
pub record ControlQueueLaws (q : ControlQueue) : Type 0 where
  pub pending : q.Queue → ℕ
  pub used : q.Queue → List (ℕ × ℕ)
  pub pop_none : (x : q.Queue) → q.pop_descriptor_chain x ≡ none → pending x ≡ 0
  pub pop_some :
      (x y : q.Queue) (head : q.Chain)
      → q.pop_descriptor_chain x ≡ some (head, y)
      → (pending x ≡ suc (pending y)) × (used y ≡ used x)
  pub put_back :
      (x y : q.Queue) (head : q.Chain)
      → q.pop_descriptor_chain x ≡ some (head, y)
      → (pending (q.go_to_previous_position y) ≡ suc (pending y))
        × (used (q.go_to_previous_position y) ≡ used y)
  pub add_one :
      (x y : q.Queue) (head n : ℕ)
      → q.add_used x head n ≡ ok y
      → (pending y ≡ pending x) × (used y ≡ used x ++ (head, n) ∷ [])
  -- The chains that wait, in order.
  pub waiting : q.Queue → List q.Chain
  pub pending_waiting : (x : q.Queue) → pending x ≡ length (waiting x)
  pub pop_waiting :
      (x y : q.Queue) (head : q.Chain)
      → q.pop_descriptor_chain x ≡ some (head, y)
      → waiting x ≡ head ∷ waiting y
  pub add_waiting :
      (x y : q.Queue) (head n : ℕ) → q.add_used x head n ≡ ok y → waiting y ≡ waiting x
