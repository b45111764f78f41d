-- ===== src/Console/Ports/Input.antt =====
-- The thread that reads a port's input into the guest's buffers.
-- (device/virtio-console/src/process_rx.rs)
pub mod Filled
pub mod Counting
pub mod Received
pub mod Ended
use virtio_device_poc.Base.{
  ℕ, zero, suc, ◌+◌, ◌%◌, ◌^◌, Bool, true, false, ◌||◌, Option, none, some, List, [], ◌∷◌, Result,
  ok, err, ◌==◌, if◌then◌else◌,
}
use virtio_device_poc.Console.Control.{ConsoleControl, port_open}
use virtio_device_poc.Console.Ports.{
  IoError, would_block, other_error, GuestMemoryError, io_error, PortQueue, PortRound, continues,
  ends, panicked, out_of_fuel,
}

-- `PortInput`, and the bytes that were read from it so far, which the source does not keep.
pub record PortInput : Type 1 where
  pub Input : Type 0
  pub read_volatile : Input → ℕ → Input × Result ℕ IoError

-- The names of WorkerToken.
pub data WorkerToken : Type 0 where
  process_queue io stop : WorkerToken

module _ (q : PortQueue) (i : PortInput) where
  -- What a chain is read with: the input, and whether it has ended.
  abbrev pub Reading : Type 0
  Reading = i.Input × Bool

  -- The function that `read_to_desc` gives to `try_access`.
  unfoldable pub read_piece : ℕ → ℕ → Reading → Reading × Result ℕ GuestMemoryError
  read_piece done len (input, eof) =
      let (input', result) = i.read_volatile input len in
      elim result [
        | ok n ↦ ((input', eof || n == 0), ok n)
        | err would_block ↦ ((input', eof), ok 0)
        | err other_error ↦ ((input', eof), err io_error)
      ]

  unfoldable pub read_to_desc : q.Descriptor → Reading → Reading × Result ℕ GuestMemoryError
  unfolding read_piece
  read_to_desc desc s = q.try_access desc read_piece s

  -- The loop over the descriptors of a chain: what was read, and whether the guest has to be
  -- notified.
  unfoldable pub read_chain : List q.Descriptor → Reading → ℕ → Bool → Reading × ℕ × Bool
  unfolding read_to_desc
  read_chain [] s bytes_read signal = (s, bytes_read, signal)
  read_chain (desc ∷ descs) s bytes_read signal =
      let (s', result) = read_to_desc desc s in
      elim result [
        | ok zero ↦ (s', bytes_read, signal)
        | ok (suc n) ↦ read_chain descs s' (bytes_read + suc n) true
        | err e ↦ read_chain descs s' bytes_read signal
      ]

  -- What the thread keeps; `port_id` does not change.
  pub record RxThread : Type 0 where
    pub queue : q.Queue
    pub reading : Reading
    pub control : ConsoleControl
    pub signal_used_queue : Bool

  -- The signal at the end of the loop over the chains, which leaves the flag.
  unfoldable pub signal_guest : RxThread → PortRound RxThread
  signal_guest s =
      if s.signal_used_queue
      then elim (q.signal_used_queue s.queue) [
        | none ↦ panicked
        | some queue ↦ continues (record s { queue = queue })
      ]
      else continues s

  module _ (port_id : ℕ) where
    -- A chain that was read into: it is returned, and the end of the input is announced.
    unfoldable pub receive : RxThread → ℕ → ℕ → RxThread
    receive s head_index bytes_read = record s {
      queue = q.add_used s.queue head_index (bytes_read % 2 ^ 32);
      control = if s.reading.1 then port_open s.control port_id false else s.control;
    }

    unfoldable pub receive_chains : ℕ → RxThread → PortRound RxThread
    unfolding read_chain signal_guest receive
    receive_chains zero s = out_of_fuel
    receive_chains (suc fuel) s = elim (q.pop_descriptor_chain s.queue) [
      | none ↦ signal_guest s
      | some (chain, queue) ↦
          (let (reading, bytes_read, signal) =
              read_chain (q.descriptors chain) s.reading 0 s.signal_used_queue in
            let popped : RxThread = record {
              queue = queue;
              reading = reading;
              control = s.control;
              signal_used_queue = signal;
            } in
            elim bytes_read [
              | zero ↦ continues (record popped { queue = q.go_to_previous_position queue })
              | suc n ↦
                  (let received = receive popped (q.head_index chain) (suc n) in
                    elim reading.1 [ true ↦ ends received | false ↦ receive_chains fuel received ])
            ])
    ]

    -- The start of a round, which resets the flag.
    unfoldable pub begin_round : RxThread → Option RxThread
    begin_round s =
        if s.signal_used_queue
        then elim (q.signal_used_queue s.queue) [
          | none ↦ none
          | some queue ↦ some (record s { queue = queue; signal_used_queue = false })
        ]
        else some s

    -- What a token does. `kicked` is what `read_kick` gives, `none` being an error, and `free`
    -- whether `try_lock_queue` gives the queue.
    unfoldable pub receive_event :
        ℕ → WorkerToken → Option Bool → Bool → RxThread → PortRound RxThread
    unfolding receive_chains
    receive_event fuel stop kicked free s = ends s
    receive_event fuel process_queue none free s = panicked
    receive_event fuel process_queue (some false) free s = continues s
    receive_event fuel process_queue (some true) false s = continues s
    receive_event fuel process_queue (some true) true s = receive_chains fuel s
    receive_event fuel io none free s = panicked
    receive_event fuel io (some false) free s = continues s
    receive_event fuel io (some true) false s = continues s
    receive_event fuel io (some true) true s = receive_chains fuel s

    -- A round of the event loop.
    unfoldable pub round : ℕ → WorkerToken → Option Bool → Bool → RxThread → PortRound RxThread
    unfolding begin_round receive_event
    round fuel token kicked free s = elim (begin_round s) [
      | none ↦ panicked
      | some s' ↦ receive_event fuel token kicked free s'
    ]
