-- ===== src/Console/Ports/Input/Ended.antt =====
-- A port whose input has ended. (device/virtio-console/src/process_rx.rs)
use virtio_device_poc.Base.{
  ℕ, zero, suc, ◌≡◌, refl, sym, ◌∙◌, Bool, some, List, [], ◌∷◌, Result, ok, err, arith,
  ok-injective,
}
use virtio_device_poc.Console.Ports.{GuestMemoryError, PortQueue, PortQueueLaws, continues}
use virtio_device_poc.Console.Ports.Input.{
  PortInput, Reading, read_piece, read_to_desc, read_chain, RxThread, receive_chains,
}

module _ (q : PortQueue) (i : PortInput) (laws : PortQueueLaws q)
    (ended : (x : i.Input) (len : ℕ) → (i.read_volatile x len).1 ≡ ok 0) where
  read_piece-ended : (done len : ℕ) (s : Reading q i) → (read_piece q i done len s).1 ≡ ok 0
  unfolding read_piece
  read_piece-ended done len (input, eof) = rw (ended input len, read_piece) refl

  read_to_desc-ended :
      (d : q.Descriptor) (s : Reading q i) (n : ℕ) → (read_to_desc q i d s).1 ≡ ok n → n ≡ 0
  unfolding read_to_desc
  read_to_desc-ended d s n e =
      laws.try_access-sums (λ t n. n ≡ 0) (read_piece q i)
        (λ n len k t h e.
          let none_more = ok-injective 0 k (sym (read_piece-ended n len t) ∙ e) in omega arith)
        d s n refl e

  chain_ended :
      (d : q.Descriptor) (ds : List q.Descriptor) (s : Reading q i) (bytes : ℕ) (signal : Bool)
      → ((s' : Reading q i)
          → ((read_chain q i ds s' bytes signal).1 ≡ bytes)
            × ((read_chain q i ds s' bytes signal).2 ≡ signal))
      → (r : Result ℕ GuestMemoryError) → (read_to_desc q i d s).1 ≡ r
      → ((read_chain q i (d ∷ ds) s bytes signal).1 ≡ bytes)
        × ((read_chain q i (d ∷ ds) s bytes signal).2 ≡ signal)
  unfolding read_chain
  chain_ended d ds s bytes signal rest (ok zero) e = rw (e, read_chain) (refl, refl)
  chain_ended d ds s bytes signal rest (ok (suc n)) e =
      absurd (let zero_is = read_to_desc-ended d s (suc n) e in omega arith)
  chain_ended d ds s bytes signal rest (err x) e =
      rw (e, read_chain) (rest (read_to_desc q i d s).0)

  read_chain-ended :
      (ds : List q.Descriptor) (s : Reading q i) (bytes : ℕ) (signal : Bool)
      → ((read_chain q i ds s bytes signal).1 ≡ bytes)
        × ((read_chain q i ds s bytes signal).2 ≡ signal)
  unfolding read_chain
  read_chain-ended [] s bytes signal = (refl, refl)
  read_chain-ended (d ∷ ds) s bytes signal =
      chain_ended d ds s bytes signal (λ s'. read_chain-ended ds s' bytes signal)
        (read_to_desc q i d s).1 refl

  -- Once the input gives no more bytes, the loop never announces that the port is closed while a
  -- chain waits: the thread goes on, no chain is returned and none is lost, no notification is
  -- sent, and the control queue is as before.
  pub receive_chains-misses_end :
      (port_id fuel : ℕ) (s : RxThread q i) (c : q.Chain) (y : q.Queue)
      → q.pop_descriptor_chain s.queue ≡ some (c, y)
      → (r : RxThread q i) × (receive_chains q i port_id (suc fuel) s ≡ continues r)
        × (r.control ≡ s.control)
        × (laws.pending r.queue ≡ laws.pending s.queue)
        × (laws.used r.queue ≡ laws.used s.queue)
        × (laws.notified r.queue ≡ laws.notified s.queue)
        × (r.signal_used_queue ≡ s.signal_used_queue)
  unfolding receive_chains
  receive_chains-misses_end port_id fuel s c y popped =
      let (nothing, same_signal) =
        read_chain-ended (q.descriptors c) s.reading 0 s.signal_used_queue in
      let (waits, used, quiet) = laws.previous_some s.queue y c popped in
      let out = read_chain q i (q.descriptors c) s.reading 0 s.signal_used_queue in
      (
        record {
          queue = q.go_to_previous_position y;
          reading = out.0;
          control = s.control;
          signal_used_queue = out.2;
        },
        rw (popped, receive_chains) (rw nothing refl),
        refl,
        waits,
        used,
        quiet,
        same_signal,
      )
