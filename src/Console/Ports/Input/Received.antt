-- ===== src/Console/Ports/Input/Received.antt =====
-- What the guest gets of a port's input. (device/virtio-console/src/process_rx.rs)
use virtio_device_poc.Base.{
  ℕ, zero, suc, ◌+◌, ◌%◌, ◌^◌, ◌≤◌, ◌<◌, ◌≡◌, refl, sym, ap, ◌∙◌, subst, Bool, true, false, Option,
  none, some, List, [], ◌∷◌, ◌++◌, map, length, arith, inl, inr, if◌then◌else◌, by_bool, ◌⊎◌,
}
use mathlib.Core.List.{append_assoc, append-nil, map-append}
use virtio_device_poc.Console.Control.{port_open}
use virtio_device_poc.Console.Ports.{
  PortQueue, PortQueueLaws, PortRound, continues, ends, panicked, out_of_fuel,
}
use virtio_device_poc.Console.Ports.Input.{
  PortInput, Reading, read_chain, RxThread, signal_guest, receive, receive_chains,
}
use virtio_device_poc.Console.Ports.Input.Filled.{
  PortInputLaws, taken, Fills, read_chain-Fills, Counted,
}
use virtio_device_poc.Console.Ports.Input.Counting.{
  total, total-append, either_append, AllFilled, AllFilled-append, Reads, Reads-append, Ceases,
  read_chain-Counted,
}

module _ (q : PortQueue) (i : PortInput) (laws : PortQueueLaws q) (inputs : PortInputLaws i) where
  abbrev chains : List (q.Chain × ℕ) → List q.Chain
  chains = map (λ (x : q.Chain × ℕ). x.0)

  abbrev entries : List (q.Chain × ℕ) → List (ℕ × ℕ)
  entries = map (λ (x : q.Chain × ℕ). (q.head_index x.0, x.1 % 2 ^ 32))

  module _ (port_id : ℕ) where
    -- From s to r some chains were returned in their order, each with the number of bytes that the
    -- reads into it took; the guest is to be notified of them; and only at the end the closing of
    -- the port was announced, with no notification.
    pub record Receives (s r : RxThread q i) (over : Bool) : Type 0 where
      pub done : List (q.Chain × ℕ)
      pub filled : AllFilled q i laws inputs done
      pub waited : laws.pending s.queue ≡ chains done ++ laws.pending r.queue
      pub returned : laws.used r.queue ≡ laws.used s.queue ++ entries done
      pub last : Reading q i
      pub counts : Reads q i laws inputs s.reading done last
      pub ceases : Ceases q i laws inputs last r.reading
      pub reads :
          taken q i laws inputs s.reading + total q i laws inputs done
          ≤ taken q i laws inputs r.reading
      pub told : 0 < length done → r.signal_used_queue ≡ true
      pub keeps : s.signal_used_queue ≡ true → r.signal_used_queue ≡ true
      pub announced : r.control ≡ (if over then port_open s.control port_id false else s.control)
      pub silent : over ≡ true → laws.notified r.queue ≡ laws.notified s.queue

    -- No chain waits, or reading into the first one that does gave nothing.
    abbrev pub Stops : RxThread q i → Type 0
    Stops r =
        (laws.pending r.queue ≡ [])
        ⊎ ((c : q.Chain) × (rest : List q.Chain) × (s : Reading q i) × (signal : Bool)
            × (laws.pending r.queue ≡ c ∷ rest)
            × (read_chain q i (q.descriptors c) s 0 signal ≡ (r.reading, 0, r.signal_used_queue)))

    abbrev pub Received : RxThread q i → PortRound (RxThread q i) → Type 0
    Received s (continues r) = Receives s r false × Stops r
    Received s (ends r) = Receives s r true × (r.reading.1 ≡ true)
    Received s panicked = ⊥
    Received s out_of_fuel = ⊥

    module _ (s : RxThread q i) (c : q.Chain) (y : q.Queue)
        (popped : q.pop_descriptor_chain s.queue ≡ some (c, y)) where
      abbrev read_into : Reading q i → Bool → RxThread q i
      read_into reading signal = record {
        queue = y;
        reading = reading;
        control = s.control;
        signal_used_queue = signal;
      }

      receive-Receives :
          (reading : Reading q i) (n : ℕ) (signal : Bool)
          → read_chain q i (q.descriptors c) s.reading 0 s.signal_used_queue
            ≡ (reading, suc n, signal)
          → (over : Bool) → reading.1 ≡ over
          → let r = receive q i port_id (read_into reading signal) (q.head_index c) (suc n) in
            (m : Receives s r over) × (m.last ≡ r.reading)
      unfolding receive
      receive-Receives reading n signal e over e' =
          let f : Fills q i laws inputs s.reading 0 s.signal_used_queue (reading, suc n, signal) =
            subst (Fills q i laws inputs s.reading 0 s.signal_used_queue) e (
              read_chain-Fills q i laws inputs (q.descriptors c) s.reading 0 s.signal_used_queue) in
          let (grows, reads, told, keeps) = f in
          let (waits, same, quiet) = laws.pop_some s.queue y c popped in
          let (waits', adds, quiet') = laws.add_used_all y (q.head_index c) (suc n % 2 ^ 32) in
          let counted : Counted q i laws inputs (q.descriptors c) s.reading (suc n) reading =
            subst (λ x. Counted q i laws inputs (q.descriptors c) s.reading (suc n) x)
              (ap (λ x. x.0) e)
              (read_chain-Counted q i laws inputs c s.reading s.signal_used_queue (suc n)
                (ap (λ x. x.1) e)) in
          (
            record {
              done = (c, suc n) ∷ [];
              last = reading;
              counts = (reading, counted, refl);
              ceases = inl refl;
              filled = (omega arith, tt);
              waited = waits ∙ ap (λ l. c ∷ l) (sym waits');
              returned = adds ∙ ap (λ l. l ++ (q.head_index c, suc n % 2 ^ 32) ∷ []) same;
              reads = omega arith;
              told = λ h. told (omega arith);
              keeps = keeps;
              announced = ap (λ b. if b then port_open s.control port_id false else s.control) e';
              silent = λ h. quiet' ∙ quiet;
            },
            refl,
          )

      receive-queue :
          (reading : Reading q i) (n : ℕ) (signal : Bool)
          → let r = receive q i port_id (read_into reading signal) (q.head_index c) (suc n) in
            (laws.pending r.queue ≡ laws.pending y)
            × (laws.notified r.queue ≡ laws.notified s.queue)
      unfolding receive
      receive-queue reading n signal =
          let (waits, same, quiet) = laws.pop_some s.queue y c popped in
          let (waits', adds, quiet') = laws.add_used_all y (q.head_index c) (suc n % 2 ^ 32) in
          (waits', quiet' ∙ quiet)

    Receives-trans :
        (s m r : RxThread q i) (over : Bool)
        → laws.notified m.queue ≡ laws.notified s.queue
        → (a : Receives s m false) → a.last ≡ m.reading
        → Receives m r over
        → Receives s r over
    Receives-trans s m r over quiet a meets b = record {
      last = b.last;
      counts =
          Reads-append q i laws inputs a.done b.done s.reading m.reading b.last
            (subst (Reads q i laws inputs s.reading a.done) meets a.counts) b.counts;
      ceases = b.ceases;
      done = a.done ++ b.done;
      filled = AllFilled-append q i laws inputs a.done b.done a.filled b.filled;
      waited =
          a.waited
          ∙ ap (λ l. chains a.done ++ l) b.waited
          ∙ sym (append_assoc (chains a.done) (chains b.done) (laws.pending r.queue))
          ∙ ap (λ l. l ++ laws.pending r.queue) (sym (map-append _ a.done b.done));
      returned =
          b.returned
          ∙ ap (λ l. l ++ entries b.done) a.returned
          ∙ append_assoc (laws.used s.queue) (entries a.done) (entries b.done)
          ∙ ap (λ l. laws.used s.queue ++ l) (sym (map-append _ a.done b.done));
      reads =
          let sum = total-append q i laws inputs a.done b.done in
          let first = a.reads in let second = b.reads in omega arith;
      told = either_append q i laws inputs a.done b.done (λ h. b.keeps (a.told h)) b.told;
      keeps = λ h. b.keeps (a.keeps h);
      announced = b.announced ∙ ap (λ k. if over then port_open k port_id false else k) a.announced;
      silent = λ h. b.silent h ∙ quiet;
    }

    Received-trans :
        (s m : RxThread q i) (o : PortRound (RxThread q i))
        → laws.notified m.queue ≡ laws.notified s.queue
        → (a : Receives s m false) → a.last ≡ m.reading
        → Received m o
        → Received s o
    Received-trans s m (continues r) quiet a meets (b, stops) =
        (Receives-trans s m r false quiet a meets b, stops)
    Received-trans s m (ends r) quiet a meets (b, over) =
        (Receives-trans s m r true quiet a meets b, over)
    Received-trans s m panicked quiet a meets h = h
    Received-trans s m out_of_fuel quiet a meets h = h

    -- Nothing more is returned than the notifications tell.
    Receives-nothing :
        (s r : RxThread q i)
        → laws.pending s.queue ≡ laws.pending r.queue
        → laws.used r.queue ≡ laws.used s.queue
        → taken q i laws inputs s.reading ≤ taken q i laws inputs r.reading
        → Ceases q i laws inputs s.reading r.reading
        → (s.signal_used_queue ≡ true → r.signal_used_queue ≡ true)
        → r.control ≡ s.control
        → Receives s r false
    Receives-nothing s r waited same reads ceases keeps control = record {
      last = s.reading;
      counts = refl;
      ceases = ceases;
      done = [];
      filled = tt;
      waited = waited;
      returned = same ∙ sym (append-nil (laws.used s.queue));
      reads = omega arith;
      told = λ h. absurd (omega arith);
      keeps = keeps;
      announced = control;
      silent = λ h. absurd cc;
    }

    signal_guest-Received :
        (s : RxThread q i) → laws.pending s.queue ≡ [] → Received s (signal_guest q i s)
    unfolding signal_guest
    signal_guest-Received s empty =
        let (y, e, waits, same, more) = laws.signal_all s.queue in
        by_bool (Received s) s.signal_used_queue _ _
          (λ yes_signal. rw e (
            Receives-nothing s (record s { queue = y }) (sym waits) same (omega arith) (inl refl)
                (λ h. h) refl,
            inl (waits ∙ empty),
          ))
          (λ no_signal.
            (Receives-nothing s s refl refl (omega arith) (inl refl) (λ h. h) refl, inl empty))

    module _ (fuel : ℕ) (s : RxThread q i)
        (rest : (s' : RxThread q i)
          → length (laws.pending s'.queue) < fuel
          → Received s' (receive_chains q i port_id fuel s'))
        (few : length (laws.pending s.queue) < suc fuel) where
      module _ (c : q.Chain) (y : q.Queue)
          (popped : q.pop_descriptor_chain s.queue ≡ some (c, y)) where
        abbrev out : Reading q i × ℕ × Bool
        out = read_chain q i (q.descriptors c) s.reading 0 s.signal_used_queue

        abbrev received : ℕ → RxThread q i
        received n =
            receive q i port_id (read_into s c y popped out.0 out.2) (q.head_index c) (suc n)

        read-Received :
            (n : ℕ) (over : Bool)
            → out.1 ≡ n
            → out.0.1 ≡ over
            → Received s (receive_chains q i port_id (suc fuel) s)
        unfolding receive_chains
        read-Received zero over e e' =
            let (grows, reads, told, keeps) =
              read_chain-Fills q i laws inputs (q.descriptors c) s.reading 0 s.signal_used_queue in
            let (waits, same, quiet) = laws.previous_some s.queue y c popped in
            let (first, same', quiet') = laws.pop_some s.queue y c popped in
            rw (popped, receive_chains)
              (rw e (
                Receives-nothing s _ (sym waits) same (omega arith)
                    (inr
                      (c, read_chain-Counted q i laws inputs c s.reading s.signal_used_queue 0 e))
                    keeps refl,
                inr (
                  c,
                  laws.pending y,
                  s.reading,
                  s.signal_used_queue,
                  waits ∙ first,
                  ap (λ n. (out.0, n, out.2)) e,
                ),
              ))
        read-Received (suc n) true e e' =
            let one =
              (receive-Receives s c y popped out.0 n out.2 (ap (λ n. (out.0, n, out.2)) e) true
                e').0 in
            rw (popped, receive_chains) (rw e (rw e' (one, e')))
        read-Received (suc n) false e e' =
            let (waits, quiet) = receive-queue s c y popped out.0 n out.2 in
            let fewer = ap length (laws.pop_some s.queue y c popped).0 in
            let fewer' = ap length waits in
            let (one, meets) =
              receive-Receives s c y popped out.0 n out.2 (ap (λ n. (out.0, n, out.2)) e) false
                e' in
            rw (popped, receive_chains)
              (rw e (
                rw e' (
                  Received-trans s (received n) _ quiet one meets
                    (rest (received n) (omega arith)))))

      first-Received :
          (o : Option (q.Chain × q.Queue))
          → q.pop_descriptor_chain s.queue ≡ o
          → Received s (receive_chains q i port_id (suc fuel) s)
      unfolding receive_chains
      first-Received none e =
          rw (e, receive_chains) (signal_guest-Received s (laws.pop_none s.queue e))
      first-Received (some (c, y)) e = read-Received c y e _ _ refl refl

    -- The loop over the chains ends with more fuel than chains wait, and does not panic: chains
    -- were returned in their order, each with the number of bytes that the reads into it that
    -- succeeded took from the input, one chain read into after the other. Either no chain waits
    -- then, or the first that does got nothing and waits again, and the port is open as before; or
    -- the input has ended, the closing of the port is announced, and the guest is not notified of
    -- the chains.
    pub receive_chains-Received :
        (fuel : ℕ) (s : RxThread q i)
        → length (laws.pending s.queue) < fuel
        → Received s (receive_chains q i port_id fuel s)
    receive_chains-Received zero s few = absurd (omega arith)
    receive_chains-Received (suc fuel) s few =
        first-Received fuel s (receive_chains-Received fuel) few _ refl
