-- ===== src/Console/Control/Delivery.antt =====
-- The loops of the control queues: termination, and what the guest gets.
-- (device/virtio-console/src/console_control.rs)
use virtio_device_poc.Base.{
  ℕ, zero, suc, ◌+◌, ◌<◌, ◌≡◌, refl, sym, ap, ap₂, ◌∙◌, subst, Bool, true, false, ◌||◌, Option,
  none, some, List, [], ◌∷◌, ◌++◌, length, drop, map, min, arith, ok, eq→==, lt→ltb, ltb,
}
use mathlib.Core.List.{append-nil, append_assoc}
use virtio_device_poc.Console.Message.{Payload, payload_bytes}
use virtio_device_poc.Console.Control.{
  ControlQueue, ControlQueueLaws, ConsoleControl, RxState, queue_pop, deliver, rx_loop, process_rx,
}

module _ (q : ControlQueue) (laws : ControlQueueLaws q) where
  -- Each message with its chain, the first ones first, as long as there are both.
  abbrev pub deliveries : List q.Chain → List Payload → List (q.Chain × Payload)
  deliveries [] messages = []
  deliveries (c ∷ chains) [] = []
  deliveries (c ∷ chains) (m ∷ messages) = (c, m) ∷ deliveries chains messages

  -- The used entries that are due: the head of the chain, and the length of the message.
  abbrev pub entries : List (q.Chain × Payload) → List (ℕ × ℕ)
  entries = map (λ (x : q.Chain × Payload). (q.head_index x.0, length (payload_bytes x.1)))

  -- The guest's memory with each message written into its chain.
  abbrev pub write_all : q.Mem → List (q.Chain × Payload) → q.Mem
  write_all mem [] = mem
  write_all mem ((c, m) ∷ rest) = write_all (q.write mem c (payload_bytes m)).0 rest

  -- The result of delivering the first k of the messages to the first k chains.
  pub record IsDelivered (s : RxState q) (k : ℕ) (r : Option (RxState q)) : Type 0 where
    pub after : RxState q
    pub returns : r ≡ some after
    pub messages : after.control.queue ≡ drop k s.control.queue
    pub chains : laws.pending after.queue + k ≡ laws.pending s.queue
    pub returned :
        laws.used after.queue
        ≡ laws.used s.queue ++ entries (deliveries (laws.waiting s.queue) s.control.queue)
    pub written : after.mem ≡ write_all s.mem (deliveries (laws.waiting s.queue) s.control.queue)
    pub raised : after.raise_irq ≡ (ltb 0 k || s.raise_irq)

  module _ (whole : (m : q.Mem) (c : q.Chain) (b : List ℕ) → (q.write m c b).1 ≡ ok (length b))
      (room : (x : q.Queue) (head n : ℕ) → (y : q.Queue) × (q.add_used x head n ≡ ok y)) where
    delivered_one : RxState q → q.Chain → q.Queue → Payload → ConsoleControl → RxState q
    delivered_one s head queue buf control = record {
      mem = (q.write s.mem head (payload_bytes buf)).0;
      queue = (room queue (q.head_index head) (length (payload_bytes buf))).0;
      control = control;
      raise_irq = true;
    }

    deliver_of :
        (s : RxState q) (head : q.Chain) (queue : q.Queue) (buf : Payload)
        (control : ConsoleControl)
        → deliver q s head queue buf control ≡ delivered_one s head queue buf control
    unfolding deliver delivered_one
    deliver_of s head queue buf control =
        let n = length (payload_bytes buf) in
        rw (whole s.mem head (payload_bytes buf), deliver)
          (rw (eq→== n n refl) (rw (room queue (q.head_index head) n).1 refl))

    one_used :
        (s : RxState q) (head : q.Chain) (y : q.Queue) (m : Payload) (c : ConsoleControl)
        → let t = delivered_one s head y m c in
          (laws.used t.queue ≡ laws.used y ++ (q.head_index head, length (payload_bytes m)) ∷ [])
          × (laws.pending t.queue ≡ laws.pending y)
          × (laws.waiting t.queue ≡ laws.waiting y)
    unfolding delivered_one
    one_used s head y m c =
        let n = length (payload_bytes m) in
        let (z, e) = room y (q.head_index head) n in
        let (same, more) = laws.add_one y z (q.head_index head) n e in
        (more, same, laws.add_waiting y z (q.head_index head) n e)

    no_deliveries : (chains : List q.Chain) → deliveries chains [] ≡ []
    no_deliveries [] = refl
    no_deliveries (c ∷ chains) = refl

    no_chains : (x : q.Queue) (l : List q.Chain) → laws.waiting x ≡ l → laws.pending x ≡ 0 → l ≡ []
    no_chains x [] e p = refl
    no_chains x (c ∷ l) e p =
        absurd (let n = laws.pending_waiting x in let k = ap length e in omega arith)

    -- Nothing is delivered where no chain or no message is left.
    nothing :
        (s : RxState q) (x : q.Queue) (r : Option (RxState q))
        → r ≡ some (record s { queue = x })
        → laws.pending x ≡ laws.pending s.queue
        → laws.used x ≡ laws.used s.queue
        → deliveries (laws.waiting s.queue) s.control.queue ≡ []
        → IsDelivered s 0 r
    nothing s x r e p u none_due = record {
      after = record s { queue = x };
      returns = e;
      messages = refl;
      chains = omega (arith, p);
      returned =
          u
          ∙ sym (append-nil (laws.used s.queue))
          ∙ ap (λ l. laws.used s.queue ++ entries l) (sym none_due);
      written = ap (write_all s.mem) (sym none_due);
      raised = refl;
    }

    abbrev IsDone : ℕ → RxState q → Type 0
    IsDone fuel s =
        IsDelivered s (min (laws.pending s.queue) (length s.control.queue)) (rx_loop q fuel s)

    rx_loop_out :
        (fuel : ℕ) (s : RxState q)
        → q.pop_descriptor_chain s.queue ≡ none
        → rx_loop q (suc fuel) s ≡ some s
    unfolding rx_loop
    rx_loop_out fuel s e = rw (e, rx_loop) refl

    rx_loop_idle :
        (fuel : ℕ) (s : RxState q) (head : q.Chain) (y : q.Queue)
        → q.pop_descriptor_chain s.queue ≡ some (head, y)
        → queue_pop s.control ≡ none
        → rx_loop q (suc fuel) s ≡ some (record s { queue = q.go_to_previous_position y })
    unfolding rx_loop
    rx_loop_idle fuel s head y e l = rw (e, rx_loop) (rw l refl)

    rx_loop_one :
        (fuel : ℕ) (s : RxState q) (head : q.Chain) (y : q.Queue) (m : Payload) (c : ConsoleControl)
        → q.pop_descriptor_chain s.queue ≡ some (head, y)
        → queue_pop s.control ≡ some (m, c)
        → rx_loop q (suc fuel) s ≡ rx_loop q fuel (delivered_one s head y m c)
    unfolding rx_loop
    rx_loop_one fuel s head y m c e l =
        rw (e, rx_loop) (rw l (ap (rx_loop q fuel) (deliver_of s head y m c)))

    popped_from : ConsoleControl → List Payload → Option (Payload × ConsoleControl)
    popped_from c l = elim l [ [] ↦ none | x ∷ xs ↦ some (x, record c { queue = xs }) ]

    queue_pop-popped_from :
        (c : ConsoleControl) (l : List Payload) → c.queue ≡ l → queue_pop c ≡ popped_from c l
    unfolding queue_pop popped_from
    queue_pop-popped_from c l e = ap (popped_from c) e

    or_true : (b : Bool) → (b || true) ≡ true
    or_true true = refl
    or_true false = refl

    rx_step :
        (fuel : ℕ) (s : RxState q) (o : Option (q.Chain × q.Queue)) (l : List Payload)
        → ((t : RxState q) → laws.pending t.queue < fuel → IsDone fuel t)
        → laws.pending s.queue < suc fuel
        → q.pop_descriptor_chain s.queue ≡ o
        → s.control.queue ≡ l
        → IsDone (suc fuel) s
    unfolding popped_from delivered_one
    rx_step fuel s none l ih enough e p =
        let empty = laws.pop_none s.queue e in
        let none_done : 0 ≡ min (laws.pending s.queue) (length s.control.queue) = omega arith in
        subst (λ k. IsDelivered s k (rx_loop q (suc fuel) s)) none_done
          (nothing s s.queue _ (rx_loop_out fuel s e) refl refl
            (ap (λ l. deliveries l s.control.queue) (no_chains s.queue _ refl empty)))
    rx_step fuel s (some (head, y)) [] ih enough e p =
        let popped = laws.pop_some s.queue y head e in
        let back = laws.put_back s.queue y head e in
        let no_message = ap length p in
        let none_done : 0 ≡ min (laws.pending s.queue) (length s.control.queue) = omega arith in
        subst (λ k. IsDelivered s k (rx_loop q (suc fuel) s)) none_done
          (nothing s (q.go_to_previous_position y) _
            (rx_loop_idle fuel s head y e (queue_pop-popped_from s.control [] p))
            (back.0 ∙ sym popped.0) (back.1 ∙ popped.1)
            (ap (deliveries (laws.waiting s.queue)) p ∙ no_deliveries (laws.waiting s.queue)))
    rx_step fuel s (some (head, y)) (m ∷ ms) ih enough e p =
        let popped = laws.pop_some s.queue y head e in
        let c : ConsoleControl = record s.control { queue = ms } in
        let t = delivered_one s head y m c in
        let (used_one, pending_one, waiting_one) = one_used s head y m c in
        let due : deliveries (laws.waiting s.queue) s.control.queue
            ≡ (head, m) ∷ deliveries (laws.waiting t.queue) ms =
          ap₂ deliveries (laws.pop_waiting s.queue y head e) p
          ∙ ap (λ l. (head, m) ∷ deliveries l ms) (sym waiting_one) in
        let rest = ih t (omega arith) in
        let k = min (laws.pending t.queue) (length ms) in
        let one_more : suc k ≡ min (laws.pending s.queue) (length s.control.queue) =
          omega (arith, popped.0, pending_one, ap length p) in
        subst (λ j. IsDelivered s j (rx_loop q (suc fuel) s)) one_more
          (record {
            after = rest.after;
            returns =
                rx_loop_one fuel s head y m c e (queue_pop-popped_from s.control (m ∷ ms) p)
                ∙ rest.returns;
            messages = rest.messages ∙ ap (drop (suc k)) (sym p);
            chains = omega (arith, rest.chains, popped.0, pending_one);
            returned =
                rest.returned
                ∙ ap (λ l. l ++ entries (deliveries (laws.waiting t.queue) ms))
                    (used_one
                      ∙ ap (λ u. u ++ (q.head_index head, length (payload_bytes m)) ∷ []) popped.1)
                ∙ append_assoc (laws.used s.queue)
                    ((q.head_index head, length (payload_bytes m)) ∷ [])
                    (entries (deliveries (laws.waiting t.queue) ms))
                ∙ ap (λ l. laws.used s.queue ++ entries l) (sym due);
            written = rest.written ∙ ap (write_all s.mem) (sym due);
            raised =
                rest.raised
                ∙ or_true (ltb 0 k)
                ∙ ap (λ b. b || s.raise_irq) (sym (lt→ltb 0 (suc k) (omega arith)));
          })

    rx_loop_lem : (fuel : ℕ) (s : RxState q) → laws.pending s.queue < fuel → IsDone fuel s
    rx_loop_lem zero s enough = absurd (omega arith)
    rx_loop_lem (suc fuel) s enough =
        rx_step fuel s (q.pop_descriptor_chain s.queue) s.control.queue (rx_loop_lem fuel) enough
          refl refl

    -- A kick of the control receive queue, with more fuel than pending chains: the loop ends, and
    -- the guest got as many messages as there were both chains and messages, the first ones first:
    -- each was written into the next chain that waited, which is returned under its head index with
    -- the length of the message. The guest's buffers take the messages whole, and the used ring has
    -- room.
    pub process_rx-delivers :
        (fuel : ℕ) (s : RxState q) (queue : q.Queue)
        → laws.pending queue < fuel
        → let t : RxState q = record s {
          queue = queue;
          control = record s.control { queue_evt = 0 };
        } in
          IsDelivered t
            (min (laws.pending queue) (length s.control.queue))
            (process_rx q fuel true (some queue) s)
    unfolding process_rx
    process_rx-delivers fuel s queue enough =
        rx_loop_lem fuel (record s { queue = queue; control = record s.control { queue_evt = 0 } })
          enough
