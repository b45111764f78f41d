-- ===== src/Tests/Controls.antt =====
-- The control queues as lists of chains, and the commands of a guest of two ports.
use virtio_device_poc.Base.{
  ℕ, ◌≡◌, ◌≤◌, ◌↔◌, refl, sym, ap, ◌∙◌, Option, some, none, ok, List, [], ◌∷◌, ◌++◌, arith, length,
  true, false, ok-injective,
}
use mathlib.Core.Option.{some-injective}
use virtio_device_poc.Console.Message.{VirtioConsoleControl, console_control, control_bytes}
use virtio_device_poc.Console.Control.{
  ConsoleControl, new_control, handle_command, add_ports, port_add, push_msg, ControlQueue,
  ControlQueueLaws, RxState, TxState, process_rx, tx_loop,
}
use virtio_device_poc.Console.Control.Commands.{handle_command-panic_iff}
use virtio_device_poc.Console.Control.Delivery.{IsDelivered, process_rx-delivers}
use virtio_device_poc.Console.Control.Answers.{Ends, tx_loop-Ends}
use virtio_device_poc.Tests.Consoles.{ports, port_one_ready}

abbrev device_ready : VirtioConsoleControl
device_ready = record { id = 0; event = 0; value = 1 }

handle_command-panic_iff_example :
    (handle_command ports new_control port_one_ready ≡ none)
    ↔ ((port_one_ready.event ≡ 3) × (port_one_ready.value ≡ 1) × (length ports ≤ port_one_ready.id))
handle_command-panic_iff_example = handle_command-panic_iff ports new_control port_one_ready

abbrev announced : ConsoleControl
announced = record {
  queue =
      console_control (record { id = 0; event = 1; value = 0 })
      ∷ console_control (record { id = 1; event = 1; value = 0 })
      ∷ [];
  queue_evt = 2;
}

ports_are_announced : handle_command ports new_control device_ready ≡ some announced
unfolding handle_command add_ports port_add push_msg
ports_are_announced = refl

-- Chains that are left, the one that was taken last, and the used ring.
record Chains : Type 0 where
  left : List (ℕ × List ℕ)
  last : List (ℕ × List ℕ)
  ring : List (ℕ × ℕ)

abbrev pop_chain : Chains → Option ((ℕ × List ℕ) × Chains)
pop_chain x = elim x.left [ [] ↦ none | c ∷ cs ↦ some (c, record x { left = cs; last = c ∷ [] }) ]

abbrev chain_queue : ControlQueue
chain_queue = record {
  Queue = Chains;
  Chain = ℕ × List ℕ;
  Mem = List (List ℕ);
  pop_descriptor_chain = pop_chain;
  go_to_previous_position = λ x. record x { left = x.last ++ x.left; last = [] };
  head_index = λ c. c.0;
  add_used = λ x head n. ok (record x { ring = x.ring ++ (head, n) ∷ [] });
  write = λ m c b. (b ∷ m, ok (length b));
  read = λ m c. c.1;
}

pop_chain-empty : (x : Chains) → pop_chain x ≡ none → length x.left ≡ 0
pop_chain-empty x e = empty x.left refl e
  where
    empty :
        (l : List (ℕ × List ℕ))
        → x.left ≡ l
        → (let o : Option ((ℕ × List ℕ) × Chains) = elim l [
          | [] ↦ none
          | d ∷ ds ↦ some (d, record x { left = ds; last = d ∷ [] })
        ] in
            o ≡ none)
        → length x.left ≡ 0
    empty [] p q = ap length p
    empty (d ∷ ds) p q = cc

pop_chain-last :
    (x y : Chains) (c : ℕ × List ℕ)
    → pop_chain x ≡ some (c, y)
    → (x.left ≡ c ∷ y.left) × (y.last ≡ c ∷ []) × (y.ring ≡ x.ring)
pop_chain-last x y c e = popped x.left refl e
  where
    popped :
        (l : List (ℕ × List ℕ))
        → x.left ≡ l
        → (let o : Option ((ℕ × List ℕ) × Chains) = elim l [
          | [] ↦ none
          | d ∷ ds ↦ some (d, record x { left = ds; last = d ∷ [] })
        ] in
            o ≡ some (c, y))
        → (x.left ≡ c ∷ y.left) × (y.last ≡ c ∷ []) × (y.ring ≡ x.ring)
    popped [] p q = cc
    popped (d ∷ ds) p q =
        let same = some-injective (d, record x { left = ds; last = d ∷ [] }) (c, y) q in
        (
          p ∙ ap (λ (z : (ℕ × List ℕ) × Chains). z.0 ∷ z.1.left) same,
          ap (λ (z : (ℕ × List ℕ) × Chains). z.1.last) (sym same)
              ∙ ap (λ (z : (ℕ × List ℕ) × Chains). z.0 ∷ []) same,
          ap (λ (z : (ℕ × List ℕ) × Chains). z.1.ring) (sym same),
        )

unfoldable chain_queue-laws : ControlQueueLaws chain_queue
chain_queue-laws = record {
  pending = λ x. length x.left;
  used = λ x. x.ring;
  pop_none = pop_chain-empty;
  pop_some = λ x y c e. let p = pop_chain-last x y c e in (ap length p.0, p.2);
  put_back =
      λ x y c e. let p = pop_chain-last x y c e in (ap (λ l. length (l ++ y.left)) p.1, refl);
  add_one = λ x y head n e.
      let same = ok-injective (record x { ring = x.ring ++ (head, n) ∷ [] }) y e in
      (ap (λ (z : Chains). length z.left) (sym same), ap (λ (z : Chains). z.ring) (sym same));
  waiting = λ x. x.left;
  pending_waiting = λ x. refl;
  pop_waiting = λ x y c e. (pop_chain-last x y c e).0;
  add_waiting = λ x y head n e.
      ap (λ (z : Chains). z.left)
        (sym (ok-injective (record x { ring = x.ring ++ (head, n) ∷ [] }) y e));
}

abbrev two_chains : Chains
two_chains = record { left = (5, []) ∷ (6, []) ∷ []; last = []; ring = [] }

abbrev waiting : RxState chain_queue
waiting = record { mem = []; queue = two_chains; control = announced; raise_irq = false }

process_rx-delivers_example :
    IsDelivered chain_queue chain_queue-laws
      (record waiting { control = record announced { queue_evt = 0 } })
      2
      (process_rx chain_queue 3 true (some two_chains) waiting)
unfolding chain_queue-laws
process_rx-delivers_example =
    process_rx-delivers chain_queue chain_queue-laws (λ m c b. refl) (λ x head n. (_, refl)) 3
      waiting two_chains (omega arith)

abbrev commands : Chains
commands = record {
  left = (5, control_bytes device_ready) ∷ (6, []) ∷ (7, control_bytes port_one_ready) ∷ [];
  last = [];
  ring = [];
}

abbrev asked : TxState chain_queue
asked = record { queue = commands; control = new_control; raise_irq = false }

tx_loop-Ends_example :
    Ends chain_queue chain_queue-laws asked (tx_loop chain_queue 4 ports [] asked)
unfolding chain_queue-laws
tx_loop-Ends_example = tx_loop-Ends chain_queue chain_queue-laws 4 ports [] asked (omega arith)
