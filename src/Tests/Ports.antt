-- ===== src/Tests/Ports.antt =====
-- The ports of a console over concrete queues. (device/virtio-console/src)
use virtio_device_poc.Base.{
  ℕ, ◌+◌, ◌-◌, ◌≡◌, refl, sym, ap, ap₂, ◌∙◌, subst, true, false, Option, none, some, ok-injective,
  List, [], ◌∷◌, ◌++◌, ok, min, arith,
}
use virtio_device_poc.Console.Control.{port_open, new_control}
use virtio_device_poc.Console.Ports.{PortQueue, PortQueueLaws, continues, ends}
use virtio_device_poc.Console.Ports.Input.{
  PortInput, RxThread, receive_chains, read_chain, read_to_desc, read_piece, receive, signal_guest,
}
use virtio_device_poc.Console.Ports.Input.Received.{Received, receive_chains-Received}
use virtio_device_poc.Console.Ports.Input.Filled.{PortInputLaws}
use virtio_device_poc.Console.Ports.Input.Ended.{receive_chains-misses_end}

-- A queue whose descriptors are their lengths, each in one piece.
record Ring : Type 0 where
  last : Option (ℕ × List ℕ)
  waiting : List (ℕ × List ℕ)
  used_ring : List (ℕ × ℕ)
  signals : ℕ

pop : Ring → Option ((ℕ × List ℕ) × Ring)
pop r = elim r.waiting [
  | [] ↦ none
  | c ∷ rest ↦ some (c, record r { last = some c; waiting = rest })
]

put_back : Option (ℕ × List ℕ) → Ring → Ring
put_back none r = r
put_back (some c) r = record r { waiting = c ∷ r.waiting }

back : Ring → Ring
unfolding put_back
back r = put_back r.last r

abbrev ring : PortQueue
ring = record {
  Queue = Ring;
  Chain = ℕ × List ℕ;
  Descriptor = ℕ;
  descriptors = λ c. c.1;
  head_index = λ c. c.0;
  pop_descriptor_chain = pop;
  go_to_previous_position = back;
  add_used = λ r head len. record r { used_ring = r.used_ring ++ (head, len) ∷ [] };
  signal_used_queue = λ r. some (record r { signals = r.signals + 1 });
  try_access = λ d f s. f 0 d s;
}

pop_nil : (x : Ring) → x.waiting ≡ [] → pop x ≡ none
unfolding pop
pop_nil x w = rw (w, pop) refl

pop_cons :
    (x : Ring) (c : ℕ × List ℕ) (rest : List (ℕ × List ℕ))
    → x.waiting ≡ c ∷ rest
    → pop x ≡ some (c, record x { last = some c; waiting = rest })
unfolding pop
pop_cons x c rest w = rw (w, pop) refl

popped_of :
    (x y : Ring) (c : ℕ × List ℕ) (l : List (ℕ × List ℕ))
    → x.waiting ≡ l
    → pop x ≡ some (c, y)
    → (x.waiting ≡ c ∷ y.waiting) × (y ≡ record x { last = some c; waiting = y.waiting })
popped_of x y c [] w e = absurd (let n = pop_nil x w in cc)
popped_of x y c (d ∷ rest) w e =
    let s = sym (pop_cons x d rest w) ∙ e in
    let first : d ≡ c = cc in
    let second : record x { last = some d; waiting = rest } ≡ y = cc in
    let rest_is : rest ≡ y.waiting = ap (λ r. r.waiting) second in
    (
      w ∙ ap₂ (λ h t. h ∷ t) first rest_is,
      sym second ∙ ap₂ (λ h t. record x { last = some h; waiting = t }) first rest_is,
    )

back_last :
    (y : Ring) (c : ℕ × List ℕ) → y.last ≡ some c → back y ≡ record y { waiting = c ∷ y.waiting }
unfolding back put_back
back_last y c e = ap (λ o. put_back o y) e

no_chain : (x : Ring) (l : List (ℕ × List ℕ)) → x.waiting ≡ l → pop x ≡ none → x.waiting ≡ []
no_chain x [] w e = w
no_chain x (c ∷ rest) w e = absurd (let n = pop_cons x c rest w in cc)

ring_laws : PortQueueLaws ring
ring_laws = record {
  pending = λ r. r.waiting;
  used = λ r. r.used_ring;
  notified = λ r. r.signals;
  pop_none = λ x e. no_chain x x.waiting refl e;
  pop_some = λ x y c e.
      let (w, same) = popped_of x y c x.waiting refl e in
      (w, ap (λ r. r.used_ring) same, ap (λ r. r.signals) same);
  previous_some = λ x y c e.
      let (w, same) = popped_of x y c x.waiting refl e in
      let b = back_last y c (ap (λ r. r.last) same) in
      (
        ap (λ r. r.waiting) b ∙ sym w,
        ap (λ r. r.used_ring) b ∙ ap (λ r. r.used_ring) same,
        ap (λ r. r.signals) b ∙ ap (λ r. r.signals) same,
      );
  add_used_all = λ x head len. (refl, refl, refl);
  signal_all = λ x. (record x { signals = x.signals + 1 }, refl, refl, refl, refl);
  try_access-keeps = λ P f k d s h. k 0 d s h;
  try_access-sums = λ P f k d s n h e. subst (P (f 0 d s).0) (omega arith) (k 0 d n s h e);
}

-- An input of so many bytes, and how many were read.
abbrev input : PortInput
input = record {
  Input = ℕ × ℕ;
  read_volatile = λ x len. ((x.0 - min x.0 len, x.1 + min x.0 len), ok (min x.0 len));
}

input_laws : PortInputLaws input
input_laws = record {
  consumed = λ x. x.1;
  read_ok = λ x len n e. ap (λ k. x.1 + k) (ok-injective (min x.0 len) n e);
  read_err = λ x len e h. absurd cc;
}

abbrev reading_port : RxThread ring input
reading_port = record {
  queue = record {
    last = none;
    waiting = (3, 4 ∷ []) ∷ (5, 4 ∷ 4 ∷ []) ∷ (6, 8 ∷ []) ∷ [];
    used_ring = [];
    signals = 0;
  };
  reading = ((6, 0), false);
  control = new_control;
  signal_used_queue = false;
}

receive_chains-Received_example :
    Received ring input ring_laws input_laws 1 reading_port
      (receive_chains ring input 1 4 reading_port)
unfolding ring_laws
receive_chains-Received_example =
    receive_chains-Received ring input ring_laws input_laws 1 4 reading_port (omega arith)

abbrev at_end : RxThread ring input
at_end = record reading_port {
  queue = record reading_port.queue {
    last = some (5, 4 ∷ 4 ∷ []);
    waiting = (6, 8 ∷ []) ∷ [];
    used_ring = (3, 4) ∷ (5, 2) ∷ [];
  };
  reading = ((0, 6), true);
  control = port_open new_control 1 false;
  signal_used_queue = true;
}

ends_with : receive_chains ring input 1 4 reading_port ≡ ends at_end
unfolding receive_chains read_chain read_to_desc read_piece receive signal_guest pop back
ends_with = refl

-- An input that has ended.
abbrev closed : PortInput
closed = record { Input = Unit; read_volatile = λ x len. (x, ok 0) }

abbrev closed_port : RxThread ring closed
closed_port = record {
  queue = record { last = none; waiting = (3, 4 ∷ []) ∷ []; used_ring = []; signals = 0 };
  reading = (tt, false);
  control = new_control;
  signal_used_queue = false;
}

receive_chains-misses_end_example :
    (r : RxThread ring closed) × (receive_chains ring closed 1 2 closed_port ≡ continues r)
    × (r.control ≡ new_control)
    × (ring_laws.pending r.queue ≡ ring_laws.pending closed_port.queue)
    × (ring_laws.used r.queue ≡ ring_laws.used closed_port.queue)
    × (ring_laws.notified r.queue ≡ ring_laws.notified closed_port.queue)
    × (r.signal_used_queue ≡ false)
receive_chains-misses_end_example =
    receive_chains-misses_end ring closed ring_laws (λ x len. refl) 1 1 closed_port (3, 4 ∷ [])
      (record closed_port.queue { last = some (3, 4 ∷ []); waiting = [] })
      (pop_cons closed_port.queue (3, 4 ∷ []) [] refl)
