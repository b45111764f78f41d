-- ===== src/Console/Control/Commands.antt =====
-- The answers to the guest's commands. (device/virtio-console/src/console_control.rs)
use virtio_device_poc.Base.{
  ℕ, zero, suc, ◌+◌, ◌≤◌, ◌<◌, ◌≡◌, ◌↔◌, refl, sym, ap, ◌∙◌, subst, Bool, true, false, not, Option,
  none, some, List, [], ◌∷◌, ◌++◌, ◌==◌, if◌then◌else◌, length, get_elem?, arith, is_empty, ==_iff,
  eq→==, by_bool, by_option, get_elem?-some, get_elem?-ge, length-append,
}
use mathlib.Core.Option.{some-injective}
use mathlib.Core.List.{append-nil, append_assoc}
use virtio_device_poc.Console.Port.{Port}
use virtio_device_poc.Console.Message.{VirtioConsoleControl, Payload, console_control, raw_bytes}
use virtio_device_poc.Console.Control.{
  ConsoleControl, push_msg, push_vec, mark_console_port, console_resize, port_add, port_open,
  port_name, add_ports, port_is_ready, handle_command, virtio_console_device_ready,
  virtio_console_port_ready, virtio_console_port_add,
}

-- The second queue is the first with so many more messages, each of which raised the event.
pub record IsLonger (c c' : ConsoleControl) : Type 0 where
  pub more : List Payload
  pub appended : c'.queue ≡ c.queue ++ more
  pub raised : c'.queue_evt ≡ c.queue_evt + length more

pub same_IsLonger : (c : ConsoleControl) → IsLonger c c
same_IsLonger c = record { more = []; appended = sym (append-nil c.queue); raised = omega arith }

pub then_IsLonger : (a b c : ConsoleControl) → IsLonger a b → IsLonger b c → IsLonger a c
then_IsLonger a b c p q = record {
  more = p.more ++ q.more;
  appended = q.appended ∙ ap (λ l. l ++ q.more) p.appended ∙ append_assoc a.queue p.more q.more;
  raised = omega (arith, p.raised, q.raised, length-append p.more q.more);
}

push_msg-IsLonger : (c : ConsoleControl) (m : VirtioConsoleControl) → IsLonger c (push_msg c m)
unfolding push_msg
push_msg-IsLonger c m = record { more = console_control m ∷ []; appended = refl; raised = refl }

push_vec-IsLonger : (c : ConsoleControl) (buf : List ℕ) → IsLonger c (push_vec c buf)
unfolding push_vec
push_vec-IsLonger c buf = record { more = raw_bytes buf ∷ []; appended = refl; raised = refl }

add_ports-IsLonger :
    (ports : List Port) (c : ConsoleControl) (i : ℕ) → IsLonger c (add_ports c i ports)
unfolding add_ports port_add
add_ports-IsLonger [] c i = same_IsLonger c
add_ports-IsLonger (p ∷ ports) c i =
    then_IsLonger c _ _ (push_msg-IsLonger c _) (add_ports-IsLonger ports _ (i + 1))

port_is_ready-IsLonger :
    (port : Port) (c : ConsoleControl) (id : ℕ) → IsLonger c (port_is_ready port c id)
unfolding port_is_ready mark_console_port port_open console_resize port_name
port_is_ready-IsLonger port c id = named (opened port.represents_console)
  where
    announced : Bool → ConsoleControl
    announced b =
        if b
        then console_resize (port_open (mark_console_port c id) id true) id
            (record { rows = 24; cols = 80 })
        else port_open c id true

    opened : (b : Bool) → IsLonger c (announced b)
    opened true =
        then_IsLonger c _ _ (push_msg-IsLonger c _)
          (then_IsLonger _ _ _ (push_msg-IsLonger _ _) (push_vec-IsLonger _ _))
    opened false = push_msg-IsLonger c _

    named :
        IsLonger c (announced port.represents_console)
        → IsLonger c (
            if is_empty port.name
            then announced port.represents_console
            else port_name (announced port.represents_console) id port.name)
    named p =
        by_bool (IsLonger c) (is_empty port.name) _ _ (λ e. p)
          (λ e. then_IsLonger c _ _ p (push_vec-IsLonger _ _))

abbrev LongerAfter : ConsoleControl → Option ConsoleControl → Type 0
LongerAfter c o = (c' : ConsoleControl) → o ≡ some c' → IsLonger c c'

longer : (c x : ConsoleControl) → IsLonger c x → LongerAfter c (some x)
longer c x p c' e = subst (IsLonger c) (some-injective x c' e) p

-- Whatever command the guest sends, the worker only appends messages to the control queue, and
-- raises the queue's event once for each.
pub handle_command-IsLonger :
    (ports : List Port) (c c' : ConsoleControl) (cmd : VirtioConsoleControl)
    → handle_command ports c cmd ≡ some c'
    → IsLonger c c'
unfolding handle_command
handle_command-IsLonger ports c c' cmd =
    by_bool (LongerAfter c) (cmd.event == virtio_console_device_ready) _ _
      (λ e. longer c _ (add_ports-IsLonger ports c 0))
      (λ e.
        by_bool (LongerAfter c) (cmd.event == virtio_console_port_ready) _ _
          (λ e.
            by_bool (LongerAfter c) (not (cmd.value == 1)) _ _ (λ e. longer c c (same_IsLonger c))
              (λ e.
                by_option (LongerAfter c) (get_elem? ports cmd.id) _ _ (λ e x q. cc)
                  (λ port e. longer c _ (port_is_ready-IsLonger port c cmd.id))))
          (λ e. longer c c (same_IsLonger c)))
      c'

-- The guest's command panics the worker exactly if it reports as ready a port that the device does
-- not have.
pub handle_command-panic_iff :
    (ports : List Port) (c : ConsoleControl) (cmd : VirtioConsoleControl)
    → (handle_command ports c cmd ≡ none)
      ↔ ((cmd.event ≡ virtio_console_port_ready) × (cmd.value ≡ 1) × (length ports ≤ cmd.id))
unfolding handle_command
handle_command-panic_iff ports c cmd =
    by_bool PanicsIff (cmd.event == virtio_console_device_ready) _ _
      (λ e. (λ q. cc, λ (ready, good, missing). absurd (different e ready)))
      (λ e.
        by_bool PanicsIff (cmd.event == virtio_console_port_ready) _ _
          (λ ready.
            by_bool PanicsIff (not (cmd.value == 1)) _ _
              (λ bad. (λ q. cc, λ (is_ready, good, missing). absurd (ground arith)))
              (λ good.
                by_option PanicsIff (get_elem? ports cmd.id) _ _
                  (λ missing. (
                    λ q. (
                      (==_iff _ _).0 ready,
                      (let one : cmd.value ≡ 1 = ground arith in one),
                      (let beyond : length ports ≤ cmd.id =
                            omega (arith, get_elem?-ge ports cmd.id missing) in
                          beyond),
                    ),
                    λ p. refl,
                  ))
                  (λ port found. (
                    λ q. cc,
                    λ (is_ready, is_one, beyond).
                        absurd (omega (arith, get_elem?-some ports cmd.id port found)),
                  ))))
          (λ other. (λ q. cc, λ (is_ready, good, missing). absurd (ground arith))))
  where
    PanicsIff : Option ConsoleControl → Type 0
    PanicsIff o =
        (o ≡ none)
        ↔ ((cmd.event ≡ virtio_console_port_ready) × (cmd.value ≡ 1) × (length ports ≤ cmd.id))

    different : (cmd.event == 0) ≡ true → cmd.event ≡ 3 → ⊥
    different e f = ground arith

abbrev port_added : ℕ → Payload
port_added id = console_control (record { id = id; event = virtio_console_port_add; value = 0 })

-- The announcement of each port, numbered from `i` on.
unfoldable announcements : ℕ → List Port → List Payload
announcements i [] = []
announcements i (p ∷ ports) = port_added i ∷ announcements (i + 1) ports

add_ports-announcements :
    (ports : List Port) (c : ConsoleControl) (i : ℕ)
    → (add_ports c i ports).queue ≡ c.queue ++ announcements i ports
unfolding add_ports port_add push_msg announcements
add_ports-announcements [] c i = sym (append-nil c.queue)
add_ports-announcements (p ∷ ports) c i =
    add_ports-announcements ports _ (i + 1)
    ∙ append_assoc c.queue (port_added i ∷ []) (announcements (i + 1) ports)

length-announcements : (ports : List Port) (i : ℕ) → length (announcements i ports) ≡ length ports
unfolding announcements
length-announcements [] i = refl
length-announcements (p ∷ ports) i = ap suc (length-announcements ports (i + 1))

get_elem?-announcements :
    (ports : List Port) (i j : ℕ)
    → j < length ports
    → get_elem? (announcements i ports) j ≡ some (port_added (i + j))
unfolding announcements
get_elem?-announcements [] i j l = absurd (omega arith)
get_elem?-announcements (p ∷ ports) i zero l =
    ap (λ n. some (port_added n)) (let e : i ≡ i + 0 = omega arith in e)
get_elem?-announcements (p ∷ ports) i (suc j) l =
    get_elem?-announcements ports (i + 1) j (omega arith)
    ∙ ap (λ n. some (port_added n)) (let e : i + 1 + j ≡ i + suc j = omega arith in e)

-- Once the guest reports that the device is ready, the worker announces every port, in order and
-- once each, behind the messages that wait already.
pub device_ready-announces :
    (ports : List Port) (c : ConsoleControl) (cmd : VirtioConsoleControl)
    → cmd.event ≡ virtio_console_device_ready
    → (c' : ConsoleControl) × (more : List Payload) × (handle_command ports c cmd ≡ some c')
      × (c'.queue ≡ c.queue ++ more)
      × (length more ≡ length ports)
      × ((j : ℕ)
          → j < length ports
          → get_elem? more j
            ≡ some
                (console_control (record { id = j; event = virtio_console_port_add; value = 0 })))
unfolding handle_command
device_ready-announces ports c cmd ready = (
  add_ports c 0 ports,
  announcements 0 ports,
  rw (eq→== cmd.event 0 ready) refl,
  add_ports-announcements ports c 0,
  length-announcements ports 0,
  (λ j l.
      get_elem?-announcements ports 0 j l
      ∙ ap (λ n. some (port_added n)) (let e : 0 + j ≡ j = omega arith in e)),
)
