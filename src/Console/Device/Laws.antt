-- ===== src/Console/Device/Laws.antt =====
-- The numbering of a new console's ports, the reads of its configuration, and that it is a lawful
-- virtio device. (device/virtio-console/src/device.rs)
use virtio_device_poc.Base.{
  ℕ, zero, suc, ◌+◌, ◌-◌, ◌^◌, ◌<◌, ◌≡◌, refl, sym, ap, ◌∙◌, subst, inl, inr, not, Option, some,
  List, [], ◌∷◌, ◌++◌, Result, ok, ltb, if◌then◌else◌, min, length, take, drop, replicate,
  get_elem?, arith, Bool-cases, by_bool, by_option, ◌&&◌, length-append, length-take, length-drop,
  length-replicate, is_empty, lt→leb, lt→ltb, get_elem?-append_lt, get_elem?-append_ge,
  get_elem?-take, get_elem?-drop, get_elem?-replicate,
}
use mathlib.Core.Option.{some-injective}
use virtio_device_poc.VhostUser.Host.{Host}
use virtio_device_poc.VhostUser.Backend.{VirtioLaws}
use virtio_device_poc.Console.PortMap.{num_queues}
use virtio_device_poc.Console.Port.{
  PortDescription, console, input_pipe, output_pipe, Port, new_port, new_ports,
}
use virtio_device_poc.Console.Device.{
  config_bytes, Console, is_console, new_console, read_config, activate, console_device, queue_size,
}

-- A read of the configuration that begins inside it is answered in full: the buffer holds the bytes
-- of the configuration from the offset on, and zeros beyond its end.
pub read_config-bytes :
    (c : Console) (offset size : ℕ)
    → offset < 12
    → offset + size < 2 ^ 64
    → (bytes : List ℕ) × (read_config c offset size ≡ ok bytes)
      × (length bytes ≡ size)
      × ((j : ℕ)
          → j < size
          → get_elem? bytes j ≡ (
              if ltb (offset + j) 12
              then get_elem? (config_bytes c.config) (offset + j)
              else some 0))
unfolding read_config
read_config-bytes c offset size inside fits =
    let slice = config_bytes c.config in
    let k = min (offset + size) 12 - offset in
    let copied = take k (drop offset slice) in
    let padding : List ℕ = replicate (size - length copied) 0 in
    let long : length copied ≡ k =
      omega (arith, length-take k (drop offset slice), length-drop offset slice) in
    let whole : length (copied ++ padding) ≡ size =
      omega (arith, length-append copied padding, length-replicate (size - length copied) zero) in
    (
      copied ++ padding,
      rw (lt→leb 12 offset inside) (rw (lt→ltb (offset + size) (2 ^ 64) fits) refl),
      whole,
      λ j small. elim (Bool-cases (ltb (offset + j) 12)) [
        | inl low ↦ rw low (
            get_elem?-append_lt copied padding j (ground arith)
            ∙ get_elem?-take k (drop offset slice) j (ground arith)
            ∙ get_elem?-drop offset slice j)
        | inr high ↦ rw high (
            get_elem?-append_ge copied padding j (ground arith)
            ∙ get_elem?-replicate (size - length copied) 0 (j - length copied) (ground arith))
      ],
    )

activate-avail : (c c' : Console) → activate c ≡ some c' → c'.avail_features ≡ c.avail_features
unfolding activate
activate-avail c c' =
    by_bool (λ (o : Option Console). o ≡ some c' → c'.avail_features ≡ c.avail_features)
      (is_empty c.ports) _ _ (λ e q. cc)
      (λ e q. ap (λ (x : Console). x.avail_features) (sym (some-injective _ c' q)))

-- The console is a lawful virtio device: what it offers is constant.
pub console_device-VirtioLaws : (h : Host) → VirtioLaws h (console_device h)
unfolding console_device
console_device-VirtioLaws h = record {
  offers-set_acked = λ x f. refl;
  offers-write = λ x o buf. refl;
  offers-activate = λ x y m vs r.
      by_option
        (λ (o : Option (Console × Result (Unit {0}) ℕ)).
          o ≡ some (y, r) → y.avail_features ≡ x.avail_features)
        (activate x) _ _ (λ n q. cc)
        (λ c' n q.
          ap (λ (p : Console × Result (Unit {0}) ℕ). p.0.avail_features)
            (sym (some-injective _ (y, r) q))
          ∙ activate-avail x c' n);
  offers-reset = λ x. refl;
}

new_port-port_id : (i : ℕ) (d : PortDescription) (p : Port) → new_port i d ≡ some p → p.port_id ≡ i
unfolding new_port
new_port-port_id i (console a b) p e =
    by_bool (λ (o : Option Port). o ≡ some p → p.port_id ≡ i) (a && b) _ _
      (λ both q. ap (λ (x : Port). x.port_id) (sym (some-injective _ p q))) (λ missing q. cc) e
new_port-port_id i (input_pipe n) p e = ap (λ (x : Port). x.port_id) (sym (some-injective _ p e))
new_port-port_id i (output_pipe n) p e = ap (λ (x : Port). x.port_id) (sym (some-injective _ p e))

abbrev IsNumberedFrom : ℕ → ℕ → List Port → Type 0
IsNumberedFrom i n ps =
    (length ps ≡ n) × ((j : ℕ) (p : Port) → get_elem? ps j ≡ some p → p.port_id ≡ i + j)

abbrev NumbersFrom : ℕ → ℕ → Option (List Port) → Type 0
NumbersFrom i n o = (ps : List Port) → o ≡ some ps → IsNumberedFrom i n ps

one_more :
    (i n : ℕ) (port : Port) (ports : List Port)
    → port.port_id ≡ i
    → IsNumberedFrom (i + 1) n ports
    → IsNumberedFrom i (suc n) (port ∷ ports)
one_more i n port ports first rest = (ap suc rest.0, number)
  where
    number : (j : ℕ) (p : Port) → get_elem? (port ∷ ports) j ≡ some p → p.port_id ≡ i + j
    number zero p e =
        ap (λ (x : Port). x.port_id) (sym (some-injective port p e)) ∙ first ∙ omega arith
    number (suc j) p e = rest.1 j p e ∙ omega arith

new_ports-NumbersFrom :
    (ds : List PortDescription) (i : ℕ) → NumbersFrom i (length ds) (new_ports i ds)
unfolding new_ports
new_ports-NumbersFrom [] i ps e =
    subst (IsNumberedFrom i 0) (some-injective [] ps e) (refl, λ j p q. cc)
new_ports-NumbersFrom (d ∷ ds) i qs given =
    let all = new_ports-NumbersFrom ds (i + 1) in
    by_option (NumbersFrom i (suc (length ds))) (new_port i d) _ _ (λ n ps e. cc)
      (λ port made.
        by_option (NumbersFrom i (suc (length ds))) (new_ports (i + 1) ds) _ _ (λ n ps e. cc)
          (λ ports rest ps e.
            subst (IsNumberedFrom i (suc (length ds))) (some-injective (port ∷ ports) ps e) (
              one_more i (length ds) port ports (new_port-port_id i d port made) (all ports rest))))
      qs given

-- A console that is made for some ports has them numbered in order from 0, two queues for each
-- and two control queues, and tells the guest their number.
pub new_console-ports :
    (ds : List PortDescription) (c : Console)
    → new_console ds ≡ some c
    → (length c.ports ≡ length ds)
      × ((j : ℕ) (p : Port) → get_elem? c.ports j ≡ some p → p.port_id ≡ j)
      × (length c.queues ≡ num_queues (length ds))
      × (c.config.max_nr_ports ≡ length ds)
unfolding new_console
new_console-ports [] c e = cc
new_console-ports (d ∷ ds) c given =
    by_bool Made (not (is_console d)) _ _ (λ e q. cc)
      (λ e.
        by_option Made (new_ports 0 (d ∷ ds)) _ _ (λ n q. cc)
          (λ ports made q.
            let (many, number) = new_ports-NumbersFrom (d ∷ ds) 0 ports made in
            let same = some-injective _ c q in
            (
              ap (λ (x : Console). length x.ports) (sym same) ∙ many,
              (λ j p found.
                  number j p (ap (λ (x : Console). get_elem? x.ports j) same ∙ found)
                  ∙ omega arith),
              ap (λ (x : Console). length x.queues) (sym same) ∙ length-replicate _ queue_size,
              ap (λ (x : Console). x.config.max_nr_ports) (sym same) ∙ many,
            )))
      given
  where
    Made : Option Console → Type 0
    Made o =
        o ≡ some c
        → (length c.ports ≡ length (d ∷ ds))
          × ((j : ℕ) (p : Port) → get_elem? c.ports j ≡ some p → p.port_id ≡ j)
          × (length c.queues ≡ num_queues (length (d ∷ ds)))
          × (c.config.max_nr_ports ≡ length (d ∷ ds))
