-- ===== src/Console/Device.antt =====
-- The console as a virtio device. (device/virtio-console/src/device.rs)
pub mod Laws
use virtio_device_poc.Base.{
  ℕ, zero, suc, ◌+◌, ◌-◌, ◌^◌, ◌<◌, ◌≡◌, refl, sym, ap, ◌∙◌, subst, inl, inr, Bool, true, false,
  not, Option, none, some, List, [], ◌∷◌, ◌++◌, Result, ok, err, ltb, leb, if◌then◌else◌, bit_and,
  bit_or, min, length, take, drop, replicate, get_elem?, arith, Bool-cases, by_bool, by_option,
  ◌&&◌, length-append, length-take, length-drop, length-replicate, is_empty, lt→leb, lt→ltb,
  get_elem?-append_lt, get_elem?-append_ge, get_elem?-take, get_elem?-drop, get_elem?-replicate,
}
use mathlib.Core.Option.{some-injective}
use virtio_device_poc.VhostUser.Host.{Host}
use virtio_device_poc.VhostUser.Backend.{VirtioDevice, VirtioLaws}
use virtio_device_poc.Console.PortMap.{num_queues}
use virtio_device_poc.Base.Bytes.{le_bytes}
use virtio_device_poc.Console.Port.{
  PortDescription, console, input_pipe, output_pipe, Port, new_port, new_ports,
}

pub record VirtioConsoleConfig : Type 0 where
  pub cols : ℕ
  pub rows : ℕ
  pub max_nr_ports : ℕ
  pub emerg_wr : ℕ

abbrev pub new_config : ℕ → ℕ → ℕ → VirtioConsoleConfig
new_config cols rows max_nr_ports = record {
  cols = cols;
  rows = rows;
  max_nr_ports = max_nr_ports;
  emerg_wr = 0;
}

-- `as_slice`, packed.
unfoldable pub config_bytes : VirtioConsoleConfig → List ℕ
unfolding le_bytes
config_bytes c =
    le_bytes 2 c.cols ++ le_bytes 2 c.rows ++ le_bytes 4 c.max_nr_ports ++ le_bytes 4 c.emerg_wr

-- VIRTIO_CONSOLE_F_SIZE, VIRTIO_CONSOLE_F_MULTIPORT and VIRTIO_F_VERSION_1.
abbrev pub all_features : ℕ
all_features = bit_or (bit_or (2 ^ 0) (2 ^ 1)) (2 ^ 32)

abbrev pub queue_size : ℕ
queue_size = 256

-- `running` is whether there is a worker thread, `stops` the count in `stopfd`.
pub record Console : Type 0 where
  pub ports : List Port
  pub queues : List ℕ
  pub running : Bool
  pub stops : ℕ
  pub avail_features : ℕ
  pub acked_features : ℕ
  pub config : VirtioConsoleConfig

abbrev pub is_console : PortDescription → Bool
is_console (console input output) = true
is_console (input_pipe name) = false
is_console (output_pipe name) = false

-- `none` is a failed assertion, or the panic of a port.
unfoldable pub new_console : List PortDescription → Option Console
unfolding new_ports num_queues
new_console [] = none
new_console (d ∷ ds) = if not (is_console d) then none else elim (new_ports 0 (d ∷ ds)) [
  | none ↦ none
  | some ports ↦ some (record {
    ports = ports;
    queues = replicate (num_queues (length (d ∷ ds))) queue_size;
    running = false;
    stops = 0;
    avail_features = all_features;
    acked_features = 0;
    config = new_config 80 24 (length ports);
  })
]

unfoldable pub set_acked_features : Console → ℕ → Console
set_acked_features c acked = record c { acked_features = bit_and all_features acked }

-- The answer is the buffer of the caller, which was filled with zeros.
unfoldable pub read_config : Console → ℕ → ℕ → Result (List ℕ) ℕ
unfolding config_bytes
read_config c offset size =
    let config_slice = config_bytes c.config in
    let end_offset = offset + size in
    let copied = take (min end_offset (length config_slice) - offset) (drop offset config_slice) in
    if leb (length config_slice) offset
    then err 22
    else if ltb end_offset (2 ^ 64)
    then ok (copied ++ replicate (size - length copied) 0)
    else ok (replicate size 0)

unfoldable pub write_config : Console → ℕ → List ℕ → Console × Result (Unit {0}) ℕ
write_config c offset buf = (c, err 22)

-- The worker takes the ports with it; `none` is the failed assertion of the second activation.
unfoldable pub activate : Console → Option Console
activate c = if is_empty c.ports then none else some (record c { ports = []; running = true })

-- The worker is told to stop, and joined. Whether it ends is not modelled.
unfoldable pub stop : Console → Console
stop c = record c { running = false; stops = c.stops + 1 }

unfoldable pub reset : Console → Console × Result Bool ℕ
unfolding stop
reset c = (stop c, ok true)

unfoldable pub console_device : (h : Host) → VirtioDevice h
unfolding set_acked_features read_config write_config activate stop reset
console_device h = record {
  State = Console;
  avail_features = λ c. c.avail_features;
  acked_features = λ c. c.acked_features;
  set_acked_features = set_acked_features;
  queues = λ c. c.queues;
  read_config = λ c offset size. some (read_config c offset size);
  write_config = write_config;
  activate = λ c mem vrings. elim (activate c) [ none ↦ none | some c' ↦ some (c', ok tt) ];
  stop = stop;
  reset = reset;
}
