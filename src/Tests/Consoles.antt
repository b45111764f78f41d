-- ===== src/Tests/Consoles.antt =====
-- A console with two ports, and control queues that are lists of chains.
use virtio_device_poc.Base.{ℕ, ◌≡◌, ◌^◌, ◌↔◌, refl, true, false, some, List, [], ◌∷◌, bit_or}
use virtio_device_poc.Console.PortMap.{
  tx, port_id_to_queue_idx, queue_idx_to_port_id, num_queues, queue_idx_to_port_id_iff,
}
use virtio_device_poc.Console.Message.{VirtioConsoleControl}
use virtio_device_poc.Console.Port.{
  PortDescription, console, output_pipe, Port, new_port, new_ports,
}
use virtio_device_poc.Console.Device.{
  Console, new_console, new_config, all_features, console_device,
}
use virtio_device_poc.Tests.Model.{toy}

queue_idx_to_port_id_iff_example :
    (queue_idx_to_port_id 5 ≡ some (tx, 1)) ↔ (port_id_to_queue_idx tx 1 ≡ 5)
queue_idx_to_port_id_iff_example = queue_idx_to_port_id_iff 5 tx 1

abbrev five : ℕ
five = 5

abbrev pub port_one_ready : VirtioConsoleControl
port_one_ready = record { id = 1; event = 3; value = 1 }

abbrev descriptions : List PortDescription
descriptions = console true true ∷ output_pipe (111 ∷ 117 ∷ 116 ∷ []) ∷ []

abbrev pub ports : List Port
ports =
    record { port_id = 0; name = []; represents_console = true; input = true; output = true }
    ∷ record {
      port_id = 1;
      name = 111 ∷ 117 ∷ 116 ∷ [];
      represents_console = false;
      input = false;
      output = true;
    }
    ∷ []

abbrev two_ports : Console
two_ports = record {
  ports = ports;
  queues = 256 ∷ 256 ∷ 256 ∷ 256 ∷ 256 ∷ 256 ∷ [];
  running = false;
  stops = 0;
  avail_features = all_features;
  acked_features = 0;
  config = new_config 80 24 2;
}

two_ports_are_new : new_console descriptions ≡ some two_ports
unfolding new_console new_ports new_port num_queues
two_ports_are_new = refl

abbrev every_feature : ℕ
every_feature = bit_or all_features (2 ^ 30)

unfoldable new_state : (console_device toy).State
unfolding console_device
new_state = two_ports
