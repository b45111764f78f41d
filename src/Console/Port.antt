-- ===== src/Console/Port.antt =====
-- The ports of a console. (device/virtio-console/src/port.rs)
use virtio_device_poc.Base.{
  ℕ, ◌+◌, Bool, true, false, ◌&&◌, Option, none, some, List, [], ◌∷◌, if◌then◌else◌,
}

-- `input` and `output` say whether the option is `Some`; a name is its bytes.
pub data PortDescription : Type 0 where
  console : Bool → Bool → PortDescription
  input_pipe output_pipe : List ℕ → PortDescription

pub record Port : Type 0 where
  pub port_id : ℕ
  pub name : List ℕ
  pub represents_console : Bool
  pub input : Bool
  pub output : Bool

-- `Port::new`; `none` is the panic of a console without an input or an output.
unfoldable pub new_port : ℕ → PortDescription → Option Port
new_port port_id (console input output) =
    if input && output
    then some (record {
      port_id = port_id;
      name = [];
      represents_console = true;
      input = true;
      output = true;
    })
    else none
new_port port_id (input_pipe name) = some (record {
  port_id = port_id;
  name = name;
  represents_console = false;
  input = true;
  output = false;
})
new_port port_id (output_pipe name) = some (record {
  port_id = port_id;
  name = name;
  represents_console = false;
  input = false;
  output = true;
})

-- The ports of the descriptions, numbered from `port_id` on.
unfoldable pub new_ports : ℕ → List PortDescription → Option (List Port)
unfolding new_port
new_ports port_id [] = some []
new_ports port_id (d ∷ ds) =
    let rest = new_ports (port_id + 1) ds in
    elim (new_port port_id d) [
      | none ↦ none
      | some port ↦ elim rest [ none ↦ none | some ports ↦ some (port ∷ ports) ]
    ]
