-- ===== src/Console/Message.antt =====
-- The messages of the control queues, and their bytes, lowest first.
-- (device/virtio-console/src/console_control.rs)
use virtio_device_poc.Base.{ℕ, ◌^◌, ◌<◌, ◌≡◌, Option, none, some, List, ◌++◌, arith}
use virtio_device_poc.Base.Bytes.{le_bytes, from_le_bytes}

pub record VirtioConsoleControl : Type 0 where
  pub id : ℕ
  pub event : ℕ
  pub value : ℕ

pub record VirtioConsoleResize : Type 0 where
  pub rows : ℕ
  pub cols : ℕ

unfoldable pub control_bytes : VirtioConsoleControl → List ℕ
unfolding le_bytes
control_bytes c = le_bytes 4 c.id ++ le_bytes 2 c.event ++ le_bytes 2 c.value

unfoldable pub resize_bytes : VirtioConsoleResize → List ℕ
unfolding le_bytes
resize_bytes r = le_bytes 2 r.rows ++ le_bytes 2 r.cols

-- `read_obj` of a VirtioConsoleControl: `none` if there are fewer than its eight bytes.
unfoldable pub read_control : List ℕ → Option VirtioConsoleControl
unfolding from_le_bytes
read_control bytes = elim (from_le_bytes 4 bytes) [
  | none ↦ none
  | some (id, rest₁) ↦ elim (from_le_bytes 2 rest₁) [
    | none ↦ none
    | some (event, rest₂) ↦ elim (from_le_bytes 2 rest₂) [
      | none ↦ none
      | some (value, rest₃) ↦ some (record { id = id; event = event; value = value })
    ]
  ]
]

pub data Payload : Type 0 where
  console_control : VirtioConsoleControl → Payload
  raw_bytes : List ℕ → Payload

-- `deref` of a payload.
unfoldable pub payload_bytes : Payload → List ℕ
unfolding control_bytes
payload_bytes (console_control c) = control_bytes c
payload_bytes (raw_bytes bytes) = bytes

-- The widths of the fields: u32, u16 and u16.
abbrev pub IsControl : VirtioConsoleControl → Type 0
IsControl c = (c.id < 2 ^ 32) × (c.event < 2 ^ 16) × (c.value < 2 ^ 16)

same_control :
    (c : VirtioConsoleControl) (id event value : ℕ)
    → id ≡ c.id
    → event ≡ c.event
    → value ≡ c.value
    → some (let r : VirtioConsoleControl = record { id = id; event = event; value = value } in r)
      ≡ some c
same_control c id event value p q r = λ j. some (record { id = p j; event = q j; value = r j })

-- Reading the bytes of a control message, whatever follows them, gives the message back.
pub read_control-control_bytes :
    (c : VirtioConsoleControl) (rest : List ℕ)
    → IsControl c
    → read_control (control_bytes c ++ rest) ≡ some c
unfolding read_control control_bytes
read_control-control_bytes c rest (i, e, v) =
    same_control c _ _ _ (omega arith) (omega arith) (omega arith)
