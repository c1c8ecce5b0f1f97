-- ===== src/Ipc.antt =====
-- kernel/core/ipc.c: a message endpoint, a ring of 16 slots with copied payloads.
pub mod Inv
pub mod Queue
pub mod Refine
pub mod Delivery
mod Examples
use nova.Base.{
  ℕ, ◌+◌, ◌-◌, ◌%◌, Bool, Option, none, some, List, ◌++◌, ltb, ◌==◌, if◌then◌else◌, get_elem?, set,
  take, drop,
}
use nova.Base.Words.{u16, u64}
use nova.Base.Results.{Status, ok, err, full, empty}

abbrev pub queue_length : ℕ
queue_length = 16

abbrev pub payload_size : ℕ
payload_size = 64

-- `payload` is the whole array of 64 bytes.
pub record Message : Type 0 where
  pub sender : ℕ
  pub length : ℕ
  pub payload : List ℕ

pub record Endpoint : Type 0 where
  pub messages : List Message
  pub head : ℕ
  pub tail : ℕ
  pub count : ℕ

-- `nova_ipc_endpoint_init` leaves the slots as they are.
pub init : Endpoint → Endpoint
init e = record e { head = 0; tail = 0; count = 0 }

-- `memcpy(target, source, n)` into an array: the bytes behind the first `n` stay.
abbrev pub memcpy : List ℕ → List ℕ → ℕ → List ℕ
memcpy target source n = take n source ++ drop n target

-- what `nova_ipc_send` writes over the message in a slot
abbrev pub filled : Message → ℕ → List ℕ → ℕ → Message
filled old sender payload length = record {
  sender = sender;
  length = u16 length;
  payload = memcpy old.payload payload length;
}

-- `payload` is what the caller's pointer leads to. A slot outside the ring is not written;
-- `Inv.IsValid` rules it out.
abbrev pub write_slot : List Message → ℕ → ℕ → List ℕ → ℕ → List Message
write_slot slots index sender payload length = elim (get_elem? slots index) [
  | none ↦ slots
  | some old ↦ set slots index (filled old sender payload length)
]

pub send : Endpoint → ℕ → List ℕ → ℕ → Status × Endpoint
send e sender payload length =
    if ltb payload_size length then (err, e) else if e.count == queue_length then (full, e) else (
      ok,
      record e {
        messages = write_slot e.messages e.tail sender payload length;
        tail = u64 (e.tail + 1) % queue_length;
        count = u64 (e.count + 1);
      },
    )

-- The option is what goes through `message`. `count--` runs only at `count != 0`.
pub receive : Endpoint → Status × Option Message × Endpoint
receive e = if e.count == 0 then (empty, none, e) else (
  ok,
  get_elem? e.messages e.head,
  record e { head = u64 (e.head + 1) % queue_length; count = e.count - 1 },
)
