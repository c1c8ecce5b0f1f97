-- ===== src/Ipc/Inv.antt =====
-- The endpoint's invariant: indices inside the ring, and whole payload arrays in its slots.
use nova.Base.{
  ℕ, ◌+◌, ◌%◌, ◌≤◌, ◌<◌, ◌≡◌, refl, inl, inr, some, List, arith, length, get_elem?, set, take, drop,
  length-set, length-append, length-take, length-drop, get_elem?-set-cases, Option-cases,
}
use nova.Ipc.{
  Message, Endpoint, queue_length, payload_size, init, send, receive, filled, write_slot, memcpy,
}

abbrev pub WholePayloads : List Message → Type 0
WholePayloads ms = (i : ℕ) (m : Message) → get_elem? ms i ≡ some m → length m.payload ≡ payload_size

pub record IsValid (e : Endpoint) : Type 0 where
  pub slots : length e.messages ≡ queue_length
  pub whole : WholePayloads e.messages
  pub head_in : e.head < queue_length
  pub tail_at : e.tail ≡ (e.head + e.count) % queue_length
  pub count_in : e.count ≤ queue_length

pub length-memcpy :
    (target source : List ℕ) (n : ℕ)
    → n ≤ length source
    → n ≤ length target
    → length (memcpy target source n) ≡ length target
length-memcpy target source n h k = omega (
  arith,
  length-append (take n source) (drop n target),
  length-take n source,
  length-drop n target,
)

pub length-write_slot :
    (ms : List Message) (i sender : ℕ) (payload : List ℕ) (n : ℕ)
    → length (write_slot ms i sender payload n) ≡ length ms
length-write_slot ms i sender payload n = elim (Option-cases (get_elem? ms i)) [
  | inl e ↦ ground arith
  | inr (old, e) ↦ ground (arith, length-set ms i (filled old sender payload n))
]

pub write_slot-eq-set :
    (ms : List Message) (i sender : ℕ) (payload : List ℕ) (n : ℕ) {old : Message}
    → get_elem? ms i ≡ some old
    → write_slot ms i sender payload n ≡ set ms i (filled old sender payload n)
write_slot-eq-set ms i sender payload n e = ground arith

WholePayloads-write_slot :
    (ms : List Message) (i sender : ℕ) (payload : List ℕ) (n : ℕ)
    → n ≤ length payload
    → n ≤ payload_size
    → WholePayloads ms
    → WholePayloads (write_slot ms i sender payload n)
WholePayloads-write_slot ms i sender payload n h k w j m a = elim (Option-cases (get_elem? ms i)) [
  | inl e ↦ w j m (ground arith)
  | inr (old, e) ↦
      elim (get_elem?-set-cases ms i j (filled old sender payload n)
        (rw (write_slot-eq-set ms i sender payload n e) at a)) [
          | inl (f, f') ↦ ground (arith, w i old e, length-memcpy old.payload payload n)
          | inr (ne, a') ↦ w j m a'
        ]
]

pub init-IsValid :
    (e : Endpoint) → length e.messages ≡ queue_length → WholePayloads e.messages → IsValid (init e)
unfolding init
init-IsValid e h w = record {
  slots = h;
  whole = w;
  head_in = omega arith;
  tail_at = refl;
  count_in = omega arith;
}

-- `nova_ipc_send` keeps the invariant, if the caller's buffer holds the bytes that it announces.
pub send-IsValid :
    (e : Endpoint) (sender : ℕ) (payload : List ℕ) (n : ℕ)
    → n ≤ length payload
    → IsValid e
    → IsValid (send e sender payload n).1
unfolding send
send-IsValid e sender payload n h v = ground (
  arith,
  length-write_slot e.messages e.tail sender payload n,
  WholePayloads-write_slot e.messages e.tail sender payload n h,
)

-- `nova_ipc_receive` keeps the invariant.
pub receive-IsValid : (e : Endpoint) → IsValid e → IsValid (receive e).2
unfolding receive
receive-IsValid e v = ground arith
