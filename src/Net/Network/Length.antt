-- ===== src/Net/Network/Length.antt =====
-- How many devices a call lists.
use nova.Base.{
  ℕ, ◌+◌, ◌≤◌, ◌≡◌, inl, inr, refl, Bool, true, false, not, ◌||◌, Option, none, some, List, [], ◌∷◌,
  length, ◌==◌, if◌then◌else◌, get_or, leb, arith, Bool-cases,
}
use nova.Base.Words.{ℤ, pos, negsuc}
use nova.Base.Heap.{has, without}
use nova.Net.State.{Ptr, null, NetDevice, XmitFn, Socket}
use nova.Net.Packets.{xmit_of}
use nova.Net.Sockets.{table_size, slot_of, no_data}
use nova.Net.Devices.Chain.{first_named}
use nova.Net.Devices.{fresh_lo, fresh_nic}
use nova.Net.Network.Drivers.{length-upto}
use nova.Net.Network.Reference.{
  Call, start, halt, add_device, drop_device, load_loopback, load_nic, find_device, reset,
  open_socket, bind_to, accept_on, get_option, set_option, connect_to, listen_on, shut,
  close_socket, send_on, receive_on, Network, started, attached, socket_in, put_socket, expect_add,
  expect_open, is_family, is_kind, expect_check, expect_change, expect_over, expect_transmit,
  expect_send, expect_receive, expect,
}

abbrev size : Network → ℕ
size n = length n.listed

length-without : (ps : List Ptr) (q : Ptr) → length (without ps q) ≤ length ps
length-without [] q = omega arith
length-without (p ∷ ps) q = ground (arith, length-without ps q)

size-put : (slot : Option ℕ) (o : Option Socket) (n : Network) → size (put_socket slot o n) ≡ size n
size-put none o n = refl
size-put (some i) o n = refl

size-add :
    (dev : Ptr) (o : Option NetDevice) (n : Network) → size (expect_add dev o n).1 ≤ size n + 1
size-add dev none n = omega arith
size-add dev (some d) n =
    elim (Bool-cases
      ((get_or d.name 0 0 == 0) || not (first_named n.infos n.listed d.name == null))) [
        | inl e ↦ rw e (omega arith)
        | inr e ↦ rw e (omega arith)
      ]

size-open :
    (fresh : Ptr) (domain type protocol : ℤ) (n : Network)
    → size (expect_open fresh domain type protocol n).1 ≤ size n + 1
size-open fresh domain type protocol n =
    elim (Bool-cases ((not (is_family domain) || not (is_kind type)) || leb table_size n.next_fd)) [
      | inl e ↦ rw e (omega arith)
      | inr e ↦ elim (Bool-cases (fresh == null)) [
        | inl z ↦ rw (e, z) (omega arith)
        | inr z ↦ rw (e, z) (omega arith)
      ]
    ]

size-open_at :
    (fresh : Ptr) (domain type protocol : ℤ) (n : Network) (b : Bool)
    → size (expect_open fresh domain type protocol (if b then n else started n)).1 ≤ size n + 1
size-open_at fresh domain type protocol n true = size-open fresh domain type protocol n
size-open_at fresh domain type protocol n false =
    omega (arith, size-open fresh domain type protocol (started n))

size-check : (c : ℤ) (o : Option Socket) (n : Network) → size (expect_check c o n).1 ≤ size n + 1
size-check c none n = omega arith
size-check c (some s) n = omega arith

size-change :
    (f : Socket → Option Socket) (slot : Option ℕ) (o : Option Socket) (n : Network)
    → size (expect_change f slot o n).1 ≤ size n + 1
size-change f slot none n = omega arith
size-change f slot (some s) n = omega (arith, size-put slot (f s) n)

size-over :
    (o : Option XmitFn) (room : Bool) (len : ℕ) (dev : Ptr) (d : NetDevice) (n : Network)
    → size (expect_over o room len dev d n).1 ≡ size n
size-over none room len dev d n = refl
size-over (some f) true len dev d n = refl
size-over (some f) false len dev d n = refl

size-transmit :
    (room : Bool) (len : ℕ) (dev : Ptr) (o : Option NetDevice) (n : Network)
    → size (expect_transmit room len dev o n).1 ≡ size n
size-transmit room len dev none n = refl
size-transmit room len dev (some d) n = size-over (xmit_of d) room len dev d n

size-send :
    (room empty : Bool) (len : ℕ) (slot : Option ℕ) (o : Option Socket) (n : Network)
    → size (expect_send room empty len slot o n).1 ≤ size n + 1
size-send room empty len slot none n = omega arith
size-send room true len slot (some s) n = omega arith
size-send room false len slot (some s) n =
    let t = attached n s in
    let m = put_socket slot (some t) n in
    elim (Bool-cases (t.dev == null)) [
      | inl e ↦ rw e (omega (arith, size-put slot (some t) n))
      | inr e ↦
          rw e (
            omega (arith, size-transmit room len t.dev (n.infos t.dev) m, size-put slot (some t) n))
    ]

size-receive :
    (given : Bool) (len : ℕ) (o : Option Socket) (n : Network)
    → size (expect_receive given len o n).1 ≤ size n + 1
size-receive given len none n = omega arith
size-receive given len (some s) n = elim (Bool-cases (not given || (len == 0))) [
  | inl e ↦ rw e (omega arith)
  | inr e ↦ rw e (omega arith)
]

-- A call lists one device more at most.
pub length-expect : (c : Call) (n : Network) → length (expect c n).1.listed ≤ length n.listed + 1
length-expect start n = omega arith
length-expect halt n = omega arith
length-expect (add_device dev) n = elim (Bool-cases (dev == null)) [
  | inl e ↦ rw e (omega arith)
  | inr e ↦ rw e (size-add dev (n.infos dev) n)
]
length-expect (drop_device dev) n = elim (Bool-cases (has n.listed dev)) [
  | inl e ↦ rw e (omega (arith, length-without n.listed dev))
  | inr e ↦ rw e (omega arith)
]
length-expect (load_loopback lo) n =
    omega (arith, size-add lo (some fresh_lo) (reset lo fresh_lo n), length-upto n.listed lo)
length-expect (load_nic nic) n =
    omega (arith, size-add nic (some fresh_nic) (reset nic fresh_nic n), length-upto n.listed nic)
length-expect (find_device none) n = omega arith
length-expect (find_device (some name)) n = omega arith
length-expect (open_socket fresh domain type protocol) n =
    size-open_at fresh domain type protocol n n.up
length-expect (bind_to fd) n = size-check (pos 0) (socket_in n (slot_of fd)) n
length-expect (accept_on fd) n = size-check (negsuc 0) (socket_in n (slot_of fd)) n
length-expect (get_option fd) n = size-check (pos 0) (socket_in n (slot_of fd)) n
length-expect (set_option fd) n = size-check (pos 0) (socket_in n (slot_of fd)) n
length-expect (connect_to fd) n = size-change _ (slot_of fd) (socket_in n (slot_of fd)) n
length-expect (listen_on fd) n = size-change _ (slot_of fd) (socket_in n (slot_of fd)) n
length-expect (shut fd) n = size-change _ (slot_of fd) (socket_in n (slot_of fd)) n
length-expect (close_socket fd) n = size-change _ (slot_of fd) (socket_in n (slot_of fd)) n
length-expect (send_on fresh data_ok fd buf len) n =
    size-send _ (no_data buf len) len (slot_of fd) (socket_in n (slot_of fd)) n
length-expect (receive_on fd given len) n = size-receive given len (socket_in n (slot_of fd)) n
