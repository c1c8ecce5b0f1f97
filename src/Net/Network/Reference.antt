-- ===== src/Net/Network/Reference.antt =====
-- The network that network_stack.c is for its callers: what each call answers, and what it leaves.
use nova.Base.{
  ℕ, ◌+◌, Bool, true, false, not, ◌&&◌, ◌||◌, Option, none, some, List, [], ◌∷◌, ◌==◌,
  if◌then◌else◌, get_or, replicate, leb,
}
use nova.Base.Words.{ℤ, pos, negsuc}
use nova.Base.CString.{codes}
use nova.Base.Heap.{without}
use nova.Net.State.{Ptr, null, NetDevice, XmitFn, Socket, update}
use nova.Net.Packets.{xmit_of}
use nova.Net.Devices.{fresh_lo, fresh_nic}
use nova.Net.Devices.Chain.{has, first_named}
use nova.Net.Devices.Edit.{linked}
use nova.Net.Sockets.{table_size, slot_of, no_data}
use nova.Net.Sockets.Open.{new_socket}
use nova.Net.Sockets.Send.{counted}

pub data Call : Type 0 where
  start halt : Call
  add_device drop_device : Ptr → Call
  load_loopback load_nic : Ptr → Call
  find_device : Option (List ℕ) → Call
  open_socket : Ptr → ℤ → ℤ → ℤ → Call
  bind_to accept_on get_option set_option connect_to listen_on shut close_socket : ℤ → Call
  send_on : Ptr → Bool → ℤ → Option (List ℕ) → ℕ → Call
  receive_on : ℤ → Bool → ℕ → Call

pub data Answer : Type 0 where
  code : ℤ → Answer
  address : Ptr → Answer
  received : ℤ × Option (List ℕ) → Answer

-- The devices, without links; the addresses of the registered ones, the last one first; the socket
-- of each descriptor.
pub record Network : Type 0 where
  pub infos : Ptr → Option NetDevice
  pub listed : List Ptr
  pub sockets : ℕ → Option Socket
  pub next_fd : ℕ
  pub up : Bool

abbrev pub started : Network → Network
started n = record n { listed = []; sockets = λ i. none; next_fd = 1; up = true }

-- the loopback device, or NULL
abbrev pub lo_in : Network → Ptr
lo_in n = first_named n.infos n.listed (codes "lo")

abbrev pub expect_add : Ptr → Option NetDevice → Network → Answer × Network
expect_add dev none n = (code (negsuc 0), n)
expect_add dev (some d) n =
    if (get_or d.name 0 0 == 0) || not (first_named n.infos n.listed d.name == null)
    then (code (negsuc 0), n)
    else (
      code (pos 0),
      record n { infos = update n.infos dev (some (linked d null)); listed = dev ∷ n.listed },
    )

-- the list as far as `q`, and `q`
abbrev pub upto : List Ptr → Ptr → List Ptr
upto [] q = []
upto (p ∷ ps) q = if p == q then p ∷ [] else p ∷ upto ps q

-- A device is set to its initial values. If it was listed, those behind it are not any more.
abbrev pub reset : Ptr → NetDevice → Network → Network
reset dev d n = record n { infos = update n.infos dev (some d); listed = upto n.listed dev }

abbrev pub with_new : Ptr → ℤ → ℤ → ℤ → Network → Network
with_new fresh domain type protocol n = record n {
  sockets = update n.sockets n.next_fd (some (new_socket domain type protocol (lo_in n)));
  next_fd = n.next_fd + 1;
}

-- AF_UNSPEC, AF_UNIX, AF_INET and AF_INET6; STREAM, DGRAM, RAW and SEQPACKET
abbrev pub is_family : ℤ → Bool
is_family (pos n) = has (0 ∷ 1 ∷ 2 ∷ 10 ∷ []) n
is_family (negsuc n) = false

abbrev pub is_kind : ℤ → Bool
is_kind (pos n) = has (1 ∷ 2 ∷ 3 ∷ 5 ∷ []) n
is_kind (negsuc n) = false

abbrev pub expect_served : Bool → Ptr → ℤ → ℤ → ℤ → Network → Answer × Network
expect_served unknown fresh domain type protocol n =
    if unknown || leb table_size n.next_fd
    then (code (negsuc 0), n)
    else if fresh == null
    then (code (negsuc 0), record n { next_fd = n.next_fd + 1 })
    else (code (pos n.next_fd), with_new fresh domain type protocol n)

abbrev pub expect_open : Ptr → ℤ → ℤ → ℤ → Network → Answer × Network
expect_open fresh domain type protocol n =
    expect_served (not (is_family domain) || not (is_kind type)) fresh domain type protocol n

-- the socket of a slot, and the network with another one there
abbrev pub socket_in : Network → Option ℕ → Option Socket
socket_in n none = none
socket_in n (some i) = n.sockets i

abbrev pub put_socket : Option ℕ → Option Socket → Network → Network
put_socket none s n = n
put_socket (some i) s n = record n { sockets = update n.sockets i s }

-- the socket on the loopback device, if it had none
abbrev pub attached : Network → Socket → Socket
attached n s = if s.dev == null then record s { dev = lo_in n } else s

abbrev pub expect_check : ℤ → Option Socket → Network → Answer × Network
expect_check c none n = (code (negsuc 0), n)
expect_check c (some s) n = (code c, n)

abbrev pub expect_change :
    (Socket → Option Socket) → Option ℕ → Option Socket → Network → Answer × Network
expect_change f slot none n = (code (negsuc 0), n)
expect_change f slot (some s) n = (code (pos 0), put_socket slot (f s) n)

-- The device counts the packet, if it transmits and a packet can be had.
abbrev pub expect_over : Option XmitFn → Bool → ℕ → Ptr → NetDevice → Network → Answer × Network
expect_over none room len dev d n = (code (negsuc 0), n)
expect_over (some f) room len dev d n =
    if room
    then (
      code (pos len),
      record n { infos = update n.infos dev (some (record d { stats = counted f d.stats len })) },
    )
    else (code (negsuc 0), n)

abbrev pub expect_transmit : Bool → ℕ → Ptr → Option NetDevice → Network → Answer × Network
expect_transmit room len dev none n = (code (negsuc 0), n)
expect_transmit room len dev (some d) n = expect_over (xmit_of d) room len dev d n

abbrev pub expect_send : Bool → Bool → ℕ → Option ℕ → Option Socket → Network → Answer × Network
expect_send room empty len slot none n = (code (negsuc 0), n)
expect_send room empty len slot (some s) n =
    if empty
    then (code (negsuc 0), n)
    else let t = attached n s in
      let m = put_socket slot (some t) n in
      if t.dev == null
      then (code (negsuc 0), m)
      else expect_transmit room len t.dev (n.infos t.dev) m

abbrev pub expect_receive : Bool → ℕ → Option Socket → Network → Answer × Network
expect_receive given len none n = (received (negsuc 0, none), n)
expect_receive given len (some s) n =
    if not given || (len == 0)
    then (received (negsuc 0, none), n)
    else (received (pos len, some (replicate len 0)), n)

-- what a call answers, and what it leaves
abbrev pub expect : Call → Network → Answer × Network
expect start n = (code (pos 0), started n)
expect halt n = (code (pos 0), record n { listed = []; up = false })
expect (add_device dev) n =
    if dev == null then (code (negsuc 0), n) else expect_add dev (n.infos dev) n
expect (drop_device dev) n =
    if has n.listed dev
    then (code (pos 0), record n { listed = without n.listed dev })
    else (code (negsuc 0), n)
expect (load_loopback lo) n = expect_add lo (some fresh_lo) (reset lo fresh_lo n)
expect (load_nic nic) n = expect_add nic (some fresh_nic) (reset nic fresh_nic n)
expect (find_device none) n = (address null, n)
expect (find_device (some name)) n = (address (first_named n.infos n.listed name), n)
expect (open_socket fresh domain type protocol) n =
    expect_open fresh domain type protocol (if n.up then n else started n)
expect (bind_to fd) n = expect_check (pos 0) (socket_in n (slot_of fd)) n
expect (accept_on fd) n = expect_check (negsuc 0) (socket_in n (slot_of fd)) n
expect (get_option fd) n = expect_check (pos 0) (socket_in n (slot_of fd)) n
expect (set_option fd) n = expect_check (pos 0) (socket_in n (slot_of fd)) n
expect (connect_to fd) n =
    expect_change (λ s. some (attached n (record s { state = 1 }))) (slot_of fd)
      (socket_in n (slot_of fd)) n
expect (listen_on fd) n =
    expect_change (λ s. some (record s { state = 2 })) (slot_of fd) (socket_in n (slot_of fd)) n
expect (shut fd) n =
    expect_change (λ s. some (record s { state = 0 })) (slot_of fd) (socket_in n (slot_of fd)) n
expect (close_socket fd) n = expect_change (λ s. none) (slot_of fd) (socket_in n (slot_of fd)) n
expect (send_on fresh data_ok fd buf len) n =
    expect_send (not (fresh == null) && data_ok) (no_data buf len) len (slot_of fd)
      (socket_in n (slot_of fd)) n
expect (receive_on fd given len) n = expect_receive given len (socket_in n (slot_of fd)) n

abbrev pub replies : List Call → Network → (List Answer) × Network
replies [] n = ([], n)
replies (c ∷ cs) n =
    let (a, n') = expect c n in let (rest, last) = replies cs n' in (a ∷ rest, last)
