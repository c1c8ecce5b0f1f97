-- ===== src/Net/Sockets.antt =====
-- The socket calls of network_stack.c. Descriptors are `int`s, and index a table of 64 pointers.
pub mod Inv
pub mod Open
pub mod OpenInv
pub mod Close
pub mod Send
use nova.Base.{
  ℕ, zero, suc, ◌+◌, Bool, true, false, not, ◌||◌, Option, none, some, List, ltb, leb, ◌==◌,
  if◌then◌else◌, get_or, set, replicate, take, drop, ◌++◌,
}
use nova.Base.Words.{ℤ, pos, negsuc}
use nova.Base.CString.{codes}
use nova.Net.State.{
  Ptr, null, NetDevice, Skb, Socket, World, Cmd, pure, ◌>>=◌, ◌>>◌, get, put, load_dev, load_skb,
  store_skb, load_socket, store_socket,
}
use nova.Net.Packets.{alloc_skb, free_skb, dev_queue_xmit, xmit_of}
use nova.Net.Devices.{find}

abbrev pub table_size : ℕ
table_size = 64

-- `sockfd <= 0 || sockfd >= NOVA_SOCKET_TABLE_SIZE`
abbrev pub slot_of : ℤ → Option ℕ
slot_of (negsuc n) = none
slot_of (pos n) = if (n == 0) || leb table_size n then none else some n

abbrev pub slot_ptr : World → Option ℕ → Ptr
slot_ptr w none = null
slot_ptr w (some n) = get_or w.table n null

abbrev pub entry : World → ℤ → Ptr
entry w fd = slot_ptr w (slot_of fd)

-- whether the index that is read, if one is, lies inside `g_socket_table`
abbrev pub inside : Option ℕ → Bool
inside none = true
inside (some n) = ltb n table_size

-- A read outside the array has no result.
unfoldable pub lookup : ℤ → Cmd Ptr
lookup fd w = if inside (slot_of fd) then some (entry w fd, w) else none

unfoldable pub network_init : Cmd ℤ
network_init = do
  w ← get
  put (record w {
    table = replicate table_size null;
    next_fd = 1;
    initialized = true;
    registry = null;
  })
  pure (pos 0)

-- AF_UNSPEC, AF_INET, AF_INET6, AF_UNIX
abbrev pub known_domain : ℤ → Bool
known_domain (pos n) = (n == 0) || ((n == 2) || ((n == 10) || (n == 1)))
known_domain (negsuc n) = false

-- STREAM, DGRAM, RAW, SEQPACKET
abbrev pub known_type : ℤ → Bool
known_type (pos n) = (n == 1) || ((n == 2) || ((n == 3) || (n == 5)))
known_type (negsuc n) = false

abbrev pub init_once : Cmd (Unit {0})
init_once = do w ← get; if w.initialized then pure tt else network_init >>= λ _. pure tt

-- `fresh` is what `calloc` returns. The descriptor is taken before the allocation.
abbrev pub open_socket : ℕ → Ptr → ℤ → ℤ → ℤ → Cmd ℤ
open_socket fuel fresh domain type protocol = do
  w ← get
  put (record w { next_fd = w.next_fd + 1 })
  if fresh == null then pure (negsuc 0) else do
    lo ← find fuel (some (codes "lo"))
    store_socket fresh (
        some (record {
          family = domain;
          type = type;
          protocol = protocol;
          state = 0;
          flags = 0;
          dev = lo;
        }))
    v ← get
    put (record v { table = set v.table w.next_fd fresh })
    pure (pos w.next_fd)

unfoldable pub socket : ℕ → Ptr → ℤ → ℤ → ℤ → Cmd ℤ
unfolding network_init find
socket fuel fresh domain type protocol = do
  init_once
  if not (known_domain domain) || not (known_type type) then pure (negsuc 0) else do
    w ← get
    if leb table_size w.next_fd
        then pure (negsuc 0)
        else open_socket fuel fresh domain type protocol

-- A call that looks the descriptor up and, where there is a socket, returns `code`: `nova_bind`,
-- `nova_getsockopt` and `nova_setsockopt` with 0, `nova_accept` with -1.
abbrev pub only_check : ℤ → ℤ → Cmd ℤ
only_check code fd = do p ← lookup fd; if p == null then pure (negsuc 0) else pure code

unfoldable pub bind : ℤ → Cmd ℤ
unfolding lookup
bind fd = only_check (pos 0) fd

unfoldable pub accept : ℤ → Cmd ℤ
unfolding lookup
accept fd = only_check (negsuc 0) fd

unfoldable pub getsockopt : ℤ → Cmd ℤ
unfolding lookup
getsockopt fd = only_check (pos 0) fd

unfoldable pub setsockopt : ℤ → Cmd ℤ
unfolding lookup
setsockopt fd = only_check (pos 0) fd

-- `sock->dev` after the search that is made where it is NULL
abbrev pub device_of : ℕ → Ptr → Cmd Ptr
device_of fuel p = do
  s ← load_socket p
  if not (s.dev == null) then pure s.dev else do
    lo ← find fuel (some (codes "lo"))
    store_socket p (some (record s { dev = lo }))
    pure lo

abbrev pub set_socket_state : ℕ → Ptr → Cmd (Unit {0})
set_socket_state state p = do s ← load_socket p; store_socket p (some (record s { state = state }))

unfoldable pub connect : ℕ → ℤ → Cmd ℤ
unfolding lookup find
connect fuel fd = do
  p ← lookup fd
  if p == null then pure (negsuc 0) else do set_socket_state 1 p; _ ← device_of fuel p; pure (pos 0)

unfoldable pub listen : ℤ → Cmd ℤ
unfolding lookup
listen fd = do
  p ← lookup fd
  if p == null then pure (negsuc 0) else do set_socket_state 2 p; pure (pos 0)

unfoldable pub shutdown : ℤ → Cmd ℤ
unfolding lookup
shutdown fd = do
  p ← lookup fd
  if p == null then pure (negsuc 0) else do set_socket_state 0 p; pure (pos 0)

-- `g_socket_table[sockfd] = NULL`
abbrev pub clear_slot : List Ptr → Option ℕ → List Ptr
clear_slot table none = table
clear_slot table (some n) = set table n null

unfoldable pub close : ℤ → Cmd ℤ
unfolding lookup
close fd = do
  p ← lookup fd
  if p == null then pure (negsuc 0) else do
    _ ← load_socket p
    store_socket p none
    w ← get
    put (record w { table = clear_slot w.table (slot_of fd) })
    pure (pos 0)

-- `buf == NULL || len == 0`
abbrev pub no_data : Option (List ℕ) → ℕ → Bool
no_data none len = true
no_data (some b) len = len == 0

abbrev pub bytes_of : Option (List ℕ) → List ℕ
bytes_of none = List.[]
bytes_of (some b) = b

-- The packet is queued, and freed where that fails.
unfoldable pub queue_packet : Ptr → ℕ → Cmd ℤ
unfolding free_skb dev_queue_xmit
queue_packet p len = do
  code ← dev_queue_xmit p
  elim code [
    | pos zero ↦ pure (pos len)
    | pos (suc n) ↦ (do free_skb p; pure (negsuc 0))
    | negsuc n ↦ (do free_skb p; pure (negsuc 0))
  ]

-- A new packet with the first `len` bytes of the buffer, which holds as many.
unfoldable pub send_packet : Ptr → Bool → Ptr → List ℕ → ℕ → Cmd ℤ
unfolding alloc_skb
send_packet fresh data_ok dev bytes len = do
  p ← alloc_skb fresh data_ok len
  if p == null then pure (negsuc 0) else do
    s ← load_skb p
    store_skb p
        (some (record s { bytes = take len bytes ++ drop len s.bytes; len = len; dev = dev }))
    queue_packet p len

-- `fresh` and `data_ok` are what the allocations of `nova_alloc_skb` return. A length is below 2^63.
unfoldable pub send : ℕ → Ptr → Bool → ℤ → Option (List ℕ) → ℕ → Cmd ℤ
unfolding lookup find send_packet queue_packet
send fuel fresh data_ok fd buf len = do
  p ← lookup fd
  if (p == null) || no_data buf len then pure (negsuc 0) else do
    dev ← device_of fuel p
    if dev == null then pure (negsuc 0) else do
      d ← load_dev dev
      elim (xmit_of d) [
        | none ↦ pure (negsuc 0)
        | some f ↦ send_packet fresh data_ok dev (bytes_of buf) len
      ]

-- The option is what is written through `buf`.
unfoldable pub recv : ℤ → Bool → ℕ → Cmd (ℤ × Option (List ℕ))
unfolding lookup
recv fd buf_given len = do
  p ← lookup fd
  if (p == null) || (not buf_given || (len == 0))
      then pure (negsuc 0, none)
      else pure (pos len, some (replicate len 0))
