-- ===== src/Net/Packets.antt =====
-- Packet buffers and transmission (network_stack.c), with the drivers' functions on packets
-- (loopback.c, nic_stub.c).
pub mod Laws
use Prim.Native.Nat.{bit_and, bit_or}
use nova.Base.{ℕ, ◌+◌, Bool, Option, none, some, List, ◌==◌, if◌then◌else◌, replicate}
use nova.Base.Words.{u64, ℤ, pos, negsuc}
use nova.Net.State.{
  Ptr, null, Stats, OpenFn, lo_open, nic_open, XmitFn, lo_start_xmit, nic_start_xmit, DeviceOps,
  NetDevice, Skb, World, Cmd, pure, ◌>>=◌, ◌>>◌, load_dev, store_dev, load_skb, store_skb,
}

abbrev pub new_skb : ℕ → Skb
new_skb size = record {
  bytes = replicate (if size == 0 then 1 else size) 0;
  len = size;
  headroom = 0;
  tailroom = 0;
  dev = null;
  hash = 0;
  protocol = 0;
  priority = 0;
  error = 0;
}

-- `fresh` is what the first `calloc` returns, `data_ok` whether the second succeeds; where it does
-- not, the first block is freed again.
unfoldable pub alloc_skb : Ptr → Bool → ℕ → Cmd Ptr
alloc_skb fresh data_ok size =
    if fresh == null
    then pure null
    else if data_ok
    then (do store_skb fresh (some (new_skb size)); pure fresh)
    else pure null

unfoldable pub free_skb : Ptr → Cmd (Unit {0})
free_skb p = if p == null then pure tt else do s ← load_skb p; store_skb p none

abbrev pub count_rx : Stats → ℕ → Stats
count_rx s len = record s { rx_packets = u64 (s.rx_packets + 1); rx_bytes = u64 (s.rx_bytes + len) }

abbrev pub count_tx : Stats → ℕ → Stats
count_tx s len = record s { tx_packets = u64 (s.tx_packets + 1); tx_bytes = u64 (s.tx_bytes + len) }

-- the update of the receiving device
abbrev pub deliver : Ptr → ℕ → Cmd (Unit {0})
deliver dev len =
    if dev == null
    then pure tt
    else do d ← load_dev dev; store_dev dev (record d { stats = count_rx d.stats len })

unfoldable pub netif_receive_skb : Ptr → Cmd ℤ
netif_receive_skb p = if p == null then pure (negsuc 0) else do
  s ← load_skb p
  deliver s.dev s.len
  store_skb p (some (record s { error = 0 }))
  pure (pos 0)

-- `lo_start_xmit` counts the packet as sent and as received, and hands it to the stack.
unfoldable pub lo_xmit : Ptr → Ptr → Cmd ℤ
unfolding netif_receive_skb
lo_xmit dev skb = if skb == null then pure (negsuc 0) else do
  d ← load_dev dev
  s ← load_skb skb
  store_dev dev (record d { stats = count_rx (count_tx d.stats s.len) s.len })
  _ ← netif_receive_skb skb
  pure (pos 0)

-- `nic_start_xmit` counts the packet as sent and frees it.
unfoldable pub nic_xmit : Ptr → Ptr → Cmd ℤ
unfolding free_skb
nic_xmit dev skb =
    if dev == null then pure (negsuc 0) else if skb == null then pure (negsuc 0) else do
      d ← load_dev dev
      s ← load_skb skb
      store_dev dev (record d { stats = count_tx d.stats s.len })
      free_skb skb
      pure (pos 0)

-- the call through the pointer `start_xmit`
abbrev pub call_xmit : XmitFn → Ptr → Ptr → Cmd ℤ
call_xmit lo_start_xmit dev skb = lo_xmit dev skb
call_xmit nic_start_xmit dev skb = nic_xmit dev skb

-- `ops != NULL && ops->start_xmit != NULL`
abbrev pub xmit_of : NetDevice → Option XmitFn
xmit_of d = elim d.ops [ none ↦ none | some o ↦ o.start_xmit ]

abbrev pub transmit : Option XmitFn → Ptr → Ptr → Cmd ℤ
transmit none dev skb = pure (negsuc 0)
transmit (some f) dev skb = call_xmit f dev skb

unfoldable pub dev_queue_xmit : Ptr → Cmd ℤ
unfolding lo_xmit nic_xmit
dev_queue_xmit p = if p == null then pure (negsuc 0) else do
  s ← load_skb p
  if s.dev == null then pure (negsuc 0) else do d ← load_dev s.dev; transmit (xmit_of d) s.dev p

abbrev pub iff_up : ℕ
iff_up = 0x1

abbrev pub iff_loopback : ℕ
iff_loopback = 0x8

abbrev pub iff_running : ℕ
iff_running = 0x40

-- `lo_open` and `nic_open`, called through the pointer `open`
unfoldable pub call_open : OpenFn → Ptr → Cmd ℤ
call_open lo_open dev = do
  d ← load_dev dev
  store_dev dev (record d { flags = bit_or d.flags (bit_or iff_running iff_loopback) })
  pure (pos 0)
call_open nic_open dev = do
  d ← load_dev dev
  store_dev dev (record d { flags = bit_or d.flags iff_running })
  pure (pos 0)

-- `lo_stop` and `nic_stop`, which are the same: `~NOVA_IFF_RUNNING` as a 32-bit mask
unfoldable pub stop : Ptr → Cmd ℤ
stop dev = do
  d ← load_dev dev
  store_dev dev (record d { flags = bit_and d.flags 0xFFFFFFBF })
  pure (pos 0)

-- `lo_get_stats` and `nic_get_stats`; the option is what goes through `stats`, if that is not NULL.
unfoldable pub get_stats : Ptr → Bool → Cmd (ℤ × Option Stats)
get_stats dev stats_given =
    if dev == null
    then pure (negsuc 0, none)
    else if stats_given
    then (do d ← load_dev dev; pure (pos 0, some d.stats))
    else pure (negsuc 0, none)
