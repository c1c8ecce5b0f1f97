-- ===== src/Net/Packets/Laws.antt =====
-- What a transmission does to the device and to the packet.
use mathlib.Core.Path.{fun_ext}
use nova.Base.{
  Option-cases, ap, ◌*◌, ◌∙◌, inl, inr, ℕ, ◌+◌, ◌≡◌, ◌≢◌, ◌⊎◌, Option, none, some, arith,
}
use nova.Base.Words.{u64, pos, negsuc}
use nova.Net.State.{
  Ptr, null, Stats, XmitFn, DeviceOps, lo_start_xmit, nic_start_xmit, NetDevice, Skb, World, update,
}
use nova.Net.Packets.{dev_queue_xmit, xmit_of, count_rx, count_tx}

-- The packet at `p` is addressed to the device at its `dev`.
pub record Queued (w : World) (p : Ptr) (s : Skb) (d : NetDevice) : Type 0 where
  pub packet_at : w.skbs p ≡ some s
  pub packet_ptr : p ≢ null
  pub device_at : w.devices s.dev ≡ some d
  pub device_ptr : s.dev ≢ null

pub update_twice :
    {A : Type 0} (h : Ptr → Option A) (p : Ptr) (u v : Option A)
    → update (update h p u) p v ≡ update h p v
update_twice h p u v = fun_ext λ q. ground arith

-- the counters of a device that has sent a packet to itself, as the code leaves them
abbrev pub looped : Stats → ℕ → Stats
looped s len = record s {
  tx_packets = u64 (s.tx_packets + 1);
  tx_bytes = u64 (s.tx_bytes + len);
  rx_packets = u64 (s.rx_packets + 2);
  rx_bytes = u64 (s.rx_bytes + 2 * len);
}

-- the counters of a device that has sent a packet to a network
abbrev pub gone_out : Stats → ℕ → Stats
gone_out s len = record s { tx_packets = u64 (s.tx_packets + 1); tx_bytes = u64 (s.tx_bytes + len) }

looped_lem : (s : Stats) (len : ℕ) → count_rx (count_rx (count_tx s len) len) len ≡ looped s len
looped_lem s len = ground arith

two_steps :
    (w : World) (p : Ptr) (s : Skb) (d : NetDevice)
    → Queued w p s d
    → xmit_of d ≡ some lo_start_xmit
    → dev_queue_xmit p w
      ≡ some (
        pos 0,
        record w {
          devices =
              update
                (update w.devices s.dev
                  (some (record d { stats = count_rx (count_tx d.stats s.len) s.len })))
                s.dev
                (some
                  (record d { stats = count_rx (count_rx (count_tx d.stats s.len) s.len) s.len }));
          skbs = update w.skbs p (some (record s { error = 0 }));
        },
      )
unfolding dev_queue_xmit
two_steps w p s d q x = ground arith

-- A packet addressed to a device that transmits over loopback is counted once as sent and twice as
-- received, by the driver and by the stack. It is not freed: it stays at its address with its
-- error cleared. Nothing else changes.
pub dev_queue_xmit-lo :
    (w : World) (p : Ptr) (s : Skb) (d : NetDevice)
    → Queued w p s d
    → xmit_of d ≡ some lo_start_xmit
    → dev_queue_xmit p w
      ≡ some (
        pos 0,
        record w {
          devices = update w.devices s.dev (some (record d { stats = looped d.stats s.len }));
          skbs = update w.skbs p (some (record s { error = 0 }));
        },
      )
dev_queue_xmit-lo w p s d q x =
    run_lo
    ∙ ap (λ h. some (pos 0, record w { devices = h; skbs = kept }))
        (update_twice w.devices s.dev (some sent) (some (record d { stats = twice }))
          ∙ ap (λ t. update w.devices s.dev (some (record d { stats = t })))
              (looped_lem d.stats s.len))
  where
    sent : NetDevice
    sent = record d { stats = count_rx (count_tx d.stats s.len) s.len }

    twice : Stats
    twice = count_rx (count_rx (count_tx d.stats s.len) s.len) s.len

    kept : Ptr → Option Skb
    kept = update w.skbs p (some (record s { error = 0 }))

    run_lo :
        dev_queue_xmit p w
        ≡ some (
          pos 0,
          record w {
            devices =
                update
                  (update w.devices s.dev (some sent))
                  s.dev
                  (some (record d { stats = twice }));
            skbs = kept;
          },
        )
    run_lo = two_steps w p s d q x

-- A packet addressed to a device that transmits over the NIC stub is counted as sent, and freed.
-- Nothing else changes.
pub dev_queue_xmit-nic :
    (w : World) (p : Ptr) (s : Skb) (d : NetDevice)
    → Queued w p s d
    → xmit_of d ≡ some nic_start_xmit
    → dev_queue_xmit p w
      ≡ some (
        pos 0,
        record w {
          devices = update w.devices s.dev (some (record d { stats = gone_out d.stats s.len }));
          skbs = update w.skbs p none;
        },
      )
unfolding dev_queue_xmit
dev_queue_xmit-nic w p s d q x = ground arith

-- Without a device, or over one that cannot transmit, nothing is sent and nothing changes.
pub dev_queue_xmit-refused :
    (w : World) (p : Ptr) (s : Skb)
    → w.skbs p ≡ some s
    → p ≢ null
    → (s.dev ≡ null) ⊎ ((d : NetDevice) × (w.devices s.dev ≡ some d) × (xmit_of d ≡ none))
    → dev_queue_xmit p w ≡ some (negsuc 0, w)
unfolding dev_queue_xmit
dev_queue_xmit-refused w p s a n (inl e) = ground arith
dev_queue_xmit-refused w p s a n (inr (d, b, x)) = ground arith

-- The device has the function for transmissions.
abbrev pub Transmits : NetDevice → XmitFn → Type 0
Transmits d f = (o : DeviceOps) × (d.ops ≡ some o) × (o.start_xmit ≡ some f)

Transmits-cases :
    (d : NetDevice)
    → ((xmit_of d ≡ none) × ((f : XmitFn) → ¬ Transmits d f))
      ⊎ ((f : XmitFn) × (xmit_of d ≡ some f) × Transmits d f)
Transmits-cases d = elim (Option-cases (d.ops)) [
  | inl e ↦ inl (rw e, λ f t. cc (e, t.1))
  | inr (o, e) ↦ elim (Option-cases (o.start_xmit)) [
    | inl n ↦ inl (rw e n, λ f t. ground (arith, e, n, t.1, t.2))
    | inr (f, a) ↦ inr (f, rw e a, (o, e, a))
  ]
]

-- What becomes of a packet that is addressed to a device, with each function for transmissions.
-- Without one the call fails and changes nothing. Over loopback the device counts one packet as sent
-- and two as received, and the packet stays at its address, its error cleared. Over the NIC stub the
-- device counts it as sent, and it is freed. Nothing else changes.
pub dev_queue_xmit-cases :
    (w : World) (p : Ptr) (s : Skb) (d : NetDevice)
    → Queued w p s d
    → (((f : XmitFn) → ¬ Transmits d f) × (dev_queue_xmit p w ≡ some (negsuc 0, w)))
      ⊎ (Transmits d lo_start_xmit
          × (dev_queue_xmit p w
              ≡ some (
                pos 0,
                record w {
                  devices =
                      update w.devices s.dev (some (record d { stats = looped d.stats s.len }));
                  skbs = update w.skbs p (some (record s { error = 0 }));
                },
              )))
      ⊎ (Transmits d nic_start_xmit
          × (dev_queue_xmit p w
              ≡ some (
                pos 0,
                record w {
                  devices =
                      update w.devices s.dev (some (record d { stats = gone_out d.stats s.len }));
                  skbs = update w.skbs p none;
                },
              )))
dev_queue_xmit-cases w p s d q = elim (Transmits-cases d) [
  | inl (e, n) ↦
      inl (n, dev_queue_xmit-refused w p s q.packet_at q.packet_ptr (inr (d, q.device_at, e)))
  | inr (lo_start_xmit, e, t) ↦ inr (inl (t, dev_queue_xmit-lo w p s d q e))
  | inr (nic_start_xmit, e, t) ↦ inr (inr (t, dev_queue_xmit-nic w p s d q e))
]
