-- ===== src/Net/Sockets/Send.antt =====
-- What `nova_send` does on an open socket.
use nova.Base.{
  ℕ, zero, suc, ◌≡◌, refl, ap, ◌∙◌, ◌≢◌, true, Option, none, some, List, [], ◌++◌, take, drop,
  replicate, ne→==, eq→==, append-nil,
}
use nova.Base.Words.{ℤ, pos}
use nova.Net.State.{
  Ptr, null, Stats, XmitFn, lo_start_xmit, nic_start_xmit, NetDevice, Skb, Socket, World, update,
  ◌>>=◌, load_dev, load_skb, load_socket,
}
use nova.Net.Packets.{new_skb, alloc_skb, dev_queue_xmit, xmit_of}
use nova.Net.Packets.Laws.{
  Queued, looped, gone_out, dev_queue_xmit-lo, dev_queue_xmit-nic, update_twice,
}
use nova.Net.Sockets.Inv.{lookup_then}
use nova.Net.Sockets.{entry, send, send_packet, queue_packet}

-- The descriptor leads to a socket on a device that transmits by `f`.
pub record Ready (w : World) (fd : ℤ) (s : Socket) (d : NetDevice) (f : XmitFn) : Type 0 where
  pub socket_ptr : entry w fd ≢ null
  pub socket_at : w.sockets (entry w fd) ≡ some s
  pub device_ptr : s.dev ≢ null
  pub device_at : w.devices s.dev ≡ some d
  pub transmits : xmit_of d ≡ some f

-- the packet that is sent
abbrev pub packet : Ptr → List ℕ → ℕ → Skb
packet dev bytes len = record (new_skb len) { bytes = take len bytes; dev = dev }

-- the counters after a transmission by `f`
abbrev pub counted : XmitFn → Stats → ℕ → Stats
counted lo_start_xmit s len = looped s len
counted nic_start_xmit s len = gone_out s len

-- what is left of the packet
abbrev pub kept : XmitFn → Skb → Option Skb
kept lo_start_xmit s = some s
kept nic_start_xmit s = none

abbrev zeros : ℕ → List ℕ
zeros n = replicate n 0

drop-zeros : (n : ℕ) → drop n (zeros n) ≡ []
drop-zeros zero = refl
drop-zeros (suc n) = drop-zeros n

queued_bytes :
    (bytes : List ℕ) (len : ℕ)
    → len ≢ 0
    → take len bytes ++ drop len ((new_skb len).bytes) ≡ take len bytes
queued_bytes bytes len n =
    rw (ne→== len 0 n)
      (ap (λ r. take len bytes ++ r) (drop-zeros len) ∙ append-nil (take len bytes))

abbrev pub with_packet : World → Ptr → Skb → World
with_packet w fresh s = record w { skbs = update w.skbs fresh (some s) }

transmitted :
    (f : XmitFn) (w : World) (fresh : Ptr) (s : Skb) (d : NetDevice)
    → Queued w fresh s d
    → some (record s { error = 0 }) ≡ some s
    → xmit_of d ≡ some f
    → dev_queue_xmit fresh w
      ≡ some (
        pos 0,
        record w {
          devices = update w.devices s.dev (some (record d { stats = counted f d.stats s.len }));
          skbs = update w.skbs fresh (kept f s);
        },
      )
transmitted lo_start_xmit w fresh s d q e x =
    dev_queue_xmit-lo w fresh s d q x
    ∙ ap
        (λ k. some (
          pos 0,
          record w {
            devices = update w.devices s.dev (some (record d { stats = looped d.stats s.len }));
            skbs = update w.skbs fresh k;
          },
        ))
        e
transmitted nic_start_xmit w fresh s d q e x = dev_queue_xmit-nic w fresh s d q x

alloc_skb_lem :
    (w : World) (fresh : Ptr) (len : ℕ)
    → fresh ≢ null
    → alloc_skb fresh true len w ≡ some (fresh, with_packet w fresh (new_skb len))
unfolding alloc_skb
alloc_skb_lem w fresh len n = rw (ne→== fresh null n)

send_start :
    (w : World) (fuel : ℕ) (fresh : Ptr) (fd : ℤ) (s : Socket) (d : NetDevice) (f : XmitFn)
    (bytes : List ℕ) (len : ℕ) (out : Option (ℤ × World))
    → Ready w fd s d f
    → len ≢ 0
    → send_packet fresh true s.dev bytes len w ≡ out
    → send fuel fresh true fd (some bytes) len w ≡ out
unfolding send
send_start w fuel fresh fd s d f bytes len out r z e =
    lookup_then w fd _
    ∙ rw (ne→== (entry w fd) null (r.socket_ptr), ne→== len 0 z)
        (rw
          (
            ne→== (entry w fd) null (r.socket_ptr),
            r.socket_at,
            ne→== s.dev null (r.device_ptr),
            ◌>>=◌,
            load_socket,
          )
          (rw (ne→== s.dev null (r.device_ptr)) (
            rw (ne→== s.dev null (r.device_ptr), r.device_at, ◌>>=◌, load_dev)
              (rw (r.transmits) e))))

queue_packet_lem :
    (f : XmitFn) (w : World) (fresh : Ptr) (s : Skb) (d : NetDevice) (len : ℕ)
    → Queued w fresh s d
    → some (record s { error = 0 }) ≡ some s
    → xmit_of d ≡ some f
    → queue_packet fresh len w
      ≡ some (
        pos len,
        record w {
          devices = update w.devices s.dev (some (record d { stats = counted f d.stats s.len }));
          skbs = update w.skbs fresh (kept f s);
        },
      )
unfolding queue_packet
queue_packet_lem f w fresh s d len q e x = rw (transmitted f w fresh s d q e x, queue_packet, ◌>>=◌)

pub send_packet_lem :
    (w : World) (fresh dev : Ptr) (bytes : List ℕ) (len : ℕ) (d : NetDevice) (f : XmitFn)
    → fresh ≢ null
    → len ≢ 0
    → dev ≢ null
    → w.devices dev ≡ some d
    → xmit_of d ≡ some f
    → send_packet fresh true dev bytes len w
      ≡ some (
        pos len,
        record w {
          devices = update w.devices dev (some (record d { stats = counted f d.stats len }));
          skbs = update w.skbs fresh (kept f (packet dev bytes len));
        },
      )
unfolding send_packet
send_packet_lem w fresh dev bytes len d f n z m a x =
    rw (alloc_skb_lem w fresh len n, send_packet, ◌>>=◌)
      (rw (ne→== fresh null n) (
        rw (ne→== fresh null n, eq→== fresh fresh refl, ◌>>=◌, load_skb)
          (ap
              (λ b. queue_packet fresh len (
                with_packet (with_packet w fresh (new_skb len)) fresh
                  (record (new_skb len) { bytes = b; dev = dev })))
              (queued_bytes bytes len z)
            ∙ ap (λ h. queue_packet fresh len (record w { skbs = h }))
                (update_twice w.skbs fresh (some (new_skb len)) (some s))
            ∙ queue_packet_lem f (with_packet w fresh s) fresh s d len
                (record {
                  packet_at = rw (eq→== fresh fresh refl);
                  packet_ptr = n;
                  device_at = a;
                  device_ptr = m;
                })
                refl x
            ∙ ap (λ h. some (pos len, record w { devices = sent; skbs = h }))
                (update_twice w.skbs fresh (some s) (kept f s)))))
  where
    s : Skb
    s = packet dev bytes len

    sent : Ptr → Option NetDevice
    sent = update w.devices dev (some (record d { stats = counted f d.stats len }))

-- On an open socket whose device transmits, with a packet at `fresh` to be had and at least one byte,
-- `nova_send` returns the length. The device's counters move as its transmission makes them: over
-- loopback the packet with the bytes is left at `fresh`, over the NIC stub nothing is. No socket,
-- descriptor or other device changes.
pub send_lem :
    (w : World) (fuel : ℕ) (fresh : Ptr) (fd : ℤ) (s : Socket) (d : NetDevice) (f : XmitFn)
    (bytes : List ℕ) (len : ℕ)
    → Ready w fd s d f
    → fresh ≢ null
    → len ≢ 0
    → send fuel fresh true fd (some bytes) len w
      ≡ some (
        pos len,
        record w {
          devices = update w.devices s.dev (some (record d { stats = counted f d.stats len }));
          skbs = update w.skbs fresh (kept f (packet s.dev bytes len));
        },
      )
send_lem w fuel fresh fd s d f bytes len r n z =
    send_start w fuel fresh fd s d f bytes len _ r z
      (send_packet_lem w fresh s.dev bytes len d f n z (r.device_ptr) (r.device_at) (r.transmits))
