-- ===== src/Net/Examples.antt =====
-- Tests of the network stack, and its theorems at concrete devices, packets and sockets.
use nova.Base.{
  ◌≡◌, refl, ◌≢◌, ◌⊎◌, inr, true, false, Option, none, some, [], ◌∷◌, arith, replicate, map,
}
use nova.Base.Words.{ℤ, pos, negsuc}
use nova.Base.CString.{codes}
use nova.Net.ByteOrder.{htonl, htons, ntohl, ntohs}
use nova.Net.ByteOrder.Bytes.{short, long, ntohl-htonl}
use nova.Net.State.{XmitFn, lo_start_xmit, nic_start_xmit, Ptr, null, NetDevice, Skb, World, update}
use nova.Net.Packets.{new_skb, dev_queue_xmit}
use nova.Net.Packets.Laws.{looped, gone_out, Transmits, dev_queue_xmit-cases}
use nova.Net.Devices.{unregister, find, register, fresh_lo, fresh_nic}
use nova.Net.Devices.Chain.{Chain, has, stop, link, first_named}
use nova.Net.Devices.Find.{find-first_named}
use nova.Net.Devices.Edit.{Nameless, linked, register-cases}
use nova.Net.Devices.Unlink.{without, unlinked}
use nova.Net.Devices.Unregister.{unregister-cases}
use nova.Net.Sockets.{send, socket, close, entry}
use nova.Net.Sockets.Inv.{IsValid, empty-IsValid}
use nova.Net.Sockets.Open.{new_socket, with_socket, lo_of}
use nova.Net.Sockets.OpenInv.{with_socket-IsValid, socket-IsValid}
use nova.Net.Sockets.Send.{packet, send_lem}
use nova.Net.Sockets.Close.{close-cases}

swaps_the_bytes :
    map htonl (0x12345678 ∷ 0xFF ∷ 0xFFFFFFFF ∷ []) ≡ 0x78563412 ∷ 0xFF000000 ∷ 0xFFFFFFFF ∷ []
unfolding htonl
swaps_the_bytes = refl

swaps_the_bytes_of_a_short : map htons (0x1234 ∷ 0xFF ∷ []) ≡ 0x3412 ∷ 0xFF00 ∷ []
unfolding htons
swaps_the_bytes_of_a_short = refl

swaps_back : (ntohl (htonl 0xC0A80001) ≡ 0xC0A80001) × (ntohs (htons 8080) ≡ 8080)
unfolding htonl htons ntohl ntohs
swaps_back = (refl, refl)

-- The objects `lo_dev` and `nic_dev` have the addresses 100 and 101, a packet for each of them the
-- addresses 200 and 201.
abbrev lo_packet : Skb
lo_packet = record (new_skb 3) { dev = 100 }

abbrev nic_packet : Skb
nic_packet = record (new_skb 5) { dev = 101 }

abbrev small_world : World
small_world = record {
  devices = update (update (λ p. none) 100 (some fresh_lo)) 101 (some fresh_nic);
  skbs = update (update (λ p. none) 200 (some lo_packet)) 201 (some nic_packet);
  sockets = λ p. none;
  registry = 100;
  table = replicate 64 null;
  next_fd = 1;
  initialized = true;
}

dev_queue_xmit-cases_example :
    (((f : XmitFn) → ¬ Transmits fresh_nic f)
      × (dev_queue_xmit 201 small_world ≡ some (negsuc 0, small_world)))
    ⊎ (Transmits fresh_nic lo_start_xmit
        × (dev_queue_xmit 201 small_world
            ≡ some (
              pos 0,
              record small_world {
                devices =
                    update small_world.devices 101
                      (some (record fresh_nic { stats = looped fresh_nic.stats 5 }));
                skbs = update small_world.skbs 201 (some (record nic_packet { error = 0 }));
              },
            )))
    ⊎ (Transmits fresh_nic nic_start_xmit
        × (dev_queue_xmit 201 small_world
            ≡ some (
              pos 0,
              record small_world {
                devices =
                    update small_world.devices 101
                      (some (record fresh_nic { stats = gone_out fresh_nic.stats 5 }));
                skbs = update small_world.skbs 201 none;
              },
            )))
dev_queue_xmit-cases_example = dev_queue_xmit-cases small_world 201 nic_packet fresh_nic (record {
  packet_at = refl;
  packet_ptr = λ e. omega arith;
  device_at = refl;
  device_ptr = λ e. omega arith;
})

lo_chain : Chain small_world.devices 100 (100 ∷ [])
lo_chain = link (λ e. omega arith) refl refl refl stop

find-first_named_example : find 2 (some (codes "lo")) small_world ≡ some (100, small_world)
find-first_named_example =
    find-first_named small_world (100 ∷ []) 2 (codes "lo") lo_chain (omega arith)

register-cases_example :
    ((Nameless fresh_nic ⊎ (first_named small_world.devices (100 ∷ []) fresh_nic.name ≢ null))
      × (register 2 101 small_world ≡ some (negsuc 0, small_world)))
    ⊎ ((h : Ptr → Option NetDevice) × (first_named small_world.devices (100 ∷ []) fresh_nic.name
          ≡ null)
        × (register 2 101 small_world
            ≡ some (pos 0, record small_world { devices = h; registry = 101 }))
        × Chain h 101 (101 ∷ 100 ∷ [])
        × (h 101 ≡ some (linked fresh_nic 100))
        × ((q : Ptr) → q ≢ 101 → h q ≡ small_world.devices q))
register-cases_example =
    register-cases small_world (100 ∷ []) 2 101 fresh_nic lo_chain (omega arith) (λ e. omega arith)
      refl

unregister-cases_example :
    ((has (100 ∷ []) 100 ≡ false) × (unregister 2 100 small_world ≡ some (negsuc 0, small_world)))
    ⊎ ((g : Ptr → Option NetDevice) × (q : Ptr) × (has (100 ∷ []) 100 ≡ true)
        × (unregister 2 100 small_world
            ≡ some (pos 0, record small_world { devices = g; registry = q }))
        × Chain g q (without (100 ∷ []) 100)
        × (g 100 ≡ unlinked (small_world.devices 100))
        × ((r : Ptr) → unlinked (g r) ≡ unlinked (small_world.devices r)))
unregister-cases_example =
    unregister-cases small_world (100 ∷ []) 2 100 lo_chain (omega arith) (λ e. omega arith)

small_world-IsValid : IsValid small_world
small_world-IsValid = empty-IsValid small_world refl refl

socket-IsValid_example :
    (code : ℤ) × (v : World) × (socket 2 300 (pos 2) (pos 1) (pos 6) small_world ≡ some (code, v))
    × IsValid v
    × ((code ≡ negsuc 0)
        ⊎ ((entry v code ≡ 300)
            × (v.sockets 300
                ≡ some (new_socket (pos 2) (pos 1) (pos 6) (lo_of small_world (100 ∷ []))))))
socket-IsValid_example =
    socket-IsValid small_world (100 ∷ []) 2 300 (pos 2) (pos 1) (pos 6) small_world-IsValid refl
      lo_chain (omega arith) (inr refl)

-- descriptor 1 leads to the socket at 300
abbrev one_socket : World
one_socket = with_socket small_world 300 (new_socket (pos 2) (pos 1) (pos 6) 100)

one_socket-IsValid : IsValid one_socket
one_socket-IsValid =
    with_socket-IsValid small_world 300 (new_socket (pos 2) (pos 1) (pos 6) 100) small_world-IsValid
      (λ e. omega arith) refl (omega arith)

close-cases_example :
    ((entry one_socket (pos 1) ≡ null) × (close (pos 1) one_socket ≡ some (negsuc 0, one_socket)))
    ⊎ ((v : World) × (entry one_socket (pos 1) ≢ null)
        × (close (pos 1) one_socket ≡ some (pos 0, v))
        × IsValid v
        × (v.sockets (entry one_socket (pos 1)) ≡ none)
        × (entry v (pos 1) ≡ null)
        × ((g : ℤ) → g ≢ pos 1 → entry v g ≡ entry one_socket g)
        × (v.next_fd ≡ one_socket.next_fd))
close-cases_example = close-cases one_socket (pos 1) one_socket-IsValid

send_lem_example :
    send 2 400 true (pos 1) (some (7 ∷ 8 ∷ 9 ∷ [])) 2 one_socket
    ≡ some (
      pos 2,
      record one_socket {
        devices =
            update one_socket.devices 100
              (some (record fresh_lo { stats = looped fresh_lo.stats 2 }));
        skbs = update one_socket.skbs 400 (some (packet 100 (7 ∷ 8 ∷ 9 ∷ []) 2));
      },
    )
send_lem_example =
    send_lem one_socket 2 400 (pos 1) (new_socket (pos 2) (pos 1) (pos 6) 100) fresh_lo
      lo_start_xmit (7 ∷ 8 ∷ 9 ∷ []) 2
      (record {
        socket_ptr = λ e. omega arith;
        socket_at = refl;
        device_ptr = λ e. omega arith;
        device_at = refl;
        transmits = refl;
      })
      (λ e. omega arith) (λ e. omega arith)

ntohl-htonl_example :
    (ntohl (htonl 0xC0A80001) ≡ 0xC0A80001)
    × (ntohs (htons 8080) ≡ 8080)
    × (htonl 0xC0A80001 ≡ long 0xC0 0xA8 0 1)
    × (htons 8080 ≡ short 0x1F 0x90)
ntohl-htonl_example = ntohl-htonl 0xC0A80001 8080 (omega arith) (omega arith)
