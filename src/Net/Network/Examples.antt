-- ===== src/Net/Network/Examples.antt =====
-- A run of the network stack from its static state.
use nova.Base.{◌≡◌, refl, false, true, none, some, List, [], ◌∷◌, arith, replicate}
use nova.Base.Words.{pos, negsuc}
use nova.Base.CString.{codes}
use nova.Net.State.{null, World}
use nova.Net.Packets.{
  alloc_skb, free_skb, netif_receive_skb, lo_xmit, nic_xmit, dev_queue_xmit, call_open,
}
use nova.Net.Devices.{
  find_from, find, insert, register, remove, unregister_from, unregister, unlink_all,
  network_shutdown, loopback_init, nic_stub_init,
}
use nova.Net.Devices.Chain.{stop}
use nova.Net.Sockets.{
  lookup, network_init, socket, bind, connect, listen, close, queue_packet, send_packet, send, recv,
}
use nova.Net.Sockets.Inv.{empty-IsValid, get_or-replicate}
use nova.Net.Network.{run, Shows}
use nova.Net.Network.Reference.{
  Call, start, halt, drop_device, load_loopback, load_nic, find_device, open_socket, bind_to,
  connect_to, listen_on, close_socket, send_on, receive_on, code, address, received, Network,
  replies,
}
use nova.Net.Network.Session.{run-replies}

abbrev boot : World
boot = record {
  devices = λ p. none;
  skbs = λ p. none;
  sockets = λ p. none;
  registry = null;
  table = replicate 64 null;
  next_fd = 1;
  initialized = false;
}

abbrev nothing : Network
nothing = record { infos = λ p. none; listed = []; sockets = λ i. none; next_fd = 1; up = false }

boot-Shows : Shows boot nothing
boot-Shows = record {
  chain = stop;
  devices = λ p. refl;
  valid = empty-IsValid boot refl refl;
  sockets = λ i. rw (get_or-replicate 64 i);
  reach = λ i s e. cc;
  next = refl;
  up = refl;
}

-- `lo_dev` is at 100, `nic_dev` at 101.
abbrev calls : List Call
calls =
    start
    ∷ load_loopback 100
    ∷ open_socket 300 (pos 2) (pos 1) (pos 6)
    ∷ bind_to (pos 1)
    ∷ connect_to (pos 1)
    ∷ send_on 400 true (pos 1) (some (7 ∷ 8 ∷ 9 ∷ [])) 2
    ∷ load_nic 101
    ∷ load_nic 101
    ∷ find_device (some (codes "nic0"))
    ∷ find_device (some (codes "lo"))
    ∷ drop_device 101
    ∷ listen_on (pos 1)
    ∷ close_socket (pos 1)
    ∷ close_socket (pos 1)
    ∷ receive_on (pos 1) true 4
    ∷ halt
    ∷ open_socket null (pos 2) (pos 1) (pos 6)
    ∷ open_socket 301 (pos 2) (pos 1) (pos 6)
    ∷ []

-- The second `nova_nic_stub_init` cuts off the loopback device, which was behind the NIC.
answers_of_the_network :
    (replies calls nothing).0
    ≡ code (pos 0)
      ∷ code (pos 0)
      ∷ code (pos 1)
      ∷ code (pos 0)
      ∷ code (pos 0)
      ∷ code (pos 2)
      ∷ code (pos 0)
      ∷ code (negsuc 0)
      ∷ address 101
      ∷ address null
      ∷ code (pos 0)
      ∷ code (pos 0)
      ∷ code (pos 0)
      ∷ code (negsuc 0)
      ∷ received (negsuc 0, none)
      ∷ code (pos 0)
      ∷ code (negsuc 0)
      ∷ code (pos 2)
      ∷ []
answers_of_the_network = refl

run-replies_example :
    (v : World) × (run 20 calls boot ≡ some ((replies calls nothing).0, v))
    × Shows v (replies calls nothing).1
unfolding alloc_skb free_skb netif_receive_skb lo_xmit nic_xmit dev_queue_xmit call_open find_from
    find insert register remove unregister_from unregister unlink_all network_shutdown loopback_init
    nic_stub_init lookup network_init socket bind connect listen close queue_packet send_packet send
    recv
run-replies_example = run-replies boot nothing calls 20 boot-Shows refl (omega arith)
