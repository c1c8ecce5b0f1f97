-- ===== src/Net/Sockets/Open.antt =====
-- What `nova_socket` does to the socket table.
use nova.Base.{
  ℕ, ◌+◌, ◌<◌, ◌≡◌, refl, ◌≢◌, ◌⊎◌, inl, inr, Bool, true, false, not, ◌||◌, some, List, arith,
  length, set, ◌==◌, leb, Bool-cases, ne→==, ==→eq,
}
use nova.Base.Words.{ℤ, pos, negsuc}
use nova.Base.CString.{codes}
use nova.Net.State.{Ptr, null, Socket, World, update, ◌>>=◌}
use nova.Net.Devices.{find, search}
use nova.Net.Devices.Chain.{Chain, first_named}
use nova.Net.Devices.Find.{find_from-first_named}
use nova.Net.Sockets.{table_size, known_domain, known_type, init_once, open_socket, socket}

-- the socket that `nova_socket` makes
abbrev pub new_socket : ℤ → ℤ → ℤ → Ptr → Socket
new_socket domain type protocol lo = record {
  family = domain;
  type = type;
  protocol = protocol;
  state = 0;
  flags = 0;
  dev = lo;
}

abbrev pub with_socket : World → Ptr → Socket → World
with_socket w fresh s = record w {
  sockets = update w.sockets fresh (some s);
  table = set w.table w.next_fd fresh;
  next_fd = w.next_fd + 1;
}

-- The new socket starts on the loopback device, where one is registered.
abbrev pub lo_of : World → List Ptr → Ptr
lo_of w ps = first_named w.devices ps (codes "lo")

-- `nova_socket` returns -1 before it allocates.
abbrev pub refuses : World → ℤ → ℤ → Bool
refuses w domain type =
    (not (known_domain domain) || not (known_type type)) || leb table_size w.next_fd

open_socket_lem :
    (w : World) (ps : List Ptr) (fuel : ℕ) (fresh : Ptr) (domain type protocol : ℤ)
    → fresh ≢ null
    → Chain w.devices w.registry ps
    → length ps < fuel
    → open_socket fuel fresh domain type protocol w
      ≡ some (pos w.next_fd, with_socket w fresh (new_socket domain type protocol (lo_of w ps)))
unfolding find
open_socket_lem w ps fuel fresh domain type protocol n c f =
    rw (ne→== fresh null n, ◌>>=◌) (rw (find_from-first_named fuel (codes "lo") c f, search, ◌>>=◌))

-- On an initialised stack whose devices form a chain, with more fuel than devices, `nova_socket`
-- refuses an unknown domain or type and a used up range of descriptors; a failed allocation loses
-- the next descriptor; else the next descriptor leads to the new socket.
pub socket-cases :
    (w : World) (ps : List Ptr) (fuel : ℕ) (fresh : Ptr) (domain type protocol : ℤ)
    → w.initialized ≡ true
    → Chain w.devices w.registry ps
    → length ps < fuel
    → ((refuses w domain type ≡ true)
        × (socket fuel fresh domain type protocol w ≡ some (negsuc 0, w)))
      ⊎ ((refuses w domain type ≡ false)
          × (fresh ≡ null)
          × (socket fuel fresh domain type protocol w
              ≡ some (negsuc 0, record w { next_fd = w.next_fd + 1 })))
      ⊎ ((refuses w domain type ≡ false)
          × (fresh ≢ null)
          × (socket fuel fresh domain type protocol w
              ≡ some (
                pos w.next_fd,
                with_socket w fresh (new_socket domain type protocol (lo_of w ps)),
              )))
unfolding socket
socket-cases w ps fuel fresh domain type protocol i c f =
    elim (Bool-cases (not (known_domain domain) || not (known_type type))) [
      | inl bad ↦ inl (rw bad, rw (i, socket, init_once, ◌>>=◌) (rw bad refl))
      | inr good ↦ elim (Bool-cases (leb table_size w.next_fd)) [
        | inl full ↦
            inl (rw (good, full), rw (i, socket, init_once, ◌>>=◌) (rw good (rw full refl)))
        | inr room ↦ elim (Bool-cases (fresh == null)) [
          | inl z ↦ inr (
              inl (
                rw (good, room),
                ==→eq fresh null z,
                rw (i, socket, init_once, ◌>>=◌)
                    (rw good (rw room (rw (open_socket, z, ◌>>=◌) refl))),
              ))
          | inr z ↦ inr (
              inr (
                rw (good, room),
                (λ x. ground arith),
                rw (i, socket, init_once, ◌>>=◌)
                    (rw good (
                      rw room (
                        open_socket_lem (record w { initialized = true }) ps fuel fresh domain type
                          protocol (λ x. ground arith) c f))),
              ))
        ]
      ]
    ]
