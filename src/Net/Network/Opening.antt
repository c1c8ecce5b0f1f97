-- ===== src/Net/Network/Opening.antt =====
-- `nova_socket` on a state that shows a network.
use nova.Base.{
  ℕ, ◌+◌, ◌<◌, ◌≡◌, ◌≢◌, inl, inr, refl, ap, ◌∙◌, Bool, true, false, not, ◌||◌, none, some, length,
  ◌==◌, if◌then◌else◌, arith, Bool-cases, Option-cases, ne→==, eq→==, subst,
}
use nova.Base.Words.{ℤ, pos, negsuc}
use nova.Base.CString.{codes}
use nova.Net.State.{Ptr, null, Socket, World, update, ◌>>=◌}
use nova.Net.Sockets.{table_size, known_domain, known_type, network_init, init_once, socket}
use nova.Net.Sockets.Inv.{IsValid, at_slot}
use nova.Net.Sockets.Open.{new_socket, with_socket, lo_of, socket-cases}
use nova.Net.Sockets.OpenInv.{
  Allocated, slot_cases, not_fresh, refuses_room, lost_fd-IsValid, with_socket-IsValid,
}
use nova.Net.Network.{answered, invoke, is_some, fits, socket_at, HasDevice, Shows, Meets}
use nova.Net.Network.Reference.{
  open_socket, code, Network, started, lo_in, is_family, is_kind, expect_served, expect_open,
  expect,
}
use nova.Net.Network.Devices.{bind-some, answers, first_named-listed, inited, inited-Shows}
use nova.Net.Network.Slots.{reach-update, sockets-update, dev_of}
use nova.Net.Network.Attaching.{first_named-HasDevice}

-- A network counts as the state does.
counted-Shows : (w : World) (n : Network) → Shows w n → Shows w (record n { next_fd = w.next_fd })
counted-Shows w n s = record {
  chain = s.chain;
  devices = s.devices;
  valid = s.valid;
  sockets = s.sockets;
  reach = s.reach;
  next = refl;
  up = s.up;
}

lost-Shows :
    (w : World) (n : Network)
    → Shows w n
    → w.next_fd < table_size
    → Shows (record w { next_fd = w.next_fd + 1 }) (record n { next_fd = w.next_fd + 1 })
lost-Shows w n s room = record {
  chain = s.chain;
  devices = s.devices;
  valid = lost_fd-IsValid w s.valid room;
  sockets = s.sockets;
  reach = s.reach;
  next = refl;
  up = s.up;
}

-- The other slots lead where they did.
new_off :
    (w : World) (fresh : Ptr) (t : Socket)
    → IsValid w
    → w.sockets fresh ≡ none
    → w.next_fd < table_size
    → (j : ℕ) → j ≢ w.next_fd
    → socket_at (with_socket w fresh t) j ≡ socket_at w j
new_off w fresh t v free room j d = elim (slot_cases w fresh t j v room) [
  | inl (e, a) ↦ absurd (d e)
  | inr (e, a) ↦ elim (Bool-cases (at_slot w j == null)) [
    | inl z ↦ rw (a, z)
    | inr z ↦
        let live : at_slot w j ≢ null = λ x. ground (arith, eq→== (at_slot w j) null x, z) in
        rw (a, z, ne→== (at_slot w j) fresh (not_fresh w fresh j v free live))
  ]
]

new_at :
    (w : World) (fresh : Ptr) (t : Socket)
    → IsValid w
    → fresh ≢ null
    → w.next_fd < table_size
    → socket_at (with_socket w fresh t) w.next_fd ≡ some t
new_at w fresh t v n room = elim (slot_cases w fresh t w.next_fd v room) [
  | inl (e, a) ↦ rw (a, ne→== fresh null n, eq→== fresh fresh refl)
  | inr (e, a) ↦ absurd (e refl)
]

new-Shows :
    (w : World) (n : Network) (fresh : Ptr) (t : Socket)
    → Shows w n
    → fresh ≢ null
    → w.sockets fresh ≡ none
    → w.next_fd < table_size
    → HasDevice n.infos t.dev
    → Shows
        (with_socket w fresh t)
        (record n { sockets = update n.sockets w.next_fd (some t); next_fd = w.next_fd + 1 })
new-Shows w n fresh t s m free room h = record {
  chain = s.chain;
  devices = s.devices;
  valid = with_socket-IsValid w fresh t s.valid m free room;
  sockets =
      sockets-update w (with_socket w fresh t) n w.next_fd (some t) s
        (new_at w fresh t s.valid m room) (new_off w fresh t s.valid free room);
  reach =
      reach-update n.infos n.sockets w.next_fd (some t) s.reach
        (λ r e. subst (HasDevice n.infos) (ap dev_of e) h);
  next = refl;
  up = s.up;
}

is_family-known_domain : (domain : ℤ) → known_domain domain ≡ is_family domain
is_family-known_domain (pos n) = ground arith
is_family-known_domain (negsuc n) = refl

is_kind-known_type : (type : ℤ) → known_type type ≡ is_kind type
is_kind-known_type (pos n) = ground arith
is_kind-known_type (negsuc n) = refl

-- On a stack that is initialised.
opening :
    (w : World) (n : Network) (fuel : ℕ) (fresh : Ptr) (domain type protocol : ℤ)
    → Shows w n
    → w.initialized ≡ true
    → length n.listed < fuel
    → Allocated w fresh
    → Meets (answered code (socket fuel fresh domain type protocol)) w (
        expect_served
          (not (known_domain domain) || not (known_type type))
          fresh
          domain
          type
          protocol
          (record n { next_fd = w.next_fd }))
opening w n fuel fresh domain type protocol s i f a =
    let run_it = socket fuel fresh domain type protocol in
    elim (socket-cases w n.listed fuel fresh domain type protocol i s.chain f) [
      | inl (bad, run) ↦ rw bad (
          answers run_it code w (negsuc 0) w (record n { next_fd = w.next_fd }) run
            (counted-Shows w n s))
      | inr (inl (good, z, run)) ↦
          rw (good, eq→== fresh null z)
            (answers run_it code w (negsuc 0) (record w { next_fd = w.next_fd + 1 })
              (record n { next_fd = w.next_fd + 1 }) run
              (lost-Shows w n s (refuses_room w domain type good)))
      | inr (inr (good, m, run)) ↦
          let free : w.sockets fresh ≡ none = elim a [ inl z ↦ absurd (m z) | inr h ↦ h ] in
          let same : lo_of w n.listed ≡ lo_in n = first_named-listed w n (codes "lo") n.listed s in
          let t = new_socket domain type protocol (lo_in n) in
          rw (good, ne→== fresh null m)
            (answers run_it code w (pos w.next_fd) (with_socket w fresh t)
              (record n { sockets = update n.sockets w.next_fd (some t); next_fd = w.next_fd + 1 })
              (run
                ∙ ap
                    (λ p.
                      some (pos w.next_fd, with_socket w fresh (new_socket domain type protocol p)))
                    same)
              (new-Shows w n fresh t s m free (refuses_room w domain type good)
                (first_named-HasDevice n.infos n.listed (codes "lo"))))
    ]

opening_counted :
    (w : World) (n : Network) (fuel : ℕ) (fresh : Ptr) (domain type protocol : ℤ)
    → Shows w n
    → w.initialized ≡ true
    → length n.listed < fuel
    → Allocated w fresh
    → Meets
        (answered code (socket fuel fresh domain type protocol))
        w
        (expect_open fresh domain type protocol n)
opening_counted w n fuel fresh domain type protocol s i f a =
    subst
      (λ b.
        Meets (answered code (socket fuel fresh domain type protocol)) w
          (expect_served b fresh domain type protocol n))
      (ap (λ x. not x || not (known_type type)) (is_family-known_domain domain)
        ∙ ap (λ x. not (is_family domain) || not x) (is_kind-known_type type))
      (subst
        (λ k. Meets (answered code (socket fuel fresh domain type protocol)) w (
          expect_served (not (known_domain domain) || not (known_type type)) fresh domain type
            protocol (record n { next_fd = k })))
        s.next (opening w n fuel fresh domain type protocol s i f a))

-- A stack that is not is initialised first.
init_down : (w : World) → w.initialized ≡ false → init_once w ≡ some (tt, inited w)
unfolding network_init
init_down w e = rw (e, init_once, ◌>>=◌)

socket_down :
    (w : World) (fuel : ℕ) (fresh : Ptr) (domain type protocol : ℤ)
    → w.initialized ≡ false
    → socket fuel fresh domain type protocol w ≡ socket fuel fresh domain type protocol (inited w)
unfolding socket
socket_down w fuel fresh domain type protocol e = bind-some init_once _ w (init_down w e)

of_fits :
    (w : World) (fresh : Ptr)
    → ((fresh == null) || not (is_some (w.sockets fresh))) ≡ true
    → Allocated w fresh
of_fits w fresh a = elim (Option-cases (w.sockets fresh)) [
  | inl e ↦ inr e
  | inr (t, e) ↦ inl (ground (arith, ap is_some e, a))
]

open_at :
    (w : World) (n : Network) (fuel : ℕ) (fresh : Ptr) (domain type protocol : ℤ) (b : Bool)
    → Shows w n
    → w.initialized ≡ b
    → length n.listed < fuel
    → Allocated w fresh
    → Meets
        (answered code (socket fuel fresh domain type protocol))
        w
        (expect_open fresh domain type protocol (if b then n else started n))
open_at w n fuel fresh domain type protocol true s i f a =
    opening_counted w n fuel fresh domain type protocol s i f a
open_at w n fuel fresh domain type protocol false s i f a =
    let (v, run, s') =
      opening_counted (inited w) (started n) fuel fresh domain type protocol (inited-Shows w n s)
        refl (omega arith) a in
    (
      v,
      ap (λ o. elim o [ none ↦ none | some (x, u) ↦ some (code x, u) ])
            (socket_down w fuel fresh domain type protocol i)
          ∙ run,
      s',
    )

pub open-Meets :
    (w : World) (n : Network) (fuel : ℕ) (fresh : Ptr) (domain type protocol : ℤ)
    → Shows w n
    → length n.listed < fuel
    → fits (open_socket fresh domain type protocol) w ≡ true
    → Meets
        (invoke fuel (open_socket fresh domain type protocol))
        w
        (expect (open_socket fresh domain type protocol) n)
open-Meets w n fuel fresh domain type protocol s f a =
    open_at w n fuel fresh domain type protocol n.up s s.up f (of_fits w fresh a)
