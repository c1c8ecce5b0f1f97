-- ===== src/Net/Sockets/OpenInv.antt =====
-- `nova_socket` keeps the socket table's invariant.
use nova.Base.{
  sym, ap, ℕ, ◌+◌, ◌<◌, ◌≡◌, refl, ◌∙◌, ◌≢◌, ◌⊎◌, inl, inr, Bool, true, false, not, ◌||◌, none,
  some, List, arith, length, ◌==◌, Bool-cases, ne→==, eq→==, ==→eq, length-set, get_or-set_self,
  get_or-set_ne,
}
use nova.Base.Words.{ℤ, pos, negsuc}
use nova.Net.State.{Ptr, null, Socket, World}
use nova.Net.Devices.Chain.{Chain}
use nova.Net.Sockets.{table_size, slot_ptr, entry, known_domain, known_type, socket}
use nova.Net.Sockets.Inv.{IsValid, at_slot, slot_of_in}
use nova.Net.Sockets.Open.{new_socket, with_socket, lo_of, refuses, socket-cases}

or_right : (b : Bool) {c : Bool} → (b || c) ≡ false → c ≡ false
or_right true e = cc
or_right false e = e

some_ne_none {ℓ} : {A : Type ℓ} {a : A} → some a ≢ none
some_ne_none e = cc

pub not_fresh :
    (w : World) (fresh : Ptr) (i : ℕ)
    → IsValid w
    → w.sockets fresh ≡ none
    → at_slot w i ≢ null
    → at_slot w i ≢ fresh
not_fresh w fresh i v free m e =
    let (t, a) = v.live i m in absurd (some_ne_none (sym (sym free ∙ ap w.sockets (sym e) ∙ a)))

-- the slots after a socket has been entered
pub slot_cases :
    (w : World) (fresh : Ptr) (s : Socket) (i : ℕ)
    → IsValid w
    → w.next_fd < table_size
    → ((i ≡ w.next_fd) × (at_slot (with_socket w fresh s) i ≡ fresh))
      ⊎ ((i ≢ w.next_fd) × (at_slot (with_socket w fresh s) i ≡ at_slot w i))
slot_cases w fresh s i v room = elim (Bool-cases (i == w.next_fd)) [
  | inl e ↦
      let same = ==→eq i w.next_fd e in
      inl (same, rw same (get_or-set_self w.table w.next_fd fresh null (rw (v.slots) room)))
  | inr e ↦
      let other : i ≢ w.next_fd = λ x. ground arith in
      inr (other, get_or-set_ne w.table w.next_fd i fresh null (λ x. other (sym x)))
]

pub with_socket-IsValid :
    (w : World) (fresh : Ptr) (s : Socket)
    → IsValid w
    → fresh ≢ null
    → w.sockets fresh ≡ none
    → w.next_fd < table_size
    → IsValid (with_socket w fresh s)
with_socket-IsValid w fresh s v n free room = record {
  slots = length-set w.table w.next_fd fresh ∙ v.slots;
  next_in = omega arith;
  next_pos = omega arith;
  beyond = λ i h. elim (slot_cases w fresh s i v room) [
    | inl (e, a) ↦ absurd (omega arith)
    | inr (e, a) ↦ a ∙ v.beyond i (omega arith)
  ];
  live = λ i m. elim (slot_cases w fresh s i v room) [
    | inl (e, a) ↦ (s, rw a (rw (eq→== fresh fresh refl)))
    | inr (e, a) ↦
        let m' : at_slot w i ≢ null = λ x. m (a ∙ x) in
        let (t, b) = v.live i m' in
        (t, rw a (rw (ne→== (at_slot w i) fresh (not_fresh w fresh i v free m')) b))
  ];
  distinct = λ i j m e. elim (slot_cases w fresh s i v room) [
    | inl (ei, ai) ↦ elim (slot_cases w fresh s j v room) [
      | inl (ej, aj) ↦ ei ∙ sym ej
      | inr (ej, aj) ↦
          let same : at_slot w j ≡ fresh = sym aj ∙ sym e ∙ ai in
          absurd (not_fresh w fresh j v free (λ x. n (sym same ∙ x)) same)
    ]
    | inr (ei, ai) ↦
        let m' : at_slot w i ≢ null = λ x. m (ai ∙ x) in
        elim (slot_cases w fresh s j v room) [
          | inl (ej, aj) ↦ absurd (not_fresh w fresh i v free m' (sym ai ∙ e ∙ aj))
          | inr (ej, aj) ↦ v.distinct i j m' (sym ai ∙ e ∙ aj)
        ]
  ];
}

pub refuses_room :
    (w : World) (domain type : ℤ) → refuses w domain type ≡ false → w.next_fd < table_size
refuses_room w domain type e =
    let full = or_right (not (known_domain domain) || not (known_type type)) e in ground arith

pub lost_fd-IsValid :
    (w : World)
    → IsValid w
    → w.next_fd < table_size
    → IsValid (record w { next_fd = w.next_fd + 1 })
lost_fd-IsValid w v room = record {
  slots = v.slots;
  next_in = omega arith;
  next_pos = omega arith;
  beyond = λ i h. v.beyond i (omega arith);
  live = v.live;
  distinct = v.distinct;
}

entry_new :
    (w : World) (fresh : Ptr) (s : Socket)
    → IsValid w
    → w.next_fd < table_size
    → entry (with_socket w fresh s) (pos w.next_fd) ≡ fresh
entry_new w fresh s v room = elim (slot_cases w fresh s w.next_fd v room) [
  | inl (e, a) ↦ ap (slot_ptr (with_socket w fresh s)) (slot_of_in w.next_fd v.next_pos room) ∙ a
  | inr (e, a) ↦ absurd (e refl)
]

-- What calloc returns: NULL, or an address that holds no socket.
abbrev pub Allocated : World → Ptr → Type 0
Allocated w fresh = (fresh ≡ null) ⊎ (w.sockets fresh ≡ none)

-- On a valid, initialised stack whose devices form a chain, with more fuel than devices and an
-- allocation that gives NULL or an unused address, `nova_socket` ends in a valid stack whatever its
-- arguments are; it returns -1, or the descriptor of an open socket with its arguments in it.
pub socket-IsValid :
    (w : World) (ps : List Ptr) (fuel : ℕ) (fresh : Ptr) (domain type protocol : ℤ)
    → IsValid w
    → w.initialized ≡ true
    → Chain w.devices w.registry ps
    → length ps < fuel
    → Allocated w fresh
    → (code : ℤ) × (v : World) × (socket fuel fresh domain type protocol w ≡ some (code, v))
      × IsValid v
      × ((code ≡ negsuc 0)
          ⊎ ((entry v code ≡ fresh)
              × (v.sockets fresh ≡ some (new_socket domain type protocol (lo_of w ps)))))
socket-IsValid w ps fuel fresh domain type protocol v i c f a =
    elim (socket-cases w ps fuel fresh domain type protocol i c f) [
      | inl (e, run) ↦ (negsuc 0, w, run, v, inl refl)
      | inr (inl (e, z, run)) ↦ (
        negsuc 0,
        record w { next_fd = w.next_fd + 1 },
        run,
        lost_fd-IsValid w v (refuses_room w domain type e),
        inl refl,
      )
      | inr (inr (e, n, run)) ↦
          let free : w.sockets fresh ≡ none = elim a [ inl z ↦ absurd (n z) | inr h ↦ h ] in
          let room = refuses_room w domain type e in
          let s = new_socket domain type protocol (lo_of w ps) in
          (
            pos w.next_fd,
            with_socket w fresh s,
            run,
            with_socket-IsValid w fresh s v n free room,
            inr (entry_new w fresh s v room, rw (eq→== fresh fresh refl)),
          )
    ]
