-- ===== src/Net/Sockets/Close.antt =====
-- What `nova_close` does to the socket table.
use nova.Base.{
  ℕ, ◌<◌, ◌≡◌, refl, sym, ap, ◌∙◌, ◌≢◌, ◌⊎◌, inl, inr, none, some, arith, set, ◌==◌, leb,
  Bool-cases, Option-cases, ne→==, eq→==, ==→eq, length-set, get_or-set_self, get_or-set_ne,
}
use nova.Base.Words.{ℤ, pos, negsuc}
use nova.Net.State.{null, Socket, World, update, ◌>>=◌}
use nova.Net.Sockets.{table_size, slot_of, entry, close}
use nova.Net.Sockets.Inv.{IsValid, at_slot, lookup_then}

-- the stack without the socket of slot `i`
abbrev pub without_slot : World → ℕ → World
without_slot w i = record w {
  sockets = update w.sockets (at_slot w i) none;
  table = set w.table i null;
}

in_table : (w : World) (i : ℕ) → IsValid w → at_slot w i ≢ null → i < table_size
in_table w i v m = elim (Bool-cases (leb w.next_fd i)) [
  | inl e ↦ absurd (m (v.beyond i (ground arith)))
  | inr e ↦ ground arith
]

-- The slots after slot `i` has been cleared.
pub cleared_cases :
    (w : World) (i j : ℕ)
    → IsValid w
    → at_slot w i ≢ null
    → ((j ≡ i) × (at_slot (without_slot w i) j ≡ null))
      ⊎ ((j ≢ i) × (at_slot (without_slot w i) j ≡ at_slot w j))
cleared_cases w i j v m = elim (Bool-cases (j == i)) [
  | inl e ↦
      let same = ==→eq j i e in
      inl (same, rw same (get_or-set_self w.table i null null (rw (v.slots) (in_table w i v m))))
  | inr e ↦
      let other : j ≢ i = λ x. ground arith in
      inr (other, get_or-set_ne w.table i j null null (λ x. other (sym x)))
]

pub without_slot-IsValid :
    (w : World) (i : ℕ) → IsValid w → at_slot w i ≢ null → IsValid (without_slot w i)
without_slot-IsValid w i v m = record {
  slots = length-set w.table i null ∙ v.slots;
  next_in = v.next_in;
  next_pos = v.next_pos;
  beyond = λ j h. elim (cleared_cases w i j v m) [ inl (e, a) ↦ a | inr (e, a) ↦ a ∙ v.beyond j h ];
  live = λ j n. elim (cleared_cases w i j v m) [
    | inl (e, a) ↦ absurd (n a)
    | inr (e, a) ↦
        let n' : at_slot w j ≢ null = λ x. n (a ∙ x) in
        let (s, b) = v.live j n' in
        let apart : at_slot w j ≢ at_slot w i = λ x. e (v.distinct j i n' x) in
        (s, rw a (rw (ne→== (at_slot w j) (at_slot w i) apart) b))
  ];
  distinct = λ j k n e. elim (cleared_cases w i j v m) [
    | inl (ej, a) ↦ absurd (n a)
    | inr (ej, a) ↦ elim (cleared_cases w i k v m) [
      | inl (ek, b) ↦ absurd (n (e ∙ b))
      | inr (ek, b) ↦ v.distinct j k (λ x. n (a ∙ x)) (sym a ∙ e ∙ b)
    ]
  ];
}

slot_of_lem : (fd : ℤ) (n : ℕ) → slot_of fd ≡ some n → fd ≡ pos n
slot_of_lem (negsuc k) n e = ground arith
slot_of_lem (pos k) n e = ground arith

pub close_at :
    (w : World) (fd : ℤ) (n : ℕ) (s : Socket)
    → slot_of fd ≡ some n
    → at_slot w n ≢ null
    → w.sockets (at_slot w n) ≡ some s
    → close fd w ≡ some (pos 0, without_slot w n)
unfolding close
close_at w fd n s e m a = lookup_then w fd _ ∙ ground arith

other_entry :
    (w : World) (fd g : ℤ) (n : ℕ)
    → IsValid w
    → slot_of fd ≡ some n
    → at_slot w n ≢ null
    → g ≢ fd
    → entry (without_slot w n) g ≡ entry w g
other_entry w fd g n v e m d = elim (Option-cases (slot_of g)) [
  | inl none_g ↦ rw none_g
  | inr (k, some_g) ↦ elim (cleared_cases w n k v m) [
    | inl (same, a) ↦ absurd (d (slot_of_lem g k some_g ∙ ap pos same ∙ sym (slot_of_lem fd n e)))
    | inr (other, a) ↦ rw some_g a
  ]
]

no_slot : (w : World) (fd : ℤ) → slot_of fd ≡ none → entry w fd ≡ null
no_slot w fd e = rw e

-- On a valid stack `nova_close` returns -1 and changes nothing where the descriptor leads to no
-- socket. Else it returns 0: the stack stays valid, the socket's memory is free, the descriptor leads
-- to no socket any more, all others lead where they did, and the next descriptor is the same as
-- before.
pub close-cases :
    (w : World) (fd : ℤ)
    → IsValid w
    → ((entry w fd ≡ null) × (close fd w ≡ some (negsuc 0, w)))
      ⊎ ((v : World) × (entry w fd ≢ null)
          × (close fd w ≡ some (pos 0, v))
          × IsValid v
          × (v.sockets (entry w fd) ≡ none)
          × (entry v fd ≡ null)
          × ((g : ℤ) → g ≢ fd → entry v g ≡ entry w g)
          × (v.next_fd ≡ w.next_fd))
unfolding close
close-cases w fd v = elim (Option-cases (slot_of fd)) [
  | inl e ↦ inl (rw e, rw (e, close, ◌>>=◌))
  | inr (n, e) ↦ elim (Bool-cases (at_slot w n == null)) [
    | inl z ↦ inl (rw e (==→eq (at_slot w n) null z), lookup_then w fd _ ∙ rw e (rw z))
    | inr z ↦
        let m : at_slot w n ≢ null = λ x. ground arith in
        let (s, a) = v.live n m in
        inr (
          without_slot w n,
          rw e m,
          close_at w fd n s e m a,
          without_slot-IsValid w n v m,
          rw e (rw (eq→== (at_slot w n) (at_slot w n) refl)),
          rw e (get_or-set_self w.table n null null (rw (v.slots) (in_table w n v m))),
          (λ g d. other_entry w fd g n v e m d),
          refl,
        )
  ]
]
