-- ===== src/Net/Sockets/Inv.antt =====
-- The socket table's invariant: its descriptors are below the next one, and each leads to a socket
-- of its own.
use nova.Base.{ℕ, zero, suc, ◌<◌, ◌≤◌, ◌≡◌, refl, ◌≢◌, true, some, arith, length, get_or, replicate}
use nova.Base.Words.{ℤ, pos, negsuc}
use nova.Net.State.{Ptr, null, Socket, World, Cmd, ◌>>=◌}
use nova.Net.Sockets.{table_size, slot_of, entry, inside, lookup}

abbrev pub at_slot : World → ℕ → Ptr
at_slot w i = get_or w.table i null

pub record IsValid (w : World) : Type 0 where
  pub slots : length w.table ≡ table_size
  pub next_in : w.next_fd ≤ table_size
  pub next_pos : 0 < w.next_fd
  pub beyond : (i : ℕ) → w.next_fd ≤ i → at_slot w i ≡ null
  pub live : (i : ℕ) → at_slot w i ≢ null → (s : Socket) × (w.sockets (at_slot w i) ≡ some s)
  pub distinct : (i j : ℕ) → at_slot w i ≢ null → at_slot w i ≡ at_slot w j → i ≡ j

pub slot_of_in : (n : ℕ) → 0 < n → n < table_size → slot_of (pos n) ≡ some n
slot_of_in n a b = ground arith

pub get_or-replicate : (n i : ℕ) → get_or (replicate n null) i null ≡ null
get_or-replicate zero i = refl
get_or-replicate (suc n) zero = refl
get_or-replicate (suc n) (suc i) = get_or-replicate n i

pub empty-IsValid : (w : World) → w.table ≡ replicate table_size null → w.next_fd ≡ 1 → IsValid w
empty-IsValid w t f =
    let empty : (i : ℕ) → at_slot w i ≡ null = λ i. rw t (get_or-replicate table_size i) in
    record {
      slots = rw t;
      next_in = omega arith;
      next_pos = omega arith;
      beyond = λ i h. empty i;
      live = λ i m. absurd (m (empty i));
      distinct = λ i j m e. absurd (m (empty i));
    }

slot_of-inside : (fd : ℤ) → inside (slot_of fd) ≡ true
slot_of-inside (negsuc n) = refl
slot_of-inside (pos n) = ground arith

-- A look-up reads inside the table, whatever the descriptor.
pub lookup_run : (w : World) (fd : ℤ) → lookup fd w ≡ some (entry w fd, w)
unfolding lookup
lookup_run w fd = rw (slot_of-inside fd)

pub lookup_then :
    {A : Type 0} (w : World) (fd : ℤ) (k : Ptr → Cmd A) → (lookup fd >>= k) w ≡ k (entry w fd) w
lookup_then w fd k = rw (◌>>=◌, lookup_run w fd)
