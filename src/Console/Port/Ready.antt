-- ===== src/Console/Port/Ready.antt =====
-- What a command writes to the data register, whenever the port becomes ready.
use Prim.Native.Nat.{bit_and}
use mathlib.Core.List.{map-append}
use nova.Base.{
  ℕ, zero, suc, ◌+◌, ◌<◌, ◌≡◌, refl, sym, ap, ◌∙◌, inl, inr, Bool, true, false, some, List, [], ◌∷◌,
  ◌++◌, map, append_assoc, append-nil, arith, ◌==◌, Bool-cases,
}
use nova.Console.Port.{
  Uart, Machine, Cmd, pure, ◌>>=◌, ◌>>◌, com1, wait, putc_once, carriage_return, serial_putc,
}

-- The transmitter is never busy for `fuel` readings in a row.
abbrev pub Patient : Uart → ℕ → Type 0
Patient u fuel = (t : ℕ) → (j : ℕ) × (j < fuel) × ((bit_and (u.status (t + j)) 0x20 == 0) ≡ false)

abbrev pub to_com1 : ℕ → ℕ × ℕ
to_com1 c = (com1, c)

-- The machine after `reads` more status readings and the bytes `out` written to the data register.
abbrev pub after : Machine → ℕ → List ℕ → Machine
after m reads out = record m {
  status_reads = m.status_reads + reads;
  sent = m.sent ++ map to_com1 out;
}

-- The command ends, writes `out` to the data register, and changes nothing else.
abbrev pub Writes : Cmd (Unit {0}) → Machine → List ℕ → Type 0
Writes c m out = (reads : ℕ) × (c m ≡ some (tt, after m reads out))

after-after :
    (m : Machine) (r r' : ℕ) (a b : List ℕ) → after (after m r a) r' b ≡ after m (r + r') (a ++ b)
after-after m r r' a b =
    ap (λ n. record m { status_reads = n; sent = (after (after m r a) r' b).sent }) (omega arith)
    ∙ ap (λ s. record m { status_reads = m.status_reads + (r + r'); sent = s })
        (append_assoc m.sent (map to_com1 a) (map to_com1 b)
          ∙ ap (λ t. m.sent ++ t) (sym (map-append to_com1 a b)))

pub pure-Writes : (m : Machine) → Writes (pure tt) m []
pure-Writes m = (
  0,
  ap (λ s. some (tt, record m { sent = s })) (sym (append-nil m.sent))
      ∙ ap (λ n. some (tt, record m { status_reads = n; sent = m.sent ++ [] })) (omega arith),
)

pub bind-Writes :
    (c d : Cmd (Unit {0})) (m : Machine) (a b : List ℕ)
    → Writes c m a
    → ((reads : ℕ) → Writes d (after m reads a) b)
    → Writes (c >> d) m (a ++ b)
bind-Writes c d m a b (r, e) next =
    let (r', f) = next r in
    (r + r', rw (e, ◌>>=◌) (f ∙ ap (λ v. some (tt, v)) (after-after m r r' a b)))

wait_busy :
    (u : Uart) (fuel : ℕ) (m : Machine)
    → (bit_and (u.status m.status_reads) 0x20 == 0) ≡ true
    → wait u (suc fuel) m ≡ wait u fuel (record m { status_reads = m.status_reads + 1 })
unfolding wait
wait_busy u fuel m e = rw (e, wait)

wait_ready :
    (u : Uart) (fuel : ℕ) (m : Machine)
    → (bit_and (u.status m.status_reads) 0x20 == 0) ≡ false
    → wait u (suc fuel) m ≡ some (tt, record m { status_reads = m.status_reads + 1 })
unfolding wait
wait_ready u fuel m e = rw (e, wait)

wait_lem :
    (u : Uart) (fuel j : ℕ) (m : Machine) (t : ℕ)
    → j < fuel
    → m.status_reads + j ≡ t
    → (bit_and (u.status t) 0x20 == 0) ≡ false
    → (n : ℕ) × (wait u fuel m ≡ some (tt, record m { status_reads = m.status_reads + n }))
wait_lem u zero j m t h a e = absurd (omega arith)
wait_lem u (suc fuel) zero m t h a e =
    let now : m.status_reads ≡ t = omega arith in (1, wait_ready u fuel m (rw now e))
wait_lem u (suc fuel) (suc j) m t h a e =
    elim (Bool-cases (bit_and (u.status m.status_reads) 0x20 == 0)) [
      | inl busy ↦
          let (r, f) =
            wait_lem u fuel j (record m { status_reads = m.status_reads + 1 }) t (omega arith)
              (omega arith) e in
          (
            suc r,
            wait_busy u fuel m busy
                ∙ f
                ∙ ap (λ n. some (tt, record m { status_reads = n })) (omega arith),
          )
      | inr ready ↦ (1, wait_ready u fuel m ready)
    ]

putc_once-Writes :
    (u : Uart) (fuel : ℕ)
    → Patient u fuel
    → (c : ℕ) (m : Machine) → Writes (putc_once u fuel c) m (c ∷ [])
unfolding putc_once
putc_once-Writes u fuel p c m =
    let (j, h, e) = p m.status_reads in
    let (r, f) = wait_lem u fuel j m (m.status_reads + j) h refl e in (r, rw (f, putc_once, ◌>>=◌))

-- what follows a character that is a newline, or is none
abbrev pub wire_tail : Bool → List ℕ
wire_tail true = b'\r' ∷ []
wire_tail false = []

-- the bytes on the line for a text: each newline is followed by a carriage return
abbrev pub wire : List ℕ → List ℕ
wire [] = []
wire (c ∷ cs) = c ∷ (wire_tail (c == b'\n') ++ wire cs)

carriage_return-Writes :
    (u : Uart) (fuel : ℕ)
    → Patient u fuel
    → (b : Bool) (m : Machine) → Writes (carriage_return u fuel b) m (wire_tail b)
unfolding carriage_return
carriage_return-Writes u fuel p true m = putc_once-Writes u fuel p b'\r' m
carriage_return-Writes u fuel p false m = pure-Writes m

pub serial_putc-Writes :
    (u : Uart) (fuel : ℕ)
    → Patient u fuel
    → (c : ℕ) (m : Machine) → Writes (serial_putc u fuel c) m (c ∷ wire_tail (c == b'\n'))
unfolding serial_putc
serial_putc-Writes u fuel p c m =
    bind-Writes (putc_once u fuel c) (carriage_return u fuel (c == b'\n')) m (c ∷ [])
      (wire_tail (c == b'\n')) (putc_once-Writes u fuel p c m)
      (λ n. carriage_return-Writes u fuel p (c == b'\n') (after m n (c ∷ [])))

pub wire-append : (a b : List ℕ) → wire (a ++ b) ≡ wire a ++ wire b
wire-append [] b = refl
wire-append (c ∷ cs) b =
    ap (λ t. c ∷ t)
      (ap (λ t. wire_tail (c == b'\n') ++ t) (wire-append cs b)
        ∙ sym (append_assoc (wire_tail (c == b'\n')) (wire cs) (wire b)))
