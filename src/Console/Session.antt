-- ===== src/Console/Session.antt =====
-- The console against its reference: what the loop of `kmain` has sent and what its buffer holds.
use Prim.Native.Nat.{bit_and}
use nova.Base.{
  ℕ, zero, suc, ◌+◌, ◌≡◌, refl, sym, ap, subst, ◌∙◌, inl, inr, Bool, true, false, not, Option, none,
  some, List, [], ◌∷◌, ◌++◌, map, append-nil, arith, length, replicate, ◌==◌, Bool-cases,
}
use nova.Base.Words.{u32}
use nova.Base.CString.{codes}
use nova.Console.Port.{Uart, Machine, ◌>>=◌, com1}
use nova.Console.Port.Ready.{Patient, after, wire, to_com1}
use nova.Console.Calls.Texts.{Prints, and_then, say-Prints, serial_prompt-Prints}
use nova.Console.Shell.{command_size, key_of, handle, receive_if, serial_poll, rounds, greet, kmain}
use nova.Console.Shell.Reference.{edit, shown, pressed, edited, screen}
use nova.Console.Shell.Buffer.{Holds}
use nova.Console.Shell.Keys.{edited_machine, handle-Handled, sent_twice}

-- Bit 0 of the line status register: a byte has come that has not been fetched.
abbrev pub data_ready : Uart → ℕ → Bool
data_ready u t = not (bit_and (u.status t) 0x01 == 0)

-- What the rounds of a session find at the port, from the `t`-th reading of the status on, when the
-- next byte is the `k`-th. A round looks at the status once: it finds no byte where none is ready,
-- and else the next one. After a byte come the readings for the text that is sent for it.
abbrev pub Finds : Uart → ℕ → ℕ → List (Option ℕ) → Type 0
Finds u t k [] = Unit {0}
Finds u t k (none ∷ es) = (data_ready u t ≡ false) × Finds u (t + 1) k es
Finds u t k (some b ∷ es) =
    (data_ready u t ≡ true)
    × (b ≡ u.received k)
    × ((waits : ℕ) × Finds u (t + 1 + waits) (k + 1) es)

-- the machine at the beginning of a round's poll
abbrev ticked : Machine → Machine
ticked m = record m { ticks = u32 (m.ticks + 1) }

abbrev polled : Machine → Machine
polled m = record m { status_reads = m.status_reads + 1 }

abbrev fetched : Machine → Machine
fetched m = record m { status_reads = m.status_reads + 1; data_reads = m.data_reads + 1 }

-- A session of `n` rounds from `m`, with the line that the buffer holds there.
pub record Follows (u : Uart) (n : ℕ) (m v : Machine) (line : List ℕ) (es : List (Option ℕ))
    : Type 0 where
  pub rounds_made : length es ≡ n
  pub found : Finds u m.status_reads m.data_reads es
  pub line_held : Holds v.command v.command_length (edited line es)
  pub screen_sent : v.sent ≡ m.sent ++ map to_com1 (wire (screen m.ticks line es))

key_of-pressed : (b : ℕ) → key_of b ≡ pressed b
key_of-pressed b = ground arith

module _ (u : Uart) (fuel : ℕ) where
  rounds_step :
      (n : ℕ) (m v : Machine)
      → serial_poll u fuel (ticked m) ≡ some (tt, v)
      → rounds u fuel (suc n) m ≡ rounds u fuel n v
  unfolding rounds
  rounds_step n m v e = rw (e, ◌>>=◌)

  poll_idle :
      (m : Machine)
      → data_ready u m.status_reads ≡ false
      → serial_poll u fuel m ≡ some (tt, polled m)
  unfolding serial_poll
  poll_idle m e = subst (λ b. receive_if u fuel b (polled m) ≡ some (tt, polled m)) (sym e) refl

  poll_byte :
      (m v : Machine)
      → data_ready u m.status_reads ≡ true
      → (let b = u.received m.data_reads in handle u fuel (key_of b) b (fetched m)) ≡ some (tt, v)
      → serial_poll u fuel m ≡ some (tt, v)
  unfolding serial_poll
  poll_byte m v e f = subst (λ b. receive_if u fuel b (polled m) ≡ some (tt, v)) (sym e) f

  module _ (p : Patient u fuel) where
    -- The loop of `kmain` from any machine that holds a line.
    pub rounds_refines :
        (n : ℕ) (m : Machine) (line : List ℕ)
        → Holds m.command m.command_length line
        → (v : Machine) × (es : List (Option ℕ)) × (rounds u fuel n m ≡ some (tt, v))
          × Follows u n m v line es
    unfolding rounds
    rounds_refines zero m line h = (
      m,
      [],
      refl,
      record {
        rounds_made = refl;
        found = tt;
        line_held = h;
        screen_sent = sym (append-nil m.sent);
      },
    )
    rounds_refines (suc n) m line h = elim (Bool-cases (data_ready u m.status_reads)) [
      | inl byte ↦
          let b = u.received m.data_reads in
          let t = u32 (m.ticks + 1) in
          let (command, k, holds, (r, f)) =
            handle-Handled u fuel p (pressed b) b (fetched (ticked m)) line (key_of-pressed b) h
              (omega arith) in
          let f' = ap (λ k. handle u fuel k b (fetched (ticked m))) (key_of-pressed b) ∙ f in
          let m' =
            after (edited_machine (fetched (ticked m)) command k) r
              (wire (shown t line (pressed b) b)) in
          let (v, es, run, s) = rounds_refines n m' (edit line (pressed b) b) holds in
          (
            v,
            some b ∷ es,
            rounds_step n m m' (poll_byte (ticked m) m' byte f') ∙ run,
            record {
              rounds_made = omega (arith, s.rounds_made);
              found = (byte, refl, (r, s.found));
              line_held = s.line_held;
              screen_sent =
                  s.screen_sent
                  ∙ sent_twice m.sent (shown t line (pressed b) b)
                      (screen t (edit line (pressed b) b) es);
            },
          )
      | inr idle ↦
          let m' = polled (ticked m) in
          let (v, es, run, s) = rounds_refines n m' line h in
          (
            v,
            none ∷ es,
            rounds_step n m m' (poll_idle (ticked m) idle) ∙ run,
            record {
              rounds_made = omega (arith, s.rounds_made);
              found = (idle, s.found);
              line_held = s.line_held;
              screen_sent = s.screen_sent;
            },
          )
    ]

-- the static variables at boot
abbrev pub booted : Machine
booted = record {
  command = replicate command_size 0;
  command_length = 0;
  ticks = 0;
  status_reads = 0;
  data_reads = 0;
  sent = [];
}

booted-Holds : Holds booted.command 0 []
booted-Holds = record {
  size = refl;
  count = refl;
  room = omega arith;
  rest = booted.command;
  bytes = refl;
  clean = refl;
}

-- what sets the port up: 38400 baud, 8 data bits, no parity, a cleared FIFO
abbrev pub port_setup : List (ℕ × ℕ)
port_setup =
    (com1 + 1, 0x00)
    ∷ (com1 + 3, 0x80)
    ∷ (com1, 0x03)
    ∷ (com1 + 1, 0x00)
    ∷ (com1 + 3, 0x03)
    ∷ (com1 + 2, 0xC7)
    ∷ (com1 + 4, 0x0B)
    ∷ []

abbrev pub greeting : List ℕ
greeting =
    codes "\nNovaOS Phase 3.1 Rapid Kernel booted.\n"
    ++ (codes "QEMU command line online; type help for POSIX and NovaKit commands.\n"
        ++ codes "nova> ")

greet-Prints : (u : Uart) (fuel : ℕ) → Patient u fuel → Prints (greet u fuel) greeting
unfolding greet
greet-Prints u fuel p =
    and_then (say-Prints u fuel p "\nNovaOS Phase 3.1 Rapid Kernel booted.\n" refl) (
      and_then
        (say-Prints u fuel p "QEMU command line online; type help for POSIX and NovaKit commands.\n"
          refl)
        (serial_prompt-Prints u fuel p))

-- If the transmitter is never busy for `fuel` readings in a row, `kmain` gets through any number of
-- rounds, whatever the port gives. After the greeting each round looks at the status register once:
-- it fetches the next byte where bit 0 says that one has come, and none otherwise. What `kmain` has
-- sent is the set-up of the port, the greeting and the reference console's screen for the bytes
-- found in these rounds; its buffer holds the reference console's line.
pub kmain_refines :
    (u : Uart) (fuel n : ℕ)
    → Patient u fuel
    → (v : Machine) × (es : List (Option ℕ)) × (t : ℕ) × (kmain u fuel n booted ≡ some (tt, v))
      × (length es ≡ n)
      × Finds u t 0 es
      × Holds v.command v.command_length (edited [] es)
      × (v.sent ≡ port_setup ++ map to_com1 (wire (greeting ++ screen 0 [] es)))
unfolding kmain
kmain_refines u fuel n p =
    let m = record booted { sent = port_setup } in
    let (r, f) = (greet-Prints u fuel p).run m in
    let m' = after m r (wire greeting) in
    let (v, es, run, s) = rounds_refines u fuel p n m' [] booted-Holds in
    (
      v,
      es,
      0 + r,
      rw (f, ◌>>=◌) run,
      s.rounds_made,
      s.found,
      s.line_held,
      s.screen_sent ∙ sent_twice port_setup greeting (screen 0 [] es),
    )
