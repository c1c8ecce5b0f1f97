-- ===== src/Console/Port.antt =====
-- The state of the console, the serial port's registers, and the bytes that go through them.
-- The port is given by what its registers read as: the n-th reading of the line status register and
-- the n-th of the data register. What is written to a port is kept in order.
pub mod Ready
use Prim.Native.Nat.{bit_and}
use nova.Base.{
  ℕ, zero, suc, ◌+◌, Bool, true, false, Option, none, some, List, [], ◌∷◌, ◌++◌, ◌==◌,
  if◌then◌else◌,
}

pub record Uart : Type 0 where
  pub status : ℕ → ℕ
  pub received : ℕ → ℕ

-- The three static variables, how often each register has been read, and the writes.
pub record Machine : Type 0 where
  pub command : List ℕ
  pub command_length : ℕ
  pub ticks : ℕ
  pub status_reads : ℕ
  pub data_reads : ℕ
  pub sent : List (ℕ × ℕ)

-- `none` is a read outside an array, or a wait that has used up its fuel.
abbrev pub Cmd : Type 0 → Type 0
Cmd A = Machine → Option (A × Machine)

abbrev pub pure : {A : Type 0} → A → Cmd A
pure a m = some (a, m)

infixl 5 ◌>>=◌ ◌>>◌
abbrev pub ◌>>=◌ : {A B : Type 0} → Cmd A → (A → Cmd B) → Cmd B
◌>>=◌ c k m = elim (c m) [ none ↦ none | some (a, m') ↦ k a m' ]

abbrev pub ◌>>◌ : {B : Type 0} → Cmd (Unit {0}) → Cmd B → Cmd B
c >> d = c >>= λ _. d

abbrev pub get : Cmd Machine
get m = some (m, m)

abbrev pub put : Machine → Cmd (Unit {0})
put v m = some (tt, v)

abbrev pub com1 : ℕ
com1 = 0x3F8

unfoldable pub outb : ℕ → ℕ → Cmd (Unit {0})
outb port value m = some (tt, record m { sent = m.sent ++ (port, value) ∷ [] })

unfoldable pub serial_init : Cmd (Unit {0})
unfolding outb
serial_init = do
  outb (com1 + 1) 0x00
  outb (com1 + 3) 0x80
  outb com1 0x03
  outb (com1 + 1) 0x00
  outb (com1 + 3) 0x03
  outb (com1 + 2) 0xC7
  outb (com1 + 4) 0x0B

module _ (u : Uart) where
  -- `inb` of the two registers that the code reads
  unfoldable pub read_status : Cmd ℕ
  read_status m = some (u.status m.status_reads, record m { status_reads = m.status_reads + 1 })

  unfoldable pub read_data : Cmd ℕ
  read_data m = some (u.received m.data_reads, record m { data_reads = m.data_reads + 1 })

  -- the loop of `serial_putc`
  unfoldable pub wait : ℕ → Cmd (Unit {0})
  wait zero m = none
  wait (suc fuel) m = elim (bit_and (u.status m.status_reads) 0x20 == 0) [
    | true ↦ wait fuel (record m { status_reads = m.status_reads + 1 })
    | false ↦ some (tt, record m { status_reads = m.status_reads + 1 })
  ]

  -- the loop and the write of `serial_putc`
  unfoldable pub putc_once : ℕ → ℕ → Cmd (Unit {0})
  unfolding wait outb
  putc_once fuel c = do wait fuel; outb com1 c

  -- `if (value == '\n') serial_putc('\r')`: the character of that call is no newline.
  unfoldable pub carriage_return : ℕ → Bool → Cmd (Unit {0})
  unfolding putc_once
  carriage_return fuel true = putc_once fuel b'\r'
  carriage_return fuel false = pure tt

  unfoldable pub serial_putc : ℕ → ℕ → Cmd (Unit {0})
  unfolding putc_once carriage_return
  serial_putc fuel c = do putc_once fuel c; carriage_return fuel (c == b'\n')
