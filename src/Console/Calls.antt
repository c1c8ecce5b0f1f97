-- ===== src/Console/Calls.antt =====
-- The system calls, and what prints text and numbers with them. A text is the memory from its
-- address on, so that the NUL is part of it; `unsigned long` and `size_t` have 32 bits (`-m32`).
pub mod Texts
use mathlib.Core.Option
use Prim.Native.String.{String}
use nova.Base.{
  ℕ, zero, suc, ◌+◌, ◌/◌, ◌%◌, Bool, true, false, Option, none, some, List, [], ◌∷◌, ◌++◌, ◌==◌,
  if◌then◌else◌,
}
use nova.Base.Words.{ℤ, pos, negsuc, to_i32, u32}
use nova.Base.CString.{codes}
use nova.Console.Port.{Uart, Machine, Cmd, pure, ◌>>=◌, ◌>>◌, get, serial_putc}

-- `none` is a walk past the memory that is given.
unfoldable pub nova_strlen : List ℕ → Option ℕ
nova_strlen [] = none
nova_strlen (c ∷ cs) = if c == 0 then some 0 else Option.map suc (nova_strlen cs)

pub record Utsname : Type 0 where
  pub sysname : String
  pub nodename : String
  pub release : String
  pub version : String
  pub machine : String

pub record Task : Type 0 where
  pub pid : ℕ
  pub name : String
  pub state : String

abbrev pub tasks : List Task
tasks =
    record { pid = 0; name = "kernel"; state = "running" }
    ∷ record { pid = 1; name = "init"; state = "ready" }
    ∷ record { pid = 2; name = "novakitd"; state = "ready" }
    ∷ record { pid = 3; name = "shell"; state = "running" }
    ∷ []

abbrev pub nova_uname : Utsname
nova_uname = record {
  sysname = "NovaOS";
  nodename = "qemu0";
  release = "3.1.0-prototype";
  version = "Rapid Kernel Phase 3.1";
  machine = "i386-qemu";
}

-- a string literal in memory
abbrev pub literal : String → List ℕ
literal s = codes s ++ 0 ∷ []

-- the digits of a value in the order in which they are printed; `room` is what is left of the array
unfoldable pub digits : ℕ → ℕ → List ℕ → List ℕ
digits zero value out = out
digits (suc room) value out = elim (value == 0) [
  | true ↦ out
  | false ↦ digits room (value / 10) ((b'0' + value % 10) ∷ out)
]

module _ (u : Uart) (fuel : ℕ) where
  -- the loop of the write call
  unfoldable pub write_bytes : ℕ → List ℕ → Cmd (Unit {0})
  unfolding serial_putc
  write_bytes zero buffer = pure tt
  write_bytes (suc n) [] = λ m. none
  write_bytes (suc n) (c ∷ cs) = do serial_putc u fuel c; write_bytes n cs

  -- `nova_syscall_dispatch`: `arg0` is the memory at the address, and the option what `uname` writes
  -- there.
  unfoldable pub dispatch : ℕ → List ℕ → ℕ → Cmd (ℤ × Option Utsname)
  unfolding write_bytes
  dispatch number arg0 arg1 =
      if number == 1
      then (do write_bytes arg1 arg0; pure (to_i32 arg1, none))
      else if number == 3
      then pure (pos 0, some nova_uname)
      else if number == 4
      then pure (pos 3, none)
      else if number == 5
      then (do m ← get; pure (to_i32 m.ticks, none))
      else pure (negsuc 0, none)

  abbrev pub write_length : Option ℕ → List ℕ → Cmd (Unit {0})
  unfolding dispatch
  write_length none text = λ m. none
  write_length (some n) text = dispatch 1 text n >>= λ _. pure tt

  -- No caller uses the result of `sys_write`.
  unfoldable pub sys_write : List ℕ → Cmd (Unit {0})
  unfolding dispatch nova_strlen write_length
  sys_write text = write_length (nova_strlen text) text

  -- the second loop of `write_unsigned`
  unfoldable pub put_all : List ℕ → Cmd (Unit {0})
  unfolding serial_putc
  put_all [] = pure tt
  put_all (c ∷ cs) = do serial_putc u fuel c; put_all cs

  unfoldable pub write_nonzero : Bool → ℕ → Cmd (Unit {0})
  unfolding serial_putc put_all digits
  write_nonzero true value = serial_putc u fuel b'0'
  write_nonzero false value = put_all (digits 20 value [])

  unfoldable pub write_unsigned : ℕ → Cmd (Unit {0})
  unfolding write_nonzero
  write_unsigned value = write_nonzero (value == 0) value

  abbrev pub say : String → Cmd (Unit {0})
  unfolding sys_write
  say s = sys_write (literal s)

  unfoldable pub serial_prompt : Cmd (Unit {0})
  unfolding sys_write say
  serial_prompt = say "nova> "

  -- the answer of the `uname` call, in `uts`
  abbrev pub show_uname : Option Utsname → Cmd (Unit {0})
  unfolding sys_write say
  show_uname none = pure tt
  show_uname (some uts) = do
    say uts.sysname
    say " "
    say uts.nodename
    say " "
    say uts.release
    say " "
    say uts.version
    say " "
    say uts.machine
    say "\n"

  unfoldable pub print_uname : Cmd (Unit {0})
  unfolding dispatch sys_write say show_uname
  print_uname = do answer ← dispatch 3 [] 0; show_uname answer.1

  unfoldable pub print_tasks : List Task → Cmd (Unit {0})
  unfolding write_unsigned sys_write say
  print_tasks [] = pure tt
  print_tasks (t ∷ ts) = do
    write_unsigned t.pid
    say "   "
    say t.state
    say " "
    say t.name
    say "\n"
    print_tasks ts

  unfoldable pub print_ps : Cmd (Unit {0})
  unfolding print_tasks sys_write say
  print_ps = do say "PID STATE   COMMAND\n"; print_tasks tasks
