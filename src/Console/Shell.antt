-- ===== src/Console/Shell.antt =====
-- The command line: the line editor, the choice of a command, and the loop of `kmain`.
pub mod Reference
pub mod Line
pub mod Answer
pub mod Buffer
pub mod Keys
pub mod Asks
use Prim.Native.Nat.{bit_and}
use Prim.Native.String.{String}
use nova.Base.{
  ℕ, zero, suc, ◌+◌, ◌-◌, Bool, true, false, not, ◌&&◌, ◌||◌, Option, none, some, List, [], ◌∷◌,
  ◌++◌, ◌^◌, ltb, leb, ◌==◌, if◌then◌else◌, length, set, drop,
}
use nova.Base.Words.{ℤ, pos, negsuc, u32}
use nova.Base.CString.{codes}
use nova.Console.Port.{
  Uart, Machine, Cmd, pure, ◌>>=◌, ◌>>◌, get, put, serial_init, read_status, read_data, serial_putc,
}
use nova.Console.Calls.{
  dispatch, sys_write, say, write_unsigned, serial_prompt, print_uname, print_ps,
}

-- the size of `command`
abbrev pub command_size : ℕ
command_size = 160

-- `command[i] = c`
unfoldable pub store : ℕ → ℕ → Cmd (Unit {0})
store i c m = elim (ltb i (length m.command)) [
  | true ↦ some (tt, record m { command = set m.command i c })
  | false ↦ none
]

-- The expected text is given without its NUL. A walk past the end of the array would be a fault;
-- `run_command` has ended the text inside it.
unfoldable pub command_is : List ℕ → List ℕ → Bool
command_is [] [] = false
command_is [] (c ∷ cs) = c == 0
command_is (e ∷ es) [] = false
command_is (e ∷ es) (c ∷ cs) = (c == e) && command_is es cs

unfoldable pub starts_with : List ℕ → List ℕ → Bool
starts_with text [] = true
starts_with [] (p ∷ ps) = false
starts_with (c ∷ cs) (p ∷ ps) = (c == p) && starts_with cs ps

-- the branches of `run_command`
pub data Choice : Type 0 where
  help info uname ps echo syscalls devices posix clear uptime unknown nothing : Choice

-- The ladder of tests: on a whole command, on the prefix `echo `, and on an empty line.
abbrev pub ladder : (String → Bool) → Bool → Bool → Choice
ladder is prefixed empty =
    if is "help"
    then help
    else if is "info"
    then info
    else if is "uname"
    then uname
    else if is "ps"
    then ps
    else if prefixed
    then echo
    else if is "syscalls"
    then syscalls
    else if is "devices"
    then devices
    else if is "posix"
    then posix
    else if is "clear"
    then clear
    else if is "uptime"
    then uptime
    else if not empty
    then unknown
    else nothing

unfoldable pub choose : List ℕ → ℕ → Choice
unfolding command_is starts_with
choose command n =
    ladder (λ s. command_is (codes s) command) (starts_with command (codes "echo ")) (n == 0)

abbrev pub help_text : String
help_text = "commands: help, info, uname, ps, echo, syscalls, devices, posix, clear, uptime\n"

abbrev pub syscalls_text : String
syscalls_text =
    "implemented syscall ABI: write, uname, getpid, uptime; planned: open/read/close/fork/exec/wait\n"

abbrev pub devices_text : String
devices_text =
    "novakit registry: console0(com1), cpu0(qemu), bus0(multiboot), blk0(virtio planned)\n"

abbrev pub posix_text : String
posix_text =
    "POSIX status: command names and uname/getpid/write semantics are present; full POSIX requires BSD VFS/process integration.\n"

-- `\033[2J\033[H`
abbrev pub clear_text : List ℕ
clear_text = 27 ∷ (codes "[2J" ++ 27 ∷ codes "[H")

-- `\b \b`
abbrev pub erase_text : List ℕ
erase_text = 0x08 ∷ b' ' ∷ 0x08 ∷ []

-- the cast of a `long` to `unsigned long`
abbrev pub of_long : ℤ → ℕ
of_long (pos n) = n
of_long (negsuc n) = 2 ^ 32 - 1 - n

-- what a received byte is: the tests of `serial_poll`
pub data Key : Type 0 where
  enter erase character other : Key

abbrev pub key_of : ℕ → Key
key_of value =
    if (value == b'\r') || (value == b'\n')
    then enter
    else if (value == 0x08) || (value == 0x7F)
    then erase
    else if leb 0x20 value && leb value 0x7E
    then character
    else other

module _ (u : Uart) (fuel : ℕ) where
  -- the body of each branch of `run_command`
  unfoldable pub perform : Choice → Cmd (Unit {0})
  unfolding sys_write print_uname print_ps write_unsigned dispatch
  perform help = say u fuel help_text
  perform info = do
    say u fuel "NovaOS Phase 3.1 Rapid Kernel prototype\n"
    say u fuel "hybrid layers: microkernel core, BSD/POSIX personality, NovaKit drivers\n"
    say u fuel "boot: Multiboot kernel with serial command line in QEMU\n"
  perform uname = print_uname u fuel
  perform ps = print_ps u fuel
  perform echo = do m ← get; sys_write u fuel (drop 5 m.command); say u fuel "\n"
  perform syscalls = say u fuel syscalls_text
  perform devices = say u fuel devices_text
  perform posix = say u fuel posix_text
  perform clear = sys_write u fuel (clear_text ++ 0 ∷ [])
  perform uptime = do
    say u fuel "uptime ticks: "
    answer ← dispatch u fuel 5 [] 0
    write_unsigned u fuel (of_long answer.0)
    say u fuel "\n"
  perform unknown = say u fuel "unknown command; use help\n"
  perform nothing = pure tt

  -- `run_command` before and after its branches
  unfoldable pub end_line : Cmd (Unit {0})
  unfolding store serial_putc
  end_line = do m ← get; store m.command_length 0; serial_putc u fuel b'\n'

  unfoldable pub new_line : Cmd (Unit {0})
  unfolding serial_prompt
  new_line = do m ← get; put (record m { command_length = 0 }); serial_prompt u fuel

  unfoldable pub run_command : Cmd (Unit {0})
  unfolding end_line choose perform new_line
  run_command = do end_line; m ← get; perform (choose m.command m.command_length); new_line

  abbrev pub erase_last : Bool → ℕ → Cmd (Unit {0})
  unfolding sys_write
  erase_last true n = pure tt
  erase_last false n = do
    m ← get
    put (record m { command_length = n - 1 })
    sys_write u fuel (erase_text ++ 0 ∷ [])

  unfoldable pub serial_backspace : Cmd (Unit {0})
  unfolding erase_last
  serial_backspace = do m ← get; erase_last (m.command_length == 0) m.command_length

  -- the last branch of `serial_poll`, where there is room and where there is none
  abbrev pub accept : Bool → ℕ → Cmd (Unit {0})
  unfolding store serial_putc
  accept false value = pure tt
  accept true value = do
    m ← get
    store m.command_length value
    v ← get
    put (record v { command_length = m.command_length + 1 })
    serial_putc u fuel value

  unfoldable pub handle : Key → ℕ → Cmd (Unit {0})
  unfolding run_command serial_backspace accept
  handle enter value = run_command
  handle erase value = serial_backspace
  handle character value = do m ← get; accept (ltb m.command_length (command_size - 1)) value
  handle other value = pure tt

  abbrev pub receive_if : Bool → Cmd (Unit {0})
  receive_if false = pure tt
  receive_if true = do value ← read_data u; handle (key_of value) value

  unfoldable pub serial_poll : Cmd (Unit {0})
  unfolding read_status read_data handle
  serial_poll = do status ← read_status u; receive_if (not (bit_and status 0x01 == 0))

  -- `n` rounds of the loop of `kmain`
  unfoldable pub rounds : ℕ → Cmd (Unit {0})
  rounds zero = pure tt
  rounds (suc n) = do m ← get; put (record m { ticks = u32 (m.ticks + 1) }); serial_poll; rounds n

  unfoldable pub greet : Cmd (Unit {0})
  greet = do
    say u fuel "\nNovaOS Phase 3.1 Rapid Kernel booted.\n"
    say u fuel "QEMU command line online; type help for POSIX and NovaKit commands.\n"
    serial_prompt u fuel

  -- `kmain` up to its first `n` rounds
  unfoldable pub kmain : ℕ → Cmd (Unit {0})
  unfolding serial_init
  kmain n = do serial_init; greet; rounds n
