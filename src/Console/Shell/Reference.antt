-- ===== src/Console/Shell/Reference.antt =====
-- The console as its user sees it: a line of characters and the text on the screen. It has no buffer,
-- no NUL and no port.
use nova.Base.{
  ℕ, ◌+◌, ◌-◌, Option, none, some, List, [], ◌∷◌, ◌++◌, ltb, ◌==◌, if◌then◌else◌, length, drop,
}
use nova.Base.Words.{u32}
use nova.Base.CString.{codes, same_bytes, same_prefix}
use nova.Console.Calls.{tasks}
use nova.Console.Calls.Texts.{decimal, uname_text, tasks_text}
use nova.Console.Shell.{
  command_size, Choice, help, info, uname, ps, echo, syscalls, devices, posix, clear, uptime,
  unknown, nothing, ladder, help_text, syscalls_text, devices_text, posix_text, clear_text,
  erase_text, Key, enter, erase, character, other,
}

-- the command that the line asks for
abbrev pub chosen : List ℕ → Choice
chosen line =
    ladder (λ s. same_bytes line (codes s)) (same_prefix line (codes "echo ") 5) (length line == 0)

-- its answer, at the time `ticks`
abbrev pub reply : ℕ → List ℕ → Choice → List ℕ
reply ticks line help = codes help_text
reply ticks line info =
    codes "NovaOS Phase 3.1 Rapid Kernel prototype\n"
    ++ (codes "hybrid layers: microkernel core, BSD/POSIX personality, NovaKit drivers\n"
        ++ codes "boot: Multiboot kernel with serial command line in QEMU\n")
reply ticks line uname = uname_text
reply ticks line ps = codes "PID STATE   COMMAND\n" ++ tasks_text tasks
reply ticks line echo = drop 5 line ++ codes "\n"
reply ticks line syscalls = codes syscalls_text
reply ticks line devices = codes devices_text
reply ticks line posix = codes posix_text
reply ticks line clear = clear_text
reply ticks line uptime = codes "uptime ticks: " ++ (decimal ticks ++ codes "\n")
reply ticks line unknown = codes "unknown command; use help\n"
reply ticks line nothing = []

abbrev pub drop_last : List ℕ → List ℕ
drop_last [] = []
drop_last (c ∷ []) = []
drop_last (c ∷ d ∷ cs) = c ∷ drop_last (d ∷ cs)

-- the line after a byte
abbrev pub edit : List ℕ → Key → ℕ → List ℕ
edit line enter b = []
edit line erase b = drop_last line
edit line character b = if ltb (length line) (command_size - 1) then line ++ b ∷ [] else line
edit line other b = line

-- the text that a byte brings to the screen
abbrev pub shown : ℕ → List ℕ → Key → ℕ → List ℕ
shown ticks line enter b = codes "\n" ++ (reply ticks line (chosen line) ++ codes "nova> ")
shown ticks line erase b = if length line == 0 then [] else erase_text
shown ticks line character b = if ltb (length line) (command_size - 1) then b ∷ [] else []
shown ticks line other b = []

-- What a byte is on this console: carriage return and newline end the line, backspace and delete
-- erase, and the printable ones stand for themselves.
abbrev pub pressed : ℕ → Key
pressed b =
    if b == 13
    then enter
    else if b == 10
    then enter
    else if b == 8
    then erase
    else if b == 127
    then erase
    else if ltb b 32
    then other
    else if ltb b 127
    then character
    else other

-- A session: for each round of the loop, the byte that has come, if one has.
abbrev pub edited : List ℕ → List (Option ℕ) → List ℕ
edited line [] = line
edited line (none ∷ es) = edited line es
edited line (some b ∷ es) = edited (edit line (pressed b) b) es

abbrev pub screen : ℕ → List ℕ → List (Option ℕ) → List ℕ
screen ticks line [] = []
screen ticks line (none ∷ es) = screen (u32 (ticks + 1)) line es
screen ticks line (some b ∷ es) =
    shown (u32 (ticks + 1)) line (pressed b) b
    ++ screen (u32 (ticks + 1)) (edit line (pressed b) b) es
