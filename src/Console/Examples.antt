-- ===== src/Console/Examples.antt =====
-- Tests of the console, and its theorems at a concrete port.
use nova.Base.{
  ℕ, ◌+◌, ◌≡◌, ◌↔◌, refl, Option, some, List, [], ◌∷◌, ◌++◌, arith, length, map, get_or,
  if◌then◌else◌, ◌==◌, Bool-cases, ==→eq, ne→==, inl, inr, ◌%◌,
}
use nova.Base.CString.{codes}
use mathlib.Core.Option
use nova.Console.Port.{Uart, Machine}
use nova.Console.Port.Ready.{Patient, after, wire, to_com1}
use nova.Console.Calls.{write_unsigned}
use nova.Console.Calls.Texts.{decimal}
use nova.Console.Decimal.{IsNumeral, write_unsigned_lem}
use nova.Console.Shell.{echo, choose, serial_poll, rounds, kmain}
use nova.Console.Shell.Reference.{screen, edited}
use nova.Console.Shell.Buffer.{Holds}
use nova.Console.Shell.Asks.{Asks, choose_iff}
use nova.Console.Session.{Finds, booted, port_setup, greeting, kmain_refines}

-- The transmitter is busy at every other reading, and a byte has always come.
abbrev typing : List ℕ → Uart
typing bytes = record {
  status = λ t. if t % 2 == 0 then 0x01 else 0x21;
  received = λ k. get_or bytes k 0;
}

typing-Patient : (bytes : List ℕ) → Patient (typing bytes) 2
typing-Patient bytes t = elim (Bool-cases (t % 2 == 0)) [
  | inl even ↦
      let e : t % 2 ≡ 0 = ==→eq (t % 2) 0 even in
      (1, omega arith, rw (ne→== ((t + 1) % 2) 0 (λ x. omega arith)))
  | inr odd ↦ (0, omega arith, rw (ne→== ((t + 0) % 2) 0 (λ x. ground arith)))
]

prints_numbers :
    Option.map (λ x. x.1.sent) (write_unsigned (typing []) 2 4096 booted)
    ≡ some (map to_com1 (codes "4096"))
unfolding write_unsigned
prints_numbers = refl

edits_the_line :
    Option.map (λ x. x.1.sent) (rounds (typing (codes "ab" ++ 0x7F ∷ [])) 2 3 booted)
    ≡ some (map to_com1 (codes "ab" ++ 8 ∷ 32 ∷ 8 ∷ []))
unfolding rounds serial_poll
edits_the_line = refl

answers_in_the_reference :
    screen 6 [] (map some (codes "uptime" ++ 13 ∷ [])) ≡ codes "uptime\nuptime ticks: 13\nnova> "
unfolding decimal
answers_in_the_reference = refl

kmain_refines_example :
    (v : Machine) × (es : List (Option ℕ)) × (t : ℕ) × (kmain (typing (codes "ps")) 2 5 booted
      ≡ some (tt, v))
    × (length es ≡ 5)
    × Finds (typing (codes "ps")) t 0 es
    × Holds v.command v.command_length (edited [] es)
    × (v.sent ≡ port_setup ++ map to_com1 (wire (greeting ++ screen 0 [] es)))
kmain_refines_example = kmain_refines (typing (codes "ps")) 2 5 (typing-Patient (codes "ps"))

write_unsigned_lem_example :
    (reads : ℕ) × (text : List ℕ) × (write_unsigned (typing []) 2 4096 booted
      ≡ some (tt, after booted reads text))
    × IsNumeral 4096 text
write_unsigned_lem_example =
    write_unsigned_lem (typing []) 2 4096 booted (typing-Patient []) (omega arith)

choose_iff_example :
    (choose (codes "echo hi" ++ 0 ∷ codes "stale") (length (codes "echo hi")) ≡ echo)
    ↔ Asks echo (codes "echo hi")
choose_iff_example = choose_iff (codes "echo hi") (codes "stale") echo refl (λ e. cc)
