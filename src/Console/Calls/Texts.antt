-- ===== src/Console/Calls/Texts.antt =====
-- What the printing functions write, whenever the port becomes ready.
use Prim.Native.String.{String}
use nova.Base.{
  ℕ, ◌≡◌, refl, Bool, true, false, not, ◌&&◌, some, List, [], ◌∷◌, ◌++◌, append-nil, arith, length,
  ◌==◌, if◌then◌else◌,
}
use nova.Base.CString.{codes}
use nova.Console.Port.{Uart, Machine, Cmd, pure, ◌>>=◌, ◌>>◌, serial_putc}
use nova.Console.Port.Ready.{
  Patient, Writes, after, wire, wire_tail, wire-append, pure-Writes, bind-Writes,
  serial_putc-Writes,
}
use nova.Console.Calls.{
  nova_strlen, digits, write_bytes, dispatch, write_length, sys_write, put_all, write_nonzero,
  write_unsigned, say, serial_prompt, print_uname, Task, tasks, print_tasks, print_ps, show_uname,
}

-- No byte is NUL.
abbrev pub nul_free : List ℕ → Bool
nul_free [] = true
nul_free (c ∷ cs) = not (c == 0) && nul_free cs

nova_strlen_lem :
    (a rest : List ℕ) → nul_free a ≡ true → nova_strlen (a ++ 0 ∷ rest) ≡ some (length a)
unfolding nova_strlen
nova_strlen_lem [] rest h = refl
nova_strlen_lem (c ∷ cs) rest h = ground (arith, nova_strlen_lem cs rest)

-- what a number is printed as
unfoldable pub decimal : ℕ → List ℕ
unfolding digits
decimal n = if n == 0 then b'0' ∷ [] else digits 20 n []

module _ (u : Uart) (fuel : ℕ) (p : Patient u fuel) where
  write_bytes-Writes :
      (a rest : List ℕ) (m : Machine)
      → Writes (write_bytes u fuel (length a) (a ++ rest)) m (wire a)
  unfolding write_bytes
  write_bytes-Writes [] rest m = pure-Writes m
  write_bytes-Writes (c ∷ cs) rest m =
      bind-Writes (serial_putc u fuel c) (write_bytes u fuel (length cs) (cs ++ rest)) m
        (c ∷ wire_tail (c == b'\n')) (wire cs) (serial_putc-Writes u fuel p c m)
        (λ n. write_bytes-Writes cs rest (after m n (c ∷ wire_tail (c == b'\n'))))

  write_length-Writes :
      (a rest : List ℕ) (m : Machine)
      → Writes (write_length u fuel (some (length a)) (a ++ rest)) m (wire a)
  unfolding dispatch write_length
  write_length-Writes a rest m = let (r, f) = write_bytes-Writes a rest m in (r, rw (f, ◌>>=◌))

  pub sys_write-Writes :
      (a rest : List ℕ) (m : Machine)
      → nul_free a ≡ true
      → Writes (sys_write u fuel (a ++ 0 ∷ rest)) m (wire a)
  unfolding sys_write
  sys_write-Writes a rest m h = rw (nova_strlen_lem a rest h) (write_length-Writes a (0 ∷ rest) m)

  pub say-Writes :
      (s : String) (m : Machine)
      → nul_free (codes s) ≡ true
      → Writes (say u fuel s) m (wire (codes s))
  unfolding say
  say-Writes s m h = sys_write-Writes (codes s) [] m h

  put_all-Writes : (a : List ℕ) (m : Machine) → Writes (put_all u fuel a) m (wire a)
  unfolding put_all
  put_all-Writes [] m = pure-Writes m
  put_all-Writes (c ∷ cs) m =
      bind-Writes (serial_putc u fuel c) (put_all u fuel cs) m (c ∷ wire_tail (c == b'\n'))
        (wire cs) (serial_putc-Writes u fuel p c m)
        (λ n. put_all-Writes cs (after m n (c ∷ wire_tail (c == b'\n'))))

  write_nonzero-Writes :
      (b : Bool) (n : ℕ) (m : Machine)
      → Writes (write_nonzero u fuel b n) m (wire (if b then b'0' ∷ [] else digits 20 n []))
  unfolding write_nonzero
  write_nonzero-Writes true n m = serial_putc-Writes u fuel p b'0' m
  write_nonzero-Writes false n m = put_all-Writes (digits 20 n []) m

  pub write_unsigned-Writes :
      (n : ℕ) (m : Machine) → Writes (write_unsigned u fuel n) m (wire (decimal n))
  unfolding write_unsigned decimal
  write_unsigned-Writes n m = write_nonzero-Writes (n == 0) n m

-- The command prints the text, from every state.
pub record Prints (c : Cmd (Unit {0})) (text : List ℕ) : Type 0 where
  pub run : (m : Machine) → Writes c m (wire text)

pub none-Prints : Prints (pure tt) []
none-Prints = record { run = pure-Writes }

-- one command after another
pub then-Writes :
    (c d : Cmd (Unit {0})) (m : Machine) (a b : List ℕ)
    → Writes c m (wire a)
    → ((reads : ℕ) → Writes d (after m reads (wire a)) (wire b))
    → Writes (c >> d) m (wire (a ++ b))
then-Writes c d m a b p q = rw (wire-append a b) (bind-Writes c d m (wire a) (wire b) p q)

pub and_then :
    {c d : Cmd (Unit {0})} {a b : List ℕ} → Prints c a → Prints d b → Prints (c >> d) (a ++ b)
and_then {c} {d} {a} {b} p q = record {
  run = λ m. then-Writes c d m a b (p.run m) (λ n. q.run (after m n (wire a)));
}

-- what the answer of `uname` is printed as
abbrev pub uname_text : List ℕ
uname_text = codes "NovaOS qemu0 3.1.0-prototype Rapid Kernel Phase 3.1 i386-qemu\n"

abbrev pub tasks_text : List Task → List ℕ
tasks_text [] = []
tasks_text (t ∷ ts) =
    decimal t.pid
    ++ (codes "   "
        ++ (codes t.state ++ (codes " " ++ (codes t.name ++ (codes "\n" ++ tasks_text ts)))))

abbrev printable : List Task → Bool
printable [] = true
printable (t ∷ ts) = nul_free (codes t.state) && (nul_free (codes t.name) && printable ts)

both : {a b : Bool} → (a && b) ≡ true → (a ≡ true) × (b ≡ true)
both {a} {b} h = ground arith

module _ (u : Uart) (fuel : ℕ) (p : Patient u fuel) where
  pub say-Prints : (s : String) → nul_free (codes s) ≡ true → Prints (say u fuel s) (codes s)
  say-Prints s h = record { run = λ m. say-Writes u fuel p s m h }

  pub write_unsigned-Prints : (n : ℕ) → Prints (write_unsigned u fuel n) (decimal n)
  write_unsigned-Prints n = record { run = write_unsigned-Writes u fuel p n }

  pub serial_putc-Prints : (c : ℕ) → Prints (serial_putc u fuel c) (c ∷ [])
  serial_putc-Prints c = record {
    run = λ m. rw (append-nil (wire_tail (c == b'\n'))) (serial_putc-Writes u fuel p c m);
  }

  pub serial_prompt-Prints : Prints (serial_prompt u fuel) (codes "nova> ")
  unfolding serial_prompt
  serial_prompt-Prints = say-Prints "nova> " refl

  pub print_uname-Prints : Prints (print_uname u fuel) uname_text
  unfolding print_uname show_uname
  print_uname-Prints = and_then (say-Prints "NovaOS" refl) (
      and_then (say-Prints " " refl) (
        and_then (say-Prints "qemu0" refl) (
          and_then (say-Prints " " refl) (
            and_then (say-Prints "3.1.0-prototype" refl) (
              and_then (say-Prints " " refl) (
                and_then (say-Prints "Rapid Kernel Phase 3.1" refl) (
                  and_then (say-Prints " " refl)
                    (and_then (say-Prints "i386-qemu" refl) (say-Prints "\n" refl)))))))))

  print_tasks-Prints :
      (ts : List Task) → printable ts ≡ true → Prints (print_tasks u fuel ts) (tasks_text ts)
  unfolding print_tasks
  print_tasks-Prints [] h = none-Prints
  print_tasks-Prints (t ∷ ts) h =
      let (a, h') = both h in
      let (b, rest) = both h' in
      and_then (write_unsigned-Prints t.pid) (
        and_then (say-Prints "   " refl) (
          and_then (say-Prints t.state a) (
            and_then (say-Prints " " refl) (
              and_then (say-Prints t.name b)
                (and_then (say-Prints "\n" refl) (print_tasks-Prints ts rest))))))

  pub print_ps-Prints : Prints (print_ps u fuel) (codes "PID STATE   COMMAND\n" ++ tasks_text tasks)
  unfolding print_ps
  print_ps-Prints =
      and_then (say-Prints "PID STATE   COMMAND\n" refl) (print_tasks-Prints tasks refl)
