-- ===== src/Console/Shell/Answer.antt =====
-- What `run_command` prints for a line.
use nova.Base.{
  ℕ, zero, suc, ◌≤◌, ◌<◌, ◌^◌, ◌≡◌, refl, ap, subst, ◌∙◌, Bool, true, false, Option, none, some,
  List, [], ◌∷◌, ◌++◌, arith, length, drop, ◌==◌,
}
use Prim.Native.String.{String}
use nova.Base.Words.{ℤ, to_i32}
use nova.Base.CString.{codes, same_bytes, same_prefix}
use nova.Console.Port.{Uart, Machine, Cmd, ◌>>=◌, ◌>>◌}
use nova.Console.Port.Ready.{Patient, Writes, after, wire, pure-Writes}
use nova.Console.Calls.{Utsname, dispatch, sys_write, say, write_unsigned}
use nova.Console.Calls.Texts.{
  nul_free, decimal, and_then, then-Writes, sys_write-Writes, say-Prints, write_unsigned-Prints,
  print_uname-Prints, print_ps-Prints,
}
use nova.Console.Shell.{
  Choice, help, info, uname, ps, echo, syscalls, devices, posix, clear, uptime, unknown, nothing,
  ladder, perform, of_long, help_text, syscalls_text, devices_text, posix_text, clear_text,
}
use nova.Console.Shell.Reference.{chosen, reply}

of_long-to_i32 : (n : ℕ) → n < 2 ^ 32 → of_long (to_i32 n) ≡ n
of_long-to_i32 n h = ground arith

drop-append : (n : ℕ) (a b : List ℕ) → n ≤ length a → drop n (a ++ b) ≡ drop n a ++ b
drop-append zero a b h = refl
drop-append (suc n) [] b h = absurd (omega arith)
drop-append (suc n) (c ∷ cs) b h = drop-append n cs b (omega arith)

nul_free-drop : (n : ℕ) (a : List ℕ) → nul_free a ≡ true → nul_free (drop n a) ≡ true
nul_free-drop zero a h = h
nul_free-drop (suc n) [] h = refl
nul_free-drop (suc n) (c ∷ cs) h = nul_free-drop n cs (ground arith)

-- Only the prefix leads to `echo`.
ladder_echo : (is : String → Bool) (b e : Bool) → ladder is b e ≡ echo → b ≡ true
ladder_echo is true e h = refl
ladder_echo is false e h = ground arith

prefix_length : (a b : List ℕ) (n : ℕ) → same_prefix a b n ≡ true → length b ≡ n → n ≤ length a
prefix_length a b zero h l = omega arith
prefix_length [] [] (suc n) h l = absurd (omega arith)
prefix_length [] (d ∷ ds) (suc n) h l = cc
prefix_length (c ∷ cs) [] (suc n) h l = absurd (omega arith)
prefix_length (c ∷ cs) (d ∷ ds) (suc n) h l =
    omega (arith, prefix_length cs ds n (ground arith) (omega arith))

pub echo_length : (line : List ℕ) → chosen line ≡ echo → 5 ≤ length line
echo_length line h =
    prefix_length line (codes "echo ") 5
      (ladder_echo (λ s. same_bytes line (codes s)) (same_prefix line (codes "echo ") 5)
        (length line == 0) h)
      refl

module _ (u : Uart) (fuel : ℕ) (p : Patient u fuel) where
  dispatch_uptime : (m : Machine) → dispatch u fuel 5 [] 0 m ≡ some ((to_i32 m.ticks, none), m)
  unfolding dispatch
  dispatch_uptime m = refl

  abbrev print_answer : ℤ × Option Utsname → Cmd (Unit {0})
  print_answer answer = do write_unsigned u fuel (of_long answer.0); say u fuel "\n"

  ticks-Writes :
      (m : Machine)
      → m.ticks < 2 ^ 32
      → Writes (dispatch u fuel 5 [] 0 >>= print_answer) m (wire (decimal m.ticks ++ codes "\n"))
  ticks-Writes m h =
      let q =
        (and_then (write_unsigned-Prints u fuel p (of_long (to_i32 m.ticks)))
            (say-Prints u fuel p "\n" refl)).run
          m in
      let (r, f) =
        subst (λ t. Writes (print_answer (to_i32 m.ticks, none)) m (wire (decimal t ++ codes "\n")))
          (of_long-to_i32 m.ticks h) q in
      (r, rw (dispatch_uptime m, ◌>>=◌) f)

  uptime-Writes :
      (m : Machine)
      → m.ticks < 2 ^ 32
      → Writes
          (perform u fuel uptime)
          m
          (wire (codes "uptime ticks: " ++ (decimal m.ticks ++ codes "\n")))
  unfolding perform
  uptime-Writes m h =
      let a = codes "uptime ticks: " in
      then-Writes (say u fuel "uptime ticks: ") (dispatch u fuel 5 [] 0 >>= print_answer) m a
        (decimal m.ticks ++ codes "\n") ((say-Prints u fuel p "uptime ticks: " refl).run m)
        (λ n. ticks-Writes (after m n (wire a)) h)

  echo-Writes :
      (m : Machine) (line rest : List ℕ)
      → m.command ≡ line ++ 0 ∷ rest
      → nul_free line ≡ true
      → 5 ≤ length line
      → Writes (perform u fuel echo) m (wire (drop 5 line ++ codes "\n"))
  unfolding perform
  echo-Writes m line rest e f h =
      let text : drop 5 m.command ≡ drop 5 line ++ 0 ∷ rest =
        ap (λ c. drop 5 c) e ∙ drop-append 5 line (0 ∷ rest) h in
      let first : Writes (sys_write u fuel (drop 5 m.command)) m (wire (drop 5 line)) =
        rw text (sys_write-Writes u fuel p (drop 5 line) rest m (nul_free-drop 5 line f)) in
      then-Writes (sys_write u fuel (drop 5 m.command)) (say u fuel "\n") m (drop 5 line)
        (codes "\n") first
        (λ n. (say-Prints u fuel p "\n" refl).run (after m n (wire (drop 5 line))))

  pub perform-Writes :
      (k : Choice) (m : Machine) (line rest : List ℕ)
      → m.command ≡ line ++ 0 ∷ rest
      → nul_free line ≡ true
      → m.ticks < 2 ^ 32
      → (k ≡ echo → 5 ≤ length line)
      → Writes (perform u fuel k) m (wire (reply m.ticks line k))
  unfolding perform
  perform-Writes help m line rest e f t h = (say-Prints u fuel p help_text refl).run m
  perform-Writes info m line rest e f t h =
      (and_then (say-Prints u fuel p "NovaOS Phase 3.1 Rapid Kernel prototype\n" refl) (
          and_then
            (say-Prints u fuel p
              "hybrid layers: microkernel core, BSD/POSIX personality, NovaKit drivers\n" refl)
            (say-Prints u fuel p "boot: Multiboot kernel with serial command line in QEMU\n"
              refl))).run
        m
  perform-Writes uname m line rest e f t h = (print_uname-Prints u fuel p).run m
  perform-Writes ps m line rest e f t h = (print_ps-Prints u fuel p).run m
  perform-Writes echo m line rest e f t h = echo-Writes m line rest e f (h refl)
  perform-Writes syscalls m line rest e f t h = (say-Prints u fuel p syscalls_text refl).run m
  perform-Writes devices m line rest e f t h = (say-Prints u fuel p devices_text refl).run m
  perform-Writes posix m line rest e f t h = (say-Prints u fuel p posix_text refl).run m
  perform-Writes clear m line rest e f t h = sys_write-Writes u fuel p clear_text [] m refl
  perform-Writes uptime m line rest e f t h = uptime-Writes m t
  perform-Writes unknown m line rest e f t h =
      (say-Prints u fuel p "unknown command; use help\n" refl).run m
  perform-Writes nothing m line rest e f t h = pure-Writes m
