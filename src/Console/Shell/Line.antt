-- ===== src/Console/Shell/Line.antt =====
-- The line that the buffer holds, and what the tests of `run_command` say of it.
use nova.Base.{ℕ, ◌≡◌, refl, true, List, [], ◌∷◌, ◌++◌, arith, length}
use nova.Base.CString.{codes, same_bytes, same_prefix}
use nova.Console.Calls.Texts.{nul_free}
use nova.Console.Shell.{command_is, starts_with, choose}
use nova.Console.Shell.Reference.{chosen}

pub command_is_lem :
    (line rest e : List ℕ)
    → nul_free line ≡ true
    → nul_free e ≡ true
    → command_is e (line ++ 0 ∷ rest) ≡ same_bytes line e
unfolding command_is
command_is_lem [] rest [] h k = refl
command_is_lem [] rest (e ∷ es) h k = ground arith
command_is_lem (c ∷ cs) rest [] h k = ground arith
command_is_lem (c ∷ cs) rest (e ∷ es) h k = ground (arith, command_is_lem cs rest es)

pub starts_with_lem :
    (line rest p : List ℕ)
    → nul_free p ≡ true
    → starts_with (line ++ 0 ∷ rest) p ≡ same_prefix line p (length p)
unfolding starts_with
starts_with_lem line rest [] k = refl
starts_with_lem [] rest (p ∷ ps) k = ground arith
starts_with_lem (c ∷ cs) rest (p ∷ ps) k = ground (arith, starts_with_lem cs rest ps)

-- On a buffer that holds a line and the NUL behind it, whatever follows, the choice is that of the line.
pub choose-chosen :
    (line rest : List ℕ)
    → nul_free line ≡ true
    → choose (line ++ 0 ∷ rest) (length line) ≡ chosen line
unfolding choose
choose-chosen line rest h = rw (
  command_is_lem line rest (codes "help") h refl,
  command_is_lem line rest (codes "info") h refl,
  command_is_lem line rest (codes "uname") h refl,
  command_is_lem line rest (codes "ps") h refl,
  starts_with_lem line rest (codes "echo ") refl,
  command_is_lem line rest (codes "syscalls") h refl,
  command_is_lem line rest (codes "devices") h refl,
  command_is_lem line rest (codes "posix") h refl,
  command_is_lem line rest (codes "clear") h refl,
  command_is_lem line rest (codes "uptime") h refl,
)
