-- ===== src/Console/Shell/Asks.antt =====
-- Which lines lead to which branch of `run_command`.
use Prim.Native.String.{String}
use nova.Base.{
  ℕ, ◌≡◌, ◌≢◌, ◌↔◌, refl, sym, ◌∙◌, Bool, true, not, List, [], ◌∷◌, ◌++◌, arith, length, ◌==◌,
}
use nova.Base.CString.{codes, same_bytes, same_prefix, same_prefix_iff, eq_of_same_bytes}
use nova.Console.Calls.Texts.{nul_free}
use nova.Console.Shell.{
  Choice, help, info, uname, ps, echo, syscalls, devices, posix, clear, uptime, unknown, nothing,
  ladder, choose,
}
use nova.Console.Shell.Reference.{chosen}
use nova.Console.Shell.Line.{choose-chosen}

-- the lines that ask for a branch other than `unknown`
abbrev pub Asks : Choice → List ℕ → Type 0
Asks help line = line ≡ codes "help"
Asks info line = line ≡ codes "info"
Asks uname line = line ≡ codes "uname"
Asks ps line = line ≡ codes "ps"
Asks echo line = (r : List ℕ) × (line ≡ codes "echo " ++ r)
Asks syscalls line = line ≡ codes "syscalls"
Asks devices line = line ≡ codes "devices"
Asks posix line = line ≡ codes "posix"
Asks clear line = line ≡ codes "clear"
Asks uptime line = line ≡ codes "uptime"
Asks unknown line = ⊥
Asks nothing line = line ≡ []

-- the test that a branch stands under
abbrev test : (String → Bool) → Bool → Bool → Choice → Bool
test is prefixed empty help = is "help"
test is prefixed empty info = is "info"
test is prefixed empty uname = is "uname"
test is prefixed empty ps = is "ps"
test is prefixed empty echo = prefixed
test is prefixed empty syscalls = is "syscalls"
test is prefixed empty devices = is "devices"
test is prefixed empty posix = is "posix"
test is prefixed empty clear = is "clear"
test is prefixed empty uptime = is "uptime"
test is prefixed empty unknown = not empty
test is prefixed empty nothing = empty

test-ladder :
    (is : String → Bool) (b e : Bool) (k : Choice) → ladder is b e ≡ k → test is b e k ≡ true
test-ladder is b e help h = ground arith
test-ladder is b e info h = ground arith
test-ladder is b e uname h = ground arith
test-ladder is b e ps h = ground arith
test-ladder is b e echo h = ground arith
test-ladder is b e syscalls h = ground arith
test-ladder is b e devices h = ground arith
test-ladder is b e posix h = ground arith
test-ladder is b e clear h = ground arith
test-ladder is b e uptime h = ground arith
test-ladder is b e unknown h = ground arith
test-ladder is b e nothing h = ground arith

test-Asks :
    (line : List ℕ) (k : Choice)
    → k ≢ unknown
    → test
        (λ s. same_bytes line (codes s))
        (same_prefix line (codes "echo ") 5)
        (length line == 0)
        k
      ≡ true
    → Asks k line
test-Asks line help n h = eq_of_same_bytes line (codes "help") h
test-Asks line info n h = eq_of_same_bytes line (codes "info") h
test-Asks line uname n h = eq_of_same_bytes line (codes "uname") h
test-Asks line ps n h = eq_of_same_bytes line (codes "ps") h
test-Asks line echo n h = (same_prefix_iff line (codes "echo ")).0 h
test-Asks line syscalls n h = eq_of_same_bytes line (codes "syscalls") h
test-Asks line devices n h = eq_of_same_bytes line (codes "devices") h
test-Asks line posix n h = eq_of_same_bytes line (codes "posix") h
test-Asks line clear n h = eq_of_same_bytes line (codes "clear") h
test-Asks line uptime n h = eq_of_same_bytes line (codes "uptime") h
test-Asks line unknown n h = n refl
test-Asks [] nothing n h = refl
test-Asks (c ∷ cs) nothing n h = ground arith

chosen-Asks : (line : List ℕ) (k : Choice) → Asks k line → chosen line ≡ k
chosen-Asks line help e = rw e
chosen-Asks line info e = rw e
chosen-Asks line uname e = rw e
chosen-Asks line ps e = rw e
chosen-Asks line echo (r, e) = rw e
chosen-Asks line syscalls e = rw e
chosen-Asks line devices e = rw e
chosen-Asks line posix e = rw e
chosen-Asks line clear e = rw e
chosen-Asks line uptime e = rw e
chosen-Asks line unknown e = absurd e
chosen-Asks line nothing e = rw e

-- On a buffer that holds a line with a NUL behind it, and whatever else, the ladder of `run_command`
-- takes a branch other than that for unknown commands exactly on the lines that ask for it: the
-- branch's own word, for `echo` a line that begins with `echo `, and the empty line for nothing.
pub choose_iff :
    (line rest : List ℕ) (k : Choice)
    → nul_free line ≡ true
    → k ≢ unknown
    → (choose (line ++ 0 ∷ rest) (length line) ≡ k) ↔ Asks k line
choose_iff line rest k h n = (
  λ e. test-Asks line k n (
      test-ladder (λ s. same_bytes line (codes s)) (same_prefix line (codes "echo ") 5)
        (length line == 0) k (sym (choose-chosen line rest h) ∙ e)),
  λ a. choose-chosen line rest h ∙ chosen-Asks line k a,
)
