-- ===== src/Base/CString.antt =====
-- NUL-terminated strings in byte arrays, and the functions of <string.h> that the code calls.
use Prim.Native.Nat.{ℕ, zero, suc}
use Prim.Native.Char.{code}
use Prim.Native.String.{String}
use mathlib.Core.Path.{◌≡◌, refl, ap}
use mathlib.Core.Logic.{◌↔◌}
use mathlib.Core.Bool.{Bool, true, false, ◌&&◌}
use mathlib.Core.List.{List, [], ◌∷◌, ◌++◌}
use native.Mathlib.Omega.{arith}
use nova.Base.Tests.{◌==◌, if◌then◌else◌}
use nova.Base.Lists.{length, set, take}

-- the bytes of an ASCII literal
abbrev pub codes : String → List ℕ
codes String.[] = []
codes (String.◌∷◌ c s) = code c ∷ codes s

-- The string that an array holds: its bytes before the first NUL, or all of them.
abbrev pub until_nul : List ℕ → List ℕ
until_nul [] = []
until_nul (c ∷ cs) = if c == 0 then [] else c ∷ until_nul cs

-- `strncpy(target, source, n)`: at most `n` bytes of the string, and NULs up to `n`.
abbrev pub strncpy : List ℕ → List ℕ → ℕ → List ℕ
strncpy target source zero = target
strncpy [] source (suc n) = []
strncpy (t ∷ ts) [] (suc n) = 0 ∷ strncpy ts [] n
strncpy (t ∷ ts) (c ∷ cs) (suc n) = c ∷ strncpy ts (if c == 0 then [] else cs) n

-- equality of two byte lists
abbrev pub same_bytes : List ℕ → List ℕ → Bool
same_bytes [] [] = true
same_bytes [] (d ∷ ds) = false
same_bytes (c ∷ cs) [] = false
same_bytes (c ∷ cs) (d ∷ ds) = (c == d) && same_bytes cs ds

-- `strcmp(a, b) == 0`
abbrev pub str_eq : List ℕ → List ℕ → Bool
str_eq a b = same_bytes (until_nul a) (until_nul b)

-- `strncmp(a, b, n) == 0`, on strings
abbrev pub same_prefix : List ℕ → List ℕ → ℕ → Bool
same_prefix a b zero = true
same_prefix [] [] (suc n) = true
same_prefix [] (d ∷ ds) (suc n) = false
same_prefix (c ∷ cs) [] (suc n) = false
same_prefix (c ∷ cs) (d ∷ ds) (suc n) = (c == d) && same_prefix cs ds n

abbrev pub strn_eq : List ℕ → List ℕ → ℕ → Bool
strn_eq a b n = same_prefix (until_nul a) (until_nul b) n

abbrev pub strlen : List ℕ → ℕ
strlen a = length (until_nul a)

pub same_bytes_refl : (a : List ℕ) → same_bytes a a ≡ true
same_bytes_refl [] = refl
same_bytes_refl (c ∷ cs) = ground (arith, same_bytes_refl cs)

pub eq_of_same_bytes : (a b : List ℕ) → same_bytes a b ≡ true → a ≡ b
eq_of_same_bytes [] [] h = refl
eq_of_same_bytes [] (d ∷ ds) h = ground arith
eq_of_same_bytes (c ∷ cs) [] h = ground arith
eq_of_same_bytes (c ∷ cs) (d ∷ ds) h = ground (arith, eq_of_same_bytes cs ds)

-- A string begins with a prefix exactly when it is the prefix and a rest.
pub same_prefix_iff :
    (a b : List ℕ) → (same_prefix a b (length b) ≡ true) ↔ ((r : List ℕ) × (a ≡ b ++ r))
same_prefix_iff a b = (there a b, back a b)
  where
    there : (a b : List ℕ) → same_prefix a b (length b) ≡ true → (r : List ℕ) × (a ≡ b ++ r)
    there a [] h = (a, refl)
    there [] (d ∷ ds) h = ([], ground arith)
    there (c ∷ cs) (d ∷ ds) h = let (r, e) = there cs ds (ground arith) in (r, ground (arith, e))

    back : (a b : List ℕ) → (r : List ℕ) × (a ≡ b ++ r) → same_prefix a b (length b) ≡ true
    back a [] h = refl
    back [] (d ∷ ds) (r, e) = ground arith
    back (c ∷ cs) (d ∷ ds) (r, e) = ground (arith, back cs ds (r, ground arith))

pub length-strncpy :
    (target source : List ℕ) (n : ℕ) → length (strncpy target source n) ≡ length target
length-strncpy target source zero = refl
length-strncpy [] source (suc n) = refl
length-strncpy (t ∷ ts) [] (suc n) = ap suc (length-strncpy ts [] n)
length-strncpy (t ∷ ts) (c ∷ cs) (suc n) = ap suc (length-strncpy ts (if c == 0 then [] else cs) n)

-- `strncpy` into all but the last byte, with a NUL there, keeps as much of the string as fits.
pub until_nul-strncpy :
    (target source : List ℕ) (n : ℕ)
    → length target ≡ suc n
    → until_nul (set (strncpy target source n) n 0) ≡ take n (until_nul source)
until_nul-strncpy [] source n h = absurd (omega arith)
until_nul-strncpy (t ∷ ts) source zero h = refl
until_nul-strncpy (t ∷ ts) [] (suc n) h = refl
until_nul-strncpy (t ∷ ts) (c ∷ cs) (suc n) h =
    ground (arith, until_nul-strncpy ts cs n (omega arith))
