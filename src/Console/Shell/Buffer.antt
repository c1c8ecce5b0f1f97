-- ===== src/Console/Shell/Buffer.antt =====
-- The line that the buffer holds, and the writes to it.
use nova.Base.{
  ℕ, ◌+◌, ◌-◌, ◌<◌, ◌≡◌, refl, sym, ap, ◌∙◌, true, false, ◌&&◌, List, [], ◌∷◌, ◌++◌, append_assoc,
  arith, length, set, ◌==◌, length-append, length-set,
}
use nova.Console.Calls.Texts.{nul_free}
use nova.Console.Shell.{command_size}
use nova.Console.Shell.Reference.{drop_last}

-- The first `n` bytes of the buffer are the line, and it has room for a NUL behind them.
pub record Holds (command : List ℕ) (n : ℕ) (line : List ℕ) : Type 0 where
  pub size : length command ≡ command_size
  pub count : n ≡ length line
  pub room : length line < command_size
  pub rest : List ℕ
  pub bytes : command ≡ line ++ rest
  pub clean : nul_free line ≡ true

set-append :
    (line : List ℕ) (c : ℕ) (rest : List ℕ) (v : ℕ)
    → set (line ++ c ∷ rest) (length line) v ≡ line ++ v ∷ rest
set-append [] c rest v = refl
set-append (d ∷ ds) c rest v = ap (λ t. d ∷ t) (set-append ds c rest v)

-- A byte written behind the line.
pub behind :
    (command : List ℕ) (n : ℕ) (line : List ℕ) (v : ℕ)
    → Holds command n line
    → (rest : List ℕ) × (set command n v ≡ line ++ v ∷ rest)
behind command n line v h = split h.rest h.bytes
  where
    split :
        (rest : List ℕ)
        → command ≡ line ++ rest
        → (rest : List ℕ) × (set command n v ≡ line ++ v ∷ rest)
    split [] e = absurd (omega (arith, ap length e, length-append line [], h.size, h.room))
    split (c ∷ rest) e = (rest, rw (e, h.count) (set-append line c rest v))

last_lem : (line : List ℕ) → 0 < length line → (c : ℕ) × (line ≡ drop_last line ++ c ∷ [])
last_lem [] h = absurd (omega arith)
last_lem (c ∷ []) h = (c, refl)
last_lem (c ∷ d ∷ cs) h = let (e, q) = last_lem (d ∷ cs) (omega arith) in (e, ap (λ t. c ∷ t) q)

nul_free-append : (a b : List ℕ) → nul_free (a ++ b) ≡ (nul_free a && nul_free b)
nul_free-append [] b = refl
nul_free-append (c ∷ cs) b = ground (arith, nul_free-append cs b)

nul_free-drop_last : (line : List ℕ) → nul_free line ≡ true → nul_free (drop_last line) ≡ true
nul_free-drop_last [] h = refl
nul_free-drop_last (c ∷ []) h = refl
nul_free-drop_last (c ∷ d ∷ cs) h = ground (arith, nul_free-drop_last (d ∷ cs))

length-drop_last : (line : List ℕ) → length (drop_last line) ≡ length line - 1
length-drop_last [] = refl
length-drop_last (c ∷ []) = refl
length-drop_last (c ∷ d ∷ cs) = omega (arith, length-drop_last (d ∷ cs))

pub drop_last-Holds :
    (command : List ℕ) (n : ℕ) (line : List ℕ)
    → Holds command n line
    → 0 < length line
    → Holds command (n - 1) (drop_last line)
drop_last-Holds command n line h pos_length =
    let (c, e) = last_lem line pos_length in
    record {
      size = h.size;
      count = omega (arith, h.count, length-drop_last line);
      room = omega (arith, h.room, length-drop_last line);
      rest = c ∷ h.rest;
      bytes = h.bytes ∙ ap (λ t. t ++ h.rest) e ∙ append_assoc (drop_last line) (c ∷ []) h.rest;
      clean = nul_free-drop_last line h.clean;
    }

pub append-Holds :
    (command : List ℕ) (n : ℕ) (line : List ℕ) (v : ℕ)
    → Holds command n line
    → length line < command_size - 1
    → (v == 0) ≡ false
    → Holds (set command n v) (n + 1) (line ++ v ∷ [])
append-Holds command n line v h short z =
    let (rest, e) = behind command n line v h in
    record {
      size = length-set command n v ∙ h.size;
      count = omega (arith, h.count, length-append line (v ∷ []));
      room = omega (arith, length-append line (v ∷ []));
      rest = rest;
      bytes = e ∙ sym (append_assoc line (v ∷ []) rest);
      clean = rw (nul_free-append line (v ∷ []), h.clean, z);
    }

pub ended-Holds :
    (command : List ℕ) (n : ℕ) (line : List ℕ) → Holds command n line → Holds (set command n 0) 0 []
ended-Holds command n line h = record {
  size = length-set command n 0 ∙ h.size;
  count = refl;
  room = omega arith;
  rest = set command n 0;
  bytes = refl;
  clean = refl;
}
