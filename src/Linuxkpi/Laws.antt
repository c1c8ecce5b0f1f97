-- ===== src/Linuxkpi/Laws.antt =====
-- The module table holds the first 32 well-formed modules that were registered, in order.
use nova.Base.{
  suc, ◌+◌, ◌<◌, ◌≤◌, ◌≡◌, refl, subst, ◌≢◌, ◌∙◌, ◌⊎◌, inl, inr, Bool, true, false, not, ◌&&◌,
  Option, none, some, List, [], ◌∷◌, ◌++◌, arith, length, set, take, replicate, ◌==◌, if◌then◌else◌,
  length-set, length-append, Bool-cases, append-nil, append_assoc, take-append, take_all,
}
use nova.Base.Words.{u64, pos, negsuc}
use nova.Linuxkpi.{Module, Table, max_modules, is_null, register}

-- A module whose three strings are there.
abbrev pub is_well_formed : Option Module → Bool
is_well_formed none = false
is_well_formed (some m) =
    not (is_null m.name) && (not (is_null m.license) && not (is_null m.upstream_revision))

-- The table holds exactly these modules, in this order, in its first slots.
pub record Holds (t : Table) (ms : List (Option Module)) : Type 0 where
  pub slots : length t.modules ≡ max_modules
  pub number : t.module_count ≡ length ms
  pub fits : length ms ≤ max_modules
  pub first : take (length ms) t.modules ≡ ms

-- `modules` and `module_count` as the program starts
abbrev pub start : Table
start = record { modules = replicate max_modules none; module_count = 0 }

take-set_end :
    (xs ms : List (Option Module)) (m : Option Module)
    → take (length ms) xs ≡ ms
    → length ms < length xs
    → take (suc (length ms)) (set xs (length ms) m) ≡ ms ++ (m ∷ [])
take-set_end [] ms m e h = absurd (omega arith)
take-set_end (x ∷ xs) [] m e h = refl
take-set_end (x ∷ xs) (n ∷ ms) m e h = ground (arith, take-set_end xs ms m)

abbrev appended : Table → Option Module → Table
appended t m = record {
  modules = set t.modules t.module_count m;
  module_count = u64 (t.module_count + 1);
}

Holds-appended :
    (t : Table) (ms : List (Option Module)) (m : Option Module)
    → Holds t ms
    → length ms < max_modules
    → Holds (appended t m) (ms ++ (m ∷ []))
Holds-appended t ms m h lt =
    let size : length (ms ++ (m ∷ [])) ≡ suc (length ms) =
      omega (arith, length-append ms (m ∷ [])) in
    record {
      slots = length-set t.modules t.module_count m ∙ h.slots;
      number = omega (arith, size, h.number);
      fits = omega (arith, size);
      first = ground (arith, size, h.number, take-set_end t.modules ms m h.first, h.slots);
    }

register-cases :
    (t : Table) (m : Option Module)
    → ((is_well_formed m ≡ true)
        × (t.module_count ≢ max_modules)
        × (register t m ≡ (pos 0, appended t m)))
      ⊎ (((is_well_formed m ≡ false) ⊎ (t.module_count ≡ max_modules))
          × (register t m ≡ (negsuc 0, t)))
unfolding register
register-cases t none = inr (inl refl, refl)
register-cases t (some m) = elim (Bool-cases (is_well_formed (some m))) [
  | inr bad ↦ inr (inl bad, ground arith)
  | inl good ↦ elim (Bool-cases (t.module_count == max_modules)) [
    | inl full ↦ inr (inr (ground arith), ground arith)
    | inr room ↦ inl (good, ground arith, ground arith)
  ]
]

-- `nova_linuxkpi_register` appends a well-formed module while there is room; else it refuses and
-- changes nothing.
pub register_lem :
    (t : Table) (ms : List (Option Module)) (m : Option Module)
    → Holds t ms
    → let (code, t') = register t m in
      ((is_well_formed m ≡ true)
        × (length ms < max_modules)
        × (code ≡ pos 0)
        × Holds t' (ms ++ (m ∷ [])))
      ⊎ (((is_well_formed m ≡ false) ⊎ (length ms ≡ max_modules)) × (code ≡ negsuc 0) × (t' ≡ t))
register_lem t ms m h = elim (register-cases t m) [
  | inl (good, room, e) ↦
      let lt : length ms < max_modules = omega (arith, h.number, h.fits) in
      rw e (inl (good, lt, refl, Holds-appended t ms m h lt))
  | inr (inl bad, e) ↦ rw e (inr (inl bad, refl, refl))
  | inr (inr full, e) ↦ rw e (inr (inr (omega (arith, h.number)), refl, refl))
]

unfoldable pub run : Table → List (Option Module) → Table
run t [] = t
run t (m ∷ ms) = run (register t m).1 ms

abbrev pub accepted : List (Option Module) → List (Option Module)
accepted [] = []
accepted (m ∷ ms) = if is_well_formed m then m ∷ accepted ms else accepted ms

run-Holds :
    (t : Table) (ms calls : List (Option Module))
    → Holds t ms
    → Holds (run t calls) (take max_modules (ms ++ accepted calls))
unfolding run
run-Holds t ms [] h = rw (append-nil, take_all max_modules ms h.fits) h
run-Holds t ms (m ∷ calls) h = elim (register_lem t ms m h) [
  | inl (good, lt, c, k) ↦ rw good (
      subst (λ l. Holds (run (register t m).1 calls) (take max_modules l))
        (append_assoc ms (m ∷ []) (accepted calls))
        (run-Holds (register t m).1 (ms ++ (m ∷ [])) calls k))
  | inr (inl bad, c, e) ↦ rw (bad, e) (run-Holds t ms calls h)
  | inr (inr full, c, e) ↦
      let le : max_modules ≤ length ms = omega arith in
      rw (e, take-append max_modules ms (accepted (m ∷ calls)) le)
        (rw (take-append max_modules ms (accepted calls) le) at (run-Holds t ms calls h))
]

start-Holds : Holds start []
start-Holds = record { slots = refl; number = refl; fits = omega arith; first = refl }

-- After any sequence of registrations from the start, the table holds the first 32 of the
-- well-formed modules among them, in order.
pub run-accepted :
    (calls : List (Option Module)) → Holds (run start calls) (take max_modules (accepted calls))
run-accepted calls = run-Holds start [] calls start-Holds
