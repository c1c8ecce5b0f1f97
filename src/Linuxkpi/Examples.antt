-- ===== src/Linuxkpi/Examples.antt =====
-- Tests of the module table, and its theorems at concrete modules.
use nova.Base.{
  ◌≡◌, refl, ◌<◌, ◌⊎◌, true, false, some, none, Option, List, [], ◌∷◌, ◌++◌, length, take,
}
use nova.Base.Words.{pos, negsuc}
use nova.Base.CString.{codes}
use nova.Linuxkpi.{Module, max_modules, register, module_count}
use nova.Linuxkpi.Laws.{is_well_formed, Holds, start, register_lem, run, accepted, run-accepted}

-- the module of example_module.c
abbrev example : Module
example = record {
  name = some (codes "nova-linuxkpi-example");
  license = some (codes "GPL-2.0-or-later");
  upstream_revision = some (codes "not-vendored");
}

abbrev unlicensed : Module
unlicensed = record example { license = none }

abbrev calls : List (Option Module)
calls = some unlicensed ∷ some example ∷ none ∷ []

counts_one : module_count (run start calls) ≡ 1
unfolding module_count run register
counts_one = refl

run-accepted_example : Holds (run start calls) (take max_modules (accepted calls))
run-accepted_example = run-accepted calls

register_lem_example :
    let (code, t) = register (run start calls) (some example) in
    let ms = take max_modules (accepted calls) in
    ((is_well_formed (some example) ≡ true)
      × (length ms < max_modules)
      × (code ≡ pos 0)
      × Holds t (ms ++ (some example ∷ [])))
    ⊎ (((is_well_formed (some example) ≡ false) ⊎ (length ms ≡ max_modules))
        × (code ≡ negsuc 0)
        × (t ≡ run start calls))
register_lem_example =
    register_lem (run start calls) (take max_modules (accepted calls)) (some example)
      (run-accepted calls)
