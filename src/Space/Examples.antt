-- ===== src/Space/Examples.antt =====
-- Tests of the address space, and its theorems at concrete mappings.
use nova.Base.{
  ℕ, List, [], ◌∷◌, true, ◌≡◌, refl, ◌↔◌, ◌⊎◌, some, none, arith, replicate, if◌then◌else◌, ◌==◌,
}
use nova.Base.Results.{ok, full, not_found}
use nova.Space.{Mapping, AddressSpace, max_mappings, init, map, translate}
use nova.Space.Laws.{IsValid, translate-map, map-full}
use nova.Pages.{Allocator, init as start, alloc_page}
use nova.Pages.Search.{is_taken}
use nova.Space.Table.{Call, maps, translates, run, replies, no_pages, Shows, run-Shows}
use nova.Space.Isolation
use nova.Space.Isolation.{run-apart}

abbrev junk : Mapping
junk = record { virtual_page = 4096; physical_page = 3; writable = 1 }

abbrev raw : AddressSpace
raw = record { mappings = replicate 128 junk; count = 77 }

fresh-IsValid : IsValid (init raw)
unfolding init
fresh-IsValid = record { slots = refl; count_in = omega arith }

-- `test_vm` of host_test.c
maps_and_translates :
    (translate (map (init raw) 4096 0 1).1 4096 ≡ (ok, some (0, 1)))
    × (translate (init raw) 4096 ≡ (not_found, none))
unfolding map translate init
maps_and_translates = (refl, refl)

maps_ok : (map (init raw) 4096 0 1).0 ≡ ok
unfolding map init
maps_ok = refl

translate-map_example :
    translate (map (init raw) 4096 0 1).1 8192
    ≡ (if 8192 == 4096 then (ok, some (0, 1)) else translate (init raw) 8192)
translate-map_example = translate-map (init raw) 4096 0 1 8192 fresh-IsValid maps_ok

abbrev crowded : AddressSpace
crowded = record { mappings = replicate 128 junk; count = 128 }

map-full_example :
    (((map crowded 5 0 1).0 ≡ ok) ⊎ (map crowded 5 0 1 ≡ (full, crowded)))
    × (((map crowded 5 0 1).0 ≡ full)
        ↔ ((crowded.count ≡ max_mappings) × (translate crowded 5 ≡ (not_found, none))))
map-full_example = map-full crowded 5 0 1 (record { slots = refl; count_in = omega arith })

abbrev calls : List Call
calls = maps 4096 7 1 ∷ translates 4096 ∷ maps 4096 9 0 ∷ translates 8192 ∷ []

run-Shows_example :
    ((run (init raw) calls).0 ≡ (replies no_pages calls).0)
    × Shows (run (init raw) calls).1 (replies no_pages calls).1
run-Shows_example = run-Shows raw calls (record { slots = refl; count_in = omega arith })

abbrev flags : Allocator
flags = record { allocated = replicate 128 170 }

abbrev backed : List (ℕ × ℕ)
backed = (4096, 1) ∷ (8192, 0) ∷ []

second_backed : translate (Isolation.run (start flags) (init raw) backed).1 8192 ≡ (ok, some (1, 0))
unfolding Isolation.run start alloc_page map translate init
second_backed = refl

run-apart_example :
    (◌≡◌ {A = ℕ} 8192 8192) × (is_taken (Isolation.run (start flags) (init raw) backed).0 1 ≡ true)
run-apart_example =
    run-apart flags raw backed 8192 8192 1 0 0 refl
      (record { slots = refl; count_in = omega arith }) second_backed second_backed
