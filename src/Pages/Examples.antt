-- ===== src/Pages/Examples.antt =====
-- Tests of the page allocator, and its theorems at concrete calls.
use nova.Base.{ℕ, ◌≡◌, refl, ◌<◌, ◌⊎◌, true, false, none, some, List, [], ◌∷◌, replicate, length}
use nova.Base.Results.{ok, full}
use nova.Pages.{Allocator, max_pages, init, alloc_page, free_page}
use nova.Pages.Ledger.{Call, allocs, frees, run, contains, Tracks, run-Tracks, alloc_page_lem}

abbrev raw : Allocator
raw = record { allocated = replicate 128 1 }

abbrev script : List Call
script = allocs ∷ allocs ∷ allocs ∷ frees 1 ∷ frees 1 ∷ frees 200 ∷ []

script_holds : (run (init raw, []) script).1 ≡ 2 ∷ 0 ∷ []
unfolding run init alloc_page free_page
script_holds = refl

reuses_lowest : (alloc_page (run (init raw, []) script).0).1 ≡ some 1
unfolding run init alloc_page free_page
reuses_lowest = refl

run-Tracks_example : let (a, held) = run (init raw, []) script in Tracks a held
run-Tracks_example = run-Tracks raw script refl

abbrev after : Allocator × List ℕ
after = run (init raw, []) script

alloc_page_lem_example :
    ((length after.1 ≡ max_pages) × (alloc_page after.0 ≡ (full, none, after.0)))
    ⊎ ((p : ℕ) × (a : Allocator) × (length after.1 < max_pages)
        × (alloc_page after.0 ≡ (ok, some p, a))
        × (p < max_pages)
        × (contains after.1 p ≡ false)
        × ((q : ℕ) → q < p → contains after.1 q ≡ true)
        × Tracks a (p ∷ after.1))
alloc_page_lem_example = alloc_page_lem after.0 after.1 (run-Tracks raw script refl)
