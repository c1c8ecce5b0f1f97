-- ===== src/Pages.antt =====
-- kernel/core/vm.c, the page allocator: one byte for each of 128 physical pages.
pub mod Search
pub mod Ledger
mod Examples
use nova.Base.{
  ℕ, suc, Bool, ◌||◌, Option, none, some, List, [], ◌∷◌, ltb, leb, ◌==◌, if◌then◌else◌, get_or, set,
}
use nova.Base.Words.{u32}
use nova.Base.Results.{Status, ok, full, not_found}

abbrev pub max_pages : ℕ
max_pages = 128

pub record Allocator : Type 0 where
  pub allocated : List ℕ

abbrev pub clear_flags : List ℕ → List ℕ
clear_flags [] = []
clear_flags (f ∷ fs) = 0 ∷ clear_flags fs

unfoldable pub init : Allocator → Allocator
init a = record { allocated = clear_flags a.allocated }

-- the first index, from `index` on, that the loop of `nova_vm_alloc_page` does not pass over
abbrev pub first_free : ℕ → List ℕ → Option ℕ
first_free index [] = none
first_free index (f ∷ fs) = if f == 0 then some index else first_free (suc index) fs

-- The option is what goes through `physical_page`.
unfoldable pub alloc_page : Allocator → Status × Option ℕ × Allocator
alloc_page a = elim (first_free 0 a.allocated) [
  | none ↦ (full, none, a)
  | some index ↦ (ok, some (u32 index), record { allocated = set a.allocated index 1 })
]

-- The flag is read only at an index below 128, so the default 0 stands for no read.
pub free_page : Allocator → ℕ → Status × Allocator
free_page a page =
    if leb max_pages page || (get_or a.allocated page 0 == 0)
    then (not_found, a)
    else (ok, record { allocated = set a.allocated page 0 })
