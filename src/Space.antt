-- ===== src/Space.antt =====
-- kernel/core/vm.c, the address space: a table of up to 128 mappings, searched from the start.
pub mod Search
pub mod Laws
pub mod Table
pub mod Isolation
mod Examples
use nova.Base.{
  ℕ, zero, suc, ◌+◌, Bool, Option, none, some, List, [], ◌∷◌, ◌==◌, if◌then◌else◌, get_elem?, set,
}
use nova.Base.Words.{u64}
use nova.Base.Results.{Status, ok, full, not_found}

abbrev pub max_mappings : ℕ
max_mappings = 128

pub record Mapping : Type 0 where
  pub virtual_page : ℕ
  pub physical_page : ℕ
  pub writable : ℕ

pub record AddressSpace : Type 0 where
  pub mappings : List Mapping
  pub count : ℕ

-- `nova_vm_address_space_init` leaves the table as it is.
pub init : AddressSpace → AddressSpace
init s = record s { count = 0 }

-- The loop of `nova_vm_map` and of `nova_vm_translate`, with `rounds` rounds left: the index of the
-- first mapping of the page.
abbrev pub find_from : ℕ → ℕ → List Mapping → ℕ → Option ℕ
find_from index zero ms page = none
find_from index (suc rounds) [] page = none
find_from index (suc rounds) (m ∷ ms) page =
    if m.virtual_page == page then some index else find_from (suc index) rounds ms page

-- what the two assignments under the loop make of a slot
abbrev pub remap : List Mapping → ℕ → ℕ → ℕ → List Mapping
remap ms index physical writable = elim (get_elem? ms index) [
  | none ↦ ms
  | some m ↦ set ms index (record m { physical_page = physical; writable = writable })
]

abbrev pub new_mapping : ℕ → ℕ → ℕ → Mapping
new_mapping page physical writable = record {
  virtual_page = page;
  physical_page = physical;
  writable = writable;
}

pub map : AddressSpace → ℕ → ℕ → ℕ → Status × AddressSpace
map s page physical writable = elim (find_from 0 s.count s.mappings page) [
  | some index ↦ (ok, record s { mappings = remap s.mappings index physical writable })
  | none ↦ if s.count == max_mappings then (full, s) else (
    ok,
    record s {
      mappings = set s.mappings s.count (new_mapping page physical writable);
      count = u64 (s.count + 1);
    },
  )
]

-- the page and the flag that the out parameters take from a slot
abbrev pub target : List Mapping → ℕ → Option (ℕ × ℕ)
target ms index = elim (get_elem? ms index) [
  | none ↦ none
  | some m ↦ some (m.physical_page, m.writable)
]

-- The option is what goes through `physical_page` and `writable`.
pub translate : AddressSpace → ℕ → Status × Option (ℕ × ℕ)
translate s page = elim (find_from 0 s.count s.mappings page) [
  | some index ↦ (ok, target s.mappings index)
  | none ↦ (not_found, none)
]
