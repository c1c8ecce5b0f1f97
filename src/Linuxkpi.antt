-- ===== src/Linuxkpi.antt =====
-- drivers/linuxkpi/src/linuxkpi.c: the table of registered driver modules.
pub mod Laws
mod Examples
use nova.Base.{ℕ, ◌+◌, Bool, ◌||◌, Option, none, some, List, ◌==◌, if◌then◌else◌, set}
use nova.Base.Words.{u64, ℤ, pos, negsuc}

abbrev pub max_modules : ℕ
max_modules = 32

-- A string that may be NULL.
abbrev pub CStr : Type 0
CStr = Option (List ℕ)

pub record Module : Type 0 where
  pub name : CStr
  pub license : CStr
  pub upstream_revision : CStr

-- `modules[32]` holds pointers, NULL at first; `none` is NULL.
pub record Table : Type 0 where
  pub modules : List (Option Module)
  pub module_count : ℕ

abbrev pub is_null {ℓ} : {A : Type ℓ} → Option A → Bool
is_null none = Bool.true
is_null (some _) = Bool.false

pub register : Table → Option Module → ℤ × Table
register t none = (negsuc 0, t)
register t (some m) =
    if is_null m.name
      || (is_null m.license || (is_null m.upstream_revision || (t.module_count == max_modules)))
    then (negsuc 0, t)
    else (
      pos 0,
      record {
        modules = set t.modules t.module_count (some m);
        module_count = u64 (t.module_count + 1);
      },
    )

pub module_count : Table → ℕ
module_count t = t.module_count
