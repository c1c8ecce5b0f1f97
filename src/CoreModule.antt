-- ===== src/CoreModule.antt =====
-- kernel/modules/nova_core/nova_core.c: what the FreeBSD kernel calls when it loads or unloads the
-- module. The numbers of the events and of the error come from FreeBSD's headers and are parameters.
mod Examples
use nova.Base.{ℕ, Bool, false, List, [], ◌∷◌, ◌++◌, ◌==◌, if◌then◌else◌}
use nova.Base.Words.{ℤ, pos, negsuc}
use nova.Base.CString.{codes}

abbrev same_int : ℤ → ℤ → Bool
same_int (pos m) (pos n) = m == n
same_int (pos m) (negsuc n) = false
same_int (negsuc m) (pos n) = false
same_int (negsuc m) (negsuc n) = m == n

module _ (mod_load mod_unload eopnotsupp : ℤ) where
  -- The list holds the calls of `uprintf`, the last one at the end.
  pub modevent : List (List ℕ) → ℤ → ℤ × List (List ℕ)
  modevent printed event =
      if same_int event mod_load
      then (pos 0, printed ++ (codes "NovaOS core module loaded\n" ∷ []))
      else if same_int event mod_unload
      then (pos 0, printed ++ (codes "NovaOS core module unloaded\n" ∷ []))
      else (eopnotsupp, printed)
