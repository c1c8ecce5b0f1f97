-- ===== src/CoreModule/Examples.antt =====
-- Tests of the FreeBSD module, with the numbers that FreeBSD has for its events.
use nova.Base.{◌≡◌, refl, [], ◌∷◌}
use nova.Base.Words.{ℤ, pos}
use nova.Base.CString.{codes}
use nova.CoreModule.{modevent}

abbrev mod_load : ℤ
mod_load = pos 0

abbrev mod_unload : ℤ
mod_unload = pos 1

abbrev mod_shutdown : ℤ
mod_shutdown = pos 2

abbrev eopnotsupp : ℤ
eopnotsupp = pos 45

loads :
    modevent mod_load mod_unload eopnotsupp [] mod_load
    ≡ (pos 0, codes "NovaOS core module loaded\n" ∷ [])
unfolding modevent
loads = refl

refuses_shutdown : modevent mod_load mod_unload eopnotsupp [] mod_shutdown ≡ (eopnotsupp, [])
unfolding modevent
refuses_shutdown = refl
