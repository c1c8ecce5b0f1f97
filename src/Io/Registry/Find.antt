-- ===== src/Io/Registry/Find.antt =====
-- The look-ups of the registry on a chain.
use nova.Base.{ℕ, ◌<◌, ◌≡◌, sym, ap, Bool, true, false, some, List, length}
use nova.Io.State.{Ptr, Device, World, ◌>>=◌}
use nova.Io.Registry.{
  lock_registry, unlock_registry, search, locked_search, has_path, has_number, device_find,
  device_get_by_major_minor,
}
use nova.Io.Chain.{Chain, first_where, find_where-first_where}

pub lock_lem :
    (w : World) → w.locked ≡ false → lock_registry w ≡ some (tt, record w { locked = true })
unfolding lock_registry
lock_lem w e = rw (e, lock_registry)

pub unlocked : (w : World) → w.locked ≡ false → record w { locked = false } ≡ w
unlocked w e = ap (λ b. record w { locked = b }) (sym e)

locked_search_lem :
    (w : World) (ps : List Ptr) (fuel : ℕ) (test : Device → Bool)
    → Chain w.devices w.registry ps
    → length ps < fuel
    → w.locked ≡ false
    → locked_search test fuel w ≡ some (first_where w.devices test ps, w)
unfolding unlock_registry
locked_search_lem w ps fuel test c f e =
    rw (lock_lem w e, ◌>>=◌)
      (rw (find_where-first_where test fuel c f, search, ◌>>=◌)
        (ap (λ v. some (first_where w.devices test ps, v)) (unlocked w e)))

-- On a chain whose lock is free, with more fuel than devices, `nova_device_find` and
-- `nova_device_get_by_major_minor` end, give the first device with the path or with the numbers, or
-- NULL, release the lock and change nothing.
pub device_find_lem :
    (w : World) (ps : List Ptr) (fuel : ℕ)
    → Chain w.devices w.registry ps
    → length ps < fuel
    → w.locked ≡ false
    → ((path : List ℕ)
        → device_find fuel (some path) w ≡ some (first_where w.devices (has_path path) ps, w))
      × ((major minor : ℕ)
          → device_get_by_major_minor fuel major minor w
            ≡ some (first_where w.devices (has_number major minor) ps, w))
unfolding device_find device_get_by_major_minor
device_find_lem w ps fuel c f e = (
  λ path. locked_search_lem w ps fuel (has_path path) c f e,
  λ major minor. locked_search_lem w ps fuel (has_number major minor) c f e,
)
