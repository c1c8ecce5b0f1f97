-- ===== src/Net/Devices/Find.antt =====
-- `nova_netdev_find` on a chain.
use nova.Base.{ℕ, zero, suc, ◌<◌, ◌≡◌, refl, some, List, arith, length}
use nova.Net.State.{Ptr, World}
use nova.Net.Devices.{find_from, find, search}
use nova.Net.Devices.Chain.{Devices, Chain, stop, link, first_named}

-- With more fuel than devices, the walk ends at the first device of the name.
pub find_from-first_named :
    {h : Devices} {p : Ptr} {ps : List Ptr} (fuel : ℕ) (name : List ℕ)
    → Chain h p ps
    → length ps < fuel
    → find_from h fuel p name ≡ some (first_named h ps name)
unfolding find_from
find_from-first_named zero name c f = absurd (omega arith)
find_from-first_named (suc fuel) name stop f = refl
find_from-first_named {h} (suc fuel) name (link {p} {d} n a e out c) f =
    ground (arith, find_from-first_named fuel name c (omega arith))

-- On a chain, with more fuel than devices, `nova_netdev_find` ends and gives the first device of the
-- name, or NULL; it changes nothing.
pub find-first_named :
    (w : World) (ps : List Ptr) (fuel : ℕ) (name : List ℕ)
    → Chain w.devices w.registry ps
    → length ps < fuel
    → find fuel (some name) w ≡ some (first_named w.devices ps name, w)
unfolding find
find-first_named w ps fuel name c f = rw (find_from-first_named fuel name c f, search)
