-- ===== src/Io/Calls.antt =====
-- What loads and sequences of commands compute to.
use nova.Base.{◌≡◌, ◌≢◌, some, ne→==}
use nova.Io.State.{Ptr, null, Device, Request, World, Cmd, ◌>>=◌, load_dev, load_req}

pub bind-some :
    {A B : Type 0} (m : Cmd A) (k : A → Cmd B) (w : World) {v : World} {a : A}
    → m w ≡ some (a, v)
    → (m >>= k) w ≡ k a v
bind-some m k w e = rw (◌>>=◌, e)

pub load_dev_lem :
    (w : World) (p : Ptr) (d : Device)
    → p ≢ null
    → w.devices p ≡ some d
    → load_dev p w ≡ some (d, w)
load_dev_lem w p d n a = rw (ne→== p null n) (rw a)

pub load_req_lem :
    (w : World) (p : Ptr) (r : Request)
    → p ≢ null
    → w.requests p ≡ some r
    → load_req p w ≡ some (r, w)
load_req_lem w p r n a = rw (ne→== p null n) (rw a)
