-- ===== src/Io/Listing/Lookups.antt =====
-- The calls that look devices up, on a state that shows a listing.
use nova.Base.{ℕ, ◌<◌, ◌≡◌, refl, sym, ap, ◌∙◌, Bool, Option, none, some, List, [], ◌∷◌, length}
use nova.Io.State.{Ptr, null, Device, World, Cmd, pure, ◌>>=◌}
use nova.Io.Calls.{bind-some}
use nova.Io.Registry.{device_find, device_get_by_major_minor, has_path, has_number}
use nova.Io.Registry.Find.{device_find_lem}
use nova.Io.Registry.Unlink.{unlinked}
use nova.Io.Chain.{passes, first_where}
use nova.Io.Listing.{find, get_by_number, Answer, address, invoke, Listing, expect, Shows, Meets}

-- a command and the way its result is answered
pub answered :
    {A : Type 0} (m : Cmd A) (f : A → Answer) (w : World) (a : A) (v : World) (l : Listing)
    → m w ≡ some (a, v)
    → Shows v l
    → Meets (do x ← m; pure (f x)) w (f a, l)
answered m f w a v l e s = (v, bind-some m (λ x. pure (f x)) w e, s)

-- A test that does not look at links gives the same devices of the listing and of the state.
passes-unlinked :
    (test : Device → Bool)
    → ((d : Device) → test (record d { next = null; prev = null }) ≡ test d)
    → (o : Option Device) (p : Ptr) → passes (λ q. unlinked o) test p ≡ passes (λ q. o) test p
passes-unlinked test same none p = refl
passes-unlinked test same (some d) p = same d

first_where-listed :
    (w : World) (l : Listing) (test : Device → Bool) (ps : List Ptr)
    → Shows w l
    → ((d : Device) → test (record d { next = null; prev = null }) ≡ test d)
    → first_where w.devices test ps ≡ first_where l.infos test ps
first_where-listed w l test [] s same = refl
first_where-listed w l test (p ∷ ps) s same =
    let one : passes l.infos test p ≡ passes w.devices test p =
      ap (λ o. passes (λ q. o) test p) (sym (s.kept p))
      ∙ passes-unlinked test same (w.devices p) p in
    rw (one, first_where-listed w l test ps s same)

pub find-Meets :
    (w : World) (l : Listing) (fuel : ℕ) (path : Option (List ℕ))
    → Shows w l
    → length l.listed < fuel
    → Meets (invoke fuel (find path)) w (expect (find path) l)
unfolding device_find
find-Meets w l fuel none s f = (w, refl, s)
find-Meets w l fuel (some path) s f =
    answered (device_find fuel (some path)) address w _ w l
      ((device_find_lem w l.listed fuel s.chain f s.free).0 path
        ∙ ap (λ p. some (p, w)) (first_where-listed w l (has_path path) l.listed s (λ d. refl)))
      s

pub get-Meets :
    (w : World) (l : Listing) (fuel major minor : ℕ)
    → Shows w l
    → length l.listed < fuel
    → Meets (invoke fuel (get_by_number major minor)) w (expect (get_by_number major minor) l)
get-Meets w l fuel major minor s f =
    answered (device_get_by_major_minor fuel major minor) address w _ w l
      ((device_find_lem w l.listed fuel s.chain f s.free).1 major minor
        ∙ ap (λ p. some (p, w))
            (first_where-listed w l (has_number major minor) l.listed s (λ d. refl)))
      s
