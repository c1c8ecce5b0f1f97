-- ===== src/Io/Listing/Session.antt =====
-- Sequences of calls on the registry.
use nova.Base.{
  ℕ, ◌+◌, ◌<◌, ◌≤◌, ◌≡◌, ◌∙◌, inl, inr, refl, Bool, true, false, Option, none, some, List, [], ◌∷◌,
  length, ◌==◌, get_or, arith, Bool-cases,
}
use nova.Base.Heap.{has, without}
use nova.Io.State.{Ptr, null, Device, World}
use nova.Io.Calls.{bind-some}
use nova.Io.Listing.{
  Call, init, shutdown, register, unregister, find, get_by_number, invoke, run, Listing,
  expect_register, expect_init, expect_shutdown, expect, replies, all_fit, Shows, Meets,
}
use nova.Io.Listing.Steps.{invoke-Meets}

length-without : (ps : List Ptr) (q : Ptr) → length (without ps q) ≤ length ps
length-without [] q = omega arith
length-without (p ∷ ps) q = ground (arith, length-without ps q)

length-init : (b : Bool) (l : Listing) → length (expect_init b l).listed ≤ length l.listed
length-init true l = omega arith
length-init false l = omega arith

length-shutdown : (b : Bool) (l : Listing) → length (expect_shutdown b l).listed ≤ length l.listed
length-shutdown true l = omega arith
length-shutdown false l = omega arith

length-register :
    (dev : Ptr) (o : Option Device) (l : Listing)
    → length (expect_register dev o l).1.listed ≤ length l.listed + 1
length-register dev none l = omega arith
length-register dev (some d) l = elim (Bool-cases (get_or d.name 0 0 == 0)) [
  | inl t ↦ rw t (omega arith)
  | inr t ↦ rw t (omega arith)
]

-- A call lists one device more at most.
length-expect : (c : Call) (l : Listing) → length (expect c l).1.listed ≤ length l.listed + 1
length-expect init l = ground (arith, length-init l.initialized l)
length-expect shutdown l = ground (arith, length-shutdown l.initialized l)
length-expect (register dev) l = elim (Bool-cases (dev == null)) [
  | inl t ↦ rw t (omega arith)
  | inr t ↦ rw t (length-register dev (l.infos dev) l)
]
length-expect (unregister dev) l = elim (Bool-cases (has l.listed dev)) [
  | inl t ↦ rw t (omega (arith, length-without l.listed dev))
  | inr t ↦ rw t (omega arith)
]
length-expect (find none) l = omega arith
length-expect (find (some path)) l = omega arith
length-expect (get_by_number major minor) l = omega arith

-- Let the state show a listing, and let each of the calls fit when its turn comes: no call registers
-- a device that is listed, or an address without a device. With more fuel than there are devices
-- listed and calls to make, the calls of io_stack.c end, give the answers that the listing gives, and
-- leave a state that shows the listing that they make of it, with the lock free.
pub run-Meets :
    (w : World) (l : Listing) (calls : List Call) (fuel : ℕ)
    → Shows w l
    → all_fit calls l ≡ true
    → length l.listed + length calls < fuel
    → Meets (run fuel calls) w (replies calls l)
unfolding run
run-Meets w l [] fuel s a f = (w, refl, s)
run-Meets w l (c ∷ cs) fuel s a f =
    let (v, e, t) = invoke-Meets w l fuel c s (ground (arith, a)) (omega arith) in
    let more = length-expect c l in
    let (x, e', t') =
      run-Meets v (expect c l).1 cs fuel t (ground (arith, a)) (omega (arith, more)) in
    (x, bind-some (invoke fuel c) _ w e ∙ bind-some (run fuel cs) _ v e', t')
