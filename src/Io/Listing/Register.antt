-- ===== src/Io/Listing/Register.antt =====
-- `nova_device_register` on a state that shows a listing.
use mathlib.Core.Path.{subst}
use nova.Base.{
  ℕ, ◌+◌, ◌≡◌, ◌≢◌, inl, inr, refl, sym, ap, ◌∙◌, true, false, not, ◌&&◌, Option, none, some, ◌==◌,
  if◌then◌else◌, get_or, arith, Bool-cases, ne→==, eq→==, ==→eq,
}
use nova.Base.Words.{u32, pos, negsuc}
use nova.Base.Heap.{update, has}
use nova.Io.State.{Ptr, null, Device, World}
use nova.Io.Registry.{device_register}
use nova.Io.Registry.Register.{device_register-cases, major_of, next_major_of}
use nova.Io.Registry.Unlink.{unlinked, unlinked_eq}
use nova.Io.Listing.{
  register, code, invoke, Listing, enlist, expect_register, expect, is_some, fits, Shows, Meets,
}
use nova.Io.Listing.Lookups.{answered}

enlist-kept :
    (w : World) (l : Listing) (dev : Ptr) (d : Device) (r : Ptr)
    → Shows w l
    → unlinked
        (update w.devices dev (some (record d { major = major_of w d; next = w.registry })) r)
      ≡ (enlist dev (record d { next = null; prev = null }) l).infos r
enlist-kept w l dev d r s = elim (Bool-cases (r == dev)) [
  | inl t ↦ rw t (
      ap
        (λ n.
          some (record d { next = null; prev = null; major = if d.major == 0 then n else d.major }))
        s.numbers)
  | inr t ↦ rw t (s.kept r)
]

register_new :
    (w : World) (l : Listing) (fuel : ℕ) (dev : Ptr) (d : Device)
    → Shows w l
    → dev ≢ null
    → w.devices dev ≡ some d
    → has l.listed dev ≡ false
    → Meets
        (invoke fuel (register dev))
        w
        (expect_register dev (some (record d { next = null; prev = null })) l)
register_new w l fuel dev d s n a o =
    elim (device_register-cases w l.listed dev d s.chain s.free n a o) [
      | inl (z, run) ↦
          rw (eq→== (get_or d.name 0 0) 0 z)
            (answered (device_register dev) code w (negsuc 0) w l run s)
      | inr (h, z, run, c, same) ↦ rw (ne→== (get_or d.name 0 0) 0 z) (
          answered (device_register dev) code w (pos 0)
            (record w { devices = h; registry = dev; next_major = next_major_of w d })
            (enlist dev (record d { next = null; prev = null }) l) run
            (record {
              chain = c;
              free = s.free;
              kept = λ r. unlinked_eq (h r) _ (same r) ∙ enlist-kept w l dev d r s;
              numbers = ap (λ n. if d.major == 0 then u32 (n + 1) else n) s.numbers;
              started = s.started;
            }))
    ]

register_at :
    (w : World) (l : Listing) (fuel : ℕ) (dev : Ptr) (o : Option Device)
    → Shows w l
    → dev ≢ null
    → w.devices dev ≡ o
    → (not (has l.listed dev) && is_some (l.infos dev)) ≡ true
    → Meets (invoke fuel (register dev)) w (expect_register dev (l.infos dev) l)
register_at w l fuel dev none s n e a =
    let gone : l.infos dev ≡ none = sym (s.kept dev) ∙ ap unlinked e in
    absurd (ground (arith, ap is_some gone, a))
register_at w l fuel dev (some d) s n e a =
    let there : l.infos dev ≡ some (record d { next = null; prev = null }) =
      sym (s.kept dev) ∙ ap unlinked e in
    subst (λ o. Meets (invoke fuel (register dev)) w (expect_register dev o l)) (sym there)
      (register_new w l fuel dev d s n e (ground arith))

register_null : (w : World) → device_register null w ≡ some (negsuc 0, w)
unfolding device_register
register_null w = refl

pub register-Meets :
    (w : World) (l : Listing) (fuel : ℕ) (dev : Ptr)
    → Shows w l
    → fits (register dev) l ≡ true
    → Meets (invoke fuel (register dev)) w (expect (register dev) l)
register-Meets w l fuel dev s a = elim (Bool-cases (dev == null)) [
  | inl t ↦
      rw (==→eq dev null t)
        (answered (device_register null) code w (negsuc 0) w l (register_null w) s)
  | inr t ↦ rw t (
      register_at w l fuel dev (w.devices dev) s (λ e. ground (arith, eq→== dev null e, t)) refl
        (ground (arith, t, a)))
]
