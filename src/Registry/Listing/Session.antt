-- ===== src/Registry/Listing/Session.antt =====
-- The registry is the list that it promises to be, in every sequence of calls.
use mathlib.Core.Option
use nova.Base.{
  ℕ, zero, suc, ◌+◌, ◌-◌, ◌<◌, ◌≡◌, refl, sym, ap, ◌∙◌, inl, inr, some, List, [], ◌∷◌, ◌++◌, arith,
  length, length-set, take, set, ◌==◌, if◌then◌else◌, eq→==, ne→==, subst,
}
use nova.Base.Words.{pos}
use nova.Base.CString.{until_nul}
use nova.Registry.{Device, DeviceClass, DeviceState, detached, Registry, max_devices, init, find}
use nova.Registry.Inv.{
  At, IsValid, init-IsValid, registered, register_device-cases, register_device-IsValid, with_state,
  set_state-cases, set_state-IsValid,
}
use nova.Registry.Laws.{Info, info, lookup, with_info, find-registered, find-with_state}
use nova.Registry.Listing.Positions.{nth-append, nth-set_state, length-append_one}
use nova.Registry.Listing.{
  Call, registers, finds, sets, numbered, device, step, run, nth, expect, replies, Shows,
}

init-Shows : Shows init []
unfolding init find
init-Shows = record { valid = init-IsValid.0; number = refl; same = init_same }
  where
    init_same : (id : ℕ) → lookup init id ≡ nth [] id
    init_same zero = refl
    init_same (suc i) = ground arith

-- a registry that has taken a device
registered-Shows :
    (r : Registry) (items : List Info) (old : Device) (vendor_id device_id : ℕ)
    (class : DeviceClass) (name : List ℕ)
    → Shows r items
    → At r r.count old
    → r.count < max_devices
    → IsValid (registered r old vendor_id device_id class name)
    → Shows (registered r old vendor_id device_id class name) (
        items
        ++ ((length items + 1, vendor_id, device_id, class, detached, take 47 (until_nul name))
            ∷ []))
registered-Shows r items old vendor_id device_id class name s a room v =
    let t = take 47 (until_nul name) in
    record {
      valid = v;
      number = omega (
        arith,
        s.number,
        length-append_one items (length items + 1, vendor_id, device_id, class, detached, t),
      );
      same = λ id.
          find-registered r old vendor_id device_id class name id s.valid a room
          ∙ ap
              (λ n.
                if id == n + 1
                then some (n + 1, vendor_id, device_id, class, detached, t)
                else lookup r id)
              s.number
          ∙ ap
              (λ d.
                if id == length items + 1
                then some (length items + 1, vendor_id, device_id, class, detached, t)
                else d)
              (s.same id)
          ∙ sym (nth-append items (length items + 1, vendor_id, device_id, class, detached, t) id);
    }

register-Shows :
    (r : Registry) (items : List Info) (vendor_id device_id : ℕ) (class : DeviceClass)
    (name : List ℕ)
    → Shows r items
    → ((step r (registers vendor_id device_id class name)).0
        ≡ (expect items (registers vendor_id device_id class name)).0)
      × Shows
          (step r (registers vendor_id device_id class name)).1
          (expect items (registers vendor_id device_id class name)).1
unfolding step
register-Shows r items vendor_id device_id class name s =
    let v' = register_device-IsValid r vendor_id device_id class name s.valid in
    elim (register_device-cases r vendor_id device_id class name s.valid) [
      | inl (full, e) ↦ rw (e, eq→== (length items) max_devices (sym s.number ∙ full)) (refl, s)
      | inr (old, a, room, e) ↦
          rw (e, ne→== (length items) max_devices (λ x. omega (arith, s.number)))
            (
              ap (λ n. numbered (pos 0, some (n + 1))) s.number,
              registered-Shows r items old vendor_id device_id class name s a room
                  (subst IsValid (ap (λ x. x.2) e) v'),
            )
    ]

-- a registry that has set the state of a device
set-Shows :
    (r : Registry) (items : List Info) (id : ℕ) (d : Device) (state : DeviceState)
    → Shows r items
    → find r id ≡ some d
    → At r (id - 1) d
    → id - 1 < r.count
    → 0 < id
    → nth items id ≡ some (info d)
    → IsValid (with_state r id d state)
    → Shows (with_state r id d state) (set items (id - 1) (with_info state (info d)))
set-Shows r items id d state s f a low p g v = record {
  valid = v;
  number = s.number ∙ sym (length-set items (id - 1) (with_info state (info d)));
  same = λ j.
      find-with_state r id j d state s.valid f a low p
      ∙ ap (λ x. if j == id then Option.map (with_info state) x else x) (s.same j)
      ∙ sym (nth-set_state items id j (info d) state g);
}

sets-Shows :
    (r : Registry) (items : List Info) (id : ℕ) (state : DeviceState)
    → Shows r items
    → ((step r (sets id state)).0 ≡ (expect items (sets id state)).0)
      × Shows (step r (sets id state)).1 (expect items (sets id state)).1
unfolding step
sets-Shows r items id state s =
    let v' = set_state-IsValid r id state s.valid in
    elim (set_state-cases r id state s.valid) [
      | inl (n, e) ↦ rw (e, sym (s.same id) ∙ ap (Option.map info) n) (refl, s)
      | inr (d, f, a, low, p, e) ↦
          let g : nth items id ≡ some (info d) = sym (s.same id) ∙ ap (Option.map info) f in
          rw (e, g)
            (refl, set-Shows r items id d state s f a low p g (subst IsValid (ap (λ x. x.1) e) v'))
    ]

step-Shows :
    (r : Registry) (items : List Info) (c : Call)
    → Shows r items
    → ((step r c).0 ≡ (expect items c).0) × Shows (step r c).1 (expect items c).1
unfolding step
step-Shows r items (registers vendor_id device_id class name) s =
    register-Shows r items vendor_id device_id class name s
step-Shows r items (finds id) s = (ap device (s.same id), s)
step-Shows r items (sets id state) s = sets-Shows r items id state s

run_listed :
    (r : Registry) (items : List Info) (cs : List Call)
    → Shows r items
    → ((run r cs).0 ≡ (replies items cs).0) × Shows (run r cs).1 (replies items cs).1
unfolding run
run_listed r items [] s = (refl, s)
run_listed r items (c ∷ cs) s =
    let (a, s') = step-Shows r items c s in
    let (rest, last) = run_listed (step r c).1 (expect items c).1 cs s' in
    (ap (λ x. x ∷ (run (step r c).1 cs).0) a ∙ ap (λ r. (expect items c).0 ∷ r) rest, last)

-- After `novakit_registry_init`, every sequence of registrations, look-ups and changes of state
-- answers as a list of up to 64 devices does, in which a device's id is its position, counted from 1,
-- and its name is the first 47 bytes of the string given. The registry that is left looks up every id
-- as that list does.
pub run-lists :
    (cs : List Call)
    → ((run init cs).0 ≡ (replies [] cs).0) × Shows (run init cs).1 (replies [] cs).1
run-lists cs = run_listed init [] cs init-Shows
