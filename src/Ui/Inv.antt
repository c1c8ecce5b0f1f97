-- ===== src/Ui/Inv.antt =====
-- What holds of a boot context between calls.
use nova.Base.{
  ◌≡◌, refl, subst, ◌≤◌, ◌≢◌, inl, inr, Option, none, some, List, [], ◌∷◌, arith, Bool-cases, ◌==◌,
}
use nova.Ui.{
  Plan, Context, CStr, Reply, prepare, boot_desktop, launch_compat_shell, from_serial_shell,
  launch_linux_app, launch_windows_app,
}
use nova.Ui.Commands.{Permits, launch_compat_shell-cases, from_serial_shell-cases}

-- The flags are 0 or 1; whatever runs, runs in a session, and the compatibility shell on the desktop
-- of a plan that permits it.
pub record IsSane (ctx : Context) : Type 0 where
  pub serial : ctx.serial_ready ≡ 1
  pub session_flag : ctx.session_started ≤ 1
  pub userland_session : ctx.userland_ready ≤ ctx.session_started
  pub desktop_session : ctx.desktop_ready ≤ ctx.session_started
  pub compat_desktop : ctx.compat_shell_ready ≤ ctx.desktop_ready
  pub compat_permitted : ctx.compat_shell_ready ≢ 0 → Permits ctx.plan

pub data Call : Type 0 where
  boots : Call
  compats : Call
  shells : CStr → Call
  linux_apps : CStr → CStr → Call
  windows_apps : CStr → CStr → Call

unfoldable pub call : Context → Call → Reply
call ctx boots = boot_desktop (some ctx)
call ctx compats = launch_compat_shell (some ctx)
call ctx (shells c) = from_serial_shell (some ctx) c
call ctx (linux_apps path args) = launch_linux_app (some ctx) path args
call ctx (windows_apps path args) = launch_windows_app (some ctx) path args

abbrev pub SaneFor : Plan → Option Context → Type 0
SaneFor plan none = ⊥
SaneFor plan (some ctx) = IsSane ctx × (ctx.plan ≡ plan)

call-SaneFor : (ctx : Context) (c : Call) → IsSane ctx → SaneFor ctx.plan (call ctx c).1
unfolding call boot_desktop launch_linux_app launch_windows_app from_serial_shell
call-SaneFor ctx boots s = (ground arith, refl)
call-SaneFor ctx compats s = elim (launch_compat_shell-cases ctx) [
  | inl (p, e) ↦ rw e (ground arith, refl)
  | inr (p, e) ↦ rw e (s, refl)
]
call-SaneFor ctx (shells none) s = (s, refl)
call-SaneFor ctx (shells (some c)) s = elim (from_serial_shell-cases ctx c) [
  | inl (d, e) ↦ rw e (ground arith, refl)
  | inr (inl (d, k, p, e)) ↦ rw e (ground arith, refl)
  | inr (inr (inl (d, k, p, e))) ↦ rw e (ground arith, refl)
  | inr (inr (inr (inl (d, k, t, e)))) ↦ rw e (ground arith, refl)
  | inr (inr (inr (inr (d, k, t, e)))) ↦ rw e (s, refl)
]
call-SaneFor ctx (linux_apps none args) s = (s, refl)
call-SaneFor ctx (linux_apps (some path) args) s = elim (Bool-cases (ctx.desktop_ready == 0)) [
  | inl e ↦ rw e (s, refl)
  | inr e ↦ rw e (ground arith, refl)
]
call-SaneFor ctx (windows_apps none args) s = (s, refl)
call-SaneFor ctx (windows_apps (some path) args) s = elim (Bool-cases (ctx.desktop_ready == 0)) [
  | inl e ↦ rw e (s, refl)
  | inr e ↦ rw e (ground arith, refl)
]

unfoldable pub run_from : Option Context → List Call → Option Context
run_from ctx [] = ctx
run_from none (c ∷ cs) = none
run_from (some ctx) (c ∷ cs) = run_from (call ctx c).1 cs

run_from-SaneFor :
    (plan : Plan) (o : Option Context) (cs : List Call)
    → SaneFor plan o
    → SaneFor plan (run_from o cs)
unfolding run_from
run_from-SaneFor plan o [] s = s
run_from-SaneFor plan none (c ∷ cs) s = absurd s
run_from-SaneFor plan (some ctx) (c ∷ cs) s =
    run_from-SaneFor plan (call ctx c).1 cs
      (subst (λ p. SaneFor p (call ctx c).1) s.1 (call-SaneFor ctx c s.0))

-- After `nova_ui_boot_prepare`, any sequence of calls leaves a sane context with the plan given.
pub prepare_run-SaneFor :
    (ctx : Context) (plan : Plan) (cs : List Call)
    → SaneFor plan (run_from (prepare (some ctx) (some plan)).1 cs)
unfolding prepare
prepare_run-SaneFor ctx plan cs =
    run_from-SaneFor plan (prepare (some ctx) (some plan)).1 cs (ground arith, refl)
