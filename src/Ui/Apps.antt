-- ===== src/Ui/Apps.antt =====
-- When applications can be launched.
use nova.Base.{
  ℕ, ◌≡◌, refl, ◌≢◌, ◌⊎◌, inl, inr, Option, none, some, List, [], ◌∷◌, arith, Bool-cases, ◌==◌,
}
use nova.Base.Words.{pos, negsuc}
use nova.Ui.{
  desktop, Context, CStr, boot_desktop, launch_compat_shell, from_serial_shell, launch_linux_app,
  launch_windows_app,
}
use nova.Ui.Commands.{AsksText, launch_compat_shell-cases, from_serial_shell-cases}
use nova.Ui.Inv.{Call, boots, compats, shells, linux_apps, windows_apps, call, run_from}

-- Both launchers succeed exactly with a path on a context whose desktop is ready, and then only turn
-- the mode to the desktop; else they change nothing, and return -1 for a missing path and -2 for a
-- desktop that is not ready.
pub launch_app_lem :
    (ctx : Context) (path args : CStr)
    → (launch_windows_app (some ctx) path args ≡ launch_linux_app (some ctx) path args)
      × (((path ≢ none)
            × (ctx.desktop_ready ≢ 0)
            × (launch_linux_app (some ctx) path args
                ≡ (pos 0, some (record ctx { current_mode = desktop }))))
          ⊎ ((path ≡ none) × (launch_linux_app (some ctx) path args ≡ (negsuc 0, some ctx)))
          ⊎ ((path ≢ none)
              × (ctx.desktop_ready ≡ 0)
              × (launch_linux_app (some ctx) path args ≡ (negsuc 1, some ctx))))
unfolding launch_linux_app launch_windows_app
launch_app_lem ctx none args = (refl, inr (inl (refl, refl)))
launch_app_lem ctx (some path) args = elim (Bool-cases (ctx.desktop_ready == 0)) [
  | inl e ↦ (refl, inr (inr (λ x. cc, ground arith, rw e)))
  | inr e ↦ (refl, inl (λ x. cc, ground arith, rw e))
]

-- No call of the sequence is a command line that asks for text mode.
abbrev pub NoText : List Call → Type 0
NoText [] = Unit {0}
NoText (shells (some c) ∷ cs) = (¬ AsksText c) × NoText cs
NoText (_ ∷ cs) = NoText cs

abbrev pub DesktopReady : Option Context → Type 0
DesktopReady none = ⊥
DesktopReady (some ctx) = ctx.desktop_ready ≡ 1

shells-DesktopReady :
    (ctx : Context) (c : List ℕ)
    → ¬ AsksText c
    → ctx.desktop_ready ≡ 1
    → DesktopReady (from_serial_shell (some ctx) (some c)).1
shells-DesktopReady ctx c n r = elim (from_serial_shell-cases ctx c) [
  | inl (d, e) ↦ rw e refl
  | inr (inl (d, k, p, e)) ↦ rw e refl
  | inr (inr (inl (d, k, p, e))) ↦ rw e r
  | inr (inr (inr (inl (d, k, t, e)))) ↦ absurd (n t)
  | inr (inr (inr (inr (d, k, t, e)))) ↦ rw e r
]

app-DesktopReady :
    (ctx : Context) (path args : CStr)
    → ctx.desktop_ready ≡ 1
    → DesktopReady (launch_linux_app (some ctx) path args).1
app-DesktopReady ctx path args r = elim (launch_app_lem ctx path args).1 [
  | inl (a, b, e) ↦ rw e r
  | inr (inl (a, e)) ↦ rw e r
  | inr (inr (a, b, e)) ↦ rw e r
]

compat-DesktopReady :
    (ctx : Context) → ctx.desktop_ready ≡ 1 → DesktopReady (launch_compat_shell (some ctx)).1
compat-DesktopReady ctx r = elim (launch_compat_shell-cases ctx) [
  | inl (p, e) ↦ rw e refl
  | inr (p, e) ↦ rw e r
]

no_command-DesktopReady :
    (ctx : Context) → ctx.desktop_ready ≡ 1 → DesktopReady (from_serial_shell (some ctx) none).1
unfolding from_serial_shell
no_command-DesktopReady ctx r = r

run_from-DesktopReady :
    (o : Option Context) (cs : List Call)
    → NoText cs
    → DesktopReady o
    → DesktopReady (run_from o cs)
unfolding run_from call boot_desktop
run_from-DesktopReady o [] n r = r
run_from-DesktopReady none (c ∷ cs) n r = absurd r
run_from-DesktopReady (some ctx) (boots ∷ cs) n r =
    run_from-DesktopReady (boot_desktop (some ctx)).1 cs n refl
run_from-DesktopReady (some ctx) (compats ∷ cs) n r =
    run_from-DesktopReady (launch_compat_shell (some ctx)).1 cs n (compat-DesktopReady ctx r)
run_from-DesktopReady (some ctx) (shells none ∷ cs) n r =
    run_from-DesktopReady (call ctx (shells none)).1 cs n (no_command-DesktopReady ctx r)
run_from-DesktopReady (some ctx) (shells (some c) ∷ cs) n r =
    run_from-DesktopReady (from_serial_shell (some ctx) (some c)).1 cs n.1
      (shells-DesktopReady ctx c n.0 r)
run_from-DesktopReady (some ctx) (linux_apps path args ∷ cs) n r =
    run_from-DesktopReady (launch_linux_app (some ctx) path args).1 cs n
      (app-DesktopReady ctx path args r)
run_from-DesktopReady (some ctx) (windows_apps path args ∷ cs) n r =
    run_from-DesktopReady (launch_windows_app (some ctx) path args).1 cs n
      (rw (launch_app_lem ctx path args).0 (app-DesktopReady ctx path args r))

abbrev pub Launches : Option Context → CStr → CStr → Type 0
Launches none path args = ⊥
Launches (some ctx) path args = (launch_linux_app (some ctx) path args).0 ≡ pos 0

-- Once the desktop has been booted, and whatever calls follow that do not ask for text mode, an
-- application with a path can be launched.
pub boot_desktop-Launches :
    (ctx : Context) (cs : List Call) (path : List ℕ) (args : CStr)
    → NoText cs
    → Launches (run_from (boot_desktop (some ctx)).1 cs) (some path) args
unfolding boot_desktop
boot_desktop-Launches ctx cs path args n =
    finish (run_from (boot_desktop (some ctx)).1 cs)
      (run_from-DesktopReady (boot_desktop (some ctx)).1 cs n refl)
  where
    finish : (o : Option Context) → DesktopReady o → Launches o (some path) args
    finish none r = absurd r
    finish (some c) r = elim (launch_app_lem c (some path) args).1 [
      | inl (a, b, e) ↦ rw e refl
      | inr (inl (a, e)) ↦ cc
      | inr (inr (a, b, e)) ↦ absurd (omega arith)
    ]
