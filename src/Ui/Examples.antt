-- ===== src/Ui/Examples.antt =====
-- Tests of the boot path, and its theorems at concrete plans.
use nova.Base.{◌≡◌, ◌≢◌, refl, ◌⊎◌, some, none, List, [], ◌∷◌}
use nova.Base.Words.{pos, negsuc}
use nova.Base.CString.{codes}
use nova.Ui.{
  Plan, Context, text, desktop, compat, prepare, boot_desktop, from_serial_shell, launch_linux_app,
  launch_windows_app, starts_with, is_ui_command,
}
use nova.Ui.Commands.{
  AsksDesktop, AsksCompat, AsksText, Permits, desktop_up, compat_up, text_up,
  from_serial_shell-cases,
}
use nova.Ui.Inv.{Call, boots, compats, linux_apps, SaneFor, run_from, prepare_run-SaneFor}
use nova.Ui.Apps.{Launches, launch_app_lem, boot_desktop-Launches}

abbrev bare_plan : Plan
bare_plan = record {
  mode = text;
  display_server = none;
  session_manager = none;
  desktop_shell = none;
  compat_shell = none;
  kernel_console_device = none;
  vm_display_device = none;
  auto_start_desktop = 0;
  enable_compat_shell = 0;
}

abbrev booted : Context
booted = record {
  plan = bare_plan;
  current_mode = text;
  serial_ready = 1;
  userland_ready = 0;
  session_started = 0;
  desktop_ready = 0;
  compat_shell_ready = 0;
}

starts_desktop :
    from_serial_shell (some booted) (some (codes "ui desktop now"))
    ≡ (pos 0, some (desktop_up booted))
unfolding from_serial_shell starts_with is_ui_command
starts_desktop = refl

-- The request is refused, and the mode is changed.
refused_compat_changes_mode :
    from_serial_shell (some booted) (some (codes "compat"))
    ≡ (negsuc 1, some (record booted { current_mode = compat }))
unfolding from_serial_shell starts_with is_ui_command
refused_compat_changes_mode = refl

from_serial_shell-cases_example :
    let c = codes "compat" in
    (AsksDesktop c × (from_serial_shell (some booted) (some c) ≡ (pos 0, some (desktop_up booted))))
    ⊎ (¬ AsksDesktop c)
      × AsksCompat c
      × Permits booted.plan
      × (from_serial_shell (some booted) (some c) ≡ (pos 0, some (compat_up booted)))
    ⊎ (¬ AsksDesktop c)
      × AsksCompat c
      × (¬ Permits booted.plan)
      × (from_serial_shell (some booted) (some c)
          ≡ (negsuc 1, some (record booted { current_mode = compat })))
    ⊎ (¬ AsksDesktop c)
      × (¬ AsksCompat c)
      × AsksText c
      × (from_serial_shell (some booted) (some c) ≡ (pos 0, some (text_up booted)))
    ⊎ (¬ AsksDesktop c)
      × (¬ AsksCompat c)
      × (¬ AsksText c)
      × (from_serial_shell (some booted) (some c) ≡ (negsuc 1, some booted))
from_serial_shell-cases_example = from_serial_shell-cases booted (codes "compat")

abbrev session : List Call
session = boots ∷ compats ∷ linux_apps none none ∷ []

prepare_run-SaneFor_example :
    SaneFor bare_plan (run_from (prepare (some booted) (some bare_plan)).1 session)
prepare_run-SaneFor_example = prepare_run-SaneFor booted bare_plan session

launch_app_lem_example :
    (launch_windows_app (some booted) (some (codes "a.exe")) none
      ≡ launch_linux_app (some booted) (some (codes "a.exe")) none)
    × ((((some (codes "a.exe")) ≢ none)
          × (booted.desktop_ready ≢ 0)
          × (launch_linux_app (some booted) (some (codes "a.exe")) none
              ≡ (pos 0, some (record booted { current_mode = desktop }))))
        ⊎ (((some (codes "a.exe")) ≡ none)
            × (launch_linux_app (some booted) (some (codes "a.exe")) none
                ≡ (negsuc 0, some booted)))
        ⊎ (((some (codes "a.exe")) ≢ none)
            × (booted.desktop_ready ≡ 0)
            × (launch_linux_app (some booted) (some (codes "a.exe")) none
                ≡ (negsuc 1, some booted))))
launch_app_lem_example = launch_app_lem booted (some (codes "a.exe")) none

boot_desktop-Launches_example :
    Launches (run_from (boot_desktop (some booted)).1 session) (some (codes "sh")) none
boot_desktop-Launches_example = boot_desktop-Launches booted session (codes "sh") none tt
