-- ===== src/Ui.antt =====
-- userland/uimode/desktop/ui_boot_path.c: the way from the serial shell to a desktop session.
-- A pointer that may be NULL is an option; a function that writes through `ctx` returns it.
pub mod Commands
pub mod Inv
pub mod Apps
mod Examples
use nova.Base.{ℕ, Bool, true, false, ◌&&◌, ◌||◌, Option, none, some, List, ◌==◌, if◌then◌else◌}
use nova.Base.Words.{ℤ, pos, negsuc}
use nova.Base.CString.{codes, str_eq, strn_eq, strlen}

pub data Mode : Type 0 where
  text desktop compat : Mode

abbrev pub CStr : Type 0
CStr = Option (List ℕ)

pub record Plan : Type 0 where
  pub mode : Mode
  pub display_server : CStr
  pub session_manager : CStr
  pub desktop_shell : CStr
  pub compat_shell : CStr
  pub kernel_console_device : CStr
  pub vm_display_device : CStr
  pub auto_start_desktop : ℕ
  pub enable_compat_shell : ℕ

pub record Context : Type 0 where
  pub plan : Plan
  pub current_mode : Mode
  pub serial_ready : ℕ
  pub userland_ready : ℕ
  pub session_started : ℕ
  pub desktop_ready : ℕ
  pub compat_shell_ready : ℕ

-- The return code beside the context, which a NULL pointer does not lead to.
abbrev pub Reply : Type 0
Reply = ℤ × Option Context

unfoldable pub starts_with : List ℕ → List ℕ → Bool
starts_with value prefix = strn_eq value prefix (strlen prefix)

unfoldable pub is_ui_command : CStr → List ℕ → Bool
is_ui_command none name = false
is_ui_command (some command) name = str_eq command name

pub prepare : Option Context → Option Plan → Reply
prepare none plan = (negsuc 0, none)
prepare (some ctx) none = (negsuc 0, some ctx)
prepare (some ctx) (some plan) = (
  pos 0,
  some (record {
    plan = plan;
    current_mode = plan.mode;
    serial_ready = 1;
    userland_ready = 0;
    session_started = 0;
    desktop_ready = 0;
    compat_shell_ready = 0;
  }),
)

pub boot_desktop : Option Context → Reply
boot_desktop none = (negsuc 0, none)
boot_desktop (some ctx) = (
  pos 0,
  some (record ctx {
    userland_ready = 1;
    session_started = 1;
    desktop_ready = 1;
    current_mode = desktop;
  }),
)

abbrev pub is_null : CStr → Bool
is_null none = true
is_null (some _) = false

pub launch_compat_shell : Option Context → Reply
launch_compat_shell none = (negsuc 0, none)
launch_compat_shell (some ctx) =
    if (ctx.plan.enable_compat_shell == 0) && is_null ctx.plan.vm_display_device
    then (negsuc 1, some ctx)
    else (
      pos 0,
      some (record ctx {
        compat_shell_ready = 1;
        current_mode = compat;
        desktop_ready = 1;
        session_started = 1;
      }),
    )

-- the three tests of `nova_ui_boot_from_serial_shell`, in its order
abbrev pub asks_desktop : List ℕ → Bool
asks_desktop c =
    is_ui_command (some c) (codes "desktop")
    || (starts_with c (codes "ui desktop") || starts_with c (codes "start desktop"))

abbrev pub asks_compat : List ℕ → Bool
asks_compat c =
    is_ui_command (some c) (codes "compat")
    || (starts_with c (codes "ui compat") || starts_with c (codes "compat shell"))

abbrev pub asks_text : List ℕ → Bool
asks_text c = is_ui_command (some c) (codes "text") || starts_with c (codes "ui text")

pub from_serial_shell : Option Context → CStr → Reply
unfolding boot_desktop launch_compat_shell
from_serial_shell none command = (negsuc 0, none)
from_serial_shell (some ctx) none = (negsuc 0, some ctx)
from_serial_shell (some ctx) (some c) =
    if asks_desktop c
    then boot_desktop (some (record ctx { current_mode = desktop }))
    else if asks_compat c
    then launch_compat_shell (some (record ctx { current_mode = compat }))
    else if asks_text c
    then (
      pos 0,
      some (record ctx { current_mode = text; desktop_ready = 0; compat_shell_ready = 0 }),
    )
    else (negsuc 1, some ctx)

-- `args` is not used.
pub launch_linux_app : Option Context → CStr → CStr → Reply
launch_linux_app none path args = (negsuc 0, none)
launch_linux_app (some ctx) none args = (negsuc 0, some ctx)
launch_linux_app (some ctx) (some path) args =
    if ctx.desktop_ready == 0
    then (negsuc 1, some ctx)
    else (pos 0, some (record ctx { current_mode = desktop }))

pub launch_windows_app : Option Context → CStr → CStr → Reply
launch_windows_app none path args = (negsuc 0, none)
launch_windows_app (some ctx) none args = (negsuc 0, some ctx)
launch_windows_app (some ctx) (some path) args =
    if ctx.desktop_ready == 0
    then (negsuc 1, some ctx)
    else (pos 0, some (record ctx { current_mode = desktop }))
