-- ===== src/Ui/Commands.antt =====
-- Which command lines ask for which mode, and what the serial shell's request then does.
use nova.Base.{
  ℕ, ◌≡◌, refl, ◌≢◌, ◌↔◌, ◌⊎◌, inl, inr, Bool, true, false, ◌||◌, Option, none, some, List, ◌++◌,
  arith, Bool-cases, ◌==◌,
}
use nova.Base.Words.{pos, negsuc}
use nova.Base.CString.{codes, until_nul, same_bytes_refl, eq_of_same_bytes, same_prefix_iff}
use nova.Ui.{
  text, desktop, compat, Plan, Context, starts_with, is_ui_command, asks_desktop, asks_compat,
  asks_text, from_serial_shell, launch_compat_shell,
}

-- The string is the word.
abbrev pub Is : List ℕ → List ℕ → Type 0
Is c word = until_nul c ≡ word

-- The string is the word and a rest.
abbrev pub Begins : List ℕ → List ℕ → Type 0
Begins c word = (rest : List ℕ) × (until_nul c ≡ word ++ rest)

pub is_ui_command_iff :
    (c word : List ℕ) → (is_ui_command (some c) word ≡ true) ↔ Is c (until_nul word)
unfolding is_ui_command
is_ui_command_iff c word =
    (eq_of_same_bytes (until_nul c) (until_nul word), λ e. rw e (same_bytes_refl (until_nul word)))

pub starts_with_iff : (c word : List ℕ) → (starts_with c word ≡ true) ↔ Begins c (until_nul word)
unfolding starts_with
starts_with_iff c word = same_prefix_iff (until_nul c) (until_nul word)

abbrev pub AsksDesktop : List ℕ → Type 0
AsksDesktop c =
    Is c (codes "desktop") ⊎ Begins c (codes "ui desktop") ⊎ Begins c (codes "start desktop")

abbrev pub AsksCompat : List ℕ → Type 0
AsksCompat c =
    Is c (codes "compat") ⊎ Begins c (codes "ui compat") ⊎ Begins c (codes "compat shell")

abbrev pub AsksText : List ℕ → Type 0
AsksText c = Is c (codes "text") ⊎ Begins c (codes "ui text")

or3 :
    {P Q R : Type 0} (a b c : Bool)
    → (a ≡ true) ↔ P
    → (b ≡ true) ↔ Q
    → (c ≡ true) ↔ R
    → ((a || (b || c)) ≡ true) ↔ (P ⊎ Q ⊎ R)
or3 true b c p q r = (λ h. inl (p.0 refl), λ h. refl)
or3 false true c p q r = (λ h. inr (inl (q.0 refl)), λ h. refl)
or3 false false true p q r = (λ h. inr (inr (r.0 refl)), λ h. refl)
or3 false false false p q r =
    (λ h. cc, λ h. elim h [ inl x ↦ p.1 x | inr (inl x) ↦ q.1 x | inr (inr x) ↦ r.1 x ])

or2 : {P Q : Type 0} (a b : Bool) → (a ≡ true) ↔ P → (b ≡ true) ↔ Q → ((a || b) ≡ true) ↔ (P ⊎ Q)
or2 true b p q = (λ h. inl (p.0 refl), λ h. refl)
or2 false true p q = (λ h. inr (q.0 refl), λ h. refl)
or2 false false p q = (λ h. cc, λ h. elim h [ inl x ↦ p.1 x | inr x ↦ q.1 x ])

pub asks_desktop_iff : (c : List ℕ) → (asks_desktop c ≡ true) ↔ AsksDesktop c
asks_desktop_iff c =
    or3 _ _ _ (is_ui_command_iff c (codes "desktop")) (starts_with_iff c (codes "ui desktop"))
      (starts_with_iff c (codes "start desktop"))

pub asks_compat_iff : (c : List ℕ) → (asks_compat c ≡ true) ↔ AsksCompat c
asks_compat_iff c =
    or3 _ _ _ (is_ui_command_iff c (codes "compat")) (starts_with_iff c (codes "ui compat"))
      (starts_with_iff c (codes "compat shell"))

pub asks_text_iff : (c : List ℕ) → (asks_text c ≡ true) ↔ AsksText c
asks_text_iff c = or2 _ _ (is_ui_command_iff c (codes "text")) (starts_with_iff c (codes "ui text"))

-- The plan lets the compatibility shell start.
abbrev pub Permits : Plan → Type 0
Permits p = (p.enable_compat_shell ≢ 0) ⊎ (p.vm_display_device ≢ none)

abbrev pub desktop_up : Context → Context
desktop_up ctx = record ctx {
  userland_ready = 1;
  session_started = 1;
  desktop_ready = 1;
  current_mode = desktop;
}

abbrev pub compat_up : Context → Context
compat_up ctx = record ctx {
  compat_shell_ready = 1;
  current_mode = compat;
  desktop_ready = 1;
  session_started = 1;
}

abbrev pub text_up : Context → Context
text_up ctx = record ctx { current_mode = text; desktop_ready = 0; compat_shell_ready = 0 }

-- `nova_ui_launch_compat_shell` starts the shell exactly where the plan permits it.
pub launch_compat_shell-cases :
    (ctx : Context)
    → (Permits ctx.plan × (launch_compat_shell (some ctx) ≡ (pos 0, some (compat_up ctx))))
      ⊎ ((¬ Permits ctx.plan) × (launch_compat_shell (some ctx) ≡ (negsuc 1, some ctx)))
unfolding launch_compat_shell
launch_compat_shell-cases ctx = go ctx.plan.enable_compat_shell ctx.plan.vm_display_device refl refl
  where
    go :
        (e : ℕ) (d : Option (List ℕ))
        → ctx.plan.enable_compat_shell ≡ e
        → ctx.plan.vm_display_device ≡ d
        → (Permits ctx.plan × (launch_compat_shell (some ctx) ≡ (pos 0, some (compat_up ctx))))
          ⊎ ((¬ Permits ctx.plan) × (launch_compat_shell (some ctx) ≡ (negsuc 1, some ctx)))
    go e (some d) p q = inl (inr (λ x. cc), ground arith)
    go e none p q = elim (Bool-cases (e == 0)) [
      | inl z ↦ inr (λ h. elim h [ inl x ↦ x (ground arith) | inr x ↦ x q ], ground arith)
      | inr z ↦ inl (inl (λ x. ground arith), ground arith)
    ]

-- What a command line from the serial shell does, in each case. A line that asks for the desktop is
-- taken for that first, then one that asks for the compatibility shell, then one for text mode; any
-- other is refused and changes nothing. Where the plan does not permit the compatibility shell, the
-- request is refused with the code of an unknown command, and the mode is changed all the same.
pub from_serial_shell-cases :
    (ctx : Context) (c : List ℕ)
    → (AsksDesktop c × (from_serial_shell (some ctx) (some c) ≡ (pos 0, some (desktop_up ctx))))
      ⊎ (¬ AsksDesktop c)
        × AsksCompat c
        × Permits ctx.plan
        × (from_serial_shell (some ctx) (some c) ≡ (pos 0, some (compat_up ctx)))
      ⊎ (¬ AsksDesktop c)
        × AsksCompat c
        × (¬ Permits ctx.plan)
        × (from_serial_shell (some ctx) (some c)
            ≡ (negsuc 1, some (record ctx { current_mode = compat })))
      ⊎ (¬ AsksDesktop c)
        × (¬ AsksCompat c)
        × AsksText c
        × (from_serial_shell (some ctx) (some c) ≡ (pos 0, some (text_up ctx)))
      ⊎ (¬ AsksDesktop c)
        × (¬ AsksCompat c)
        × (¬ AsksText c)
        × (from_serial_shell (some ctx) (some c) ≡ (negsuc 1, some ctx))
unfolding from_serial_shell
from_serial_shell-cases ctx c = elim (Bool-cases (asks_desktop c)) [
  | inl d ↦ inl ((asks_desktop_iff c).0 d, rw d)
  | inr d ↦ elim (Bool-cases (asks_compat c)) [
    | inl k ↦ elim (launch_compat_shell-cases (record ctx { current_mode = compat })) [
      | inl (p, e) ↦ inr (inl (refused d, (asks_compat_iff c).0 k, p, rw (d, k) e))
      | inr (p, e) ↦ inr (inr (inl (refused d, (asks_compat_iff c).0 k, p, rw (d, k) e)))
    ]
    | inr k ↦ elim (Bool-cases (asks_text c)) [
      | inl t ↦
          inr (inr (inr (inl (refused d, refused_compat k, (asks_text_iff c).0 t, rw (d, k, t)))))
      | inr t ↦ inr (inr (inr (inr (refused d, refused_compat k, refused_text t, rw (d, k, t)))))
    ]
  ]
]
  where
    refused : asks_desktop c ≡ false → ¬ AsksDesktop c
    refused d x = let y = (asks_desktop_iff c).1 x in cc

    refused_compat : asks_compat c ≡ false → ¬ AsksCompat c
    refused_compat d x = let y = (asks_compat_iff c).1 x in cc

    refused_text : asks_text c ≡ false → ¬ AsksText c
    refused_text d x = let y = (asks_text_iff c).1 x in cc
