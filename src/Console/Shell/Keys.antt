-- ===== src/Console/Shell/Keys.antt =====
-- What a received byte does to the buffer and to the screen.
use nova.Base.{
  ℕ, ◌+◌, ◌-◌, ◌<◌, ◌^◌, ◌≡◌, refl, sym, ap, subst, ◌∙◌, inl, inr, true, false, some, List, [], ◌∷◌,
  ◌++◌, map, append_assoc, arith, length, set, ltb, ◌==◌, lt→ltb, Bool-cases, ne→==, eq→==,
}
use mathlib.Core.List.{map-append}
use nova.Base.CString.{codes}
use nova.Console.Port.{Uart, Machine, Cmd, pure, ◌>>=◌, ◌>>◌, get}
use nova.Console.Port.Ready.{Patient, after, wire, wire-append, pure-Writes, to_com1}
use nova.Console.Calls.Texts.{nul_free, serial_putc-Prints, serial_prompt-Prints, sys_write-Writes}
use nova.Console.Shell.{
  command_size, store, choose, Choice, perform, erase_text, Key, enter, erase, character, other,
  key_of, end_line, new_line, run_command, erase_last, serial_backspace, accept, handle,
}
use nova.Console.Shell.Reference.{chosen, reply, edit, shown}
use nova.Console.Shell.Line.{choose-chosen}
use nova.Console.Shell.Answer.{perform-Writes, echo_length}
use nova.Console.Shell.Buffer.{Holds, behind, drop_last-Holds, append-Holds, ended-Holds}

-- The command ends with this buffer and length, has written the text, and has changed nothing else.
abbrev pub edited_machine : Machine → List ℕ → ℕ → Machine
edited_machine m command n = record m { command = command; command_length = n }

abbrev pub Edits : Cmd (Unit {0}) → Machine → List ℕ → ℕ → List ℕ → Type 0
Edits c m command n text =
    (reads : ℕ) × (c m ≡ some (tt, after (edited_machine m command n) reads (wire text)))

pub sent_twice :
    (s : List (ℕ × ℕ)) (a b : List ℕ)
    → (s ++ map to_com1 (wire a)) ++ map to_com1 (wire b) ≡ s ++ map to_com1 (wire (a ++ b))
sent_twice s a b =
    append_assoc s (map to_com1 (wire a)) (map to_com1 (wire b))
    ∙ ap (λ t. s ++ t)
        (sym (map-append to_com1 (wire a) (wire b)) ∙ ap (map to_com1) (sym (wire-append a b)))

pub then-Edits :
    (c d : Cmd (Unit {0})) (m : Machine) (k k' : List ℕ) (n n' : ℕ) (a b : List ℕ)
    → Edits c m k n a
    → ((reads : ℕ) → Edits d (after (edited_machine m k n) reads (wire a)) k' n' b)
    → Edits (c >> d) m k' n' (a ++ b)
then-Edits c d m k k' n n' a b (r, e) next =
    let (r', f) = next r in
    (
      r + r',
      rw (e, ◌>>=◌)
          (f
            ∙ ap
                (λ x. some (
                  tt,
                  record m {
                    command = k';
                    command_length = n';
                    status_reads = x;
                    sent = (m.sent ++ map to_com1 (wire a)) ++ map to_com1 (wire b);
                  },
                ))
                {x = m.status_reads + r + r'} {y = m.status_reads + (r + r')} (omega arith)
            ∙ ap
                (λ s. some (
                  tt,
                  record m {
                    command = k';
                    command_length = n';
                    status_reads = m.status_reads + (r + r');
                    sent = s;
                  },
                ))
                (sent_twice m.sent a b)),
    )

store_lem :
    (i c : ℕ) (m : Machine)
    → i < length m.command
    → store i c m ≡ some (tt, record m { command = set m.command i c })
unfolding store
store_lem i c m h = rw (lt→ltb i (length m.command) h, store)

module _ (u : Uart) (fuel : ℕ) (p : Patient u fuel) where
  end_line-Edits :
      (m : Machine) (line : List ℕ)
      → Holds m.command m.command_length line
      → Edits (end_line u fuel) m (set m.command m.command_length 0) m.command_length (codes "\n")
  unfolding end_line
  end_line-Edits m line h =
      let inside : m.command_length < length m.command = omega (arith, h.count, h.room, h.size) in
      let (r, f) =
        (serial_putc-Prints u fuel p b'\n').run
          (record m { command = set m.command m.command_length 0 }) in
      (r, rw (store_lem m.command_length 0 m inside, ◌>>=◌) f)

  new_line-Edits : (m : Machine) → Edits (new_line u fuel) m m.command 0 (codes "nova> ")
  unfolding new_line
  new_line-Edits m = (serial_prompt-Prints u fuel p).run (record m { command_length = 0 })

  -- the branches of `run_command` and what follows them
  answer-Edits :
      (m : Machine) (line rest : List ℕ) (k : Choice)
      → m.command ≡ line ++ 0 ∷ rest
      → nul_free line ≡ true
      → m.ticks < 2 ^ 32
      → k ≡ chosen line
      → Edits
          (perform u fuel k >> new_line u fuel)
          m
          m.command
          0
          (reply m.ticks line (chosen line) ++ codes "nova> ")
  answer-Edits m line rest k e f t q = rw q (
      then-Edits (perform u fuel (chosen line)) (new_line u fuel) m m.command m.command
        m.command_length 0 (reply m.ticks line (chosen line)) (codes "nova> ")
        (perform-Writes u fuel p (chosen line) m line rest e f t (echo_length line))
        (λ n. new_line-Edits (after m n (wire (reply m.ticks line (chosen line))))))

  run_command-Edits :
      (m : Machine) (line : List ℕ)
      → Holds m.command m.command_length line
      → m.ticks < 2 ^ 32
      → Edits
          (run_command u fuel)
          m
          (set m.command m.command_length 0)
          0
          (shown m.ticks line enter b'\n')
  unfolding run_command
  run_command-Edits m line h t =
      let (rest, e) = behind m.command m.command_length line 0 h in
      let ended = set m.command m.command_length 0 in
      let same : choose ended m.command_length ≡ chosen line =
        rw (e, h.count) (choose-chosen line rest h.clean) in
      then-Edits (end_line u fuel)
        (get >>= λ v. perform u fuel (choose v.command v.command_length) >> new_line u fuel) m ended
        ended m.command_length 0 (codes "\n") (reply m.ticks line (chosen line) ++ codes "nova> ")
        (end_line-Edits m line h)
        (λ n.
          answer-Edits (after (edited_machine m ended m.command_length) n (wire (codes "\n"))) line
            rest (choose ended m.command_length) e h.clean t same)

  -- What a key does: the buffer holds the edited line, and the screen shows what the key brings.
  abbrev pub Handled : Key → ℕ → Machine → List ℕ → Type 0
  Handled k b m line =
      (command : List ℕ) × (n : ℕ) × Holds command n (edit line k b)
      × Edits (handle u fuel k b) m command n (shown m.ticks line k b)

  nothing-Edits : (m : Machine) → Edits (pure tt) m m.command m.command_length []
  nothing-Edits m = pure-Writes m

  erase_last-Edits :
      (n : ℕ) (m : Machine) → Edits (erase_last u fuel false n) m m.command (n - 1) erase_text
  unfolding erase_last
  erase_last-Edits n m =
      sys_write-Writes u fuel p erase_text [] (record m { command_length = n - 1 }) refl

  accept-Edits :
      (b : ℕ) (m : Machine)
      → m.command_length < length m.command
      → Edits
          (accept u fuel true b)
          m
          (set m.command m.command_length b)
          (m.command_length + 1)
          (b ∷ [])
  unfolding accept
  accept-Edits b m h =
      let v = record m {
        command = set m.command m.command_length b;
        command_length = m.command_length + 1;
      } in
      let (r, f) = (serial_putc-Prints u fuel p b).run v in
      (r, rw (store_lem m.command_length b m h, ◌>>=◌) f)

  erase-Handled :
      (b : ℕ) (m : Machine) (line : List ℕ)
      → Holds m.command m.command_length line
      → Handled erase b m line
  unfolding handle serial_backspace
  erase-Handled b m [] h = (
    m.command,
    m.command_length,
    h,
    subst (λ e. Edits (erase_last u fuel e m.command_length) m m.command m.command_length [])
        (sym (eq→== m.command_length 0 h.count)) (nothing-Edits m),
  )
  erase-Handled b m (c ∷ cs) h = (
    m.command,
    m.command_length - 1,
    drop_last-Holds m.command m.command_length (c ∷ cs) h (omega arith),
    rw (ne→== (length (c ∷ cs)) 0 (λ x. omega arith)) (
        subst
          (λ e.
            Edits (erase_last u fuel e m.command_length) m m.command (m.command_length - 1)
              erase_text)
          (sym (ne→== m.command_length 0 (λ x. omega (arith, h.count))))
          (erase_last-Edits m.command_length m)),
  )

  character-Handled :
      (b : ℕ) (m : Machine) (line : List ℕ)
      → (b == 0) ≡ false
      → Holds m.command m.command_length line
      → Handled character b m line
  unfolding handle
  character-Handled b m line z h = elim (Bool-cases (ltb (length line) (command_size - 1))) [
    | inl short ↦ (
      set m.command m.command_length b,
      m.command_length + 1,
      rw short (append-Holds m.command m.command_length line b h (ground arith) z),
      rw short (
          subst
            (λ e.
              Edits (accept u fuel e b) m (set m.command m.command_length b) (m.command_length + 1)
                (b ∷ []))
            (sym (ap (λ n. ltb n (command_size - 1)) h.count ∙ short))
            (accept-Edits b m (omega (arith, h.size, h.count, h.room)))),
    )
    | inr full ↦ (
      m.command,
      m.command_length,
      rw full h,
      rw full (
          subst (λ e. Edits (accept u fuel e b) m m.command m.command_length [])
            (sym (ap (λ n. ltb n (command_size - 1)) h.count ∙ full)) (nothing-Edits m)),
    )
  ]

  pub handle-Handled :
      (k : Key) (b : ℕ) (m : Machine) (line : List ℕ)
      → key_of b ≡ k
      → Holds m.command m.command_length line
      → m.ticks < 2 ^ 32
      → Handled k b m line
  unfolding handle
  handle-Handled enter b m line e h t = (
    set m.command m.command_length 0,
    0,
    ended-Holds m.command m.command_length line h,
    run_command-Edits m line h t,
  )
  handle-Handled erase b m line e h t = erase-Handled b m line h
  handle-Handled character b m line e h t = character-Handled b m line (ground arith) h
  handle-Handled other b m line e h t = (m.command, m.command_length, h, nothing-Edits m)
