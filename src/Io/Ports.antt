-- ===== src/Io/Ports.antt =====
-- Completion ports, which the code only makes and frees.
use nova.Base.{ℕ, none, some, ◌==◌, if◌then◌else◌}
use nova.Base.Words.{ℤ, pos, negsuc}
use nova.Base.Heap.{update}
use nova.Io.State.{Ptr, null, Cmd, pure, ◌>>=◌, ◌>>◌, get, put}

-- `infinite` is the constant `INFINITE`, which no header of the repository defines; `fresh` is what
-- `calloc` returns.
unfoldable pub completion_port_create : ℕ → Ptr → ℕ → Cmd Ptr
completion_port_create infinite fresh max_events = if fresh == null then pure null else do
  w ← get
  put (record w {
    ports = update w.ports fresh (some (record { max_events = max_events; timeout_ms = infinite }));
  })
  pure fresh

unfoldable pub completion_port_destroy : Ptr → Cmd ℤ
completion_port_destroy port = if port == null then pure (negsuc 0) else do
  w ← get
  elim (w.ports port) [
    | none ↦ λ w. none
    | some p ↦ (do put (record w { ports = update w.ports port none }); pure (pos 0))
  ]

unfoldable pub completion_port_associate : Ptr → Ptr → ℕ → Cmd ℤ
completion_port_associate port dev key = pure (pos 0)

unfoldable pub completion_port_get_event : Ptr → Ptr → ℕ → Cmd ℤ
completion_port_get_event port req timeout_ms = pure (negsuc 0)
