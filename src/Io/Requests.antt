-- ===== src/Io/Requests.antt =====
-- Requests, and the block transfers that make them.
pub mod Transfer
use nova.Base.{
  ℕ, zero, suc, ◌*◌, Bool, true, false, not, ◌||◌, Option, none, some, ◌==◌, if◌then◌else◌,
}
use nova.Base.Words.{u32, ℤ, pos, negsuc}
use nova.Io.State.{
  Ptr, null, IoType, read, write, Status, pending, success, error, cancelled, block, DeviceType,
  BlockOps, Device, Request, World, Cmd, pure, ◌>>=◌, ◌>>◌, get, put, load_dev, load_req, store_req,
}

-- a zeroed request, with the default time-out
abbrev pub new_request : Request
new_request = record {
  type = none;
  status = pending;
  device = null;
  offset = 0;
  buffer = null;
  length = 0;
  flags = 0;
  timeout_ms = 5000;
  error_code = pos 0;
}

-- `fresh` is what `calloc` returns.
unfoldable pub request_alloc : Ptr → Cmd Ptr
request_alloc fresh =
    if fresh == null then pure null else do store_req fresh (some new_request); pure fresh

unfoldable pub request_free : Ptr → Cmd (Unit {0})
request_free req = if req == null then pure tt else do r ← load_req req; store_req req none

unfoldable pub io_wait : Ptr → ℕ → Cmd ℤ
io_wait req timeout_ms = pure (pos 0)

abbrev pub cancel_if : Status → Ptr → Cmd ℤ
cancel_if pending req = do
  r ← load_req req
  store_req req (some (record r { status = cancelled }))
  pure (pos 0)
cancel_if success req = pure (negsuc 0)
cancel_if error req = pure (negsuc 0)
cancel_if cancelled req = pure (negsuc 0)

unfoldable pub io_cancel : Ptr → Cmd ℤ
io_cancel req = if req == null then pure (negsuc 0) else do r ← load_req req; cancel_if r.status req

-- The driver's function for a block device: that of `submit_io`, if there is one. Every other device
-- has none that `nova_io_submit` calls.
abbrev pub driver_of : DeviceType → Option BlockOps → Option Ptr
driver_of block none = none
driver_of block (some ops) = ops.submit_io
driver_of type ops = none

-- the end of `nova_io_submit`
abbrev pub refuse : Ptr → Cmd ℤ
refuse req = do
  r ← load_req req
  store_req req (some (record r { status = error; error_code = negsuc 0 }))
  pure (negsuc 0)

-- what a transfer returns for a request that the driver has accepted
abbrev pub outcome : Status → ℤ → ℤ
outcome success code = pos 0
outcome pending code = code
outcome error code = code
outcome cancelled code = code

-- `result` is what `nova_io_submit` has returned.
abbrev pub collect : ℤ → Ptr → Cmd ℤ
collect (pos zero) req = do
  r ← load_req req
  _ ← io_wait req (u32 r.timeout_ms)
  r' ← load_req req
  pure (outcome r'.status r'.error_code)
collect (pos (suc n)) req = pure (pos (suc n))
collect (negsuc n) req = pure (negsuc n)

-- `dev->block_ops->get_geometry`, which the length of a read looks at without need: it has 512 bytes
-- for each sector either way.
abbrev pub read_ops : Ptr → Cmd (Unit {0})
read_ops dev = do d ← load_dev dev; elim d.block_ops [ none ↦ λ w. none | some ops ↦ pure tt ]

-- `call f dev req` is what the driver's function at the address `f` does.
module _ (call : Ptr → Ptr → Ptr → Cmd ℤ) where
  abbrev pub submit_to : Option Ptr → Ptr → Ptr → Cmd ℤ
  submit_to none dev req = refuse req
  submit_to (some f) dev req = call f dev req

  unfoldable pub io_submit : Ptr → Cmd ℤ
  io_submit req = if req == null then pure (negsuc 0) else do
    r ← load_req req
    if (r.device == null) || (r.buffer == null)
        then pure (negsuc 0)
        else do d ← load_dev r.device; submit_to (driver_of d.type d.block_ops) r.device req

  -- the part that the two transfers share, from the fields that they set
  unfoldable pub transfer : Ptr → IoType → Ptr → ℕ → Ptr → ℕ → Cmd ℤ
  transfer req type dev sector buffer count = do
    r ← load_req req
    store_req req (
        some (record r {
          type = some type;
          device = dev;
          offset = sector;
          buffer = buffer;
          length = u32 (count * 512);
        }))
    result ← io_submit req
    code ← collect result req
    request_free req
    pure code

  unfoldable pub block_write_sectors : Ptr → Ptr → ℕ → Ptr → ℕ → Cmd ℤ
  block_write_sectors fresh dev sector buffer count =
      if (dev == null) || ((buffer == null) || (count == 0)) then pure (negsuc 0) else do
        req ← request_alloc fresh
        if req == null then pure (negsuc 0) else transfer req write dev sector buffer count

  unfoldable pub block_read_sectors : Ptr → Ptr → ℕ → Ptr → ℕ → Cmd ℤ
  block_read_sectors fresh dev sector buffer count =
      if (dev == null) || ((buffer == null) || (count == 0)) then pure (negsuc 0) else do
        req ← request_alloc fresh
        if req == null
            then pure (negsuc 0)
            else do read_ops dev; transfer req read dev sector buffer count
