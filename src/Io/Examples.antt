-- ===== src/Io/Examples.antt =====
-- Tests of the I/O stack, and its theorems at concrete devices and drivers.
use nova.Base.{ℕ, ◌≡◌, refl, ◌≢◌, ◌⊎◌, inl, true, false, Option, none, some, List, [], ◌∷◌, arith}
use nova.Base.Words.{ℤ, pos, negsuc}
use nova.Base.CString.{codes}
use nova.Base.Heap.{update, has, without}
use nova.Io.State.{
  Ptr, null, IoType, read, write, success, error, block, char, Device, Request, World, Cmd, pure,
  ◌>>=◌, ◌>>◌, load_req, store_req,
}
use nova.Io.Chain.{Devices, Chain, stop, link}
use nova.Io.Registry.{
  device_register, device_unregister, device_find, device_get_by_major_minor, lock_registry,
  unlock_registry, find_where, unregister_from, take_out,
}
use nova.Io.Registry.Backlink.{unbacked}
use nova.Io.Registry.Unlink.{unlinked}
use nova.Io.Registry.Unregister.{device_unregister-cases}
use nova.Io.Listing.{
  Call, init, shutdown, register, unregister, find, get_by_number, code, address, run, Listing,
  replies, Shows, Meets,
}
use nova.Io.Listing.Session.{run-Meets}
use nova.Io.Requests.{
  request_alloc, request_free, io_submit, io_wait, transfer, block_write_sectors,
  block_read_sectors,
}
use nova.Io.Requests.Transfer.{request, handed, answer, block_sectors-answer, block_sectors-refused}

abbrev disk : Device
disk = record {
  name = codes "sda";
  path = codes "/dev/sda";
  type = block;
  major = 0;
  minor = 2;
  ref_count = pos 0;
  flags = pos 0;
  block_ops = some (record { submit_io = some 900 });
  next = null;
  prev = null;
}

abbrev tty : Device
tty = record disk {
  name = codes "tty";
  path = codes "/dev/tty";
  type = char;
  major = 4;
  block_ops = none;
}

-- The disk at 10 and then the terminal at 20 are registered; another disk is at 30.
abbrev small_world : World
small_world = record {
  devices =
      update
        (update (update (λ p. none) 10 (some (record disk { major = 1; next = 20 }))) 20
          (some (record tty { prev = 10 })))
        30 (some (record disk { name = codes "sdb"; path = codes "/dev/sdb" }));
  requests = λ p. none;
  ports = λ p. none;
  registry = 10;
  next_major = 2;
  initialized = true;
  locked = false;
}

small_chain : Chain small_world.devices 10 (10 ∷ 20 ∷ [])
small_chain = link (λ e. omega arith) refl refl (link (λ e. omega arith) refl refl stop)

-- `next`, `prev`, the number and the registry after a call
abbrev links : Ptr → Option (ℤ × World) → Option (ℤ × Ptr × (Option Device) × ℕ)
links p none = none
links p (some (c, w)) = some (c, w.registry, w.devices p, w.next_major)

registers_a_disk :
    links 30 (device_register 30 small_world)
    ≡ some (
      pos 0,
      30,
      some (record disk { name = codes "sdb"; path = codes "/dev/sdb"; major = 2; next = 10 }),
      3,
    )
unfolding device_register lock_registry unlock_registry
registers_a_disk = refl

finds_the_terminal :
    (device_find 3 (some (codes "/dev/tty")) small_world ≡ some (20, small_world))
    × (device_get_by_major_minor 3 1 2 small_world ≡ some (10, small_world))
    × (device_find 3 (some (codes "/dev/null")) small_world ≡ some (null, small_world))
unfolding device_find device_get_by_major_minor lock_registry unlock_registry find_where
finds_the_terminal = (refl, refl, refl)

unregisters_the_first :
    links 20 (device_unregister 3 10 small_world) ≡ some (pos 0, 20, some tty, 2)
unfolding device_unregister lock_registry unlock_registry unregister_from take_out
unregisters_the_first = refl

-- A device that is registered twice leads to itself.
abbrev next_after : Ptr → Option (ℤ × World) → Option Ptr
next_after p none = none
next_after p (some (c, w)) = elim (w.devices p) [ none ↦ none | some d ↦ some d.next ]

leads_to_itself :
    next_after 30 ((do _ ← device_register 30; device_register 30) small_world) ≡ some 30
unfolding device_register lock_registry unlock_registry
leads_to_itself = refl

device_unregister-cases_example :
    ((has (10 ∷ 20 ∷ []) 20 ≡ false)
      × (device_unregister 3 20 small_world ≡ some (negsuc 0, small_world)))
    ⊎ ((g : Devices) × (q : Ptr) × (has (10 ∷ 20 ∷ []) 20 ≡ true)
        × (device_unregister 3 20 small_world
            ≡ some (pos 0, record small_world { devices = g; registry = q }))
        × Chain g q (without (10 ∷ 20 ∷ []) 20)
        × (unbacked (g 20) ≡ unbacked (small_world.devices 20))
        × ((r : Ptr) → unlinked (g r) ≡ unlinked (small_world.devices r)))
device_unregister-cases_example =
    device_unregister-cases small_world (10 ∷ 20 ∷ []) 3 20 small_chain (omega arith) refl
      (λ e. omega arith)

-- a driver that writes, and that fails to read
abbrev done : IoType → Request → Request
done write r = record r { status = success }
done t r = record r { status = error; error_code = negsuc 4 }

abbrev finish : Option IoType → Request → Request
finish none r = r
finish (some t) r = done t r

abbrev driver : Ptr → Ptr → Ptr → Cmd ℤ
driver f dev req = do r ← load_req req; store_req req (some (finish r.type r)); pure (pos 0)

writes_and_fails_to_read :
    (links 10 (block_write_sectors driver 500 10 7 600 2 small_world)
      ≡ some (pos 0, 10, small_world.devices 10, 2))
    × (links 10 (block_read_sectors driver 500 10 7 600 2 small_world)
        ≡ some (negsuc 4, 10, small_world.devices 10, 2))
    × (links 10 (block_write_sectors driver 500 20 7 600 2 small_world)
        ≡ some (negsuc 0, 10, small_world.devices 10, 2))
unfolding block_write_sectors block_read_sectors request_alloc request_free transfer io_submit
    io_wait
writes_and_fails_to_read = (refl, refl, refl)

-- the state and the request that the driver leaves
abbrev left : IoType → Request
left t = done t (request t 10 7 600 2)

abbrev after : IoType → World
after t =
    let w = handed small_world 500 (request t 10 7 600 2) in
    record w { requests = update w.requests 500 (some (left t)) }

block_sectors-answer_example :
    (block_write_sectors driver 500 10 7 600 2 small_world
      ≡ some (
        answer (pos 0) (left write),
        record (after write) { requests = update (after write).requests 500 none },
      ))
    × (block_read_sectors driver 500 10 7 600 2 small_world
        ≡ some (
          answer (pos 0) (left read),
          record (after read) { requests = update (after read).requests 500 none },
        ))
block_sectors-answer_example =
    block_sectors-answer driver small_world 500 10 (record disk { major = 1; next = 20 })
      (record { submit_io = some 900 }) 900 7 600 2 (λ e. omega arith) (λ e. omega arith)
      (λ e. omega arith) (λ e. omega arith) refl refl refl refl (λ t. pos 0) after left (λ t. refl)
      (λ t. refl)

-- a character device that has operations for blocks
abbrev odd_device : Device
odd_device = record disk { type = char }

abbrev odd_world : World
odd_world = record small_world { devices = update small_world.devices 40 (some odd_device) }

char_not_block : odd_device.type ≢ block
char_not_block e = cc

block_sectors-refused_example :
    let freed = record odd_world { requests = update odd_world.requests 500 none } in
    (block_write_sectors driver 500 40 7 600 2 odd_world ≡ some (negsuc 0, freed))
    × (block_read_sectors driver 500 40 7 600 2 odd_world ≡ some (negsuc 0, freed))
block_sectors-refused_example =
    block_sectors-refused driver odd_world 500 40 odd_device (record { submit_io = some 900 }) 7 600
      2 (λ e. omega arith) (λ e. omega arith) (λ e. omega arith) (λ e. omega arith) refl refl
      (inl char_not_block)

abbrev small_listing : Listing
small_listing = record {
  infos = λ r. unlinked (small_world.devices r);
  listed = 10 ∷ 20 ∷ [];
  next_major = 2;
  initialized = true;
}

small_world-Shows : Shows small_world small_listing
small_world-Shows = record {
  chain = small_chain;
  free = refl;
  kept = λ r. refl;
  numbers = refl;
  started = refl;
}

abbrev calls : List Call
calls =
    register 30
    ∷ find (some (codes "/dev/tty"))
    ∷ unregister 10
    ∷ get_by_number 1 2
    ∷ get_by_number 2 2
    ∷ unregister 10
    ∷ shutdown
    ∷ init
    ∷ find (some (codes "/dev/tty"))
    ∷ []

answers_of_the_listing :
    (replies calls small_listing).0
    ≡ code (pos 0)
      ∷ address 20
      ∷ code (pos 0)
      ∷ address null
      ∷ address 30
      ∷ code (negsuc 0)
      ∷ code (pos 0)
      ∷ code (pos 0)
      ∷ address null
      ∷ []
answers_of_the_listing = refl

run-Meets_example : Meets (run 12 calls) small_world (replies calls small_listing)
run-Meets_example =
    run-Meets small_world small_listing calls 12 small_world-Shows refl (omega arith)
