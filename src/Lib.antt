-- ===== src/Lib.antt =====
-- Verification of NovaOS (nova-os/), the C code of its kernel core, network stack, I/O stack, boot
-- console, device registry, UI boot path and driver compatibility table.
--
-- Each part of the program has a module of the same subject, whose file holds the state as records
-- and one function for each C function; the modules below it hold the invariant, the laws and the
-- tests. A C function that writes through a pointer returns the new state; what goes through an
-- out parameter is an option beside the status, `none` where the code writes nothing. Arrays are
-- lists whose length is part of the invariant; a loop over an array is a recursion on the list, so
-- no fuel is needed there. Unsigned words keep their wrap-around (`u8`, `u16`, `u32`, `u64` of
-- Base/Words.antt).
--
-- - Sched.antt: kernel/core/scheduler.c (`init`, `add`, `set_state`, `pick_next`, `account` for
--   nova_sched_init and so on). Sched/Pick.antt specifies the selection, Sched/Fair.antt shows
--   what repeated turns do, Sched/Turns.antt how long a thread waits, Sched/Count.antt what
--   `count` counts over sequences of calls.
-- - Ipc.antt: kernel/core/ipc.c. Ipc/Queue.antt is the bounded queue that an endpoint promises to
--   be, Ipc/Refine.antt the proof that it is, and Ipc/Delivery.antt follows the packets through
--   it.
-- - Pages.antt and Space.antt: the page allocator and the address space of kernel/core/vm.c.
--   Pages/Ledger.antt compares the allocator with a client's list of its pages, Space/Table.antt
--   the address space with a finite map; Space/Isolation.antt is about the two together, in a
--   caller that backs virtual pages with allocated ones.
-- - Net.antt: kernel/network/network_stack.c with the drivers loopback.c and nic_stub.c. The
--   globals and the objects at their addresses are one state (Net/State.antt); a C function is a
--   command on it, without a result where the code would use a freed or NULL pointer. What
--   `calloc` returns is an argument. A walk along the `next` pointers takes fuel, and a list of n
--   devices needs n + 1; Net/Devices/Chain.antt says what such a list is. Net/Packets.antt has the
--   packets and the two drivers, Net/Sockets.antt the socket calls. Net/Network/Reference.antt is
--   what all of it is for its callers, a list of devices and a table of sockets without pointers,
--   and what a call does to it; Net/Network.antt says when a state shows such a network. The
--   fields `ops` of a socket and `private_data` are always NULL and left out.
-- - Io.antt: kernel/io/io_stack.c. The objects at their addresses, the globals and the lock are
--   one state (Io/State.antt) and a C function is a command on it, as in Net.antt.
--   Io/Registry.antt has the device registry, whose walks take fuel, n + 1 for n devices
--   (Io/Chain.antt), Io/Listing.antt the list that it is for its callers. Io/Requests.antt has the
--   requests and the block transfers, with the drivers' functions as a parameter, and
--   Io/Ports.antt the completion ports. The file does not compile as it stands: `prev` of struct
--   nova_device is declared nowhere and is a field here, INFINITE is an argument, and the product
--   of a count and a function pointer in nova_block_read_sectors is left out, since both arms of
--   that conditional are the same. One thread is modelled, so that a wait for a lock that is held
--   has no result.
-- - Console.antt: boot/kernel.c. The static variables and the writes to ports are the state
--   (Console/Port.antt); what the status and the data register read as, the n-th time, is a
--   parameter. Waiting for the port takes fuel, and as much is enough as the port is ever busy in
--   a row (Console/Port/Ready.antt). Console/Shell/Reference.antt is the console that the code
--   implements: a line and a screen, with no buffer, NUL or port. `unsigned long` has 32 bits, as
--   boot/Makefile builds it.
-- - Registry.antt: kernel/novakit/registry.c, with the copied device names as byte arrays.
--   Registry/Listing.antt is the list of devices that the registry promises to be.
-- - Ui.antt: userland/uimode/desktop/ui_boot_path.c, with NULL arguments as options.
-- - Linuxkpi.antt: drivers/linuxkpi/src/linuxkpi.c.
-- - CoreModule.antt: kernel/modules/nova_core/nova_core.c, its one function.
-- - Base.antt: shared types, array lemmas, words, the objects at addresses (Base/Heap.antt), bit
--   fields (Base/BitFields.antt), and C strings (Base/CString.antt) with the functions of
--   <string.h> that the code calls.
--
-- The parts run side by side and share no state: the kernel core, the registry and the boot path
-- are separate objects that their callers pass in, and the network stack and the I/O stack have
-- globals of their own. Inside it the socket calls look devices up in the device list, and a
-- packet that is sent goes through the device's function pointer to a driver, which hands it back
-- to the stack or frees it. The boot console is a program of its own, which calls none of them.
--
-- Not modelled: drivers of the network stack other than the two of the repository, and with them a
-- transmission that fails, desktop.h, which only declares, the tables of operations of io_stack.h that no
-- function calls, the macros that declare the FreeBSD module, build files and scripts.
pub mod Base
pub mod Sched
pub mod Ipc
pub mod Pages
pub mod Space
pub mod Registry
pub mod Ui
pub mod Linuxkpi
pub mod Net
pub mod Console
pub mod Io
pub mod CoreModule
