-- ===== src/Lib.antt =====
-- The Shogun-OS kernel: a model of its C sources and the theorems about it.
--
-- The kernel is a set of drivers and services around static state, for one 32-bit x86 processor:
--
-- * PortManager (src/port_manager.c) hands out handles of I/O ports, which the drivers hold: one call
--   (Contract), several (Holding), and any sequence of them (Reach).
-- * Io (src/io.c) reads and writes ports and sends text over the serial line COM1 (Io/Serial). The
--   devices are an environment, which answers the k-th read with an arbitrary byte; all accesses
--   are kept in a trace.
-- * Idt (src/idt.c, src/idt.h): the gate descriptors (Gate) and the table (Table), the registry of
--   handlers (Registry), the two interrupt controllers and the dispatch of an interrupt (Pic), and the
--   controllers as their chips see them (Chip); Delivery goes from registration to interrupt. A handler
--   is a function on the machine, which is the bus with the rest of the state. The PIC's handles come
--   from the port manager. Exceptions has the handlers that halt the machine and the dispatch of an
--   interrupt with an error code, Report what is printed about the table and the controllers.
-- * Gdt (src/gdt.c) makes segment descriptors; Report prints the loaded table.
-- * Memory (src/memory.c) is the allocator: a free list in a word-addressed heap, and its relation to
--   a list of segments (Chain, Place, Allocate, FirstFit, Malloc; Join, GiveBack, Insert and
--   Deallocate for what comes back). Boot is init_allocator on the boot loader's memory map, Report
--   debug_print_free_list.
-- * Number (src/terminal.c, from int_to_string on) prints numbers; Terminal (its first part) is the
--   text screen with its cursor; Output (its last part, and init_serial of src/io.c) prints to screen
--   and line (Console) and prepares the line (Uart). Printing joins the two: a function that only prints
--   is the sequence of its calls, and Sequence says what they put out.
-- * Logger (src/logger.c) keeps entries in a ring (Buffer) under an interrupt guard; the formatter is
--   in Format, the calls in Calls.
-- * Wake (src/rtc.c) is the tick counter and the list of callbacks that it fires; Executor
--   (src/async_executor.c) polls tasks (Pass), frees them (Release), lets them sleep (Sleep), writes to
--   the line (SerialWrite) and runs on between interrupts (Run). Sleeper is sleep_seconds_async of
--   src/rtc.c, which joins Wake and Executor: the other callbacks
--   (Callbacks), the ticks on the way (Timeline) and the wake-up (Wakes).
-- * Rtc (src/rtc.c, src/rtc.h) is the driver of the clock: its ports (Pair, Acquire), init_rtc with its
--   messages (Start), its registers as
--   the writes leave them (Cmos), the guarded read of the time (Polling,
--   Update) and its writing (Writing), the periodic interrupt (Interrupts, Periodic), the waits (Waiting)
--   and the messages (Messages).
-- * Kernel (src/kernel.c) is the handler of the clock interrupt (Tick), the part of kernel_main that
--   brings up the devices and starts the clock (Boot), the part that tries a handler of its own and
--   registers the one of the serial line (Demo, with Custom, SerialLine and Strlen), and the built-in
--   tests: those of the clock (SelfTest, with Clock, Passing and Suite) and of the allocator
--   (SelfTest/Storage).
-- * Libc (src/libc.c) fills and copies memory, and halts the machine (Panic); Harness (src/test.c) runs
--   the kernel's own tests, on the state that they work on.
-- * Base has the shared types, tests, lists and bit lemmas; Tests runs the theorems at concrete inputs.
--
-- Static variables are records that each operation takes and returns; the C functions keep their
-- names. Numbers are natural numbers with the wrap-around of `uint32_t` written out (add32, sub32).
--
-- A counter that is an `int` in C is not wrapped: its overflow, which C does not define, ends in `none`.
-- Where a file says that printing is kept as calls, the accesses of these calls to the serial line are not
-- among those of the bus.
--
-- Fuel. The loops of the allocator run over a list in memory, which may be cyclic, and take fuel;
-- more fuel than there are segments is enough. The digits of a 32-bit number need 10 rounds, its
-- hexadecimal digits 8, and the service loop one more than there are entries. Waiting for the
-- serial line takes fuel for each character, and ends if the device becomes ready in that many polls.
-- The search of the memory map needs more fuel than the map has entries. Reading the time takes rounds
-- and polls: with a clock whose updates end within the polls and leave time for the three reads, two
-- rounds are enough. The report of the free list takes fuel like the allocator, and my_strlen more than
-- the length of its string. All other loops are structural.
--
-- Whether malloc returns memory for a driver, a task, a waker, a future or an entry is an argument of the
-- functions that ask for it. The end of the kernel image, the stack pointer, the boot loader's map and
-- the generated calls of idt_set_handler are arguments as well.
--
-- Not modelled: what else kernel_main does (src/kernel.c), which is the demonstration of sleeping, the two
-- futures before executor_run, its calls of the logger and most of its messages; src/boot.s and
-- src/gdt.s, exit_qemu, which ends the run, and the generated interrupt stubs. A function that halts the
-- machine is modelled up to there. Interrupts between the steps of an operation are not modelled: each
-- operation runs alone.
pub mod Base
pub mod Executor
pub mod Gdt
pub mod Harness
pub mod Idt
pub mod Io
pub mod Kernel
pub mod Libc
pub mod Logger
pub mod Memory
pub mod Number
pub mod Output
pub mod PortManager
pub mod Printing
pub mod Rtc
pub mod Terminal
pub mod Tests
pub mod Wake
