-- ===== src/Lib.antt =====
-- EPOS for ARM: the C code of the kernel over devices that answer reads, and theorems about it. Paths
-- are those of the repository.
--
-- How the parts meet. `frame_alloc` of kernel/frame.c finds physical frames in the bitmaps of
-- kernel/bitmap.c; `init_frame` places each bitmap at the start of its zone of memory and maps it by
-- `page_map` of kernel/page.c. The same file keeps the lists of zones of virtual addresses, which
-- `page_alloc`, `page_alloc_in_addr`, `page_free` and `page_prot` read and change, and handles page
-- faults: `do_page_fault` asks `page_prot` for the zone and `frame_alloc` for a frame, and writes the
-- page table. kernel/task.c holds two schedulers that share no state: the tables of tasks, and the
-- list of threads. `cstart` of kernel/machdep.c fills the first page tables, sets up the serial port
-- of kernel/uart.c, prints by `printk` of kernel/printk.c, starts tasks in the tables and the timer
-- of kernel/timer.c, and then loops. The handlers of kernel/interrupt.c print, wait, and pass data
-- aborts on to `do_page_fault`. kernel/kmalloc.c wraps the allocator of lib/tlsf, and the threads
-- and the nodes of the zones are blocks of its heap.
--
-- Where each part is.
--   Base, Base/Tests, Base/Word, Base/Bits, Base/Fields: numbers, Boolean tests, 32-bit words, laws
--     of `&` and `|`.
--   Cpu, Cpu/Pages: the constants and macros of kernel/cpu.h and kernel/kernel.h.
--   Bitmap and its children: kernel/bitmap.c. The functions that write return the new bitmap; Test
--     says what a test reads, Groups what the functions over a range decide, Scan what the search
--     finds, Writes what the setting functions leave. Files has the functions that store a bitmap in
--     a file, over a record of the functions on files, Files/RoundTrip what is read again.
--   PageTable, PageTable/Map: `page_map`, `page_unmap` and `vtop` over the table as a function.
--   Frame, Frame/Alloc, Frame/Init: kernel/frame.c, the array of zones as a function of the index.
--   Vmspace and its children: kernel/page.c, the lists of `struct vmzone` as lists in their order.
--     Table is the ranges that the lists hold, by their first addresses. Spec is what its functions
--     promise about protections and ranges alone, with the calls as data, Apart and Grant what the
--     loops and the changes of the lists mean for these, History and Keeps are about sequences of
--     calls, and Nodes about the nodes that lie in the heap.
--   Fault and its children: `do_page_fault` of kernel/page.c over the zones, the frames and the
--     table. History is about faults between calls of the functions for zones, Stale about what
--     `page_free` leaves mapped, Processor about the entries as the processor reads them.
--   Task and its children: the tables of tasks of kernel/task.c, to `task_unlock_schedule`.
--     RoundRobin is about sequences of its calls.
--   Thread and its children: the list of threads of kernel/task.c, from `schedule` on. Calls holds
--     the system calls, Select the loop of `schedule`, Store the writes by address, Keys the
--     addresses and IDs in the list. System has the calls as steps with the states that they reach,
--     Sound and History are about those states, Directory is what the calls do to addresses and IDs
--     alone, Start is about task 0, SelfWait about a thread that waits for itself. Memory composes
--     the system calls with the heap, as steps on the threads and the heap; Memory/Owners is about
--     the blocks that the threads own, Memory/Waits about the calls that change the list, Memory/Runs
--     about sequences of calls.
--   Strings and its children: lib/string.c; Memory is about the functions on bytes, Ends, Copy,
--     Chars, Last, Search, Compare and Prefix about strings.
--   Ctype, Ctype/Classes: include/ctype.h.
--   Device, Device/Poll: the registers of devices. A read takes the next value of a sequence of
--     answers, a log holds the accesses in their order; Poll is about busy waits.
--   Uart, Uart/Output, Uart/Digits: kernel/uart.c; Output is about the characters sent, Digits about
--     the conversions of numbers.
--   Printk: kernel/printk.c.
--   Timer, Timer/Sleep, Timer/Calibrate, Timer/Ticks: kernel/timer.c, its wait on the clock, its
--     calibration and its sleeps, which wait on the count of ticks.
--   Interrupt and its children: kernel/interrupt.c; Abort is about the handler of data aborts,
--     Handlers about the others.
--   Heap, Heap/Aligned: kernel/kmalloc.c over a record of the allocator's operations.
--   Shared, Shared/Zones, Shared/Runs: the threads of kernel/task.c and the zones of kernel/page.c
--     over one heap, the blocks that each owns, and sequences of the calls of both.
--   Boot, Boot/Memory, Boot/Tables, Boot/Walk: `init_paging`, `init_ram` and `md_startup` of
--     kernel/machdep.c, the words that they write, and the addresses that the processor then finds.
--     `translate` in Walk is the processor's walk through the two levels of tables.
--   Boot/Window: the pointers `PT` and `PTD` behind these tables.
--   Boot/SmallPages and its children: the branch of `init_paging` behind `#else`; Loops, KernelLoop
--     and Words say what it writes, SelfMap and Reach what the processor then finds.
--   Startup, Startup/Silent, Startup/Ready, Startup/Idle: `cstart` of kernel/machdep.c and
--     `mi_startup` of kernel/startup.c, over all of the above, and the tasks that they start.
--   Tests and its children: runs, and the theorems at concrete inputs.
--
-- Numbers are natural numbers; what C computes in 32 unsigned bits is written with `% 2 ^ 32`. Loops
-- are recursions on the rounds left or on the list: the bounds of the loops are in the code. The loop
-- of `schedule` runs on fuel, the length of the list, which is enough while the running thread is in
-- the list, and a loop over a string on fuel that is enough if it is more than the bytes of the
-- string. A wait for a device or for a tick runs on fuel too, the number of reads that it may take:
-- it is enough if a read within it ends the wait, which is a hypothesis on the device; a device that
-- never answers is the case in which the code does not return, and so is a count of ticks that nothing
-- counts. `malloc` results, the contents of memory, the answers of devices and the array
-- `g_ram_zone` are arguments; so are `vsnprintf`, `memset`, the functions of lib/tlsf and those on
-- files, with what the code relies on as named hypotheses (IsFormatter, IsMemset, IsTlsf, IsOwner,
-- IsFiles).
--
-- The words of a thread, of a node and of the page table are in the records of their parts, not in
-- the heap. A write elsewhere to one of them is either in the model (`memset` in `do_page_fault`, of
-- the words of the table) or an error of it: the pushes of `sys_task_create` on a stack that its
-- caller gives, which `ruins` and `ruins_node` compare with the threads, the nodes and the kernel's own
-- code and variables, with `_end` as in kernel/kernel.list. The other pushes are stores
-- in the heap, and IsOwner says that those outside the allocator's own words change no block.
--
-- Not modelled: assembly (the entry, the switch of threads, the instructions that turn the
-- translation on), code that is a copy of another project's (lib/tlsf, lib/snprintf.c, lib/memcpy.c
-- and lib/memset.c), and what has no effect or no code: functions whose bodies are comments, and the
-- declarations in include that name types, constants and prototypes alone. The loop in the other
-- branch of `init_paging` over the pages up to the directory runs on their number, which is 0 if the
-- directory lies below 0x8000.
pub mod Base
pub mod Cpu
pub mod PageTable
pub mod Bitmap
pub mod Frame
pub mod Vmspace
pub mod Fault
pub mod Task
pub mod Thread
pub mod Strings
pub mod Ctype
pub mod Device
pub mod Uart
pub mod Printk
pub mod Timer
pub mod Interrupt
pub mod Heap
pub mod Shared
pub mod Boot
pub mod Startup
mod Tests
