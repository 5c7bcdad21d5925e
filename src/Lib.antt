-- ===== src/Lib.antt =====
-- A model of the core of a RISC-V kernel, and what it does right. The program is a kernel for
-- QEMU's `virt` machine in C: processes that share one CPU under a scheduler with feedback queues,
-- a page allocator with a heap on top of the RAM, page tables, an in-memory file system, a file
-- layer over devices, a test device, system calls and traps, console output, a shell and an ELF
-- loader.
--
-- Mlfq      the queue of a level, `mlfq_t` of kernel/process/scheduler.c: `init`, `enqueue` and
--           `dequeue` are `mlfq_init`, `mlfq_enqueue` and `mlfq_dequeue`.
-- RtQueue   the queue of real-time processes, `rt_queue_t`: `enqueue` is `rt_enqueue`, with its
--           loop `insert_at`, and `dequeue` is `rt_dequeue`, with its loop `shift`. The priorities
--           that it reads through the pointers are an argument.
-- Process   kernel/process/process.h and process.c: the table, `process_init`, `process_alloc`,
--           `process_free` and the statistics.
-- Scheduler kernel/process/scheduler.c on top of these three: `add`, `next`, `set_priority`,
--           `set_policy`, `context_switch` and `yield_to` are the functions `sched_add`,
--           `sched_next` and so on. Scheduler/Tick holds `sched_tick` and its parts, the main
--           loop and the set-up.
-- Mm        kernel/mm/mm.c: pages linked through their first words, and a heap that only grows.
-- Vm        kernel/mm/vm.c on the memory of Mm: `walk`, `mappages`, `unmappages`, `walkaddr` and
--           `va2pa`; Vm/Kernel holds `kvminit`, what `kvminithart` writes, and
--           `vm_create_user_pagetable`; Vm/Free `vm_free`. The proofs see the tables as a tree of
--           pages that none of the free pages is among (Vm/Space).
-- Names     the loops that copy and compare names in kernel/fs/simplefs.c and vfs.c.
-- Simplefs  kernel/fs/simplefs.c: `format` takes its blocks from the heap of Mm, `find_inode`,
--           `create`, `delete`, `read` and `write` are the functions of those names.
-- Vfs       kernel/fs/vfs.c: the device registry and the inodes, whose space comes from Mm;
--           Vfs/Files holds `vfs_open`, `vfs_close`, `vfs_read` and `vfs_write`.
-- Testdev   drivers/testdev/testdev.c: `read`, `write` and `seek` with the file's offset as an
--           argument and a result; Vfs/Testdevice puts them into the table that Vfs/Files calls.
-- Printf    kernel/printf.c: `print_num` and `printf`, as the characters that they send;
--           Printf/Shown says without the code's buffer what a conversion shows.
-- Syscall   kernel/syscall/syscall.c: `syscall_handler` over Scheduler and Vfs/Files.
-- Machine   the control registers of kernel/riscv.h.
-- Trap      kernel/trap/trap.c: `trap_handler` over Scheduler, whose interrupt of the timer
--           Trap/Timer follows up to the next process; Trap/Start holds `trap_init`.
-- Uart      drivers/uart/uart.c: `putc`, `puts`, `getc` and `has_char`, with the status that the
--           device shows as a parameter. The device takes a character, and hands one out, only
--           when the last read of the status has shown it ready, and then once.
-- Plic      drivers/plic/plic.c: `init`, `enable`, `disable`, `claim` and `complete`.
-- Boot      `kernel_main` of kernel/main.c up to the demonstrations: `start` calls the set-up of all
--           other parts in the order of the source.
-- Selftest  `test_memory` and `test_filesystem` of kernel/main.c; Selftest/Scheduling holds
--           `test_scheduler`.
-- Shell     `run_shell` of kernel/main.c: `read_line` is its line editor, `command` the conditions by
--           which it recognises a command; Shell/Device holds the command `testdev`.
-- Elf       kernel/process/elf.c: `validate` and `load` on the bytes of a binary.
--           Elf/Permissions holds the permissions that `elf_load` computes for a segment.
-- Prelude   the names that all of these share; Tests the theorems at concrete inputs.
--
-- State is passed from operation to operation. A pointer to a process is a number and NULL is 0;
-- memory is a function from addresses to words. Counters of 64 and sums of 32 bits wrap where
-- the C code's do. Loops recurse on the rounds that are left, as many as the C bounds allow: 64
-- slots and inodes, 4 levels, a queue's size, 512 words of a page, the program headers of a file.
-- None runs short: a `while` over a queue has as many rounds as the queue holds processes, since
-- each round takes one out. The loops of `mappages` and `unmappages` take the rounds that lead to
-- their last page (Vm/Rounds), and `print_num` has 64 for the digits of 64 bits (Printf/Number).
-- The calls of `vm_free` nest as deep as their argument says, for which two are enough
-- (Vm/Freeing); the loops that wait for the UART have as many rounds as its parameter says, since
-- they end only if the device gets ready (Uart/Polling).
--
-- A call of `swtch` leaves the code that makes it until its process runs again. A step of the model
-- ends there, and what stands behind the switch, as the aging at the end of `sched_tick`, runs in
-- the step that resumes the process; `Context` records which code that is.
--
-- Not modelled: drivers/rtc, which reads one register; the printing of the components that are
-- modelled; assembly (boot, traps, context switch), of which the model takes only that a switched
-- process goes on where it stopped; and in kernel/main.c `test_vm`, for which the proof that
-- `mappages` keeps the permissions of all last entries is left for later, and what the shell's other
-- commands print.
pub mod Prelude
pub mod Mlfq
pub mod RtQueue
pub mod Process
pub mod Scheduler
pub mod Machine
pub mod Mm
pub mod Vm
pub mod Plic
pub mod Printf
pub mod Syscall
pub mod Trap
pub mod Selftest
pub mod Shell
pub mod Names
pub mod Simplefs
pub mod Uart
pub mod Vfs
pub mod Testdev
pub mod Boot
pub mod Elf
pub mod Tests
