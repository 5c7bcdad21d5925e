-- ===== src/Trap.antt =====
-- The trap handler of kernel/trap/trap.c over the scheduler. The registers `scause`, `sepc` and
-- `stval` are read once; the last two are only printed. Printing is left out.
pub mod Start
pub mod Timer
use riscv64_embedded_os.Prelude.{ℕ, ◌%◌, ◌^◌, ◌==◌, leb, if◌then◌else◌}
use riscv64_embedded_os.Vm.{Call, returns, panics}
use riscv64_embedded_os.Scheduler.{Sched}
use riscv64_embedded_os.Scheduler.Tick.{tick}

-- `INTERRUPT_BIT`
abbrev pub interrupt_bit : ℕ
interrupt_bit = 2 ^ 63

-- the `switch` on the number of an interrupt: only the timer's does more than print
unfoldable pub interrupt : Sched → ℕ → Sched
interrupt s int_num = if int_num == 5 then tick s else s

-- `trap_handler`
unfoldable pub trap_handler : Sched → ℕ → Call (Unit {0}) × Sched
trap_handler s scause =
    if leb interrupt_bit scause then (returns tt, interrupt s (scause % 2 ^ 63)) else (panics, s)
