-- ===== src/Boot.antt =====
-- The start of the kernel: `kernel_main` of kernel/main.c up to the demonstrations, and what its
-- calls share. The ends of the heap and the addresses of `trap_entry` and `testdev_ops` are given
-- by the linker. Printing is left out.
pub mod Start
use riscv64_embedded_os.Prelude.{ℕ}
use riscv64_embedded_os.Machine.{Csrs, w_satp}
use riscv64_embedded_os.Mm
use riscv64_embedded_os.Mm.{Mm}
use riscv64_embedded_os.Vm.{Call, returns, panics}
use riscv64_embedded_os.Vm.Kernel.{kvminit, kernel_satp}
use riscv64_embedded_os.Trap.Start as TrapStart
use riscv64_embedded_os.Scheduler.{Sched}
use riscv64_embedded_os.Scheduler.Tick
use riscv64_embedded_os.Simplefs
use riscv64_embedded_os.Simplefs.{Sfs}
use riscv64_embedded_os.Testdev
use riscv64_embedded_os.Testdev.{Testdev}
use riscv64_embedded_os.Vfs
use riscv64_embedded_os.Vfs.Files.{Files}
use riscv64_embedded_os.Vfs.Testdevice.{testdev_register}

-- the registers and the `static` variables of the parts; the memory is that of the file layer
pub record Kernel : Type 0 where
  pub csrs : Csrs
  pub kernel_pagetable : ℕ
  pub sched : Sched
  pub sfs : Sfs
  pub files : Files Testdev

abbrev pub memory : Kernel → Mm
memory k = k.files.vfs.mm

abbrev pub with_memory : Kernel → Mm → Kernel
with_memory k mm = record k { files = record k.files { vfs = record k.files.vfs { mm = mm } } }

module _ (heap_start heap_end trap_entry testdev_ops : ℕ) where
  -- `kvminithart` behind `vm_init`
  abbrev pub switch_paging : Kernel → Call ℕ × Mm → Call (Unit {0}) × Kernel
  switch_paging k (panics, mm) = (panics, with_memory k mm)
  switch_paging k (returns pagetable, mm) = (
    returns tt,
    record (with_memory k mm) {
      kernel_pagetable = pagetable;
      csrs = w_satp k.csrs (kernel_satp pagetable);
    },
  )

  -- `mm_init`, `vm_init` and `kvminithart`
  unfoldable pub start_memory : Kernel → Call (Unit {0}) × Kernel
  start_memory k = switch_paging k (kvminit (Mm.init heap_start heap_end (memory k)))

  -- from `trap_init` to `testdev_register`
  unfoldable pub start_services : Kernel → Kernel
  start_services k =
      let vfs = Vfs.init k.files.vfs in
      let (formatted, sfs, mm) = Simplefs.format heap_end vfs.mm (Simplefs.init k.sfs) 256 in
      let (registered, vfs') = testdev_register (record vfs { mm = mm }) testdev_ops in
      record k {
        csrs = TrapStart.init trap_entry k.csrs;
        sched = Tick.init k.sched;
        sfs = sfs;
        files = record k.files { vfs = vfs'; dev = Testdev.init k.files.dev };
      }

  -- the statements behind the paging's start, which may not be reached
  abbrev pub start_rest : Call (Unit {0}) × Kernel → Call (Unit {0}) × Kernel
  start_rest (panics, k) = (panics, k)
  start_rest (returns u, k) = (returns u, start_services k)

  -- `kernel_main` up to the demonstrations
  unfoldable pub start : Kernel → Call (Unit {0}) × Kernel
  start k = start_rest (start_memory k)
