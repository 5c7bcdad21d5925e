-- ===== src/Tests/Booting.antt =====
-- The start of the kernel at a concrete input.
use riscv64_embedded_os.Prelude.{refl, arith}
use riscv64_embedded_os.Boot.{Kernel, start}
use riscv64_embedded_os.Boot.Start.{HasStatics, Starts, start-Starts}
use riscv64_embedded_os.Tests.Sched.{machine}
use riscv64_embedded_os.Tests.Files.{disk}
use riscv64_embedded_os.Tests.Opening.{system}

abbrev at_reset : Kernel
at_reset = record {
  csrs = record { sstatus = 0; sie = 0; stvec = 0; sepc = 0; scause = 0; stval = 0; satp = 0 };
  kernel_pagetable = 0;
  sched = machine 0;
  sfs = disk;
  files = system;
}

at_reset-HasStatics : HasStatics at_reset
at_reset-HasStatics = record {
  queues = ((λ level h. refl), refl);
  inode_names = λ i h. refl;
  device_names = λ i h. refl;
}

start-Starts_example :
    Starts 0x8020_0100 0x8020_2000 at_reset
      (start 0x8030_0000 0x8050_0000 0x8020_0100 0x8020_2000 at_reset)
start-Starts_example =
    start-Starts 0x8030_0000 0x8050_0000 0x8020_0100 0x8020_2000 at_reset (omega arith)
      (omega arith) at_reset-HasStatics
