-- ===== src/Tests/Calls.antt =====
-- System calls and traps at concrete inputs.
use riscv64_embedded_os.Prelude.{◌∙◌, ◌≡◌, ◌+◌, ◌^◌, inr, refl, [], ◌∷◌, arith}
use riscv64_embedded_os.Testdev.{Testdev}
use riscv64_embedded_os.Syscall.{Kernel, syscall_handler}
use riscv64_embedded_os.Syscall.Reading.{Reads, sys_read-Reads}
use riscv64_embedded_os.Vm.{returns}
use riscv64_embedded_os.Scheduler.{Sched}
use riscv64_embedded_os.Scheduler.Invariant.{beside-Inv, occurs_beside, queued_beside}
use riscv64_embedded_os.Trap.{trap_handler}
use riscv64_embedded_os.Trap.Timer.{Ticks, trap_handler-Ticks}
use riscv64_embedded_os.Tests.Sched.{machine, machine-Inv, machine-occurs, machine-queued}
use riscv64_embedded_os.Tests.Opening.{system, operations}

-- `ok` and a line feed are about to be received, and one character more
abbrev kernel : Kernel Testdev
kernel = record {
  sched = machine 1;
  files = system;
  bytes = λ a. 0;
  input = 111 ∷ 107 ∷ 10 ∷ 33 ∷ [];
  output = [];
}

sys_read-Reads_example :
    Reads kernel 0 512
      (111 ∷ 107 ∷ 10 ∷ [])
      (33 ∷ [])
      (syscall_handler operations 8192 kernel 0 512 80)
sys_read-Reads_example =
    sys_read-Reads operations 8192 kernel 512 80 (111 ∷ 107 ∷ 10 ∷ []) (33 ∷ []) refl
      (omega arith, (omega arith, tt)) (omega arith) (inr refl) (omega arith)

-- process 1 in the last tick of its time slice
abbrev ending : Sched
ending = record (machine 1) {
  table = record (machine 1).table { procs = λ p. record ((machine 1).procs p) { time_slice = 1 } };
}

trap_handler-Ticks_example :
    let r = trap_handler ending (2 ^ 63 + 5) in
    (r.0 ≡ returns tt) × (r.1.global_ticks ≡ 8) × Ticks ending r.1
trap_handler-Ticks_example =
    trap_handler-Ticks ending
      (record { not_null = omega arith; not_idle = omega arith; runs = refl; policy = refl })
      (beside-Inv (machine 1) ending.table ending.cpu (machine-Inv 1))
      (occurs_beside (machine 1) ending.table ending.cpu 1 ∙ machine-occurs 1 1)
      (omega (arith, queued_beside (machine 1) ending.table ending.cpu, machine-queued 1))
      (omega arith) (omega arith)
