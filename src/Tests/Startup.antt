-- ===== src/Tests/Startup.antt =====
-- The tests at the start and the command `testdev` at concrete inputs.
use riscv64_embedded_os.Prelude.{[], ◌∷◌, refl, arith, replicate, ◌==◌}
use riscv64_embedded_os.Mm.FreeList.{FreeList}
use riscv64_embedded_os.Names.{match_from}
use riscv64_embedded_os.Process.{unused}
use riscv64_embedded_os.Scheduler.{Sched}
use riscv64_embedded_os.Scheduler.Invariant.{Inv, queued, beside-Inv}
use riscv64_embedded_os.Selftest.{test_memory, test_filesystem}
use riscv64_embedded_os.Selftest.Pages.{test_memory-FreeList, exchanged}
use riscv64_embedded_os.Selftest.Directory.{Kept, test_filesystem-Kept}
use riscv64_embedded_os.Selftest.Scheduling.{test_scheduler}
use riscv64_embedded_os.Selftest.Scheduling.Readied.{Readies, test_scheduler-Readies}
use riscv64_embedded_os.Testdev.{Testdev}
use riscv64_embedded_os.Vfs.{find_device, find_from}
use riscv64_embedded_os.Vfs.Files.{Files}
use riscv64_embedded_os.Vfs.Testdevice.{Serves}
use riscv64_embedded_os.Shell.Device.{device_path, test_data, run_testdev}
use riscv64_embedded_os.Shell.Device.Echoed.{Shows, run_testdev-Shows}
use riscv64_embedded_os.Tests.Sched.{machine, machine-Inv}
use riscv64_embedded_os.Tests.Files.{disk, disk-Inv, disk-Unique}
use riscv64_embedded_os.Tests.Opening.{system, operations}
use riscv64_embedded_os.Tests.Paging.{empty_table, empty_table-FreeList}

test_memory-FreeList_example :
    FreeList (test_memory 8192 empty_table) (exchanged (8192 ∷ 12288 ∷ []))
test_memory-FreeList_example =
    test_memory-FreeList 8192 empty_table (8192 ∷ 12288 ∷ []) empty_table-FreeList

test_filesystem-Kept_example : Kept disk (test_filesystem disk)
test_filesystem-Kept_example = test_filesystem-Kept disk disk-Inv disk-Unique

-- nothing queued, and all slots unused
abbrev vacant : Sched
vacant = record (machine 0) {
  table = record (machine 0).table {
    procs = λ p. record ((machine 0).table.procs p) { state = unused };
  };
}

vacant-Inv : Inv vacant
vacant-Inv = beside-Inv (machine 0) vacant.table vacant.cpu (machine-Inv 0)

test_scheduler-Readies_example : Readies vacant (test_scheduler vacant)
unfolding queued
test_scheduler-Readies_example = test_scheduler-Readies vacant vacant-Inv (omega arith)

-- the test device under its name
abbrev named : Files Testdev
named = record system {
  vfs = record system.vfs {
    devices = λ i. record {
      name = 116 ∷ 101 ∷ 115 ∷ 116 ∷ 100 ∷ 101 ∷ 118 ∷ replicate 25 0;
      ops = 5;
      used = i == 2;
    };
  };
}

named-Serves : Serves operations 8192 named device_path 2 48
unfolding find_device find_from match_from
named-Serves = record {
  finds = refl;
  some_ops = omega arith;
  is_testdev = refl;
  some_heap = omega arith;
  room = omega arith;
}

run_testdev-Shows_example : Shows test_data (run_testdev operations 8192 named).0
run_testdev-Shows_example =
    run_testdev-Shows operations 8192 named 2 named-Serves (omega arith) (omega arith)
