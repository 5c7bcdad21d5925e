-- ===== src/Tests/Opening.antt =====
-- Files of the test device at concrete inputs.
use riscv64_embedded_os.Prelude.{
  ℕ, ◌≡◌, refl, ◌≢◌, List, [], ◌∷◌, arith, ◌==◌, replicate, length, take,
}
use riscv64_embedded_os.Prelude.Int.{pos}
use riscv64_embedded_os.Names.{match_from}
use riscv64_embedded_os.Testdev.{Testdev, testdev_size}
use riscv64_embedded_os.Testdev.Transfer.{smaller}
use riscv64_embedded_os.Vfs.{find_device, find_from}
use riscv64_embedded_os.Vfs.Files.{FileOps, Files, vfs_open, vfs_close, vfs_read, vfs_write}
use riscv64_embedded_os.Vfs.Testdevice.{testdev_ops, Serves}
use riscv64_embedded_os.Vfs.Session.{testdev_session}

-- the test device as "t", its operations at the address 5
abbrev pub system : Files Testdev
system = record {
  vfs = record {
    devices = λ i. record { name = 116 ∷ replicate 31 0; ops = 5; used = i == 2 };
    next_ino = 1;
    inodes = λ a. record { ino = 0; file_type = 0; size = 0; ref = 0; ops = 0; private_data = 0 };
    mm = record { mem = λ a. 0; free_pages = 0; num_free_pages = 0; heap_current = 4096 };
  };
  files = λ a. record { inode = 0; offset = 0; flags = 0 };
  dev = record { buffer = λ i. 0; len = 0 };
}

abbrev pub operations : ℕ → FileOps Testdev
operations a = testdev_ops

-- `/t`
abbrev path : List ℕ
path = 47 ∷ 116 ∷ []

abbrev message : List ℕ
message = 72 ∷ 105 ∷ []

system-Serves : Serves operations 8192 system path 2 96
unfolding find_device find_from match_from
system-Serves = record {
  finds = refl;
  some_ops = omega arith;
  is_testdev = refl;
  some_heap = omega arith;
  room = omega arith;
}

testdev_session_example :
    let (p, t1) = vfs_open operations 8192 system path 0 in
    let (n, t2) = vfs_write operations t1 p message in
    let (shut, t3) = vfs_close operations t2 p in
    let (q, t4) = vfs_open operations 8192 t3 path 0 in
    let (m, out, t5) = vfs_read operations t4 q (smaller testdev_size (length message)) in
    (p ≢ 0)
    × (n ≡ pos (smaller testdev_size (length message)))
    × (shut ≡ pos 0)
    × (q ≢ 0)
    × (p ≢ q)
    × (m ≡ pos (smaller testdev_size (length message)))
    × (out ≡ take (smaller testdev_size (length message)) message)
testdev_session_example =
    testdev_session operations 8192 system path 2 0 0 message system-Serves (omega arith)
      (omega arith)
