-- ===== src/Vfs/Session.antt =====
-- A session with the file of the test device: open, write, close, open again and read.
use riscv64_embedded_os.Prelude.{
  ℕ, ◌+◌, ◌^◌, ◌<◌, ◌≡◌, refl, ◌≢◌, ◌∙◌, ap, sym, List, arith, length, take,
}
use riscv64_embedded_os.Prelude.Int.{ℤ, pos}
use riscv64_embedded_os.Mm.{Mm, null}
use riscv64_embedded_os.Testdev
use riscv64_embedded_os.Testdev.{Testdev, testdev_size}
use riscv64_embedded_os.Testdev.Transfer.{Inv, smaller, testdev_write-read}
use riscv64_embedded_os.Vfs.{Device}
use riscv64_embedded_os.Vfs.Files.{
  FileOps, Files, skip_slash, vfs_open, vfs_close, vfs_read, vfs_write,
}
use riscv64_embedded_os.Vfs.Opened.{find_device-same}
use riscv64_embedded_os.Vfs.Testdevice.{
  Serves, IsOpen, ready, open-ready, ready-IsOpen, vfs_write-testdev, vfs_read-testdev,
  vfs_close-testdev, written-IsOpen,
}

module _ (table : ℕ → FileOps Testdev) (heap_end : ℕ) (s : Files Testdev) (path : List ℕ)
    (d flags again : ℕ) (bytes : List ℕ) (serves : Serves table heap_end s path d 96)
    (bound : heap_end + 8 < 2 ^ 64) (inv : Inv s.dev) where
  first : Serves table heap_end s path d 48
  first = record {
    finds = serves.finds;
    some_ops = serves.some_ops;
    is_testdev = serves.is_testdev;
    some_heap = serves.some_heap;
    room = omega (arith, serves.room);
  }

  abbrev s1 : Files Testdev
  s1 = ready table heap_end s path d flags first bound

  abbrev file : ℕ
  file = s.vfs.mm.heap_current

  s1-IsOpen : IsOpen table heap_end s1 file 0
  s1-IsOpen = ready-IsOpen table heap_end s path d flags first bound

  -- behind the write
  abbrev s2 : Files Testdev
  s2 = (vfs_write table s1 file bytes).1

  s2-IsOpen : IsOpen table heap_end s2 file (Testdev.write s.dev 0 bytes).2
  s2-IsOpen = written-IsOpen table heap_end s1 file 0 s1-IsOpen bytes

  s2-same :
      (s2.dev ≡ (Testdev.write s.dev 0 bytes).1)
      × (s2.vfs.devices ≡ s.vfs.devices)
      × (s2.vfs.mm.heap_current ≡ file + 48)
  s2-same =
      rw (s2, vfs_write-testdev table heap_end s1 file 0 s1-IsOpen bytes) (refl, refl, omega arith)

  -- behind closing
  abbrev s3 : Files Testdev
  s3 = (vfs_close table s2 file).1

  s3-same :
      (s3.dev ≡ (Testdev.write s.dev 0 bytes).1)
      × (s3.vfs.devices ≡ s.vfs.devices)
      × (s3.vfs.mm.heap_current ≡ file + 48)
  s3-same =
      let (result, dev, devices, mm) =
        vfs_close-testdev table heap_end s2 file (Testdev.write s.dev 0 bytes).2 s2-IsOpen in
      (dev ∙ s2-same.0, devices ∙ s2-same.1, ap (λ (m : Mm). m.heap_current) mm ∙ s2-same.2)

  second : Serves table heap_end s3 path d 48
  second =
      let ops : (s3.vfs.devices d).ops ≡ (s.vfs.devices d).ops =
        ap (λ (f : ℕ → Device). (f d).ops) s3-same.1 in
      record {
        finds = find_device-same s.vfs s3.vfs (skip_slash path) s3-same.1 ∙ serves.finds;
        some_ops = λ e. serves.some_ops (sym ops ∙ e);
        is_testdev = ap table ops ∙ serves.is_testdev;
        some_heap = omega (arith, s3-same.2);
        room = omega (arith, s3-same.2, serves.room);
      }

  abbrev s4 : Files Testdev
  s4 = ready table heap_end s3 path d again second bound

  s4-IsOpen : IsOpen table heap_end s4 s3.vfs.mm.heap_current 0
  s4-IsOpen = ready-IsOpen table heap_end s3 path d again second bound

  count : ℕ
  count = smaller testdev_size (length bytes)

  -- what the operations deliver, once the two opens are known
  delivered :
      ((vfs_write table s1 file bytes).0 ≡ pos count)
      × ((vfs_read table s4 s3.vfs.mm.heap_current count).0 ≡ pos count)
      × ((vfs_read table s4 s3.vfs.mm.heap_current count).1 ≡ take count bytes)
  unfolding count
  delivered =
      let (result, offset, over, inv', long, seek, back) =
        testdev_write-read s.dev 0 bytes inv (omega arith) (omega arith) in
      let (got, out) =
        vfs_read-testdev table heap_end s4 s3.vfs.mm.heap_current 0 s4-IsOpen count in
      let dev : s4.dev ≡ (Testdev.write s.dev 0 bytes).1 = s3-same.0 in
      let there = ap (λ (t : Testdev). Testdev.read t 0 count) dev ∙ back in
      (
        rw (vfs_write-testdev table heap_end s1 file 0 s1-IsOpen bytes) result,
        got ∙ ap (λ (r : ℤ × List ℕ × ℕ). r.0) there,
        out ∙ ap (λ (r : ℤ × List ℕ × ℕ). r.1) there,
      )

  -- With a path that leads to the test device, 96 bytes left in the heap, whose end is more than
  -- 8 bytes below 2 ^ 64, and data in the device that its buffer holds: the device's file is
  -- opened, as many of the bytes as the device holds are written to it, and it is closed; opened
  -- again, it is another one, from which the bytes are read that were written.
  pub testdev_session :
      let (p, t1) = vfs_open table heap_end s path flags in
      let (n, t2) = vfs_write table t1 p bytes in
      let (shut, t3) = vfs_close table t2 p in
      let (q, t4) = vfs_open table heap_end t3 path again in
      let (m, out, t5) = vfs_read table t4 q (smaller testdev_size (length bytes)) in
      (p ≢ null)
      × (n ≡ pos (smaller testdev_size (length bytes)))
      × (shut ≡ pos 0)
      × (q ≢ null)
      × (p ≢ q)
      × (m ≡ pos (smaller testdev_size (length bytes)))
      × (out ≡ take (smaller testdev_size (length bytes)) bytes)
  unfolding count
  testdev_session =
      let (wrote_all, read_all, same) = delivered in
      let shut =
        (vfs_close-testdev table heap_end s2 file (Testdev.write s.dev 0 bytes).2 s2-IsOpen).0 in
      rw
        (
          open-ready table heap_end s path d flags first bound,
          open-ready table heap_end s3 path d again second bound,
        )
        (
          s1-IsOpen.some_file,
          wrote_all,
          shut,
          s4-IsOpen.some_file,
          λ e. absurd (omega (arith, e, s3-same.2)),
          read_all,
          same,
        )
