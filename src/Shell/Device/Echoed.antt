-- ===== src/Shell/Device/Echoed.antt =====
-- What the command `testdev` shows.
use riscv64_embedded_os.Prelude.{
  ℕ, zero, suc, ◌+◌, ◌-◌, ◌^◌, ◌≤◌, ◌<◌, ◌≡◌, refl, ◌∙◌, ap, Bool-cases, inl, inr, arith, ◌==◌,
  ==_ne, ==_refl, List, ◌∷◌, take, length, true, Option, none, some, ltb, ◌&&◌,
}
use riscv64_embedded_os.Prelude.Int.{ℤ}
use riscv64_embedded_os.Mm.{null}
use riscv64_embedded_os.Testdev
use riscv64_embedded_os.Testdev.{Testdev, testdev_size, copy_out}
use riscv64_embedded_os.Testdev.Transfer.{Inv, smaller, testdev_write-read, read_inside}
use riscv64_embedded_os.Vfs.Files.{FileOps, Files, after_call, ops_of, vfs_write}
use riscv64_embedded_os.Vfs.Testdevice.{
  testdev_ops, Serves, IsOpen, ready, open-ready, ready-IsOpen, vfs_write-testdev, written-IsOpen,
  vfs_read-testdev,
}
use riscv64_embedded_os.Shell.Device.{
  device_path, test_data, read_back, file_ops, call_seek, write_there, run_testdev,
}

ops_of-file_ops :
    {D : Type 0} (table : ℕ → FileOps D) (heap_end : ℕ) (s : Files D) (p : ℕ) (t : FileOps D)
    → ops_of table s p ≡ some t
    → file_ops table heap_end s p ≡ t
ops_of-file_ops {D} table heap_end s p t e =
    elim (Bool-cases ((s.vfs.inodes (s.files p).inode).ops == null)) [
      | inl n ↦ absurd (ground (arith, rw n at e))
      | inr n ↦ ap (λ (o : Option (FileOps D)). get_it o) (rw n at e)
    ]
  where
    get_it : Option (FileOps D) → FileOps D
    get_it none = t
    get_it (some u) = u

take-copy_out :
    (buffer : ℕ → ℕ) (at m n : ℕ) → m ≤ n → take m (copy_out buffer at n) ≡ copy_out buffer at m
unfolding copy_out
take-copy_out buffer at zero n h = refl
take-copy_out buffer at (suc m) zero h = absurd (omega arith)
take-copy_out buffer at (suc m) (suc n) h =
    ap (λ xs. buffer at ∷ xs) (take-copy_out buffer (at + 1) m n (omega arith))

-- the bytes shown begin with these
abbrev pub Shows : List ℕ → Option (List ℕ) → Type 0
Shows xs none = ⊥
Shows xs (some ys) = take (length xs) ys ≡ xs

module _ (table : ℕ → FileOps Testdev) (heap_end : ℕ) where
  read_back-Shows :
      (s : Files Testdev) (p : ℕ) (xs : List ℕ)
      → IsOpen table heap_end s p 0
      → Inv s.dev
      → length xs ≤ s.dev.len
      → 0 < length xs
      → length xs ≤ 64
      → copy_out s.dev.buffer 0 (length xs) ≡ xs
      → Shows xs (read_back table heap_end s p).0
  unfolding read_back
  read_back-Shows s p xs is inv reaches some_bytes few same =
      let n = smaller (s.dev.len - 0) 64 in
      let inside = read_inside s.dev 0 64 inv (omega arith) in
      let (result, bytes) = vfs_read-testdev table heap_end s p 0 is 64 in
      let most : length xs ≤ n = ground arith in
      let shown : ltb 0 n && ltb n 65 ≡ true = ground arith in
      rw (result, bytes, inside, shown) (take-copy_out s.dev.buffer 0 (length xs) n most ∙ same)

  -- behind the seek
  abbrev sought : Files Testdev → ℕ → Files Testdev
  sought s p = after_call s p s.dev (record (s.files p) { offset = 0 })

  sought-IsOpen :
      (s : Files Testdev) (p offset : ℕ)
      → IsOpen table heap_end s p offset
      → IsOpen table heap_end (sought s p) p 0
  sought-IsOpen s p offset is = record {
    some_file = is.some_file;
    at = rw (==_refl p);
    ops = rw (==_refl p) is.ops;
  }

  call_seek-Shows :
      (s : Files Testdev) (p offset : ℕ) (xs : List ℕ)
      → IsOpen table heap_end s p offset
      → Shows xs (read_back table heap_end (sought s p) p).0
      → Shows xs (call_seek table heap_end s p (file_ops table heap_end s p).seek_op).0
  unfolding call_seek Testdev.seek
  call_seek-Shows s p offset xs is e = rw (ops_of-file_ops table heap_end s p testdev_ops is.ops) e

  write_there-Shows :
      (s : Files Testdev) (p : ℕ)
      → IsOpen table heap_end s p 0
      → Inv s.dev
      → Shows test_data (write_there table heap_end s p).0
  unfolding write_there
  write_there-Shows s p is inv =
      let (result, offset, over, inv', long, seek, back) =
        testdev_write-read s.dev 0 test_data inv (omega arith) (omega arith) in
      let s' = (vfs_write table s p test_data).1 in
      let open_then = written-IsOpen table heap_end s p 0 is test_data in
      let dev : s'.dev ≡ (Testdev.write s.dev 0 test_data).1 =
        ap (λ (r : ℤ × Files Testdev). r.1.dev)
          (vfs_write-testdev table heap_end s p 0 is test_data) in
      let wrote = vfs_write-testdev table heap_end s p 0 is test_data in
      rw (ap (λ (r : ℤ × Files Testdev). r.0) wrote ∙ result) (
        call_seek-Shows s' p (Testdev.write s.dev 0 test_data).2 test_data open_then (
          read_back-Shows (sought s' p) p test_data (sought-IsOpen s' p _ open_then) (rw dev inv')
            (rw dev (omega (arith, offset, long))) (omega arith) (omega arith) (rw dev over.0)))

  -- With a path that leads to the test device, room for the file in the heap, whose end is more than 8
  -- bytes below 2 ^ 64, and data in the device that its buffer holds, the command `testdev` opens
  -- the device, and what it shows begins with the text that it has written.
  pub run_testdev-Shows :
      (s : Files Testdev) (d : ℕ)
      → Serves table heap_end s device_path d 48
      → heap_end + 8 < 2 ^ 64
      → Inv s.dev
      → Shows test_data (run_testdev table heap_end s).0
  unfolding run_testdev
  run_testdev-Shows s d serves bound inv =
      let is = ready-IsOpen table heap_end s device_path d 0 serves bound in
      let s' = ready table heap_end s device_path d 0 serves bound in
      rw
        (
          open-ready table heap_end s device_path d 0 serves bound,
          ==_ne s.vfs.mm.heap_current null is.some_file,
        )
        (write_there-Shows s' s.vfs.mm.heap_current is inv)
