-- ===== src/Vfs/Testdevice.antt =====
-- The test device behind the file layer: `testdev_ops` of drivers/testdev/testdev.c, and what the
-- operations of the file layer come to on its file.
use riscv64_embedded_os.Prelude.{
  ℕ, ◌+◌, ◌-◌, ◌%◌, ◌^◌, ◌≤◌, ◌<◌, ◌≡◌, refl, ◌≢◌, ◌∙◌, ap, ◌==◌, ==_ne, ==_refl, List, [], ◌∷◌,
  some, arith, Bool-cases, inl, inr,
}
use riscv64_embedded_os.Prelude.Int.{ℤ, pos}
use riscv64_embedded_os.Mm.{null, kfree}
use riscv64_embedded_os.Testdev
use riscv64_embedded_os.Testdev.{Testdev, testdev_size}
use riscv64_embedded_os.Vfs.{Vfs, find_device, destroy_inode, register_device}
use riscv64_embedded_os.Vfs.Files.{
  File, FileOps, Files, skip_slash, after_call, ops_of, open_device, call_open, call_close,
  call_read, call_write, release_file, vfs_open, vfs_close, vfs_read, vfs_write,
}
use riscv64_embedded_os.Vfs.Opened.{opened, vfs_open-opened}

-- `testdev_ops`
abbrev pub testdev_ops : FileOps Testdev
testdev_ops = record {
  open_op = some λ d inode file. (pos 0, d, file);
  close_op = some λ d file. (d, file);
  read_op = some λ d file count.
      let (result, bytes, offset) = Testdev.read d file.offset count in
      (result, bytes, d, record file { offset = offset });
  write_op = some λ d file bytes.
      let (result, d', offset) = Testdev.write d file.offset bytes in
      (result, d', record file { offset = offset });
  seek_op = some λ d file to.
      let (result, offset) = Testdev.seek file.offset to in
      (result, d, record file { offset = offset });
}

-- `testdev_register`, with the address of `testdev_ops`
unfoldable pub testdev_register : Vfs → ℕ → ℤ × Vfs
testdev_register v ops = register_device v (116 ∷ 101 ∷ 115 ∷ 116 ∷ 100 ∷ 101 ∷ 118 ∷ []) ops

destroy_inode-devices :
    (v : Vfs) (i : ℕ) → ((destroy_inode v i).devices ≡ v.devices) × ((destroy_inode v i).mm ≡ v.mm)
unfolding destroy_inode kfree
destroy_inode-devices v i = elim (Bool-cases (i == null)) [
  | inl e ↦ rw e (refl, refl)
  | inr e ↦ rw e (elim (Bool-cases (((v.inodes i).ref + 2 ^ 32 - 1) % 2 ^ 32 == 0)) [
    | inl z ↦ rw (==_refl i, z) (refl, refl)
    | inr z ↦ rw (==_refl i, z) (refl, refl)
  ])
]

ops_of_known :
    {D : Type 0} (table : ℕ → FileOps D) (s : Files D) (file inode ops : ℕ) (t : FileOps D)
    → (s.files file).inode ≡ inode
    → (s.vfs.inodes inode).ops ≡ ops
    → ops ≢ null
    → table ops ≡ t
    → ops_of table s file ≡ some t
ops_of_known table s file inode ops t a b c e = rw (a, b, ==_ne ops null c, e)

module _ (table : ℕ → FileOps Testdev) (heap_end : ℕ) where
  -- `p` is a file of the test device, at an offset.
  pub record IsOpen (s : Files Testdev) (p offset : ℕ) : Type 0 where
    pub some_file : p ≢ null
    pub at : (s.files p).offset ≡ offset
    pub ops : ops_of table s p ≡ some testdev_ops

  -- A path leads to the test device, and the heap holds `n` bytes more.
  pub record Serves (s : Files Testdev) (path : List ℕ) (d n : ℕ) : Type 0 where
    pub finds : find_device s.vfs (skip_slash path) ≡ some d
    pub some_ops : (s.vfs.devices d).ops ≢ null
    pub is_testdev : table (s.vfs.devices d).ops ≡ testdev_ops
    pub some_heap : 0 < s.vfs.mm.heap_current
    pub room : s.vfs.mm.heap_current + n ≤ heap_end

  module _ (s : Files Testdev) (path : List ℕ) (d flags : ℕ) (serves : Serves s path d 48)
      (bound : heap_end + 8 < 2 ^ 64) where
    abbrev pub p : ℕ
    p = s.vfs.mm.heap_current

    abbrev pub made : Files Testdev
    made = opened table heap_end s (s.vfs.devices d).ops flags

    abbrev pub ready : Files Testdev
    ready = after_call made p s.dev (made.files p)

    pub open-ready : vfs_open table heap_end s path flags ≡ (p, ready)
    unfolding open_device call_open
    open-ready =
        vfs_open-opened table heap_end s path d flags serves.finds serves.some_heap serves.room
          bound
        ∙ ap (λ (t : FileOps Testdev). call_open table heap_end made p (p + 16) t.open_op)
            serves.is_testdev

    file-ready : ready.files p ≡ record { inode = p + 16; offset = 0; flags = flags }
    file-ready = rw (==_refl p)

    pub ready-IsOpen : IsOpen ready p 0
    ready-IsOpen = record {
      some_file = λ e. absurd (omega (arith, serves.some_heap));
      at = ap (λ (f : File). f.offset) file-ready;
      ops =
          ops_of_known table ready p (p + 16) (s.vfs.devices d).ops testdev_ops
            (ap (λ (f : File). f.inode) file-ready) (rw (==_refl (p + 16))) serves.some_ops
            serves.is_testdev;
    }

  module _ (s : Files Testdev) (p offset : ℕ) (is : IsOpen s p offset) where
    abbrev pub wrote : List ℕ → ℤ × Testdev × ℕ
    wrote bytes = Testdev.write s.dev offset bytes

    pub vfs_write-testdev :
        (bytes : List ℕ)
        → vfs_write table s p bytes ≡ (
          (wrote bytes).0,
          after_call s p (wrote bytes).1 (record (s.files p) { offset = (wrote bytes).2 }),
        )
    unfolding vfs_write call_write
    vfs_write-testdev bytes = rw (==_ne p null is.some_file, is.ops, is.at)

    pub vfs_read-testdev :
        (count : ℕ)
        → ((vfs_read table s p count).0 ≡ (Testdev.read s.dev offset count).0)
          × ((vfs_read table s p count).1 ≡ (Testdev.read s.dev offset count).1)
    unfolding vfs_read call_read
    vfs_read-testdev count = rw (==_ne p null is.some_file, is.ops, is.at) (refl, refl)

    -- what `vfs_close` leaves
    abbrev pub closed : Files Testdev
    closed = (vfs_close table s p).1

    vfs_close-release :
        vfs_close table s p ≡ release_file table (after_call s p s.dev (s.files p)) p
    unfolding vfs_close call_close
    vfs_close-release =
        rw (==_ne p null is.some_file)
          (ap (λ o. release_file table (call_close table s p o) p) is.ops)

    pub vfs_close-testdev :
        ((vfs_close table s p).0 ≡ pos 0)
        × (closed.dev ≡ s.dev)
        × (closed.vfs.devices ≡ s.vfs.devices)
        × (closed.vfs.mm ≡ s.vfs.mm)
    unfolding release_file kfree
    vfs_close-testdev =
        let (devices, mm) =
          destroy_inode-devices s.vfs ((after_call s p s.dev (s.files p)).files p).inode in
        (
          ap (λ (r : ℤ × Files Testdev). r.0) vfs_close-release,
          ap (λ (r : ℤ × Files Testdev). r.1.dev) vfs_close-release,
          ap (λ (r : ℤ × Files Testdev). r.1.vfs.devices) vfs_close-release ∙ devices,
          ap (λ (r : ℤ × Files Testdev). r.1.vfs.mm) vfs_close-release ∙ mm,
        )

    pub written-IsOpen : (bytes : List ℕ) → IsOpen (vfs_write table s p bytes).1 p (wrote bytes).2
    written-IsOpen bytes =
        rw (vfs_write-testdev bytes)
          record { some_file = is.some_file; at = rw (==_refl p); ops = rw (==_refl p) is.ops }
