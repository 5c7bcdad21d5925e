-- ===== src/Vfs/Opened.antt =====
-- `vfs_open` of a device that is registered, while the heap holds a file and an inode.
use riscv64_embedded_os.Prelude.{
  ℕ, zero, suc, ◌+◌, ◌%◌, ◌^◌, ◌≤◌, ◌<◌, ◌≡◌, refl, ◌∙◌, ap, ◌==◌, ==_ne, if◌then◌else◌, List,
  Option, none, some, arith,
}
use riscv64_embedded_os.Mm.{Mm, null, kmalloc}
use riscv64_embedded_os.Vfs.{Vfs, create_inode, find_from, find_device, put_inode, max_devices}
use riscv64_embedded_os.Vfs.Files.{
  FileOps, Files, vfs_dev, skip_slash, put_file, open_device, open_file, open_inode,
  open_registered, vfs_open,
}

kmalloc_fits :
    (heap_end : ℕ) (s : Mm) (size : ℕ)
    → 0 < size
    → size % 8 ≡ 0
    → s.heap_current + size ≤ heap_end
    → heap_end + 8 < 2 ^ 64
    → kmalloc heap_end s size ≡ (s.heap_current, record s { heap_current = s.heap_current + size })
unfolding kmalloc
kmalloc_fits heap_end s size a b c d = ground arith

find_from-same :
    (left i : ℕ) (v w : Vfs) (name : List ℕ)
    → w.devices ≡ v.devices
    → find_from left i w name ≡ find_from left i v name
unfolding find_from
find_from-same zero i v w name e = refl
find_from-same (suc left) i v w name e = rw (find_from-same left (i + 1) v w name e, e)

-- The registry alone decides what is found.
pub find_device-same :
    (v w : Vfs) (name : List ℕ) → w.devices ≡ v.devices → find_device w name ≡ find_device v name
unfolding find_device
find_device-same v w name e = find_from-same max_devices 0 v w name e

-- the file layer with one inode more
abbrev pub created : Vfs → Vfs
created v = record {
  devices = v.devices;
  next_ino = (v.next_ino + 1) % 2 ^ 32;
  inodes = λ b.
      if v.mm.heap_current == b
      then record {
        ino = v.next_ino;
        file_type = vfs_dev;
        size = 0;
        ref = 1;
        ops = null;
        private_data = null;
      }
      else v.inodes b;
  mm = record (v.mm) { heap_current = v.mm.heap_current + 32 };
}

created_lem :
    (heap_end : ℕ) (v : Vfs)
    → 0 < v.mm.heap_current
    → v.mm.heap_current + 32 ≤ heap_end
    → heap_end + 8 < 2 ^ 64
    → create_inode heap_end v vfs_dev ≡ (v.mm.heap_current, created v)
unfolding create_inode
created_lem heap_end v some_heap room bound = rw (
  kmalloc_fits heap_end v.mm 32 (omega arith) (omega arith) room bound,
  ==_ne v.mm.heap_current null (omega arith),
)

module _ {D : Type 0} (table : ℕ → FileOps D) (heap_end : ℕ) where
  -- the heap's next 16 bytes taken for a file
  abbrev pub with_file : Files D → Files D
  with_file s = record s {
    vfs = record (s.vfs) { mm = record (s.vfs.mm) { heap_current = s.vfs.mm.heap_current + 16 } };
  }

  -- the file in them, on a new inode behind it
  abbrev pub opened : Files D → ℕ → ℕ → Files D
  opened s ops flags =
      let inode = s.vfs.mm.heap_current + 16 in
      let v = created (with_file s).vfs in
      put_file (record s { vfs = put_inode v inode (record (v.inodes inode) { ops = ops }) })
        s.vfs.mm.heap_current (record { inode = inode; offset = 0; flags = flags })

  open_registered-opened :
      (s : Files D) (ops flags : ℕ)
      → 0 < s.vfs.mm.heap_current
      → s.vfs.mm.heap_current + 48 ≤ heap_end
      → heap_end + 8 < 2 ^ 64
      → open_registered table heap_end s ops flags
        ≡ open_device table heap_end
            (opened s ops flags)
            s.vfs.mm.heap_current
            (s.vfs.mm.heap_current + 16)
            ops
  unfolding open_registered
  open_registered-opened s ops flags some_heap room bound =
      ap (open_file table heap_end s ops flags)
        (kmalloc_fits heap_end s.vfs.mm 16 (omega arith) (omega arith) (omega arith) bound)
      ∙ file_made
      ∙ ap (open_inode table heap_end (with_file s) s.vfs.mm.heap_current ops flags)
          (created_lem heap_end (with_file s).vfs (omega arith) (omega arith) bound)
      ∙ inode_made
    where
      file_made :
          open_file table heap_end s ops flags (s.vfs.mm.heap_current, (with_file s).vfs.mm)
          ≡ open_inode table heap_end
              (with_file s)
              s.vfs.mm.heap_current
              ops
              flags
              (create_inode heap_end (with_file s).vfs vfs_dev)
      file_made = unfold open_file in rw (==_ne s.vfs.mm.heap_current null (omega arith))

      inode_made :
          open_inode table heap_end
            (with_file s)
            s.vfs.mm.heap_current
            ops
            flags
            (s.vfs.mm.heap_current + 16, created (with_file s).vfs)
          ≡ open_device table heap_end
              (opened s ops flags)
              s.vfs.mm.heap_current
              (s.vfs.mm.heap_current + 16)
              ops
      inode_made = unfold open_inode in rw (==_ne (s.vfs.mm.heap_current + 16) null (omega arith))

  -- what `vfs_open` does with the outcome of the search
  abbrev on_search : Files D → ℕ → Option ℕ → ℕ × Files D
  on_search s flags r = elim r [
    | none ↦ (null, s)
    | some d ↦ open_registered table heap_end s (s.vfs.devices d).ops flags
  ]

  pub vfs_open-opened :
      (s : Files D) (path : List ℕ) (d flags : ℕ)
      → find_device s.vfs (skip_slash path) ≡ some d
      → 0 < s.vfs.mm.heap_current
      → s.vfs.mm.heap_current + 48 ≤ heap_end
      → heap_end + 8 < 2 ^ 64
      → vfs_open table heap_end s path flags
        ≡ open_device table heap_end
            (opened s (s.vfs.devices d).ops flags)
            s.vfs.mm.heap_current
            (s.vfs.mm.heap_current + 16)
            (s.vfs.devices d).ops
  unfolding vfs_open
  vfs_open-opened s path d flags found some_heap room bound =
      ap (on_search s flags) found
      ∙ open_registered-opened s (s.vfs.devices d).ops flags some_heap room bound
