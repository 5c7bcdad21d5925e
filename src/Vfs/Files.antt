-- ===== src/Vfs/Files.antt =====
-- Opening, closing, reading and writing of files: `vfs_open`, `vfs_close`, `vfs_read` and
-- `vfs_write` of kernel/fs/vfs.c. The operations of a device are those behind the pointer `ops`;
-- an entry of the table may be NULL. They see the device's state and the file.
use riscv64_embedded_os.Prelude.{ℕ, ◌==◌, if◌then◌else◌, List, [], ◌∷◌, Option, none, some}
use riscv64_embedded_os.Prelude.Int.{ℤ, pos, minus_one, is_zero}
use riscv64_embedded_os.Mm
use riscv64_embedded_os.Mm.{Mm, null}
use riscv64_embedded_os.Vfs.{Vfs, create_inode, destroy_inode, find_device, put_inode}

-- `file_t`
pub record File : Type 0 where
  pub inode : ℕ
  pub offset : ℕ
  pub flags : ℕ

-- `VFS_DEV`
abbrev pub vfs_dev : ℕ
vfs_dev = 3

-- `sizeof(file_t)`
abbrev pub file_size : ℕ
file_size = 16

-- `file_ops_t`
pub record FileOps (D : Type 0) : Type 0 where
  pub open_op : Option (D → ℕ → File → ℤ × D × File)
  pub close_op : Option (D → File → D × File)
  pub read_op : Option (D → File → ℕ → ℤ × List ℕ × D × File)
  pub write_op : Option (D → File → List ℕ → ℤ × D × File)
  pub seek_op : Option (D → File → ℕ → ℤ × D × File)

-- the file layer, the open files by their addresses, and the devices
pub record Files (D : Type 0) : Type 0 where
  pub vfs : Vfs
  pub files : ℕ → File
  pub dev : D

-- `if (path[0] == '/') path++;`
abbrev pub skip_slash : List ℕ → List ℕ
skip_slash [] = []
skip_slash (c ∷ path) = if c == 47 then path else c ∷ path

module _ {D : Type 0} where
  abbrev pub put_file : Files D → ℕ → File → Files D
  put_file s p f = record s { files = λ q. if p == q then f else s.files q }

  -- the device and the file behind a call of one of the operations
  abbrev pub after_call : Files D → ℕ → D → File → Files D
  after_call s p d f = record s { dev = d; files = λ q. if p == q then f else s.files q }

  module _ (table : ℕ → FileOps D) (heap_end : ℕ) where
    -- the call of the device's `open`, and what follows it
    unfoldable pub call_open : Files D → ℕ → ℕ → Option (D → ℕ → File → ℤ × D × File) → ℕ × Files D
    call_open s file inode none = (file, s)
    call_open s file inode (some f) =
        let (result, d, opened) = f s.dev inode (s.files file) in
        let s' = after_call s file d opened in
        let v = destroy_inode s'.vfs opened.inode in
        if is_zero result
        then (file, s')
        else (null, record s' { vfs = record v { mm = Mm.kfree v.mm file } })

    unfoldable pub open_device : Files D → ℕ → ℕ → ℕ → ℕ × Files D
    open_device s file inode ops = call_open s file inode (table ops).open_op

    -- `vfs_open` behind the creation of the inode
    unfoldable pub open_inode : Files D → ℕ → ℕ → ℕ → ℕ × Vfs → ℕ × Files D
    open_inode s file ops flags (inode, v) =
        let without : Files D =
          put_file (record s { vfs = record v { mm = Mm.kfree v.mm file } }) file
            (record (s.files file) { inode = inode }) in
        let opened : Files D =
          put_file (record s { vfs = put_inode v inode (record (v.inodes inode) { ops = ops }) })
            file (record { inode = inode; offset = 0; flags = flags }) in
        if inode == null then (null, without) else open_device opened file inode ops

    -- `vfs_open` behind the allocation of the file
    unfoldable pub open_file : Files D → ℕ → ℕ → ℕ × Mm → ℕ × Files D
    open_file s ops flags (file, mm') =
        let s' : Files D = record s { vfs = record (s.vfs) { mm = mm' } } in
        if file == null
        then (null, s')
        else open_inode s' file ops flags (create_inode heap_end s'.vfs vfs_dev)

    -- `vfs_open` behind the search for the device
    unfoldable pub open_registered : Files D → ℕ → ℕ → ℕ × Files D
    open_registered s ops flags = open_file s ops flags (Mm.kmalloc heap_end s.vfs.mm file_size)

    -- `vfs_open`
    unfoldable pub vfs_open : Files D → List ℕ → ℕ → ℕ × Files D
    vfs_open s path flags = elim (find_device s.vfs (skip_slash path)) [
      | none ↦ (null, s)
      | some d ↦ open_registered s (s.vfs.devices d).ops flags
    ]

  module _ (table : ℕ → FileOps D) where
    -- the operations of a file's inode, unless they are NULL
    abbrev pub ops_of : Files D → ℕ → Option (FileOps D)
    ops_of s file =
        let ops = (s.vfs.inodes (s.files file).inode).ops in
        if ops == null then none else some (table ops)

    -- the call of the device's `close`
    unfoldable pub call_close : Files D → ℕ → Option (FileOps D) → Files D
    call_close s file none = s
    call_close s file (some ops) = elim ops.close_op [
      | none ↦ s
      | some f ↦ let (d, closed) = f s.dev (s.files file) in after_call s file d closed
    ]

    -- what `vfs_close` does behind that call
    unfoldable pub release_file : Files D → ℕ → ℤ × Files D
    release_file s file =
        let v = destroy_inode s.vfs (s.files file).inode in
        (pos 0, record s { vfs = record v { mm = Mm.kfree v.mm file } })

    -- `vfs_close`
    unfoldable pub vfs_close : Files D → ℕ → ℤ × Files D
    vfs_close s file =
        if file == null
        then (minus_one, s)
        else release_file (call_close s file (ops_of s file)) file

    -- the call of the device's `read`
    unfoldable pub call_read : Files D → ℕ → ℕ → Option (FileOps D) → ℤ × List ℕ × Files D
    call_read s file count none = (minus_one, [], s)
    call_read s file count (some ops) = elim ops.read_op [
      | none ↦ (minus_one, [], s)
      | some f ↦
          let (result, bytes, d, file') = f s.dev (s.files file) count in
          (result, bytes, after_call s file d file')
    ]

    -- `vfs_read`: its result and the bytes it delivers
    unfoldable pub vfs_read : Files D → ℕ → ℕ → ℤ × List ℕ × Files D
    vfs_read s file count =
        if file == null then (minus_one, [], s) else call_read s file count (ops_of s file)

    -- the call of the device's `write`
    unfoldable pub call_write : Files D → ℕ → List ℕ → Option (FileOps D) → ℤ × Files D
    call_write s file bytes none = (minus_one, s)
    call_write s file bytes (some ops) = elim ops.write_op [
      | none ↦ (minus_one, s)
      | some f ↦
          let (result, d, file') = f s.dev (s.files file) bytes in
          (result, after_call s file d file')
    ]

    -- `vfs_write`
    unfoldable pub vfs_write : Files D → ℕ → List ℕ → ℤ × Files D
    vfs_write s file bytes =
        if file == null then (minus_one, s) else call_write s file bytes (ops_of s file)
