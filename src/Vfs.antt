-- ===== src/Vfs.antt =====
-- The device registry and the inodes of kernel/fs/vfs.h and kernel/fs/vfs.c. `devices` is the array
-- of `MAX_DEVICES` entries as a function of the index; a pointer into it is the index. A pointer to
-- a table of file operations is a number. Printing is left out.
pub mod Registry
pub mod Start
pub mod Files
pub mod Opened
pub mod Testdevice
pub mod Session
use riscv64_embedded_os.Prelude.{
  ℕ, zero, suc, ◌+◌, ◌-◌, ◌%◌, ◌^◌, List, Bool, true, false, ◌==◌, if◌then◌else◌, ◌&&◌, Option,
  none, some,
}
use riscv64_embedded_os.Prelude.Int.{ℤ, pos, minus_one}
use riscv64_embedded_os.Mm
use riscv64_embedded_os.Mm.{Mm, null}
use riscv64_embedded_os.Names.{match_from, copy_from}

abbrev pub max_devices : ℕ
max_devices = 16

-- the length of the array `name`
abbrev pub max_name : ℕ
max_name = 32

-- `device_t`
pub record Device : Type 0 where
  pub name : List ℕ
  pub ops : ℕ
  pub used : Bool

-- `inode_t`
pub record Inode : Type 0 where
  pub ino : ℕ
  pub file_type : ℕ
  pub size : ℕ
  pub ref : ℕ
  pub ops : ℕ
  pub private_data : ℕ

-- the `static` variables, and the inodes in the heap, by their addresses
pub record Vfs : Type 0 where
  pub devices : ℕ → Device
  pub next_ino : ℕ
  pub inodes : ℕ → Inode
  pub mm : Mm

abbrev pub put_device : Vfs → ℕ → Device → Vfs
put_device v i d = record v { devices = λ j. if i == j then d else v.devices j }

abbrev pub put_inode : Vfs → ℕ → Inode → Vfs
put_inode v a i = record v { inodes = λ b. if a == b then i else v.inodes b }

-- the loop of `vfs_init`
unfoldable pub init_from : ℕ → ℕ → Vfs → Vfs
init_from zero i v = v
init_from (suc left) i v =
    init_from left (i + 1) (put_device v i (record (v.devices i) { used = false }))

-- `vfs_init`
unfoldable pub init : Vfs → Vfs
unfolding init_from
init v = init_from max_devices 0 v

-- `vfs_create_inode`, which takes the 32 bytes of an inode from the heap
unfoldable pub create_inode : ℕ → Vfs → ℕ → ℕ × Vfs
create_inode heap_end v file_type =
    let (ptr, mm') = Mm.kmalloc heap_end v.mm 32 in
    let inode : Inode = record {
      ino = v.next_ino;
      file_type = file_type;
      size = 0;
      ref = 1;
      ops = null;
      private_data = null;
    } in
    let v' = record v { next_ino = (v.next_ino + 1) % 2 ^ 32; mm = mm' } in
    if ptr == null then (null, record v { mm = mm' }) else (ptr, put_inode v' ptr inode)

-- `vfs_destroy_inode`
unfoldable pub destroy_inode : Vfs → ℕ → Vfs
destroy_inode v inode =
    let i = v.inodes inode in
    let v' = put_inode v inode (record i { ref = (i.ref + 2 ^ 32 - 1) % 2 ^ 32 }) in
    if inode == null
    then v
    else if (v'.inodes inode).ref == 0
    then record v' { mm = Mm.kfree v'.mm inode }
    else v'

-- the entry that `vfs_register_device` fills
abbrev pub registered : List ℕ → ℕ → Device → Device
registered name ops old = record {
  name = copy_from (max_name - 1) 0 name old.name;
  ops = ops;
  used = true;
}

-- the loop of `vfs_register_device` at index `i`, with `left` rounds to go
unfoldable pub register_from : ℕ → ℕ → Vfs → List ℕ → ℕ → ℤ × Vfs
register_from zero i v name ops = (minus_one, v)
register_from (suc left) i v name ops =
    let rest = register_from left (i + 1) v name ops in
    if (v.devices i).used then rest else (pos 0, put_device v i (registered name ops (v.devices i)))

-- `vfs_register_device`
unfoldable pub register_device : Vfs → List ℕ → ℕ → ℤ × Vfs
unfolding register_from
register_device v name ops = register_from max_devices 0 v name ops

-- the loop of `find_device` at index `i`, with `left` rounds to go
unfoldable pub find_from : ℕ → ℕ → Vfs → List ℕ → Option ℕ
find_from zero i v name = none
find_from (suc left) i v name =
    let rest = find_from left (i + 1) v name in
    if (v.devices i).used && match_from max_name 0 (v.devices i).name name then some i else rest

-- `find_device`
unfoldable pub find_device : Vfs → List ℕ → Option ℕ
unfolding find_from
find_device v name = find_from max_devices 0 v name
