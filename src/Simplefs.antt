-- ===== src/Simplefs.antt =====
-- The in-memory file system of kernel/fs/simplefs.h and kernel/fs/simplefs.c. `inodes` is the
-- array of `SFS_MAX_FILES` entries as a function of the index; a pointer into it is the index.
-- Printing is left out. `uint32_t` sums are taken modulo 2 ^ 32.
pub mod Find
pub mod Directory
pub mod Created
pub mod Deleted
pub mod Contents
pub mod Start
use riscv64_embedded_os.Prelude.{
  ℕ, zero, suc, ◌+◌, ◌-◌, ◌*◌, ◌%◌, ◌^◌, List, Bool, true, false, not, ◌==◌, ltb, leb,
  if◌then◌else◌, ◌||◌, ◌&&◌, [], ◌∷◌, Option, none, some, get_or, replicate,
}
use riscv64_embedded_os.Prelude.Int.{u32, as_int, ℤ, pos, negsuc, minus_one}
use riscv64_embedded_os.Mm
use riscv64_embedded_os.Mm.{Mm, null}
use riscv64_embedded_os.Names.{match_from, copy_from}

abbrev pub max_files : ℕ
max_files = 64

abbrev pub max_filename : ℕ
max_filename = 28

-- `sfs_superblock_t`
pub record Superblock : Type 0 where
  pub magic : ℕ
  pub block_size : ℕ
  pub num_blocks : ℕ
  pub num_inodes : ℕ
  pub num_free_blocks : ℕ
  pub num_free_inodes : ℕ

-- `sfs_inode_t`
pub record Inode : Type 0 where
  pub ino : ℕ
  pub file_type : ℕ
  pub size : ℕ
  pub blocks : List ℕ
  pub name : List ℕ

-- the `static` variables
pub record Sfs : Type 0 where
  pub superblock : Superblock
  pub inodes : ℕ → Inode
  pub data_blocks : ℕ

abbrev pub put_inode : Sfs → ℕ → Inode → Sfs
put_inode s i v = record s { inodes = λ j. if i == j then v else s.inodes j }

-- the loop of `sfs_init`
unfoldable pub init_from : ℕ → ℕ → Sfs → Sfs
init_from zero i s = s
init_from (suc left) i s =
    init_from left (i + 1)
      (put_inode s i (record (s.inodes i) { ino = 0; file_type = 0; size = 0 }))

-- `sfs_init`
unfoldable pub init : Sfs → Sfs
unfolding init_from
init s = init_from max_files 0 s

-- `sfs_format`, with the heap that `kmalloc` serves
unfoldable pub format : ℕ → Mm → Sfs → ℕ → ℤ × Sfs × Mm
format heap_end mm s num_blocks =
    let superblock : Superblock = record {
      magic = 0x5346_5331;
      block_size = 4096;
      num_blocks = num_blocks;
      num_inodes = max_files;
      num_free_blocks = num_blocks;
      num_free_inodes = max_files;
    } in
    let (ptr, mm') = Mm.kmalloc heap_end mm (u32 (num_blocks * 4096)) in
    let s' = record s { superblock = superblock; data_blocks = ptr } in
    if ptr == null then (minus_one, s', mm') else (pos 0, s', mm')

-- the loop of `find_inode` at index `i`, with `left` rounds to go
unfoldable pub find_from : ℕ → ℕ → Sfs → List ℕ → Option ℕ
find_from zero i s name = none
find_from (suc left) i s name =
    let rest = find_from left (i + 1) s name in
    if not ((s.inodes i).ino == 0) && match_from max_filename 0 (s.inodes i).name name
    then some i
    else rest

-- `find_inode`
unfoldable pub find_inode : Sfs → List ℕ → Option ℕ
unfolding find_from
find_inode s name = find_from max_files 0 s name

-- the inode that `sfs_create` sets up at index `i`
abbrev pub created : ℕ → List ℕ → ℕ → Inode → Inode
created i name file_type old = record {
  ino = i + 1;
  file_type = file_type;
  size = 0;
  blocks = replicate 12 0;
  name = copy_from (max_filename - 1) 0 name old.name;
}

-- the loop of `sfs_create` over the inodes at index `i`, with `left` rounds to go
unfoldable pub create_from : ℕ → ℕ → Sfs → List ℕ → ℕ → ℤ × Sfs
create_from zero i s name file_type = (minus_one, s)
create_from (suc left) i s name file_type =
    let rest = create_from left (i + 1) s name file_type in
    let s' = put_inode s i (created i name file_type (s.inodes i)) in
    let sb = record s.superblock {
      num_free_inodes = u32 (s.superblock.num_free_inodes + 2 ^ 32 - 1);
    } in
    if (s.inodes i).ino == 0 then (pos (i + 1), record s' { superblock = sb }) else rest

-- `sfs_create`
unfoldable pub create : Sfs → List ℕ → ℕ → ℤ × Sfs
unfolding find_inode create_from
create s name file_type = elim (find_inode s name) [
  | some i ↦ (minus_one, s)
  | none ↦ create_from max_files 0 s name file_type
]

-- the loop of `sfs_delete` over the blocks: `num_free_blocks` after it
unfoldable pub release_blocks : List ℕ → ℕ → ℕ
release_blocks [] n = n
release_blocks (b ∷ bs) n = release_blocks bs (if b == 0 then n else u32 (n + 1))

-- `sfs_delete`
unfoldable pub delete : Sfs → List ℕ → ℤ × Sfs
unfolding find_inode release_blocks
delete s name = elim (find_inode s name) [
  | none ↦ (minus_one, s)
  | some i ↦ (
    pos 0,
    record (put_inode s i (record (s.inodes i) { ino = 0; file_type = 0; size = 0 })) {
      superblock = record s.superblock {
        num_free_blocks = release_blocks (s.inodes i).blocks s.superblock.num_free_blocks;
        num_free_inodes = u32 (s.superblock.num_free_inodes + 1);
      };
    },
  )
]

-- the guards of `sfs_read` and `sfs_write`
abbrev pub no_inode : Sfs → ℕ → Bool
no_inode s ino = (ino == 0) || ltb max_files ino || not ((s.inodes (ino - 1)).ino == ino)

-- `sfs_read`, which copies no data
unfoldable pub read : Sfs → ℕ → ℕ → ℕ → ℤ
read s ino offset size =
    let end = (s.inodes (ino - 1)).size in
    if no_inode s ino
    then minus_one
    else if leb end offset
    then pos 0
    else as_int (if ltb end (u32 (offset + size)) then end - offset else size)

-- `sfs_write`, which copies no data
unfoldable pub write : Sfs → ℕ → ℕ → ℕ → ℤ × Sfs
write s ino offset size =
    let inode = s.inodes (ino - 1) in
    let end = u32 (offset + size) in
    if no_inode s ino then (minus_one, s) else (
      as_int size,
      if ltb inode.size end then put_inode s (ino - 1) (record inode { size = end }) else s,
    )
