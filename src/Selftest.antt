-- ===== src/Selftest.antt =====
-- The tests that the kernel runs at its start, of kernel/main.c. Printing is left out.
pub mod Pages
pub mod Directory
pub mod Scheduling
use riscv64_embedded_os.Prelude.{ℕ, List, [], ◌∷◌, ◌==◌, if◌then◌else◌}
use riscv64_embedded_os.Prelude.Int.{ℤ, pos, negsuc}
use riscv64_embedded_os.Mm.{Mm, alloc_page, free_page, kmalloc}
use riscv64_embedded_os.Simplefs
use riscv64_embedded_os.Simplefs.{Sfs}

-- `test_memory`
unfoldable pub test_memory : ℕ → Mm → Mm
test_memory heap_end s =
    let (page1, s1) = alloc_page s in
    let (page2, s2) = alloc_page s1 in
    let (ptr1, s3) = kmalloc heap_end s2 256 in
    let (ptr2, s4) = kmalloc heap_end s3 512 in free_page (free_page s4 page1) page2

-- "testfile"
abbrev pub testfile : List ℕ
testfile = 116 ∷ 101 ∷ 115 ∷ 116 ∷ 102 ∷ 105 ∷ 108 ∷ 101 ∷ []

-- `VFS_FILE`
abbrev pub vfs_file : ℕ
vfs_file = 1

-- `test_filesystem` behind the creation: whether it deletes the file, and what it leaves
abbrev pub delete_created : ℤ × Sfs → Sfs
delete_created (negsuc n, s) = s
delete_created (pos n, s) = if n == 0 then s else (Simplefs.delete s testfile).1

-- `test_filesystem`
unfoldable pub test_filesystem : Sfs → Sfs
test_filesystem s = delete_created (Simplefs.create s testfile vfs_file)
