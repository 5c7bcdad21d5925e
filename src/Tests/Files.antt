-- ===== src/Tests/Files.antt =====
-- The file system at concrete inputs.
use riscv64_embedded_os.Prelude.{
  ℕ, ◌-◌, ◌≡◌, refl, ◌≢◌, List, [], ◌∷◌, arith, ◌==◌, if◌then◌else◌, replicate, inl, inr,
}
use riscv64_embedded_os.Prelude.Int.{pos}
use riscv64_embedded_os.Simplefs.{Sfs, create, delete, read, write, find_inode}
use riscv64_embedded_os.Simplefs.Find.{Inv, Unique}
use riscv64_embedded_os.Mm.{Mm}
use riscv64_embedded_os.Simplefs.Created
use riscv64_embedded_os.Simplefs.Deleted
use riscv64_embedded_os.Simplefs.Contents.{IsFile, size_of, file_max, file_min, sfs_write-read}

-- a disk with the one file "a", of 10 bytes, in inode 0
abbrev pub disk : Sfs
disk = record {
  superblock = record {
    magic = 0x5346_5331;
    block_size = 4096;
    num_blocks = 8;
    num_inodes = 64;
    num_free_blocks = 8;
    num_free_inodes = 63;
  };
  inodes = λ i. record {
    ino = if i == 0 then 1 else 0;
    file_type = 1;
    size = 10;
    blocks = replicate 12 0;
    name = 97 ∷ replicate 27 0;
  };
  data_blocks = 4096;
}

pub disk-Inv : Inv disk
disk-Inv = record {
  numbered = λ i h. ground arith;
  arrays = λ i h. refl;
  named = λ i h u. inr (inl refl);
  counted = refl;
}

pub disk-Unique : Unique disk
disk-Unique i j a b u v e = ground arith

disk-IsFile : IsFile disk 1
disk-IsFile = (omega arith, omega arith, refl)

-- "b"
abbrev other : List ℕ
other = 98 ∷ []

create-Outcome_example : Created.Outcome disk other (create disk other 1)
create-Outcome_example = Created.create-Outcome disk other 1 disk-Inv (omega arith, tt)

delete-Outcome_example :
    Deleted.Outcome disk (97 ∷ []) (find_inode disk (97 ∷ [])) (delete disk (97 ∷ []))
delete-Outcome_example =
    Deleted.delete-Outcome disk (97 ∷ []) disk-Inv disk-Unique (omega arith, tt)

sfs_write-read_example :
    ((write disk 1 8 20).0 ≡ pos 20)
    × (size_of (write disk 1 8 20).1 1 ≡ file_max 10 28)
    × ((k : ℕ) → k ≢ 0 → (write disk 1 8 20).1.inodes k ≡ disk.inodes k)
    × ((write disk 1 8 20).1.superblock ≡ disk.superblock)
    × (read (write disk 1 8 20).1 1 5 100 ≡ pos (file_min 100 (file_max 10 28 - 5)))
sfs_write-read_example =
    sfs_write-read disk 1 8 20 5 100 disk-IsFile (omega arith) (omega arith) (omega arith)
      (omega arith)

-- a heap of which 16 blocks are left
abbrev heap : Mm
heap = record { mem = λ a. 0; free_pages = 0; num_free_pages = 0; heap_current = 4096 }
