-- ===== src/Shell/Device.antt =====
-- The command `testdev` of `run_shell` in kernel/main.c: it writes to the test device and reads
-- back. Printing is left out but for what was read.
pub mod Echoed
use riscv64_embedded_os.Prelude.{
  ℕ, ◌==◌, ltb, leb, ◌&&◌, if◌then◌else◌, Bool, true, false, List, [], ◌∷◌, Option, none, some,
}
use riscv64_embedded_os.Prelude.Int.{ℤ, pos, negsuc, is_zero}
use riscv64_embedded_os.Mm.{null}
use riscv64_embedded_os.Vfs.Files.{
  File, FileOps, Files, after_call, vfs_open, vfs_close, vfs_read, vfs_write,
}

-- "/testdev"
abbrev pub device_path : List ℕ
device_path = 47 ∷ 116 ∷ 101 ∷ 115 ∷ 116 ∷ 100 ∷ 101 ∷ 118 ∷ []

-- "Hello from VFS test!"
abbrev pub test_data : List ℕ
test_data =
    72 ∷ 101 ∷ 108 ∷ 108 ∷ 111 ∷ 32 ∷ 102 ∷ 114 ∷ 111 ∷ 109 ∷ 32 ∷ 86 ∷ 70 ∷ 83 ∷ 32 ∷ 116 ∷ 101
    ∷ 115 ∷ 116 ∷ 33 ∷ []

abbrev pub is_negative : ℤ → Bool
is_negative (pos n) = false
is_negative (negsuc n) = true

-- `read_bytes > 0 && read_bytes < (int)sizeof(read_buf)`
abbrev pub is_shown : ℤ → Bool
is_shown (pos n) = ltb 0 n && ltb n 65
is_shown (negsuc n) = false

module _ {D : Type 0} (table : ℕ → FileOps D) (heap_end : ℕ) where
  -- from the read on: the bytes that are shown
  unfoldable pub read_back : Files D → ℕ → Option (List ℕ) × Files D
  read_back s file =
      let (read_bytes, bytes, s') = vfs_read table s file 64 in
      let shut = (vfs_close table s' file).1 in
      if is_negative read_bytes
      then (none, shut)
      else (if is_shown read_bytes then some bytes else none, shut)

  -- the operations of a file's inode, which the command does not compare with NULL
  abbrev pub file_ops : Files D → ℕ → FileOps D
  file_ops s file = table (s.vfs.inodes (s.files file).inode).ops

  -- the call of the device's `seek`, and what follows it
  unfoldable pub call_seek :
      Files D → ℕ → Option (D → File → ℕ → ℤ × D × File) → Option (List ℕ) × Files D
  call_seek s file none = read_back s file
  call_seek s file (some f) =
      let (seek_ret, d, sought) = f s.dev (s.files file) 0 in
      let s' = after_call s file d sought in
      let rest = read_back s' file in
      if is_zero seek_ret then rest else (none, (vfs_close table s' file).1)

  -- from the write on
  unfoldable pub write_there : Files D → ℕ → Option (List ℕ) × Files D
  write_there s file =
      let (written, s') = vfs_write table s file test_data in
      let rest = call_seek s' file (file_ops s' file).seek_op in
      if is_negative written then (none, (vfs_close table s' file).1) else rest

  -- the command: the bytes that it shows, if any
  unfoldable pub run_testdev : Files D → Option (List ℕ) × Files D
  run_testdev s =
      let (file, s') = vfs_open table heap_end s device_path 0 in
      let rest = write_there s' file in if file == null then (none, s') else rest
