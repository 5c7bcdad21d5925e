-- ===== src/Syscall.antt =====
-- The system calls of kernel/syscall/syscall.c over the scheduler and the file layer. `bytes` is the
-- memory that their pointers lead to, `input` what the UART is going to receive, `output` what it has
-- sent for `SYS_WRITE`. Messages of the kernel itself are left out.
pub mod Reading
use riscv64_embedded_os.Prelude.{
  ℕ, zero, suc, ◌+◌, ◌-◌, ◌%◌, ◌^◌, ◌==◌, if◌then◌else◌, Option, none, some, List, [], ◌∷◌, ◌++◌,
}
use riscv64_embedded_os.Prelude.Int.{ℤ, pos, negsuc}
use riscv64_embedded_os.Mlfq.{null}
use riscv64_embedded_os.Scheduler.{Sched}
use riscv64_embedded_os.Scheduler.Tick.{yield}
use riscv64_embedded_os.Vfs.Files.{FileOps, Files, vfs_open, vfs_close}

pub record Kernel (D : Type 0) : Type 0 where
  pub sched : Sched
  pub files : Files D
  pub bytes : ℕ → ℕ
  pub input : List ℕ
  pub output : List ℕ

-- `SYSCALL_ERROR`
abbrev pub syscall_error : ℕ
syscall_error = 2 ^ 64 - 1

-- an `int` as a `uint64_t`
abbrev pub as_uint64 : ℤ → ℕ
as_uint64 (pos n) = n
as_uint64 (negsuc n) = 2 ^ 64 - 1 - n

-- `&buf[i]`
abbrev pub at_index : ℕ → ℕ → ℕ
at_index buf i = (buf + i) % 2 ^ 64

-- the characters that a loop over `buf` reads from index `i`, with `left` to go
abbrev pub text_at : ℕ → ℕ → (ℕ → ℕ) → ℕ → List ℕ
text_at zero i bytes buf = []
text_at (suc left) i bytes buf = bytes (at_index buf i) ∷ text_at left (i + 1) bytes buf

module _ {D : Type 0} where
  -- a round of the loop of `SYS_READ`: `buf[i] = c`
  abbrev pub receive : Kernel D → ℕ → ℕ → List ℕ → Kernel D
  receive k a c rest = record k { bytes = λ b. if a == b then c else k.bytes b; input = rest }

  -- the loop of `SYS_READ` at index `i`, with `left` rounds to go; `none` when it waits for a
  -- character that never comes
  unfoldable pub read_from : ℕ → ℕ → Kernel D → List ℕ → ℕ → Option (ℕ × Kernel D)
  read_from zero i k input buf = some (i, k)
  read_from (suc left) i k [] buf = none
  read_from (suc left) i k (c ∷ rest) buf =
      let k' = receive k (at_index buf i) c rest in
      let more = read_from left (i + 1) k' rest buf in if c == 10 then some (i + 1, k') else more

  -- `SYS_READ`
  abbrev pub sys_read : Kernel D → ℕ → ℕ → Option (ℕ × Kernel D)
  sys_read k buf len = read_from len 0 k k.input buf

  -- `SYS_WRITE`
  abbrev pub sys_write : Kernel D → ℕ → ℕ → ℕ × Kernel D
  sys_write k buf len = (len, record k { output = k.output ++ text_at len 0 k.bytes buf })

  -- `SYS_GETPID`
  abbrev pub sys_getpid : Kernel D → ℕ
  sys_getpid k = if k.sched.current == null then 0 else (k.sched.procs k.sched.current).pid

  module _ (table : ℕ → FileOps D) (heap_end : ℕ) where
    -- `SYS_OPEN`: the file layer reads at most the 33 characters of a path
    abbrev pub sys_open : Kernel D → ℕ → ℕ → ℕ × Kernel D
    sys_open k path flags =
        let (file, files) =
          vfs_open table heap_end k.files (text_at 33 0 k.bytes path) (flags % 2 ^ 32) in
        (if file == null then syscall_error else file, record k { files = files })

    -- `SYS_CLOSE`
    abbrev pub sys_close : Kernel D → ℕ → ℕ × Kernel D
    sys_close k file =
        let (result, files) = vfs_close table k.files file in
        (as_uint64 result, record k { files = files })

    -- `syscall_handler`; a process that yields gets its result once it runs again
    unfoldable pub syscall_handler : Kernel D → ℕ → ℕ → ℕ → Option (ℕ × Kernel D)
    syscall_handler k num arg0 arg1 =
        if num == 0
        then sys_read k arg0 arg1
        else if num == 1
        then some (sys_write k arg0 arg1)
        else if num == 2
        then some (syscall_error, k)
        else if num == 3
        then some (syscall_error, k)
        else if num == 4
        then some (0, k)
        else if num == 5
        then some (sys_open k arg0 arg1)
        else if num == 6
        then some (sys_close k arg0)
        else if num == 7
        then some (sys_getpid k, k)
        else if num == 8
        then some (0, record k { sched = yield k.sched })
        else some (syscall_error, k)
