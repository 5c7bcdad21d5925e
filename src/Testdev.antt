-- ===== src/Testdev.antt =====
-- The test device of drivers/testdev/testdev.c. `buffer` is the memory from `testdev_buffer` on,
-- what stands behind its 1,024 bytes included, as a function of the index. `file->offset` is an
-- argument and a result of the operations. `uint32_t` sums are taken modulo 2 ^ 32.
pub mod Transfer
use riscv64_embedded_os.Prelude.{
  ℕ, zero, suc, ◌+◌, ◌-◌, ◌%◌, ◌^◌, List, [], ◌∷◌, ◌==◌, ltb, if◌then◌else◌, length, take,
}
use riscv64_embedded_os.Prelude.Int.{u32, as_int, as_int_pos, ℤ, pos, minus_one}

-- `TESTDEV_SIZE`
abbrev pub testdev_size : ℕ
testdev_size = 1024

-- the `static` variables
pub record Testdev : Type 0 where
  pub buffer : ℕ → ℕ
  pub len : ℕ

-- the copying loop of `testdev_read` from index `at`, with `count` bytes to go
unfoldable pub copy_out : (ℕ → ℕ) → ℕ → ℕ → List ℕ
copy_out buffer at zero = []
copy_out buffer at (suc count) = buffer at ∷ copy_out buffer (at + 1) count

-- the copying loop of `testdev_write`
unfoldable pub copy_in : (ℕ → ℕ) → ℕ → List ℕ → ℕ → ℕ
copy_in buffer at [] = buffer
copy_in buffer at (b ∷ bs) = copy_in (λ j. if at == j then b else buffer j) (at + 1) bs

-- `testdev_read`: its result, the bytes it delivers and the new offset of the file
unfoldable pub read : Testdev → ℕ → ℕ → ℤ × List ℕ × ℕ
unfolding copy_out
read d offset count =
    let available = u32 (d.len + 2 ^ 32 - offset) in
    let n = if ltb available count then available else count in
    if available == 0
    then (pos 0, [], offset)
    else (as_int n, copy_out d.buffer offset n, u32 (offset + n))

-- `testdev_write` of all the bytes of a list
unfoldable pub write : Testdev → ℕ → List ℕ → ℤ × Testdev × ℕ
unfolding copy_in
write d offset bytes =
    let space = u32 (testdev_size + 2 ^ 32 - offset) in
    let n = if ltb space (length bytes) then space else length bytes in
    let offset' = u32 (offset + n) in
    if space == 0 then (minus_one, d, offset) else (
      as_int n,
      record {
        buffer = copy_in d.buffer offset (take n bytes);
        len = if ltb d.len offset' then offset' else d.len;
      },
      offset',
    )

-- `testdev_seek`, from the file's offset `old`
unfoldable pub seek : ℕ → ℕ → ℤ × ℕ
seek old offset = if ltb testdev_size offset then (minus_one, old) else (pos 0, offset)

-- `testdev_init`
unfoldable pub init : Testdev → Testdev
init d = record d { len = 0 }
