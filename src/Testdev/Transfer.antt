-- ===== src/Testdev/Transfer.antt =====
-- What reads and writes of the test device transfer.
use riscv64_embedded_os.Prelude.{
  length-take_le, ℕ, zero, suc, ◌+◌, ◌-◌, ◌^◌, ◌≤◌, ◌<◌, ◌≡◌, refl, ◌∙◌, ap, ap₂, sym, subst, List,
  [], ◌∷◌, ◌==◌, ==_ne, ==_refl, ltb, if◌then◌else◌, length, take, arith, Bool-cases, false, inl,
  inr,
}
use riscv64_embedded_os.Prelude.Int.{u32, as_int_pos, pos, minus_one}
use native.Mathlib.Nat.{add-zero}
use riscv64_embedded_os.Testdev.{Testdev, testdev_size, copy_out, copy_in, read, write, seek}

-- The data lie in the buffer.
abbrev pub Inv : Testdev → Type 0
Inv d = d.len ≤ testdev_size

abbrev pub smaller : ℕ → ℕ → ℕ
smaller a b = if ltb a b then a else b

copy_in_before :
    (buffer : ℕ → ℕ) (at : ℕ) (bytes : List ℕ) (k : ℕ)
    → k < at
    → copy_in buffer at bytes k ≡ buffer k
unfolding copy_in
copy_in_before buffer at [] k h = refl
copy_in_before buffer at (b ∷ bs) k h =
    copy_in_before (λ j. if at == j then b else buffer j) (at + 1) bs k (omega arith)
    ∙ rw (==_ne at k (omega arith))

copy_in_after :
    (buffer : ℕ → ℕ) (at : ℕ) (bytes : List ℕ) (k : ℕ)
    → at + length bytes ≤ k
    → copy_in buffer at bytes k ≡ buffer k
unfolding copy_in
copy_in_after buffer at [] k h = refl
copy_in_after buffer at (b ∷ bs) k h =
    copy_in_after (λ j. if at == j then b else buffer j) (at + 1) bs k (omega arith)
    ∙ rw (==_ne at k (omega arith))

copy_out-copy_in :
    (buffer : ℕ → ℕ) (at : ℕ) (bytes : List ℕ)
    → copy_out (copy_in buffer at bytes) at (length bytes) ≡ bytes
unfolding copy_in copy_out
copy_out-copy_in buffer at [] = refl
copy_out-copy_in buffer at (b ∷ bs) =
    ap₂ ◌∷◌
      (copy_in_before (λ j. if at == j then b else buffer j) (at + 1) bs at (omega arith)
        ∙ rw (==_refl at))
      (copy_out-copy_in (λ j. if at == j then b else buffer j) (at + 1) bs)

length-copy_out : (buffer : ℕ → ℕ) (at count : ℕ) → length (copy_out buffer at count) ≡ count
unfolding copy_out
length-copy_out buffer at zero = refl
length-copy_out buffer at (suc count) = rw (length-copy_out buffer (at + 1) count)

space-le :
    (offset : ℕ)
    → offset ≤ testdev_size
    → u32 (testdev_size + 2 ^ 32 - offset) ≡ testdev_size - offset
space-le offset h = omega arith

-- With the data inside the buffer, a read at an offset inside the data delivers the bytes from
-- there on, at most as many as are wanted and none behind the data, and moves the offset by
-- their number.
pub read_inside :
    (d : Testdev) (offset count : ℕ)
    → Inv d
    → offset ≤ d.len
    → let n = smaller (d.len - offset) count in
      read d offset count ≡ (pos n, copy_out d.buffer offset n, offset + n)
unfolding read
read_inside d offset count inv h =
    let left = d.len - offset in
    let n = smaller left count in
    let available : u32 (d.len + 2 ^ 32 - offset) ≡ left = omega arith in
    let small : n ≤ 1024 = ground arith in
    let moved : u32 (offset + n) ≡ offset + n = omega arith in
    rw (available, as_int_pos n (omega arith), moved)
      (elim (Bool-cases (left == 0)) [
        | inl e ↦
            let none_left : n ≡ 0 = ground arith in
            rw (e, none_left, copy_out) (ap (λ v. (pos 0, [], v)) (sym (add-zero offset)))
        | inr e ↦ rw e
      ])

-- With the data inside the buffer, a read of fewer than 2 ^ 31 bytes at an offset behind the
-- data that a seek allows is not cut off: it delivers as many bytes as are wanted, those behind
-- the buffer included.
pub read_behind :
    (d : Testdev) (offset count : ℕ)
    → Inv d
    → d.len < offset
    → offset ≤ testdev_size
    → count < 2 ^ 31
    → read d offset count ≡ (pos count, copy_out d.buffer offset count, offset + count)
unfolding read
read_behind d offset count inv h k c =
    let available : u32 (d.len + 2 ^ 32 - offset) ≡ d.len + 2 ^ 32 - offset = omega arith in
    let some_left : (d.len + 2 ^ 32 - offset) == 0 ≡ false = ground arith in
    let whole : ltb (d.len + 2 ^ 32 - offset) count ≡ false = ground arith in
    let moved : u32 (offset + count) ≡ offset + count = omega arith in
    rw (available, some_left, whole, as_int_pos count c, moved)

-- what a write of `n` bytes at `offset` leaves in the buffer: the bytes there, the old ones elsewhere
abbrev pub Overwritten : (ℕ → ℕ) → ℕ → List ℕ → (ℕ → ℕ) → Type 0
Overwritten old offset bytes new =
    (copy_out new offset (length bytes) ≡ bytes)
    × ((k : ℕ) → k < offset → new k ≡ old k)
    × ((k : ℕ) → offset + length bytes ≤ k → new k ≡ old k)

-- the device after a write of `bytes` that fits
abbrev written : Testdev → ℕ → List ℕ → Testdev
written d offset bytes = record {
  buffer = copy_in d.buffer offset bytes;
  len = if ltb d.len (offset + length bytes) then offset + length bytes else d.len;
}

write_fits :
    (d : Testdev) (offset : ℕ) (bytes : List ℕ)
    → offset < testdev_size
    → let n = smaller (testdev_size - offset) (length bytes) in
      write d offset bytes ≡ (pos n, written d offset (take n bytes), offset + n)
unfolding write
write_fits d offset bytes room =
    let n = smaller (testdev_size - offset) (length bytes) in
    let space : u32 (testdev_size + 2 ^ 32 - offset) ≡ testdev_size - offset = omega arith in
    let some_left : (testdev_size - offset) == 0 ≡ false = ground arith in
    let small : n ≤ 1024 = ground arith in
    let moved : u32 (offset + n) ≡ offset + n = omega arith in
    let fits : n ≤ length bytes = ground arith in
    rw (space, some_left, as_int_pos n (omega arith), moved, length-take_le n bytes fits)

-- Behind a write, a read from the same offset delivers the bytes.
read-written :
    (d : Testdev) (offset : ℕ) (bytes : List ℕ)
    → Inv (written d offset bytes)
    → offset ≤ d.len
    → read (written d offset bytes) offset (length bytes)
      ≡ (pos (length bytes), bytes, offset + length bytes)
read-written d offset bytes inv h =
    let d' = written d offset bytes in
    let reaches : offset + length bytes ≤ d'.len = ground arith in
    let n : smaller (d'.len - offset) (length bytes) ≡ length bytes = ground arith in
    read_inside d' offset (length bytes) inv (omega arith)
    ∙ rw (n, copy_out-copy_in d.buffer offset bytes)

-- A write at an offset inside the data, which lie in the buffer, and in front of the buffer's
-- end writes the bytes, as many as fit, and nothing outside them. The data stay in the buffer
-- and reach at least to the end of the bytes, the offset moves behind them, and after a seek
-- back to where it was a read delivers them.
pub testdev_write-read :
    (d : Testdev) (offset : ℕ) (bytes : List ℕ)
    → Inv d
    → offset ≤ d.len
    → offset < testdev_size
    → let n = smaller (testdev_size - offset) (length bytes) in
      let (result, d', offset') = write d offset bytes in
      (result ≡ pos n)
      × (offset' ≡ offset + n)
      × Overwritten d.buffer offset (take n bytes) d'.buffer
      × Inv d'
      × (offset' ≤ d'.len)
      × (seek offset' offset ≡ (pos 0, offset))
      × (read d' offset n ≡ (pos n, take n bytes, offset + n))
unfolding write seek
testdev_write-read d offset bytes inv h room =
    let n = smaller (testdev_size - offset) (length bytes) in
    let piece = take n bytes in
    let d' = written d offset piece in
    let count : length piece ≡ n = length-take_le n bytes (ground arith) in
    let end : offset + n ≤ testdev_size = ground arith in
    let inv' : Inv d' = ground (arith, count) in
    rw (write_fits d offset bytes room, seek)
      (
        refl,
        refl,
        (
          copy_out-copy_in d.buffer offset piece,
          copy_in_before d.buffer offset piece,
          copy_in_after d.buffer offset piece,
        ),
        inv',
        ground (arith, count),
        ground (arith, room),
        subst (λ m. read d' offset m ≡ (pos m, piece, offset + m)) count
            (read-written d offset piece inv' h),
      )

pub write_full :
    (d : Testdev) (bytes : List ℕ) → write d testdev_size bytes ≡ (minus_one, d, testdev_size)
unfolding write
write_full d bytes = refl
