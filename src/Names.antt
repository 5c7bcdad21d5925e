-- ===== src/Names.antt =====
-- Names in fixed `char` arrays, as kernel/fs/simplefs.c and kernel/fs/vfs.c copy and compare them.
-- A C string argument is the list of its characters in front of the NUL, none of them 0; reading
-- it at the index behind the last gives the NUL, and the loops read no further.
pub mod Text
use riscv64_embedded_os.Prelude.{
  ℕ, zero, suc, List, Bool, true, false, ◌==◌, if◌then◌else◌, get_or, set,
}

-- the inner loop of `find_inode` and `find_device` at index `j`, with `left` rounds to go
unfoldable pub match_from : ℕ → ℕ → List ℕ → List ℕ → Bool
match_from zero j stored name = true
match_from (suc left) j stored name =
    let rest = match_from left (suc j) stored name in
    if get_or stored j 0 == get_or name j 0
    then (if get_or name j 0 == 0 then true else rest)
    else false

-- the copying loop of `sfs_create` and `vfs_register_device` at index `j`, with at most `left`
-- characters to go, and the NUL behind it
unfoldable pub copy_from : ℕ → ℕ → List ℕ → List ℕ → List ℕ
copy_from zero j name stored = set stored j 0
copy_from (suc left) j name stored =
    let rest = copy_from left (suc j) name (set stored j (get_or name j 0)) in
    if get_or name j 0 == 0 then set stored j 0 else rest
