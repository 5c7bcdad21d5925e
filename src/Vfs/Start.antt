-- ===== src/Vfs/Start.antt =====
-- The device registry that `vfs_init` leaves.
use riscv64_embedded_os.Prelude.{
  ℕ, zero, suc, ◌+◌, ◌<◌, ◌≡◌, inl, inr, ◌∙◌, ap, sym, List, Bool, false, not, ◌&&◌, arith,
  if◌then◌else◌, length, none, NoneIn, IsFirst, ltb, leb,
}
use mathlib.Core.Bool.{false≢true}
use riscv64_embedded_os.Names.{match_from}
use riscv64_embedded_os.Vfs.{Vfs, max_devices, max_name, put_device, find_device, init_from, init}
use riscv64_embedded_os.Vfs.Registry.{Inv, is_free, hit, find_device-IsFirst}

init_from-devices :
    (left i : ℕ) (v : Vfs) (k : ℕ)
    → (init_from left i v).devices k
      ≡ (if leb i k && ltb k (i + left) then record (v.devices k) { used = false } else v.devices k)
unfolding init_from
init_from-devices zero i v k = ground arith
init_from-devices (suc left) i v k = ground (
  arith,
  init_from-devices left (i + 1) (put_device v i (record (v.devices i) { used = false })) k,
)

init-device :
    (v : Vfs) (k : ℕ) → k < max_devices → (init v).devices k ≡ record (v.devices k) { used = false }
unfolding init
init-device v k h = init_from-devices max_devices 0 v k ∙ ground arith

-- After `vfs_init`, which leaves the arrays of the names as they are, all entries are free and no
-- name is registered, and the entries are well formed if the arrays have their length.
pub init-empty :
    (v : Vfs)
    → ((i : ℕ) → i < max_devices → length (v.devices i).name ≡ max_name)
    → NoneIn (λ i. not (is_free (init v) i)) 0 max_devices
      × ((name : List ℕ) → find_device (init v) name ≡ none)
      × Inv (init v)
init-empty v arrays = (
  (λ k a b. rw (unused k b)),
  (λ name. missing name (find_device-IsFirst (init v) name)),
  record {
    arrays = λ k h. rw (init-device v k h) (arrays k h);
    named = λ k h u. absurd (false≢true (sym (unused k h) ∙ u));
  },
)
  where
    unused : (k : ℕ) → k < max_devices → ((init v).devices k).used ≡ false
    unused k h = rw (init-device v k h)

    missing :
        (name : List ℕ)
        → IsFirst (hit (init v) name) 0 max_devices (find_device (init v) name)
        → find_device (init v) name ≡ none
    missing name (inr (d, r)) = r
    missing name (inl (j, a, b, c, d, r)) = absurd (
        false≢true (
          sym (
            ap (λ (u : Bool). u && match_from max_name 0 ((init v).devices j).name name)
              (unused j b))
          ∙ c))
