-- ===== src/Vfs/Registry.antt =====
-- The device registry: which names lead to which entries.
use riscv64_embedded_os.Prelude.{
  take_all, length-take-le, ℕ, zero, suc, ◌+◌, ◌-◌, ◌≤◌, ◌<◌, ◌≡◌, refl, ◌≢◌, ◌⊎◌, inl, inr, ◌↔◌,
  ◌∙◌, ap, sym, List, Bool, true, false, not, ◌&&◌, arith, ==_ne, ==_refl, length, take, Option,
  none, some, first, first_below, first-same, NoneIn, IsFirst, ℕ_discrete,
}
use mathlib.Core.Bool.{false≢true}
use riscv64_embedded_os.Prelude.Int.{ℤ, pos, minus_one}
use riscv64_embedded_os.Names.{match_from}
use riscv64_embedded_os.Names.Text.{
  text, HasNul, IsName, match_from_iff, text-copy_from, copy_from-HasNul, length-copy_from,
}
use riscv64_embedded_os.Simplefs.Find.{fails}
use riscv64_embedded_os.Vfs.{
  Vfs, Device, max_devices, max_name, put_device, registered, register_from, register_device,
  find_from, find_device,
}

-- The names are arrays of 32 characters; those in use have a NUL.
pub record Inv (v : Vfs) : Type 0 where
  pub arrays : (i : ℕ) → i < max_devices → length (v.devices i).name ≡ max_name
  pub named : (i : ℕ) → i < max_devices → (v.devices i).used ≡ true → HasNul (v.devices i).name

abbrev pub is_free : Vfs → ℕ → Bool
is_free v i = not (v.devices i).used

abbrev pub hit : Vfs → List ℕ → ℕ → Bool
hit v name i = (v.devices i).used && match_from max_name 0 (v.devices i).name name

find_from-first :
    (left i : ℕ) (v : Vfs) (name : List ℕ) → find_from left i v name ≡ first (hit v name) left i
unfolding find_from first
find_from-first zero i v name = refl
find_from-first (suc left) i v name = rw (find_from-first left (i + 1) v name)

find_device-first :
    (v : Vfs) (name : List ℕ) → find_device v name ≡ first (hit v name) max_devices 0
unfolding find_device
find_device-first v name = find_from-first max_devices 0 v name

pub find_device-IsFirst :
    (v : Vfs) (name : List ℕ) → IsFirst (hit v name) 0 max_devices (find_device v name)
find_device-IsFirst v name = rw (find_device-first v name) (first_below (hit v name) max_devices)

hit-same :
    (v w : Vfs) (name : List ℕ) (k : ℕ) → w.devices k ≡ v.devices k → hit w name k ≡ hit v name k
hit-same v w name k e = ap (λ (d : Device). d.used && match_from max_name 0 d.name name) e

hit_iff :
    (v : Vfs) (name : List ℕ) (i : ℕ)
    → Inv v
    → IsName name
    → i < max_devices
    → (v.devices i).used ≡ true
    → (hit v name i ≡ true) ↔ (text (v.devices i).name ≡ name)
hit_iff v name i inv is h u = rw u (
    match_from_iff max_name (v.devices i).name name (inv.named i h u)
      (omega (arith, inv.arrays i h)) is)

-- what `register_from` returns, given the first free entry
abbrev registered_at : Vfs → List ℕ → ℕ → Option ℕ → ℤ × Vfs
registered_at v name ops none = (minus_one, v)
registered_at v name ops (some i) = (pos 0, put_device v i (registered name ops (v.devices i)))

register_from-first :
    (left i : ℕ) (v : Vfs) (name : List ℕ) (ops : ℕ)
    → register_from left i v name ops ≡ registered_at v name ops (first (is_free v) left i)
unfolding register_from first
register_from-first zero i v name ops = refl
register_from-first (suc left) i v name ops =
    ground (arith, register_from-first left (i + 1) v name ops)

-- An entry filled for a device: other names lead to the entries they led to; the name itself leads
-- to an entry, the new one if none had the name before, unless it does not fit.
pub record RegistersDevice (v : Vfs) (name : List ℕ) (ops i : ℕ) (w : Vfs) : Type 0 where
  pub below : i < max_devices
  pub was_free : (v.devices i).used ≡ false
  pub is_used : (w.devices i).used ≡ true
  pub ops_at : (w.devices i).ops ≡ ops
  pub found : length name < max_name → find_device v name ≡ none → find_device w name ≡ some i
  pub lost : max_name ≤ length name → find_device w name ≡ find_device v name
  pub others :
      (other : List ℕ)
      → IsName other
      → take (max_name - 1) name ≢ other
      → find_device w other ≡ find_device v other
  pub inv : Inv w

module _ (v : Vfs) (i : ℕ) (name : List ℕ) (ops : ℕ) (below : i < max_devices) (inv : Inv v)
    (free : is_free v i ≡ true) (is : IsName name) where
  abbrev w : Vfs
  w = put_device v i (registered name ops (v.devices i))

  this : w.devices i ≡ registered name ops (v.devices i)
  this = rw (==_refl i)

  other-device : (k : ℕ) → k ≢ i → w.devices k ≡ v.devices k
  other-device k ne = rw (==_ne i k (λ e. ne (sym e)))

  this_used : (w.devices i).used ≡ true
  this_used = rw this

  fits : max_name - 1 < length (v.devices i).name
  fits = omega (arith, inv.arrays i below)

  text-registered : text (w.devices i).name ≡ take (max_name - 1) name
  text-registered = rw this (text-copy_from (max_name - 1) name (v.devices i).name fits is)

  registered-Inv : Inv w
  registered-Inv = record {
    arrays = λ k h. elim (ℕ_discrete k i) [
      | yes e ↦
          rw (e, this)
            (length-copy_from (max_name - 1) 0 name (v.devices i).name ∙ inv.arrays i below)
      | no ne ↦ rw (other-device k ne) (inv.arrays k h)
    ];
    named = λ k h u. elim (ℕ_discrete k i) [
      | yes e ↦ rw (e, this) (copy_from-HasNul (max_name - 1) name (v.devices i).name fits)
      | no ne ↦
          rw (other-device k ne)
            (inv.named k h (ap (λ (d : Device). d.used) (sym (other-device k ne)) ∙ u))
    ];
  }

  hit-registered :
      (other : List ℕ) → IsName other → (hit w other i ≡ true) ↔ (take (max_name - 1) name ≡ other)
  hit-registered other ok =
      let same = hit_iff w other i registered-Inv ok below this_used in
      ((λ h. sym text-registered ∙ same.0 h), (λ e. same.1 (text-registered ∙ e)))

  registered_others :
      (other : List ℕ)
      → IsName other
      → take (max_name - 1) name ≢ other
      → find_device w other ≡ find_device v other
  registered_others other ok ne =
      find_device-first w other
      ∙ first-same (hit w other) (hit v other) max_devices 0 max_devices refl (λ k a b.
        elim (ℕ_discrete k i) [
          | yes e ↦ rw e (fails _ (hit-registered other ok) ne ∙ ground (arith, free))
          | no out ↦ hit-same v w other k (other-device k out)
        ])
      ∙ sym (find_device-first v other)

  registered_found :
      length name < max_name → find_device v name ≡ none → find_device w name ≡ some i
  registered_found short new = out (find_device-IsFirst w name) (find_device-IsFirst v name)
    where
      here : hit w name i ≡ true
      here = (hit-registered name is).1 (take_all (max_name - 1) name (omega arith))

      out :
          IsFirst (hit w name) 0 max_devices (find_device w name)
          → IsFirst (hit v name) 0 max_devices (find_device v name)
          → find_device w name ≡ some i
      out (inr (d, r)) missing = absurd (false≢true (sym (d i (omega arith) below) ∙ here))
      out (inl found) (inl (j, a, b, c, d, r)) = absurd (ground (arith, sym r ∙ new))
      out (inl (j, a, b, c, d, r)) (inr (none_hit, r')) = elim (ℕ_discrete j i) [
        | yes e ↦ r ∙ ap some e
        | no ne ↦
            absurd (
              false≢true (sym (none_hit j a b) ∙ sym (hit-same v w name j (other-device j ne)) ∙ c))
      ]

  registered-RegistersDevice : RegistersDevice v name ops i w
  registered-RegistersDevice = record {
    below = below;
    was_free = ground (arith, free);
    is_used = this_used;
    ops_at = rw this;
    found = registered_found;
    lost = λ long.
        registered_others name is
          λ e. absurd (omega (arith, ap length e, length-take-le (max_name - 1) name));
    others = registered_others;
    inv = registered-Inv;
  }

abbrev pub Outcome : Vfs → List ℕ → ℕ → ℤ × Vfs → Type 0
Outcome v name ops (n, w) =
    ((i : ℕ) × (n ≡ pos 0) × RegistersDevice v name ops i w)
    ⊎ ((n ≡ minus_one) × (w ≡ v) × NoneIn (is_free v) 0 max_devices)

registered_at-Outcome :
    (v : Vfs) (name : List ℕ) (ops : ℕ) (r : Option ℕ)
    → Inv v
    → IsName name
    → IsFirst (is_free v) 0 max_devices r
    → Outcome v name ops (registered_at v name ops r)
registered_at-Outcome v name ops r inv is (inl (j, a, b, c, d, e)) =
    rw e (inl (j, refl, registered-RegistersDevice v j name ops b inv c is))
registered_at-Outcome v name ops r inv is (inr (d, e)) = rw e (inr (refl, refl, d))

-- For a C string as the name and well-formed entries, `vfs_register_device` fails with -1 and
-- changes nothing exactly when all 16 entries are in use. Else it returns 0 and fills a free entry
-- with the operations: `find_device` finds it under a name of fewer than 32 characters that was not
-- registered before, a longer name leads to what it led to, as does every other name but the one
-- cut off at 31 characters, and the entries stay well formed.
pub register_device-Outcome :
    (v : Vfs) (name : List ℕ) (ops : ℕ)
    → Inv v
    → IsName name
    → Outcome v name ops (register_device v name ops)
unfolding register_device
register_device-Outcome v name ops inv is =
    rw (register_from-first max_devices 0 v name ops)
      (registered_at-Outcome v name ops _ inv is (first_below (is_free v) max_devices))
