-- ===== src/Tests/Registry.antt =====
-- The device registry at concrete inputs.
use riscv64_embedded_os.Prelude.{refl, [], ◌∷◌, arith, ◌==◌, replicate, inl, inr}
use riscv64_embedded_os.Vfs.{Vfs, register_device}
use riscv64_embedded_os.Vfs.Registry.{Inv, Outcome, register_device-Outcome}

-- the one device "a"
abbrev machine : Vfs
machine = record {
  devices = λ i. record { name = 97 ∷ replicate 31 0; ops = 5; used = i == 0 };
  next_ino = 1;
  inodes = λ a. record { ino = 0; file_type = 0; size = 0; ref = 0; ops = 0; private_data = 0 };
  mm = record { mem = λ a. 0; free_pages = 0; num_free_pages = 0; heap_current = 4096 };
}

machine-Inv : Inv machine
machine-Inv = record { arrays = λ i h. refl; named = λ i h u. inr (inl refl) }

register_device-Outcome_example :
    Outcome machine (98 ∷ 99 ∷ []) 7 (register_device machine (98 ∷ 99 ∷ []) 7)
register_device-Outcome_example =
    register_device-Outcome machine (98 ∷ 99 ∷ []) 7 machine-Inv (omega arith, (omega arith, tt))
