-- ===== src/Machine.antt =====
-- The control registers that kernel/riscv.h reads and writes. `csrr` gives what a register holds,
-- `csrw` puts a value there; which bits the hardware keeps fixed is not modelled, nor are `wfi` and
-- `sfence.vma`, which change no register.
use riscv64_embedded_os.Prelude.{ℕ, ◌^◌}

pub record Csrs : Type 0 where
  pub sstatus : ℕ
  pub sie : ℕ
  pub stvec : ℕ
  pub sepc : ℕ
  pub scause : ℕ
  pub stval : ℕ
  pub satp : ℕ

-- `SSTATUS_SIE`
abbrev pub sstatus_sie : ℕ
sstatus_sie = 2 ^ 1

-- `SIE_SSIE`
abbrev pub sie_ssie : ℕ
sie_ssie = 2 ^ 1

-- `SIE_STIE`
abbrev pub sie_stie : ℕ
sie_stie = 2 ^ 5

-- `SIE_SEIE`
abbrev pub sie_seie : ℕ
sie_seie = 2 ^ 9

abbrev pub r_sstatus : Csrs → ℕ
r_sstatus c = c.sstatus

abbrev pub w_sstatus : Csrs → ℕ → Csrs
w_sstatus c x = record c { sstatus = x }

abbrev pub r_sie : Csrs → ℕ
r_sie c = c.sie

abbrev pub w_sie : Csrs → ℕ → Csrs
w_sie c x = record c { sie = x }

abbrev pub r_stvec : Csrs → ℕ
r_stvec c = c.stvec

abbrev pub w_stvec : Csrs → ℕ → Csrs
w_stvec c x = record c { stvec = x }

abbrev pub r_sepc : Csrs → ℕ
r_sepc c = c.sepc

abbrev pub w_sepc : Csrs → ℕ → Csrs
w_sepc c x = record c { sepc = x }

abbrev pub r_stval : Csrs → ℕ
r_stval c = c.stval

abbrev pub r_satp : Csrs → ℕ
r_satp c = c.satp

abbrev pub r_scause : Csrs → ℕ
r_scause c = c.scause

abbrev pub w_satp : Csrs → ℕ → Csrs
w_satp c x = record c { satp = x }
