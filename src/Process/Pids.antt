-- ===== src/Process/Pids.antt =====
-- The processes that are allocated, and their numbers.
use riscv64_embedded_os.Prelude.{
  ℕ, ◌+◌, ◌-◌, ◌^◌, length-set, [], ◌∷◌, ◌<◌, ◌≡◌, refl, ◌≢◌, ◌⊎◌, inl, inr, ◌∙◌, ap, sym, true,
  false, List, arith, ==_ne, ==_refl, ℕ_discrete, get_or, length, set,
}
use riscv64_embedded_os.Prelude.Int.{minus_one}
use riscv64_embedded_os.Mlfq.{null, max_processes}
use riscv64_embedded_os.Process
use riscv64_embedded_os.Process.{
  Table, Process, runnable, normal, proc_ptr, inc64, put, filled, alloc,
}
use riscv64_embedded_os.Process.Slots.{slot_free, Taken, Allocates, alloc-Allocates}

-- The numbers of the processes in use were given out before `next_pid`, and differ.
pub record Numbered (t : Table) : Type 0 where
  pub below :
      (k : ℕ) → k < max_processes → slot_free t k ≡ false → (t.procs (proc_ptr k)).pid < t.next_pid
  pub apart :
      (j k : ℕ)
      → j < max_processes
      → k < max_processes
      → slot_free t j ≡ false
      → slot_free t k ≡ false
      → (t.procs (proc_ptr j)).pid ≡ (t.procs (proc_ptr k)).pid
      → j ≡ k

-- A new process: runnable, of normal policy and the default priority, which no CPU has run yet. It
-- keeps its page table and the length of its name, which is empty.
pub record IsFresh (pid now : ℕ) (old new : Process) : Type 0 where
  pub numbered : new.pid ≡ pid
  pub state : new.state ≡ runnable
  pub name : (length new.name ≡ length old.name) × (get_or new.name 0 0 ≡ 0)
  pub priority : (new.priority ≡ 100) × (new.dynamic_priority ≡ 100)
  pub policy : (new.policy ≡ normal) × (new.queue_level ≡ 0) × (new.time_slice ≡ 0)
  pub cpu : (new.cpu_id ≡ minus_one) × (new.cpu_affinity ≡ 2 ^ 64 - 1)
  pub pagetable : new.pagetable ≡ old.pagetable
  pub ran : (new.stats.cpu_time ≡ 0) × (new.stats.context_switches ≡ 0) × (new.stats.last_run ≡ 0)
  pub started : new.stats.start_time ≡ now

-- An allocation of the first free slot.
pub record Fills (t : Table) (j p : ℕ) (u : Table) : Type 0 where
  pub below : j < max_processes
  pub at : p ≡ proc_ptr j
  pub was_free : slot_free t j ≡ true
  pub taken : slot_free u j ≡ false
  pub first : Taken t 0 j
  pub fresh : IsFresh t.next_pid t.global_ticks (t.procs p) (u.procs p)
  pub others : (q : ℕ) → q ≢ p → u.procs q ≡ t.procs q
  pub next : u.next_pid ≡ t.next_pid + 1
  pub numbered : Numbered u

abbrev pub Outcome : Table → ℕ × Table → Type 0
Outcome t (p, u) = ((j : ℕ) × Fills t j p u) ⊎ ((p ≡ null) × (u ≡ t) × Taken t 0 max_processes)

-- the table with slot `j` filled
abbrev with_slot : Table → ℕ → Table
with_slot t j = record (put t (proc_ptr j) (filled t (t.procs (proc_ptr j)))) {
  next_pid = inc64 t.next_pid;
}

first_set : (name : List ℕ) → get_or (set name 0 0) 0 0 ≡ 0
first_set [] = refl
first_set (c ∷ cs) = refl

filled-IsFresh : (t : Table) (old : Process) → IsFresh t.next_pid t.global_ticks old (filled t old)
unfolding filled
filled-IsFresh t old = record {
  numbered = refl;
  state = refl;
  name = (length-set old.name 0 0, first_set old.name);
  priority = (refl, refl);
  policy = (refl, refl, refl);
  cpu = (refl, refl);
  pagetable = refl;
  ran = (refl, refl, refl);
  started = refl;
}

module _ (t : Table) (j : ℕ) (numbered : Numbered t) (room : t.next_pid + 1 < 2 ^ 64)
    (below : j < max_processes) where
  u_this : (with_slot t j).procs (proc_ptr j) ≡ filled t (t.procs (proc_ptr j))
  u_this = rw (==_refl (proc_ptr j))

  u_other : (q : ℕ) → q ≢ proc_ptr j → (with_slot t j).procs q ≡ t.procs q
  u_other q ne = rw (==_ne (proc_ptr j) q (λ e. ne (sym e)))

  slot_other : (k : ℕ) → k ≢ j → (with_slot t j).procs (proc_ptr k) ≡ t.procs (proc_ptr k)
  slot_other k ne = u_other (proc_ptr k) λ e. ne (omega (arith, e))

  free_other : (k : ℕ) → k ≢ j → slot_free (with_slot t j) k ≡ slot_free t k
  free_other k ne = ap (λ (p : Process). Process.is_unused p.state) (slot_other k ne)

  pid_this : ((with_slot t j).procs (proc_ptr j)).pid ≡ t.next_pid
  pid_this = ap (λ (p : Process). p.pid) u_this ∙ (filled-IsFresh t (t.procs (proc_ptr j))).numbered

  pid_other :
      (k : ℕ) → k ≢ j → ((with_slot t j).procs (proc_ptr k)).pid ≡ (t.procs (proc_ptr k)).pid
  pid_other k ne = ap (λ (p : Process). p.pid) (slot_other k ne)

  next_is : (with_slot t j).next_pid ≡ t.next_pid + 1
  next_is = omega (arith, room)

  old_below :
      (k : ℕ)
      → k < max_processes
      → k ≢ j
      → slot_free (with_slot t j) k ≡ false
      → ((with_slot t j).procs (proc_ptr k)).pid < t.next_pid
  old_below k h ne f = rw (pid_other k ne) (numbered.below k h (sym (free_other k ne) ∙ f))

  slot-Numbered : Numbered (with_slot t j)
  slot-Numbered = record {
    below = λ k h f. elim (ℕ_discrete k j) [
      | yes e ↦ rw (e, next_is) (omega (arith, pid_this))
      | no ne ↦ omega (arith, next_is, old_below k h ne f)
    ];
    apart = λ a b h l f g e. elim (ℕ_discrete a j) [
      | yes x ↦ elim (ℕ_discrete b j) [
        | yes y ↦ x ∙ sym y
        | no y ↦ absurd (omega (arith, rw x at e, pid_this, old_below b l y g))
      ]
      | no x ↦ elim (ℕ_discrete b j) [
        | yes y ↦ absurd (omega (arith, rw y at e, pid_this, old_below a h x f))
        | no y ↦
            numbered.apart a b h l (sym (free_other a x) ∙ f) (sym (free_other b y) ∙ g)
              (sym (pid_other a x) ∙ e ∙ pid_other b y)
      ]
    ];
  }

  slot-Fills : slot_free t j ≡ true → Taken t 0 j → Fills t j (proc_ptr j) (with_slot t j)
  slot-Fills free first = record {
    below = below;
    at = refl;
    was_free = free;
    taken =
        ap (λ (p : Process). Process.is_unused p.state) u_this
        ∙ ap Process.is_unused (filled-IsFresh t (t.procs (proc_ptr j))).state;
    first = first;
    fresh = rw u_this (filled-IsFresh t (t.procs (proc_ptr j)));
    others = u_other;
    next = next_is;
    numbered = slot-Numbered;
  }

Allocates-Outcome :
    (t : Table) (r : ℕ × Table)
    → Numbered t
    → t.next_pid + 1 < 2 ^ 64
    → Allocates t 0 max_processes r
    → Outcome t r
Allocates-Outcome t (p, u) numbered room (inr full) = inr full
Allocates-Outcome t (p, u) numbered room (inl (j, a, b, e, free, first, same)) =
    rw (same, e) (inl (j, slot-Fills t j numbered room b free first))

-- When the numbers of the processes in use differ and lie below `next_pid`, which is not about to
-- wrap, `process_alloc` either returns NULL and changes nothing, exactly when all 64 slots are taken,
-- or returns the first free slot. Its process is runnable, has the number `next_pid`, which no other
-- process in use has, an empty name, the default priority and normal policy, and statistics that
-- begin now; no other slot changes, and the numbers in use differ again and lie below `next_pid`.
pub alloc-Outcome : (t : Table) → Numbered t → t.next_pid + 1 < 2 ^ 64 → Outcome t (alloc t)
alloc-Outcome t numbered room = Allocates-Outcome t (alloc t) numbered room (alloc-Allocates t)
