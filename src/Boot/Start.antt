-- ===== src/Boot/Start.antt =====
-- The state in which `kernel_main` of kernel/main.c reaches the demonstrations.
use riscv64_embedded_os.Prelude.{
  ℕ, zero, suc, ◌+◌, ◌*◌, ◌/◌, ◌%◌, ◌^◌, ◌≤◌, ◌<◌, ◌≡◌, refl, ◌∙◌, sym, subst, false, ◌==◌, ◌||◌,
  not, List, [], ◌∷◌, length, arith, inl, inr, Bool-cases, bit, if◌then◌else◌, ltb, none, some,
  NoneIn, Option,
}
use riscv64_embedded_os.Prelude.Int.{u32, ℤ}
use riscv64_embedded_os.Mm
use riscv64_embedded_os.Mm.{Mm, null, page_size, mem_end, align_up}
use riscv64_embedded_os.Mm.FreeList.{FreeList}
use riscv64_embedded_os.Mm.Init.{init-FreeList}
use riscv64_embedded_os.Vm.{Call, returns, panics, max_va, va2pa}
use riscv64_embedded_os.Vm.Kernel.{kvminit, kernel_satp}
use riscv64_embedded_os.Vm.Identity.{
  Holds, KernelTable, ready, out_of_pages, kernel_entry, kernel_maps, kernel-va2pa,
  kvminit-KernelTable,
}
use riscv64_embedded_os.Trap.Start as TrapStart
use riscv64_embedded_os.Scheduler.Start.{HasArrays, init-Inv}
use riscv64_embedded_os.Scheduler.Invariant as SchedInvariant
use riscv64_embedded_os.Process.{idle_ptr}
use riscv64_embedded_os.Scheduler.{next}
use riscv64_embedded_os.Simplefs
use riscv64_embedded_os.Testdev
use riscv64_embedded_os.Simplefs.{Sfs, max_files, max_filename, find_inode, format}
use riscv64_embedded_os.Simplefs.Find as Directory
use riscv64_embedded_os.Simplefs.Start.{format-Inv}
use riscv64_embedded_os.Vfs
use riscv64_embedded_os.Vfs.{
  put_device, register_device, register_from, Vfs, max_devices, max_name, find_device,
}
use riscv64_embedded_os.Vfs.Registry as Registry
use riscv64_embedded_os.Vfs.Registry.{is_free, register_device-Outcome}
use riscv64_embedded_os.Names.Text.{IsName}
use riscv64_embedded_os.Vfs.Start.{init-empty}
use riscv64_embedded_os.Vfs.Testdevice.{testdev_register}
use riscv64_embedded_os.Vfs.Opened.{find_device-same}
use riscv64_embedded_os.Boot.{
  Kernel, memory, start_memory, start_services, start, switch_paging, start_rest,
}

-- The arrays of the `static` variables have their length.
pub record HasStatics (k : Kernel) : Type 0 where
  pub queues : HasArrays k.sched
  pub inode_names : (i : ℕ) → i < max_files → length (k.sfs.inodes i).name ≡ max_filename
  pub device_names : (i : ℕ) → i < max_devices → length (k.files.vfs.devices i).name ≡ max_name

abbrev pub testdev_name : List ℕ
testdev_name = 116 ∷ 101 ∷ 115 ∷ 116 ∷ 100 ∷ 101 ∷ 118 ∷ []

-- The name of the test device leads to the entry with its operations.
pub record HasTestdev (v : Vfs) (ops : ℕ) : Type 0 where
  pub entry : ℕ
  pub found : find_device v testdev_name ≡ some entry
  pub ops_at : (v.devices entry).ops ≡ ops
  pub inv : Registry.Inv v

-- What the calls have set up.
pub record Started (trap_entry ops : ℕ) (k k' : Kernel) : Type 0 where
  pub tables : Holds (memory k') k'.kernel_pagetable kernel_entry
  pub identity :
      (va : ℕ)
      → va < max_va
      → va2pa (memory k') k'.kernel_pagetable va ≡ (if kernel_maps va then va else 0)
  pub paging : k'.csrs.satp ≡ kernel_satp k'.kernel_pagetable
  pub vector : k'.csrs.stvec ≡ trap_entry
  pub interrupts :
      (i : ℕ) → bit i k'.csrs.sie ≡ (((bit i k.csrs.sie || (i == 9)) || (i == 5)) || (i == 1))
  pub status : (i : ℕ) → bit i k'.csrs.sstatus ≡ (bit i k.csrs.sstatus || (i == 1))
  pub scheduler : SchedInvariant.Inv k'.sched
  pub nothing_runs : (k'.sched.current ≡ null) × ((next k'.sched).0 ≡ idle_ptr)
  pub directory : Directory.Inv k'.sfs
  pub no_files : (name : List ℕ) → find_inode k'.sfs name ≡ none
  pub devices : HasTestdev k'.files.vfs ops
  pub empty_device : k'.files.dev.len ≡ 0

-- The outcomes: no page was left for a table, or all is set up.
pub data Starts (trap_entry ops : ℕ) (k : Kernel) : Call (Unit {0}) × Kernel → Type 0 where
  halted : {k' : Kernel} → FreeList (memory k') [] → Starts trap_entry ops k (panics, k')
  started : {k' : Kernel} → Started trap_entry ops k k' → Starts trap_entry ops k (returns tt, k')

-- The heap does not matter to the tables.
Holds-heap :
    (s : Mm) (pagetable h : ℕ) (f : ℕ → Option ℕ)
    → Holds s pagetable f
    → Holds (record s { heap_current = h }) pagetable f
Holds-heap s pagetable h f t = record {
  owner = t.owner;
  left = t.left;
  space = record {
    free = record {
      chain = t.space.free.chain;
      pages = t.space.free.pages;
      distinct = t.space.free.distinct;
      number = t.space.free.number;
      few = t.space.free.few;
    };
    tree = t.space.tree;
    unowned = t.space.unowned;
  };
  entries = t.entries;
}

kmalloc-Holds :
    (heap_end : ℕ) (s : Mm) (size pagetable : ℕ) (f : ℕ → Option ℕ)
    → Holds s pagetable f
    → Holds (Mm.kmalloc heap_end s size).1 pagetable f
unfolding Mm.kmalloc
kmalloc-Holds heap_end s size pagetable f t = elim (Bool-cases (size == 0)) [
  | inl e ↦ rw e t
  | inr e ↦ rw e (elim (Bool-cases (ltb heap_end (top s))) [
    | inl l ↦ rw l t
    | inr l ↦ rw l (Holds-heap s pagetable (top s) f t)
  ])
]
  where
    top : Mm → ℕ
    top m = (m.heap_current + (size + 7) % 2 ^ 64 / 8 * 8) % 2 ^ 64

format-Holds :
    (heap_end : ℕ) (s : Mm) (fs : Sfs) (blocks pagetable : ℕ) (f : ℕ → Option ℕ)
    → Holds s pagetable f
    → Holds (format heap_end s fs blocks).2 pagetable f
unfolding format
format-Holds heap_end s fs blocks pagetable f t =
    let got = kmalloc-Holds heap_end s (u32 (blocks * 4096)) pagetable f t in
    elim (Bool-cases ((Mm.kmalloc heap_end s (u32 (blocks * 4096))).0 == null)) [
      | inl e ↦ rw e got
      | inr e ↦ rw e got
    ]

register_from-mm :
    (left i : ℕ) (v : Vfs) (name : List ℕ) (ops : ℕ) → (register_from left i v name ops).1.mm ≡ v.mm
unfolding register_from
register_from-mm zero i v name ops = refl
register_from-mm (suc left) i v name ops = elim (Bool-cases (v.devices i).used) [
  | inl e ↦ rw e (register_from-mm left (i + 1) v name ops)
  | inr e ↦ rw e refl
]

init_from-mm : (left i : ℕ) (v : Vfs) → (Vfs.init_from left i v).mm ≡ v.mm
unfolding Vfs.init_from
init_from-mm zero i v = refl
init_from-mm (suc left) i v =
    init_from-mm left (i + 1) (put_device v i (record (v.devices i) { used = false }))

init-mm : (v : Vfs) → (Vfs.init v).mm ≡ v.mm
unfolding Vfs.init
init-mm v = init_from-mm max_devices 0 v

-- Registering the test device among no others.
register-HasTestdev :
    (v : Vfs) (mm : Mm) (ops : ℕ)
    → ((i : ℕ) → i < max_devices → length (v.devices i).name ≡ max_name)
    → let r = testdev_register (record (Vfs.init v) { mm = mm }) ops in
      HasTestdev r.1 ops × (r.1.mm ≡ mm)
unfolding testdev_register register_device
register-HasTestdev v mm ops arrays = (
  outcome (register_device w testdev_name ops)
      (register_device-Outcome w testdev_name ops w-Inv is),
  register_from-mm max_devices 0 w testdev_name ops,
)
  where
    w : Vfs
    w = record (Vfs.init v) { mm = mm }

    empty :
        NoneIn (λ i. not (is_free (Vfs.init v) i)) 0 max_devices
        × ((name : List ℕ) → find_device (Vfs.init v) name ≡ none)
        × Registry.Inv (Vfs.init v)
    empty = init-empty v arrays

    w-Inv : Registry.Inv w
    w-Inv = record { arrays = empty.2.arrays; named = empty.2.named }

    is : IsName testdev_name
    is = (
      omega arith,
      (omega arith, (omega arith, (omega arith, (omega arith, (omega arith, (omega arith, tt)))))),
    )

    outcome : (r : ℤ × Vfs) → Registry.Outcome w testdev_name ops r → HasTestdev r.1 ops
    outcome (n, u) (inl (i, e, g)) = record {
      entry = i;
      found =
          g.found (omega arith)
            (find_device-same (Vfs.init v) w testdev_name refl ∙ empty.1 testdev_name);
      ops_at = g.ops_at;
      inv = g.inv;
    }
    outcome (n, u) (inr (e, same, full)) =
        absurd (
          ground (arith, full 0 (omega arith) (omega arith), empty.0 0 (omega arith) (omega arith)))

services-Started :
    (heap_start heap_end trap_entry ops : ℕ) (k : Kernel) (pagetable : ℕ) (mm : Mm)
    → HasStatics k
    → Holds mm pagetable kernel_entry
    → Started trap_entry ops k (
        start_services heap_start heap_end trap_entry ops
          (switch_paging heap_start heap_end trap_entry ops k (returns pagetable, mm)).1)
unfolding start_services Testdev.init
services-Started heap_start heap_end trap_entry ops k pagetable mm statics tables =
    let v : Vfs = record k.files.vfs { mm = mm } in
    let (trap_vector, trap_interrupts, trap_status, trap_paging) =
      TrapStart.init-Enables trap_entry (record k.csrs { satp = kernel_satp pagetable }) in
    let sched_ok = init-Inv k.sched statics.queues in
    let fs = format-Inv heap_end (Vfs.init v).mm k.sfs 256 statics.inode_names in
    let formatted = (format heap_end (Vfs.init v).mm (Simplefs.init k.sfs) 256).2 in
    let registry = register-HasTestdev v formatted ops statics.device_names in
    let tables_then : Holds (testdev_register (record (Vfs.init v) { mm = formatted }) ops).1.mm
        pagetable kernel_entry =
      subst (λ (m : Mm). Holds m pagetable kernel_entry) (sym registry.1)
        (format-Holds heap_end (Vfs.init v).mm (Simplefs.init k.sfs) 256 pagetable kernel_entry
          (subst (λ (m : Mm). Holds m pagetable kernel_entry) (sym (init-mm v)) tables)) in
    record {
      tables = tables_then;
      identity = λ va h.
          kernel-va2pa (testdev_register (record (Vfs.init v) { mm = formatted }) ops).1.mm
            pagetable va tables_then h;
      paging = trap_paging;
      vector = trap_vector;
      interrupts = trap_interrupts;
      status = trap_status;
      scheduler = sched_ok.0;
      nothing_runs = (sched_ok.2, sched_ok.5);
      directory = fs.0;
      no_files = fs.2;
      devices = registry.0;
      empty_device = refl;
    }

-- what follows the outcome of `kvminit`
rest-Starts :
    (heap_start heap_end trap_entry ops : ℕ) (k : Kernel) (r : Call ℕ × Mm)
    → HasStatics k
    → KernelTable r
    → Starts trap_entry ops k (
        start_rest heap_start heap_end trap_entry ops
          (switch_paging heap_start heap_end trap_entry ops k r))
rest-Starts heap_start heap_end trap_entry ops k r statics (out_of_pages f) = halted f
rest-Starts heap_start heap_end trap_entry ops k r statics (ready {pagetable} {t} tables same) =
    started (services-Started heap_start heap_end trap_entry ops k pagetable t statics tables)

-- From the start, with a heap whose end is above 0 and a page below the end of the RAM, and arrays
-- of the declared lengths, `kernel_main` reaches the demonstrations, or panics in `kvminit` because
-- no page is left. When it reaches them, the page tables hold each page of the RAM, the UART, the
-- PLIC and the CLINT at its own address and no other page, behind `mm_init` and the calls that take
-- memory since; `satp` holds their address, `stvec` that of `trap_entry`, and the interrupts are
-- enabled; the scheduler is well formed, nothing runs, and it would choose the idle process; the
-- directory is well formed and empty; the path of the test device leads to its operations, and it
-- holds no data.
pub start-Starts :
    (heap_start heap_end trap_entry ops : ℕ) (k : Kernel)
    → 0 < heap_end
    → heap_end + page_size ≤ mem_end
    → HasStatics k
    → Starts trap_entry ops k (start heap_start heap_end trap_entry ops k)
unfolding start start_memory
start-Starts heap_start heap_end trap_entry ops k above fits statics =
    rest-Starts heap_start heap_end trap_entry ops k
      (kvminit (Mm.init heap_start heap_end (memory k))) statics
      (kvminit-KernelTable (Mm.init heap_start heap_end (memory k)) _
        (init-FreeList heap_start heap_end (memory k) above fits).0)
