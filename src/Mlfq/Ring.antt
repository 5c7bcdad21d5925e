-- ===== src/Mlfq/Ring.antt =====
-- The ring against the first-in first-out list of what it holds.
use riscv64_embedded_os.Prelude.{
  Bool, Bool-cases, inl, inr, ℕ, zero, suc, ◌+◌, ◌-◌, ◌%◌, ◌≤◌, ◌<◌, ◌≡◌, refl, ◌≢◌, ap, ap₂, ◌∙◌,
  List, [], ◌∷◌, ◌++◌, arith, ◌==◌, leb, ◌||◌, if◌then◌else◌, length, get_or, set, length-set,
  get_or-set_self, get_or-set_ne,
}
use riscv64_embedded_os.Mlfq.{Mlfq, null, max_processes, init, enqueue, dequeue}

pub record IsValid (q : Mlfq) : Type 0 where
  pub array : length q.queue ≡ max_processes
  pub head_in : q.head < max_processes
  pub size_in : q.size ≤ max_processes
  pub tail_at : q.tail ≡ (q.head + q.size) % max_processes

-- the `n` entries from index `h` on, going round at the end of the array
abbrev pub window : List ℕ → ℕ → ℕ → List ℕ
window buf h zero = []
window buf h (suc n) = get_or buf h null ∷ window buf ((h + 1) % max_processes) n

-- what a queue holds, oldest first
abbrev pub contents : Mlfq → List ℕ
contents q = window q.queue q.head q.size

length-window : (buf : List ℕ) (h n : ℕ) → length (window buf h n) ≡ n
length-window buf h zero = refl
length-window buf h (suc n) = ap suc (length-window buf ((h + 1) % max_processes) n)

pub length-contents : (q : Mlfq) → length (contents q) ≡ q.size
length-contents q = length-window q.queue q.head q.size

window-last :
    (buf : List ℕ) (h n : ℕ)
    → h < max_processes
    → window buf h (suc n) ≡ window buf h n ++ get_or buf ((h + n) % max_processes) null ∷ []
window-last buf h zero p = ap (λ i. get_or buf i null ∷ []) (omega arith)
window-last buf h (suc n) p = ap (◌∷◌ (get_or buf h null)) (
    window-last buf ((h + 1) % max_processes) n (omega arith)
    ∙ ap (λ i. window buf ((h + 1) % max_processes) n ++ get_or buf i null ∷ []) (omega arith))

-- A write outside a window leaves it.
window-set :
    (buf : List ℕ) (i v h n : ℕ)
    → h < max_processes
    → n < max_processes
    → i ≡ (h + n) % max_processes
    → window (set buf i v) h n ≡ window buf h n
window-set buf i v h n p q e = go n h p (λ k b. omega arith)
  where
    go :
        (m g : ℕ)
        → g < max_processes
        → ((k : ℕ) → k < m → (g + k) % max_processes ≢ i)
        → window (set buf i v) g m ≡ window buf g m
    go zero g p out = refl
    go (suc m) g p out =
        ap₂ ◌∷◌ (get_or-set_ne buf i g v null (λ e. out 0 (omega arith) (omega arith))) (
          go m ((g + 1) % max_processes) (omega arith)
            (λ k b c. out (suc k) (omega arith) (omega arith)))

-- the queue that a level stands for: at most `max_processes` processes, never NULL
unfoldable pub fifo_push : List ℕ → ℕ → List ℕ
fifo_push xs p = if (p == null) || leb max_processes (length xs) then xs else xs ++ p ∷ []

unfoldable pub fifo_pop : List ℕ → ℕ × List ℕ
fifo_pop [] = (null, [])
fifo_pop (x ∷ xs) = (x, xs)

pub fifo_pop_some : (xs : List ℕ) → 0 < length xs → xs ≡ (fifo_pop xs).0 ∷ (fifo_pop xs).1
unfolding fifo_pop
fifo_pop_some [] h = absurd (omega arith)
fifo_pop_some (x ∷ xs) h = refl

pub init-IsValid : (q : Mlfq) → length q.queue ≡ max_processes → IsValid (init q)
unfolding init
init-IsValid q h = omega arith

-- An emptied queue holds nothing.
pub contents-init : (q : Mlfq) → contents (init q) ≡ []
unfolding init
contents-init q = refl

pub enqueue-IsValid : {q : Mlfq} (p : ℕ) → IsValid q → IsValid (enqueue q p)
unfolding enqueue
enqueue-IsValid {q} p v = ground (arith, length-set q.queue q.tail p)

pub dequeue-IsValid : {q : Mlfq} → IsValid q → IsValid (dequeue q).1
unfolding dequeue
dequeue-IsValid v = ground arith

contents-enqueue :
    {q : Mlfq} (p : ℕ) → IsValid q → contents (enqueue q p) ≡ fifo_push (contents q) p
unfolding enqueue fifo_push
contents-enqueue {q} p v = ground (
  arith,
  length-contents q,
  window-last (set q.queue q.tail p) q.head q.size,
  window-set q.queue q.tail p q.head q.size,
  get_or-set_self q.queue q.tail p null,
)

-- whether a process is not put behind these: it is NULL, or there are `max_processes` of them
abbrev pub refuses : List ℕ → ℕ → Bool
refuses xs p = (p == null) || leb max_processes (length xs)

enqueue-head :
    (q : Mlfq) (p : ℕ)
    → ((enqueue q p).head ≡ q.head)
      × ((enqueue q p).size ≡ (if refuses (contents q) p then q.size else q.size + 1))
unfolding enqueue
enqueue-head q p = rw (length-contents q) (ground arith, ground arith)

enqueue-refuses :
    (q : Mlfq) (p : ℕ) → enqueue q p ≡ (if refuses (contents q) p then q else enqueue q p)
unfolding enqueue
enqueue-refuses q p =
    rw (length-contents q) (elim (Bool-cases ((p == null) || leb max_processes q.size)) [
      | inl e ↦ rw e refl
      | inr e ↦ rw e refl
    ])

-- A well-formed ring is well formed behind `mlfq_enqueue`, its `head` where it was and its `tail`
-- behind the last process. The process stands at the end of the queue, unless it is NULL or the
-- queue is full: then the ring is the same as before, and only then does its size stay.
pub enqueue-fifo_push :
    {q : Mlfq} (p : ℕ)
    → IsValid q
    → let r = enqueue q p in
      IsValid r
      × (contents r ≡ fifo_push (contents q) p)
      × (r.head ≡ q.head)
      × (r.tail ≡ (q.head + r.size) % max_processes)
      × (r.size ≡ (if refuses (contents q) p then q.size else q.size + 1))
      × (r ≡ (if refuses (contents q) p then q else r))
enqueue-fifo_push {q} p v = (
  enqueue-IsValid p v,
  contents-enqueue p v,
  (enqueue-head q p).0,
  (enqueue-IsValid p v).tail_at
      ∙ ap (λ h. (h + (enqueue q p).size) % max_processes) (enqueue-head q p).0,
  (enqueue-head q p).1,
  enqueue-refuses q p,
)

window_of_ne_zero :
    (buf : List ℕ) (h n : ℕ)
    → n ≢ 0
    → window buf h n ≡ get_or buf h null ∷ window buf ((h + 1) % max_processes) (n - 1)
window_of_ne_zero buf h zero p = absurd (p refl)
window_of_ne_zero buf h (suc n) p =
    ap (λ k. get_or buf h null ∷ window buf ((h + 1) % max_processes) k) (omega arith)

-- With room left, the process goes to the end.
pub enqueue_room :
    {q : Mlfq} (p : ℕ)
    → IsValid q
    → p ≢ null
    → q.size < max_processes
    → (contents (enqueue q p) ≡ contents q ++ p ∷ []) × ((enqueue q p).size ≡ q.size + 1)
unfolding fifo_push enqueue
enqueue_room {q} p v ne room = ground (arith, contents-enqueue p v, length-contents q)

-- From a queue that is not empty, the oldest process is taken.
pub dequeue_some :
    (q : Mlfq)
    → 0 < q.size
    → (contents q ≡ (dequeue q).0 ∷ contents (dequeue q).1) × ((dequeue q).1.size + 1 ≡ q.size)
unfolding fifo_pop dequeue
dequeue_some q h = ground (arith, window_of_ne_zero q.queue q.head q.size)
