-- ===== src/RtQueue/Order.antt =====
-- What insertion does to a sorted real-time queue, and removal at its front.
use riscv64_embedded_os.Prelude.{
  ℕ, zero, suc, ◌+◌, ◌-◌, ◌≤◌, ◌<◌, ◌≡◌, refl, ◌≢◌, ap, ap₂, ◌∙◌, true, false, List, [], ◌∷◌, ◌++◌,
  arith, ◌==◌, leb, ◌&&◌, if◌then◌else◌, length, get_or, set, take, length-set, get_or-set_self,
  get_or-set_ne, Bool-cases, inl, inr,
}
use riscv64_embedded_os.Mlfq.{null, max_processes}
use riscv64_embedded_os.Mlfq.Ring.{fifo_pop, fifo_pop_some}
use riscv64_embedded_os.RtQueue.{RtQueue, enqueue, shift, dequeue}
use riscv64_embedded_os.RtQueue.Sorted.{
  IsValid, contents, length-contents, any_le, insert, IsSorted, AllLe, AllGt, sorted_push,
  enqueue-insert,
}

module _ (priority : ℕ → ℕ) where
  sorted-AllGt :
      (k x : ℕ) (xs : List ℕ)
      → IsSorted priority (x ∷ xs)
      → k < priority x
      → AllGt priority k (x ∷ xs)
  sorted-AllGt k x [] s h = (h, tt)
  sorted-AllGt k x (y ∷ xs) s h = (h, sorted-AllGt k y xs s.1 (omega arith))

  AllGt-any_le :
      (p : ℕ) (xs : List ℕ) → AllGt priority (priority p) xs → any_le priority p xs ≡ false
  AllGt-any_le p [] h = refl
  AllGt-any_le p (x ∷ xs) h = ground (arith, AllGt-any_le p xs h.1)

  -- In a sorted list, a head that runs after `p` means that all do.
  insert-front :
      (p x : ℕ) (xs : List ℕ)
      → IsSorted priority (x ∷ xs)
      → leb (priority x) (priority p) ≡ false
      → insert priority p (x ∷ xs) ≡ p ∷ x ∷ xs
  unfolding insert
  insert-front p x xs s h =
      ground (arith, AllGt-any_le p (x ∷ xs) (sorted-AllGt (priority p) x xs s (ground arith)))

  insert-behind :
      (p x : ℕ) (xs : List ℕ)
      → leb (priority x) (priority p) ≡ true
      → insert priority p (x ∷ xs) ≡ x ∷ insert priority p xs
  unfolding insert
  insert-behind p x xs h = rw h

  pub insert-IsSorted :
      (p : ℕ) (xs : List ℕ) → IsSorted priority xs → IsSorted priority (insert priority p xs)
  insert-IsSorted p [] s = unfold insert in tt
  insert-IsSorted p (x ∷ []) s = elim (Bool-cases (leb (priority x) (priority p))) [
    | inl e ↦ rw (insert-behind p x [] e) (unfold insert in (ground arith, tt))
    | inr e ↦ rw (insert-front p x [] s e) (ground arith, tt)
  ]
  insert-IsSorted p (x ∷ y ∷ xs) s = elim (Bool-cases (leb (priority x) (priority p))) [
    | inl e ↦ rw (insert-behind p x (y ∷ xs) e) (below (insert-IsSorted p (y ∷ xs) s.1) e)
    | inr e ↦ rw (insert-front p x (y ∷ xs) s e) (ground arith, s)
  ]
    where
      below :
          IsSorted priority (insert priority p (y ∷ xs))
          → leb (priority x) (priority p) ≡ true
          → IsSorted priority (x ∷ insert priority p (y ∷ xs))
      below t e = elim (Bool-cases (leb (priority y) (priority p))) [
        | inl f ↦ rw (insert-behind p y xs f) (s.0, rw (insert-behind p y xs f) at t)
        | inr f ↦ rw (insert-front p y xs s.1 f) (ground arith, rw (insert-front p y xs s.1 f) at t)
      ]

  -- where `p` lands in a sorted list
  abbrev pub Splits : ℕ → List ℕ → List ℕ → Type 0
  Splits p xs out =
      (l : List ℕ) × (r : List ℕ) × (xs ≡ l ++ r)
      × (out ≡ l ++ p ∷ r)
      × AllLe priority (priority p) l
      × AllGt priority (priority p) r

  insert-Splits : (p : ℕ) (xs : List ℕ) → IsSorted priority xs → Splits p xs (insert priority p xs)
  insert-Splits p [] s = ([], [], refl, unfold insert in refl, tt, tt)
  insert-Splits p (x ∷ xs) s = elim (Bool-cases (leb (priority x) (priority p))) [
    | inl e ↦ rw (insert-behind p x xs e) (extend e (insert-Splits p xs (sorted-tail xs s)))
    | inr e ↦ (
      [],
      x ∷ xs,
      refl,
      insert-front p x xs s e,
      tt,
      sorted-AllGt (priority p) x xs s (ground arith),
    )
  ]
    where
      sorted-tail : (ys : List ℕ) → IsSorted priority (x ∷ ys) → IsSorted priority ys
      sorted-tail [] t = tt
      sorted-tail (y ∷ ys) t = t.1

      extend :
          leb (priority x) (priority p) ≡ true
          → Splits p xs (insert priority p xs)
          → Splits p (x ∷ xs) (x ∷ insert priority p xs)
      extend e (l, r, a, b, le, gt) = (x ∷ l, r, ap (◌∷◌ x) a, ap (◌∷◌ x) b, (ground arith, le), gt)

  -- For a process that is not NULL and a well-formed, sorted queue with room left, `rt_enqueue`
  -- keeps the queue sorted and puts the process behind all that are as urgent or more, in front
  -- of all that are less: first come, first served at one priority.
  pub enqueue-IsSorted :
      {q : RtQueue} (p : ℕ)
      → IsValid q
      → p ≢ null
      → q.size < max_processes
      → IsSorted priority (contents q)
      → IsSorted priority (contents (enqueue priority q p))
        × Splits p (contents q) (contents (enqueue priority q p))
  enqueue-IsSorted {q} p v ne room s =
      rw (enqueue-insert priority p v, pushed)
        (insert-IsSorted p (contents q) s, insert-Splits p (contents q) s)
    where
      pushed : sorted_push priority (contents q) p ≡ insert priority p (contents q)
      pushed = unfold sorted_push in ground (arith, length-contents v)

length-shift : (left i : ℕ) (queue : List ℕ) → length (shift left i queue) ≡ length queue
unfolding shift
length-shift zero i queue = refl
length-shift (suc left) i queue =
    length-shift left (i + 1) (set queue i (get_or queue (i + 1) null))
    ∙ length-set queue i (get_or queue (i + 1) null)

-- The loop reads each entry before it is Overwritten.
get_or-shift :
    (left i j : ℕ) (queue : List ℕ)
    → i + left < length queue
    → get_or (shift left i queue) j null ≡ (
        if leb i j && leb (j + 1) (i + left)
        then get_or queue (j + 1) null
        else get_or queue j null)
unfolding shift
get_or-shift zero i j queue h = ground arith
get_or-shift (suc left) i j queue h = ground (
  arith,
  length-set queue i (get_or queue (i + 1) null),
  get_or-shift left (i + 1) j (set queue i (get_or queue (i + 1) null)),
  get_or-set_ne queue i j (get_or queue (i + 1) null) null,
  get_or-set_ne queue i (j + 1) (get_or queue (i + 1) null) null,
  get_or-set_self queue i (get_or queue (i + 1) null) null,
)

take_ext :
    (n : ℕ) (xs ys : List ℕ)
    → n ≤ length xs
    → n ≤ length ys
    → ((j : ℕ) → j < n → get_or xs j null ≡ get_or ys j null)
    → take n xs ≡ take n ys
take_ext zero xs ys p q h = refl
take_ext (suc n) [] ys p q h = absurd (omega arith)
take_ext (suc n) (x ∷ xs) [] p q h = absurd (omega arith)
take_ext (suc n) (x ∷ xs) (y ∷ ys) p q h =
    ap₂ ◌∷◌ (h 0 (omega arith))
      (take_ext n xs ys (omega arith) (omega arith) (λ j b. h (suc j) (omega arith)))

pub dequeue-IsValid : {q : RtQueue} → IsValid q → IsValid (dequeue q).1
unfolding dequeue
dequeue-IsValid {q} v = ground (arith, length-shift (q.size - 1) 0 q.queue)

shift-front :
    (n : ℕ) (queue : List ℕ)
    → n ≤ length queue
    → n ≢ 0
    → (get_or queue 0 null, take (n - 1) (shift (n - 1) 0 queue)) ≡ fifo_pop (take n queue)
shift-front zero queue h ne = absurd (ne refl)
shift-front (suc n) [] h ne = absurd (omega arith)
shift-front (suc n) (x ∷ xs) h ne =
    unfold fifo_pop in
    ap₂ (λ (p : ℕ) (l : List ℕ). (p, l)) refl
      (rw one (
        take_ext n (shift n 0 (x ∷ xs)) xs (rw length-shift (omega arith)) (omega arith)
          λ j b. ground (arith, get_or-shift n 0 j (x ∷ xs), shifted j)))
  where
    one : suc n - 1 ≡ n
    one = omega arith

    shifted : (j : ℕ) → get_or (x ∷ xs) (j + 1) null ≡ get_or xs j null
    shifted j = let e : j + 1 ≡ suc j = omega arith in rw e

-- In a well-formed queue, `rt_dequeue` takes the first process and keeps the order of the
-- others, or returns NULL and changes nothing.
pub rt_dequeue-fifo_pop :
    {q : RtQueue} → IsValid q → let (p, q') = dequeue q in (p, contents q') ≡ fifo_pop (contents q)
unfolding dequeue
rt_dequeue-fifo_pop {q} v = elim (Bool-cases (q.size == 0)) [
  | inl e ↦ let z : q.size ≡ 0 = ground arith in rw (e, z) (unfold fifo_pop in refl)
  | inr e ↦ rw e (shift-front q.size q.queue (omega arith) (ground arith))
]

-- From a queue that is not empty, the first process is taken.
pub dequeue_some :
    {q : RtQueue}
    → IsValid q
    → 0 < q.size
    → (contents q ≡ (dequeue q).0 ∷ contents (dequeue q).1) × ((dequeue q).1.size + 1 ≡ q.size)
unfolding dequeue
dequeue_some {q} v h = ground (
  arith,
  fifo_pop_some (contents q) (omega (arith, length-contents v)),
  ap (λ (r : ℕ × List ℕ). r.0 ∷ r.1) (rt_dequeue-fifo_pop v),
)
