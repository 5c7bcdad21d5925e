-- ===== src/RtQueue/Sorted.antt =====
-- The array against the list of what it holds: insertion behind the last process of the same or
-- a more urgent priority, removal at the front.
use riscv64_embedded_os.Prelude.{
  length-take_le, ℕ, zero, suc, ◌+◌, ◌≤◌, ◌<◌, ◌≡◌, refl, ◌≢◌, ap, ap₂, ◌∙◌, Bool, true, false,
  List, [], ◌∷◌, ◌++◌, arith, ◌==◌, leb, ◌||◌, if◌then◌else◌, length, get_or, set, take, length-set,
  get_or-set_self, get_or-set_ne, Bool-cases, count, inl, inr, sym,
}
use riscv64_embedded_os.Mlfq.{null, max_processes}
use riscv64_embedded_os.RtQueue.{RtQueue, insert_at, enqueue}

pub record IsValid (q : RtQueue) : Type 0 where
  pub array : length q.queue ≡ max_processes
  pub size_in : q.size ≤ max_processes

-- what the queue holds, next to run first
abbrev pub contents : RtQueue → List ℕ
contents q = take q.size q.queue

pub length-contents : {q : RtQueue} → IsValid q → length (contents q) ≡ q.size
length-contents {q} v = length-take_le q.size q.queue (omega arith)

take-suc :
    (n : ℕ) (xs : List ℕ) → n < length xs → take (suc n) xs ≡ take n xs ++ get_or xs n null ∷ []
take-suc n [] h = absurd (omega arith)
take-suc zero (x ∷ xs) h = refl
take-suc (suc n) (x ∷ xs) h = ap (◌∷◌ x) (take-suc n xs (omega arith))

take-set : (n i : ℕ) (xs : List ℕ) (v : ℕ) → n ≤ i → take n (set xs i v) ≡ take n xs
take-set n i [] v h = refl
take-set zero i (x ∷ xs) v h = refl
take-set (suc n) zero (x ∷ xs) v h = absurd (omega arith)
take-set (suc n) (suc i) (x ∷ xs) v h = ap (◌∷◌ x) (take-set n i xs v (omega arith))

module _ (priority : ℕ → ℕ) where
  -- does some process of the list run before, or in line with, `p`?
  abbrev pub any_le : ℕ → List ℕ → Bool
  any_le p [] = false
  any_le p (x ∷ xs) = leb (priority x) (priority p) || any_le p xs

  -- `p` goes behind the last process whose priority is at most its own
  unfoldable pub insert : ℕ → List ℕ → List ℕ
  insert p [] = p ∷ []
  insert p (x ∷ xs) = let rest = insert p xs in if any_le p (x ∷ xs) then x ∷ rest else p ∷ x ∷ xs

  -- priorities do not fall along the list
  abbrev pub IsSorted : List ℕ → Type 0
  IsSorted [] = Unit {0}
  IsSorted (x ∷ []) = Unit {0}
  IsSorted (x ∷ y ∷ xs) = (priority x ≤ priority y) × IsSorted (y ∷ xs)

  abbrev pub AllLe : ℕ → List ℕ → Type 0
  AllLe k [] = Unit {0}
  AllLe k (x ∷ xs) = (priority x ≤ k) × AllLe k xs

  abbrev pub AllGt : ℕ → List ℕ → Type 0
  AllGt k [] = Unit {0}
  AllGt k (x ∷ xs) = (k < priority x) × AllGt k xs

  unfoldable pub sorted_push : List ℕ → ℕ → List ℕ
  sorted_push xs p = if (p == null) || leb max_processes (length xs) then xs else insert p xs

  any_le-last :
      (p x : ℕ) (xs : List ℕ)
      → any_le p (xs ++ x ∷ []) ≡ (leb (priority x) (priority p) || any_le p xs)
  any_le-last p x [] = refl
  any_le-last p x (y ∷ xs) = ground (arith, any_le-last p x xs)

  insert-last_le :
      (p x : ℕ) (xs : List ℕ)
      → leb (priority x) (priority p) ≡ true
      → insert p (xs ++ x ∷ []) ≡ (xs ++ x ∷ []) ++ p ∷ []
  unfolding insert
  insert-last_le p x [] h = rw h
  insert-last_le p x (y ∷ xs) h = ground (arith, any_le-last p x xs, insert-last_le p x xs h)

  insert-last_gt :
      (p x : ℕ) (xs : List ℕ)
      → leb (priority x) (priority p) ≡ false
      → insert p (xs ++ x ∷ []) ≡ insert p xs ++ x ∷ []
  unfolding insert
  insert-last_gt p x [] h = rw h
  insert-last_gt p x (y ∷ xs) h = ground (arith, any_le-last p x xs, insert-last_gt p x xs h)

  pub length-insert_at :
      (i : ℕ) (queue : List ℕ) (p : ℕ) → length (insert_at priority i queue p) ≡ length queue
  unfolding insert_at
  length-insert_at zero queue p = length-set queue 0 p
  length-insert_at (suc i) queue p = ground (
    arith,
    length-set queue (suc i) p,
    length-set queue (suc i) (get_or queue i null),
    length-insert_at i (set queue (suc i) (get_or queue i null)) p,
  )

  -- The loop writes at most up to the index where it starts.
  insert_at_beyond :
      (i j : ℕ) (queue : List ℕ) (p : ℕ)
      → i < j
      → get_or (insert_at priority i queue p) j null ≡ get_or queue j null
  unfolding insert_at
  insert_at_beyond zero j queue p h = get_or-set_ne queue 0 j p null (omega arith)
  insert_at_beyond (suc i) j queue p h = ground (
    arith,
    get_or-set_ne queue (suc i) j p null,
    get_or-set_ne queue (suc i) j (get_or queue i null) null,
    insert_at_beyond i j (set queue (suc i) (get_or queue i null)) p,
  )

  -- the first entry, written
  take-one : (queue : List ℕ) (p : ℕ) → 0 < length queue → take 1 (set queue 0 p) ≡ p ∷ []
  take-one [] p h = absurd (omega arith)
  take-one (x ∷ xs) p h = refl

  -- The loop inserts into the entries in front of the index where it starts.
  insert_at-insert :
      (i : ℕ) (queue : List ℕ) (p : ℕ)
      → i < length queue
      → take (suc i) (insert_at priority i queue p) ≡ insert p (take i queue)
  unfolding insert_at
  insert_at-insert zero queue p h = unfold insert in take-one queue p h
  insert_at-insert (suc i) queue p h = elim (Bool-cases (leb (priority x) (priority p))) [
    | inl le ↦
        rw (le, insert_at)
          (take-suc (suc i) (set queue (suc i) p) (rw (length-set queue (suc i) p) h)
            ∙ ap₂ (λ (l : List ℕ) (v : ℕ). l ++ v ∷ [])
                (take-set (suc i) (suc i) queue p (omega arith))
                (get_or-set_self queue (suc i) p null h)
            ∙ rw (take-suc i queue (omega arith)) (sym (insert-last_le p x (take i queue) le)))
    | inr gt ↦
        rw (gt, insert_at)
          (take-suc (suc i) (insert_at priority i moved p)
              (rw (length-insert_at i moved p, length-set queue (suc i) x) h)
            ∙ ap₂ (λ (l : List ℕ) (v : ℕ). l ++ v ∷ [])
                (insert_at-insert i moved p (rw (length-set queue (suc i) x) (omega arith))
                  ∙ ap (insert p) (take-set i (suc i) queue x (omega arith)))
                (insert_at_beyond i (suc i) moved p (omega arith)
                  ∙ get_or-set_self queue (suc i) x null h)
            ∙ rw (take-suc i queue (omega arith)) (sym (insert-last_gt p x (take i queue) gt)))
  ]
    where
      x : ℕ
      x = get_or queue i null

      moved : List ℕ
      moved = set queue (suc i) x

  pub enqueue-IsValid : {q : RtQueue} (p : ℕ) → IsValid q → IsValid (enqueue priority q p)
  unfolding enqueue
  enqueue-IsValid {q} p v = ground (arith, length-insert_at q.size q.queue p)

  -- In a queue of the right length, `rt_enqueue` inserts the process behind the last one whose
  -- priority value is at most its own, unless it is NULL or the queue is full. The queue need
  -- not be sorted.
  pub enqueue-insert :
      {q : RtQueue} (p : ℕ)
      → IsValid q
      → contents (enqueue priority q p) ≡ sorted_push (contents q) p
  unfolding enqueue sorted_push
  enqueue-insert {q} p v = ground (arith, length-contents v, insert_at-insert q.size q.queue p)

  -- Insertion adds `p` once and loses nothing.
  pub count-insert : (a p : ℕ) (xs : List ℕ) → count a (insert p xs) ≡ count a (p ∷ xs)
  unfolding insert
  count-insert a p [] = refl
  count-insert a p (x ∷ xs) = ground (arith, count-insert a p xs)

  -- With room left, the process is inserted once and nothing is lost.
  pub enqueue_room :
      {q : RtQueue} (p a : ℕ)
      → IsValid q
      → p ≢ null
      → q.size < max_processes
      → (count a (contents (enqueue priority q p)) ≡ count a (p ∷ contents q))
        × ((enqueue priority q p).size ≡ q.size + 1)
  unfolding sorted_push enqueue
  enqueue_room {q} p a v ne room =
      ground (arith, enqueue-insert p v, length-contents v, count-insert a p (contents q))
