-- ===== src/Scheduler/Aging.antt =====
-- The boost at the end of `sched_tick`: what becomes of the processes at the lower levels.
use riscv64_embedded_os.Prelude.{
  ℕ, zero, suc, ◌+◌, ◌≤◌, ◌<◌, ◌≡◌, refl, ◌≢◌, List, [], ◌∷◌, ◌++◌, arith, count, length,
  length-append, lt→ltb, ◌∙◌, ap, sym,
}
use mathlib.Core.List.{append_assoc, append-nil}
use riscv64_embedded_os.Mlfq.{null, max_processes}
use riscv64_embedded_os.Mlfq.Ring
use riscv64_embedded_os.Process.{Policy}
use riscv64_embedded_os.Scheduler.{Sched, num_queue_levels}
use riscv64_embedded_os.Scheduler.Invariant.{at_level, occurs, queued, Inv}
use riscv64_embedded_os.Scheduler.Tick.{boost_one, boost_level, boost}
use riscv64_embedded_os.Scheduler.Promote.{keep, policies, Valid, Moved, boost_one-Moved}

-- `t` is `s` with the processes `xs` of a level moved to the end of level 0, where their policy is
-- normal; others of them are in no queue.
pub record Boosted (s : Sched) (level : ℕ) (xs : List ℕ) (t : Sched) : Type 0 where
  pub emptied : at_level t level ≡ []
  pub raised : at_level t 0 ≡ at_level s 0 ++ keep (policies s) xs
  pub elsewhere : (k : ℕ) → k ≢ 0 → k ≢ level → t.ready k ≡ s.ready k
  pub rt : t.rt ≡ s.rt
  pub same_policies : policies t ≡ policies s
  pub levels : (k : ℕ) → k < num_queue_levels → Ring.IsValid (t.ready k)
  pub no_more : (t.ready 0).size ≤ (s.ready 0).size + length xs

length-keep-le : (f : ℕ → Policy) (xs : List ℕ) → length (keep f xs) ≤ length xs
unfolding keep
length-keep-le f [] = omega arith
length-keep-le f (x ∷ xs) = ground (arith, length-keep-le f xs)

keep-cons : (f : ℕ → Policy) (x : ℕ) (xs : List ℕ) → keep f (x ∷ xs) ≡ keep f (x ∷ []) ++ keep f xs
unfolding keep
keep-cons f x xs = ground arith

Moved-grown :
    (s t : Sched) (level p : ℕ) (xs : List ℕ)
    → Moved s level p xs t
    → (t.ready 0).size ≤ (s.ready 0).size + 1
Moved-grown s t level p xs one = omega (
  arith,
  ap length one.1,
  length-append (at_level s 0) (keep (policies s) (p ∷ [])),
  length-keep-le (policies s) (p ∷ []),
  Ring.length-contents (t.ready 0),
  Ring.length-contents (s.ready 0),
)

Moved-Boosted :
    (s t u : Sched) (level p : ℕ) (xs : List ℕ)
    → Moved s level p xs t
    → Boosted t level xs u
    → Boosted s level (p ∷ xs) u
Moved-Boosted s t u level p xs one rest = record {
  emptied = rest.emptied;
  raised =
      rest.raised
      ∙ rw (one.1, one.4, keep-cons (policies s) p xs)
          (append_assoc (at_level s 0) (keep (policies s) (p ∷ [])) (keep (policies s) xs));
  elsewhere = λ k a b. rest.elsewhere k a b ∙ one.2 k a b;
  rt = rest.rt ∙ one.3;
  same_policies = rest.same_policies ∙ one.4;
  levels = rest.levels;
  no_more = omega (arith, rest.no_more, Moved-grown s t level p xs one);
}

boost_level-Boosted :
    (left level : ℕ) (s : Sched) (xs : List ℕ)
    → Valid s
    → level ≢ 0
    → level < num_queue_levels
    → at_level s level ≡ xs
    → length xs ≡ left
    → count null xs ≡ 0
    → (s.ready 0).size + left ≤ max_processes
    → Boosted s level xs (boost_level left level s)
unfolding boost_level
boost_level-Boosted zero level s [] valid pos h e len no_null room = record {
  emptied = e;
  raised = unfold keep in sym (append-nil (at_level s 0));
  elsewhere = λ k a b. refl;
  rt = refl;
  same_policies = refl;
  levels = valid;
  no_more = omega arith;
}
boost_level-Boosted zero level s (p ∷ xs) valid pos h e len no_null room = absurd (omega arith)
boost_level-Boosted (suc left) level s [] valid pos h e len no_null room = absurd (omega arith)
boost_level-Boosted (suc left) level s (p ∷ xs) valid pos h e len no_null room =
    let one =
      boost_one-Moved s level p xs valid pos h e (λ z. ground (arith, no_null)) (omega arith) in
    let size : 0 < (s.ready level).size =
      omega (arith, ap length e, Ring.length-contents (s.ready level)) in
    rw (lt→ltb 0 (s.ready level).size size) (
      Moved-Boosted s (boost_one level s) _ level p xs one (
        boost_level-Boosted left level (boost_one level s) xs one.5 pos h one.0 (omega arith)
          (omega arith) (omega (arith, Moved-grown s (boost_one level s) level p xs one))))

-- The boost that each hundredth tick makes, with well-formed queues that hold at most as many
-- processes as the table has: the lower levels are emptied; the processes of normal policy that
-- stood there follow those of level 0, those of level 1 first, in their order; a process of
-- another policy that stood there is in no level any more; the real-time queue stays as it is.
pub boost-raised :
    (s : Sched)
    → Inv s
    → queued s ≤ max_processes
    → let t = boost s in
      (at_level t 0
        ≡ ((at_level s 0 ++ keep (policies s) (at_level s 1)) ++ keep (policies s) (at_level s 2))
          ++ keep (policies s) (at_level s 3))
      × ((k : ℕ) → k ≢ 0 → k < num_queue_levels → at_level t k ≡ [])
      × (t.rt ≡ s.rt)
unfolding boost queued occurs
boost-raised s inv room = (raised, emptied, b3.rt ∙ b2.rt ∙ b1.rt)
  where
    s1 : Sched
    s1 = boost_level (s.ready 1).size 1 s

    s2 : Sched
    s2 = boost_level (s1.ready 2).size 2 s1

    b1 : Boosted s 1 (at_level s 1) s1
    b1 =
        boost_level-Boosted (s.ready 1).size 1 s (at_level s 1) inv.levels (omega arith)
          (omega arith) refl (Ring.length-contents (s.ready 1)) (omega (arith, inv.no_null))
          (omega arith)

    same2 : at_level s1 2 ≡ at_level s 2
    same2 = ap Ring.contents (b1.elsewhere 2 (omega arith) (omega arith))

    b2 : Boosted s1 2 (at_level s 2) s2
    b2 =
        boost_level-Boosted (s1.ready 2).size 2 s1 (at_level s 2) b1.levels (omega arith)
          (omega arith) same2 (ap length (sym same2) ∙ Ring.length-contents (s1.ready 2))
          (omega (arith, inv.no_null))
          (omega (
            arith,
            b1.no_more,
            ap length same2,
            Ring.length-contents (s1.ready 2),
            Ring.length-contents (s.ready 1),
            Ring.length-contents (s.ready 2),
          ))

    same3 : at_level s2 3 ≡ at_level s 3
    same3 =
        ap Ring.contents
          (b2.elsewhere 3 (omega arith) (omega arith) ∙ b1.elsewhere 3 (omega arith) (omega arith))

    b3 : Boosted s2 3 (at_level s 3) (boost s)
    b3 =
        boost_level-Boosted (s2.ready 3).size 3 s2 (at_level s 3) b2.levels (omega arith)
          (omega arith) same3 (ap length (sym same3) ∙ Ring.length-contents (s2.ready 3))
          (omega (arith, inv.no_null))
          (omega (
            arith,
            b1.no_more,
            b2.no_more,
            ap length same3,
            Ring.length-contents (s2.ready 3),
            Ring.length-contents (s.ready 1),
            Ring.length-contents (s.ready 2),
            Ring.length-contents (s.ready 3),
          ))

    raised :
        at_level (boost s) 0
        ≡ ((at_level s 0 ++ keep (policies s) (at_level s 1)) ++ keep (policies s) (at_level s 2))
          ++ keep (policies s) (at_level s 3)
    raised = b3.raised ∙ rw (b2.same_policies, b2.raised, b1.same_policies, b1.raised) refl

    emptied : (k : ℕ) → k ≢ 0 → k < num_queue_levels → at_level (boost s) k ≡ []
    emptied zero ne h = absurd (ne refl)
    emptied (suc zero) ne h =
        ap Ring.contents
          (b3.elsewhere 1 (omega arith) (omega arith) ∙ b2.elsewhere 1 (omega arith) (omega arith))
        ∙ b1.emptied
    emptied (suc (suc zero)) ne h =
        ap Ring.contents (b3.elsewhere 2 (omega arith) (omega arith)) ∙ b2.emptied
    emptied (suc (suc (suc zero))) ne h = b3.emptied
    emptied (suc (suc (suc (suc k)))) ne h = absurd (omega arith)
