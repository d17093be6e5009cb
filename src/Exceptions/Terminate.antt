-- ===== src/Exceptions/Terminate.antt =====
-- `sysTerminate` on a process with all its progeny.
use pandos.Prelude.{
  ℕ, suc, ◌+◌, ◌≤◌, ◌<◌, ◌^◌, ◌≡◌, refl, sym, ◌∙◌, ◌≢◌, false, List, [], ◌∷◌, ◌++◌, arith, ◌==◌,
  if◌then◌else◌, ◌∈◌, ◌∉◌, has, has-append, erase, length, length-append, Bool-cases, inl, inr,
  ==_iff, without, push, without-append, push-append, not-mem-push, ap,
}
use pandos.Types.{Ptr, null, max_proc}
use pandos.Run.{halt, Stops, stops, ok, Returns, returns, Returns-ok}
use pandos.Pcb.{Store}
use pandos.Pcb.Access.{ne_test, ne_of_test}
use pandos.Pcb.Forest.{Forest, nodes, Spares}
use pandos.Pcb.Tree.{HasChildren, Siblings-frame}
use pandos.Pcb.Family
use pandos.Pcb.Family.{detached}
use pandos.Asl.{max_int}
use pandos.Kernel.{Kernel, Layout}
use pandos.Exceptions.{terminate_fuel, sys_terminate, terminate_children, terminate_one}
use pandos.Prelude.{◌%◌, tally, tally-append}
use pandos.Prelude.Word.{word_mod}
use mathlib.Core.Path.{subst, fun_ext}
use pandos.Exceptions.Lists.{HasLists}
use pandos.Exceptions.Vacate.{is_blocked_on, is_soft_blocked}
use pandos.Exceptions.Free.{ending}
use pandos.Exceptions.Depart.{terminate_one_orphan, terminate_one_child, Departed}
use pandos.Exceptions.Standing.{
  Standing, Cleared, current_after, sem_sum, soft_sum, word_after, soft_after,
}
use pandos.Exceptions.Children.{terminate_children-Cleared}

sys_terminate-split :
    (l : Layout) (n : ℕ) (k k2 : Kernel) (p : Ptr)
    → p ≢ null
    → terminate_children l n p k ≡ ok tt k2
    → sys_terminate l (suc n) p k ≡ terminate_one l p k2
unfolding sys_terminate
sys_terminate-split l n k k2 p real e = rw (ne_test real, e)

-- A process with its progeny, `family`, is gone: out of the ready queue and the queues of the
-- semaphores `w`, on the free list, and not the current process.
pub record Terminated (l : Layout) (k : Kernel) (family : List Ptr) (w : Ptr → List Ptr)
    (rs fs : List Ptr) (g : Kernel) : Type 0 where
  pub lists : HasLists g (λ s. without family (w s)) (without family rs) (push family fs)
  pub current :
      g.current_process ≡ (if has k.current_process family then null else k.current_process)
  pub count : g.process_count + length family ≡ k.process_count
  pub sems :
      (t : Ptr)
      → g.sem t ≡ (k.sem t + tally (is_blocked_on l k.asl.pcbs.p_sem_add t) family) % word_mod
  pub soft :
      (g.soft_block_count + tally (is_soft_blocked l k.asl.pcbs.p_sem_add) family) % word_mod
      ≡ k.soft_block_count

-- The root of a tree of processes. It does not name MAXINT as its semaphore either.
pub record IsRoot (k : Kernel) (p : Ptr) (below : Forest) (w : Ptr → List Ptr) (rs fs : List Ptr)
    : Type 0 where
  pub standing : Standing k p below w rs fs
  pub fresh : p ∉ fs
  pub named : k.asl.pcbs.p_sem_add p ≢ max_int

abbrev pub family : Ptr → Forest → List Ptr
family p below = nodes below ++ (p ∷ [])

module _ (l : Layout) (k : Kernel) (p : Ptr) (below : Forest) (w : Ptr → List Ptr)
    (rs fs : List Ptr) (r : IsRoot k p below w rs fs) (k2 : Kernel)
    (c : Cleared l k p below w rs fs k2) where
  abbrev w2 : Ptr → List Ptr
  w2 s = without (nodes below) (w s)

  abbrev rs2 : List Ptr
  rs2 = without (nodes below) rs

  abbrev fs2 : List Ptr
  fs2 = push (nodes below) fs

  root_free : p ∉ push (nodes below) fs
  root_free = not-mem-push p (nodes below) fs r.standing.outside r.fresh

  root-Terminated :
      (h : Store) (g : Kernel)
      → Departed l k2 p w2 rs2 fs2 h g
      → Terminated l k (family p below) w rs fs g
  root-Terminated h g d = record {
    lists =
        rw (without-append (nodes below) (p ∷ []) rs, push-append (nodes below) (p ∷ []) fs)
          (subst (λ q. HasLists g q (erase p rs2) (p ∷ fs2))
            (fun_ext λ s. sym (without-append (nodes below) (p ∷ []) (w s))) d.lists);
    current =
        d.current
        ∙ current_after (nodes below) [] p k.current_process k2.current_process _ r.standing.real
            refl c.current refl;
    count = omega (arith, r.standing.many, c.count, d.count, length-append (nodes below) (p ∷ []));
    sems = λ t.
        let test = is_blocked_on l k.asl.pcbs.p_sem_add t in
        rw (tally-append test (nodes below) (p ∷ [])) (
          sem_sum (test p) (k.sem t) (k2.sem t) (g.sem t) (g.sem t) (tally test (nodes below)) 0
            (c.sems t) (rw c.sem_add at (d.sems t))
            (omega (arith, word_after _ _ _ _ _ (c.sems t) (d.sems t))));
    soft =
        let test = is_soft_blocked l k.asl.pcbs.p_sem_add in
        rw (tally-append test (nodes below) (p ∷ [])) (
          soft_sum (test p) k.soft_block_count k2.soft_block_count g.soft_block_count
            g.soft_block_count (tally test (nodes below)) 0 c.soft_word c.soft
            (rw c.sem_add at d.soft) (omega (arith, soft_after _ _ _ c.soft_word d.soft)));
  }

  count_after :
      (h : Store) (g : Kernel)
      → Departed l k2 p w2 rs2 fs2 h g
      → g.process_count + length (nodes below) + 1 ≡ k.process_count
  count_after h g d = omega (arith, r.standing.many, c.count, d.count)

  root_some : 0 < k2.process_count
  root_some = omega (arith, r.standing.many, c.count)

  root_small : k2.process_count < 2 ^ 31
  root_small = omega (arith, r.standing.small, c.count)

  module _ {prnt : Ptr} {xs : List Ptr} (ch : HasChildren k.asl.pcbs prnt xs) (i : p ∈ xs)
      (real : prnt ≢ null) (above : prnt ∉ family p below)
      (beside : (b : Ptr) → b ∈ xs → b ∉ nodes below) where
    prnt_spared : Spares k.asl.pcbs k2.asl.pcbs prnt
    prnt_spared =
        c.spared prnt (ground (arith, has-append prnt (nodes below) (p ∷ [])))
          (ground (arith, has-append prnt (nodes below) (p ∷ [])))

    sibling_kept :
        (b : Ptr)
        → b ∈ xs
        → (k2.asl.pcbs.p_prnt b ≡ k.asl.pcbs.p_prnt b)
          × (k2.asl.pcbs.p_sib_left b ≡ k.asl.pcbs.p_sib_left b)
          × (k2.asl.pcbs.p_sib_right b ≡ k.asl.pcbs.p_sib_right b)
    sibling_kept b j = elim (Bool-cases (b == p)) [
      | inl e ↦ rw ((==_iff b p).0 e) (c.own_prnt, c.own_left, c.own_right)
      | inr n ↦ let s = c.spared b (beside b j) (ne_of_test n) in (s.prnt, s.left, s.right)
    ]

    kept-HasChildren : HasChildren k2.asl.pcbs prnt xs
    kept-HasChildren = record {
      chain =
          Siblings-frame _ _ _ k2.asl.pcbs.p_prnt k2.asl.pcbs.p_sib_left k2.asl.pcbs.p_sib_right
            prnt null (k.asl.pcbs.p_child prnt) (k2.asl.pcbs.p_child prnt) xs prnt_spared.child
            sibling_kept ch.chain;
      distinct = ch.distinct;
    }

    child-ends :
        (g : Kernel) × (terminate_one l p k2 ≡ ending g)
        × Terminated l k (family p below) w rs fs g
        × HasChildren g.asl.pcbs prnt (erase p xs)
        × (g.process_count + length (nodes below) + 1 ≡ k.process_count)
    child-ends =
        let q = kept-HasChildren in
        let (g, e, d) =
          terminate_one_child l p k2 r.standing.real root_some root_small c.lists root_free
            (λ z. r.named (ap (λ f. f p) (sym c.sem_add) ∙ z)) prnt (Family.parent p q i) real
            (Family.left_ne p q i) in
        let left = Family.left_children p q i in
        (
          g,
          e,
          root-Terminated (detached k2.asl.pcbs prnt p) g d,
          record {
            chain = rw (d.prnt, d.left, d.right, d.child) left.chain;
            distinct = left.distinct;
          },
          count_after (detached k2.asl.pcbs prnt p) g d,
        )

-- `sysTerminate` on a process with a parent, ready, running or blocked like each one below it. At most
-- 20 are below it, there are more processes than these with itself, and the parent and the siblings
-- are not below it. The fuel is enough, and it returns. The process and its progeny have left the ready
-- queue and the queues of the semaphores, in which the others keep their order, are on the free list
-- in the order of the walk, and are not the current process. The count of the processes is less by
-- their number; each semaphore that is not in the range of the devices is raised by the number of them
-- that waited on it, modulo 2 ^ 32, and the count of the soft-blocked is less by the number of those
-- that waited on one in that range. The parent has its other children in order.
pub sys_terminate-Terminated :
    (l : Layout) (k : Kernel) {p prnt : Ptr} {below : Forest} {w : Ptr → List Ptr}
    {rs fs xs : List Ptr}
    → IsRoot k p below w rs fs
    → length (nodes below) ≤ max_proc
    → length (nodes below) + 1 < k.process_count
    → HasChildren k.asl.pcbs prnt xs
    → p ∈ xs
    → prnt ≢ null
    → prnt ∉ family p below
    → ((b : Ptr) → b ∈ xs → b ∉ nodes below)
    → Returns
        (λ _ g.
          Terminated l k (family p below) w rs fs g × HasChildren g.asl.pcbs prnt (erase p xs))
        (sys_terminate l terminate_fuel p k)
sys_terminate-Terminated l k {p} {prnt} {below} {w} {rs} {fs} r few more ch i real above beside =
    let (done, k2, e, c) =
      Returns-ok
        (terminate_children-Cleared l below 63 k p w rs fs (omega (arith, few)) r.standing) in
    let (g, f, t, q, n) = child-ends l k p below w rs fs r k2 c ch i real above beside in
    let on : (g.process_count == 0) ≡ false = ne_test (omega (arith, n, more)) in
    rw (sys_terminate-split l 63 k k2 p r.standing.real e, f, on) (returns (t, q))

-- `sysTerminate` on a process without a parent, ready, running or blocked like each one below it, when
-- these, with at most 20 below it, are all the processes there are: it halts the machine. All of them
-- have left the ready queue and the queues of the semaphores, are on the free list, and none is
-- current; the semaphores and the count of the soft-blocked are as for a process with a parent; no
-- process is counted any more.
pub sys_terminate-halts :
    (l : Layout) (k : Kernel) {p : Ptr} {below : Forest} {w : Ptr → List Ptr} {rs fs : List Ptr}
    → IsRoot k p below w rs fs
    → length (nodes below) ≤ max_proc
    → k.process_count ≡ length (nodes below) + 1
    → k.asl.pcbs.p_prnt p ≡ null
    → Stops
        (λ x g. (x ≡ halt) × Terminated l k (family p below) w rs fs g × (g.process_count ≡ 0))
        (sys_terminate l terminate_fuel p k)
sys_terminate-halts l k {p} {below} {w} {rs} {fs} r few all orphan =
    let (done, k2, e, c) =
      Returns-ok
        (terminate_children-Cleared l below 63 k p w rs fs (omega (arith, few)) r.standing) in
    let (g, f, d) =
      terminate_one_orphan l p k2 r.standing.real (root_some l k p below w rs fs r k2 c)
        (root_small l k p below w rs fs r k2 c) c.lists (root_free l k p below w rs fs r k2 c)
        (λ z. r.named (ap (λ f. f p) (sym c.sem_add) ∙ z)) (c.own_prnt ∙ orphan) in
    let none : g.process_count ≡ 0 =
      omega (arith, count_after l k p below w rs fs r k2 c _ g d, all) in
    rw (sys_terminate-split l 63 k k2 p r.standing.real e, f, none)
      (stops (refl, root-Terminated l k p below w rs fs r k2 c _ g d, none))
