-- ===== src/Exceptions/Depart.antt =====
-- What `sysTerminate` does to a process whose children are gone.
use pandos.Prelude.{
  ◌-◌, ◌<◌, ◌^◌, ◌≡◌, refl, sym, ap, ◌∙◌, ◌≢◌, List, ◌∷◌, arith, ◌==◌, if◌then◌else◌, ◌∉◌, erase,
  not-mem-erase_self, not-mem-erase, length-erase-le,
}
use pandos.Prelude.Word.{add32, sub32}
use pandos.Types.{Ptr, null}
use pandos.Run.{ok, Returns-ok}
use pandos.Pcb.{Store, out_proc_q, out_child}
use pandos.Pcb.Access.{ne_test, read-ok}
use pandos.Pcb.Family.{detached, detach-ok}
use pandos.Pcb.Pool.{FreeChain-frame}
use pandos.Pcb.Ring.{IsProcQ, IsProcQ-Distinct}
use pandos.Pcb.Queue.{Requeues}
use pandos.Pcb.Dequeue.{out_proc_q-erase}
use pandos.Asl.{max_int}
use pandos.Kernel.{Kernel, Layout}
use pandos.Exceptions.{leave_semaphore, free_one, terminate_one}
use pandos.Exceptions.Lists.{HasLists, HasWaiters-Requeues, HasLists-links, waits-Distinct}
use pandos.Exceptions.Vacate.{Vacated, is_soft_blocked, is_blocked_on, leave_semaphore-Vacated}
use pandos.Exceptions.Free.{freed, ending, free_one-freed, freed-HasLists}

-- The pcb `p` is free and in no other list, and its tree links are those of the store `h`.
pub record Departed (l : Layout) (k : Kernel) (p : Ptr) (w : Ptr → List Ptr) (rs fs : List Ptr)
    (h : Store) (g : Kernel) : Type 0 where
  pub lists : HasLists g (λ s. erase p (w s)) (erase p rs) (p ∷ fs)
  pub current : g.current_process ≡ (if p == k.current_process then null else k.current_process)
  pub count : g.process_count ≡ k.process_count - 1
  pub sems :
      (t : Ptr)
      → g.sem t ≡ (if is_blocked_on l k.asl.pcbs.p_sem_add t p then add32 (k.sem t) 1 else k.sem t)
  pub soft : g.soft_block_count ≡ (
      if is_soft_blocked l k.asl.pcbs.p_sem_add p
      then sub32 k.soft_block_count 1
      else k.soft_block_count)
  pub sem_add : g.asl.pcbs.p_sem_add ≡ k.asl.pcbs.p_sem_add
  pub prnt : g.asl.pcbs.p_prnt ≡ h.p_prnt
  pub left : g.asl.pcbs.p_sib_left ≡ h.p_sib_left
  pub right : g.asl.pcbs.p_sib_right ≡ h.p_sib_right
  pub child : g.asl.pcbs.p_child ≡ h.p_child

-- Two changes of the queue links alone.
links_after :
    (h i g : Store)
    → i ≡ record h { p_next = i.p_next; p_prev = i.p_prev }
    → g ≡ record i { p_next = g.p_next; p_prev = g.p_prev }
    → g ≡ record h { p_next = g.p_next; p_prev = g.p_prev }
links_after h i g e f = f ∙ ap (λ (s : Store). record s { p_next = g.p_next; p_prev = g.p_prev }) e

-- The state when `outProcQ` has been at the ready queue.
abbrev requeued : Kernel → Ptr → Store → Kernel
requeued k tail g = record k { asl = record (k.asl) { pcbs = g }; ready_queue = tail }

module _ (l : Layout) (p : Ptr) (k : Kernel) (real : p ≢ null) (some : 0 < k.process_count)
    (small : k.process_count < 2 ^ 31) {w : Ptr → List Ptr} {rs fs : List Ptr}
    (b : HasLists k w rs fs) (fresh : p ∉ fs) (named : k.asl.pcbs.p_sem_add p ≢ max_int) where
  -- After the queue of the semaphore: the ready queue, of which `outProcQ` makes `g`.
  module _ (k1 : Kernel) (v : Vacated l k p w rs fs k1) (out : Ptr × Ptr) (g : Store)
      (removed : out_proc_q k1.ready_queue p k1.asl.pcbs ≡ ok out g)
      (q : IsProcQ g out.1 (erase p rs)) (m : Requeues rs k1.asl.pcbs g) where
    requeued-HasLists : HasLists (requeued k1 out.1 g) (λ s. erase p (w s)) (erase p rs) fs
    requeued-HasLists = record {
      ready = q;
      short = omega (arith, b.short, length-erase-le p rs);
      waiters = HasWaiters-Requeues m v.lists.unready v.lists.waiters;
      few = v.lists.few;
      owner = λ s c i. ap (λ (h : Store). h.p_sem_add c) m.rest ∙ v.lists.owner s c i;
      real = v.lists.real;
      free = record {
        chain = rw (ap (λ (s : Store). s.free_h) m.rest) (
            FreeChain-frame k1.asl.pcbs.p_next g.p_next k1.asl.pcbs.free_h fs
              (λ c i. m.nexts c (v.lists.apart c i)) v.lists.free.chain);
        distinct = v.lists.free.distinct;
      };
      apart = λ c i. not-mem-erase c p rs (v.lists.apart c i);
      unready = λ s c i. not-mem-erase c p rs (v.lists.unready s c i);
      used = v.lists.used;
    }

    -- The tree links do not matter to the lists.
    parted-Departed :
        (g' h : Store)
        → (g'.p_next ≡ g.p_next)
          × (g'.p_prev ≡ g.p_prev)
          × (g'.free_h ≡ g.free_h)
          × (g'.p_sem_add ≡ g.p_sem_add)
        → (g'.p_prnt ≡ h.p_prnt)
          × (g'.p_sib_left ≡ h.p_sib_left)
          × (g'.p_sib_right ≡ h.p_sib_right)
          × (g'.p_child ≡ h.p_child)
        → Departed l k p w rs fs h (freed p (requeued k1 out.1 g'))
    parted-Departed g' h (en, ep, ef, es) (u, sl, sr, ch) = record {
      lists =
          freed-HasLists p (requeued k1 out.1 g') real
            (HasLists-links g' en ep ef es requeued-HasLists) fresh
            (not-mem-erase_self p rs (IsProcQ-Distinct b.ready))
            (λ s. waits-Distinct p s b.waiters);
      current = rw v.current refl;
      count = rw v.count refl;
      sems = v.sems;
      soft = v.soft;
      sem_add =
          es ∙ ap (λ (s : Store). s.p_sem_add) m.rest ∙ ap (λ (s : Store). s.p_sem_add) v.rest;
      prnt = u;
      left = sl;
      right = sr;
      child = ch;
    }

  module _ (k1 : Kernel) (v : Vacated l k p w rs fs k1) (left : leave_semaphore l p k ≡ ok tt k1)
      (out : Ptr × Ptr) (g : Store)
      (removed : out_proc_q k1.ready_queue p k1.asl.pcbs ≡ ok out g) where
    -- The end of `sysTerminate` after the two queues.
    final :
        (g' : Store) → free_one p (requeued k1 out.1 g') ≡ ending (freed p (requeued k1 out.1 g'))
    final g' = free_one-freed p (requeued k1 out.1 g') real (rw v.count some) (rw v.count small)

    orphan-ending : g.p_prnt p ≡ null → terminate_one l p k ≡ ending (freed p (requeued k1 out.1 g))
    unfolding terminate_one
    orphan-ending up = rw (left, removed, read-ok real, up) (final g)

    child-ending :
        (prnt : Ptr)
        → g.p_prnt p ≡ prnt
        → prnt ≢ null
        → g.p_sib_left p ≢ p
        → terminate_one l p k ≡ ending (freed p (requeued k1 out.1 (detached g prnt p)))
    unfolding terminate_one out_child
    child-ending prnt up nr unlike =
        rw
          (
            left,
            removed,
            read-ok real,
            up,
            ne_test nr,
            ne_test real,
            read-ok real,
            up,
            ne_test nr,
            detach-ok g prnt p nr real unlike,
          )
          (final (detached g prnt p))

  -- For a pcb that has no parent.
  pub terminate_one_orphan :
      k.asl.pcbs.p_prnt p ≡ null
      → (g : Kernel) × (terminate_one l p k ≡ ending g) × Departed l k p w rs fs k.asl.pcbs g
  terminate_one_orphan orphan =
      let (k1, left, v) = leave_semaphore-Vacated l k p real b named in
      let (out, g, removed, (f, q, m)) = Returns-ok (out_proc_q-erase p v.lists.ready b.short) in
      let same : g ≡ record (k.asl.pcbs) { p_next = g.p_next; p_prev = g.p_prev } =
        links_after k.asl.pcbs k1.asl.pcbs g v.rest m.rest in
      (
        freed p (requeued k1 out.1 g),
        orphan-ending k1 v left out g removed (ap (λ (s : Store). s.p_prnt p) same ∙ orphan),
        parted-Departed k1 v out g removed q m g k.asl.pcbs (refl, refl, refl, refl)
            (
              ap (λ (s : Store). s.p_prnt) same,
              ap (λ (s : Store). s.p_sib_left) same,
              ap (λ (s : Store). s.p_sib_right) same,
              ap (λ (s : Store). s.p_child) same,
            ),
      )

  -- For a child of `prnt`, which leaves its siblings.
  pub terminate_one_child :
      (prnt : Ptr)
      → k.asl.pcbs.p_prnt p ≡ prnt
      → prnt ≢ null
      → k.asl.pcbs.p_sib_left p ≢ p
      → (g : Kernel) × (terminate_one l p k ≡ ending g)
        × Departed l k p w rs fs (detached k.asl.pcbs prnt p) g
  terminate_one_child prnt up nr unlike =
      let (k1, left, v) = leave_semaphore-Vacated l k p real b named in
      let (out, g, removed, (f, q, m)) = Returns-ok (out_proc_q-erase p v.lists.ready b.short) in
      let same : g ≡ record (k.asl.pcbs) { p_next = g.p_next; p_prev = g.p_prev } =
        links_after k.asl.pcbs k1.asl.pcbs g v.rest m.rest in
      let before : g.p_sib_left p ≡ k.asl.pcbs.p_sib_left p =
        ap (λ (s : Store). s.p_sib_left p) same in
      (
        freed p (requeued k1 out.1 (detached g prnt p)),
        child-ending k1 v left out g removed prnt (ap (λ (s : Store). s.p_prnt p) same ∙ up) nr
            (λ e. unlike (sym before ∙ e)),
        parted-Departed k1 v out g removed q m (detached g prnt p) (detached k.asl.pcbs prnt p)
            (refl, refl, refl, refl)
            (
              ap (λ (s : Store). (detached s prnt p).p_prnt) same,
              ap (λ (s : Store). (detached s prnt p).p_sib_left) same,
              ap (λ (s : Store). (detached s prnt p).p_sib_right) same,
              ap (λ (s : Store). (detached s prnt p).p_child) same,
            ),
      )
