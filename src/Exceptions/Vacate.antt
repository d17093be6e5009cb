-- ===== src/Exceptions/Vacate.antt =====
-- `sysTerminate` on a process that may be blocked: it leaves the queue of its semaphore.
use pandos.Prelude.{
  ◌≡◌, refl, sym, ap, ◌∙◌, ◌≢◌, Bool, not, ◌&&◌, List, arith, ◌==◌, if◌then◌else◌, ◌∉◌, has, erase,
  Bool-cases, inl, inr, mem_of_mem-erase, apart_sym, length-erase-le, erase_not-mem, ==_iff,
}
use pandos.Prelude.Word.{add32, sub32}
use pandos.Types.{Ptr, null}
use pandos.Run.{ok, Returns-ok}
use pandos.Pcb.{Store, upd}
use pandos.Pcb.Access.{ne_test, ne_of_test, read-ok}
use pandos.Pcb.Pool.{FreeChain-frame}
use pandos.Asl.{Asl, max_int, out_blocked}
use pandos.Asl.Waiting.{Requeues-IsProcQ}
use pandos.Asl.Leave.{Leaves, out_blocked-Leaves}
use pandos.Kernel.{Kernel, Layout}
use pandos.Exceptions.{is_device_semaphore, leave_semaphore}
use pandos.Exceptions.Lists.{HasLists}

-- The process waits for a device, or for the semaphore `t`, which is none of a device; `key` is
-- `p_semAdd`.
module _ (l : Layout) (key : Ptr → Ptr) where
  abbrev pub is_soft_blocked : Ptr → Bool
  is_soft_blocked b = not (key b == null) && is_device_semaphore l (key b)

  abbrev pub is_blocked_on : (t : Ptr) → Ptr → Bool
  is_blocked_on t b = (key b == t) && not (t == null) && not (is_device_semaphore l t)

-- The process `p` is in no queue of a semaphore, the others wait as before, and the semaphore and the
-- count of the soft-blocked processes are adjusted.
pub record Vacated (l : Layout) (k : Kernel) (p : Ptr) (w : Ptr → List Ptr) (rs fs : List Ptr)
    (g : Kernel) : Type 0 where
  pub lists : HasLists g (λ s. erase p (w s)) rs fs
  pub sems :
      (t : Ptr)
      → g.sem t ≡ (if is_blocked_on l k.asl.pcbs.p_sem_add t p then add32 (k.sem t) 1 else k.sem t)
  pub soft : g.soft_block_count ≡ (
      if is_soft_blocked l k.asl.pcbs.p_sem_add p
      then sub32 k.soft_block_count 1
      else k.soft_block_count)
  pub rest :
      g.asl.pcbs ≡ record (k.asl.pcbs) { p_next = g.asl.pcbs.p_next; p_prev = g.asl.pcbs.p_prev }
  pub current : g.current_process ≡ k.current_process
  pub count : g.process_count ≡ k.process_count

module _ (l : Layout) (k : Kernel) (p : Ptr) (real : p ≢ null) {w : Ptr → List Ptr}
    {rs fs : List Ptr} (b : HasLists k w rs fs) (named : k.asl.pcbs.p_sem_add p ≢ max_int) where
  -- The state when the process has left the queue of its semaphore.
  abbrev vacated : Asl → Kernel
  vacated a = record k {
    asl = a;
    sem =
        if is_device_semaphore l (k.asl.pcbs.p_sem_add p)
        then k.sem
        else upd k.sem (k.asl.pcbs.p_sem_add p) (add32 (k.sem (k.asl.pcbs.p_sem_add p)) 1);
    soft_block_count =
        if is_device_semaphore l (k.asl.pcbs.p_sem_add p)
        then sub32 k.soft_block_count 1
        else k.soft_block_count;
  }

  not_blocked : k.asl.pcbs.p_sem_add p ≡ null → leave_semaphore l p k ≡ ok tt k
  unfolding leave_semaphore
  not_blocked e = rw (read-ok real, e)

  was_blocked :
      (out : Ptr) (a : Asl)
      → k.asl.pcbs.p_sem_add p ≢ null
      → out_blocked p k.asl ≡ ok out a
      → leave_semaphore l p k ≡ ok tt (vacated a)
  unfolding leave_semaphore
  was_blocked out a n e = elim (Bool-cases (is_device_semaphore l (k.asl.pcbs.p_sem_add p))) [
    | inl d ↦ rw (read-ok real, ne_test n, d, e)
    | inr d ↦ rw (read-ok real, ne_test n, d, e)
  ]

  -- A process that is not blocked is in no queue.
  absent : k.asl.pcbs.p_sem_add p ≡ null → (s : Ptr) → p ∉ w s
  absent e s = elim (Bool-cases (has p (w s))) [
    | inl i ↦ absurd (b.real s p i (sym (b.owner s p i) ∙ e))
    | inr o ↦ o
  ]

  not_blocked-Vacated : k.asl.pcbs.p_sem_add p ≡ null → Vacated l k p w rs fs k
  not_blocked-Vacated e = record {
    lists = record {
      ready = b.ready;
      short = b.short;
      waiters = record {
        active = b.waiters.active;
        free = b.waiters.free;
        asl = b.waiters.asl;
        waits = λ s n. rw (erase_not-mem p (w s) (absent e s)) (b.waiters.waits s n);
        unnamed = rw b.waiters.unnamed refl;
      };
      few = λ s. rw (erase_not-mem p (w s) (absent e s)) (b.few s);
      owner = λ s c i. b.owner s c (mem_of_mem-erase c p (w s) i);
      real = λ s c i. b.real s c (mem_of_mem-erase c p (w s) i);
      free = b.free;
      apart = b.apart;
      unready = λ s c i. b.unready s c (mem_of_mem-erase c p (w s) i);
      used = λ s c i. b.used s c (mem_of_mem-erase c p (w s) i);
    };
    sems = λ t. ground arith;
    soft = rw e;
    rest = refl;
    current = refl;
    count = refl;
  }

  was_blocked-Vacated :
      (a : Asl)
      → k.asl.pcbs.p_sem_add p ≢ null
      → Leaves k.asl w p a
      → Vacated l k p w rs fs (vacated a)
  unfolding upd
  was_blocked-Vacated a n v =
      let s = k.asl.pcbs.p_sem_add p in
      record {
        lists = record {
          ready = Requeues-IsProcQ v.frame (apart_sym (w s) rs (b.unready s)) b.ready;
          short = b.short;
          waiters = v.waiters;
          few = λ t. omega (arith, length-erase-le p (w t), b.few t);
          owner = λ t c i.
              ap (λ (h : Store). h.p_sem_add c) v.frame.rest
              ∙ b.owner t c (mem_of_mem-erase c p (w t) i);
          real = λ t c i. b.real t c (mem_of_mem-erase c p (w t) i);
          free = record {
            chain = rw (ap (λ (h : Store). h.free_h) v.frame.rest) (
                FreeChain-frame k.asl.pcbs.p_next a.pcbs.p_next k.asl.pcbs.free_h fs
                  (λ c i. v.frame.nexts c (apart_sym (w s) fs (b.used s) c i)) b.free.chain);
            distinct = b.free.distinct;
          };
          apart = b.apart;
          unready = λ t c i. b.unready t c (mem_of_mem-erase c p (w t) i);
          used = λ t c i. b.used t c (mem_of_mem-erase c p (w t) i);
        };
        sems = λ t. ground arith;
        soft = rw (ne_test n);
        rest = v.frame.rest;
        current = refl;
        count = refl;
      }

  pub leave_semaphore-Vacated :
      (g : Kernel) × (leave_semaphore l p k ≡ ok tt g) × Vacated l k p w rs fs g
  leave_semaphore-Vacated = elim (Bool-cases (k.asl.pcbs.p_sem_add p == null)) [
    | inl e ↦
        let z = (==_iff (k.asl.pcbs.p_sem_add p) null).0 e in
        (k, not_blocked z, not_blocked-Vacated z)
    | inr ne ↦
        let n = ne_of_test ne in
        let (out, a, e, v) = Returns-ok (
          out_blocked-Leaves k.asl w p b.waiters b.owner named real n
            (b.few (k.asl.pcbs.p_sem_add p))) in
        (vacated a, was_blocked out a n e, was_blocked-Vacated a n v)
  ]
