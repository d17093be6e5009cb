-- ===== src/Asl/Head.antt =====
-- `headBlocked`, and `insertBlocked` without a free descriptor.
use pandos.Prelude.{
  ◌≡◌, refl, ◌≢◌, true, List, [], ◌==◌, Bool-cases, inl, inr, ==_iff, mem_snoc, ne_of_mem,
}
use pandos.Types.{Ptr, null}
use pandos.Run.{ok}
use pandos.Pcb.{Store}
use pandos.Pcb.Access.{ne_test, ne_of_test}
use pandos.Pcb.Ring.{IsProcQ, none_queued, ring}
use pandos.Pcb.Dequeue.{head_or_null, head_proc_q-head}
use pandos.Asl.{Asl, activate, insert_blocked, head_blocked}
use pandos.Asl.Search.{read_ok, IsActive, lookup, find_semd-lookup}
use pandos.Asl.Activate.{IsAsl}
use pandos.Asl.Waiting.{Waits}

-- Without a descriptor for the semaphore and without a free one `insertBlocked` returns TRUE and
-- changes nothing. The process is not NULL.
pub insert_blocked_full :
    {a : Asl} {ds : List Ptr} (s p : Ptr)
    → IsAsl a ds []
    → lookup a.s_sem_add s ds ≡ null
    → p ≢ null
    → insert_blocked s p a ≡ ok true a
unfolding insert_blocked activate
insert_blocked_full s p v miss np = rw (ne_test np, find_semd-lookup s v.active, miss, v.free)

pub IsProcQ-null : {h : Store} {t : Ptr} {xs : List Ptr} → IsProcQ h t xs → t ≡ null → xs ≡ []
IsProcQ-null none_queued e = refl
IsProcQ-null {xs} (ring {t} ys l d nn c) e = absurd (ne_of_mem xs (rw l (mem_snoc ys t)) nn e)

-- `headBlocked` returns the first process that waits for the semaphore, NULL if there is none, and
-- changes nothing.
pub head_blocked-head :
    {a : Asl} {ds xs : List Ptr} (s : Ptr)
    → IsActive a ds
    → Waits a ds s xs
    → head_blocked s a ≡ ok (head_or_null xs) a
unfolding head_blocked
head_blocked-head {a} {ds} {xs} s v w = elim (Bool-cases (lookup a.s_sem_add s ds == null)) [
  | inl e ↦ let none : xs ≡ [] = IsProcQ-null w (rw e) in rw (find_semd-lookup s v, e, none)
  | inr e ↦
      let q = rw e at w in
      rw (find_semd-lookup s v, e, read_ok (ne_of_test e))
        (elim (Bool-cases (a.s_proc_q (lookup a.s_sem_add s ds) == null)) [
          | inl z ↦ let none : xs ≡ [] = IsProcQ-null q ((==_iff _ _).0 z) in rw (z, none)
          | inr z ↦ rw (z, head_proc_q-head q)
        ])
]
