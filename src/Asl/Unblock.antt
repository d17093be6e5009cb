-- ===== src/Asl/Unblock.antt =====
-- `removeBlocked`: the first process that waits for a semaphore is taken out.
use pandos.Prelude.{
  ◌<◌, ◌≡◌, refl, sym, ap, ◌∙◌, ◌≢◌, false, List, [], ◌∷◌, arith, ◌==◌, if◌then◌else◌, length,
  Bool-cases, inl, inr, ◌∈◌, ◌∉◌, ==_refl, ==_iff, erase,
}
use pandos.Types.{Ptr, null, max_proc}
use pandos.Run.{pure, ◌>>◌, Returns, returns, Returns-ok}
use pandos.Pcb.{Store, upd}
use pandos.Pcb.Access.{ne_test, ne_of_test, upd_self, upd-ne}
use pandos.Pcb.Access
use pandos.Pcb.Ring.{IsProcQ, none_queued, ring, IsProcQ-links}
use pandos.Pcb.Queue.{Requeues}
use pandos.Pcb.Dequeue.{remove_proc_q-head}
use pandos.Asl.{Asl, release_if_empty, remove_blocked}
use pandos.Asl.Search.{read_ok, at_ok, lookup, find_semd-lookup}
use pandos.Asl.Activate.{IsAsl}
use pandos.Asl.Waiting.{Waits, Requeues-IsProcQ, lookup-key, lookup-mem, IsAsl-lists, other_queue}
use pandos.Asl.Head.{IsProcQ-null}
use pandos.Asl.Release.{
  lookup-erase, released, before, release_if_empty-ok, release_if_empty-kept, released-IsAsl,
}

-- The process `x` waits no longer, and the other queues are as they were.
pub record Unblocks (a : Asl) (ds : List Ptr) (s x : Ptr) (xs : List Ptr) (out : Ptr) (g : Asl)
    : Type 0 where
  pub found : out ≡ x
  pub active : List Ptr
  pub free : List Ptr
  pub asl : IsAsl g active free
  pub queue : Waits g active s xs
  pub others :
      (t : Ptr) (ys : List Ptr)
      → t ≢ s
      → ((b : Ptr) → b ∈ ys → b ∉ (x ∷ xs))
      → Waits a ds t ys
      → Waits g active t ys
  pub spared :
      (t : Ptr) (ys : List Ptr)
      → ((b : Ptr) → b ∈ ys → b ∉ (x ∷ xs))
      → IsProcQ a.pcbs t ys
      → IsProcQ g.pcbs t ys
  pub sem : g.pcbs.p_sem_add x ≡ null
  pub nexts : (b : Ptr) → b ∉ (x ∷ xs) → g.pcbs.p_next b ≡ a.pcbs.p_next b
  pub rest : g.pcbs ≡ record (a.pcbs) {
    p_next = g.pcbs.p_next;
    p_prev = g.pcbs.p_prev;
    p_sem_add = upd a.pcbs.p_sem_add x null;
  }

pub member_real : {h : Store} {t x : Ptr} {xs : List Ptr} → IsProcQ h t (x ∷ xs) → x ≢ null
member_real (ring ys e d nn c) = ground arith

module _ {a : Asl} {ds fs : List Ptr} {xs : List Ptr} (s x : Ptr) (v : IsAsl a ds fs)
    (real : lookup a.s_sem_add s ds ≢ null) (g : Store) (tail : Ptr) (q : IsProcQ g tail xs)
    (m : Requeues (x ∷ xs) a.pcbs g) where
  abbrev d : Ptr
  d = lookup a.s_sem_add s ds

  -- The ASL when `removeProcQ` has been at the queue.
  abbrev pub dequeued : Asl
  dequeued = record a {
    s_proc_q = upd a.s_proc_q d tail;
    pcbs = record g { p_sem_add = upd g.p_sem_add x null };
  }

  rest_of : dequeued.pcbs ≡ record (a.pcbs) {
    p_next = g.p_next;
    p_prev = g.p_prev;
    p_sem_add = upd a.pcbs.p_sem_add x null;
  }
  rest_of = ap (λ (h : Store). record h { p_sem_add = upd h.p_sem_add x null }) m.rest

  dequeued-IsAsl : IsAsl dequeued ds fs
  dequeued-IsAsl =
      IsAsl-lists (upd a.s_proc_q d tail) (record g { p_sem_add = upd g.p_sem_add x null }) v

  other_kept :
      (t : Ptr) (ys : List Ptr)
      → t ≢ s
      → ((b : Ptr) → b ∈ ys → b ∉ (x ∷ xs))
      → Waits a ds t ys
      → Waits dequeued ds t ys
  other_kept t ys ne out w =
      rw (other_queue a dequeued ds s t refl (λ c n. upd-ne a.s_proc_q tail n) real ne)
        (IsProcQ-links dequeued.pcbs refl refl (Requeues-IsProcQ m out w))

  spare :
      (t : Ptr) (ys : List Ptr)
      → ((b : Ptr) → b ∈ ys → b ∉ (x ∷ xs))
      → IsProcQ a.pcbs t ys
      → IsProcQ dequeued.pcbs t ys
  spare t ys out w = IsProcQ-links dequeued.pcbs refl refl (Requeues-IsProcQ m out w)

  kept : tail ≢ null → Unblocks a ds s x xs x dequeued
  kept n = record {
    found = refl;
    active = ds;
    free = fs;
    asl = dequeued-IsAsl;
    queue = rw (ne_test real, upd_self a.s_proc_q d tail) (IsProcQ-links dequeued.pcbs refl refl q);
    others = other_kept;
    spared = spare;
    sem = upd_self g.p_sem_add x null;
    nexts = m.nexts;
    rest = rest_of;
  }

  d_mem : d ∈ ds
  d_mem = lookup-mem a.s_sem_add s ds real

  abbrev emptied : Asl
  emptied = released dequeued d (before d dequeued-IsAsl d_mem)

  lookup_emptied :
      (t : Ptr)
      → lookup a.s_sem_add t (erase d ds) ≡ (if s == t then null else lookup a.s_sem_add t ds)
  lookup_emptied t =
      lookup-erase a.s_sem_add d t 0 ds v.active.sorted d_mem
      ∙ ap (λ k. if k == t then null else lookup a.s_sem_add t ds)
          (lookup-key a.s_sem_add s ds real)

  gone : tail ≡ null → Unblocks a ds s x xs x emptied
  gone e =
      let none : xs ≡ [] = IsProcQ-null q e in
      record {
        found = refl;
        active = erase d ds;
        free = d ∷ fs;
        asl = released-IsAsl d dequeued-IsAsl d_mem;
        queue = rw (lookup_emptied s, ==_refl, none) none_queued;
        others = λ t ys ne out w.
            let st : (s == t) ≡ false = ne_test (λ f. ne (sym f)) in
            rw (lookup_emptied t, st) (other_kept t ys ne out w);
        spared = spare;
        sem = upd_self g.p_sem_add x null;
        nexts = m.nexts;
        rest = rest_of;
      }

  release_Unblocks : Returns (Unblocks a ds s x xs) ((release_if_empty d >> pure x) dequeued)
  release_Unblocks = elim (Bool-cases (tail == null)) [
    | inl e ↦
        let z = (==_iff tail null).0 e in
        rw (release_if_empty-ok d dequeued-IsAsl d_mem (upd_self a.s_proc_q d tail ∙ z))
          (returns (gone z))
    | inr e ↦
        let n = ne_of_test e in
        rw
          (release_if_empty-kept d dequeued-IsAsl d_mem
            (λ z. n (sym (upd_self a.s_proc_q d tail) ∙ z)))
          (returns (kept n))
  ]

-- In a well-formed ASL `removeBlocked` takes the first of the processes that wait for a
-- semaphore, at most `max_proc`, out of its queue, clears its semaphore address and returns it.
-- The ASL stays well-formed, and the queues of other semaphores are as they were, if they share
-- no process with this one.
pub remove_blocked-Unblocks :
    {a : Asl} {ds fs : List Ptr} {x : Ptr} {xs : List Ptr} (s : Ptr)
    → IsAsl a ds fs
    → Waits a ds s (x ∷ xs)
    → length xs < max_proc
    → Returns (Unblocks a ds s x xs) (remove_blocked s a)
unfolding remove_blocked
remove_blocked-Unblocks {a} {ds} {x} {xs} s v w short =
    elim (Bool-cases (lookup a.s_sem_add s ds == null)) [
      | inl e ↦ cc (IsProcQ-null w (rw e))
      | inr e ↦
          let q = rw e at w in
          let (out, g, removed, m) = Returns-ok (remove_proc_q-head q short) in
          let real = ne_of_test e in
          rw
            (
              find_semd-lookup s v.active,
              e,
              read_ok real,
              removed,
              m.0,
              at_ok real,
              ne_test (member_real q),
              Access.at-ok (member_real q),
            )
            (release_Unblocks s x v real g out.1 m.1 m.4)
    ]
