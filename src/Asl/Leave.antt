-- ===== src/Asl/Leave.antt =====
-- `outBlocked`: a process leaves the queue of its semaphore, wherever it stands there.
use pandos.Prelude.{
  ◌≤◌, ◌≡◌, refl, sym, ap, ◌∙◌, ◌≢◌, List, [], ◌∷◌, ◌==◌, if◌then◌else◌, length, Bool-cases, inl,
  inr, ◌∈◌, ◌∉◌, has, ==_iff, erase, erase_not-mem,
}
use pandos.Types.{Ptr, null, max_proc}
use pandos.Run.{ok, Returns, returns, Returns-ok, Returns-bind}
use pandos.Pcb.{Store, upd, out_proc_q}
use pandos.Pcb.Access.{ne_test, ne_of_test, upd_self, upd-ne}
use pandos.Pcb.Access
use pandos.Pcb.Ring.{IsProcQ, none_queued, IsProcQ-links}
use pandos.Pcb.Queue.{Requeues}
use pandos.Pcb.Dequeue.{out_proc_q-erase}
use pandos.Asl.{Asl, max_int, release_if_empty, out_blocked}
use pandos.Asl.Search.{read_ok, at_ok, lookup, find_semd-lookup}
use pandos.Asl.Activate.{IsAsl}
use pandos.Asl.Waiting.{Waits, Requeues-IsProcQ, lookup-key, lookup-mem, IsAsl-lists, other_queue}
use pandos.Asl.Head.{IsProcQ-null}
use pandos.Asl.Release.{lookup-erase, release_if_empty-ok, release_if_empty-kept, released-IsAsl}

-- A well-formed ASL in which the processes `w s` wait for each semaphore `s`. MAXINT, the key of the
-- dummy tail, is no semaphore; nothing is said of the queue pointer of that descriptor.
pub record HasWaiters (a : Asl) (w : Ptr → List Ptr) : Type 0 where
  pub active : List Ptr
  pub free : List Ptr
  pub asl : IsAsl a active free
  pub waits : (s : Ptr) → s ≢ max_int → Waits a active s (w s)
  pub unnamed : w max_int ≡ []

-- A descriptor with an empty queue is released, and no queue changes.
release_if_empty-HasWaiters :
    (a : Asl) (w : Ptr → List Ptr) (s : Ptr) (v : HasWaiters a w)
    → s ≢ max_int
    → lookup a.s_sem_add s v.active ≢ null
    → Returns
        (λ _ g. HasWaiters g w × (g.pcbs ≡ a.pcbs))
        (release_if_empty (lookup a.s_sem_add s v.active) a)
release_if_empty-HasWaiters a w s v named real =
    let d = lookup a.s_sem_add s v.active in
    let i = lookup-mem a.s_sem_add s v.active real in
    elim (Bool-cases (a.s_proc_q d == null)) [
      | inl e ↦
          let z = (==_iff (a.s_proc_q d) null).0 e in
          let none : w s ≡ [] = IsProcQ-null (rw (ne_test real) at (v.waits s named)) z in
          let looked : (t : Ptr)
              → lookup a.s_sem_add t (erase d v.active)
                ≡ (if s == t then null else lookup a.s_sem_add t v.active) =
            λ t.
              lookup-erase a.s_sem_add d t 0 v.active v.asl.active.sorted i
              ∙ ap (λ k. if k == t then null else lookup a.s_sem_add t v.active)
                  (lookup-key a.s_sem_add s v.active real) in
          rw (release_if_empty-ok d v.asl i z) (
            returns (
              record {
                active = erase d v.active;
                free = d ∷ v.free;
                asl = released-IsAsl d v.asl i;
                unnamed = v.unnamed;
                waits = λ t nt. elim (Bool-cases (s == t)) [
                  | inl st ↦ rw (looked t, st, sym ((==_iff s t).0 st), none) none_queued
                  | inr st ↦ rw (looked t, st) (IsProcQ-links a.pcbs refl refl (v.waits t nt))
                ];
              },
              refl,
            ))
      | inr n ↦ rw (release_if_empty-kept d v.asl i (ne_of_test n)) (returns (v, refl))
    ]

-- The process `p` waits for no semaphore, and all others wait as they did.
pub record Leaves (a : Asl) (w : Ptr → List Ptr) (p : Ptr) (g : Asl) : Type 0 where
  pub waiters : HasWaiters g (λ s. erase p (w s))
  pub frame : Requeues (w (a.pcbs.p_sem_add p)) a.pcbs g.pcbs

module _ (a : Asl) (w : Ptr → List Ptr) (p : Ptr) (v : HasWaiters a w)
    (owner : (t b : Ptr) → b ∈ w t → a.pcbs.p_sem_add b ≡ t)
    (named : a.pcbs.p_sem_add p ≢ max_int) where
  abbrev s : Ptr
  s = a.pcbs.p_sem_add p

  -- The process is in no other queue.
  elsewhere : (t : Ptr) → t ≢ s → p ∉ w t
  elsewhere t n = elim (Bool-cases (has p (w t))) [
    | inl i ↦ absurd (n (sym (owner t p i)))
    | inr o ↦ o
  ]

  apart : (t : Ptr) → t ≢ s → (b : Ptr) → b ∈ w t → b ∉ w s
  apart t n b i = elim (Bool-cases (has b (w s))) [
    | inl j ↦ absurd (n (sym (owner t b i) ∙ owner s b j))
    | inr o ↦ o
  ]

  module _ (real : lookup a.s_sem_add s v.active ≢ null) (g : Store) (tail : Ptr)
      (q : IsProcQ g tail (erase p (w s))) (m : Requeues (w s) a.pcbs g) where
    abbrev d : Ptr
    d = lookup a.s_sem_add s v.active

    -- The ASL when `outProcQ` has been at the queue.
    abbrev dequeued : Asl
    dequeued = record a { s_proc_q = upd a.s_proc_q d tail; pcbs = g }

    dequeued-Waits : (t : Ptr) → t ≢ max_int → Waits dequeued v.active t (erase p (w t))
    dequeued-Waits t mt = elim (Bool-cases (t == s)) [
      | inl e ↦ rw ((==_iff t s).0 e, ne_test real, upd_self a.s_proc_q d tail) q
      | inr n ↦
          let nt = ne_of_test n in
          rw
            (
              erase_not-mem p (w t) (elsewhere t nt),
              other_queue a dequeued v.active s t refl (λ c nc. upd-ne a.s_proc_q tail nc) real nt,
            )
            (Requeues-IsProcQ m (apart t nt) (v.waits t mt))
    ]

    dequeued-HasWaiters : HasWaiters dequeued (λ t. erase p (w t))
    dequeued-HasWaiters = record {
      active = v.active;
      free = v.free;
      asl = IsAsl-lists (upd a.s_proc_q d tail) g v.asl;
      waits = dequeued-Waits;
      unnamed = rw v.unnamed refl;
    }

    -- The rest of `outBlocked`, with what `outProcQ` has returned.
    taken_out :
        p ≢ null
        → a.pcbs.p_sem_add p ≢ null
        → (out : Ptr) → out_proc_q (a.s_proc_q d) p a.pcbs ≡ ok (out, tail) g
        → out ≡ (if has p (w s) then p else null)
        → Returns (λ _ g'. Leaves a w p g') (out_blocked p a)
    unfolding out_blocked dequeued-HasWaiters
    taken_out np ns out removed found =
        rw
          (
            ne_test np,
            Access.read-ok np,
            ne_test ns,
            find_semd-lookup s v.asl.active,
            ne_test real,
            read_ok real,
            removed,
            at_ok real,
            found,
          )
          (elim (Bool-cases (has p (w s))) [
            | inl i ↦
                rw (i, ne_test np)
                  (Returns-bind
                    (release_if_empty-HasWaiters dequeued (λ t. erase p (w t)) s dequeued-HasWaiters
                      named real)
                    λ _ g' (h, e). returns (record { waiters = h; frame = rw e m }))
            | inr o ↦ rw o (returns (record { waiters = dequeued-HasWaiters; frame = m }))
          ])

  unchanged : lookup a.s_sem_add s v.active ≡ null → Leaves a w p a
  unchanged none =
      let empty : w s ≡ [] = IsProcQ-null (v.waits s named) (rw none) in
      record {
        waiters = record {
          active = v.active;
          free = v.free;
          asl = v.asl;
          unnamed = rw v.unnamed refl;
          waits = λ t mt. elim (Bool-cases (t == s)) [
            | inl e ↦
                let u = v.waits t mt in
                rw ((==_iff t s).0 e, empty) (rw ((==_iff t s).0 e, empty) at u)
            | inr n ↦ rw (erase_not-mem p (w t) (elsewhere t (ne_of_test n))) (v.waits t mt)
          ];
        };
        frame = record { nexts = λ b n. refl; prevs = λ b n. refl; rest = refl };
      }

  -- In a well-formed ASL, in which each process waits for its `p_semAdd` only and at most `max_proc`
  -- for that of `p`, which is not MAXINT, `outBlocked` takes `p`, which is not NULL, out of the queue
  -- of its semaphore, if it is there. The ASL stays well-formed, the other processes wait in the same order as before, and
  -- only the queue links of the processes in that queue change.
  pub out_blocked-Leaves :
      p ≢ null
      → a.pcbs.p_sem_add p ≢ null
      → length (w (a.pcbs.p_sem_add p)) ≤ max_proc
      → Returns (λ _ g. Leaves a w p g) (out_blocked p a)
  unfolding out_blocked
  out_blocked-Leaves np ns short = elim (Bool-cases (lookup a.s_sem_add s v.active == null)) [
    | inl e ↦
        rw (ne_test np, Access.read-ok np, ne_test ns, find_semd-lookup s v.asl.active, e)
          (returns (unchanged ((==_iff _ null).0 e)))
    | inr n ↦
        let real = ne_of_test n in
        let q = rw n at (v.waits s named) in
        let (out, g, removed, (found, q', m)) = Returns-ok (out_proc_q-erase p q short) in
        taken_out real g out.1 q' m np ns out.0 removed found
  ]
