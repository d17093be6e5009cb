-- ===== src/Exceptions/Lists.antt =====
-- The lists that the pcbs of the kernel are in: the ready queue, the queues of the semaphores and the
-- free list.
use pandos.Prelude.{
  sym, ◌==◌, ==_iff, Bool-cases, inl, inr, ◌≤◌, ◌≡◌, refl, ◌≢◌, List, [], ◌∷◌, arith, ◌∈◌, ◌∉◌,
  erase, length, ne_of_mem, not-mem-erase_self, length-append, has-append, apart_sym, ap, ◌∙◌, ◌<◌,
  ◌++◌,
}
use pandos.Types.{Ptr, null, max_proc}
use pandos.Pcb.{Store, upd, insert_proc_q}
use pandos.Pcb.Access.{ne_test, ne_of_test, upd-ne}
use pandos.Pcb.Pool.{IsFree, FreeChain-frame}
use pandos.Pcb.Ring.{IsProcQ, IsProcQ-Distinct, IsProcQ-links}
use pandos.Pcb.Queue.{Requeues, insert_proc_q-append}
use pandos.Run.{ok, Returns-ok}
use pandos.Asl.{Asl, max_int}
use pandos.Asl.Waiting.{Requeues-IsProcQ, IsAsl-lists}
use pandos.Asl.Leave.{HasWaiters}
use pandos.Kernel.{Kernel}

-- The ready queue holds the pcbs `rs`, the queue of each semaphore `s` the pcbs `w s`, which name it
-- in `p_semAdd`, and the free list the pcbs `fs`. No pcb is in two of these lists, and no queue is
-- longer than `max_proc`.
pub record HasLists (k : Kernel) (w : Ptr → List Ptr) (rs fs : List Ptr) : Type 0 where
  pub ready : IsProcQ k.asl.pcbs k.ready_queue rs
  pub short : length rs ≤ max_proc
  pub waiters : HasWaiters k.asl w
  pub few : (s : Ptr) → length (w s) ≤ max_proc
  pub owner : (s b : Ptr) → b ∈ w s → k.asl.pcbs.p_sem_add b ≡ s
  pub real : (s b : Ptr) → b ∈ w s → s ≢ null
  pub free : IsFree k.asl.pcbs fs
  pub apart : (b : Ptr) → b ∈ fs → b ∉ rs
  pub unready : (s b : Ptr) → b ∈ w s → b ∉ rs
  pub used : (s b : Ptr) → b ∈ w s → b ∉ fs

pub HasWaiters-links :
    {a : Asl} {w : Ptr → List Ptr} (g : Store)
    → g.p_next ≡ a.pcbs.p_next
    → g.p_prev ≡ a.pcbs.p_prev
    → HasWaiters a w
    → HasWaiters (record a { pcbs = g }) w
HasWaiters-links {a} g en ep v = record {
  active = v.active;
  free = v.free;
  asl = IsAsl-lists a.s_proc_q g v.asl;
  waits = λ s n. IsProcQ-links g en ep (v.waits s n);
  unnamed = v.unnamed;
}

pub HasWaiters-Requeues :
    {a : Asl} {w : Ptr → List Ptr} {g : Store} {xs : List Ptr}
    → Requeues xs a.pcbs g
    → ((s b : Ptr) → b ∈ w s → b ∉ xs)
    → HasWaiters a w
    → HasWaiters (record a { pcbs = g }) w
HasWaiters-Requeues {a} {g} m out v = record {
  active = v.active;
  free = v.free;
  asl = IsAsl-lists a.s_proc_q g v.asl;
  waits = λ s n. Requeues-IsProcQ m (out s) (v.waits s n);
  unnamed = v.unnamed;
}

pub waits-Distinct : {a : Asl} {w : Ptr → List Ptr} (p s : Ptr) → HasWaiters a w → p ∉ erase p (w s)
waits-Distinct {w} p s v = elim (Bool-cases (s == max_int)) [
  | inl e ↦ rw ((==_iff s max_int).0 e, v.unnamed) refl
  | inr n ↦ not-mem-erase_self p (w s) (IsProcQ-Distinct (v.waits s (ne_of_test n)))
]

-- A semaphore with a process that waits is not the key of the dummy tail.
pub waits-ne :
    {a : Asl} {w : Ptr → List Ptr} {s x : Ptr} {xs : List Ptr}
    → HasWaiters a w
    → w s ≡ x ∷ xs
    → s ≢ max_int
waits-ne {w} {x} {xs} v e n =
    let z : 0 ≡ length (x ∷ xs) = ap length (sym v.unnamed ∙ ap w (sym n) ∙ e) in
    absurd (omega (arith, z))

-- The same lists in another state, in which the processes that wait still name their semaphores.
pub HasLists-owned :
    {k : Kernel} {w : Ptr → List Ptr} {rs fs : List Ptr} (g : Store)
    → g.p_next ≡ k.asl.pcbs.p_next
    → g.p_prev ≡ k.asl.pcbs.p_prev
    → g.free_h ≡ k.asl.pcbs.free_h
    → ((s b : Ptr) → b ∈ w s → g.p_sem_add b ≡ k.asl.pcbs.p_sem_add b)
    → HasLists k w rs fs
    → HasLists (record k { asl = record (k.asl) { pcbs = g } }) w rs fs
HasLists-owned g en ep ef es l = record {
  ready = IsProcQ-links g en ep l.ready;
  short = l.short;
  waiters = HasWaiters-links g en ep l.waiters;
  few = l.few;
  owner = λ s b i. es s b i ∙ l.owner s b i;
  real = l.real;
  free = record { chain = rw (en, ef) l.free.chain; distinct = l.free.distinct };
  apart = l.apart;
  unready = l.unready;
  used = l.used;
}

pub HasLists-links :
    {k : Kernel} {w : Ptr → List Ptr} {rs fs : List Ptr} (g : Store)
    → g.p_next ≡ k.asl.pcbs.p_next
    → g.p_prev ≡ k.asl.pcbs.p_prev
    → g.free_h ≡ k.asl.pcbs.free_h
    → g.p_sem_add ≡ k.asl.pcbs.p_sem_add
    → HasLists k w rs fs
    → HasLists (record k { asl = record (k.asl) { pcbs = g } }) w rs fs
HasLists-links g en ep ef es = HasLists-owned g en ep ef (λ s b i. ap (λ f. f b) es)

pub HasLists-same :
    {k : Kernel} {w : Ptr → List Ptr} {rs fs : List Ptr} (g : Kernel)
    → g.asl ≡ k.asl
    → g.ready_queue ≡ k.ready_queue
    → HasLists k w rs fs
    → HasLists g w rs fs
HasLists-same g ea eq l = record {
  ready = rw (ea, eq) l.ready;
  short = l.short;
  waiters = rw ea l.waiters;
  few = l.few;
  owner = λ s b i. rw ea (l.owner s b i);
  real = l.real;
  free = rw ea l.free;
  apart = l.apart;
  unready = l.unready;
  used = l.used;
}

-- The state when `insertProcQ` has been at the ready queue.
abbrev pub queued : Kernel → Ptr → Store → Kernel
queued k tail g = record k { asl = record (k.asl) { pcbs = g }; ready_queue = tail }

-- A pcb that is in none of the lists joins the ready queue.
pub queued-HasLists :
    {k : Kernel} {w : Ptr → List Ptr} {rs fs : List Ptr} (p tail : Ptr) (g : Store)
    → HasLists k w rs fs
    → length rs < max_proc
    → p ∉ fs
    → ((s : Ptr) → p ∉ w s)
    → IsProcQ g tail (rs ++ (p ∷ []))
    → Requeues (p ∷ rs) k.asl.pcbs g
    → HasLists (queued k tail g) w (rs ++ (p ∷ [])) fs
queued-HasLists {k} {w} {rs} {fs} p tail g l room f o q m =
    let out : (b : Ptr) → b ≢ p → b ∉ rs → b ∉ (p ∷ rs) = λ b n r. rw (ne_test n) r in
    let behind : (b : Ptr) → b ≢ p → b ∉ rs → b ∉ (rs ++ (p ∷ [])) =
      λ b n r. rw (has-append b rs (p ∷ []), r, ne_test n) in
    record {
      ready = q;
      short = omega (arith, room, length-append rs (p ∷ []));
      waiters =
          HasWaiters-Requeues m (λ s b i. out b (ne_of_mem (w s) i (o s)) (l.unready s b i))
            l.waiters;
      few = l.few;
      owner = λ s b i. ap (λ (h : Store). h.p_sem_add b) m.rest ∙ l.owner s b i;
      real = l.real;
      free = record {
        chain = rw (ap (λ (h : Store). h.free_h) m.rest) (
            FreeChain-frame k.asl.pcbs.p_next g.p_next k.asl.pcbs.free_h fs
              (λ b i. m.nexts b (out b (ne_of_mem fs i f) (l.apart b i))) l.free.chain);
        distinct = l.free.distinct;
      };
      apart = λ b i. behind b (ne_of_mem fs i f) (l.apart b i);
      unready = λ s b i. behind b (ne_of_mem (w s) i (o s)) (l.unready s b i);
      used = l.used;
    }

-- The first free pcb is taken, whatever else is written to it.
pub taken-HasLists :
    {k : Kernel} {w : Ptr → List Ptr} {rs fs : List Ptr} (x : Ptr) (g : Store)
    → HasLists k w rs (x ∷ fs)
    → g.p_next ≡ upd k.asl.pcbs.p_next x null
    → g.p_prev ≡ upd k.asl.pcbs.p_prev x null
    → g.free_h ≡ k.asl.pcbs.p_next x
    → ((b : Ptr) → b ≢ x → g.p_sem_add b ≡ k.asl.pcbs.p_sem_add b)
    → HasLists (record k { asl = record (k.asl) { pcbs = g } }) w rs fs
taken-HasLists {k} {w} {rs} {fs} x g l en ep ef es =
    let h : Store = k.asl.pcbs in
    let m : Requeues (x ∷ []) h (record h { p_next = g.p_next; p_prev = g.p_prev }) = record {
      nexts = λ b n. rw en (upd-ne h.p_next null (ground arith));
      prevs = λ b n. rw ep (upd-ne h.p_prev null (ground arith));
      rest = refl;
    } in
    let unready : x ∉ rs = l.apart x (ground arith) in
    let unwaiting : (s : Ptr) → x ∉ w s =
      λ s. apart_sym (w s) (x ∷ fs) (l.used s) x (ground arith) in
    let other : (xs : List Ptr) → x ∉ xs → (b : Ptr) → b ∈ xs → b ∉ (x ∷ []) =
      λ xs o b i. rw (ne_test (ne_of_mem xs i o)) in
    record {
      ready = IsProcQ-links g refl refl (Requeues-IsProcQ m (other rs unready) l.ready);
      short = l.short;
      waiters =
          HasWaiters-links g refl refl
            (HasWaiters-Requeues m (λ s. other (w s) (unwaiting s)) l.waiters);
      few = l.few;
      owner = λ s b i. es b (ne_of_mem (w s) i (unwaiting s)) ∙ l.owner s b i;
      real = l.real;
      free = record {
        chain = rw ef (
            FreeChain-frame h.p_next g.p_next (h.p_next x) fs
              (λ b i. rw en (upd-ne h.p_next null (ne_of_mem fs i l.free.distinct.0)))
              l.free.chain.2);
        distinct = l.free.distinct.1;
      };
      apart = λ b i. l.apart b (ground arith);
      unready = l.unready;
      used = λ s b i. let o = l.used s b i in ground arith;
    }

-- `insertProcQ` on the ready queue.
pub insert_ready-HasLists :
    {k : Kernel} {w : Ptr → List Ptr} {rs fs : List Ptr} (p : Ptr)
    → HasLists k w rs fs
    → length rs < max_proc
    → p ≢ null
    → p ∉ rs
    → p ∉ fs
    → ((s : Ptr) → p ∉ w s)
    → (tail : Ptr) × (g : Store) × (insert_proc_q k.ready_queue p k.asl.pcbs ≡ ok tail g)
      × HasLists (queued k tail g) w (rs ++ (p ∷ [])) fs
      × (g ≡ record (k.asl.pcbs) { p_next = g.p_next; p_prev = g.p_prev })
insert_ready-HasLists p l room real r f o =
    let (tail, g, e, (et, q, m)) = Returns-ok (insert_proc_q-append p l.ready real r) in
    (tail, g, e, queued-HasLists p tail g l room f o q m, m.rest)
