-- ===== src/Asl/Block.antt =====
-- `insertBlocked`: the queues of the semaphores.
use pandos.Prelude.{
  ◌<◌, ◌≡◌, refl, sym, ap, ◌∙◌, ◌≢◌, Bool, true, false, List, [], ◌∷◌, ◌++◌, arith, ◌==◌,
  if◌then◌else◌, length, Bool-cases, inl, inr, ◌⊎◌, ◌∈◌, ◌∉◌, ==_refl, ==_iff, ne_of_mem,
}
use mathlib.Core.Path.{subst}
use pandos.Types.{Ptr, null}
use pandos.Run.{pure, ◌>>=◌, Returns, returns, Returns-ok, Returns-mono}
use pandos.Pcb.{Store, upd}
use pandos.Pcb.Access.{ne_test, ne_of_test, upd_self, upd-ne}
use pandos.Pcb.Access
use pandos.Pcb.Ring.{IsProcQ, IsProcQ-links}
use pandos.Pcb.Queue.{insert_proc_q-append}
use pandos.Asl.{Asl, enqueue, activate, insert_blocked}
use pandos.Asl.Search.{read_ok, at_ok, lookup, find_semd-lookup}
use pandos.Asl.Place.{insert, lookup-insert}
use pandos.Asl.Activate.{
  IsAsl, activated, activate-ok, activated-IsAsl, place, f_apart, null-not-mem-FreeChain,
}
use pandos.Asl.Waiting.{queue_of, Waits, Requeues-IsProcQ, lookup-mem, IsAsl-lists, other_queue}

-- The process `p` has joined the queue of the descriptor `d`.
record Enqueued (a : Asl) (d s p : Ptr) (xs : List Ptr) (full : Bool) (b : Asl) : Type 0 where
  blocked : full ≡ false
  lists : b ≡ record a { s_proc_q = b.s_proc_q; pcbs = b.pcbs }
  queue : IsProcQ b.pcbs (b.s_proc_q d) (xs ++ (p ∷ []))
  others : (c : Ptr) → c ≢ d → b.s_proc_q c ≡ a.s_proc_q c
  spared :
      (t : Ptr) (ys : List Ptr)
      → ((x : Ptr) → x ∈ ys → x ∉ (p ∷ xs))
      → IsProcQ a.pcbs t ys
      → IsProcQ b.pcbs t ys
  nexts : (x : Ptr) → x ∉ (p ∷ xs) → b.pcbs.p_next x ≡ a.pcbs.p_next x
  rest : b.pcbs ≡ record (a.pcbs) {
    p_next = b.pcbs.p_next;
    p_prev = b.pcbs.p_prev;
    p_sem_add = upd a.pcbs.p_sem_add p s;
  }

enqueue-Enqueued :
    {a : Asl} {d : Ptr} {xs : List Ptr} (s p : Ptr)
    → d ≢ null
    → p ≢ null
    → p ∉ xs
    → IsProcQ a.pcbs (a.s_proc_q d) xs
    → Returns (Enqueued a d s p xs) (enqueue d s p a)
unfolding enqueue
enqueue-Enqueued {a} {d} {xs} s p nd np o q =
    let (t, g, inserted, m) = Returns-ok (insert_proc_q-append p q np o) in
    let h : Store = record g { p_sem_add = upd g.p_sem_add p s } in
    rw (read_ok nd, inserted, at_ok nd, Access.at-ok np)
      (returns (record {
        blocked = refl;
        lists = refl;
        queue = rw (upd_self a.s_proc_q d t) (IsProcQ-links h refl refl m.1);
        others = λ c ne. upd-ne a.s_proc_q t ne;
        spared = λ u ys out w. IsProcQ-links h refl refl (Requeues-IsProcQ m.2 out w);
        nexts = m.2.nexts;
        rest =
            ap
              (λ (f : Store). record f {
                p_next = h.p_next;
                p_prev = h.p_prev;
                p_sem_add = upd f.p_sem_add p s;
              })
              m.2.rest;
      }))

-- The process `p` waits for `s`, last in the queue, and the other queues are as they were.
pub record Blocks (a : Asl) (ds : List Ptr) (s p : Ptr) (xs : List Ptr) (full : Bool) (g : Asl)
    : Type 0 where
  pub blocked : full ≡ false
  pub active : List Ptr
  pub free : List Ptr
  pub asl : IsAsl g active free
  pub queue : Waits g active s (xs ++ (p ∷ []))
  pub others :
      (t : Ptr) (ys : List Ptr)
      → t ≢ s
      → ((x : Ptr) → x ∈ ys → x ∉ (p ∷ xs))
      → Waits a ds t ys
      → Waits g active t ys
  pub spared :
      (t : Ptr) (ys : List Ptr)
      → ((x : Ptr) → x ∈ ys → x ∉ (p ∷ xs))
      → IsProcQ a.pcbs t ys
      → IsProcQ g.pcbs t ys
  pub states : g.pcbs.p_s ≡ a.pcbs.p_s
  pub sem : g.pcbs.p_sem_add p ≡ s
  pub nexts : (x : Ptr) → x ∉ (p ∷ xs) → g.pcbs.p_next x ≡ a.pcbs.p_next x
  pub rest : g.pcbs ≡ record (a.pcbs) {
    p_next = g.pcbs.p_next;
    p_prev = g.pcbs.p_prev;
    p_sem_add = upd a.pcbs.p_sem_add p s;
  }

enqueue-Blocks :
    {a : Asl} {ds : List Ptr} {c : Asl} {es gs : List Ptr} {xs : List Ptr} (s p : Ptr)
    → c.pcbs ≡ a.pcbs
    → IsAsl c es gs
    → lookup c.s_sem_add s es ≢ null
    → p ≢ null
    → p ∉ xs
    → IsProcQ c.pcbs (c.s_proc_q (lookup c.s_sem_add s es)) xs
    → ((t : Ptr) (ys : List Ptr) → t ≢ s → Waits a ds t ys → Waits c es t ys)
    → Returns (Blocks a ds s p xs) (enqueue (lookup c.s_sem_add s es) s p c)
enqueue-Blocks {a} {c} {es} {gs} {xs} s p same v nd np o q before =
    let placed = λ (b : Asl).
      ap
        (λ (f : Store). record f {
          p_next = b.pcbs.p_next;
          p_prev = b.pcbs.p_prev;
          p_sem_add = upd f.p_sem_add p s;
        })
        same in
    Returns-mono (enqueue-Enqueued s p nd np o q) λ full b m.
      let keys : b.s_sem_add ≡ c.s_sem_add = ap (λ (x : Asl). x.s_sem_add) m.lists in
      record {
        blocked = m.blocked;
        active = es;
        free = gs;
        asl = subst (λ x. IsAsl x es gs) (sym m.lists) (IsAsl-lists b.s_proc_q b.pcbs v);
        queue = rw (keys, ne_test nd) m.queue;
        others = λ t ys ne out w.
            rw (other_queue c b es s t keys m.others nd ne) (m.spared _ ys out (before t ys ne w));
        spared = λ t ys out w. m.spared t ys out (rw same w);
        states = ap (λ (f : Store). f.p_s) (m.rest ∙ placed b);
        sem = ap (λ (f : Store). f.p_sem_add p) (m.rest ∙ placed b) ∙ upd_self a.pcbs.p_sem_add p s;
        nexts = λ x o. m.nexts x o ∙ ap (λ (f : Store). f.p_next x) same;
        rest = m.rest ∙ placed b;
      }

module _ {a : Asl} {ds : List Ptr} {f : Ptr} {fs : List Ptr} (s : Ptr) (v : IsAsl a ds (f ∷ fs))
    (miss : lookup a.s_sem_add s ds ≡ null) where
  abbrev new_asl : Asl
  new_asl = activated a s f (place s v)

  real_descriptors : null ∉ ds
  real_descriptors = null-not-mem-FreeChain a.s_next (a.s_next a.semd_h) ds v.active.chain

  f_new : f ∉ ds
  f_new = let o = f_apart s v in ground arith

  new_lookup :
      (t : Ptr)
      → lookup new_asl.s_sem_add t (insert a.s_sem_add s f ds)
        ≡ (if s == t then f else lookup a.s_sem_add t ds)
  new_lookup t = lookup-insert a.s_sem_add s f t ds f_new miss real_descriptors

  found : lookup new_asl.s_sem_add s (insert a.s_sem_add s f ds) ≡ f
  found = new_lookup s ∙ rw ==_refl

  queue_kept : (t : Ptr) → t ≢ s → queue_of new_asl (insert a.s_sem_add s f ds) t ≡ queue_of a ds t
  queue_kept t ne =
      let st : (s == t) ≡ false = ne_test (λ e. ne (sym e)) in
      let l : lookup new_asl.s_sem_add t (insert a.s_sem_add s f ds) ≡ lookup a.s_sem_add t ds =
        new_lookup t ∙ rw st in
      rw l (elim (Bool-cases (lookup a.s_sem_add t ds == null)) [
        | inl e ↦ rw e
        | inr e ↦ rw e (
            upd-ne a.s_proc_q null
              (ne_of_mem ds (lookup-mem a.s_sem_add t ds (ne_of_test e)) f_new))
      ])

  activated-Blocks :
      {xs : List Ptr} (p : Ptr)
      → Waits a ds s xs
      → 0 < s
      → p ≢ null
      → p ∉ xs
      → Returns (Blocks a ds s p xs) (enqueue f s p new_asl)
  activated-Blocks {xs} p w lo np o =
      subst (λ d. Returns (Blocks a ds s p xs) (enqueue d s p new_asl)) found
        (enqueue-Blocks s p refl (activated-IsAsl s v lo miss) (rw found v.free.1) np o
          (rw (found, upd_self a.s_proc_q f null) (rw miss at w))
          (λ t ys ne u. rw (queue_kept t ne) u))

new-Blocks :
    {a : Asl} {ds fs xs : List Ptr} (s p : Ptr)
    → IsAsl a ds fs
    → lookup a.s_sem_add s ds ≡ null
    → Waits a ds s xs
    → 0 < s
    → p ≢ null
    → p ∉ xs
    → 0 < length fs
    → Returns
        (Blocks a ds s p xs)
        ((activate s >>= λ semd. if semd == null then pure true else enqueue semd s p) a)
new-Blocks {fs = []} s p v miss w lo np o room = absurd (omega arith)
new-Blocks {fs = f ∷ fs} s p v miss w lo np o room =
    rw (activate-ok s v, ne_test v.free.1) (activated-Blocks s v miss p w lo np o)

-- In a well-formed ASL, where the semaphore, whose address is not 0, has a descriptor or one is
-- free, `insertBlocked` puts a process that is not NULL and does not wait for the semaphore yet
-- at the end of its queue and returns FALSE. The ASL stays well-formed, and the queues of other
-- semaphores are as they were, if they share no process with this one.
pub insert_blocked-Blocks :
    {a : Asl} {ds fs xs : List Ptr} (s p : Ptr)
    → IsAsl a ds fs
    → Waits a ds s xs
    → 0 < s
    → p ≢ null
    → p ∉ xs
    → (lookup a.s_sem_add s ds ≢ null) ⊎ (0 < length fs)
    → Returns (Blocks a ds s p xs) (insert_blocked s p a)
unfolding insert_blocked
insert_blocked-Blocks {a} {ds} {fs} {xs} s p v w lo np o room =
    elim (Bool-cases (lookup a.s_sem_add s ds == null)) [
      | inl e ↦
          rw (ne_test np, find_semd-lookup s v.active, e)
            (new-Blocks s p v ((==_iff _ _).0 e) w lo np o
              (elim room [ inl n ↦ absurd (n ((==_iff _ _).0 e)) | inr n ↦ n ]))
      | inr e ↦
          rw (ne_test np, find_semd-lookup s v.active, e)
            (enqueue-Blocks s p refl v (ne_of_test e) np o (rw e at w) (λ t ys ne u. u))
    ]
