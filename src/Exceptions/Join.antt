-- ===== src/Exceptions/Join.antt =====
-- The lists that the pcbs are in, when a process joins the queue of a semaphore and when the
-- scheduler takes one from the ready queue.
use pandos.Prelude.{
  ◌<◌, ◌≡◌, sym, ap, ◌∙◌, ◌≢◌, List, [], ◌∷◌, ◌++◌, arith, ◌==◌, if◌then◌else◌, length,
  length-append, Bool-cases, inl, inr, ◌⊎◌, ◌∈◌, ◌∉◌, has, has-append, ==_iff, ==_refl, ne_of_mem,
  apart_sym, Bool,
}
use mathlib.Core.Path.{subst}
use pandos.Types.{Ptr, null, max_proc}
use pandos.Run.{Stop}
use pandos.Pcb.{Store}
use pandos.Pcb.Access.{ne_test, ne_of_test, upd-ne}
use pandos.Pcb.Pool.{FreeChain-frame}
use pandos.Asl.{Asl, max_int}
use pandos.Asl.Waiting.{Waits}
use pandos.Asl.Leave.{HasWaiters}
use pandos.Asl.Block.{Blocks}
use pandos.Kernel.{Kernel}
use pandos.Scheduler.Choice.{Dispatches}
use pandos.Exceptions.Lists.{HasLists, HasWaiters-Requeues}

-- The queues when `p` waits for `s` behind the others.
abbrev pub joins : (s p : Ptr) → (Ptr → List Ptr) → Ptr → List Ptr
joins s p w t = if t == s then w t ++ (p ∷ []) else w t

-- The process `p` is in none of the lists.
pub record IsOut (p : Ptr) (w : Ptr → List Ptr) (rs fs : List Ptr) : Type 0 where
  pub real : p ≢ null
  pub unready : p ∉ rs
  pub used : p ∉ fs
  pub unwaiting : (t : Ptr) → p ∉ w t

mem_joins :
    (s p : Ptr) (w : Ptr → List Ptr) (t b : Ptr)
    → b ∈ joins s p w t
    → ((t ≡ s) × (b ≡ p)) ⊎ (b ∈ w t)
mem_joins s p w t b i = elim (Bool-cases (t == s)) [
  | inl e ↦ elim (Bool-cases (b == p)) [
    | inl f ↦ inl ((==_iff t s).0 e, (==_iff b p).0 f)
    | inr n ↦ inr (ground (arith, i, has-append b (w t) (p ∷ [])))
  ]
  | inr n ↦ inr (rw n at i)
]

module _ {k : Kernel} {w : Ptr → List Ptr} {rs fs : List Ptr} (s p : Ptr) (l : HasLists k w rs fs)
    (o : IsOut p w rs fs) where
  -- What is not in the queue of `s`, nor the process itself.
  outside :
      (xs : List Ptr) → p ∉ xs → ((b : Ptr) → b ∈ xs → b ∉ w s) → (b : Ptr) → b ∈ xs → b ∉ (p ∷ w s)
  outside xs n out b i = let m = ne_test (ne_of_mem xs i n) in rw m (out b i)

  elsewhere : (t : Ptr) → t ≢ s → (b : Ptr) → b ∈ w t → b ∉ w s
  elsewhere t n b i = elim (Bool-cases (has b (w s))) [
    | inl j ↦ absurd (n (sym (l.owner t b i) ∙ l.owner s b j))
    | inr u ↦ u
  ]

  ready_outside : (b : Ptr) → b ∈ rs → b ∉ (p ∷ w s)
  ready_outside = outside rs o.unready (apart_sym (w s) rs (l.unready s))

  free_outside : (b : Ptr) → b ∈ fs → b ∉ (p ∷ w s)
  free_outside = outside fs o.used (apart_sym (w s) fs (l.used s))

  module _ {ds : List Ptr} (q : (t : Ptr) → t ≢ max_int → Waits k.asl ds t (w t)) (full : Bool)
      (a : Asl) (m : Blocks k.asl ds s p (w s) full a) where
    joins-Waits : (t : Ptr) → t ≢ max_int → Waits a m.active t (joins s p w t)
    joins-Waits t mt = elim (Bool-cases (t == s)) [
      | inl e ↦ rw ((==_iff t s).0 e, ==_refl) m.queue
      | inr e ↦
          let n = ne_of_test e in
          rw e (m.others t (w t) n (outside (w t) (o.unwaiting t) (elsewhere t n)) (q t mt))
    ]

    -- A process that is in none of the lists has joined the queue of a semaphore.
    pub Blocks-HasLists :
        s ≢ null
        → s ≢ max_int
        → length (w s) < max_proc
        → HasLists (record k { asl = a }) (joins s p w) rs fs
    Blocks-HasLists real named room = record {
      ready = m.spared k.ready_queue rs ready_outside l.ready;
      short = l.short;
      waiters = record {
        active = m.active;
        free = m.free;
        asl = m.asl;
        waits = joins-Waits;
        unnamed = rw (ne_test (λ e. named (sym e))) l.waiters.unnamed;
      };
      few = λ t. elim (Bool-cases (t == s)) [
        | inl e ↦ rw ((==_iff t s).0 e, ==_refl) (omega (arith, room, length-append (w s) (p ∷ [])))
        | inr e ↦ rw e (l.few t)
      ];
      owner = λ t b i. elim (mem_joins s p w t b i) [
        | inl (et, eb) ↦ rw (et, eb) m.sem
        | inr j ↦
            ap (λ (h : Store). h.p_sem_add b) m.rest
            ∙ upd-ne k.asl.pcbs.p_sem_add s (ne_of_mem (w t) j (o.unwaiting t))
            ∙ l.owner t b j
      ];
      real = λ t b i. elim (mem_joins s p w t b i) [
        | inl (et, eb) ↦ rw et real
        | inr j ↦ l.real t b j
      ];
      free = record {
        chain = rw (ap (λ (h : Store). h.free_h) m.rest) (
            FreeChain-frame k.asl.pcbs.p_next a.pcbs.p_next k.asl.pcbs.free_h fs
              (λ b i. m.nexts b (free_outside b i)) l.free.chain);
        distinct = l.free.distinct;
      };
      apart = l.apart;
      unready = λ t b i. elim (mem_joins s p w t b i) [
        | inl (et, eb) ↦ rw eb o.unready
        | inr j ↦ l.unready t b j
      ];
      used = λ t b i. elim (mem_joins s p w t b i) [
        | inl (et, eb) ↦ rw eb o.used
        | inr j ↦ l.used t b j
      ];
    }

-- The process that the scheduler takes has left the ready queue, and no other list changes.
pub Dispatches-HasLists :
    {k : Kernel} {w : Ptr → List Ptr} {y : Ptr} {ys fs : List Ptr} (how : Stop) (g : Kernel)
    → HasLists k w (y ∷ ys) fs
    → Dispatches k y ys how g
    → HasLists g w ys fs
Dispatches-HasLists {k} {w} {y} {ys} {fs} how g l z =
    let asl : g.asl ≡ record (k.asl) { pcbs = g.asl.pcbs } = ap (λ (x : Kernel). x.asl) z.rest in
    record {
      ready = z.ready;
      short = omega (arith, l.short);
      waiters =
          subst (λ a. HasWaiters a w) (sym asl)
            (HasWaiters-Requeues z.requeues l.unready l.waiters);
      few = l.few;
      owner = λ s b i. ap (λ (h : Store). h.p_sem_add b) z.requeues.rest ∙ l.owner s b i;
      real = l.real;
      free = record {
        chain = rw (ap (λ (h : Store). h.free_h) z.requeues.rest) (
            FreeChain-frame k.asl.pcbs.p_next g.asl.pcbs.p_next k.asl.pcbs.free_h fs
              (λ b i. z.requeues.nexts b (l.apart b i)) l.free.chain);
        distinct = l.free.distinct;
      };
      apart = λ b i. let u = l.apart b i in ground arith;
      unready = λ s b i. let u = l.unready s b i in ground arith;
      used = l.used;
    }
