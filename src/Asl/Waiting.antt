-- ===== src/Asl/Waiting.antt =====
-- The processes that wait for a semaphore: the queue of its descriptor in an ASL.
use pandos.Prelude.{
  ◌≡◌, refl, sym, ap, ◌∙◌, ◌≢◌, List, [], ◌∷◌, arith, ◌==◌, if◌then◌else◌, Bool-cases, inl, inr,
  ◌∈◌, ◌∉◌, has, has-append, ==_refl, ==_iff, mem_cons,
}
use pandos.Types.{Ptr, null}
use pandos.Pcb.{Store}
use pandos.Pcb.Access.{ne_of_test}
use pandos.Pcb.Ring.{IsProcQ, none_queued, ring, Chain-frame}
use pandos.Pcb.Queue.{Requeues}
use pandos.Asl.{Asl}
use pandos.Asl.Search.{lookup}
use pandos.Asl.Activate.{IsAsl}

-- The tail pointer of the queue of a semaphore, NULL for one without a descriptor.
abbrev pub queue_of : Asl → List Ptr → Ptr → Ptr
queue_of a ds s =
    if lookup a.s_sem_add s ds == null then null else a.s_proc_q (lookup a.s_sem_add s ds)

-- The processes `xs` wait for the semaphore `s`.
abbrev pub Waits : Asl → List Ptr → Ptr → List Ptr → Type 0
Waits a ds s xs = IsProcQ a.pcbs (queue_of a ds s) xs

-- A queue is not touched by a change in the links of other pcbs.
pub Requeues-IsProcQ :
    {xs : List Ptr} {h g : Store} {t : Ptr} {ys : List Ptr}
    → Requeues xs h g
    → ((b : Ptr) → b ∈ ys → b ∉ xs)
    → IsProcQ h t ys
    → IsProcQ g t ys
Requeues-IsProcQ r out none_queued = none_queued
Requeues-IsProcQ {h} {g} r out (ring {t} zs e d nn c) = ring zs e d nn (
    Chain-frame h g t zs t
      (λ b i. r.nexts b (out b (ground (arith, ap (has b) e, has-append b zs (t ∷ [])))))
      (λ b i. r.prevs b (out b (ap (has b) e ∙ i))) c)

pub lookup-key :
    (key : Ptr → Ptr) (s : Ptr) (ds : List Ptr) → lookup key s ds ≢ null → key (lookup key s ds) ≡ s
lookup-key key s [] n = absurd (n refl)
lookup-key key s (d ∷ ds) n = elim (Bool-cases (key d == s)) [
  | inl e ↦ rw e ((==_iff (key d) s).0 e)
  | inr e ↦ rw e (lookup-key key s ds (rw e at n))
]

pub lookup-mem :
    (key : Ptr → Ptr) (s : Ptr) (ds : List Ptr) → lookup key s ds ≢ null → lookup key s ds ∈ ds
lookup-mem key s [] n = absurd (n refl)
lookup-mem key s (d ∷ ds) n = elim (Bool-cases (key d == s)) [
  | inl e ↦ let h : lookup key s (d ∷ ds) ≡ d = rw e in ap (λ c. has c (d ∷ ds)) h ∙ rw ==_refl
  | inr e ↦
      let h : lookup key s (d ∷ ds) ≡ lookup key s ds = rw e in
      ap (λ c. has c (d ∷ ds)) h ∙ mem_cons d (lookup key s ds) ds (lookup-mem key s ds (rw e at n))
]

pub IsAsl-lists :
    {a : Asl} {ds fs : List Ptr} (q : Ptr → Ptr) (h : Store)
    → IsAsl a ds fs
    → IsAsl (record a { s_proc_q = q; pcbs = h }) ds fs
IsAsl-lists q h v = record {
  active = record {
    head = v.active.head;
    chain = v.active.chain;
    sorted = v.active.sorted;
    short = v.active.short;
  };
  distinct = v.distinct;
  free = v.free;
  distinct_free = v.distinct_free;
  apart = v.apart;
  total = v.total;
}

-- Another semaphore has another descriptor, or none.
pub other_queue :
    (a b : Asl) (es : List Ptr) (s t : Ptr)
    → b.s_sem_add ≡ a.s_sem_add
    → ((c : Ptr) → c ≢ lookup a.s_sem_add s es → b.s_proc_q c ≡ a.s_proc_q c)
    → lookup a.s_sem_add s es ≢ null
    → t ≢ s
    → queue_of b es t ≡ queue_of a es t
other_queue a b es s t keys same nd ne =
    rw keys (elim (Bool-cases (lookup a.s_sem_add t es == null)) [
      | inl e ↦ rw e
      | inr e ↦
          let kt = lookup-key a.s_sem_add t es (ne_of_test e) in
          let ks = lookup-key a.s_sem_add s es nd in
          rw e (same (lookup a.s_sem_add t es) λ x. ne (sym kt ∙ ap a.s_sem_add x ∙ ks))
    ])
