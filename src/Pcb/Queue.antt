-- ===== src/Pcb/Queue.antt =====
-- The process queues of phase3/pcb.c as FIFO lists.
use pandos.Prelude.{
  ◌≡◌, refl, ◌≢◌, List, [], ◌∷◌, ◌++◌, arith, ◌∈◌, ◌∉◌, has-append, Distinct-snoc, mem_snoc,
  ne_of_mem,
}
use pandos.Types.{Ptr, null}
use pandos.Run.{Returns, returns}
use pandos.Pcb.{Store, upd, insert_proc_q}
use pandos.Pcb.Access.{ne_test, read-ok, at-ok, upd-ne}
use pandos.Pcb.Ring.{
  next, IsProcQ, none_queued, ring, next-mem_snoc, LinksBehind, LinksBehind-Chain,
}

-- `g` differs from `h` at most in the queue links of the pcbs `xs`.
pub record Requeues (xs : List Ptr) (h g : Store) : Type 0 where
  pub nexts : (b : Ptr) → b ∉ xs → g.p_next b ≡ h.p_next b
  pub prevs : (b : Ptr) → b ∉ xs → g.p_prev b ≡ h.p_prev b
  pub rest : g ≡ record h { p_next = g.p_next; p_prev = g.p_prev }

-- `insertProcQ` puts a pcb that is not NULL and not in the queue at the end of it, and returns it
-- as the tail. It writes only the links of the pcbs in the queue and of the new one.
pub insert_proc_q-append :
    {h : Store} {tp : Ptr} {xs : List Ptr} (p : Ptr)
    → IsProcQ h tp xs
    → p ≢ null
    → p ∉ xs
    → Returns
        (λ t g. (t ≡ p) × IsProcQ g t (xs ++ (p ∷ [])) × Requeues (p ∷ xs) h g)
        (insert_proc_q tp p h)
unfolding insert_proc_q upd
insert_proc_q-append {h} p none_queued np out =
    rw (ne_test np, at-ok np, at-ok np)
      (returns (
        refl,
        ring [] refl (ground arith) (ground arith) (ground arith),
        record { nexts = λ b o. ground arith; prevs = λ b o. ground arith; rest = refl },
      ))
insert_proc_q-append {h} {xs} p (ring {t} ys e d nn c) np out =
    let o : p ∉ (ys ++ (t ∷ [])) = rw (← e) out in
    let tm : t ∈ xs = rw e (mem_snoc ys t) in
    let fm : next h t ∈ xs = rw e (next-mem_snoc h t ys t c) in
    let nt : t ≢ null = ne_of_mem xs tm nn in
    let tp : t ≢ p = ne_of_mem xs tm out in
    let nf : next h t ≢ null = ne_of_mem xs fm nn in
    let g : Store = record h {
      p_next = upd (upd h.p_next p (next h t)) t p;
      p_prev = upd (upd h.p_prev p t) (next h t) p;
    } in
    let w : LinksBehind t p h g = record { nexts = λ b. ground arith; prevs = λ b. ground arith } in
    rw
      (
        ne_test np,
        ne_test nt,
        read-ok nt,
        at-ok np,
        at-ok np,
        read-ok nt,
        upd-ne _ _ tp,
        at-ok nf,
        at-ok nt,
      )
      (returns {s = g} (
        refl,
        ring xs refl (Distinct-snoc xs p d out) (ground (arith, has-append null xs (p ∷ [])))
            (rw e (LinksBehind-Chain h g t p ys w (rw (← e) d) o c)),
        record { nexts = λ b k. ground arith; prevs = λ b k. ground arith; rest = refl },
      ))
