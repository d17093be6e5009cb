-- ===== src/Exceptions/Rouse.antt =====
-- The first process that waits for a semaphore leaves its queue for the end of the ready queue.
use pandos.Prelude.{
  ◌<◌, ◌≡◌, sym, ap, ◌∙◌, ◌≢◌, List, ◌∷◌, arith, ◌==◌, ◌∈◌, ◌∉◌, has, length, ne_of_mem, apart_sym,
  erase, erase_head, erase_not-mem, mem_of_mem-erase, length-erase-le, Bool-cases, inl, inr, ==_iff,
  refl,
}
use pandos.Types.{Ptr, null, max_proc}
use pandos.Run.{ok, Returns-ok}
use pandos.Pcb.{Store, upd}
use pandos.Pcb.Access.{ne_of_test, upd-ne}
use pandos.Pcb.Pool.{FreeChain-frame}
use pandos.Asl.{Asl, max_int, remove_blocked}
use pandos.Asl.Waiting.{Waits}
use pandos.Asl.Unblock.{Unblocks, remove_blocked-Unblocks, member_real}
use pandos.Kernel.{Kernel}
use pandos.Exceptions.Lists.{HasLists, waits-Distinct, waits-ne}

-- The process `x` is in none of the lists, and the others are where they were.
pub record Roused (k : Kernel) (x : Ptr) (w : Ptr → List Ptr) (rs fs : List Ptr) (a : Asl)
    : Type 0 where
  pub lists : HasLists (record k { asl = a }) (λ t. erase x (w t)) rs fs
  pub real : x ≢ null
  pub unready : x ∉ rs
  pub used : x ∉ fs
  pub rest : a.pcbs ≡ record (k.asl.pcbs) {
    p_next = a.pcbs.p_next;
    p_prev = a.pcbs.p_prev;
    p_sem_add = upd k.asl.pcbs.p_sem_add x null;
  }

module _ {k : Kernel} {x : Ptr} {xs : List Ptr} {w : Ptr → List Ptr} {rs fs : List Ptr} (s : Ptr)
    (l : HasLists k w rs fs) (e : w s ≡ x ∷ xs) where
  mine : x ∈ w s
  mine = rw e (ground arith)

  few : length xs < max_proc
  few = omega (arith, ap length e, l.few s)

  -- The process is in no other queue, and the others are in no other queue either.
  elsewhere : (t : Ptr) → t ≢ s → (b : Ptr) → b ∈ w t → b ∉ (x ∷ xs)
  elsewhere t n b i = elim (Bool-cases (has b (w s))) [
    | inl j ↦ absurd (n (sym (l.owner t b i) ∙ l.owner s b j))
    | inr o ↦ rw e at o
  ]

  after : (t : Ptr) → t ≢ s → erase x (w t) ≡ w t
  after t n = erase_not-mem x (w t) (apart_sym (w t) (x ∷ xs) (elsewhere t n) x (ground arith))

  ready_apart : (b : Ptr) → b ∈ rs → b ∉ (x ∷ xs)
  ready_apart b i = let o = apart_sym (w s) rs (l.unready s) b i in rw e at o

  free_apart : (b : Ptr) → b ∈ fs → b ∉ (x ∷ xs)
  free_apart b i = let o = apart_sym (w s) fs (l.used s) b i in rw e at o

  Waits-after :
      (out : Ptr) (a : Asl) (u : Unblocks k.asl l.waiters.active s x xs out a) (t : Ptr)
      → t ≢ max_int
      → Waits a u.active t (erase x (w t))
  Waits-after out a u t mt = elim (Bool-cases (t == s)) [
    | inl i ↦ rw ((==_iff t s).0 i, e, erase_head x xs) u.queue
    | inr ne ↦
        let n = ne_of_test ne in
        rw (after t n) (u.others t (w t) n (elsewhere t n) (l.waiters.waits t mt))
  ]

  Unblocks-Roused :
      (out : Ptr) (a : Asl) → Unblocks k.asl l.waiters.active s x xs out a → Roused k x w rs fs a
  Unblocks-Roused out a u =
      let gone : (t b : Ptr) → b ∈ erase x (w t) → b ≢ x =
        λ t b i. ne_of_mem (erase x (w t)) i (waits-Distinct x t l.waiters) in
      let back : (t b : Ptr) → b ∈ erase x (w t) → b ∈ w t = λ t b. mem_of_mem-erase b x (w t) in
      record {
        lists = record {
          ready = u.spared k.ready_queue rs ready_apart l.ready;
          short = l.short;
          waiters = record {
            active = u.active;
            free = u.free;
            asl = u.asl;
            waits = Waits-after out a u;
            unnamed = rw l.waiters.unnamed refl;
          };
          few = λ t. omega (arith, l.few t, length-erase-le x (w t));
          owner = λ t b i.
              ap (λ (h : Store). h.p_sem_add b) u.rest
              ∙ upd-ne k.asl.pcbs.p_sem_add null (gone t b i)
              ∙ l.owner t b (back t b i);
          real = λ t b i. l.real t b (back t b i);
          free = record {
            chain = rw (ap (λ (h : Store). h.free_h) u.rest) (
                FreeChain-frame k.asl.pcbs.p_next a.pcbs.p_next k.asl.pcbs.free_h fs
                  (λ b i. u.nexts b (free_apart b i)) l.free.chain);
            distinct = l.free.distinct;
          };
          apart = l.apart;
          unready = λ t b i. l.unready t b (back t b i);
          used = λ t b i. l.used t b (back t b i);
        };
        real = member_real (rw e at (l.waiters.waits s (waits-ne l.waiters e)));
        unready = l.unready s x mine;
        used = l.used s x mine;
        rest = u.rest;
      }

  pub remove_blocked-Roused : (a : Asl) × (remove_blocked s k.asl ≡ ok x a) × Roused k x w rs fs a
  remove_blocked-Roused =
      let q = l.waiters.waits s (waits-ne l.waiters e) in
      let (out, a, f, u) = Returns-ok (remove_blocked-Unblocks s l.waiters.asl (rw e at q) few) in
      (a, f ∙ ap (λ p. ok p a) u.found, Unblocks-Roused out a u)
