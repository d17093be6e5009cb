-- ===== src/Exceptions/Wake.antt =====
-- `sysVerhogen` where a process waits.
use pandos.Prelude.{
  ◌<◌, ◌≡◌, refl, ap, ◌∙◌, ◌≢◌, true, List, [], ◌∷◌, ◌++◌, arith, length, Bool-cases, inl, inr,
  ne_of_mem, ◌∈◌, ◌∉◌, has,
}
use pandos.Prelude.Word.{add32, is_nonpos}
use pandos.Types.{Ptr, null, max_proc}
use pandos.Run.{Returns, returns, Returns-ok}
use pandos.Pcb.{Store, upd}
use pandos.Pcb.Access.{ne_test, at-ok, upd_self}
use pandos.Pcb.Ring.{IsProcQ, ring, IsProcQ-links}
use pandos.Pcb.Queue.{insert_proc_q-append}
use pandos.Asl.Activate.{IsAsl}
use pandos.Asl.Waiting.{Waits, IsAsl-lists, Requeues-IsProcQ}
use pandos.Asl.Unblock.{remove_blocked-Unblocks, member_real}
use pandos.Kernel.{Kernel}
use pandos.Scheduler.Choice.{IsReady}
use pandos.Exceptions.{wake, sys_verhogen}

-- The process `x` has left the queue of `s`, which holds `xs`, for the end of the ready queue.
pub record Wakes (k : Kernel) (s x : Ptr) (xs rs : List Ptr) (g : Kernel) : Type 0 where
  pub value : g.sem ≡ upd k.sem s (add32 (k.sem s) 1)
  pub ready : IsReady g (rs ++ (x ∷ []))
  pub active : List Ptr
  pub free : List Ptr
  pub asl : IsAsl g.asl active free
  pub queue : Waits g.asl active s xs
  pub current : g.current_process ≡ k.current_process
  pub sem_add : g.asl.pcbs.p_sem_add x ≡ null

head_once : {h : Store} {t x : Ptr} {xs : List Ptr} → IsProcQ h t (x ∷ xs) → x ∉ xs
head_once (ring ys e d nn c) = d.0

fresh : (x : Ptr) (xs rs : List Ptr) → ((b : Ptr) → b ∈ rs → b ∉ (x ∷ xs)) → x ∉ rs
fresh x xs rs out = elim (Bool-cases (has x rs)) [
  | inl i ↦ let o = out x i in ground arith
  | inr o ↦ o
]

apart :
    (x : Ptr) (xs rs : List Ptr)
    → x ∉ xs
    → ((b : Ptr) → b ∈ rs → b ∉ (x ∷ xs))
    → (b : Ptr) → b ∈ xs
    → b ∉ (x ∷ rs)
apart x xs rs once out b i =
    let nx : b ≢ x = ne_of_mem xs i once in
    elim (Bool-cases (has b rs)) [
      | inl j ↦ let o = out b j in ground arith
      | inr o ↦ rw (ne_test nx) o
    ]

-- V on a semaphore that stays at or below 0 moves the first process that waits for it to the end
-- of the ready queue, and returns to the caller. The ASL is well-formed, and no ready process
-- waits for the semaphore, before; at most `max_proc` processes wait for it.
pub sys_verhogen-Wakes :
    (k : Kernel) {ds fs : List Ptr} {x : Ptr} {xs rs : List Ptr} (s : Ptr)
    → IsAsl k.asl ds fs
    → Waits k.asl ds s (x ∷ xs)
    → length xs < max_proc
    → IsReady k rs
    → ((b : Ptr) → b ∈ rs → b ∉ (x ∷ xs))
    → is_nonpos (add32 (k.sem s) 1) ≡ true
    → Returns (λ _ g. Wakes k s x xs rs g) (sys_verhogen s k)
unfolding sys_verhogen wake
sys_verhogen-Wakes k {x} {xs} {rs} s v w short r out low =
    let (p, a, removed, m) = Returns-ok (remove_blocked-Unblocks s v w short) in
    let nx : x ≢ null = member_real w in
    let h : Store = record (a.pcbs) { p_sem_add = upd a.pcbs.p_sem_add x null } in
    let ox : x ∉ rs = fresh x xs rs out in
    let (t, g, inserted, i) = Returns-ok (
      insert_proc_q-append x (IsProcQ-links h refl refl (m.spared k.ready_queue rs out r)) nx ox) in
    rw (upd_self k.sem s (add32 (k.sem s) 1), low, removed, m.found, ne_test nx, at-ok nx, inserted)
      (returns (record {
        value = refl;
        ready = i.1;
        active = m.active;
        free = m.free;
        asl = IsAsl-lists a.s_proc_q g m.asl;
        queue =
            Requeues-IsProcQ i.2 (apart x xs rs (head_once w) out)
              (IsProcQ-links h refl refl m.queue);
        current = refl;
        sem_add = ap (λ (f : Store). f.p_sem_add x) i.2.rest ∙ upd_self a.pcbs.p_sem_add x null;
      }))
