-- ===== src/Exceptions/Sleep.antt =====
-- `sysPasseren` where the caller has to wait.
use pandos.Prelude.{
  ◌<◌, ◌≡◌, refl, sym, ap, ◌∙◌, ◌≢◌, Bool, true, List, [], ◌∷◌, ◌++◌, arith, length, Bool-cases,
  inl, inr, ◌⊎◌, ne_of_mem, ◌∈◌, ◌∉◌, has, has-append,
}
use pandos.Prelude.Word.{sub32, is_neg}
use mathlib.Core.Path.{subst}
use pandos.Types.{Ptr, null, max_proc}
use pandos.Run.{Stop, ldst, Stops, Stops-mono, Returns-ok}
use pandos.Pcb.{Store, upd}
use pandos.Pcb.Access.{ne_test, at-ok, upd_self, upd-ne}
use pandos.Pcb.Ring.{IsProcQ-links}
use pandos.Asl.{Asl}
use pandos.Asl.Search.{lookup}
use pandos.Asl.Activate.{IsAsl}
use pandos.Asl.Waiting.{Waits, IsAsl-lists, Requeues-IsProcQ}
use pandos.Asl.Block.{Blocks, insert_blocked-Blocks}
use pandos.Kernel.{Kernel}
use pandos.Scheduler.{scheduler}
use pandos.Scheduler.Choice.{IsReady, Dispatches, scheduler-Dispatches}
use pandos.Exceptions.{block, sys_passeren}
use pandos.Exceptions.Time.{timed, update_cpu_time-ok}

-- The current process waits for `s`, behind `xs`, with its state saved, and `y` runs.
pub record Sleeps (k : Kernel) (s : Ptr) (xs : List Ptr) (y : Ptr) (ys : List Ptr) (how : Stop)
    (g : Kernel) : Type 0 where
  pub loaded : how ≡ ldst (k.asl.pcbs.p_s y)
  pub current : g.current_process ≡ y
  pub value : g.sem ≡ upd k.sem s (sub32 (k.sem s) 1)
  pub ready : IsReady g ys
  pub active : List Ptr
  pub free : List Ptr
  pub asl : IsAsl g.asl active free
  pub queue : Waits g.asl active s (xs ++ (k.current_process ∷ []))
  pub saved : g.asl.pcbs.p_s k.current_process ≡ k.saved
  pub counts : (g.soft_block_count ≡ k.soft_block_count) × (g.process_count ≡ k.process_count)

-- The memory when the caller's state has been saved.
abbrev pub put_away : Kernel → Ptr → Store
put_away k s =
    let h : Store = (timed k).asl.pcbs in
    record h {
      p_s = upd h.p_s k.current_process k.saved;
      p_sem_add = upd h.p_sem_add k.current_process s;
    }

abbrev pub away : Kernel → Ptr → Kernel
away k s = record (timed k) {
  sem = upd k.sem s (sub32 (k.sem s) 1);
  asl = record (k.asl) { pcbs = put_away k s };
}

apart :
    (p : Ptr) (xs ys : List Ptr)
    → p ∉ ys
    → ((b : Ptr) → b ∈ ys → b ∉ xs)
    → (b : Ptr) → b ∈ (xs ++ (p ∷ []))
    → b ∉ ys
apart p xs ys o out b i = elim (Bool-cases (has b ys)) [
  | inl j ↦
      let n = out b j in
      let ne : b ≢ p = ne_of_mem ys j o in ground (arith, has-append b xs (p ∷ []))
  | inr n ↦ n
]

apart_cons :
    (p : Ptr) (xs ys : List Ptr)
    → p ∉ ys
    → ((b : Ptr) → b ∈ ys → b ∉ xs)
    → (b : Ptr) → b ∈ ys
    → b ∉ (p ∷ xs)
apart_cons p xs ys o out b j =
    let n = out b j in let ne : b ≢ p = ne_of_mem ys j o in rw (ne_test ne) n

-- The caller is blocked by `insertBlocked`, and the scheduler runs then.
pub sys_passeren-block :
    (k : Kernel) {ds fs xs : List Ptr} (s : Ptr)
    → IsAsl k.asl ds fs
    → Waits k.asl ds s xs
    → 0 < s
    → (lookup k.asl.s_sem_add s ds ≢ null) ⊎ (0 < length fs)
    → k.current_process ≢ null
    → k.current_process ∉ xs
    → is_neg (sub32 (k.sem s) 1) ≡ true
    → (full : Bool) × (b : Asl) × Blocks (away k s).asl ds s k.current_process xs full b
      × (sys_passeren s k ≡ scheduler (record (away k s) { asl = b }))
unfolding sys_passeren block
sys_passeren-block k {ds} {fs} {xs} s v w lo room n ox low =
    let p : Ptr = k.current_process in
    let v0 = IsAsl-lists k.asl.s_proc_q (put_away k s) v in
    let (full, b, blocked, m) =
      Returns-ok
        (insert_blocked-Blocks s p v0 (IsProcQ-links (put_away k s) refl refl w) lo n ox room) in
    (
      full,
      b,
      m,
      rw
          (
            update_cpu_time-ok k n,
            upd_self k.sem s (sub32 (k.sem s) 1),
            low,
            at-ok n,
            at-ok n,
            blocked,
          )
          refl,
    )

pub sys_passeren-blocked :
    (k : Kernel) {ds fs xs : List Ptr} {y : Ptr} {ys : List Ptr} (s : Ptr)
    → IsAsl k.asl ds fs
    → Waits k.asl ds s xs
    → 0 < s
    → (lookup k.asl.s_sem_add s ds ≢ null) ⊎ (0 < length fs)
    → IsReady k (y ∷ ys)
    → length ys < max_proc
    → k.current_process ≢ null
    → k.current_process ∉ xs
    → k.current_process ∉ (y ∷ ys)
    → ((b : Ptr) → b ∈ (y ∷ ys) → b ∉ xs)
    → is_neg (sub32 (k.sem s) 1) ≡ true
    → (full : Bool) × (b : Asl) × Blocks (away k s).asl ds s k.current_process xs full b
      × Stops (Dispatches (record (away k s) { asl = b }) y ys) (sys_passeren s k)
sys_passeren-blocked k {xs} {y} {ys} s v w lo room r short n ox oy out low =
    let (full, b, m, e) = sys_passeren-block k s v w lo room n ox low in
    let r3 =
      m.spared k.ready_queue (y ∷ ys) (apart_cons k.current_process xs (y ∷ ys) oy out)
        (IsProcQ-links (put_away k s) refl refl r) in
    (full, b, m, rw e (scheduler-Dispatches (record (away k s) { asl = b }) r3 short))

-- P on a semaphore, whose address is not 0, that becomes negative saves the caller's state, puts
-- the caller at the end of the semaphore's queue and loads the first ready process. The ASL is
-- well-formed, with a descriptor for the semaphore or a free one, the caller neither waits for
-- the semaphore nor is ready before, and no process is both; at most `max_proc` are ready.
pub sys_passeren-Sleeps :
    (k : Kernel) {ds fs xs : List Ptr} {y : Ptr} {ys : List Ptr} (s : Ptr)
    → IsAsl k.asl ds fs
    → Waits k.asl ds s xs
    → 0 < s
    → (lookup k.asl.s_sem_add s ds ≢ null) ⊎ (0 < length fs)
    → IsReady k (y ∷ ys)
    → length ys < max_proc
    → k.current_process ≢ null
    → k.current_process ∉ xs
    → k.current_process ∉ (y ∷ ys)
    → ((b : Ptr) → b ∈ (y ∷ ys) → b ∉ xs)
    → is_neg (sub32 (k.sem s) 1) ≡ true
    → Stops (Sleeps k s xs y ys) (sys_passeren s k)
sys_passeren-Sleeps k {ds} {fs} {xs} {y} {ys} s v w lo room r short n ox oy out low =
    let p : Ptr = k.current_process in
    let (full, b, m, t) = sys_passeren-blocked k s v w lo room r short n ox oy out low in
    let yp : y ≢ p = ne_of_mem (y ∷ ys) (ground arith) oy in
    Stops-mono t λ how g z.
      let asl : g.asl ≡ record b { pcbs = g.asl.pcbs } = ap (λ (x : Kernel). x.asl) z.rest in
      let states : g.asl.pcbs.p_s ≡ upd k.asl.pcbs.p_s p k.saved =
        ap (λ (h : Store). h.p_s) z.requeues.rest ∙ m.states in
      record {
        loaded = z.loaded ∙ ap ldst (ap (λ f. f y) m.states ∙ upd-ne k.asl.pcbs.p_s k.saved yp);
        current = z.current;
        value = ap (λ (x : Kernel). x.sem) z.rest;
        ready = z.ready;
        active = m.active;
        free = m.free;
        asl =
            subst (λ a. IsAsl a m.active m.free) (sym asl)
              (IsAsl-lists b.s_proc_q g.asl.pcbs m.asl);
        queue =
            subst (λ a. Waits a m.active s (xs ++ (p ∷ []))) (sym asl)
              (Requeues-IsProcQ z.requeues (apart p xs (y ∷ ys) oy out) m.queue);
        saved = ap (λ f. f p) states ∙ upd_self k.asl.pcbs.p_s p k.saved;
        counts = (
          ap (λ (x : Kernel). x.soft_block_count) z.rest,
          ap (λ (x : Kernel). x.process_count) z.rest,
        );
      }
