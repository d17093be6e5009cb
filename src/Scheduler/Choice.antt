-- ===== src/Scheduler/Choice.antt =====
-- Whom the scheduler runs.
use pandos.Prelude.{
  ℕ, ◌<◌, ◌≡◌, refl, ap, ◌≢◌, ◌||◌, ◌^◌, leb, mem_snoc, List, [], ◌∷◌, length, arith, ◌==◌,
  if◌then◌else◌,
}
use pandos.Types.{null, max_proc}
use pandos.Run.{Stop, stop, halt, panic, wait, ldst, Returns-ok, Stops, stops}
use pandos.Pcb.{Store, remove_proc_q}
use pandos.Pcb.Access.{ne_test, read-ok}
use pandos.Pcb.Ring.{IsProcQ, none_queued, ring}
use pandos.Pcb.Queue.{Requeues}
use pandos.Pcb.Dequeue.{remove_proc_q-head}
use pandos.Kernel.{Kernel}
use pandos.Scheduler.{dispatch, scheduler, wait_status}

-- The ready queue holds the pcbs `xs`.
abbrev pub IsReady : Kernel → List ℕ → Type 0
IsReady k xs = IsProcQ k.asl.pcbs k.ready_queue xs

member_real : {h : Store} {t x : ℕ} {xs : List ℕ} → IsProcQ h t (x ∷ xs) → x ≢ null
member_real (ring ys e d nn c) = ground arith

empty_tail : {h : Store} {t : ℕ} → IsProcQ h t [] → t ≡ null
empty_tail none_queued = refl
empty_tail (ring {t} ys e d nn c) = cc (mem_snoc ys t)

-- The process `x` is loaded and current, with a time slice of 5000, and `xs` are still ready.
pub record Dispatches (k : Kernel) (x : ℕ) (xs : List ℕ) (how : Stop) (g : Kernel) : Type 0 where
  pub loaded : how ≡ ldst (k.asl.pcbs.p_s x)
  pub current : g.current_process ≡ x
  pub slice : g.timer ≡ 5000
  pub ready : IsReady g xs
  pub requeues : Requeues (x ∷ xs) k.asl.pcbs g.asl.pcbs
  pub rest : g ≡ record k {
    asl = record (k.asl) { pcbs = g.asl.pcbs };
    ready_queue = g.ready_queue;
    current_process = x;
    timer = 5000;
  }

-- With at most `max_proc` processes ready, the first one of the ready queue is loaded with a time
-- slice of 5000 and is the current process; the others stay in the queue in order, and nothing else changes but the links of these.
pub scheduler-Dispatches :
    {A : Type 0} (k : Kernel) {x : ℕ} {xs : List ℕ}
    → IsReady k (x ∷ xs)
    → length xs < max_proc
    → Stops {A = A} (Dispatches k x xs) (scheduler k)
unfolding scheduler dispatch
scheduler-Dispatches k {x} {xs} r short =
    let (out, g, e, m) = Returns-ok (remove_proc_q-head r short) in
    rw (e, m.0, ne_test (member_real r), read-ok (member_real r))
      (stops (record {
        loaded = ap (λ h. ldst (h.p_s x)) m.4.rest;
        current = refl;
        slice = refl;
        ready = m.1;
        requeues = m.4;
        rest = refl;
      }))

-- With no process ready the scheduler halts if there is no process at all, waits for an interrupt if
-- one is soft-blocked, and panics otherwise; no process is current then.
pub scheduler-nil :
    {A : Type 0} (k : Kernel)
    → IsReady k []
    → scheduler {A = A} k
      ≡ stop
          (if k.process_count == 0
            then halt
            else if (k.soft_block_count == 0) || leb (2 ^ 31) k.soft_block_count
            then panic
            else wait wait_status)
          (record k { current_process = null })
unfolding scheduler dispatch remove_proc_q
scheduler-nil k r = rw (empty_tail r) (ground arith)
