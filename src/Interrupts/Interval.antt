-- ===== src/Interrupts/Interval.antt =====
-- `handleIntervalTimerInterrupt`: the processes that wait for the pseudo-clock.
use pandos.Prelude.{
  ℕ, zero, suc, ◌+◌, ◌≤◌, ◌<◌, ◌≡◌, refl, ap, ◌∙◌, ◌≢◌, List, [], ◌∷◌, ◌++◌, arith, ◌==◌,
  if◌then◌else◌, length, length-append, erase, erase_head, without,
}
use mathlib.Core.List.{append_assoc, append-nil}
use pandos.Types.{Ptr, null, max_proc}
use pandos.Run.{ok, stop, ldst, Returns, returns, Returns-ok, Returns-mono}
use pandos.Pcb.{Store, upd, insert_proc_q}
use pandos.Prelude.Word.{mul32}
use pandos.Pcb.Access.{ne_test}
use pandos.Asl.{Asl, max_int, remove_blocked}
use pandos.Asl.Head.{head_blocked-head}
use pandos.Kernel.{Kernel, Layout}
use pandos.Scheduler.{scheduler}
use pandos.Exceptions.{device_semaphore, num_devices}
use pandos.Exceptions.Lists.{
  HasLists, HasLists-same, queued, insert_ready-HasLists, waits-Distinct, waits-ne,
}
use pandos.Exceptions.Rouse.{remove_blocked-Roused}
use pandos.Interrupts.{clock_interval, unblock_loop, handle_interval_timer_interrupt}

-- The pseudo-clock semaphore.
abbrev pub clock : Layout → Ptr
clock l = device_semaphore l num_devices

-- The processes `xs` have gone from the queues of the semaphores to the end of the ready queue.
pub record Released (k : Kernel) (xs : List Ptr) (w : Ptr → List Ptr) (rs fs : List Ptr)
    (g : Kernel) : Type 0 where
  pub lists : HasLists g (λ t. without xs (w t)) (rs ++ xs) fs
  pub states : g.asl.pcbs.p_s ≡ k.asl.pcbs.p_s
  pub rest : g ≡ record k { asl = g.asl; ready_queue = g.ready_queue }

unblock_loop-step :
    (l : Layout) (n : ℕ) (k : Kernel) (x : Ptr) (xs : List Ptr) {w : Ptr → List Ptr}
    {rs fs : List Ptr} (a : Asl) (tail : Ptr) (g : Store)
    → HasLists k w rs fs
    → w (clock l) ≡ x ∷ xs
    → x ≢ null
    → remove_blocked (clock l) k.asl ≡ ok x a
    → insert_proc_q k.ready_queue x a.pcbs ≡ ok tail g
    → unblock_loop l (suc n) k ≡ unblock_loop l n (queued (record k { asl = a }) tail g)
unfolding unblock_loop
unblock_loop-step l n k x xs a tail g b e real removed inserted =
    let q = b.waiters.waits (clock l) (waits-ne b.waiters e) in
    rw (
      head_blocked-head (clock l) b.waiters.asl.active (rw e at q),
      ne_test real,
      removed,
      ne_test real,
      inserted,
    )

unblock_loop-end :
    (l : Layout) (n : ℕ) (k : Kernel) {w : Ptr → List Ptr} {rs fs : List Ptr}
    → HasLists k w rs fs
    → clock l ≢ max_int
    → w (clock l) ≡ []
    → unblock_loop l (suc n) k ≡ ok tt k
unfolding unblock_loop
unblock_loop-end l n k b named e =
    let q = b.waiters.waits (clock l) named in
    rw (head_blocked-head (clock l) b.waiters.asl.active (rw e at q))

unblock_loop-Released :
    (l : Layout) (xs : List Ptr) (n : ℕ) (k : Kernel) (w : Ptr → List Ptr) (rs fs : List Ptr)
    → length xs < n
    → HasLists k w rs fs
    → clock l ≢ max_int
    → w (clock l) ≡ xs
    → length rs + length xs ≤ max_proc
    → Returns (λ _ g. Released k xs w rs fs g) (unblock_loop l n k)
unblock_loop-Released l xs zero k w rs fs fuel b named e room = absurd (omega arith)
unblock_loop-Released l [] (suc n) k w rs fs fuel b named e room =
    rw (unblock_loop-end l n k b named e)
      (returns (record { lists = rw (append-nil rs) b; states = refl; rest = refl }))
unblock_loop-Released l (x ∷ xs) (suc n) k w rs fs fuel b named e room =
    let (a, removed, r) = remove_blocked-Roused (clock l) b e in
    let (tail, g, inserted, q, s) =
      insert_ready-HasLists x r.lists (omega (arith, room)) r.real r.unready r.used
        (λ t. waits-Distinct x t b.waiters) in
    rw (unblock_loop-step l n k x xs a tail g b e r.real removed inserted) (
      Returns-mono
        (unblock_loop-Released l xs n (queued (record k { asl = a }) tail g) (λ t. erase x (w t))
          (rs ++ (x ∷ [])) fs (omega arith) q named (rw (e, erase_head x xs))
          (omega (arith, room, length-append rs (x ∷ []))))
        λ _ g' m. record {
          lists = rw (append_assoc rs (x ∷ []) xs) at m.lists;
          states = m.states ∙ ap (λ (h : Store). h.p_s) s ∙ ap (λ (h : Store). h.p_s) r.rest;
          rest = m.rest;
        })

-- The state in which `handleIntervalTimerInterrupt` starts its loop, and the one in which it ends.
abbrev pub reloaded : Kernel → Kernel
reloaded k = record k { interval_timer = mul32 clock_interval k.timescale }

abbrev pub ticked : Layout → Kernel → Kernel
ticked l g = record g { sem = upd g.sem (clock l) 0 }

interval_run :
    {A : Type 0} (l : Layout) (k g : Kernel)
    → unblock_loop l 21 (reloaded k) ≡ ok tt g
    → g.current_process ≡ k.current_process
    → g.saved ≡ k.saved
    → handle_interval_timer_interrupt {A = A} l k ≡ (
        if k.current_process == null
        then scheduler (ticked l g)
        else stop (ldst k.saved) (ticked l g))
unfolding handle_interval_timer_interrupt
interval_run l k g e ec es =
    rw e λ i. if ec i == null then scheduler (ticked l g) else stop (ldst (es i)) (ticked l g)

-- When the interval timer ends, and not more than `max_proc` processes are ready or wait for the
-- pseudo-clock, whose semaphore is not at MAXINT, its handler reloads the timer, puts all processes that wait for the clock at the end
-- of the ready queue, in the order in which they wait, sets the pseudo-clock semaphore to 0, and goes
-- back to the current process, or calls the scheduler where there is none. No other queue changes, nor
-- the state of a process.
pub handle_interval_timer_interrupt-Released :
    {A : Type 0} (l : Layout) (k : Kernel) {w : Ptr → List Ptr} {rs fs : List Ptr}
    → HasLists k w rs fs
    → clock l ≢ max_int
    → length rs + length (w (clock l)) ≤ max_proc
    → (g : Kernel) × (handle_interval_timer_interrupt {A = A} l k ≡ (
        if k.current_process == null
        then scheduler (ticked l g)
        else stop (ldst k.saved) (ticked l g)))
      × Released (reloaded k) (w (clock l)) w rs fs g
handle_interval_timer_interrupt-Released l k {w} {rs} {fs} b named room =
    let (done, g, e, m) = Returns-ok (
      unblock_loop-Released l (w (clock l)) 21 (reloaded k) w rs fs (omega (arith, b.few (clock l)))
        (HasLists-same (reloaded k) refl refl b) named refl room) in
    (
      g,
      interval_run l k g e (ap (λ (h : Kernel). h.current_process) m.rest)
          (ap (λ (h : Kernel). h.saved) m.rest),
      m,
    )
