-- ===== src/Interrupts/Plt.antt =====
-- The time slice: `handlePLTInterrupt` is round robin.
use pandos.Prelude.{
  ℕ, ◌<◌, ◌≡◌, refl, ap, ◌∙◌, ◌≢◌, List, [], ◌∷◌, ◌++◌, length, length-append, arith, ◌==◌,
  if◌then◌else◌, ◌∉◌,
}
use mathlib.Core.Path.{subst}
use pandos.Types.{null, max_proc}
use pandos.Run.{ldst, Returns-ok, Stops, Stops-mono}
use pandos.Pcb.{Store, upd}
use pandos.Pcb.Access.{ne_test, at-ok}
use pandos.Pcb.Ring.{IsProcQ, IsProcQ-links}
use pandos.Pcb.Queue.{insert_proc_q-append}
use pandos.Kernel.{Kernel}
use pandos.Exceptions.Time.{timed, update_cpu_time-ok}
use pandos.Scheduler.Choice.{IsReady, scheduler-Dispatches}
use pandos.Interrupts.{handle_plt_interrupt}

-- When its time slice ends the current process, which is not in the ready queue, goes to the end of
-- that queue, and the process that is then first is loaded with a slice of 5000 and is the current
-- one. The saved state is in the pcb of the preempted process, and the states in the other pcbs are
-- as they were. Fewer than `max_proc` others are ready.
pub handle_plt_interrupt-rotate :
    {A : Type 0} (k : Kernel) {xs : List ℕ} (y : ℕ) (ys : List ℕ)
    → IsReady k xs
    → length xs < max_proc
    → k.current_process ≢ null
    → k.current_process ∉ xs
    → xs ++ (k.current_process ∷ []) ≡ y ∷ ys
    → Stops {A = A}
        (λ how g.
          (how ≡ ldst (if y == k.current_process then k.saved else k.asl.pcbs.p_s y))
          × (g.current_process ≡ y)
          × (g.timer ≡ 5000)
          × IsReady g ys
          × (g.asl.pcbs.p_s ≡ upd k.asl.pcbs.p_s k.current_process k.saved))
        (handle_plt_interrupt k)
unfolding handle_plt_interrupt upd
handle_plt_interrupt-rotate k {xs} y ys r short n o e =
    let cur : ℕ = k.current_process in
    let k1 : Kernel = record k {
      timer = 5000;
      asl = record (k.asl) { pcbs = record (k.asl.pcbs) { p_s = upd k.asl.pcbs.p_s cur k.saved } };
    } in
    let k2 : Kernel = timed k1 in
    let (t, g, inserted, m) =
      Returns-ok (insert_proc_q-append cur (IsProcQ-links k2.asl.pcbs refl refl r) n o) in
    let k3 : Kernel = record k2 { asl = record (k2.asl) { pcbs = g }; ready_queue = t } in
    let s = ap (λ (h : Store). h.p_s) m.2.rest in
    rw (ne_test n, at-ok n, update_cpu_time-ok k1 n, inserted)
      (Stops-mono
        (scheduler-Dispatches k3 (subst (λ zs. IsProcQ g t zs) e m.1)
          (omega (arith, ap length e, length-append xs (cur ∷ []))))
        λ how f z. (
          z.loaded ∙ ap (λ f. ldst (f y)) s,
          z.current,
          z.slice,
          z.ready,
          ap (λ (h : Store). h.p_s) z.requeues.rest ∙ s,
        ))
