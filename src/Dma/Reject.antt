-- ===== src/Dma/Reject.antt =====
-- A device number that phase3/deviceSupportDMA.c rejects.
use pandos.Prelude.{ℕ, ◌^◌, ◌<◌, ◌≤◌, ◌≡◌, ◌≢◌, ◌∙◌, sym, ap, arith, true, ◌||◌, not, ◌∷◌}
use pandos.Prelude.Word.{is_neg, slt32}
use pandos.Types.{Ptr, null}
use pandos.Run.{stop, Stop, terminated, ◌>>=◌, ◌>>◌, Stops, Stops-bind, Stops-mono, Returns-Stops}
use pandos.Exceptions.PassUp.{support_of}
use pandos.Support.{Support, Places, called, S, System, syscall}
use pandos.Support.Number
use pandos.Support.Quiet.{IsQuiet, syscall-Called}
use pandos.Terminate.Release.{sup_terminate-Gone}
use pandos.Dma.{terminate_if, dma_write_disk, dma_read_disk, dma_write_flash, dma_read_flash}

-- The process has terminated, and these were all its events: no device register has been written, and
-- memory is unchanged.
pub record Rejected (l : Places) (s : Support) (x : Stop) (t : Support) : Type 0 where
  pub how : x ≡ terminated
  pub memory : t.mem ≡ s.mem
  pub trace :
      t.trace
      ≡ called Number.terminate_process 0 0 0
        ∷ called Number.verhogen l.master_semaphore 0 0
        ∷ called Number.get_support_ptr 0 0 0
        ∷ s.trace

out_of_range :
    (number : ℕ) → 8 ≤ number → number < 2 ^ 32 → (is_neg number || not (slt32 number 8)) ≡ true
out_of_range number ge lt = ground arith

module _ (y : System) (l : Places) (s : Support) (current : s.kernel.current_process ≢ null)
    (real : support_of s.kernel ≢ null)
    (support_ptr : IsQuiet y Number.get_support_ptr 0 0 0 (λ _. Unit))
    (v : IsQuiet y Number.verhogen l.master_semaphore 0 0 (λ _. Unit))
    (ends : (t : Support) → y.call Number.terminate_process 0 0 0 t ≡ stop terminated t)
    (number : ℕ) (large : 8 ≤ number) (word : number < 2 ^ 32) where
  first_check :
      {A : Type 0} (rest : Ptr → S A)
      → Stops (Rejected l s) (
          (do
            support ← syscall y Number.get_support_ptr 0 0 0
            terminate_if y l (is_neg number || not (slt32 number 8))
            rest support)
            s)
  first_check rest = Returns-Stops (syscall-Called y _ _ _ _ _ support_ptr s) λ r t (_, q).
      let c : t.kernel.current_process ≢ null =
        λ z. current (sym (ap (λ u. u.kernel.current_process) q.state ∙ q.current) ∙ z) in
      let p : support_of t.kernel ≢ null =
        λ z. real (sym (ap (λ u. support_of u.kernel) q.state ∙ q.support) ∙ z) in
      rw (out_of_range number large word) (
        Stops-bind _ (
          Stops-mono (sup_terminate-Gone y l t c p v ends) λ x u (e, g). record {
            how = e;
            memory = g.memory ∙ ap (λ u. u.mem) q.state;
            trace =
                g.trace
                ∙ ap
                    (λ u.
                      called Number.terminate_process 0 0 0
                      ∷ called Number.verhogen l.master_semaphore 0 0
                      ∷ u.trace)
                    q.state;
          }))

  -- Each of the four transfers, called with a device number that is not 0 to 7 as an `int`, terminates
  -- the process before it writes to a device or to memory.
  pub dma-Rejected :
      {A : Type 0} (block address : ℕ)
      → Stops (Rejected l s) (dma_write_disk y l {A = A} number block address s)
        × Stops (Rejected l s) (dma_read_disk y l {A = A} number block address s)
        × Stops (Rejected l s) (dma_write_flash y l {A = A} number block address s)
        × Stops (Rejected l s) (dma_read_flash y l {A = A} number block address s)
  unfolding dma_write_disk dma_read_disk dma_write_flash dma_read_flash
  dma-Rejected block address = (first_check _, first_check _, first_check _, first_check _)
