-- ===== src/Terminate.antt =====
-- `supTerminate` of phase3/sysSupport.c and `freeSupportStruct` of phase3/initProc.c.
pub mod Release
use pandos.Prelude.{ℕ, zero, suc, ◌+◌, ◌==◌, if◌then◌else◌}
use pandos.Types.{Ptr}
use pandos.Run.{ok, pure, ◌>>=◌, ◌>>◌}
use pandos.Support.{Places, S, System, reads, syscall_, through, current_support}
use pandos.Support.Number
use pandos.Pcb.{upd}
use pandos.Vm.{swap_pool_size, free_frame}

unfoldable pub free_support_struct : Ptr → S (Unit {0})
free_support_struct p = do
  through p
  λ s. ok tt (record s { sup_next = upd s.sup_next p s.support_free_list })
  λ s. ok tt (record s { support_free_list = p })

-- The frame is freed if it is the running process' own.
unfoldable pub release_frame : (i : ℕ) → S (Unit {0})
release_frame i = do
  entry ← reads λ s. s.swap_pool i
  if entry.occupied == 0 then pure tt else (do
    support ← current_support
    through support
    asid ← reads λ s. s.sup_asid support
    if entry.asid == asid then free_frame i else pure tt)

-- `n` rounds of the loop from `i` on.
pub release_frames : (n i : ℕ) → S (Unit {0})
release_frames zero i = pure tt
release_frames (suc n) i = do release_frame i; release_frames n (i + 1)

-- The callers go on if the system returns from the last SYSCALL, as in the source.
unfoldable pub sup_terminate : System → Places → S (Unit {0})
unfolding release_frames
sup_terminate y l = do
  release_frames swap_pool_size 0
  syscall_ y Number.verhogen l.master_semaphore 0 0
  support ← current_support
  free_support_struct support
  syscall_ y Number.terminate_process 0 0 0
