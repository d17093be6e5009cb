-- ===== src/Exceptions/WaitIo.antt =====
-- `sysWaitIO`.
use pandos.Prelude.{ℕ, ◌<◌, ◌≡◌, ◌≢◌, ◌⊎◌, true, List, ◌∷◌, length, ◌∈◌, ◌∉◌}
use pandos.Prelude.Word.{add32, sub32, is_neg}
use pandos.Types.{Ptr, null, max_proc}
use pandos.Run.{Stops, Stops-bind}
use pandos.Asl.Search.{lookup}
use pandos.Asl.Activate.{IsAsl}
use pandos.Asl.Waiting.{Waits}
use pandos.Kernel.{Kernel, Layout}
use pandos.Scheduler.Choice.{IsReady}
use pandos.Exceptions.{device_semaphore, wait_index, sys_wait_io}
use pandos.Exceptions.Sleep.{Sleeps, sys_passeren-Sleeps}

-- One more process waits for a device.
abbrev pub soft_blocked : Kernel → Kernel
soft_blocked k = record k { soft_block_count = add32 k.soft_block_count 1 }

-- The semaphore of a device.
abbrev pub semaphore_of : Layout → (line dev sub : ℕ) → Ptr
semaphore_of l line dev sub = device_semaphore l (wait_index line dev sub)

-- Where the semaphore of the device, whose address is not 0, becomes negative, `sysWaitIO` counts
-- the caller as soft-blocked, saves its state, puts it at the end of the queue of that semaphore
-- and loads the first ready process. The ASL is well-formed, with a descriptor for the semaphore
-- or a free one, the caller neither waits for the semaphore nor is ready before, and no process
-- is both; at most `max_proc` are ready.
pub sys_wait_io-Sleeps :
    (l : Layout) (k : Kernel) {ds fs xs : List Ptr} {y : Ptr} {ys : List Ptr} (line dev sub : ℕ)
    → IsAsl k.asl ds fs
    → Waits k.asl ds (semaphore_of l line dev sub) xs
    → 0 < semaphore_of l line dev sub
    → (lookup k.asl.s_sem_add (semaphore_of l line dev sub) ds ≢ null) ⊎ (0 < length fs)
    → IsReady k (y ∷ ys)
    → length ys < max_proc
    → k.current_process ≢ null
    → k.current_process ∉ xs
    → k.current_process ∉ (y ∷ ys)
    → ((b : Ptr) → b ∈ (y ∷ ys) → b ∉ xs)
    → is_neg (sub32 (k.sem (semaphore_of l line dev sub)) 1) ≡ true
    → Stops
        (Sleeps (soft_blocked k) (semaphore_of l line dev sub) xs y ys)
        (sys_wait_io l line dev sub k)
unfolding sys_wait_io
sys_wait_io-Sleeps l k line dev sub v w lo room r short n ox oy out low = Stops-bind _ (
    sys_passeren-Sleeps (soft_blocked k) (semaphore_of l line dev sub) v w lo room r short n ox oy
      out low)
