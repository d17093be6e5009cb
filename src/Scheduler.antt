-- ===== src/Scheduler.antt =====
-- phase3/scheduler.c.
pub mod Choice
use pandos.Prelude.{ℕ, Bool, not, ◌-◌, ◌==◌, if◌then◌else◌}
use Prim.Native.Nat.{bit_and, bit_or}
use pandos.Prelude.Word.{word_mod, is_nonpos}
use pandos.Types.{null}
use pandos.Run.{ok, stop, halt, panic, wait, ldst, Cmd, pure, ◌>>=◌, ◌>>◌, leave}
use pandos.Kernel.{Kernel, K, remove_ready, set_current_process, set_timer, get_p_s}

-- ((IECON | IM) & TIMEROFF) & ~TEBITON
abbrev pub wait_status : ℕ
wait_status = bit_and (bit_and (bit_or 0x1 0xff00) 0xffff_fcff) (word_mod - 1 - 0x0800_0000)

-- `scheduler` with the pcb that `removeProcQ` gave.
pub dispatch : {A : Type 0} → (p : ℕ) → K A
dispatch p k =
    if p == null
    then (if k.process_count == 0
        then stop halt k
        else if not (is_nonpos k.soft_block_count)
        then stop (wait wait_status) k
        else stop panic k)
    else (do set_timer 5000; s ← get_p_s p; leave (ldst s)) k

-- It never returns, so its result may have any type.
unfoldable pub scheduler : {A : Type 0} → K A
unfolding dispatch
scheduler = do p ← remove_ready; set_current_process p; dispatch p
