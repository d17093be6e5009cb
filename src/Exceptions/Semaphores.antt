-- ===== src/Exceptions/Semaphores.antt =====
-- `sysPasseren` and `sysVerhogen` where nobody has to wait.
use pandos.Prelude.{◌+◌, ◌-◌, ◌^◌, ◌<◌, ◌≡◌, ◌≢◌, false, arith}
use pandos.Prelude.Word.{add32, sub32, is_neg, is_nonpos}
use pandos.Types.{Ptr, null}
use pandos.Run.{ok}
use pandos.Pcb.{upd}
use pandos.Pcb.Access.{upd_self}
use pandos.Kernel.{Kernel}
use pandos.Exceptions.{sys_passeren, sys_verhogen}
use pandos.Exceptions.Time.{timed, update_cpu_time-ok}

-- For a current process, P on a semaphore that is positive as an `int` takes one off it and
-- returns to the caller, whose time is brought up to date; nothing else changes but the count of
-- clock reads.
pub sys_passeren-free :
    (k : Kernel) (s : Ptr)
    → k.current_process ≢ null
    → 0 < k.sem s
    → k.sem s < 2 ^ 31
    → sys_passeren s k ≡ ok tt (record (timed k) { sem = upd k.sem s (k.sem s - 1) })
unfolding sys_passeren
sys_passeren-free k s n lo hi =
    let less : sub32 (k.sem s) 1 ≡ k.sem s - 1 = omega arith in
    let sign : is_neg (k.sem s - 1) ≡ false = ground arith in
    rw (update_cpu_time-ok k n, less, upd_self k.sem s (k.sem s - 1), sign)

-- V on a semaphore that is not negative, and not the largest `int`, adds one to it and changes
-- nothing else.
pub sys_verhogen-free :
    (k : Kernel) (s : Ptr)
    → k.sem s + 1 < 2 ^ 31
    → sys_verhogen s k ≡ ok tt (record k { sem = upd k.sem s (k.sem s + 1) })
unfolding sys_verhogen
sys_verhogen-free k s hi =
    let more : add32 (k.sem s) 1 ≡ k.sem s + 1 = omega arith in
    let sign : is_nonpos (k.sem s + 1) ≡ false = ground arith in
    rw (more, upd_self k.sem s (k.sem s + 1), sign)
