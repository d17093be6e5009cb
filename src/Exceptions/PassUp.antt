-- ===== src/Exceptions/PassUp.antt =====
-- `passUpOrDie` for a process that has a support structure, and the exceptions that lead there.
use pandos.Prelude.{ℕ, ◌≡◌, ◌≢◌, ◌≤◌, true, ◌&&◌, arith, ◌==◌, leb, if◌then◌else◌}
use pandos.Types.{Ptr, null, a0}
use pandos.Run.{Run, stop, ldcxt}
use pandos.Pcb.Access.{ne_test, read-ok}
use pandos.Kernel.{Kernel, Layout, K}
use pandos.Exceptions.{
  pass_up_or_die, exception_handler, exception_code, is_support_syscall, tlb_exception_handler,
  program_trap_handler, general_except, pg_fault_except,
}

-- The support structure of the current process.
abbrev pub support_of : Kernel → Ptr
support_of k = k.asl.pcbs.p_support_struct k.current_process

-- Control goes to the handler that the support structure names for the exception's type, and the
-- saved state is there.
abbrev pub passed_up : {A : Type 0} → (k : Kernel) (except_type : ℕ) → Run Kernel A
passed_up k t =
    let c = k.except_context (support_of k) t in
    stop (ldcxt c.c_stack_ptr c.c_status c.c_pc) (record k {
      except_state = λ s i. if (s == support_of k) && (i == t) then k.saved else k.except_state s i;
    })

module _ {A : Type 0} (l : Layout) (k : Kernel) (real : k.current_process ≢ null)
    (sup : support_of k ≢ null) where
  -- For a current process with a support structure `passUpOrDie` copies the saved state into the
  -- structure and loads the context that it names for the exception's type.
  pub pass_up_or_die-passed_up : (t : ℕ) → pass_up_or_die {A = A} l t k ≡ passed_up k t
  unfolding pass_up_or_die
  pass_up_or_die-passed_up t = rw (read-ok real, ne_test sup)

  -- For a current process with a support structure, an exception with code 1 to 3 (TLB) is passed
  -- up as a page fault; one with code 4 to 7 or 9 to 12 (program trap), and a SYSCALL from 9 on,
  -- as a general exception.
  pub exception_handler-passed_up :
      (interrupt : K A)
      → exception_code k.saved.s_cause ≢ 0
      → exception_code k.saved.s_cause ≤ 12
      → (exception_code k.saved.s_cause ≡ 8 → is_support_syscall (k.saved.s_reg a0) ≡ true)
      → exception_handler l interrupt k
        ≡ passed_up k
            (if leb (exception_code k.saved.s_cause) 3 then pg_fault_except else general_except)
  unfolding exception_handler tlb_exception_handler program_trap_handler
  exception_handler-passed_up interrupt ne le sys =
      rw (pass_up_or_die-passed_up pg_fault_except, pass_up_or_die-passed_up general_except)
        (ground arith)
