-- ===== src/Support.antt =====
-- The state of the support level: the globals of phase3/vmSupport.c, initProc.c and delayDaemon.c,
-- the support structures and delay descriptors, one map for each field, and the processor registers
-- that these files read and write. It stands on the nucleus' state.
pub mod Number
pub mod Quiet
use pandos.Prelude.{
  ℕ, ◌+◌, ◌-◌, ◌%◌, ◌^◌, Bool, true, false, ◌&&◌, List, [], ◌∷◌, ◌==◌, if◌then◌else◌, ◌≡◌,
}
use pandos.Prelude.Word.{add32, mul32, clear_low}
use pandos.Types.{Ptr, null, State, set_reg, v0}
use pandos.Run.{Run, ok, fault, Cmd, pure, ◌>>=◌, ◌>>◌, zoom, leave, ldst}
use pandos.Pcb.{upd}
use pandos.Kernel.{Kernel, K, set_dev, get_p_support_struct}

-- `swapPoolEntry_t`.
pub record SwapEntry : Type 0 where
  pub asid : ℕ
  pub vpn : ℕ
  pub occupied : ℕ

-- What the level does that others can see: a device register written, a SYSCALL made.
pub data Event : Type 0 where
  wrote : (address value : ℕ) → Event
  called : (number x1 x2 x3 : ℕ) → Event

-- `sup_exceptState`, `sup_exceptContext` and `sup_pageTable` of a support structure are in the
-- kernel's state. `mem` holds the bytes of memory, `tlb_at` the TLB, `trace` the events, the last one
-- first.
pub record Support : Type 0 where
  pub kernel : Kernel
  pub swap_pool : ℕ → SwapEntry
  pub swap_index : ℕ
  pub asid_process_table : ℕ → Ptr
  pub support_free_list : Ptr
  pub sup_asid : Ptr → ℕ
  pub sup_next : Ptr → Ptr
  pub d_next : Ptr → Ptr
  pub d_wake_time : Ptr → ℕ
  pub d_sup_struct : Ptr → Ptr
  pub delayd_h : Ptr
  pub delayd_free_h : Ptr
  pub mem : ℕ → ℕ
  pub status : ℕ
  pub entry_hi : ℕ
  pub tlb_at : ℕ → ℕ × ℕ
  pub trace : List Event

-- Addresses that the linker decides: the semaphores, `sup_privateSem` of a support structure, `p_s`
-- of a pcb, and three functions.
pub record Places : Type 0 where
  pub swap_pool_sem : Ptr
  pub master_semaphore : Ptr
  pub printer_sem : ℕ → Ptr
  pub term_read_sem : ℕ → Ptr
  pub term_write_sem : ℕ → Ptr
  pub adl_sem : Ptr
  pub private_sem : Ptr → Ptr
  pub state_of_pcb : Ptr → Ptr
  pub pager_handler : ℕ
  pub support_gen_exception_handler : ℕ
  pub delay_daemon : ℕ

abbrev pub S : Type 0 → Type 0
S A = Cmd Support A

-- The SYSCALL instruction, with what the nucleus and the other processes do until it returns, and the
-- INDEX register that TLBP gives for an EntryHi.
pub record System : Type 0 where
  pub call : (number x1 x2 x3 : ℕ) → S ℕ
  pub probe : (entry_hi : ℕ) → Support → ℕ

abbrev pub reads : {A : Type 0} → (Support → A) → S A
reads f s = ok (f s) s

abbrev pub log : Event → S (Unit {0})
log e s = ok tt (record s { trace = e ∷ s.trace })

unfoldable pub syscall : System → (number x1 x2 x3 : ℕ) → S ℕ
syscall y number x1 x2 x3 = do log (called number x1 x2 x3); y.call number x1 x2 x3

abbrev pub on_kernel : {A : Type 0} → K A → S A
on_kernel m = zoom (λ s. s.kernel) (λ k s. record s { kernel = k }) m

-- A SYSCALL whose result is not used.
abbrev pub syscall_ : System → (number x1 x2 x3 : ℕ) → S (Unit {0})
syscall_ y number x1 x2 x3 = do syscall y number x1 x2 x3; pure tt

-- Device registers.
abbrev pub get_dev : ℕ → S ℕ
get_dev a s = ok (s.kernel.dev a) s

unfoldable pub put_dev : (address value : ℕ) → S (Unit {0})
put_dev a v = do log (wrote a v); on_kernel (set_dev a v)

-- An access through a pointer to a support structure or a delay descriptor: a fault at NULL.
unfoldable pub through : Ptr → S (Unit {0})
through p s = if p == null then fault else ok tt s

-- `setSTATUS(getSTATUS() & ~IECON)` and `setSTATUS(getSTATUS() | IECON)`.
abbrev pub disable_interrupts : S (Unit {0})
disable_interrupts s = ok tt (record s { status = clear_low s.status 1 })

abbrev pub enable_interrupts : S (Unit {0})
enable_interrupts s = ok tt (record s { status = clear_low s.status 1 + 1 })

-- `sup_exceptState[i]`, and the register v0 in it.
abbrev pub get_except_state : Ptr → ℕ → S State
get_except_state p i s = ok (s.kernel.except_state p i) s

abbrev pub put_except_state : Ptr → ℕ → State → S (Unit {0})
put_except_state p i v s = ok tt (record s {
  kernel = record (s.kernel) {
    except_state = λ q j. if (q == p) && (j == i) then v else s.kernel.except_state q j;
  };
})

abbrev pub put_v0 : Ptr → ℕ → ℕ → S (Unit {0})
put_v0 p i v = do t ← get_except_state p i; put_except_state p i (set_reg v0 v t)

-- The process that runs, and its support structure.
abbrev pub current_support : S Ptr
current_support = do p ← reads λ s. s.kernel.current_process; on_kernel (get_p_support_struct p)

-- `LDST(&support->sup_exceptState[i])`.
abbrev pub resume : {A : Type 0} → Ptr → ℕ → S A
resume p i = do t ← get_except_state p i; leave (ldst t)

-- `sup_pageTable[i]`, of 32 entries; an index outside is a fault.
abbrev pub page_table_size : ℕ
page_table_size = 32
