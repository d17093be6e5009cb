-- ===== src/InitProc.antt =====
-- phase3/initProc.c, less `freeSupportStruct`. The structures of `supportStructPool` are given by their
-- addresses.
pub mod Pages
use pandos.Prelude.{ℕ, zero, suc, ◌+◌, ◌-◌, ◌*◌, ◌^◌, ◌==◌, ◌&&◌, if◌then◌else◌}
use pandos.Prelude.Word.{add32, sub32, mul32, shl, clear_low, is_neg}
use Prim.Native.Nat.{bit_or}
use pandos.Types.{Ptr, null, set_reg, t9, sp}
use pandos.Run.{ok, panic, pure, ◌>>=◌, ◌>>◌, leave}
use pandos.Pcb
use pandos.Pcb.{upd}
use pandos.Kernel.{
  Context, on_pcbs, get_p_s, set_p_s, set_p_support_struct, get_p_support_struct, set_sem,
}
use pandos.Exceptions.{general_except, pg_fault_except}
use pandos.Initial.{kernel_status, ram_top}
use pandos.Support.{
  Places, S, System, reads, on_kernel, syscall, syscall_, through, page_table_size,
}
use pandos.Support.Number
use pandos.Vm.{init_swap_pool, page_size}
use pandos.Delay.{init_adl}

abbrev pub uproc_max : ℕ
uproc_max = 8

-- The EntryHi and the EntryLo of a page table's entry.
unfoldable pub page_entry_hi : (asid i : ℕ) → ℕ
page_entry_hi asid i =
    let vpn : ℕ = if i == 31 then 0xbfff_f000 else add32 0x8000_0000 (mul32 i page_size) in
    bit_or (clear_low vpn 12) (shl asid 6)

unfoldable pub page_entry_lo : (i : ℕ) → ℕ
page_entry_lo i = if i == 1 then bit_or (2 ^ 9) (2 ^ 10) else 2 ^ 10

-- `sup_pageTable[i]` of a support structure.
abbrev pub put_page_entry : Ptr → (i hi lo : ℕ) → S (Unit {0})
put_page_entry p i hi lo s = ok tt (record s {
  kernel = record (s.kernel) {
    entry_hi = λ q j. if (q == p) && (j == i) then hi else s.kernel.entry_hi q j;
    entry_lo = λ q j. if (q == p) && (j == i) then lo else s.kernel.entry_lo q j;
  };
})

-- `n` rounds of the loop from `i` on.
pub page_loop : Ptr → (asid n i : ℕ) → S (Unit {0})
page_loop p asid zero i = pure tt
page_loop p asid (suc n) i = do
  put_page_entry p i (page_entry_hi asid i) (page_entry_lo i)
  page_loop p asid n (i + 1)

unfoldable pub init_page_table : Ptr → S (Unit {0})
unfolding page_loop
init_page_table p = do through p; asid ← reads λ s. s.sup_asid p; page_loop p asid page_table_size 0

unfoldable pub alloc_support_struct : S Ptr
alloc_support_struct = do
  head ← reads λ s. s.support_free_list
  if head == null
      then pure null
      else (do λ s. ok tt (record s { support_free_list = s.sup_next head }); pure head)

-- `sup_exceptContext[i]`.
abbrev pub put_context : Ptr → (i : ℕ) → Context → S (Unit {0})
put_context p i c s = ok tt (record s {
  kernel = record (s.kernel) {
    except_context = λ q j. if (q == p) && (j == i) then c else s.kernel.except_context q j;
  };
})

-- The two contexts that the nucleus passes exceptions up to.
unfoldable pub set_contexts : Places → Ptr → (i : ℕ) → S (Unit {0})
set_contexts l support i = do
  top ← reads λ s. ram_top s.kernel
  put_context support pg_fault_except (record {
    c_stack_ptr = sub32 top ((2 * i - 1) * page_size);
    c_status = kernel_status;
    c_pc = l.pager_handler;
  })
  put_context support general_except (record {
    c_stack_ptr = sub32 top (2 * i * page_size);
    c_status = kernel_status;
    c_pc = l.support_gen_exception_handler;
  })

-- The processor state that a user process starts in.
unfoldable pub set_start : Ptr → (i : ℕ) → S (Unit {0})
set_start p i = do
  state ← on_kernel (get_p_s p)
  on_kernel (
      set_p_s p (
        set_reg sp 0xc000_0000 (
          set_reg t9 0x8000_00b0 (record state {
            s_pc = 0x8000_00b0;
            s_status = bit_or kernel_status 0x8;
            s_entry_hi = bit_or state.s_entry_hi (shl i 6);
          }))))

-- The user process with the ASID `i`.
unfoldable pub init_uproc : Places → (i : ℕ) → S (Unit {0})
init_uproc l i = do
  p ← on_kernel (on_pcbs Pcb.alloc_pcb)
  if p == null then leave panic else do
    support ← alloc_support_struct
    if support == null then leave panic else do
      on_kernel (set_p_support_struct p support)
      λ s. ok tt (record s { sup_asid = upd s.sup_asid support i })
      on_kernel (set_sem (l.private_sem support) 0)
      init_page_table support
      λ s. ok tt (record s { asid_process_table = upd s.asid_process_table i p })
      set_contexts l support i
      set_start p i

-- `n` rounds of the loop from `i` on.
pub uproc_loop : Places → (n i : ℕ) → S (Unit {0})
uproc_loop l zero i = pure tt
uproc_loop l (suc n) i = do init_uproc l i; uproc_loop l n (i + 1)

unfoldable pub init_uprocs : Places → S (Unit {0})
unfolding uproc_loop
init_uprocs l = uproc_loop l uproc_max 1

-- The device semaphores of the level, `n` rounds from `i` on.
pub semaphore_loop : Places → (n i : ℕ) → S (Unit {0})
semaphore_loop l zero i = pure tt
semaphore_loop l (suc n) i = do
  on_kernel (set_sem (l.printer_sem i) 1)
  on_kernel (set_sem (l.term_read_sem i) 1)
  on_kernel (set_sem (l.term_write_sem i) 1)
  semaphore_loop l n (i + 1)

unfoldable pub init_phase3_resources : Places → (delayd_table : ℕ → Ptr) → S (Unit {0})
unfolding semaphore_loop
init_phase3_resources l delayd_table = do
  init_swap_pool
  on_kernel (set_sem l.swap_pool_sem 1)
  semaphore_loop l uproc_max 0
  init_adl l delayd_table

-- The free list of the support structures, `n` rounds from `i` on.
pub support_loop : (pool : ℕ → Ptr) → (n i : ℕ) → S (Unit {0})
support_loop pool zero i = pure tt
support_loop pool (suc n) i = do
  through (pool i)
  λ s. ok tt (record s { sup_next = upd s.sup_next (pool i) s.support_free_list })
  λ s. ok tt (record s { support_free_list = pool i })
  support_loop pool n (i + 1)

unfoldable pub init_support_structs : (pool : ℕ → Ptr) → S (Unit {0})
unfolding support_loop
init_support_structs pool = support_loop pool uproc_max 0

-- The first process: the user processes start, `n` rounds from `i` on; then it waits for them.
pub start_loop : System → Places → (n i : ℕ) → S (Unit {0})
start_loop y l zero i = pure tt
start_loop y l (suc n) i = do
  p ← reads λ s. s.asid_process_table i
  support ← on_kernel (get_p_support_struct p)
  result ← syscall y Number.create_process (l.state_of_pcb p) support 0
  if is_neg result then leave panic else start_loop y l n (i + 1)

pub wait_loop : System → Places → (n : ℕ) → S (Unit {0})
wait_loop y l zero = pure tt
wait_loop y l (suc n) = do syscall_ y Number.passeren l.master_semaphore 0 0; wait_loop y l n

unfoldable pub test : System → Places → S (Unit {0})
unfolding start_loop wait_loop
test y l = do
  start_loop y l uproc_max 1
  wait_loop y l uproc_max
  syscall_ y Number.terminate_process 0 0 0
