-- ===== src/Exceptions.antt =====
-- phase3/exceptions.c. The functions that are given `savedState` are only called with the state at
-- BIOSDATAPAGE. `l` says where the linker puts `deviceSemaphores`.
pub mod Time
pub mod Semaphores
pub mod Wake
pub mod Sleep
pub mod WaitIo
pub mod PassUp
pub mod Lists
pub mod Vacate
pub mod Free
pub mod Depart
pub mod Standing
pub mod Progeny
pub mod Children
pub mod Terminate
pub mod Create
pub mod Rouse
pub mod Join
pub mod Asleep
use pandos.Prelude.{
  ℕ, zero, suc, ◌+◌, ◌-◌, ◌*◌, ◌/◌, Bool, true, false, not, ◌&&◌, ◌||◌, ◌==◌, ltb, leb,
  if◌then◌else◌,
}
use Prim.Native.Nat.{bit_and}
use pandos.Prelude.Word.{word_mod, add32, sub32, mul32, is_neg, is_nonpos, low_bits, shr, test_bit}
use pandos.Types.{Ptr, null, State, set_reg, v0, a0, a1, a2, a3}
use pandos.Run.{ok, stop, fault, out_of_fuel, halt, panic, ldst, ldcxt, pure, ◌>>=◌, ◌>>◌, leave}
use pandos.Pcb
use pandos.Pcb.{upd}
use pandos.Asl
use pandos.Kernel.{
  Kernel, Layout, K, on_asl, on_pcbs, get_p_s, set_p_s, get_p_time, set_p_time, get_p_start_tod,
  set_p_start_tod, get_p_sem_add, set_p_sem_add, get_p_support_struct, set_p_support_struct,
  set_process_count, set_soft_block_count, set_current_process, set_sem, set_saved_reg, stck,
  insert_ready, out_ready, read_state,
}
use pandos.Scheduler.{scheduler}

-- NUM_DEVICES of h/initial.h.
abbrev pub num_devices : ℕ
num_devices = 48

-- &deviceSemaphores[i]
abbrev pub device_semaphore : Layout → ℕ → Ptr
device_semaphore l i = add32 l.device_semaphores (mul32 4 i)

-- semAddr >= &deviceSemaphores[0] && semAddr <= &deviceSemaphores[NUM_DEVICES - 1]
abbrev pub is_device_semaphore : Layout → Ptr → Bool
is_device_semaphore l s =
    leb (device_semaphore l 0) s && leb s (device_semaphore l (num_devices - 1))

unfoldable pub update_cpu_time : K (Unit {0})
update_cpu_time = do
  current_tod ← stck
  p ← λ k. ok k.current_process k
  time ← get_p_time p
  start ← get_p_start_tod p
  set_p_time p (add32 time (sub32 current_tod start))
  set_p_start_tod p current_tod

-- The caller is blocked: its state is saved, it goes to the semaphore's queue, another runs.
pub block : (semaddr : Ptr) → K (Unit {0})
block semaddr = do
  p ← λ k. ok k.current_process k
  s ← λ k. ok k.saved k
  set_p_s p s
  set_p_sem_add p semaddr
  on_asl (Asl.insert_blocked semaddr p)
  scheduler

unfoldable pub sys_passeren : (semaddr : Ptr) → K (Unit {0})
sys_passeren semaddr = do
  update_cpu_time
  λ k. set_sem semaddr (sub32 (k.sem semaddr) 1) k
  value ← λ k. ok (k.sem semaddr) k
  if is_neg value then block semaddr else pure tt

-- The first process that waits goes to the ready queue.
pub wake : (sem_addr : Ptr) → K (Unit {0})
wake sem_addr = do
  p ← on_asl (Asl.remove_blocked sem_addr)
  if p == null then pure tt else do set_p_sem_add p null; insert_ready p

unfoldable pub sys_verhogen : (sem_addr : Ptr) → K (Unit {0})
sys_verhogen sem_addr = do
  λ k. set_sem sem_addr (add32 (k.sem sem_addr) 1) k
  value ← λ k. ok (k.sem sem_addr) k
  if is_nonpos value then wake sem_addr else pure tt

-- The new pcb, filled in.
pub launch : (p : Ptr) (s : State) (supportp : Ptr) → K (Unit {0})
launch p s supportp = do
  set_p_s p s
  set_p_support_struct p supportp
  set_p_time p 0
  set_p_sem_add p null
  parent ← λ k. ok k.current_process k
  on_pcbs (Pcb.insert_child parent p)
  insert_ready p
  λ k. set_process_count (add32 k.process_count 1) k

-- 0, or -1 where no pcb is free.
unfoldable pub sys_create_process : Layout → (statep supportp : Ptr) → K ℕ
unfolding launch
sys_create_process l statep supportp = do
  p ← on_pcbs Pcb.alloc_pcb
  if p == null then pure (word_mod - 1) else do s ← read_state l statep; launch p s supportp; pure 0

-- A process that is blocked leaves its semaphore.
pub terminate_blocked : Layout → (sem_addr p : Ptr) → K (Unit {0})
terminate_blocked l sem_addr p = do
  if is_device_semaphore l sem_addr
      then pure tt
      else (λ k. set_sem sem_addr (add32 (k.sem sem_addr) 1) k)
  on_asl (Asl.out_blocked p)
  if is_device_semaphore l sem_addr
      then (λ k. set_soft_block_count (sub32 k.soft_block_count 1) k)
      else pure tt

pub leave_semaphore : Layout → (p : Ptr) → K (Unit {0})
unfolding terminate_blocked
leave_semaphore l p = do
  sem_addr ← get_p_sem_add p
  if sem_addr == null then pure tt else terminate_blocked l sem_addr p

-- The end of `sysTerminate`: the pcb is free, and the last process halts the machine.
pub free_one : (p : Ptr) → K (Unit {0})
free_one p = do
  λ k. if p == k.current_process then set_current_process null k else ok tt k
  on_pcbs (Pcb.free_pcb p)
  λ k. if is_nonpos k.process_count then ok tt k else set_process_count (sub32 k.process_count 1) k
  λ k. if k.process_count == 0 then stop halt k else ok tt k

-- What `sysTerminate` does to a process without children.
pub terminate_one : Layout → (p : Ptr) → K (Unit {0})
unfolding leave_semaphore free_one
terminate_one l p = do
  leave_semaphore l p
  out_ready p
  prnt ← on_pcbs (Pcb.get_prnt p)
  if prnt == null then pure tt else do on_pcbs (Pcb.out_child p); pure tt
  free_one p

-- The recursion over the progeny runs on fuel: a call and a round of the loop take one each.
unfoldable mutual
  pub sys_terminate : Layout → ℕ → (p : Ptr) → K (Unit {0})
  sys_terminate l zero p = λ _. out_of_fuel
  sys_terminate l (suc n) p =
      if p == null then pure tt else do terminate_children l n p; terminate_one l p

  pub terminate_children : Layout → ℕ → (p : Ptr) → K (Unit {0})
  terminate_children l zero p = λ _. out_of_fuel
  terminate_children l (suc n) p = do
    childless ← on_pcbs (Pcb.empty_child p)
    if childless
        then pure tt
        else do c ← on_pcbs (Pcb.remove_child p); sys_terminate l n c; terminate_children l n p

-- A tree of `max_proc` pcbs is walked in fewer than this many nested steps.
abbrev pub terminate_fuel : ℕ
terminate_fuel = 64

-- `sysTerminate(currentProcess); scheduler();`
pub terminate_current : {A : Type 0} → Layout → K A
terminate_current l = do
  p ← λ k. ok k.current_process k
  sys_terminate l terminate_fuel p
  scheduler

unfoldable pub pass_up_or_die : {A : Type 0} → Layout → (except_type : ℕ) → K A
unfolding terminate_current
pass_up_or_die l except_type = do
  p ← λ k. ok k.current_process k
  support ← get_p_support_struct p
  if support == null then terminate_current l else do
    λ k. ok tt (record k {
      except_state =
          λ s i. if (s == support) && (i == except_type) then k.saved else k.except_state s i;
    })
    context ← λ k. ok (k.except_context support except_type) k
    leave (ldcxt context.c_stack_ptr context.c_status context.c_pc)

-- DEV_REG_ADDR(intLine, devNum)
abbrev pub dev_reg_addr : (int_line dev_num : ℕ) → ℕ
dev_reg_addr int_line dev_num =
    add32 (add32 0x1000_0054 (mul32 (sub32 int_line 3) 0x80)) (mul32 dev_num 0x10)

abbrev pub dev_per_int : ℕ
dev_per_int = 8

abbrev pub term_int : ℕ
term_int = 7

-- The index of a device in `deviceSemaphores`, for `sysWaitIO`.
unfoldable pub wait_index : (int_line_no dev_num wait_for_term_read : ℕ) → ℕ
wait_index int_line_no dev_num wait_for_term_read =
    if int_line_no == term_int
    then add32 (add32 (4 * dev_per_int) (mul32 dev_num 2)) wait_for_term_read
    else add32 (mul32 (sub32 int_line_no 3) dev_per_int) dev_num

unfoldable pub sys_wait_io : Layout → (int_line_no dev_num wait_for_term_read : ℕ) → K (Unit {0})
sys_wait_io l int_line_no dev_num wait_for_term_read = do
  λ k. set_soft_block_count (add32 k.soft_block_count 1) k
  sys_passeren (device_semaphore l (wait_index int_line_no dev_num wait_for_term_read))
  λ k. set_saved_reg v0 (k.dev (dev_reg_addr int_line_no dev_num)) k

unfoldable pub sys_get_cpu_time : K (Unit {0})
sys_get_cpu_time = do
  current_tod ← stck
  p ← λ k. ok k.current_process k
  time ← get_p_time p
  start ← get_p_start_tod p
  set_saved_reg v0 (add32 time (sub32 current_tod start))

unfoldable pub sys_wait_clock : Layout → K (Unit {0})
sys_wait_clock l = do
  update_cpu_time
  λ k. set_soft_block_count (add32 k.soft_block_count 1) k
  sys_passeren (device_semaphore l num_devices)

unfoldable pub sys_get_support_ptr : K Ptr
sys_get_support_ptr = do p ← λ k. ok k.current_process k; get_p_support_struct p

abbrev pub general_except : ℕ
general_except = 1

abbrev pub pg_fault_except : ℕ
pg_fault_except = 0

-- The `switch` of `syscallHandler`.
pub syscall_switch : Layout → (number x1 x2 x3 : ℕ) → K (Unit {0})
unfolding terminate_current
syscall_switch l number x1 x2 x3 =
    if number == 1
    then (do v ← sys_create_process l x1 x2; set_saved_reg v0 v)
    else if number == 2
    then terminate_current l
    else if number == 3
    then sys_passeren x1
    else if number == 4
    then sys_verhogen x1
    else if number == 5
    then sys_wait_io l x1 x2 x3
    else if number == 6
    then sys_get_cpu_time
    else if number == 7
    then sys_wait_clock l
    else if number == 8
    then (do s ← sys_get_support_ptr; set_saved_reg v0 s)
    else pass_up_or_die l general_except

-- KUPBITON is bit 3.
unfoldable pub syscall_handler : {A : Type 0} → Layout → K A
unfolding syscall_switch
syscall_handler l = do
  λ k. ok tt (record k { saved = record (k.saved) { s_pc = add32 k.saved.s_pc 4 } })
  s ← λ k. ok k.saved k
  if test_bit s.s_status 3 then pass_up_or_die l general_except else do
    syscall_switch l (s.s_reg a0) (s.s_reg a1) (s.s_reg a2) (s.s_reg a3)
    λ k. stop (ldst k.saved) k

unfoldable pub program_trap_handler : {A : Type 0} → Layout → K A
program_trap_handler l = pass_up_or_die l general_except

unfoldable pub tlb_exception_handler : {A : Type 0} → Layout → K A
tlb_exception_handler l = pass_up_or_die l pg_fault_except

-- (causeReg & CAUSEMASK) >> 2
abbrev pub exception_code : ℕ → ℕ
exception_code cause = shr (low_bits cause 8) 2

-- `s_a0 >= 9` at type `int`.
abbrev pub is_support_syscall : ℕ → Bool
is_support_syscall n = not (is_neg n) && leb 9 n

-- `interrupt` is `interruptHandler`, of phase3/interrupts.c.
unfoldable pub exception_handler : {A : Type 0} → Layout → (interrupt : K A) → K A
unfolding terminate_current
exception_handler l interrupt k =
    let code : ℕ = exception_code k.saved.s_cause in
    if code == 0
    then interrupt k
    else if leb code 3
    then tlb_exception_handler l k
    else if code == 8
    then (if is_support_syscall (k.saved.s_reg a0)
        then pass_up_or_die l general_except k
        else syscall_handler l k)
    else if leb code 12
    then program_trap_handler l k
    else terminate_current l k

-- The page table index of a virtual page number, at type `int`: 31 for the stack page.
unfoldable pub page_of_vpn : (vpn : ℕ) → ℕ
page_of_vpn vpn = if mul32 vpn 4096 == 0xbfff_f000 then 31 else sub32 vpn 0x80000

-- The page that `uTLB_RefillHandler` and `pagerHandler` look up for an EntryHi.
unfoldable pub page_index : (entry_hi : ℕ) → ℕ
unfolding page_of_vpn
page_index entry_hi = page_of_vpn (shr entry_hi 12)

unfoldable pub utlb_refill_handler : {A : Type 0} → K A
utlb_refill_handler = do
  s ← λ k. ok k.saved k
  p ← λ k. ok k.current_process k
  support ← get_p_support_struct p
  let i = page_index s.s_entry_hi
  if is_neg i || leb 32 i then leave panic else if support == null then (λ _. fault) else do
    λ k. ok tt (record k { tlb = (k.entry_hi support i, k.entry_lo support i) })
    leave (ldst s)
