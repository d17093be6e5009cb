-- ===== src/Tests.antt =====
-- A nucleus state written out, and the theorems at it. Pcbs are at 100, 200, ..., semaphores at 5000.
pub mod Blocking
pub mod Level
pub mod Transfers
pub mod Calls
pub mod Family
pub mod Wakeups
pub mod Programs
use pandos.Prelude.{
  ℕ, ◌+◌, ◌*◌, ◌^◌, ◌<◌, ◌≡◌, refl, ◌≢◌, ◌⊎◌, [], ◌∷◌, arith, ◌==◌, if◌then◌else◌, none, some,
}
use pandos.Types.{Ptr, null, max_proc, State, set_reg, a0}
use pandos.Run.{ok, stop, panic, ldst, Returns, Stops}
use pandos.Pcb.{
  Store, upd, zero_state, free_pcb, alloc_pcb, init_pcbs, insert_proc_q, out_proc_q, remove_proc_q,
  head_proc_q, insert_child, out_child, remove_child,
}
use pandos.Pcb.Ring.{next, prev, IsProcQ, none_queued, ring}
use pandos.Pcb.Pool.{
  IsFree, IsReset, IsTable, slots, free_pcb-cons, alloc_pcb-head, alloc_pcb-nil, init_pcbs-slots,
}
use pandos.Pcb.Tree.{HasChildren, insert_child-cons}
use pandos.Pcb.Family.{
  Leaves, out_child-Leaves, out_child_orphan, remove_child-head, remove_child-nil,
}
use pandos.Pcb.Queue.{Requeues, insert_proc_q-append}
use pandos.Pcb.Position.{Removes}
use pandos.Pcb.Dequeue.{
  out_proc_q-Removes, out_proc_q-not-mem, remove_proc_q-head, head_proc_q-head,
}
use pandos.Asl.{Asl}
use pandos.Kernel.{Kernel, Layout}
use pandos.Scheduler.{scheduler}
use pandos.Scheduler.Choice.{Dispatches, IsReady, scheduler-Dispatches}
use pandos.Exceptions.{
  sys_passeren, sys_verhogen, pass_up_or_die, exception_handler, wait_index, num_devices,
}
use pandos.Exceptions.Time.{timed}
use pandos.Exceptions.Semaphores.{sys_passeren-free, sys_verhogen-free}
use pandos.Exceptions.PassUp.{passed_up, pass_up_or_die-passed_up, exception_handler-passed_up}
use pandos.Interrupts.{
  pending_interrupts, get_highest_priority_interrupt, lowest_device, handle_plt_interrupt,
  interrupt_index,
}
use pandos.Interrupts.Plt.{handle_plt_interrupt-rotate}
use pandos.Interrupts.Lines.{
  IsFirst, NoneSet, get_highest_priority_interrupt-IsFirst, lowest_device-lowest,
}
use pandos.Interrupts.Devices.{IsDevice, wait_index_injective, interrupt_index-wait_index}

-- 100 and 200 are in a queue, 950 in another, 300 and 400 free, 600 and 700 the children of 500.
abbrev pub store : Store
store = record {
  p_next = λ a.
      if a == 100
      then 200
      else if a == 200
      then 100
      else if a == 300
      then 400
      else if a == 950
      then 950
      else null;
  p_prev = λ a. if a == 100 then 200 else if a == 200 then 100 else if a == 950 then 950 else null;
  p_prnt = λ a. if a == 600 then 500 else if a == 700 then 500 else null;
  p_child = λ a. if a == 500 then 600 else null;
  p_sib_right = λ a. if a == 600 then 700 else null;
  p_sib_left = λ a. if a == 700 then 600 else null;
  p_s = λ _. zero_state;
  p_time = λ _. 0;
  p_start_tod = λ _. 0;
  p_sem_add = λ _. null;
  p_support_struct = λ a. if a == 500 then 3000 else null;
  free_h = 300;
}

store-IsProcQ : IsProcQ store 200 (100 ∷ 200 ∷ [])
store-IsProcQ = ring (100 ∷ []) refl (refl, (refl, tt)) refl ((refl, refl), (refl, refl))

store-IsFree : IsFree store (300 ∷ 400 ∷ [])
store-IsFree = record {
  chain = (refl, ground arith, (refl, ground arith, refl));
  distinct = (refl, (refl, tt));
}

store-HasChildren : HasChildren store 500 (600 ∷ 700 ∷ [])
store-HasChildren = record {
  chain = (refl, ground arith, refl, refl, (refl, ground arith, refl, refl, refl));
  distinct = (refl, (refl, tt));
}

abbrev table : ℕ → Ptr
table i = 1000 + 10 * i

table-IsTable : IsTable table
table-IsTable = record { real = λ i lt. ground arith; apart = λ i j li lj e. omega arith }

insert_proc_q-append_example :
    Returns
      (λ t g.
        (t ≡ 900) × IsProcQ g t (100 ∷ 200 ∷ 900 ∷ []) × Requeues (900 ∷ 100 ∷ 200 ∷ []) store g)
      (insert_proc_q 200 900 store)
insert_proc_q-append_example = insert_proc_q-append 900 store-IsProcQ (ground arith) refl

out_proc_q-Removes_example : Returns (Removes 100 (100 ∷ 200 ∷ []) store) (out_proc_q 200 100 store)
out_proc_q-Removes_example = out_proc_q-Removes store-IsProcQ (ground arith) refl

-- 100 and 200 are ready, 500 runs and has a support structure; semaphore 5000 is 1.
abbrev asl : Asl
asl = record {
  s_next = λ _. null;
  s_sem_add = λ _. null;
  s_proc_q = λ _. null;
  semd_h = null;
  semd_free_h = null;
  pcbs = store;
}

-- Exception code 8 (SYSCALL) in user mode, with a0 = 9.
abbrev user_state : State
user_state = record {
  s_entry_hi = 0;
  s_cause = 32;
  s_status = 8;
  s_pc = 4096;
  s_reg = λ i. if i == a0 then 9 else 0;
}

abbrev pub kernel : Kernel
kernel = record {
  asl = asl;
  process_count = 3;
  soft_block_count = 0;
  ready_queue = 200;
  current_process = 500;
  sem = λ a. if a == 5000 then 1 else 0;
  dev = λ _. 0;
  saved = user_state;
  state_at = λ _. zero_state;
  except_state = λ _ _. zero_state;
  except_context = λ s t. record { c_stack_ptr = 8192; c_status = 4; c_pc = 16384 + t };
  entry_hi = λ _ _. 0;
  entry_lo = λ _ _. 0;
  tlb = (0, 0);
  tod = λ i. 100 * i;
  tod_reads = 7;
  timescale = 1;
  timer = 12;
  interval_timer = 900;
}

abbrev pub layout : Layout
layout = record { device_semaphores = 20000; pcb_of_state = λ _. none }

scheduler-Dispatches_example : Stops {A = ℕ} (Dispatches kernel 100 (200 ∷ [])) (scheduler kernel)
scheduler-Dispatches_example = scheduler-Dispatches kernel store-IsProcQ (ground arith)

handle_plt_interrupt-rotate_example :
    Stops {A = ℕ}
      (λ how g.
        (how ≡ ldst zero_state)
        × (g.current_process ≡ 100)
        × (g.timer ≡ 5000)
        × IsReady g (200 ∷ 500 ∷ [])
        × (g.asl.pcbs.p_s ≡ upd kernel.asl.pcbs.p_s kernel.current_process kernel.saved))
      (handle_plt_interrupt kernel)
handle_plt_interrupt-rotate_example =
    handle_plt_interrupt-rotate kernel 100 (200 ∷ 500 ∷ []) store-IsProcQ (ground arith)
      (ground arith) refl refl

exception_handler-passed_up_example :
    exception_handler {A = ℕ} layout (λ k. ok 0 k) kernel ≡ passed_up kernel 1
exception_handler-passed_up_example =
    exception_handler-passed_up layout kernel (ground arith) (ground arith) (λ k. ok 0 k)
      (ground arith) (ground arith) (λ _. refl)

-- Lines 3 and 7 are pending.
get_highest_priority_interrupt-IsFirst_example :
    IsFirst (pending_interrupts 0x8800) 1 8 (get_highest_priority_interrupt 0x8800)
    ⊎ NoneSet (pending_interrupts 0x8800) 1 8 (get_highest_priority_interrupt 0x8800)
get_highest_priority_interrupt-IsFirst_example = get_highest_priority_interrupt-IsFirst 0x8800

lowest_device-lowest_example :
    (d : ℕ) × (q : ℕ) × (lowest_device 12 ≡ some d) × (d < 32) × (12 ≡ (2 * q + 1) * 2 ^ d)
lowest_device-lowest_example = lowest_device-lowest 12 (ground arith) (ground arith)

abbrev terminals : ℕ
terminals = 7

abbrev terminal : ℕ
terminal = 2

abbrev reading : ℕ
reading = 0

-- The reading half of terminal 2.
reader : IsDevice terminals terminal reading
reader = record {
  line_in = ground arith;
  dev_in = ground arith;
  sub_in = ground arith;
  only_terminals = λ n. absurd (n refl);
}

wait_index_injective_example :
    (wait_index 7 2 0 < num_devices)
    × (((terminals ≡ terminals) × (terminal ≡ terminal) × (reading ≡ reading))
        ⊎ (wait_index 7 2 0 ≢ wait_index 7 2 0))
wait_index_injective_example = wait_index_injective reader reader

interrupt_index-wait_index_example :
    (((terminals ≢ 7) ⊎ (reading ≡ 1)) × (interrupt_index 7 2 5 ≡ wait_index 7 2 0))
    ⊎ ((terminals ≡ 7)
        × (reading ≡ 0)
        × (interrupt_index 7 2 5 ≡ wait_index 7 2 1)
        × (interrupt_index 7 2 5 ≢ wait_index 7 2 0))
interrupt_index-wait_index_example = interrupt_index-wait_index 5 reader (λ _. refl)
