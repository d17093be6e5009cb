-- ===== src/Initial.antt =====
-- `main` and `createProcess` of phase3/initial.c. The pass up vector that `main` fills, and the
-- address of `test`, are the linker's.
use pandos.Prelude.{ℕ, zero, suc, ◌+◌, ◌==◌, if◌then◌else◌}
use pandos.Prelude.Word.{add32}
use Prim.Native.Nat.{bit_or}
use pandos.Types.{Ptr, null, set_reg, t9, sp}
use pandos.Run.{ok, panic, pure, ◌>>=◌, ◌>>◌, leave}
use pandos.Pcb
use pandos.Pcb.{upd}
use pandos.Asl
use pandos.Kernel.{
  Kernel, Layout, K, on_asl, on_pcbs, get_p_s, set_p_s, set_p_time, set_p_sem_add,
  set_p_support_struct, set_process_count, set_soft_block_count, set_current_process,
  set_ready_queue, set_sem, ldit, insert_ready,
}
use pandos.Exceptions.{num_devices, device_semaphore}
use pandos.Interrupts.{clock_interval}
use pandos.Scheduler.{scheduler}

-- IEPBITON | IM | TEBITON
abbrev pub kernel_status : ℕ
kernel_status = bit_or (bit_or 0x4 0xff00) 0x0800_0000

-- RAMTOP: the words at RAMBASEADDR and RAMBASESIZE.
abbrev pub ram_top : Kernel → ℕ
ram_top k = add32 (k.dev 0x1000_0000) (k.dev 0x1000_0004)

unfoldable pub create_process : (test : ℕ) → K (Unit {0})
create_process test = do
  p ← on_pcbs Pcb.alloc_pcb
  if p == null then leave panic else do
    s ← get_p_s p
    top ← λ k. ok (ram_top k) k
    set_p_s p
        (set_reg t9 test (record (set_reg sp top s) { s_status = kernel_status; s_pc = test }))
    on_pcbs (Pcb.set_prnt p null)
    on_pcbs (Pcb.set_child p null)
    on_pcbs (Pcb.set_sib_left p null)
    on_pcbs (Pcb.set_sib_right p null)
    set_p_time p 0
    set_p_sem_add p null
    set_p_support_struct p null
    insert_ready p
    λ k. set_process_count (add32 k.process_count 1) k

-- `for (i = 0; i < NUM_DEVICES + 1; i++) deviceSemaphores[i] = 0;`
pub clear_semaphores : Layout → (n i : ℕ) → K (Unit {0})
clear_semaphores l zero i = pure tt
clear_semaphores l (suc n) i = do set_sem (device_semaphore l i) 0; clear_semaphores l n (i + 1)

-- `main` up to the creation of the first process; `initSupportStructs`, `initPhase3Resources` and
-- `initUProcs` follow it, as `phase3`, and then the scheduler.
unfoldable pub main :
    Layout → (pcb_table semd_table : ℕ → Ptr) → (test : ℕ) → (phase3 : K (Unit {0})) → K (Unit {0})
unfolding clear_semaphores
main l pcb_table semd_table test phase3 = do
  set_process_count 0
  set_soft_block_count 0
  set_ready_queue Pcb.mk_empty_proc_q
  set_current_process null
  on_pcbs (Pcb.init_pcbs pcb_table)
  on_asl (Asl.init_asl semd_table)
  clear_semaphores l (num_devices + 1) 0
  ldit clock_interval
  create_process test
  phase3
  scheduler {A = Unit {0}}
  leave panic
