-- ===== src/Tests/Blocking.antt =====
-- An active semaphore list written out: head 8000, semaphore 5000 at 8010, tail 8100, whose queue
-- pointer has never been set; 8020 is free.
use pandos.Prelude.{ℕ, refl, [], ◌∷◌, arith, ◌==◌, if◌then◌else◌, inr}
use pandos.Types.{Ptr, null}
use pandos.Run.{Returns}
use pandos.Pcb.Ring.{IsProcQ, none_queued, ring}
use pandos.Asl.{Asl, insert_blocked}
use pandos.Asl.Search.{IsActive}
use pandos.Asl.Activate.{IsAsl}
use pandos.Asl.Waiting.{Waits}
use pandos.Asl.Block.{Blocks, insert_blocked-Blocks}
use pandos.Asl.{remove_blocked}
use pandos.Asl.Unblock.{Unblocks, remove_blocked-Unblocks}
use pandos.Kernel.{Kernel}
use pandos.Exceptions.{sys_verhogen}
use pandos.Exceptions.Wake.{Wakes, sys_verhogen-Wakes}
use pandos.Run.{Stops}
use pandos.Exceptions.{sys_passeren}
use pandos.Exceptions.Sleep.{Sleeps, sys_passeren-Sleeps}
use pandos.Prelude.{◌+◌, ◌*◌}
use pandos.Asl.{max_semd, init_asl}
use pandos.Pcb.Pool.{slots}
use pandos.Asl.Init.{IsSemdTable, free_slot, init_asl-IsAsl}
use pandos.Tests.{store, kernel}

abbrev pub semaphores : Asl
semaphores = record {
  s_next = λ a. if a == 8000 then 8010 else if a == 8010 then 8100 else null;
  s_sem_add = λ a. if a == 8010 then 5000 else if a == 8100 then 0x7fff_ffff else 0;
  s_proc_q = λ a. if a == 8010 then 200 else if a == 8100 then 0 else null;
  semd_h = 8000;
  semd_free_h = 8020;
  pcbs = store;
}

semaphores-IsActive : IsActive semaphores (8010 ∷ 8100 ∷ [])
semaphores-IsActive = record {
  head = ground arith;
  chain = (refl, ground arith, (refl, ground arith, refl));
  sorted = (ground arith, (ground arith, tt));
  short = ground arith;
}

pub semaphores-IsAsl : IsAsl semaphores (8010 ∷ 8100 ∷ []) (8020 ∷ [])
semaphores-IsAsl = record {
  active = semaphores-IsActive;
  distinct = (refl, (refl, (refl, tt)));
  free = (refl, ground arith, refl);
  distinct_free = (refl, tt);
  apart = λ b i. ground arith;
  total = ground arith;
}

waiting : Waits semaphores (8010 ∷ 8100 ∷ []) 5000 (100 ∷ 200 ∷ [])
waiting = ring (100 ∷ []) refl (refl, (refl, tt)) refl ((refl, refl), (refl, refl))

-- The first process that waits for semaphore 6000.
insert_blocked-Blocks_example :
    Returns (Blocks semaphores (8010 ∷ 8100 ∷ []) 6000 900 []) (insert_blocked 6000 900 semaphores)
insert_blocked-Blocks_example =
    insert_blocked-Blocks 6000 900 semaphores-IsAsl none_queued (ground arith) (ground arith) refl
      (inr (ground arith))

remove_blocked-Unblocks_example :
    Returns
      (Unblocks semaphores (8010 ∷ 8100 ∷ []) 5000 100 (200 ∷ []))
      (remove_blocked 5000 semaphores)
remove_blocked-Unblocks_example =
    remove_blocked-Unblocks 5000 semaphores-IsAsl waiting (ground arith)

-- No process is ready, two wait for semaphore 5000.
abbrev blocked : Kernel
blocked = record kernel {
  asl = semaphores;
  ready_queue = null;
  sem = λ a. if a == 5000 then 0xffff_fffe else 0;
}

sys_verhogen-Wakes_example :
    Returns (λ _ g. Wakes blocked 5000 100 (200 ∷ []) [] g) (sys_verhogen 5000 blocked)
sys_verhogen-Wakes_example =
    sys_verhogen-Wakes blocked 5000 semaphores-IsAsl waiting (ground arith) none_queued (λ b i. cc)
      (ground arith)

-- 950 is ready.
abbrev busy : Kernel
busy = record blocked { ready_queue = 950 }

busy-IsReady : IsProcQ store 950 (950 ∷ [])
busy-IsReady = ring {t = 950} [] refl (refl, tt) refl (refl, refl)

sys_passeren-Sleeps_example :
    Stops (Sleeps busy 5000 (100 ∷ 200 ∷ []) 950 []) (sys_passeren 5000 busy)
sys_passeren-Sleeps_example =
    sys_passeren-Sleeps busy 5000 semaphores-IsAsl waiting (ground arith) (inr (ground arith))
      busy-IsReady (ground arith) (ground arith) refl refl (λ b i. ground arith) (ground arith)

abbrev semd_table : ℕ → Ptr
semd_table i = 3000 + 12 * i

semd_table-IsSemdTable : IsSemdTable semd_table
semd_table-IsSemdTable = record { real = λ i lt. ground arith; apart = λ i j li lj e. omega arith }

init_asl-IsAsl_example :
    Returns
      (λ _ g. IsAsl g (semd_table (max_semd + 1) ∷ []) (slots (free_slot semd_table) max_semd 0))
      (init_asl semd_table semaphores)
init_asl-IsAsl_example = init_asl-IsAsl semd_table semd_table-IsSemdTable semaphores
