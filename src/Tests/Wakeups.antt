-- ===== src/Tests/Wakeups.antt =====
-- The processes of Tests/Family, with the semaphore at 5000 as the pseudo-clock and as that of a device.
use pandos.Prelude.{ℕ, ◌≡◌, refl, [], ◌∷◌, arith}
use pandos.Run.{stop, ldst, Returns}
use pandos.Kernel.{Kernel, Layout}
use pandos.Exceptions.{sys_create_process, wait_index}
use pandos.Exceptions.Create.{Created, state_of, sys_create_process-Created}
use pandos.Exceptions.Lists.{HasLists-same}
use pandos.Interrupts.{lowest_device, handle_interval_timer_interrupt, handle_device_interrupt}
use pandos.Interrupts.Interval.{
  Released, reloaded, ticked, handle_interval_timer_interrupt-Released,
}
use pandos.Interrupts.Deliver.{Delivered, acknowledged, handle_device_interrupt-Delivered}
use pandos.Run.{Stops}
use pandos.Exceptions.{sys_wait_io}
use pandos.Interrupts.Answer.{Answered, interrupted, sys_wait_io-Answered}
use pandos.Run.{wait}
use pandos.Types.{null}
use pandos.Scheduler.{wait_status}
use pandos.Interrupts.Idle.{Revived, sys_wait_io-Revived}
use pandos.Tests.{layout}
use pandos.Tests.Family.{
  tribe, waiters, tribe-HasLists, tribe-HasRoom, siblings, lonely, lonely-HasLists, lonely-HasRoom,
}

sys_create_process-Created_example :
    Returns
      (λ v g.
        (v ≡ 0)
        × Created tribe 300
            (state_of tribe 9000)
            3000
            waiters
            (600 ∷ 700 ∷ [])
            (400 ∷ [])
            (600 ∷ 700 ∷ [])
            g)
      (sys_create_process layout 9000 3000 tribe)
sys_create_process-Created_example =
    sys_create_process-Created layout tribe 9000 3000 tribe-HasLists (ground arith) siblings
      (ground arith) (ground arith) refl refl

-- The pseudo-clock semaphore is at 5000.
abbrev clock_layout : Layout
clock_layout = record layout { device_semaphores = 4808 }

handle_interval_timer_interrupt-Released_example :
    (g : Kernel) × (handle_interval_timer_interrupt {A = ℕ} clock_layout tribe
      ≡ stop (ldst tribe.saved) (ticked clock_layout g))
    × Released (reloaded tribe) (100 ∷ 200 ∷ []) waiters (600 ∷ 700 ∷ []) (300 ∷ 400 ∷ []) g
handle_interval_timer_interrupt-Released_example =
    handle_interval_timer_interrupt-Released clock_layout tribe tribe-HasLists (ground arith)
      (ground arith)

-- The semaphore of flash device 0 is at 5000, and the device is pending.
abbrev flash_layout : Layout
flash_layout = record layout { device_semaphores = 4968 }

abbrev pending : Kernel
pending = record tribe { dev = λ _. 1 }

handle_device_interrupt-Delivered_example :
    (g : Kernel) × (handle_device_interrupt flash_layout 4 pending ≡ stop (ldst pending.saved) g)
    × Delivered
        (acknowledged flash_layout pending 4 0)
        100
        1
        waiters
        (600 ∷ 700 ∷ [])
        (300 ∷ 400 ∷ [])
        g
unfolding wait_index lowest_device
handle_device_interrupt-Delivered_example =
    handle_device_interrupt-Delivered flash_layout pending 4 0 (ground arith) refl refl
      (HasLists-same pending refl refl tribe-HasLists) refl (ground arith)

-- The semaphore of flash device 0 is at 5200, where nobody waits.
abbrev free_layout : Layout
free_layout = record layout { device_semaphores = 5168 }

sys_wait_io-Answered_example :
    Stops
      (λ how g.
        (how ≡ ldst (tribe.asl.pcbs.p_s 600))
        × Stops {A = Unit {0}}
            (λ x f.
              (x ≡ ldst tribe.saved)
              × Answered tribe 500 1 600 waiters (700 ∷ []) (300 ∷ 400 ∷ []) f)
            (handle_device_interrupt free_layout 4 (interrupted tribe.saved (λ _. 1) g)))
      (sys_wait_io free_layout 4 0 0 tribe)
unfolding wait_index lowest_device
sys_wait_io-Answered_example =
    sys_wait_io-Answered free_layout tribe 4 0 0 tribe.saved (λ _. 1) tribe-HasLists (ground arith)
      refl
      (record { real = ground arith; unready = refl; used = refl; unwaiting = λ t. ground arith })
      tribe-HasRoom (ground arith) (ground arith) (ground arith) refl refl (ground arith)

sys_wait_io-Revived_example :
    Stops
      (λ how g.
        (how ≡ wait wait_status)
        × (g.current_process ≡ null)
        × (g.asl.pcbs.p_s 500 ≡ lonely.saved)
        × Stops {A = Unit {0}}
            (Revived lonely 1 waiters (300 ∷ 400 ∷ []))
            (handle_device_interrupt free_layout 4 (interrupted lonely.saved (λ _. 1) g)))
      (sys_wait_io free_layout 4 0 0 lonely)
unfolding wait_index lowest_device
sys_wait_io-Revived_example =
    sys_wait_io-Revived free_layout lonely 4 0 0 lonely.saved (λ _. 1) lonely-HasLists
      (ground arith) refl
      (record { real = ground arith; unready = refl; used = refl; unwaiting = λ t. ground arith })
      lonely-HasRoom (ground arith) (ground arith) (ground arith) refl refl (ground arith)
      (ground arith)
