-- ===== src/Interrupts.antt =====
-- phase3/interrupts.c.
pub mod Plt
pub mod Interval
pub mod Deliver
pub mod Answer
pub mod Idle
pub mod Lines
pub mod Devices
use pandos.Prelude.{
  ℕ, zero, suc, ◌+◌, ◌-◌, ◌*◌, ◌/◌, Bool, true, false, Option, none, some, not, ◌&&◌, ◌||◌, ◌==◌,
  ltb, leb, if◌then◌else◌,
}
use pandos.Prelude.Word.{word_mod, add32, sub32, mul32, is_neg, is_nonpos, low_bits, shr, test_bit}
use pandos.Types.{Ptr, null, State, set_reg, v0}
use pandos.Run.{ok, stop, fault, out_of_fuel, panic, ldst, pure, ◌>>=◌, ◌>>◌, leave}
use pandos.Pcb
use pandos.Asl
use pandos.Kernel.{
  Kernel, Layout, K, on_asl, on_pcbs, get_p_s, set_p_s, set_soft_block_count, set_sem, set_dev,
  set_timer, ldit, insert_ready,
}
use pandos.Scheduler.{scheduler}
use pandos.Exceptions.{
  num_devices, device_semaphore, update_cpu_time, dev_reg_addr, dev_per_int, term_int,
}

-- The lines from `i` on, `n` of them; -1 if none is pending.
pub line_loop : (n i pending : ℕ) → ℕ
line_loop zero i pending = word_mod - 1
line_loop (suc n) i pending =
    let rest = line_loop n (i + 1) pending in if test_bit pending i then i else rest

-- (cause & IPMASK) >> IPSHIFT
abbrev pub pending_interrupts : ℕ → ℕ
pending_interrupts cause = low_bits (shr cause 8) 8

unfoldable pub get_highest_priority_interrupt : (cause : ℕ) → ℕ
unfolding line_loop
get_highest_priority_interrupt cause = line_loop 7 1 (pending_interrupts cause)

-- `while ((deviceBitmap & 1) == 0)`, one round for each bit of the word.
pub bit_loop : (fuel bitmap dev_num : ℕ) → Option ℕ
bit_loop zero bitmap dev_num = none
bit_loop (suc n) bitmap dev_num =
    let rest = bit_loop n (shr bitmap 1) (dev_num + 1) in
    if low_bits bitmap 1 == 0 then rest else some dev_num

-- INTDEVBITMAP_ADDR(intLine)
abbrev pub int_dev_bitmap_addr : ℕ → ℕ
int_dev_bitmap_addr int_line = add32 0x1000_0040 (mul32 (sub32 int_line 3) 4)

-- The device of a bit map; -1 for an empty one, and `none` for a loop that does not end.
unfoldable pub lowest_device : (bitmap : ℕ) → Option ℕ
unfolding bit_loop
lowest_device bitmap = if bitmap == 0 then some (word_mod - 1) else bit_loop 32 bitmap 0

unfoldable pub get_highest_priority_device : (int_line : ℕ) → K ℕ
get_highest_priority_device int_line k =
    elim (lowest_device (k.dev (int_dev_bitmap_addr int_line))) [
      | none ↦ out_of_fuel
      | some d ↦ ok d k
    ]

unfoldable pub handle_plt_interrupt : {A : Type 0} → K A
handle_plt_interrupt = do
  set_timer 5000
  p ← λ k. ok k.current_process k
  if p == null
      then scheduler
      else do s ← λ k. ok k.saved k; set_p_s p s; update_cpu_time; insert_ready p; scheduler

-- The loop of `handleIntervalTimerInterrupt`: at most `max_proc` pcbs wait for the clock.
pub unblock_loop : Layout → ℕ → K (Unit {0})
unblock_loop l zero = λ _. out_of_fuel
unblock_loop l (suc n) = do
  head ← on_asl (Asl.head_blocked (device_semaphore l num_devices))
  if head == null then pure tt else do
    p ← on_asl (Asl.remove_blocked (device_semaphore l num_devices))
    if p == null then pure tt else insert_ready p
    unblock_loop l n

abbrev pub clock_interval : ℕ
clock_interval = 100000

unfoldable pub handle_interval_timer_interrupt : {A : Type 0} → Layout → K A
unfolding unblock_loop
handle_interval_timer_interrupt l = do
  ldit clock_interval
  unblock_loop l 21
  set_sem (device_semaphore l num_devices) 0
  λ k. if k.current_process == null then scheduler k else stop (ldst k.saved) k

-- The offsets of the fields of `device_t`: `d_status` 0, `d_command` 4, `d_data0` 8, `d_data1` 12.
-- The status is read and the command register acknowledged; for a terminal whose two status bytes
-- are not 5 `status` stays without a value, and its use is undefined: a fault.
unfoldable pub acknowledge : (int_line reg : ℕ) → K ℕ
acknowledge int_line reg =
    if int_line == term_int
    then (λ k.
        if low_bits (k.dev (add32 reg 8)) 8 == 5
        then (do set_dev (add32 reg 12) 1; pure (k.dev (add32 reg 8))) k
        else if low_bits (k.dev reg) 8 == 5
        then (do set_dev (add32 reg 4) 1; pure (k.dev reg)) k
        else fault)
    else (λ k. (do set_dev (add32 reg 4) 1; pure (k.dev reg)) k)

-- The index of a device in `deviceSemaphores`, for `handleDeviceInterrupt`.
unfoldable pub interrupt_index : (int_line dev_num status : ℕ) → ℕ
interrupt_index int_line dev_num status =
    if int_line == term_int
    then add32 (add32 (4 * dev_per_int) (mul32 dev_num 2)) (if low_bits status 8 == 0 then 0 else 1)
    else add32 (mul32 (sub32 int_line 3) dev_per_int) dev_num

-- The waiting process, if there is one, gets the status and becomes ready.
pub deliver : (sem_addr status : ℕ) → K (Unit {0})
deliver sem_addr status = do
  p ← on_asl (Asl.remove_blocked sem_addr)
  if p == null then pure tt else do
    s ← get_p_s p
    set_p_s p (set_reg v0 status s)
    λ k. set_soft_block_count (sub32 k.soft_block_count 1) k
    insert_ready p
  λ k. if k.current_process == null then scheduler k else stop (ldst k.saved) k

unfoldable pub handle_device_interrupt : Layout → (int_line : ℕ) → K (Unit {0})
unfolding deliver
handle_device_interrupt l int_line = do
  dev_num ← get_highest_priority_device int_line
  status ← acknowledge int_line (dev_reg_addr int_line dev_num)
  let sem_addr = device_semaphore l (interrupt_index int_line dev_num status)
  λ k. set_sem sem_addr (add32 (k.sem sem_addr) 1) k
  value ← λ k. ok (k.sem sem_addr) k
  if is_nonpos value then deliver sem_addr status else pure tt

unfoldable pub interrupt_handler : {A : Type 0} → Layout → K A
interrupt_handler l = do
  line ← λ k. ok (get_highest_priority_interrupt k.saved.s_cause) k
  if line == 0
      then pure tt
      else if line == 1
      then handle_plt_interrupt
      else if line == 2
      then handle_interval_timer_interrupt l
      else if leb line 7
      then handle_device_interrupt l line
      else leave panic
  λ k. stop (ldst k.saved) k
