-- ===== src/Delay.antt =====
-- phase3/delayDaemon.c. The descriptors of `delaydTable` are given by their addresses.
pub mod Insertion
pub mod Due
pub mod Daemon
pub mod Init
pub mod Sleep
use pandos.Prelude.{ℕ, zero, suc, ◌+◌, ◌-◌, Bool, ◌&&◌, not, ◌==◌, if◌then◌else◌}
use pandos.Prelude.Word.{add32, mul32, sub32, slt32, is_neg}
use pandos.Types.{Ptr, null, set_reg, t9, sp}
use pandos.Run.{ok, out_of_fuel, panic, pure, ◌>>=◌, ◌>>◌, leave}
use pandos.Pcb
use pandos.Pcb.{upd}
use pandos.Asl.{max_int}
use pandos.Kernel.{stck, on_pcbs, get_p_s, set_p_s, set_p_support_struct, insert_ready}
use pandos.Exceptions.{general_except}
use pandos.Initial.{kernel_status, ram_top}
use pandos.Support.{
  Support, Places, S, System, reads, on_kernel, syscall, syscall_, through, resume,
}
use pandos.Support.Number
use pandos.Terminate.{sup_terminate}

abbrev pub delay_list_size : ℕ
delay_list_size = 9

abbrev pub second : ℕ
second = 1000000

-- Fields of the descriptors.
abbrev pub set_d_next : Ptr → Ptr → S (Unit {0})
set_d_next d v = do through d; λ s. ok tt (record s { d_next = upd s.d_next d v })

abbrev pub set_d_wake_time : Ptr → ℕ → S (Unit {0})
set_d_wake_time d v = do through d; λ s. ok tt (record s { d_wake_time = upd s.d_wake_time d v })

abbrev pub set_d_sup_struct : Ptr → Ptr → S (Unit {0})
set_d_sup_struct d v = do through d; λ s. ok tt (record s { d_sup_struct = upd s.d_sup_struct d v })

abbrev pub set_delayd_h : Ptr → S (Unit {0})
set_delayd_h d s = ok tt (record s { delayd_h = d })

abbrev pub set_delayd_free_h : Ptr → S (Unit {0})
set_delayd_free_h d s = ok tt (record s { delayd_free_h = d })

-- `*ptr`, where `ptr` is the address of `d_next` of a descriptor, or of `delayd_h`: NULL here.
unfoldable pub get_link : (before : Ptr) → Support → Ptr
get_link before s = if before == null then s.delayd_h else s.d_next before

unfoldable pub set_link : (before : Ptr) → Ptr → S (Unit {0})
set_link before d = if before == null then set_delayd_h d else set_d_next before d

-- The walk to the place of a wake time: the link that the new descriptor is put at.
pub place_walk : (fuel wake : ℕ) → (before : Ptr) → S Ptr
place_walk zero wake before = λ _. out_of_fuel
place_walk (suc fuel) wake before = do
  next ← reads λ s. get_link before s
  through next
  key ← reads λ s. s.d_wake_time next
  if slt32 key wake then place_walk fuel wake next else pure before

-- One round for each descriptor of the table.
unfoldable pub insert_delay : (node : Ptr) → S (Unit {0})
unfolding place_walk
insert_delay node = do
  wake ← reads λ s. s.d_wake_time node
  before ← place_walk delay_list_size wake null
  next ← reads λ s. get_link before s
  set_d_next node next
  set_link before node

unfoldable pub sup_delay : {A : Type 0} → System → Places → (sec_cnt : ℕ) → S A
sup_delay y l sec_cnt = do
  support ← syscall y Number.get_support_ptr 0 0 0
  if is_neg sec_cnt then sup_terminate y l else pure tt
  syscall_ y Number.passeren l.adl_sem 0 0
  node ← reads λ s. s.delayd_free_h
  if node == null then (do syscall_ y Number.verhogen l.adl_sem 0 0; sup_terminate y l) else pure tt
  through node
  λ s. set_delayd_free_h (s.d_next node) s
  now ← on_kernel stck
  set_d_wake_time node (add32 now (mul32 sec_cnt second))
  set_d_sup_struct node support
  insert_delay node
  syscall_ y Number.verhogen l.adl_sem 0 0
  syscall_ y Number.passeren (l.private_sem support) 0 0
  resume support general_except

-- Whether the daemon's loop goes on at a descriptor.
unfoldable pub is_expired : (now : ℕ) → (curr : Ptr) → Support → Bool
is_expired now curr s =
    not (curr == null) && not (s.d_sup_struct curr == null) && not (slt32 now (s.d_wake_time curr))

-- The loop over the expired descriptors. `prev` is NULL throughout, as in the source.
pub wake_loop : System → Places → (fuel now : ℕ) → (prev curr : Ptr) → S (Unit {0})
wake_loop y l zero now prev curr = λ _. out_of_fuel
wake_loop y l (suc fuel) now prev curr = do
  go ← reads (is_expired now curr)
  if go
      then (do
        support ← reads λ s. s.d_sup_struct curr
        syscall_ y Number.verhogen (l.private_sem support) 0 0
        next ← reads λ s. s.d_next curr
        if prev == null then set_delayd_h next else set_d_next prev next
        λ s. set_d_next curr s.delayd_free_h s
        set_delayd_free_h curr
        wake_loop y l fuel now prev next)
      else pure tt

-- One round of `delayDaemon`, with one pass for each descriptor of the table and one more.
unfoldable pub daemon_round : System → Places → S (Unit {0})
unfolding wake_loop
daemon_round y l = do
  syscall_ y Number.wait_clock 0 0 0
  syscall_ y Number.passeren l.adl_sem 0 0
  now ← on_kernel stck
  head ← reads λ s. s.delayd_h
  wake_loop y l (delay_list_size + 1) now null head
  syscall_ y Number.verhogen l.adl_sem 0 0

-- The daemon never ends; its first `rounds` rounds.
pub delay_daemon : System → Places → (rounds : ℕ) → S (Unit {0})
delay_daemon y l zero = pure tt
delay_daemon y l (suc rounds) = do daemon_round y l; delay_daemon y l rounds

-- `n` rounds of the loop of `initADL` from `i` on.
pub free_list_loop : (table : ℕ → Ptr) → (n i : ℕ) → S (Unit {0})
free_list_loop table zero i = pure tt
free_list_loop table (suc n) i = do
  λ s. set_d_next (table i) s.delayd_free_h s
  set_delayd_free_h (table i)
  free_list_loop table n (i + 1)

-- The delay lists of `initADL`, its step 1.
unfoldable pub init_delay_lists : (table : ℕ → Ptr) → S (Unit {0})
unfolding free_list_loop
init_delay_lists table = do
  set_delayd_h null
  set_delayd_free_h null
  free_list_loop table (delay_list_size - 1) 0
  let dummy = table (delay_list_size - 1)
  set_d_wake_time dummy max_int
  set_d_next dummy null
  set_d_sup_struct dummy null
  set_delayd_h dummy

unfoldable pub init_adl : Places → (table : ℕ → Ptr) → S (Unit {0})
init_adl l table = do
  init_delay_lists table
  p ← on_kernel (on_pcbs Pcb.alloc_pcb)
  if p == null then leave panic else do
    state ← on_kernel (get_p_s p)
    top ← reads λ s. ram_top s.kernel
    let stacked = record (set_reg sp (sub32 top 8192) state) { s_entry_hi = 0 }
    on_kernel (
        set_p_s p (
          set_reg t9 l.delay_daemon
            (record stacked { s_status = kernel_status; s_pc = l.delay_daemon })))
    on_kernel (set_p_support_struct p null)
    on_kernel (insert_ready p)
