-- ===== src/Kernel.antt =====
-- The nucleus' state: the globals of phase3/initial.c, the phase 1 structures, the memory that the
-- nucleus reads and writes through pointers, and the hardware registers that it uses.
use pandos.Prelude.{ℕ, ◌+◌, Option, none, some, ◌==◌, if◌then◌else◌}
use pandos.Prelude.Word.{mul32, sdiv32}
use pandos.Types.{Ptr, State, set_reg}
use pandos.Run.{ok, Cmd, pure, ◌>>=◌, ◌>>◌, zoom}
use pandos.Pcb
use pandos.Pcb.{Store, upd}
use pandos.Asl
use pandos.Asl.{Asl}

-- `context_t`.
pub record Context : Type 0 where
  pub c_stack_ptr : ℕ
  pub c_status : ℕ
  pub c_pc : ℕ

-- `saved` is the state at BIOSDATAPAGE. `sem` holds the `int` at an address, `dev` a device register,
-- `state_at` a `state_t` that is neither at BIOSDATAPAGE nor in a pcb. `tod i` is what the i-th read
-- of TODLO gives. A support structure is kept by field.
pub record Kernel : Type 0 where
  pub asl : Asl
  pub process_count : ℕ
  pub soft_block_count : ℕ
  pub ready_queue : Ptr
  pub current_process : Ptr
  pub sem : Ptr → ℕ
  pub dev : ℕ → ℕ
  pub saved : State
  pub state_at : Ptr → State
  pub except_state : Ptr → ℕ → State
  pub except_context : Ptr → ℕ → Context
  pub entry_hi : Ptr → ℕ → ℕ
  pub entry_lo : Ptr → ℕ → ℕ
  pub tlb : ℕ × ℕ
  pub tod : ℕ → ℕ
  pub tod_reads : ℕ
  pub timescale : ℕ
  pub timer : ℕ
  pub interval_timer : ℕ

-- Where the linker puts what the nucleus knows by address: `deviceSemaphores`, and the `p_s` of the
-- pcbs.
pub record Layout : Type 0 where
  pub device_semaphores : Ptr
  pub pcb_of_state : Ptr → Option Ptr

abbrev pub K : Type 0 → Type 0
K A = Cmd Kernel A

abbrev pub on_asl : {A : Type 0} → Cmd Asl A → K A
on_asl m = zoom (λ k. k.asl) (λ a k. record k { asl = a }) m

abbrev pub on_pcbs : {A : Type 0} → Cmd Store A → K A
on_pcbs m = on_asl (Asl.on_pcbs m)

-- Reads and writes of a pcb's other fields.
abbrev pub get_p_s : Ptr → K State
get_p_s p = on_pcbs (Pcb.read p λ h. h.p_s p)

abbrev pub set_p_s : Ptr → State → K (Unit {0})
set_p_s p s = on_pcbs (Pcb.at p λ h. record h { p_s = upd h.p_s p s })

abbrev pub get_p_time : Ptr → K ℕ
get_p_time p = on_pcbs (Pcb.read p λ h. h.p_time p)

abbrev pub set_p_time : Ptr → ℕ → K (Unit {0})
set_p_time p t = on_pcbs (Pcb.at p λ h. record h { p_time = upd h.p_time p t })

abbrev pub get_p_start_tod : Ptr → K ℕ
get_p_start_tod p = on_pcbs (Pcb.read p λ h. h.p_start_tod p)

abbrev pub set_p_start_tod : Ptr → ℕ → K (Unit {0})
set_p_start_tod p t = on_pcbs (Pcb.at p λ h. record h { p_start_tod = upd h.p_start_tod p t })

abbrev pub get_p_sem_add : Ptr → K Ptr
get_p_sem_add p = on_pcbs (Pcb.read p λ h. h.p_sem_add p)

abbrev pub set_p_sem_add : Ptr → Ptr → K (Unit {0})
set_p_sem_add p v = on_pcbs (Pcb.at p λ h. record h { p_sem_add = upd h.p_sem_add p v })

abbrev pub get_p_support_struct : Ptr → K Ptr
get_p_support_struct p = on_pcbs (Pcb.read p λ h. h.p_support_struct p)

abbrev pub set_p_support_struct : Ptr → Ptr → K (Unit {0})
set_p_support_struct p s =
    on_pcbs (Pcb.at p λ h. record h { p_support_struct = upd h.p_support_struct p s })

-- The globals.
abbrev pub set_process_count : ℕ → K (Unit {0})
set_process_count n k = ok tt (record k { process_count = n })

abbrev pub set_soft_block_count : ℕ → K (Unit {0})
set_soft_block_count n k = ok tt (record k { soft_block_count = n })

abbrev pub set_ready_queue : Ptr → K (Unit {0})
set_ready_queue p k = ok tt (record k { ready_queue = p })

abbrev pub set_current_process : Ptr → K (Unit {0})
set_current_process p k = ok tt (record k { current_process = p })

-- `*a = v` for an `int *a`.
abbrev pub set_sem : Ptr → ℕ → K (Unit {0})
set_sem a v k = ok tt (record k { sem = upd k.sem a v })

abbrev pub set_dev : ℕ → ℕ → K (Unit {0})
set_dev a v k = ok tt (record k { dev = upd k.dev a v })

abbrev pub set_saved : State → K (Unit {0})
set_saved s k = ok tt (record k { saved = s })

-- `savedState->s_v0 = v`.
abbrev pub set_saved_reg : ℕ → ℕ → K (Unit {0})
set_saved_reg r v k = ok tt (record k { saved = set_reg r v k.saved })

-- `STCK`: the next value of the clock register over the time scale. The C division traps at a time
-- scale of 0, which the hardware does not have; here the quotient is 0.
unfoldable pub stck : K ℕ
stck k = ok (sdiv32 (k.tod k.tod_reads) k.timescale) (record k { tod_reads = k.tod_reads + 1 })

abbrev pub set_timer : ℕ → K (Unit {0})
set_timer t k = ok tt (record k { timer = t })

-- `LDIT`.
abbrev pub ldit : ℕ → K (Unit {0})
ldit t k = ok tt (record k { interval_timer = mul32 t k.timescale })

-- A queue whose tail pointer is `readyQueue`.
abbrev pub insert_ready : Ptr → K (Unit {0})
insert_ready p = do
  tail ← λ k. ok k.ready_queue k
  tail ← on_pcbs (Pcb.insert_proc_q tail p)
  set_ready_queue tail

abbrev pub remove_ready : K Ptr
remove_ready = do
  tail ← λ k. ok k.ready_queue k
  (p, tail) ← on_pcbs (Pcb.remove_proc_q tail)
  set_ready_queue tail
  pure p

abbrev pub out_ready : Ptr → K Ptr
out_ready p = do
  tail ← λ k. ok k.ready_queue k
  (q, tail) ← on_pcbs (Pcb.out_proc_q tail p)
  set_ready_queue tail
  pure q

abbrev pub bios_data_page : Ptr
bios_data_page = 0x0fff_f000

-- `*s` for a `state_t *s`.
unfoldable pub read_state : Layout → Ptr → K State
read_state l s k =
    if s == bios_data_page
    then ok k.saved k
    else elim (l.pcb_of_state s) [ none ↦ ok (k.state_at s) k | some p ↦ get_p_s p k ]
