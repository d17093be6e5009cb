-- ===== src/SysSupport.antt =====
-- phase3/sysSupport.c, less `supTerminate`. A `char` is a byte, signed when it becomes an `int`.
pub mod Characters
pub mod Write
pub mod Typing
pub mod Line
use pandos.Prelude.{
  ℕ, zero, suc, ◌+◌, ◌-◌, ◌||◌, ◌&&◌, Bool, not, ◌==◌, leb, ltb, length, List, [], ◌∷◌,
  if◌then◌else◌,
}
use Prim.Native.Nat.{bit_or}
use pandos.Prelude.Word.{word_mod, add32, sub32, is_nonpos, slt32, low_bits, shr, shl}
use pandos.Types.{Ptr, a0, a1, a2, a3}
use pandos.Run.{ok, fault, pure, ◌>>=◌, ◌>>◌}
use pandos.Pcb.{upd}
use pandos.Kernel.{stck}
use pandos.Exceptions.{general_except, dev_reg_addr}
use pandos.Support.{
  Support, Places, S, System, reads, on_kernel, syscall, syscall_, through, put_dev,
  disable_interrupts, enable_interrupts, get_except_state, put_except_state, put_v0, resume,
}
use pandos.Support.Number
use pandos.Terminate.{sup_terminate}
use pandos.Delay.{sup_delay}
use pandos.Dma.{dma_read_disk, dma_write_disk, dma_read_flash, dma_write_flash}

abbrev pub max_len : ℕ
max_len = 128

abbrev pub kuseg : ℕ
kuseg = 0x8000_0000

abbrev pub newline : ℕ
newline = 10

-- A `char` as an `int`.
unfoldable pub sign_extend : (byte : ℕ) → ℕ
sign_extend byte = if leb 128 byte then byte + word_mod - 256 else byte

-- `n` characters from `address` on.
pub load_chars : (n address : ℕ) → Support → List ℕ
load_chars zero address s = []
load_chars (suc n) address s = s.mem address ∷ load_chars n (add32 address 1) s

-- The copy into `buffer[129]`; no characters for a length that is not positive, and a fault if they do
-- not fit.
unfoldable pub read_buffer : (length address : ℕ) → S (List ℕ)
unfolding load_chars
read_buffer len address =
    if (len == 0) || leb len max_len then reads (load_chars len address) else (λ _. fault)

pub store_chars : (address : ℕ) → List ℕ → S (Unit {0})
store_chars address [] = pure tt
store_chars address (c ∷ cs) = do
  λ s. ok tt (record s { mem = upd s.mem address c })
  store_chars (add32 address 1) cs

-- What `supWriteToPrinter` and `supWriteToTerminal` reject.
unfoldable pub is_bad_string : (length address : ℕ) → Bool
is_bad_string len address = is_nonpos len || slt32 max_len len || ltb address kuseg

module _ (y : System) where
  -- The result goes to v0, the semaphore of the device is released, and the process goes on.
  unfoldable pub finish : {A : Type 0} → (support device_sem result : ℕ) → S A
  finish support device_sem result = do
    syscall_ y Number.verhogen device_sem 0 0
    put_v0 support general_except result
    resume support general_except

  -- A failed character: v0 is set before the semaphore is released.
  unfoldable pub give_up : {A : Type 0} → (support device_sem status : ℕ) → S A
  give_up support device_sem status = do
    put_v0 support general_except (sub32 0 status)
    syscall_ y Number.verhogen device_sem 0 0
    resume support general_except

  -- SYS5 with the interrupts off.
  unfoldable pub wait_for : (line number which : ℕ) → S ℕ
  wait_for line number which = do
    disable_interrupts
    status ← syscall y Number.wait_io line number which
    enable_interrupts
    pure status

  unfoldable pub print_char : (number c : ℕ) → S ℕ
  print_char number c = do
    let printer = dev_reg_addr 6 number
    put_dev (add32 printer 8) (sign_extend c)
    disable_interrupts
    put_dev (add32 printer 4) 2
    status ← syscall y Number.wait_io 6 number 0
    enable_interrupts
    pure status

  unfoldable pub transmit_char : (number c : ℕ) → S ℕ
  transmit_char number c = do
    put_dev (add32 (dev_reg_addr 7 number) 12) (bit_or (shl (sign_extend c) 8) 2)
    wait_for 7 number 1

  unfoldable pub receive_char : (number : ℕ) → S ℕ
  receive_char number = do put_dev (add32 (dev_reg_addr 7 number) 4) 2; wait_for 7 number 1

  -- The loop over the characters: `sent` have been written. It gives the number of characters.
  pub write_loop : (write_char : (c : ℕ) → S ℕ) (ready support device_sem sent : ℕ) → List ℕ → S ℕ
  write_loop write_char ready support device_sem sent [] = pure sent
  write_loop write_char ready support device_sem sent (c ∷ cs) = do
    status ← write_char c
    if low_bits status 8 == ready
        then write_loop write_char ready support device_sem (sent + 1) cs
        else give_up support device_sem status

  -- The loop of `supReadTerminal`: at most `fuel` more characters, which is MAX_LEN less those read. It
  -- gives the characters read.
  pub read_loop : (fuel number support device_sem : ℕ) → S (List ℕ)
  read_loop zero number support device_sem = pure []
  read_loop (suc fuel) number support device_sem = do
    status ← receive_char number
    if low_bits status 8 == 5
        then (do
          let ch = low_bits (shr status 8) 8
          if ch == newline
              then pure (ch ∷ [])
              else (do rest ← read_loop fuel number support device_sem; pure (ch ∷ rest)))
        else give_up support device_sem status

module _ (y : System) (l : Places) where
  -- `supWriteToPrinter` and `supWriteToTerminal`, which differ in the device, its semaphore and the status
  -- of success.
  pub sup_write :
      {A : Type 0}
      → (write_char : (number c : ℕ) → S ℕ) (ready : ℕ) (device_sem : (number : ℕ) → Ptr) → S A
  unfolding write_loop
  sup_write write_char ready device_sem = do
    support ← syscall y Number.get_support_ptr 0 0 0
    through support
    state ← get_except_state support general_except
    let address = state.s_reg a1
    let len = state.s_reg a2
    if is_bad_string len address then sup_terminate y l else pure tt
    asid ← reads λ s. s.sup_asid support
    let number = sub32 asid 1
    buffer ← read_buffer len address
    syscall_ y Number.passeren (device_sem number) 0 0
    sent ← write_loop y (write_char number) ready support (device_sem number) 0 buffer
    finish y support (device_sem number) sent

  unfoldable pub sup_write_to_printer : {A : Type 0} → S A
  unfolding sup_write
  sup_write_to_printer = sup_write (print_char y) 1 l.printer_sem

  unfoldable pub sup_write_to_terminal : {A : Type 0} → S A
  unfolding sup_write
  sup_write_to_terminal = sup_write (transmit_char y) 5 l.term_write_sem

  unfoldable pub sup_read_terminal : {A : Type 0} → S A
  unfolding read_loop store_chars
  sup_read_terminal = do
    support ← syscall y Number.get_support_ptr 0 0 0
    through support
    state ← get_except_state support general_except
    let address = state.s_reg a1
    if ltb address kuseg then sup_terminate y l else pure tt
    asid ← reads λ s. s.sup_asid support
    let number = sub32 asid 1
    syscall_ y Number.passeren (l.term_read_sem number) 0 0
    buffer ← read_loop y max_len number support (l.term_read_sem number)
    store_chars address buffer
    finish y support (l.term_read_sem number) (length buffer)

  unfoldable pub sup_get_tod : {A : Type 0} → Ptr → S A
  sup_get_tod support = do
    now ← on_kernel stck
    put_v0 support general_except now
    resume support general_except

  unfoldable pub support_prog_trap_handler : S (Unit {0})
  support_prog_trap_handler = do syscall_ y Number.verhogen l.swap_pool_sem 0 0; sup_terminate y l

  -- The switch of `supportSyscallHandler`. The stores of DEVICE_READY behind the DMA calls are not
  -- reached, since those leave by LDST.
  pub support_syscall_switch : (support number x1 x2 x3 : ℕ) → S (Unit {0})
  support_syscall_switch support number x1 x2 x3 =
      if number == Number.terminate
      then sup_terminate y l
      else if number == Number.get_tod
      then sup_get_tod support
      else if number == Number.write_printer
      then sup_write_to_printer
      else if number == Number.write_terminal
      then sup_write_to_terminal
      else if number == Number.read_terminal
      then sup_read_terminal
      else if number == Number.disk_get
      then dma_read_disk y l x2 x3 x1
      else if number == Number.disk_put
      then dma_write_disk y l x2 x3 x1
      else if number == Number.flash_get
      then dma_read_flash y l x2 x3 x1
      else if number == Number.flash_put
      then dma_write_flash y l x2 x3 x1
      else if number == Number.delay
      then sup_delay y l x1
      else sup_terminate y l

  -- The state is `sup_exceptState[GENERALEXCEPT]` of the support structure.
  unfoldable pub support_syscall_handler : (support : Ptr) → S (Unit {0})
  unfolding support_syscall_switch
  support_syscall_handler support = do
    state ← get_except_state support general_except
    put_except_state support general_except (record state { s_pc = add32 state.s_pc 4 })
    support_syscall_switch support (state.s_reg a0) (state.s_reg a1) (state.s_reg a2)
        (state.s_reg a3)

  -- The codes 4 to 7 and 9 to 12 are program traps.
  unfoldable pub is_prog_trap : (code : ℕ) → Bool
  is_prog_trap code = leb 4 code && leb code 12 && not (code == 8)

  unfoldable pub support_gen_exception_handler : S (Unit {0})
  support_gen_exception_handler = do
    support ← syscall y Number.get_support_ptr 0 0 0
    through support
    state ← get_except_state support general_except
    let code = shr (low_bits state.s_cause 8) 2
    if is_prog_trap code
        then support_prog_trap_handler
        else if code == 8
        then support_syscall_handler support
        else sup_terminate y l
