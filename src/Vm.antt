-- ===== src/Vm.antt =====
-- phase3/vmSupport.c.
pub mod Frames
pub mod Install
pub mod Evict
use pandos.Prelude.{ℕ, zero, suc, ◌+◌, ◌-◌, ◌*◌, ◌%◌, ◌^◌, ◌&&◌, ◌==◌, leb, if◌then◌else◌}
use Prim.Native.Nat.{bit_or}
use pandos.Prelude.Word.{word_mod, add32, sub32, mul32, low_bits, shr, shl, test_bit, clear_low}
use pandos.Types.{Ptr, null}
use pandos.Run.{ok, fault, panic, pure, ◌>>=◌, ◌>>◌, leave}
use pandos.Kernel.{get_p_support_struct}
use pandos.Exceptions.{page_of_vpn, pg_fault_except}
use pandos.Support.{
  SwapEntry, Support, Places, S, System, syscall_, on_kernel, get_dev, put_dev, through,
  disable_interrupts, enable_interrupts, get_except_state, resume, page_table_size,
}
use pandos.Support.Number

abbrev pub swap_pool_size : ℕ
swap_pool_size = 16

abbrev pub swap_pool_start_frame : ℕ
swap_pool_start_frame = 32

abbrev pub page_size : ℕ
page_size = 4096

abbrev pub ram_start : ℕ
ram_start = 0x2000_0000

-- An entry without an owner; -1 at type `int`.
abbrev pub unoccupied : SwapEntry
unoccupied = record { asid = word_mod - 1; vpn = word_mod - 1; occupied = 0 }

abbrev pub set_entry : (i : ℕ) → SwapEntry → Support → Support
set_entry i e s = record s { swap_pool = λ j. if j == i then e else s.swap_pool j }

-- The loop of `initSwapPool`, `n` rounds from `i` on.
pub init_swap_loop : (n i : ℕ) → S (Unit {0})
init_swap_loop zero i = pure tt
init_swap_loop (suc n) i = do λ s. ok tt (set_entry i unoccupied s); init_swap_loop n (i + 1)

unfoldable pub init_swap_pool : S (Unit {0})
unfolding init_swap_loop
init_swap_pool = init_swap_loop swap_pool_size 0

-- The first free frame from `i` on, of `n`; -1 if all are occupied.
pub free_frame_loop : (n i : ℕ) → (ℕ → SwapEntry) → ℕ
free_frame_loop zero i pool = word_mod - 1
free_frame_loop (suc n) i pool =
    let rest = free_frame_loop n (i + 1) pool in if (pool i).occupied == 0 then i else rest

unfoldable pub get_free_frame : Support → ℕ
unfolding free_frame_loop
get_free_frame s = free_frame_loop swap_pool_size 0 s.swap_pool

unfoldable pub pick_victim_frame : S ℕ
pick_victim_frame s =
    ok s.swap_index (record s { swap_index = (s.swap_index + 1) % swap_pool_size })

unfoldable pub free_frame : (frame_index : ℕ) → S (Unit {0})
free_frame i s = ok tt (set_entry i unoccupied s)

-- `getSupportStruct`; the table has the indices 0 to 8.
unfoldable pub get_support_struct : (asid : ℕ) → S Ptr
get_support_struct asid = do
  p ← λ s. if leb 9 asid then fault else ok (s.asid_process_table asid) s
  on_kernel (get_p_support_struct p)

-- The frame's address in RAM, as the flash device is given it.
abbrev pub frame_address : (frame : ℕ) → ℕ
frame_address frame = add32 ram_start (mul32 (add32 swap_pool_start_frame frame) page_size)

-- The entryLo for a frame: FRAMEPOOL + frame * PAGESIZE, valid and dirty.
abbrev pub valid_entry_lo : (frame : ℕ) → ℕ
valid_entry_lo frame =
    bit_or
      (bit_or (add32 (add32 ram_start (swap_pool_start_frame * page_size)) (mul32 frame page_size))
        (2 ^ 9))
      (2 ^ 10)

-- `&~ ENTRYLO_VALID`.
abbrev pub invalidate : (entry_lo : ℕ) → ℕ
invalidate e = if test_bit e 9 then e - 2 ^ 9 else e

-- An entry of the page table of the support structure `p`; an index past its end is a fault.
abbrev pub put_entry_lo : Ptr → (i : ℕ) → (value : ℕ) → S (Unit {0})
put_entry_lo p i v =
    if p == null then (λ _. fault) else if leb page_table_size i then (λ _. fault) else λ s.
    ok tt (record s {
      kernel = record (s.kernel) {
        entry_lo = λ q j. if (q == p) && (j == i) then v else s.kernel.entry_lo q j;
      };
    })

-- FLASH_BASE + (asid - 1) * FLASH_SIZE
abbrev pub flash_of : (asid : ℕ) → ℕ
flash_of asid = add32 0x1000_00d4 (mul32 (sub32 asid 1) 0x10)

-- The page of the backing store, for `loadPageFromBackingStore` and `writePageToBackingStore`.
abbrev pub block_of : (vpn : ℕ) → ℕ
block_of vpn = if vpn == 0xbfff_f then 31 else sub32 vpn 0x80000

module _ (y : System) where
  -- `loadPageFromBackingStore` with READBLK (2) and `writePageToBackingStore` with WRITEBLK (3).
  pub transfer_page : (command asid vpn frame : ℕ) → S (Unit {0})
  transfer_page command asid vpn frame = do
    put_dev (add32 (flash_of asid) 8) (frame_address frame)
    disable_interrupts
    λ s. ok tt (record s { entry_hi = bit_or (clear_low s.entry_hi 12) (shl asid 6) })
    put_dev (add32 (flash_of asid) 4) (bit_or (shl (block_of vpn) 8) command)
    syscall_ y Number.wait_io 4 (sub32 asid 1) 0
    enable_interrupts
    status ← get_dev (flash_of asid)
    if status == 1 then pure tt else leave panic

  unfoldable pub load_page_from_backing_store : (asid vpn frame : ℕ) → S (Unit {0})
  unfolding transfer_page
  load_page_from_backing_store = transfer_page 2

  unfoldable pub write_page_to_backing_store : (asid vpn frame : ℕ) → S (Unit {0})
  unfolding transfer_page
  write_page_to_backing_store = transfer_page 3

  -- The page table entry goes to the TLB if TLBP finds it there.
  unfoldable pub update_tlb : (support : Ptr) (page : ℕ) → S (Unit {0})
  update_tlb support page = do
    λ s. ok tt (record s { entry_hi = s.kernel.entry_hi support page })
    index ← λ s. ok (y.probe s.entry_hi s) s
    if test_bit index 31 then pure tt else λ s. ok tt (record s {
      tlb_at = λ j.
          if j == low_bits index 6
          then (s.entry_hi, s.kernel.entry_lo support page)
          else s.tlb_at j;
    })

  -- The page table entry of the frame's owner is invalidated, in the TLB too if it is there.
  unfoldable pub invalidate_entry : (support : Ptr) (page : ℕ) → S (Unit {0})
  invalidate_entry support page = do
    through support
    λ s. put_entry_lo support page (invalidate (s.kernel.entry_lo support page)) s
    update_tlb support page

  -- Step 8 of the pager: the victim's page goes to the backing store.
  unfoldable pub evict : (frame : ℕ) → S (Unit {0})
  evict frame = do
    victim ← λ s. ok (s.swap_pool frame) s
    disable_interrupts
    support ← get_support_struct victim.asid
    invalidate_entry support (page_of_vpn victim.vpn)
    enable_interrupts
    write_page_to_backing_store victim.asid victim.vpn frame

  -- A free frame, or one that has been made free.
  unfoldable pub choose_frame : S ℕ
  choose_frame = do
    frame ← λ s. ok (get_free_frame s) s
    if frame == word_mod - 1
        then (do victim ← pick_victim_frame; evict victim; pure victim)
        else pure frame

  -- Steps 10 and 11: the swap pool and the page table get the new page; the TLB is cleared.
  unfoldable pub install : (support : Ptr) (asid vpn page frame : ℕ) → S (Unit {0})
  install support asid vpn page frame = do
    λ s. ok tt (set_entry frame (record { asid = asid; vpn = vpn; occupied = 1 }) s)
    disable_interrupts
    put_entry_lo support page (valid_entry_lo frame)
    λ s. ok tt (record s { tlb_at = λ _. (0, 0) })
    enable_interrupts

  -- Steps 6 to 11, with the swap pool locked.
  unfoldable pub page_in : (support : Ptr) (asid vpn : ℕ) → S (Unit {0})
  page_in support asid vpn = do
    frame ← choose_frame
    load_page_from_backing_store asid vpn frame
    install support asid vpn (page_of_vpn vpn) frame

  unfoldable pub pager_handler : {A : Type 0} → Places → S A
  pager_handler l = do
    p ← λ s. ok s.kernel.current_process s
    support ← on_kernel (get_p_support_struct p)
    through support
    asid ← λ s. ok (s.sup_asid support) s
    state ← get_except_state support pg_fault_except
    if low_bits state.s_cause 8 == 1 then syscall_ y Number.terminate_process p 0 0 else pure tt
    syscall_ y Number.passeren l.swap_pool_sem 0 0
    state ← get_except_state support pg_fault_except
    let vpn = shr state.s_entry_hi 12
    page_in support asid vpn
    syscall_ y Number.verhogen l.swap_pool_sem 0 0
    resume support pg_fault_except
