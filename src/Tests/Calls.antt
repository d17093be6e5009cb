-- ===== src/Tests/Calls.antt =====
-- The theorems on whole calls of the support level at concrete inputs.
use pandos.Prelude.{ℕ, ◌+◌, ◌-◌, ◌*◌, ◌%◌, ◌≡◌, refl, arith, [], ◌==◌, if◌then◌else◌}
use pandos.Prelude.Word.{word_mod}
use pandos.Types.{Ptr}
use pandos.Run.{ok, returns, Returns, Stops}
use pandos.Support.{Support, System}
use pandos.Vm.{page_in, get_free_frame}
use pandos.Exceptions.{page_of_vpn}
use pandos.Vm.Evict.{HasSupport, Replaced, page_in-Replaced}
use pandos.Delay.{init_delay_lists}
use pandos.Delay.Insertion.{IsAdl}
use pandos.Delay.Init.{IsDelayTable, IsFreeList, pushed, init_delay_lists-IsAdl}
use pandos.Dma.{dma_write_disk, dma_read_disk, dma_write_flash, dma_read_flash}
use pandos.Dma.Reject.{Rejected, dma-Rejected}
use pandos.Dma.Flash.{Fetched, flash_register, dma_read_flash-Fetched}
use pandos.Tests.Level.{prompt, places, level, prompt-IsQuiet}

-- All frames belong to page 1 of the process with ASID 2.
abbrev full : Support
full = record level { swap_pool = λ _. record { asid = 2; vpn = 0x80001; occupied = 1 } }

full-owner : HasSupport full 2 3000
full-owner = record {
  index = ground arith;
  process = ground arith;
  structure = refl;
  real = ground arith;
}

page_1 : page_of_vpn 0x80001 ≡ 1
unfolding page_of_vpn
page_1 = refl

page_5 : page_of_vpn 0x80005 ≡ 5
unfolding page_of_vpn
page_5 = refl

full_frames : get_free_frame full ≡ word_mod - 1
unfolding get_free_frame
full_frames = refl

page_in-Replaced_example :
    Returns
      (λ _ t. Replaced 3000 (page_of_vpn 0x80001) 3000 2 0x80005 7 full t)
      (page_in prompt 3000 2 0x80005 full)
page_in-Replaced_example =
    page_in-Replaced prompt full 3000 full-owner (omega (arith, page_1))
      (λ s. returns (record { swap_pool = refl; entry_lo = refl; except_state = refl }, refl)) 3000
      2 0x80005 (ground arith) (omega (arith, page_5)) full_frames
      (λ s. returns (record { swap_pool = refl; entry_lo = refl; except_state = refl }, refl))

abbrev table : ℕ → Ptr
table i = 9000 + 12 * i

table-IsDelayTable : IsDelayTable table
table-IsDelayTable = record { real = λ i lt. ground arith; apart = λ i j li lj e. omega arith }

init_delay_lists-IsAdl_example :
    Returns
      (λ _ t. IsAdl t [] 9096 × IsFreeList t (pushed table 8) 9096)
      (init_delay_lists table level)
init_delay_lists-IsAdl_example = init_delay_lists-IsAdl table table-IsDelayTable level

dma-Rejected_example :
    Stops (Rejected places level) (dma_write_disk prompt places {A = ℕ} 8 0 0x8000_0000 level)
    × Stops (Rejected places level) (dma_read_disk prompt places {A = ℕ} 8 0 0x8000_0000 level)
    × Stops (Rejected places level) (dma_write_flash prompt places {A = ℕ} 8 0 0x8000_0000 level)
    × Stops (Rejected places level) (dma_read_flash prompt places {A = ℕ} 8 0 0x8000_0000 level)
dma-Rejected_example =
    dma-Rejected prompt places level (ground arith) (ground arith)
      (λ s. returns (
        tt,
        record { kernel' = _; state = refl; current = refl; support = refl; except_state = refl },
      ))
      (prompt-IsQuiet 30004) (λ t. refl) 8 (ground arith) (ground arith) 0 0x8000_0000

-- A flash device with the numbers 0 to 255, over and over, in each of its blocks.
abbrev counting : System
counting = record {
  call = λ number x1 x2 x3 s.
      if number == 8
      then ok 3000 s
      else ok 1 (record s { mem = λ a. (a - s.kernel.dev (flash_register x2 + 8)) % 256 });
  probe = λ _ _. 0;
}

dma_read_flash-Fetched_example :
    Stops
      (Fetched 3000 0x8000_2000 (λ i. i % 256) level)
      (dma_read_flash counting places {A = ℕ} 2 0 0x8000_2000 level)
dma_read_flash-Fetched_example =
    dma_read_flash-Fetched counting places level 3000 2 0 0x8000_2000 (λ _ i. i % 256)
      (λ s. returns (refl, refl, refl))
      (λ block address s c a. returns (refl, λ i lt. rw a (omega arith), refl)) (ground arith)
      (ground arith) (ground arith) (ground arith) (ground arith)
