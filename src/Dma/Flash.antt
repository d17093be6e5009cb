-- ===== src/Dma/Flash.antt =====
-- `dmaReadFlash` on a device that delivers the block.
use pandos.Prelude.{
  ℕ, ◌+◌, ◌^◌, ◌<◌, ◌≤◌, ◌≡◌, ◌∙◌, refl, ap, arith, false, ◌||◌, not, ==_refl, inl,
}
use Prim.Native.Nat.{bit_or}
use pandos.Prelude.Word.{word_mod, add32, is_neg, slt32, low_bits, shl}
use pandos.Types.{Ptr, set_reg, v0}
use pandos.Run.{Stop, ldst, Returns, returns, Returns-bind, Stops, stops, Returns-Stops}
use pandos.Pcb.Access.{upd_self, upd-ne}
use pandos.Exceptions.{general_except, dev_reg_addr}
use pandos.Support.{Support, Places, System, syscall, put_dev}
use pandos.Support.Number
use pandos.SysSupport.{kuseg}
use pandos.Dma.{dma_address, flash_transfer, dma_read_flash, read_blk}
use pandos.Dma.Copy.{copy_bytes-Copied}

abbrev pub flash_register : (number : ℕ) → ℕ
flash_register number = dev_reg_addr 4 number

abbrev pub flash_buffer : (number : ℕ) → ℕ
flash_buffer number = dma_address 24 number

-- SYS8 returns the support structure and changes neither the exception states nor the devices.
abbrev pub GivesSupport : System → Ptr → Type 0
GivesSupport y support =
    (s : Support)
    → Returns
        (λ r t.
          (r ≡ support)
          × (t.kernel.except_state ≡ s.kernel.except_state)
          × (t.kernel.dev ≡ s.kernel.dev))
        (y.call Number.get_support_ptr 0 0 0 s)

-- SYS5 on the flash device, given the command to read a block and an address, returns "ready" with the
-- block's 4096 bytes there.
abbrev pub Delivers : System → (number : ℕ) → (content : (block : ℕ) → (i : ℕ) → ℕ) → Type 0
Delivers y number content =
    (block address : ℕ) (s : Support)
    → s.kernel.dev (add32 (flash_register number) 4) ≡ bit_or (shl block 8) read_blk
    → s.kernel.dev (add32 (flash_register number) 8) ≡ address
    → Returns
        (λ r t.
          (low_bits r 8 ≡ 1)
          × ((i : ℕ) → i < 4096 → t.mem (address + i) ≡ content block i)
          × (t.kernel.except_state ≡ s.kernel.except_state))
        (y.call Number.wait_io 4 number 0 s)

module _ (y : System) (number : ℕ) (content : (block : ℕ) → (i : ℕ) → ℕ)
    (delivers : Delivers y number content) where
  flash_transfer-content :
      (block : ℕ) (s : Support)
      → s.kernel.dev (add32 (flash_register number) 8) ≡ flash_buffer number
      → Returns
          (λ r t.
            (low_bits r 8 ≡ 1)
            × ((i : ℕ) → i < 4096 → t.mem (flash_buffer number + i) ≡ content block i)
            × (t.kernel.except_state ≡ s.kernel.except_state))
          (flash_transfer y (flash_register number) number (bit_or (shl block 8) read_blk) s)
  unfolding flash_transfer put_dev syscall
  flash_transfer-content block s e =
      Returns-bind
        (delivers block (flash_buffer number) _ (upd_self _ _ _)
          (upd-ne _ _ (λ x. absurd (omega (arith, x))) ∙ e))
        λ r t (p, c, x). returns (p, c, x)

-- The process goes on with "ready" in v0, and the block is at the address.
pub record Fetched (support dest : ℕ) (content : ℕ → ℕ) (s : Support) (x : Stop) (t : Support)
    : Type 0 where
  pub resumed : x ≡ ldst (set_reg v0 1 (s.kernel.except_state support general_except))
  pub bytes : (i : ℕ) → i < 4096 → t.mem (dest + i) ≡ content i

module _ (y : System) (l : Places) (s : Support) (support : Ptr) (number block dest : ℕ)
    (content : (block : ℕ) → (i : ℕ) → ℕ) where
  -- For a flash device 0 to 7 that has the block and delivers it, and a destination in the user
  -- segment with room for 4096 bytes, `dmaReadFlash` resumes the process with "ready" in v0 and the
  -- block at the destination.
  pub dma_read_flash-Fetched :
      {A : Type 0}
      → GivesSupport y support
      → Delivers y number content
      → number < 8
      → block < s.kernel.dev (add32 (flash_register number) 12)
      → s.kernel.dev (add32 (flash_register number) 12) < 2 ^ 31
      → kuseg ≤ dest
      → dest + 4096 ≤ word_mod
      → Stops
          (Fetched support dest (content block) s)
          (dma_read_flash y l {A = A} number block dest s)
  unfolding dma_read_flash syscall put_dev
  dma_read_flash-Fetched gives delivers small has size low room =
      let in_range : (is_neg number || not (slt32 number 8)) ≡ false = ground arith in
      let on_disk : (is_neg block
            || not (slt32 block (s.kernel.dev (add32 (flash_register number) 12))))
          ≡ false =
        ground arith in
      Returns-Stops (gives _) λ r t (e, x, d).
        rw (in_range, ap (λ f. f (add32 (flash_register number) 12)) d, on_disk)
          (Returns-Stops (flash_transfer-content y number content delivers block _ (upd_self _ _ _))
            λ status u (p, c, w).
              let below : flash_buffer number + 4096 ≤ kuseg = omega arith in
              rw p (
                Returns-Stops
                  (copy_bytes-Copied 4096 0 (flash_buffer number) dest u (omega arith) (omega arith)
                    (inl (omega arith)))
                  λ _ v k.
                    rw (k.state, e, ==_refl support)
                      (stops (record {
                        resumed = rw (w, x) refl;
                        bytes = λ i lt. k.bytes i (omega arith) (omega arith) ∙ c i lt;
                      }))))
