-- ===== src/Dma.antt =====
-- phase3/deviceSupportDMA.c: blocks between the disk or flash devices and the memory of a user process.
-- A device number, a block number and a status are words; a division by zero is a fault.
pub mod Blocks
pub mod Negative
pub mod Copy
pub mod Reject
pub mod Flash
use pandos.Prelude.{ℕ, zero, suc, ◌+◌, Bool, ◌||◌, not, ◌==◌, if◌then◌else◌}
use Prim.Native.Nat.{bit_or}
use pandos.Prelude.Word.{add32, sub32, mul32, sdiv32, srem32, slt32, is_neg, low_bits, shr, shl}
use pandos.Types.{Ptr}
use pandos.Run.{ok, fault, pure, ◌>>=◌, ◌>>◌}
use pandos.Pcb.{upd}
use pandos.Exceptions.{general_except, dev_reg_addr}
use pandos.Support.{
  Places, S, System, syscall, get_dev, put_dev, disable_interrupts, enable_interrupts, put_v0,
  resume,
}
use pandos.Support.Number
use pandos.Vm.{ram_start, page_size}
use pandos.Terminate.{sup_terminate}

abbrev pub disk_line : ℕ
disk_line = 3

abbrev pub flash_line : ℕ
flash_line = 4

abbrev pub seek_cyl : ℕ
seek_cyl = 2

abbrev pub read_blk : ℕ
read_blk = 2

abbrev pub write_blk : ℕ
write_blk = 3

-- The DMA buffer of a device, in a frame from `start` on.
abbrev pub dma_address : (start number : ℕ) → ℕ
dma_address start number = add32 ram_start (mul32 (add32 start number) page_size)

-- `for (i = ..; ..) to[i] = from[i]`, `n` bytes from `i` on.
pub copy_bytes : (n i from to : ℕ) → S (Unit {0})
copy_bytes zero i from to = pure tt
copy_bytes (suc n) i from to = do
  λ s. ok tt (record s { mem = upd s.mem (add32 to i) (s.mem (add32 from i)) })
  copy_bytes n (i + 1) from to

-- The size of a disk, as its DATA1 register gives it.
pub record Geometry : Type 0 where
  pub max_cyl : ℕ
  pub max_head : ℕ
  pub max_sect : ℕ

unfoldable pub geometry_of : (data1 : ℕ) → Geometry
geometry_of data1 = record {
  max_cyl = low_bits (shr data1 16) 16;
  max_head = low_bits (shr data1 8) 8;
  max_sect = low_bits data1 8;
}

-- A place on a disk.
pub record Place : Type 0 where
  pub cyl : ℕ
  pub head : ℕ
  pub sect : ℕ

unfoldable pub place_of : Geometry → (block : ℕ) → Place
place_of g block =
    let per_cyl = mul32 g.max_head g.max_sect in
    let rem = srem32 block per_cyl in
    record {
      cyl = sdiv32 block per_cyl;
      head = sdiv32 rem g.max_sect;
      sect = srem32 rem g.max_sect;
    }

unfoldable pub is_outside : Geometry → Place → Bool
is_outside g p =
    not (slt32 p.cyl g.max_cyl) || not (slt32 p.head g.max_head) || not (slt32 p.sect g.max_sect)

-- The command that transfers a block of the cylinder the disk is at.
abbrev pub disk_command : Place → (command : ℕ) → ℕ
disk_command p command = bit_or (bit_or (shl p.head 24) (shl p.sect 16)) command

-- A flash command, with the interrupts off until the device has answered.
unfoldable pub flash_transfer : System → (flash number command : ℕ) → S ℕ
flash_transfer y flash number command = do
  disable_interrupts
  put_dev (add32 flash 4) command
  status ← syscall y Number.wait_io flash_line number 0
  enable_interrupts
  pure status

module _ (y : System) (l : Places) where
  abbrev pub terminate_if : Bool → S (Unit {0})
  terminate_if b = if b then sup_terminate y l else pure tt

  -- The place of the block, and a check of its bounds.
  unfoldable pub locate : (disk block : ℕ) → S Place
  locate disk block = do
    data1 ← get_dev (add32 disk 12)
    let g = geometry_of data1
    if (mul32 g.max_head g.max_sect == 0) || (g.max_sect == 0)
        then (λ _. fault)
        else do terminate_if (is_outside g (place_of g block)); pure (place_of g block)

  -- The head moves to the cylinder.
  unfoldable pub seek : (disk number cyl : ℕ) → S (Unit {0})
  seek disk number cyl = do
    put_dev (add32 disk 4) (bit_or (shl cyl 8) seek_cyl)
    status ← syscall y Number.wait_io disk_line number 0
    terminate_if (not (status == 1))

  -- What a device reports at the end: back to the process with the negated status unless it is ready.
  abbrev pub check_status : (support : Ptr) (status : ℕ) → S (Unit {0})
  check_status support status =
      if low_bits status 8 == 1
      then pure tt
      else do put_v0 support general_except (sub32 0 status); resume support general_except

  abbrev pub return_ready : {A : Type 0} → Ptr → S A
  return_ready support = do put_v0 support general_except 1; resume support general_except

  unfoldable pub dma_write_disk : {A : Type 0} → (disk_num block_num src_addr : ℕ) → S A
  dma_write_disk disk_num block_num src_addr = do
    support ← syscall y Number.get_support_ptr 0 0 0
    terminate_if (is_neg disk_num || not (slt32 disk_num 8))
    let dma_addr = dma_address 16 disk_num
    copy_bytes 4096 0 src_addr dma_addr
    let disk = dev_reg_addr disk_line disk_num
    place ← locate disk block_num
    put_dev (add32 disk 8) dma_addr
    seek disk disk_num place.cyl
    put_dev (add32 disk 4) (disk_command place write_blk)
    status ← syscall y Number.wait_io disk_line disk_num 0
    check_status support status
    return_ready support

  unfoldable pub dma_read_disk : {A : Type 0} → (disk_num block_num dest_addr : ℕ) → S A
  dma_read_disk disk_num block_num dest_addr = do
    support ← syscall y Number.get_support_ptr 0 0 0
    terminate_if (is_neg disk_num || not (slt32 disk_num 8))
    let dma_addr = dma_address 16 disk_num
    let disk = dev_reg_addr disk_line disk_num
    place ← locate disk block_num
    put_dev (add32 disk 8) dma_addr
    seek disk disk_num place.cyl
    put_dev (add32 disk 4) (disk_command place read_blk)
    status ← syscall y Number.wait_io disk_line disk_num 0
    check_status support status
    copy_bytes 4096 0 dma_addr dest_addr
    return_ready support

  unfoldable pub dma_read_flash : {A : Type 0} → (flash_num block_num dest_addr : ℕ) → S A
  dma_read_flash flash_num block_num dest_addr = do
    support ← syscall y Number.get_support_ptr 0 0 0
    terminate_if (is_neg flash_num || not (slt32 flash_num 8))
    let dma_addr = dma_address 24 flash_num
    let flash = dev_reg_addr flash_line flash_num
    max_block ← get_dev (add32 flash 12)
    terminate_if (is_neg block_num || not (slt32 block_num max_block))
    put_dev (add32 flash 8) dma_addr
    status ← flash_transfer y flash flash_num (bit_or (shl block_num 8) read_blk)
    check_status support status
    copy_bytes page_size 0 dma_addr dest_addr
    return_ready support

  unfoldable pub dma_write_flash : {A : Type 0} → (flash_num block_num src_addr : ℕ) → S A
  dma_write_flash flash_num block_num src_addr = do
    support ← syscall y Number.get_support_ptr 0 0 0
    terminate_if (is_neg flash_num || not (slt32 flash_num 8))
    let dma_addr = dma_address 24 flash_num
    copy_bytes page_size 0 src_addr dma_addr
    let flash = dev_reg_addr flash_line flash_num
    put_dev (add32 flash 8) dma_addr
    status ← flash_transfer y flash flash_num (bit_or (shl block_num 8) write_blk)
    check_status support status
    return_ready support
