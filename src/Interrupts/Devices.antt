-- ===== src/Interrupts/Devices.antt =====
-- The semaphores of the devices: `sysWaitIO` and `handleDeviceInterrupt` have to agree on them.
use pandos.Prelude.{ℕ, ◌≤◌, ◌<◌, ◌≡◌, ◌≢◌, ◌⊎◌, inl, inr, arith, ◌==◌, Bool-cases}
use pandos.Pcb.Access.{ne_of_test}
use pandos.Prelude.Word.{low_bits}
use pandos.Exceptions.{wait_index, num_devices}
use pandos.Interrupts.{interrupt_index}

-- A line with devices, a device on it, and the sub-device of a terminal (0 elsewhere).
pub record IsDevice (line dev sub : ℕ) : Type 0 where
  pub line_in : (3 ≤ line) × (line ≤ 7)
  pub dev_in : dev < 8
  pub sub_in : sub < 2
  pub only_terminals : line ≢ 7 → sub ≡ 0

-- The index that `sysWaitIO` computes for a device is one of the 48 device semaphores.
wait_index-lt : {l d s : ℕ} → IsDevice l d s → wait_index l d s < num_devices
unfolding wait_index
wait_index-lt i = ground arith

-- Every device, with each of the two halves of a terminal, has a semaphore of its own among the 48
-- device semaphores, that of the pseudo-clock not included: its index is below 48, and two devices
-- are the same or have different indices.
pub wait_index_injective :
    {l d s l' d' s' : ℕ}
    → IsDevice l d s
    → IsDevice l' d' s'
    → (wait_index l d s < num_devices)
      × (((l ≡ l') × (d ≡ d') × (s ≡ s')) ⊎ (wait_index l d s ≢ wait_index l' d' s'))
unfolding wait_index
wait_index_injective {l} {d} {s} {l'} {d'} {s'} i j = (
  wait_index-lt i,
  elim (Bool-cases (wait_index l d s == wait_index l' d' s')) [
    | inl e ↦ inl (ground arith)
    | inr n ↦ inr (ne_of_test n)
  ],
)

-- The interrupt of a device other than a terminal goes to the semaphore that `sysWaitIO` waits
-- on. That of a terminal whose status byte is 5, a character received or sent, always goes to the
-- semaphore of sub-device 1: the two agree for sub-device 1, and for sub-device 0 they differ.
pub interrupt_index-wait_index :
    {l d s : ℕ} (status : ℕ)
    → IsDevice l d s
    → (l ≡ 7 → low_bits status 8 ≡ 5)
    → (((l ≢ 7) ⊎ (s ≡ 1)) × (interrupt_index l d status ≡ wait_index l d s))
      ⊎ ((l ≡ 7)
          × (s ≡ 0)
          × (interrupt_index l d status ≡ wait_index l d 1)
          × (interrupt_index l d status ≢ wait_index l d s))
unfolding wait_index interrupt_index
interrupt_index-wait_index status i five = ground arith
