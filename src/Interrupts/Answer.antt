-- ===== src/Interrupts/Answer.antt =====
-- `sysWaitIO`, and the interrupt of the device that the process waits for.
use pandos.Prelude.{
  ℕ, ◌<◌, ◌≡◌, refl, ap, ◌∙◌, ◌≢◌, true, false, some, List, [], ◌∷◌, ◌++◌, arith, ◌==◌, length,
  erase, erase_head, erase_not-mem, Bool-cases, inl, inr, ==_iff, ==_refl, ◌∉◌,
}
use mathlib.Core.Path.{subst, fun_ext}
use pandos.Prelude.Word.{word_mod, add32, sub32, is_neg}
use pandos.Types.{Ptr, null, State, set_reg, v0, max_proc}
use pandos.Run.{Stop, ldst, Stops, stops, Stops-mono}
use pandos.Pcb.{upd}
use pandos.Pcb.Access.{ne_test, ne_of_test, upd_self, upd-ne}
use pandos.Asl.{max_int}
use pandos.Asl.Unblock.{member_real}
use pandos.Kernel.{Kernel, Layout}
use pandos.Exceptions.{sys_wait_io, wait_index, term_int, dev_reg_addr}
use pandos.Exceptions.Lists.{HasLists, HasLists-same}
use pandos.Exceptions.Join.{joins, IsOut}
use pandos.Exceptions.WaitIo.{soft_blocked}
use pandos.Exceptions.Asleep.{Asleep, HasRoom, sys_wait_io-Asleep}
use pandos.Interrupts.{lowest_device, int_dev_bitmap_addr, handle_device_interrupt}
use pandos.Interrupts.Deliver.{semaphore_of, handle_device_interrupt-Delivered}

-- The process `p`, which was the current one, is ready again with the status of the device in v0. The
-- queues of the semaphores, the semaphores and the counts are those of `k`, and `y` is current.
pub record Answered (k : Kernel) (p status y : Ptr) (w : Ptr → List Ptr) (ys fs : List Ptr)
    (g : Kernel) : Type 0 where
  pub lists : HasLists g w (ys ++ (p ∷ [])) fs
  pub state : g.asl.pcbs.p_s p ≡ set_reg v0 status k.saved
  pub others : (b : Ptr) → b ≢ p → g.asl.pcbs.p_s b ≡ k.asl.pcbs.p_s b
  pub current : g.current_process ≡ y
  pub sems : (t : Ptr) → g.sem t ≡ k.sem t
  pub soft : g.soft_block_count ≡ k.soft_block_count
  pub count : g.process_count ≡ k.process_count

pub left_again :
    (s p : Ptr) (w : Ptr → List Ptr)
    → w s ≡ []
    → ((t : Ptr) → p ∉ w t)
    → (λ t. erase p (joins s p w t)) ≡ w
left_again s p w e o = fun_ext λ t. elim (Bool-cases (t == s)) [
  | inl i ↦ rw ((==_iff t s).0 i, ==_refl, e) (erase_head p [])
  | inr n ↦ rw n (erase_not-mem p (w t) (o t))
]

pub sems_again :
    (k : Kernel) (s t : Ptr)
    → k.sem s ≡ 0
    → upd (upd k.sem s (sub32 (k.sem s) 1)) s (add32 (sub32 (k.sem s) 1) 1) t ≡ k.sem t
sems_again k s t e = elim (Bool-cases (t == s)) [
  | inl i ↦ rw ((==_iff t s).0 i, upd_self (upd k.sem s (sub32 (k.sem s) 1)) s _, e)
  | inr n ↦
      let ne = ne_of_test n in upd-ne (upd k.sem s (sub32 (k.sem s) 1)) _ ne ∙ upd-ne k.sem _ ne
]

-- The kernel when the device interrupts: the processor has saved the state of the process that runs,
-- and the registers of the devices are new.
abbrev pub interrupted : State → (ℕ → ℕ) → Kernel → Kernel
interrupted saved dev k = record k { saved = saved; dev = dev }

module _ (l : Layout) (k : Kernel) (line dev : ℕ) (saved : State) (regs : ℕ → ℕ) {y : Ptr}
    {w : Ptr → List Ptr} {ys fs : List Ptr} (b : HasLists k w (y ∷ ys) fs) (nt : line ≢ term_int)
    (low : lowest_device (regs (int_dev_bitmap_addr line)) ≡ some dev)
    (o : IsOut k.current_process w (y ∷ ys) fs) (empty : w (semaphore_of l line dev) ≡ [])
    (zero_sem : k.sem (semaphore_of l line dev) ≡ 0) (word : k.soft_block_count < word_mod) where
  abbrev s : Ptr
  s = semaphore_of l line dev

  abbrev p : Ptr
  p = k.current_process

  awake :
      (how : Stop) (g : Kernel)
      → Asleep (soft_blocked k) s w y ys fs how g
      → Stops {A = Unit {0}}
          (λ x f. (x ≡ ldst saved) × Answered k p (regs (dev_reg_addr line dev)) y w ys fs f)
          (handle_device_interrupt l line (interrupted saved regs g))
  awake how g z =
      let g1 = interrupted saved regs g in
      let value : g.sem ≡ upd k.sem s (sub32 (k.sem s) 1) = ap (λ (x : Kernel). x.sem) z.rest in
      let down : g.sem s ≡ sub32 (k.sem s) 1 =
        ap (λ f. f s) value ∙ upd_self k.sem s (sub32 (k.sem s) 1) in
      let queue : joins s p w s ≡ p ∷ [] = rw (==_refl, empty) refl in
      let cur : g.current_process ≡ y = ap (λ (x : Kernel). x.current_process) z.rest in
      let (f, e, d) =
        handle_device_interrupt-Delivered l g1 line dev nt low (rw (down, zero_sem) refl)
          (HasLists-same g1 refl refl z.lists) queue (omega (arith, b.short)) in
      let other : (g.current_process == null) ≡ false = rw cur (ne_test (member_real b.ready)) in
      rw (e, other)
        (stops (
          refl,
          record {
            lists =
                subst (λ v. HasLists f v (ys ++ (p ∷ [])) fs) (left_again s p w empty o.unwaiting)
                  d.lists;
            state =
                d.state
                ∙ ap (set_reg v0 (regs (dev_reg_addr line dev)))
                    (ap (λ h. h p) z.states ∙ upd_self k.asl.pcbs.p_s p k.saved);
            others = λ c n. d.others c n ∙ ap (λ h. h c) z.states ∙ upd-ne k.asl.pcbs.p_s k.saved n;
            current = ap (λ (x : Kernel). x.current_process) d.rest ∙ cur;
            sems = λ t.
                ap (λ (x : Kernel). x.sem t) d.rest
                ∙ rw (value, upd_self k.sem s (sub32 (k.sem s) 1)) (sems_again k s t zero_sem);
            soft =
                d.soft ∙ rw (ap (λ (x : Kernel). x.soft_block_count) z.rest) (omega (arith, word));
            count =
                ap (λ (x : Kernel). x.process_count) d.rest
                ∙ ap (λ (x : Kernel). x.process_count) z.rest;
          },
        ))

-- The third argument counts for terminals only.
pub same_device :
    (l : Layout) (k : Kernel) (line dev sub : ℕ)
    → (line == term_int) ≡ false
    → sys_wait_io l line dev sub k ≡ sys_wait_io l line dev 0 k
unfolding sys_wait_io wait_index
same_device l k line dev sub e = rw e

-- `sysWaitIO` for a device that is no terminal, whose semaphore is 0 and without processes that wait,
-- when another process is ready, and then the interrupt of that device, the lowest pending one of its
-- line, with the state of the process that runs, `saved`, and the device registers, `regs`, as they
-- are then. The caller is in none of the lists before, the semaphore's address is none of 0, NULL and MAXINT,
-- it has a descriptor or one is free, and the count of the soft-blocked is a word. The first ready
-- process is loaded; after the interrupt it goes on, and the caller is the last one ready, with its
-- state of before but the status of the device in v0. The queues of the semaphores, the semaphores
-- and the counts are as they were before the call, and so are the states of the other processes.
pub sys_wait_io-Answered :
    (l : Layout) (k : Kernel) (line dev sub : ℕ) (saved : State) (regs : ℕ → ℕ) {y : Ptr}
    {w : Ptr → List Ptr} {ys fs : List Ptr} (b : HasLists k w (y ∷ ys) fs)
    → line ≢ term_int
    → lowest_device (regs (int_dev_bitmap_addr line)) ≡ some dev
    → IsOut k.current_process w (y ∷ ys) fs
    → HasRoom b (semaphore_of l line dev)
    → 0 < semaphore_of l line dev
    → semaphore_of l line dev ≢ null
    → semaphore_of l line dev ≢ max_int
    → w (semaphore_of l line dev) ≡ []
    → k.sem (semaphore_of l line dev) ≡ 0
    → k.soft_block_count < word_mod
    → Stops
        (λ how g.
          (how ≡ ldst (k.asl.pcbs.p_s y))
          × Stops {A = Unit {0}}
              (λ x f.
                (x ≡ ldst saved)
                × Answered k k.current_process (regs (dev_reg_addr line dev)) y w ys fs f)
              (handle_device_interrupt l line (interrupted saved regs g)))
        (sys_wait_io l line dev sub k)
sys_wait_io-Answered l k line dev sub saved regs {w} b nt low o room lo real named empty zero word =
    let few : length (w (semaphore_of l line dev)) < max_proc = rw empty (ground arith) in
    let down : is_neg (sub32 (k.sem (semaphore_of l line dev)) 1) ≡ true = rw zero refl in
    rw (same_device l k line dev sub (ne_test nt)) (
      Stops-mono (sys_wait_io-Asleep l k line dev 0 b o room lo real named few down)
        λ how g z. (z.loaded, awake l k line dev saved regs b nt low o empty zero word how g z))
