-- ===== src/Interrupts/Idle.antt =====
-- `sysWaitIO` of the only process that could run, and the interrupt of its device.
use pandos.Prelude.{
  ℕ, ◌<◌, ◌≡◌, refl, ap, ◌∙◌, ◌≢◌, true, false, some, List, [], ◌∷◌, arith, ◌==◌, ◌||◌, ◌^◌, leb,
  ◌+◌, ==_refl, length, ne_of_mem,
}
use mathlib.Core.Path.{subst}
use pandos.Prelude.Word.{sub32, is_neg}
use pandos.Types.{Ptr, null, State, set_reg, v0, max_proc}
use pandos.Run.{Stops-bind, Stop, ldst, wait, Stops, stops, Stops-mono}
use pandos.Pcb.{upd}
use pandos.Pcb.Access.{ne_test, upd_self, upd-ne}
use pandos.Pcb.Ring.{IsProcQ-links}
use pandos.Asl.{max_int}
use pandos.Kernel.{Kernel, Layout}
use pandos.Scheduler.{wait_status}
use pandos.Scheduler.Choice.{scheduler-nil, scheduler-Dispatches}
use pandos.Exceptions.{sys_wait_io, sys_passeren, term_int, dev_reg_addr}
use pandos.Exceptions.Lists.{HasLists, HasLists-same, HasLists-owned}
use pandos.Exceptions.Join.{joins, IsOut, Blocks-HasLists, Dispatches-HasLists}
use pandos.Exceptions.Sleep.{put_away, away, sys_passeren-block}
use pandos.Exceptions.WaitIo.{soft_blocked}
use pandos.Exceptions.Asleep.{HasRoom, soft_lists}
use pandos.Interrupts.{lowest_device, int_dev_bitmap_addr, handle_device_interrupt}
use pandos.Interrupts.Deliver.{semaphore_of, handle_device_interrupt-Delivered}
use pandos.Interrupts.Answer.{interrupted, left_again, sems_again, same_device}

-- The caller waits for `s` with its state saved, nobody is ready, and the processor waits.
pub record Idle (k : Kernel) (s : Ptr) (w : Ptr → List Ptr) (fs : List Ptr) (how : Stop)
    (g : Kernel) : Type 0 where
  pub lists : HasLists g (joins s k.current_process w) [] fs
  pub waits : how ≡ wait wait_status
  pub states : g.asl.pcbs.p_s ≡ upd k.asl.pcbs.p_s k.current_process k.saved
  pub current : g.current_process ≡ null
  pub value : g.sem ≡ upd k.sem s (sub32 (k.sem s) 1)
  pub counts : (g.soft_block_count ≡ k.soft_block_count) × (g.process_count ≡ k.process_count)

sys_passeren-Idle :
    (k : Kernel) {w : Ptr → List Ptr} {fs : List Ptr} (s : Ptr) (l : HasLists k w [] fs)
    → IsOut k.current_process w [] fs
    → HasRoom l s
    → 0 < s
    → s ≢ null
    → s ≢ max_int
    → length (w s) < max_proc
    → is_neg (sub32 (k.sem s) 1) ≡ true
    → k.process_count ≢ 0
    → 0 < k.soft_block_count
    → k.soft_block_count < 2 ^ 31
    → Stops (Idle k s w fs) (sys_passeren s k)
sys_passeren-Idle k {w} {fs} s l o room lo real named few low many soft small =
    let p : Ptr = k.current_process in
    let (full, b, m, e) =
      sys_passeren-block k s l.waiters.asl (l.waiters.waits s named) lo room o.real (o.unwaiting s)
        low in
    let l1 : HasLists (away k s) w [] fs = HasLists-same (away k s) refl refl (
      HasLists-owned (put_away k s) refl refl refl
        (λ t b i. upd-ne k.asl.pcbs.p_sem_add s (ne_of_mem (w t) i (o.unwaiting t))) l) in
    let k3 : Kernel = record (away k s) { asl = b } in
    let l2 : HasLists k3 (joins s p w) [] fs =
      Blocks-HasLists s p l1 o (λ t n. IsProcQ-links (put_away k s) refl refl (l.waiters.waits t n))
        full b m real named few in
    let blocked : ((k.soft_block_count == 0) || leb (2 ^ 31) k.soft_block_count) ≡ false =
      ground arith in
    rw (e, scheduler-nil k3 l2.ready, ne_test many, blocked)
      (stops (record {
        lists = HasLists-same (record k3 { current_process = null }) refl refl l2;
        waits = refl;
        states = m.states;
        current = refl;
        value = refl;
        counts = (refl, refl);
      }))

-- The process `p` is loaded with the status of the device in v0, and all else is as it was in `k`.
pub record Revived (k : Kernel) (status : Ptr) (w : Ptr → List Ptr) (fs : List Ptr) (how : Stop)
    (g : Kernel) : Type 0 where
  pub lists : HasLists g w [] fs
  pub loaded : how ≡ ldst (set_reg v0 status k.saved)
  pub current : g.current_process ≡ k.current_process
  pub slice : g.timer ≡ 5000
  pub sems : (t : Ptr) → g.sem t ≡ k.sem t
  pub counts : (g.soft_block_count ≡ k.soft_block_count) × (g.process_count ≡ k.process_count)

module _ (l : Layout) (k : Kernel) (line dev : ℕ) (saved : State) (regs : ℕ → ℕ)
    {w : Ptr → List Ptr} {fs : List Ptr} (nt : line ≢ term_int)
    (low : lowest_device (regs (int_dev_bitmap_addr line)) ≡ some dev)
    (o : IsOut k.current_process w [] fs) (empty : w (semaphore_of l line dev) ≡ [])
    (zero_sem : k.sem (semaphore_of l line dev) ≡ 0) (word : k.soft_block_count + 1 < 2 ^ 31) where
  abbrev s : Ptr
  s = semaphore_of l line dev

  abbrev p : Ptr
  p = k.current_process

  revive :
      (how : Stop) (g : Kernel)
      → Idle (soft_blocked k) s w fs how g
      → Stops {A = Unit {0}}
          (Revived k (regs (dev_reg_addr line dev)) w fs)
          (handle_device_interrupt l line (interrupted saved regs g))
  revive how g z =
      let g1 = interrupted saved regs g in
      let down : g.sem s ≡ sub32 (k.sem s) 1 =
        ap (λ f. f s) z.value ∙ upd_self k.sem s (sub32 (k.sem s) 1) in
      let queue : joins s p w s ≡ p ∷ [] = rw (==_refl, empty) refl in
      let (f, e, d) =
        handle_device_interrupt-Delivered l g1 line dev nt low (rw (down, zero_sem) refl)
          (HasLists-same g1 refl refl z.lists) queue (ground arith) in
      let nobody : (g.current_process == null) ≡ true = rw z.current refl in
      let lists : HasLists f w (p ∷ []) fs =
        subst (λ v. HasLists f v (p ∷ []) fs) (left_again s p w empty o.unwaiting) d.lists in
      rw (e, nobody)
        (Stops-mono (scheduler-Dispatches f lists.ready (ground arith)) λ x h t. record {
          lists = Dispatches-HasLists x h lists t;
          loaded =
              t.loaded
              ∙ ap ldst (
                  d.state
                  ∙ ap (set_reg v0 (regs (dev_reg_addr line dev)))
                      (ap (λ q. q p) z.states ∙ upd_self k.asl.pcbs.p_s p k.saved));
          current = t.current;
          slice = t.slice;
          sems = λ a.
              ap (λ (x : Kernel). x.sem a) t.rest
              ∙ ap (λ (x : Kernel). x.sem a) d.rest
              ∙ rw (z.value, upd_self k.sem s (sub32 (k.sem s) 1)) (sems_again k s a zero_sem);
          counts = (
            ap (λ (x : Kernel). x.soft_block_count) t.rest
                ∙ d.soft
                ∙ rw z.counts.0 (omega (arith, word)),
            ap (λ (x : Kernel). x.process_count) t.rest
                ∙ ap (λ (x : Kernel). x.process_count) d.rest
                ∙ z.counts.1,
          );
        })

-- `sysWaitIO` for a device that is no terminal, whose semaphore is 0 and without processes that wait,
-- when no process is ready, and then the interrupt of that device, the lowest pending one of its line,
-- with the device registers, `regs`, as they are then. The caller is in none of the lists before, the
-- semaphore's address is none of 0, NULL and MAXINT, it has a descriptor or one is free, the process
-- count is not 0, and the count of the soft-blocked is below 2 ^ 31 with the caller. The processor waits
-- for an interrupt with no process current and the caller's state saved, and no deadlock is reported;
-- the interrupt makes the caller current again with a new time slice, in its state of before but with
-- the status of the device in v0. The queues, the semaphores and the counts are as before the call.
pub sys_wait_io-Revived :
    (l : Layout) (k : Kernel) (line dev sub : ℕ) (saved : State) (regs : ℕ → ℕ) {w : Ptr → List Ptr}
    {fs : List Ptr} (b : HasLists k w [] fs)
    → line ≢ term_int
    → lowest_device (regs (int_dev_bitmap_addr line)) ≡ some dev
    → IsOut k.current_process w [] fs
    → HasRoom b (semaphore_of l line dev)
    → 0 < semaphore_of l line dev
    → semaphore_of l line dev ≢ null
    → semaphore_of l line dev ≢ max_int
    → w (semaphore_of l line dev) ≡ []
    → k.sem (semaphore_of l line dev) ≡ 0
    → k.process_count ≢ 0
    → k.soft_block_count + 1 < 2 ^ 31
    → Stops
        (λ how g.
          (how ≡ wait wait_status)
          × (g.current_process ≡ null)
          × (g.asl.pcbs.p_s k.current_process ≡ k.saved)
          × Stops {A = Unit {0}}
              (Revived k (regs (dev_reg_addr line dev)) w fs)
              (handle_device_interrupt l line (interrupted saved regs g)))
        (sys_wait_io l line dev sub k)
unfolding sys_wait_io
sys_wait_io-Revived l k line dev sub saved regs {w} b nt low o room lo real named empty zero many
      word =
    let few : length (w (semaphore_of l line dev)) < max_proc = rw empty (ground arith) in
    let down : is_neg (sub32 (k.sem (semaphore_of l line dev)) 1) ≡ true = rw zero refl in
    rw (same_device l k line dev sub (ne_test nt)) (
      Stops-mono
        (Stops-bind _ (
          sys_passeren-Idle (soft_blocked k) (semaphore_of l line dev) (soft_lists b) o room lo real
            named few down many (omega (arith, word)) (omega (arith, word))))
        λ how g z. (
          z.waits,
          z.current,
          ap (λ f. f k.current_process) z.states
              ∙ upd_self k.asl.pcbs.p_s k.current_process k.saved,
          revive l k line dev saved regs nt low o empty zero word how g z,
        ))
