-- ===== src/Interrupts/Deliver.antt =====
-- `handleDeviceInterrupt` with a process that waits for the device.
use pandos.Prelude.{
  ℕ, ◌<◌, ◌≡◌, refl, ap, ◌∙◌, ◌≢◌, true, false, none, some, List, [], ◌∷◌, ◌++◌, ◌==◌,
  if◌then◌else◌, length, erase,
}
use pandos.Prelude.Word.{add32, sub32, is_nonpos}
use pandos.Types.{Ptr, null, max_proc, set_reg, v0}
use pandos.Run.{ok, stop, ldst, out_of_fuel}
use pandos.Pcb.{Store, upd, insert_proc_q}
use pandos.Pcb.Access.{ne_test, read-ok, at-ok, upd_self, upd-ne}
use pandos.Asl.{Asl, remove_blocked}
use pandos.Kernel.{Kernel, Layout}
use pandos.Scheduler.{scheduler}
use pandos.Exceptions.{device_semaphore, dev_reg_addr, wait_index, term_int}
use pandos.Exceptions.Lists.{
  HasLists, HasLists-same, HasLists-links, insert_ready-HasLists, waits-Distinct,
}
use pandos.Exceptions.Rouse.{remove_blocked-Roused}
use pandos.Interrupts.{
  acknowledge, int_dev_bitmap_addr, lowest_device, get_highest_priority_device, interrupt_index,
  deliver, handle_device_interrupt,
}

-- The process `x` is ready, with `status` in its register v0.
pub record Delivered (k : Kernel) (x status : Ptr) (w : Ptr → List Ptr) (rs fs : List Ptr)
    (g : Kernel) : Type 0 where
  pub lists : HasLists g (λ t. erase x (w t)) (rs ++ (x ∷ [])) fs
  pub state : g.asl.pcbs.p_s x ≡ set_reg v0 status (k.asl.pcbs.p_s x)
  pub others : (b : Ptr) → b ≢ x → g.asl.pcbs.p_s b ≡ k.asl.pcbs.p_s b
  pub soft : g.soft_block_count ≡ sub32 k.soft_block_count 1
  pub rest :
      g
      ≡ record k { asl = g.asl; ready_queue = g.ready_queue; soft_block_count = g.soft_block_count }

module _ (k : Kernel) (x status s : Ptr) (a : Asl) (real : x ≢ null) where
  -- The pcbs when the status has been stored.
  abbrev told : Store
  told = record (a.pcbs) { p_s = upd a.pcbs.p_s x (set_reg v0 status (a.pcbs.p_s x)) }

  abbrev delivered : Ptr → Store → Kernel
  delivered tail g = record k {
    asl = record a { pcbs = g };
    ready_queue = tail;
    soft_block_count = sub32 k.soft_block_count 1;
  }

  deliver_run :
      (tail : Ptr) (g : Store)
      → remove_blocked s k.asl ≡ ok x a
      → insert_proc_q k.ready_queue x told ≡ ok tail g
      → deliver s status k ≡ (
          if k.current_process == null
          then scheduler (delivered tail g)
          else stop (ldst k.saved) (delivered tail g))
  unfolding deliver
  deliver_run tail g removed inserted =
      rw (removed, ne_test real, read-ok real, at-ok real, inserted)

-- The waiting process that `deliver` takes is the first one of the semaphore.
deliver-Delivered :
    (k : Kernel) (status s : Ptr) {x : Ptr} {xs : List Ptr} {w : Ptr → List Ptr} {rs fs : List Ptr}
    → HasLists k w rs fs
    → w s ≡ x ∷ xs
    → length rs < max_proc
    → (g : Kernel) × (deliver s status k
        ≡ (if k.current_process == null then scheduler g else stop (ldst k.saved) g))
      × Delivered k x status w rs fs g
deliver-Delivered k status s {x} {xs} {w} {rs} {fs} b e room =
    let (a, removed, r) = remove_blocked-Roused s b e in
    let told_lists = HasLists-links (told k x status s a r.real) refl refl refl refl r.lists in
    let (tail, g, inserted, q, same) =
      insert_ready-HasLists x told_lists room r.real r.unready r.used
        (λ t. waits-Distinct x t b.waiters) in
    let old : a.pcbs.p_s ≡ k.asl.pcbs.p_s = ap (λ (h : Store). h.p_s) r.rest in
    (
      delivered k x status s a r.real tail g,
      deliver_run k x status s a r.real tail g removed inserted,
      record {
        lists = HasLists-same (delivered k x status s a r.real tail g) refl refl q;
        state =
            ap (λ (h : Store). h.p_s x) same
            ∙ upd_self a.pcbs.p_s x (set_reg v0 status (a.pcbs.p_s x))
            ∙ ap (λ f. set_reg v0 status (f x)) old;
        others = λ c n.
            ap (λ (h : Store). h.p_s c) same
            ∙ upd-ne a.pcbs.p_s (set_reg v0 status (a.pcbs.p_s x)) n
            ∙ ap (λ f. f c) old;
        soft = refl;
        rest = refl;
      },
    )

-- The semaphore on which `sysWaitIO` waits for a device that is no terminal.
abbrev pub semaphore_of : Layout → (line dev : ℕ) → Ptr
semaphore_of l line dev = device_semaphore l (wait_index line dev 0)

-- The interrupt is acknowledged, and the device's semaphore is incremented.
abbrev pub acknowledged : Layout → Kernel → (line dev : ℕ) → Kernel
acknowledged l k line dev = record k {
  dev = upd k.dev (add32 (dev_reg_addr line dev) 4) 1;
  sem = upd k.sem (semaphore_of l line dev) (add32 (k.sem (semaphore_of l line dev)) 1);
}

same_index :
    (line dev status : ℕ)
    → (line == term_int) ≡ false
    → interrupt_index line dev status ≡ wait_index line dev 0
unfolding interrupt_index wait_index
same_index line dev status e = rw e

device_found :
    (k : Kernel) (line dev : ℕ)
    → lowest_device (k.dev (int_dev_bitmap_addr line)) ≡ some dev
    → get_highest_priority_device line k ≡ ok dev k
unfolding get_highest_priority_device
device_found k line dev low = ap (λ o. elim o [ none ↦ out_of_fuel | some d ↦ ok d k ]) low

acknowledge_run :
    (k : Kernel) (line reg : ℕ)
    → (line == term_int) ≡ false
    → acknowledge line reg k ≡ ok (k.dev reg) (record k { dev = upd k.dev (add32 reg 4) 1 })
unfolding acknowledge
acknowledge_run k line reg nt = rw nt

device_run :
    (l : Layout) (k : Kernel) (line dev : ℕ)
    → (line == term_int) ≡ false
    → lowest_device (k.dev (int_dev_bitmap_addr line)) ≡ some dev
    → is_nonpos (add32 (k.sem (semaphore_of l line dev)) 1) ≡ true
    → handle_device_interrupt l line k
      ≡ deliver
          (semaphore_of l line dev)
          (k.dev (dev_reg_addr line dev))
          (acknowledged l k line dev)
unfolding handle_device_interrupt
device_run l k line dev nt low nonpos =
    let status = k.dev (dev_reg_addr line dev) in
    let i = same_index line dev status nt in
    rw (
      device_found k line dev low,
      acknowledge_run k line (dev_reg_addr line dev) nt,
      i,
      upd_self k.sem (semaphore_of l line dev) (add32 (k.sem (semaphore_of l line dev)) 1),
      nonpos,
    )

-- The interrupt of a device that is no terminal, on a line whose lowest pending device it is, when its
-- semaphore, raised by one, is at or below 0, a process waits on it, and the ready queue has room: the
-- interrupt is acknowledged, the semaphore is incremented, and the first process that waits on the
-- semaphore of `sysWaitIO` for this device goes to the end of the ready queue, with the status of the
-- device in its register v0. It is no longer counted as soft-blocked; the states of the other
-- processes and the other queues are as they were. The handler goes back to the current process, or
-- calls the scheduler where there is none.
pub handle_device_interrupt-Delivered :
    (l : Layout) (k : Kernel) (line dev : ℕ) {x : Ptr} {xs : List Ptr} {w : Ptr → List Ptr}
    {rs fs : List Ptr}
    → line ≢ term_int
    → lowest_device (k.dev (int_dev_bitmap_addr line)) ≡ some dev
    → is_nonpos (add32 (k.sem (semaphore_of l line dev)) 1) ≡ true
    → HasLists k w rs fs
    → w (semaphore_of l line dev) ≡ x ∷ xs
    → length rs < max_proc
    → (g : Kernel) × (handle_device_interrupt l line k
        ≡ (if k.current_process == null then scheduler g else stop (ldst k.saved) g))
      × Delivered (acknowledged l k line dev) x (k.dev (dev_reg_addr line dev)) w rs fs g
handle_device_interrupt-Delivered l k line dev nt low nonpos b e room =
    let k1 = acknowledged l k line dev in
    let (g, f, d) =
      deliver-Delivered k1 (k.dev (dev_reg_addr line dev)) (semaphore_of l line dev)
        (HasLists-same k1 refl refl b) e room in
    (g, device_run l k line dev (ne_test nt) low nonpos ∙ f, d)
