-- ===== src/Exceptions/Asleep.antt =====
-- `sysPasseren` and `sysWaitIO` where the caller has to wait: all the lists that the pcbs are in.
use pandos.Prelude.{
  ℕ, ◌+◌, ◌<◌, ◌≡◌, refl, sym, ap, ◌∙◌, ◌≢◌, ◌⊎◌, true, List, ◌∷◌, arith, length, ne_of_mem,
  apart_sym,
}
use pandos.Prelude.Word.{sub32, is_neg}
use pandos.Types.{Ptr, null, max_proc}
use pandos.Run.{Stop, ldst, Stops, Stops-mono, Stops-bind}
use pandos.Pcb.{Store, upd}
use pandos.Pcb.Access.{upd-ne}
use pandos.Pcb.Ring.{IsProcQ-links}
use pandos.Asl.{max_int}
use pandos.Asl.Search.{lookup}
use pandos.Kernel.{Kernel, Layout}
use pandos.Exceptions.{sys_passeren, sys_wait_io}
use pandos.Exceptions.Lists.{HasLists, HasLists-same, HasLists-owned}
use pandos.Exceptions.Join.{joins, IsOut, Blocks-HasLists, Dispatches-HasLists}
use pandos.Exceptions.Sleep.{put_away, away, sys_passeren-blocked}
use pandos.Exceptions.WaitIo.{soft_blocked, semaphore_of}

-- The current process waits for `s`, behind the others, with its state saved, and `y` runs.
pub record Asleep (k : Kernel) (s : Ptr) (w : Ptr → List Ptr) (y : Ptr) (ys fs : List Ptr)
    (how : Stop) (g : Kernel) : Type 0 where
  pub lists : HasLists g (joins s k.current_process w) ys fs
  pub loaded : how ≡ ldst (k.asl.pcbs.p_s y)
  pub states : g.asl.pcbs.p_s ≡ upd k.asl.pcbs.p_s k.current_process k.saved
  pub rest : g ≡ record k {
    asl = g.asl;
    ready_queue = g.ready_queue;
    current_process = y;
    sem = upd k.sem s (sub32 (k.sem s) 1);
    timer = 5000;
    tod_reads = k.tod_reads + 1;
  }

-- There is a descriptor for the semaphore `s`.
abbrev pub HasRoom :
    {k : Kernel} {w : Ptr → List Ptr} {rs fs : List Ptr} → HasLists k w rs fs → Ptr → Type 0
HasRoom {k} l s = (lookup k.asl.s_sem_add s l.waiters.active ≢ null) ⊎ (0 < length l.waiters.free)

-- P on a semaphore, whose address is none of 0, NULL and MAXINT, that becomes negative: the caller, which is
-- in none of the lists before, joins the end of the semaphore's queue with its state saved, and the first ready
-- process is loaded. The semaphore has a descriptor, or one is free, and fewer than `max_proc` wait.
pub sys_passeren-Asleep :
    (k : Kernel) {w : Ptr → List Ptr} {y : Ptr} {ys fs : List Ptr} (s : Ptr)
    (l : HasLists k w (y ∷ ys) fs)
    → IsOut k.current_process w (y ∷ ys) fs
    → HasRoom l s
    → 0 < s
    → s ≢ null
    → s ≢ max_int
    → length (w s) < max_proc
    → is_neg (sub32 (k.sem s) 1) ≡ true
    → Stops (Asleep k s w y ys fs) (sys_passeren s k)
sys_passeren-Asleep k {w} {y} {ys} {fs} s l o room lo real named few low =
    let p : Ptr = k.current_process in
    let (full, b, m, t) =
      sys_passeren-blocked k s l.waiters.asl (l.waiters.waits s named) lo room l.ready
        (omega (arith, l.short)) o.real (o.unwaiting s) o.unready
        (apart_sym (w s) (y ∷ ys) (l.unready s)) low in
    let l1 : HasLists (away k s) w (y ∷ ys) fs = HasLists-same (away k s) refl refl (
      HasLists-owned (put_away k s) refl refl refl
        (λ t b i. upd-ne k.asl.pcbs.p_sem_add s (ne_of_mem (w t) i (o.unwaiting t))) l) in
    let l2 =
      Blocks-HasLists s p l1 o (λ t n. IsProcQ-links (put_away k s) refl refl (l.waiters.waits t n))
        full b m real named few in
    let yp : y ≢ p = ne_of_mem (y ∷ ys) (ground arith) o.unready in
    Stops-mono t λ how g z. record {
      lists = Dispatches-HasLists how g l2 z;
      loaded = z.loaded ∙ ap ldst (ap (λ f. f y) m.states ∙ upd-ne k.asl.pcbs.p_s k.saved yp);
      states = ap (λ (h : Store). h.p_s) z.requeues.rest ∙ m.states;
      rest =
          z.rest
          ∙ ap
              (λ a. record k {
                asl = a;
                ready_queue = g.ready_queue;
                current_process = y;
                sem = upd k.sem s (sub32 (k.sem s) 1);
                timer = 5000;
                tod_reads = k.tod_reads + 1;
              })
              (sym (ap (λ (x : Kernel). x.asl) z.rest));
    }

-- The lists are not touched by the count of the soft-blocked.
abbrev pub soft_lists :
    {k : Kernel} {w : Ptr → List Ptr} {rs fs : List Ptr}
    → HasLists k w rs fs
    → HasLists (soft_blocked k) w rs fs
soft_lists l = record {
  ready = l.ready;
  short = l.short;
  waiters = l.waiters;
  few = l.few;
  owner = l.owner;
  real = l.real;
  free = l.free;
  apart = l.apart;
  unready = l.unready;
  used = l.used;
}

-- The same for `sysWaitIO`, which counts the caller as soft-blocked first.
pub sys_wait_io-Asleep :
    (lay : Layout) (k : Kernel) {w : Ptr → List Ptr} {y : Ptr} {ys fs : List Ptr} (line dev sub : ℕ)
    (l : HasLists k w (y ∷ ys) fs)
    → IsOut k.current_process w (y ∷ ys) fs
    → HasRoom l (semaphore_of lay line dev sub)
    → 0 < semaphore_of lay line dev sub
    → semaphore_of lay line dev sub ≢ null
    → semaphore_of lay line dev sub ≢ max_int
    → length (w (semaphore_of lay line dev sub)) < max_proc
    → is_neg (sub32 (k.sem (semaphore_of lay line dev sub)) 1) ≡ true
    → Stops
        (Asleep (soft_blocked k) (semaphore_of lay line dev sub) w y ys fs)
        (sys_wait_io lay line dev sub k)
unfolding sys_wait_io
sys_wait_io-Asleep lay k line dev sub l o room lo real named few low = Stops-bind _ (
    sys_passeren-Asleep (soft_blocked k) (semaphore_of lay line dev sub) (soft_lists l) o room lo
      real named few low)
