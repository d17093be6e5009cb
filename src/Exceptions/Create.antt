-- ===== src/Exceptions/Create.antt =====
-- `sysCreateProcess`.
use pandos.Prelude.{
  ◌<◌, ◌≡◌, refl, sym, ap, ◌∙◌, ◌≢◌, List, [], ◌∷◌, ◌++◌, arith, ◌==◌, if◌then◌else◌, ◌∉◌, length,
  none, ne_of_mem, apart_sym, Bool-cases, inl, inr,
}
use mathlib.Core.Path.{subst}
use pandos.Prelude.Word.{add32}
use pandos.Types.{Ptr, null, max_proc, State}
use pandos.Run.{ok, Returns, returns, Returns-ok, Returns-of}
use pandos.Pcb.{Store, upd, reset, insert_proc_q}
use pandos.Pcb.Access.{ne_test, at-ok, upd_self, upd-ne}
use pandos.Pcb.Pool.{allocated, alloc_pcb-allocated}
use pandos.Pcb.Queue.{Requeues, insert_proc_q-append}
use pandos.Pcb.Ring.{IsProcQ}
use pandos.Pcb.Tree.{HasChildren, Siblings-frame, adopted, insert_child-adopted, insert_child-cons}
use pandos.Kernel.{Kernel, Layout, read_state, bios_data_page}
use pandos.Exceptions.{sys_create_process}
use pandos.Exceptions.Lists.{HasLists, HasLists-same, queued, queued-HasLists, taken-HasLists}

-- What `*statep` is, for a state that is not in a pcb.
abbrev pub state_of : Kernel → Ptr → State
state_of k statep = if statep == bios_data_page then k.saved else k.state_at statep

read_outside :
    (lay : Layout) (k : Kernel) (statep : Ptr)
    → lay.pcb_of_state statep ≡ none
    → read_state lay statep k ≡ ok (state_of k statep) k
unfolding read_state
read_outside lay k statep outside = elim (Bool-cases (statep == bios_data_page)) [
  | inl e ↦ rw e
  | inr n ↦ rw (n, outside)
]

-- The child `x` of the current process is ready, with the state `s`.
pub record Created (k : Kernel) (x : Ptr) (s : State) (supportp : Ptr) (w : Ptr → List Ptr)
    (rs fs xs : List Ptr) (g : Kernel) : Type 0 where
  pub lists : HasLists g w (rs ++ (x ∷ [])) fs
  pub children : HasChildren g.asl.pcbs k.current_process (x ∷ xs)
  pub state : g.asl.pcbs.p_s x ≡ s
  pub support : g.asl.pcbs.p_support_struct x ≡ supportp
  pub time : g.asl.pcbs.p_time x ≡ 0
  pub unblocked : g.asl.pcbs.p_sem_add x ≡ null
  pub current : g.current_process ≡ k.current_process
  pub count : g.process_count ≡ add32 k.process_count 1

module _ (k : Kernel) (x : Ptr) (s : State) (supportp : Ptr) {w : Ptr → List Ptr}
    {rs fs xs : List Ptr} (l : HasLists k w rs (x ∷ fs)) (room : length rs < max_proc)
    (c : HasChildren k.asl.pcbs k.current_process xs) (real : k.current_process ≢ null)
    (other : k.current_process ≢ x) (fresh : x ∉ xs) where
  x_real : x ≢ null
  x_real = l.free.chain.1

  -- The pcb as `allocPcb` gives it, and filled in.
  abbrev filled : Store
  filled = record (allocated k.asl.pcbs x) {
    p_s = upd (allocated k.asl.pcbs x).p_s x s;
    p_support_struct = upd (allocated k.asl.pcbs x).p_support_struct x supportp;
    p_time = upd (allocated k.asl.pcbs x).p_time x 0;
    p_sem_add = upd (allocated k.asl.pcbs x).p_sem_add x null;
  }

  filled-HasChildren : HasChildren filled k.current_process xs
  unfolding reset
  filled-HasChildren = record {
    chain =
        Siblings-frame _ _ _ filled.p_prnt filled.p_sib_left filled.p_sib_right k.current_process
          null (k.asl.pcbs.p_child k.current_process) _ xs (upd-ne _ null other)
          (λ b i.
            let n = ne_of_mem xs i fresh in (upd-ne _ null n, upd-ne _ null n, upd-ne _ null n))
          c.chain;
    distinct = c.distinct;
  }

  abbrev joined : Store
  joined = adopted filled k.current_process x

  joined-HasChildren : HasChildren joined k.current_process (x ∷ xs)
  joined-HasChildren =
      let r = insert_child-cons x filled-HasChildren real x_real fresh in
      Returns-of (rw (insert_child-adopted filled real x_real) at r)

  joined-HasLists : HasLists (record k { asl = record (k.asl) { pcbs = joined } }) w rs fs
  unfolding reset
  joined-HasLists =
      taken-HasLists x joined l refl refl refl (λ b n. upd-ne _ null n ∙ upd-ne _ null n)

  module _ (tail : Ptr) (g : Store) (inserted : insert_proc_q k.ready_queue x joined ≡ ok tail g)
      (q : IsProcQ g tail (rs ++ (x ∷ []))) (m : Requeues (x ∷ rs) joined g) where
    -- The state at the end.
    abbrev created : Kernel
    created = record (queued k tail g) { process_count = add32 k.process_count 1 }

    created_run :
        (lay : Layout) (statep : Ptr)
        → lay.pcb_of_state statep ≡ none
        → s ≡ state_of k statep
        → sys_create_process lay statep supportp k ≡ ok 0 created
    unfolding sys_create_process
    created_run lay statep outside e =
        let first : Kernel = record k { asl = record (k.asl) { pcbs = allocated k.asl.pcbs x } } in
        rw (
          alloc_pcb-allocated l.free,
          ne_test x_real,
          read_outside lay first statep outside,
          sym e,
          at-ok x_real,
          at-ok x_real,
          at-ok x_real,
          at-ok x_real,
          insert_child-adopted filled real x_real,
          inserted,
        )

    created-Created : Created k x s supportp w rs fs xs created
    created-Created = record {
      lists = HasLists-same created refl refl (
          queued-HasLists x tail g joined-HasLists room l.free.distinct.0
            (λ t. apart_sym (w t) (x ∷ fs) (l.used t) x (ground arith)) q m);
      children =
          subst (λ h. HasChildren h k.current_process (x ∷ xs)) (sym m.rest)
            (record { chain = joined-HasChildren.chain; distinct = joined-HasChildren.distinct });
      state = ap (λ (h : Store). h.p_s x) m.rest ∙ upd_self _ x s;
      support = ap (λ (h : Store). h.p_support_struct x) m.rest ∙ upd_self _ x supportp;
      time = ap (λ (h : Store). h.p_time x) m.rest ∙ upd_self _ x 0;
      unblocked = ap (λ (h : Store). h.p_sem_add x) m.rest ∙ upd_self _ x null;
      current = refl;
      count = refl;
    }

-- `sysCreateProcess` with a free pcb, for a state that is not itself in a pcb: the first free pcb becomes
-- the first child of the current process and the last of the ready queue, with the state and the
-- support structure given, no time used and no semaphore; the count of processes is one more, 0 is
-- returned, and the queues of the semaphores and the other free pcbs are as they were.
pub sys_create_process-Created :
    (lay : Layout) (k : Kernel) (statep supportp : Ptr) {x : Ptr} {w : Ptr → List Ptr}
    {rs fs xs : List Ptr}
    → HasLists k w rs (x ∷ fs)
    → length rs < max_proc
    → HasChildren k.asl.pcbs k.current_process xs
    → k.current_process ≢ null
    → k.current_process ≢ x
    → x ∉ xs
    → lay.pcb_of_state statep ≡ none
    → Returns
        (λ v g. (v ≡ 0) × Created k x (state_of k statep) supportp w rs fs xs g)
        (sys_create_process lay statep supportp k)
sys_create_process-Created lay k statep supportp {x} {w} {rs} {fs} {xs} l room c real other fresh
      outside =
    let s = state_of k statep in
    let (tail, g, e, (et, q, m)) = Returns-ok (
      insert_proc_q-append x (joined-HasLists k x s supportp l room c real other fresh).ready
        l.free.chain.1 (l.apart x (ground arith))) in
    rw (created_run k x s supportp l room c real other fresh tail g e q m lay statep outside refl)
      (returns (refl, created-Created k x s supportp l room c real other fresh tail g e q m))
