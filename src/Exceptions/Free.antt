-- ===== src/Exceptions/Free.antt =====
-- The end of `sysTerminate`: the pcb goes to the free list.
use pandos.Prelude.{
  ◌-◌, ◌<◌, ◌^◌, ◌≡◌, refl, ◌≢◌, false, List, [], ◌∷◌, arith, ◌==◌, if◌then◌else◌, ◌∈◌, ◌∉◌,
  Bool-cases, inl, inr, ==_refl, ne_of_mem, ==_iff, apart_sym,
}
use pandos.Prelude.Word.{sub32, is_nonpos}
use pandos.Types.{Ptr, null}
use pandos.Run.{Run, ok, stop, halt}
use pandos.Pcb.{upd, free_pcb}
use pandos.Pcb.Access.{ne_test, at-ok}
use pandos.Pcb.Pool.{FreeChain-frame}
use pandos.Pcb.Ring.{IsProcQ-links}
use pandos.Pcb.Queue.{Requeues}
use pandos.Asl.Waiting.{Requeues-IsProcQ}
use pandos.Kernel.{Kernel}
use pandos.Exceptions.{free_one}
use pandos.Exceptions.Lists.{HasLists, HasWaiters-links, HasWaiters-Requeues}

-- The state after `free_one`.
abbrev pub freed : Ptr → Kernel → Kernel
freed p k = record k {
  asl = record (k.asl) {
    pcbs = record (k.asl.pcbs) { p_next = upd k.asl.pcbs.p_next p k.asl.pcbs.free_h; free_h = p };
  };
  current_process = if p == k.current_process then null else k.current_process;
  process_count = k.process_count - 1;
}

-- How `sysTerminate` ends for a pcb.
abbrev pub ending : Kernel → Run Kernel (Unit {0})
ending g = if g.process_count == 0 then stop halt g else ok tt g

module _ (p : Ptr) (k : Kernel) (real : p ≢ null) (some : 0 < k.process_count)
    (small : k.process_count < 2 ^ 31) where
  pub free_one-freed : free_one p k ≡ ending (freed p k)
  unfolding free_one free_pcb
  free_one-freed =
      let pos : is_nonpos k.process_count ≡ false = ground arith in
      let less : sub32 k.process_count 1 ≡ k.process_count - 1 = omega arith in
      elim (Bool-cases (p == k.current_process)) [
        | inl e ↦ rw (e, ne_test real, at-ok real, pos, less)
        | inr e ↦ rw (e, ne_test real, at-ok real, pos, less)
      ]

module _ (p : Ptr) (k : Kernel) (real : p ≢ null) {w : Ptr → List Ptr} {rs fs : List Ptr}
    (b : HasLists k w rs fs) (f : p ∉ fs) (r : p ∉ rs) (o : (s : Ptr) → p ∉ w s) where
  -- Only the link of `p` changes.
  freed-Requeues :
      Requeues
        (p ∷ [])
        k.asl.pcbs
        (record (k.asl.pcbs) { p_next = upd k.asl.pcbs.p_next p k.asl.pcbs.free_h })
  unfolding upd
  freed-Requeues = record { nexts = λ c n. ground arith; prevs = λ c n. refl; rest = refl }

  other : (xs : List Ptr) → p ∉ xs → (c : Ptr) → c ∈ xs → c ∉ (p ∷ [])
  other xs n c i = rw (ne_test (ne_of_mem xs i n))

  freed_or :
      (xs : List Ptr) → p ∉ xs → ((c : Ptr) → c ∈ fs → c ∉ xs) → (c : Ptr) → c ∈ (p ∷ fs) → c ∉ xs
  freed_or xs n out c i = elim (Bool-cases (c == p)) [
    | inl e ↦ rw ((==_iff c p).0 e) n
    | inr ne ↦ out c (rw ne at i)
  ]

  pub freed-HasLists : HasLists (freed p k) w rs (p ∷ fs)
  unfolding upd
  freed-HasLists = record {
    ready =
        IsProcQ-links (freed p k).asl.pcbs refl refl
          (Requeues-IsProcQ freed-Requeues (other rs r) b.ready);
    short = b.short;
    waiters =
        HasWaiters-links (freed p k).asl.pcbs refl refl
          (HasWaiters-Requeues freed-Requeues (λ s. other (w s) (o s)) b.waiters);
    few = b.few;
    owner = b.owner;
    real = b.real;
    free = record {
      chain = (
        refl,
        real,
        rw ==_refl (
            FreeChain-frame k.asl.pcbs.p_next _ k.asl.pcbs.free_h fs (λ c i. ground arith)
              b.free.chain),
      );
      distinct = (f, b.free.distinct);
    };
    apart = freed_or rs r b.apart;
    unready = b.unready;
    used = λ s. apart_sym (p ∷ fs) (w s) (freed_or (w s) (o s) (apart_sym (w s) fs (b.used s)));
  }
