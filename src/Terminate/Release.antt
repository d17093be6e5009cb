-- ===== src/Terminate/Release.antt =====
-- `supTerminate`: the frames that it frees, and what becomes of the process.
use pandos.Prelude.{
  ℕ, zero, suc, ◌+◌, ◌≡◌, ◌≢◌, inl, inr, refl, sym, ◌∙◌, arith, ◌==◌, if◌then◌else◌, ◌&&◌, not,
  Bool, Bool-cases, leb, ◌∷◌,
}
use pandos.Types.{Ptr, null}
use pandos.Run.{
  stop, terminated, Returns, returns, Returns-mono, Returns-ok, Stops, stops, Returns-Stops,
}
use pandos.Pcb.Access.{ne_test, read-ok, upd_self, upd-ne}
use pandos.Exceptions.PassUp.{support_of}
use pandos.Support.{SwapEntry, Support, Places, called, System, syscall, through}
use pandos.Support.Number
use pandos.Support.Quiet.{IsQuiet, syscall_-Called}
use pandos.Vm.{swap_pool_size, unoccupied, free_frame}
use pandos.Terminate.{release_frame, release_frames, free_support_struct, sup_terminate}

-- Whether the entry belongs to the address space.
abbrev pub is_own : (asid : ℕ) → SwapEntry → Bool
is_own asid e = not (e.occupied == 0) && (e.asid == asid)

-- The swap pool without the frames of the address space, from `i` on, below `e`.
abbrev pub without_own : (asid i e : ℕ) → (ℕ → SwapEntry) → ℕ → SwapEntry
without_own asid i e pool j =
    if leb i j && not (leb e j) && is_own asid (pool j) then unoccupied else pool j

-- The own frames among those are free, and nothing else has changed.
pub record Released (asid i e : ℕ) (pool : ℕ → SwapEntry) (s t : Support) : Type 0 where
  pub after : ℕ → SwapEntry
  pub entries : (j : ℕ) → after j ≡ without_own asid i e pool j
  pub state : t ≡ record s { swap_pool = after }

module _ (s : Support) (current : s.kernel.current_process ≢ null)
    (real : support_of s.kernel ≢ null) where
  abbrev own_asid : ℕ
  own_asid = s.sup_asid (support_of s.kernel)

  release_frame-Released :
      (i : ℕ) (pool : ℕ → SwapEntry)
      → Returns
          (λ _ t. Released own_asid i (i + 1) pool s t)
          (release_frame i (record s { swap_pool = pool }))
  unfolding release_frame through free_frame
  release_frame-Released i pool = elim (Bool-cases ((pool i).occupied == 0)) [
    | inl z ↦ rw z (returns (record { after = pool; entries = λ j. ground arith; state = refl }))
    | inr o ↦
        rw (o, read-ok current, ne_test real)
          (elim (Bool-cases ((pool i).asid == own_asid)) [
            | inl m ↦
                rw m (returns (record { after = _; entries = λ j. ground arith; state = refl }))
            | inr n ↦
                rw n (returns (record { after = pool; entries = λ j. ground arith; state = refl }))
          ])
  ]

  release_frames-Released :
      (n i : ℕ) (pool : ℕ → SwapEntry)
      → Returns
          (λ _ t. Released own_asid i (i + n) pool s t)
          (release_frames n i (record s { swap_pool = pool }))
  unfolding release_frames
  release_frames-Released zero i pool =
      returns (record { after = pool; entries = λ j. ground arith; state = refl })
  release_frames-Released (suc n) i pool =
      let (_, t, e, r) = Returns-ok (release_frame-Released i pool) in
      rw (e, r.state)
        (Returns-mono (release_frames-Released n (i + 1) r.after) λ _ u q. record {
          after = q.after;
          entries = λ j. ground (arith, q.entries j, r.entries j);
          state = q.state;
        })

-- What `supTerminate` leaves behind: its own frames are free, the support structure heads the free list,
-- and it has made the two SYSCALLs.
pub record Gone (l : Places) (support : Ptr) (s t : Support) : Type 0 where
  pub pool :
      (j : ℕ) → t.swap_pool j ≡ without_own (s.sup_asid support) 0 swap_pool_size s.swap_pool j
  pub free_list : t.support_free_list ≡ support
  pub next : t.sup_next support ≡ s.support_free_list
  pub others : (p : Ptr) → p ≢ support → t.sup_next p ≡ s.sup_next p
  pub memory : t.mem ≡ s.mem
  pub trace :
      t.trace
      ≡ called Number.terminate_process 0 0 0
        ∷ called Number.verhogen l.master_semaphore 0 0
        ∷ s.trace

-- `supTerminate` of a process with a support structure, when the V returns quietly and the process gets
-- no further than its last SYSCALL: at that point the occupied frames with its ASID are free and the
-- other entries of the swap pool are as before, its support structure is the head of the free list, and
-- its SYSCALLs were a V on the master semaphore and the termination.
pub sup_terminate-Gone :
    (y : System) (l : Places) (s : Support)
    → s.kernel.current_process ≢ null
    → support_of s.kernel ≢ null
    → IsQuiet y Number.verhogen l.master_semaphore 0 0 (λ _. Unit)
    → ((t : Support) → y.call Number.terminate_process 0 0 0 t ≡ stop terminated t)
    → Stops (λ x t. (x ≡ terminated) × Gone l (support_of s.kernel) s t) (sup_terminate y l s)
unfolding sup_terminate free_support_struct through syscall
sup_terminate-Gone y l s current real v ends =
    let (_, t, e, r) =
      Returns-ok (release_frames-Released s current real swap_pool_size 0 s.swap_pool) in
    rw (e, r.state)
      (Returns-Stops (syscall_-Called y _ _ _ _ _ v _) λ _ u q.
        let c : q.kernel'.current_process ≢ null = λ z. current (sym q.current ∙ z) in
        rw (q.state, read-ok c, q.support, ne_test real, ends)
          (stops (
            refl,
            record {
              pool = λ j. r.entries j;
              free_list = refl;
              next = upd_self _ _ _;
              others = λ p n. upd-ne _ _ n;
              memory = refl;
              trace = refl;
            },
          )))
