-- ===== src/Vm/Evict.antt =====
-- The pager of phase3/vmSupport.c when every frame is occupied.
use pandos.Prelude.{
  ℕ, ◌+◌, ◌-◌, ◌%◌, ◌<◌, ◌≡◌, ◌≢◌, ◌∙◌, refl, ap, arith, ◌==◌, ==_refl, false, leb, Bool-cases, inl,
  inr, if◌then◌else◌, ◌&&◌,
}
use pandos.Prelude.Word.{word_mod, test_bit}
use pandos.Types.{Ptr, null}
use pandos.Run.{Returns, returns, Returns-bind, Returns-mono}
use pandos.Support.{SwapEntry, Support, System, through, page_table_size}
use pandos.Vm.{
  swap_pool_size, valid_entry_lo, invalidate, get_free_frame, pick_victim_frame, get_support_struct,
  update_tlb, invalidate_entry, evict, write_page_to_backing_store, load_page_from_backing_store,
  choose_frame, page_in,
}
use pandos.Vm.Install.{Ready, transfer_page-Keeps, install-Installed}
use pandos.Exceptions.{page_of_vpn}
use pandos.Pcb.Access.{ne_test, read-ok}

-- The process with the ASID has the support structure.
pub record HasSupport (s : Support) (asid : ℕ) (support : Ptr) : Type 0 where
  pub index : asid < 9
  pub process : s.asid_process_table asid ≢ null
  pub structure : s.kernel.asl.pcbs.p_support_struct (s.asid_process_table asid) ≡ support
  pub real : support ≢ null

-- The entry of the page is not valid any more, and the other entries are as before.
pub record Invalidated (support : Ptr) (page : ℕ) (s t : Support) : Type 0 where
  pub entry : t.kernel.entry_lo support page ≡ invalidate (s.kernel.entry_lo support page)
  pub others :
      (p : Ptr) (i : ℕ) → (p ≡ support → i ≢ page) → t.kernel.entry_lo p i ≡ s.kernel.entry_lo p i
  pub swap_pool : t.swap_pool ≡ s.swap_pool
  pub except_state : t.kernel.except_state ≡ s.kernel.except_state

update_tlb-same :
    (y : System) (support : Ptr) (page : ℕ) (s : Support)
    → Returns
        (λ _ t. (t.kernel ≡ s.kernel) × (t.swap_pool ≡ s.swap_pool))
        (update_tlb y support page s)
unfolding update_tlb
update_tlb-same y support page s =
    elim (Bool-cases (
      test_bit
        (y.probe (s.kernel.entry_hi support page)
          (record s { entry_hi = s.kernel.entry_hi support page }))
        31)) [ inl e ↦ rw e (returns (refl, refl)) | inr e ↦ rw e (returns (refl, refl)) ]

-- The page table of the support structure with the entry made invalid.
abbrev invalidated : Ptr → (page : ℕ) → Support → Ptr → ℕ → ℕ
invalidated support page s q j =
    if (q == support) && (j == page)
    then invalidate (s.kernel.entry_lo support page)
    else s.kernel.entry_lo q j

Invalidated-of :
    (support : Ptr) (page : ℕ) (s t : Support)
    → t.kernel.entry_lo ≡ invalidated support page s
    → t.swap_pool ≡ s.swap_pool
    → t.kernel.except_state ≡ s.kernel.except_state
    → Invalidated support page s t
Invalidated-of support page s t e f g = record {
  entry = ap (λ h. h support page) e ∙ rw (==_refl support, ==_refl page) refl;
  others = λ p i n. ap (λ h. h p i) e ∙ ground (arith, n);
  swap_pool = f;
  except_state = g;
}

invalidate_entry-Invalidated :
    (y : System) (support : Ptr) (page : ℕ) (s : Support)
    → support ≢ null
    → page < page_table_size
    → Returns (λ _ t. Invalidated support page s t) (invalidate_entry y support page s)
unfolding invalidate_entry through
invalidate_entry-Invalidated y support page s real lt =
    let lt32 : leb 32 page ≡ false = ground arith in
    rw (ne_test real, lt32)
      (Returns-mono (update_tlb-same y support page _) λ _ t (k, p).
        Invalidated-of support page s t (ap (λ g. g.entry_lo) k) p (ap (λ g. g.except_state) k))

-- The page has taken the victim's place.
pub record Replaced (victim_support : Ptr) (victim_index : ℕ) (support : Ptr) (asid vpn frame : ℕ)
    (s t : Support) : Type 0 where
  pub entry : t.swap_pool frame ≡ (record { asid = asid; vpn = vpn; occupied = 1 })
  pub other_entries : (j : ℕ) → j ≢ frame → t.swap_pool j ≡ s.swap_pool j
  pub page : t.kernel.entry_lo support (page_of_vpn vpn) ≡ valid_entry_lo frame
  pub victim_page :
      (victim_support ≡ support → victim_index ≢ page_of_vpn vpn)
      → t.kernel.entry_lo victim_support victim_index
        ≡ invalidate (s.kernel.entry_lo victim_support victim_index)
  pub other_pages :
      (p : Ptr) (i : ℕ)
      → (p ≡ support → i ≢ page_of_vpn vpn)
      → (p ≡ victim_support → i ≢ victim_index)
      → t.kernel.entry_lo p i ≡ s.kernel.entry_lo p i

module _ (y : System) (s : Support) (victim_support : Ptr)
    (owner : HasSupport s (s.swap_pool s.swap_index).asid victim_support)
    (victim_page : page_of_vpn (s.swap_pool s.swap_index).vpn < page_table_size)
    (victim_ready : Ready y (s.swap_pool s.swap_index).asid) where
  abbrev victim : SwapEntry
  victim = s.swap_pool s.swap_index

  evict-Invalidated :
      Returns
        (λ _ t. Invalidated victim_support (page_of_vpn victim.vpn) s t)
        (evict y s.swap_index (record s { swap_index = (s.swap_index + 1) % swap_pool_size }))
  unfolding evict get_support_struct write_page_to_backing_store
  evict-Invalidated =
      let small : leb 9 victim.asid ≡ false = ground (arith, owner.index) in
      rw (small, read-ok owner.process, owner.structure)
        (Returns-bind {P = λ _ t. Invalidated victim_support (page_of_vpn victim.vpn) s t}
          (Returns-mono (invalidate_entry-Invalidated y victim_support _ _ owner.real victim_page)
            λ _ t i. record {
              entry = i.entry;
              others = i.others;
              swap_pool = i.swap_pool;
              except_state = i.except_state;
            })
          λ _ t i. Returns-mono (transfer_page-Keeps y _ victim_ready 3 _ _ _) λ _ u k. record {
            entry = ap (λ h. h victim_support (page_of_vpn victim.vpn)) k.entry_lo ∙ i.entry;
            others = λ p j n. ap (λ h. h p j) k.entry_lo ∙ i.others p j n;
            swap_pool = k.swap_pool ∙ i.swap_pool;
            except_state = k.except_state ∙ i.except_state;
          })

  -- With every frame occupied, the victim's owner and page in order, and the flash devices of the
  -- victim and of the process ready, the pager's steps 6 to 11 return with the page in the victim's
  -- frame: its entries in the swap pool and the page table are those of the page, the victim's page is
  -- not valid any more (unless it is the page that came in), and every other entry of the swap pool
  -- and of a page table is as before.
  pub page_in-Replaced :
      (support : Ptr) (asid vpn : ℕ)
      → support ≢ null
      → page_of_vpn vpn < page_table_size
      → get_free_frame s ≡ word_mod - 1
      → Ready y asid
      → Returns
          (λ _ t.
            Replaced victim_support (page_of_vpn victim.vpn) support asid vpn s.swap_index s t)
          (page_in y support asid vpn s)
  unfolding page_in choose_frame pick_victim_frame load_page_from_backing_store
  page_in-Replaced support asid vpn real lt full ready = rw full (
      Returns-bind
        {P = λ f u. (f ≡ s.swap_index) × Invalidated victim_support (page_of_vpn victim.vpn) s u}
        (Returns-bind evict-Invalidated λ _ u i. returns (refl, i))
        λ f u (e, i). rw e (
          Returns-bind (transfer_page-Keeps y asid ready 2 vpn s.swap_index u) λ _ w k.
            Returns-mono (install-Installed y asid vpn s.swap_index real lt k) λ _ t j. record {
              entry = j.entry;
              other_entries = λ f n. j.other_entries f n ∙ ap (λ h. h f) i.swap_pool;
              page = j.page;
              victim_page = λ n. j.other_pages victim_support (page_of_vpn victim.vpn) n ∙ i.entry;
              other_pages = λ p q n m. j.other_pages p q n ∙ i.others p q m;
            }))
