-- ===== src/Vm/Install.antt =====
-- The pager of phase3/vmSupport.c on a free frame: the page table and the swap pool that it leaves.
use pandos.Prelude.{ℕ, ◌-◌, ◌<◌, ◌≡◌, ◌≢◌, ◌∙◌, refl, ap, arith, ◌==◌, ==_refl, false, leb}
use pandos.Prelude.Word.{word_mod, sub32, low_bits, shr}
use pandos.Types.{Ptr, null}
use pandos.Run.{ldst, Returns, returns, Returns-bind, Stops, stops, Returns-Stops}
use pandos.Support.{Support, Places, System, syscall, syscall_, through, put_dev, page_table_size}
use pandos.Support.Number
use pandos.Vm.{
  swap_pool_size, free_frame_loop, pager_handler, flash_of, valid_entry_lo, get_free_frame,
  choose_frame, transfer_page, load_page_from_backing_store, install, page_in,
}
use pandos.Exceptions.{page_of_vpn, pg_fault_except}
use pandos.Exceptions.PassUp.{support_of}
use pandos.Pcb.Access.{ne_test, read-ok}

-- What the pager works on is unchanged: the swap pool, the page tables and the exception states.
pub record Keeps (s t : Support) : Type 0 where
  pub swap_pool : t.swap_pool ≡ s.swap_pool
  pub entry_lo : t.kernel.entry_lo ≡ s.kernel.entry_lo
  pub except_state : t.kernel.except_state ≡ s.kernel.except_state

-- A SYSCALL that returns, and nobody has changed what the pager works on in between.
abbrev pub Steady : System → (number x1 x2 x3 : ℕ) → Type 0
Steady y number x1 x2 x3 = (s : Support) → Returns (λ r t. Keeps s t) (y.call number x1 x2 x3 s)

-- The wait for the flash device returns with the device ready.
abbrev pub Ready : System → (asid : ℕ) → Type 0
Ready y asid =
    (s : Support)
    → Returns (λ r t. Keeps s t × (t.kernel.dev (flash_of asid) ≡ 1))
        (y.call Number.wait_io 4 (sub32 asid 1) 0 s)

syscall_-Keeps :
    (y : System) (number x1 x2 x3 : ℕ) (s : Support)
    → Steady y number x1 x2 x3
    → Returns (λ _ t. Keeps s t) (syscall_ y number x1 x2 x3 s)
unfolding syscall
syscall_-Keeps y number x1 x2 x3 s steady = Returns-bind (steady _) λ r t k.
    returns
      (record { swap_pool = k.swap_pool; entry_lo = k.entry_lo; except_state = k.except_state })

module _ (y : System) (asid : ℕ) (ready : Ready y asid) where
  pub transfer_page-Keeps :
      (command vpn frame : ℕ) (s : Support)
      → Returns (λ r t. Keeps s t) (transfer_page y command asid vpn frame s)
  unfolding transfer_page put_dev syscall
  transfer_page-Keeps command vpn frame s =
      Returns-bind {P = λ r t. Keeps s t × (t.kernel.dev (flash_of asid) ≡ 1)}
        (Returns-bind (ready _) λ r t k. returns (
          record {
            swap_pool = k.0.swap_pool;
            entry_lo = k.0.entry_lo;
            except_state = k.0.except_state;
          },
          k.1,
        ))
        λ r t k. rw k.1 (
          returns (record {
            swap_pool = k.0.swap_pool;
            entry_lo = k.0.entry_lo;
            except_state = k.0.except_state;
          }))

-- The page is in the frame: its entries in the swap pool and in the page table, and the rest as before.
pub record Installed (support : Ptr) (asid vpn frame : ℕ) (s t : Support) : Type 0 where
  pub entry : t.swap_pool frame ≡ (record { asid = asid; vpn = vpn; occupied = 1 })
  pub other_entries : (j : ℕ) → j ≢ frame → t.swap_pool j ≡ s.swap_pool j
  pub page : t.kernel.entry_lo support (page_of_vpn vpn) ≡ valid_entry_lo frame
  pub other_pages :
      (p : Ptr) (i : ℕ)
      → (p ≡ support → i ≢ page_of_vpn vpn)
      → t.kernel.entry_lo p i ≡ s.kernel.entry_lo p i
  pub except_state : t.kernel.except_state ≡ s.kernel.except_state

Installed-Keeps :
    {support : Ptr} {asid vpn frame : ℕ} {s t u : Support}
    → Installed support asid vpn frame s t
    → Keeps t u
    → Installed support asid vpn frame s u
Installed-Keeps {support} {asid} {vpn} {frame} i k = record {
  entry = ap (λ f. f frame) k.swap_pool ∙ i.entry;
  other_entries = λ j n. ap (λ f. f j) k.swap_pool ∙ i.other_entries j n;
  page = ap (λ f. f support (page_of_vpn vpn)) k.entry_lo ∙ i.page;
  other_pages = λ p j n. ap (λ f. f p j) k.entry_lo ∙ i.other_pages p j n;
  except_state = k.except_state ∙ i.except_state;
}

pub install-Installed :
    (y : System) {support : Ptr} (asid vpn frame : ℕ) {s u : Support}
    → support ≢ null
    → page_of_vpn vpn < page_table_size
    → Keeps s u
    → Returns
        (λ _ t. Installed support asid vpn frame s t)
        (install y support asid vpn (page_of_vpn vpn) frame u)
unfolding install
install-Installed y {support} asid vpn frame {s} {u} real lt k =
    let lt32 : leb 32 (page_of_vpn vpn) ≡ false = ground arith in
    let ne : (support == null) ≡ false = ground arith in
    rw (ne, lt32)
      (returns (record {
        entry = rw ==_refl;
        other_entries = λ j n. ground (arith, k.swap_pool);
        page = rw (==_refl, ==_refl) refl;
        other_pages = λ p i n. ground (arith, n, k.entry_lo);
        except_state = k.except_state;
      }))

-- The page that the exception in `sup_exceptState[PGFAULTEXCEPT]` is about.
abbrev pub missing_vpn : Ptr → Support → ℕ
missing_vpn support s = shr (s.kernel.except_state support pg_fault_except).s_entry_hi 12

module _ (y : System) (support : Ptr) (frame : ℕ) (s : Support) (real : support ≢ null)
    (free : get_free_frame s ≡ frame) (is_frame : frame < swap_pool_size)
    (ready : Ready y (s.sup_asid support)) where
  page_in-Installed :
      (vpn : ℕ) {u : Support}
      → page_of_vpn vpn < page_table_size
      → Keeps s u
      → Returns
          (λ _ t. Installed support (s.sup_asid support) vpn frame s t)
          (page_in y support (s.sup_asid support) vpn u)
  unfolding page_in choose_frame load_page_from_backing_store get_free_frame
  page_in-Installed vpn {u} lt k =
      let same : free_frame_loop swap_pool_size 0 u.swap_pool ≡ frame =
        ap (free_frame_loop swap_pool_size 0) k.swap_pool ∙ free in
      let ne : (frame == (word_mod - 1)) ≡ false = ground arith in
      rw (same, ne)
        (Returns-bind (transfer_page-Keeps y _ ready 2 vpn frame u) λ r t m.
          install-Installed y _ vpn frame real lt (record {
            swap_pool = m.swap_pool ∙ k.swap_pool;
            entry_lo = m.entry_lo ∙ k.entry_lo;
            except_state = m.except_state ∙ k.except_state;
          }))

  -- A page fault of a process with a support structure, on a page that the page table has and with a
  -- free frame, when the SYSCALLs of the pager return with the swap pool, the page tables and the
  -- exception states unchanged and the flash device ready: the frame belongs to the page afterwards,
  -- the page's entry is valid and names the frame, no other entry of a swap pool or page table has
  -- changed, and the process goes on from where it was.
  pub pager_handler-Installed :
      {A : Type 0} (l : Places)
      → s.kernel.current_process ≢ null
      → support_of s.kernel ≡ support
      → low_bits (s.kernel.except_state support pg_fault_except).s_cause 8 ≢ 1
      → page_of_vpn (missing_vpn support s) < page_table_size
      → Steady y Number.passeren l.swap_pool_sem 0 0
      → Steady y Number.verhogen l.swap_pool_sem 0 0
      → Stops
          (λ x t.
            (x ≡ ldst (s.kernel.except_state support pg_fault_except))
            × Installed support (s.sup_asid support) (missing_vpn support s) frame s t)
          (pager_handler y {A = A} l s)
  unfolding pager_handler through
  pager_handler-Installed l current sup cause lt p v =
      let ne : (support == null) ≡ false = ground arith in
      rw (read-ok current, sup, ne, ne_test cause)
        (Returns-Stops (syscall_-Keeps y _ _ _ _ _ p) λ r t k.
          let same : shr (t.kernel.except_state support pg_fault_except).s_entry_hi 12
              ≡ missing_vpn support s =
            rw k.except_state refl in
          Returns-Stops
            (page_in-Installed _ (rw same lt) (record {
              swap_pool = k.swap_pool;
              entry_lo = k.entry_lo;
              except_state = k.except_state;
            }))
            λ r u i.
              Returns-Stops (syscall_-Keeps y _ _ _ _ u v)
                λ r w m. let j = Installed-Keeps i m in stops (rw j.except_state refl, rw⁻¹ same j))
