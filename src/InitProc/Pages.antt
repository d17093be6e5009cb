-- ===== src/InitProc/Pages.antt =====
-- The page tables of phase3/initProc.c, and the lookup of an EntryHi in them.
use pandos.Prelude.{
  ℕ, zero, suc, ◌+◌, ◌<◌, ◌≤◌, ◌≡◌, ◌≢◌, refl, arith, Bool, true, ◌&&◌, ◌==◌, Bool-cases, inl, inr,
  ==_iff, ==_refl, ap, ◌∙◌,
}
use pandos.Pcb.Access.{ne_test}
use pandos.Types.{Ptr, null}
use pandos.Run.{Returns, returns, Returns-mono}
use pandos.Support.{Support, through, page_table_size}
use pandos.Exceptions.{page_of_vpn, page_index}
use pandos.InitProc.{page_entry_hi, page_entry_lo, page_loop, init_page_table}

-- The property for all numbers below `n`.
abbrev all_below : (n : ℕ) → (ℕ → Bool) → Bool
all_below zero f = true
all_below (suc n) f = f n && all_below n f

all_below_lem : (n : ℕ) (f : ℕ → Bool) (i : ℕ) → i < n → all_below n f ≡ true → f i ≡ true
all_below_lem zero f i lt e = absurd (omega arith)
all_below_lem (suc n) f i lt e = elim (Bool-cases (i == n)) [
  | inl x ↦ rw ((==_iff i n).0 x) (ground arith)
  | inr ne ↦ all_below_lem n f i (ground arith) (ground arith)
]

round_trip : all_below 64 (λ asid. all_below 32 λ i. page_index (page_entry_hi asid i) == i) ≡ true
unfolding page_index page_of_vpn page_entry_hi
round_trip = refl

-- The refill handler and the pager find the entry `i` of a page table under its own EntryHi, for
-- every ASID below 64 and every index below 32.
pub page_index-page_entry_hi :
    (asid i : ℕ) → asid < 64 → i < page_table_size → page_index (page_entry_hi asid i) ≡ i
page_index-page_entry_hi asid i la li = (==_iff _ i).0 (
    all_below_lem 32 (λ i. page_index (page_entry_hi asid i) == i) i li
      (all_below_lem 64 (λ asid. all_below 32 λ i. page_index (page_entry_hi asid i) == i) asid la
        round_trip))

-- `n` entries from `i` on are set up, and the rest is as before.
record Filled (p : Ptr) (asid n i : ℕ) (s t : Support) : Type 0 where
  hi : (j : ℕ) → i ≤ j → j < i + n → t.kernel.entry_hi p j ≡ page_entry_hi asid j
  lo : (j : ℕ) → i ≤ j → j < i + n → t.kernel.entry_lo p j ≡ page_entry_lo j
  below_hi : (j : ℕ) → j < i → t.kernel.entry_hi p j ≡ s.kernel.entry_hi p j
  below_lo : (j : ℕ) → j < i → t.kernel.entry_lo p j ≡ s.kernel.entry_lo p j
  other_hi : (q : Ptr) (j : ℕ) → q ≢ p → t.kernel.entry_hi q j ≡ s.kernel.entry_hi q j
  other_lo : (q : Ptr) (j : ℕ) → q ≢ p → t.kernel.entry_lo q j ≡ s.kernel.entry_lo q j

page_loop-Filled :
    (p : Ptr) (asid n i : ℕ) (s : Support)
    → Returns (λ _ t. Filled p asid n i s t) (page_loop p asid n i s)
unfolding page_loop
page_loop-Filled p asid zero i s = returns (record {
  hi = λ j a b. absurd (omega arith);
  lo = λ j a b. absurd (omega arith);
  below_hi = λ j a. refl;
  below_lo = λ j a. refl;
  other_hi = λ q j n. refl;
  other_lo = λ q j n. refl;
})
page_loop-Filled p asid (suc n) i s = Returns-mono (page_loop-Filled p asid n (i + 1) _) λ _ t f.
    record {
      hi = λ j a b. elim (Bool-cases (j == i)) [
        | inl x ↦ rw ((==_iff j i).0 x) (f.below_hi i (omega arith) ∙ rw (==_refl, ==_refl) refl)
        | inr y ↦ f.hi j (ground arith) (omega arith)
      ];
      lo = λ j a b. elim (Bool-cases (j == i)) [
        | inl x ↦ rw ((==_iff j i).0 x) (f.below_lo i (omega arith) ∙ rw (==_refl, ==_refl) refl)
        | inr y ↦ f.lo j (ground arith) (omega arith)
      ];
      below_hi = λ j a. f.below_hi j (omega arith) ∙ ground arith;
      below_lo = λ j a. f.below_lo j (omega arith) ∙ ground arith;
      other_hi = λ q j n. f.other_hi q j n ∙ ground arith;
      other_lo = λ q j n. f.other_lo q j n ∙ ground arith;
    }

-- Every page is found under its own EntryHi; page 1 is valid and the others are not, all are dirty; the
-- other page tables are as before.
pub record Mapped (p : Ptr) (s t : Support) : Type 0 where
  pub found : (i : ℕ) → i < page_table_size → page_index (t.kernel.entry_hi p i) ≡ i
  pub valid : t.kernel.entry_lo p 1 ≡ 0x600
  pub invalid : (i : ℕ) → i < page_table_size → i ≢ 1 → t.kernel.entry_lo p i ≡ 0x400
  pub others :
      (q : Ptr) (i : ℕ)
      → q ≢ p
      → (t.kernel.entry_hi q i ≡ s.kernel.entry_hi q i)
        × (t.kernel.entry_lo q i ≡ s.kernel.entry_lo q i)

-- `initPageTable` on a support structure with an ASID below 64 returns with a page table in which
-- each of the 32 pages is found under its own EntryHi, of which page 1 only is valid; the other page
-- tables are unchanged.
pub init_page_table-Mapped :
    (p : Ptr) (s : Support)
    → p ≢ null
    → s.sup_asid p < 64
    → Returns (λ _ t. Mapped p s t) (init_page_table p s)
unfolding init_page_table through page_entry_lo
init_page_table-Mapped p s real small = rw (ne_test real) (
    Returns-mono (page_loop-Filled p (s.sup_asid p) page_table_size 0 s) λ _ t f. record {
      found = λ i lt.
          ap page_index (f.hi i (omega arith) lt)
          ∙ page_index-page_entry_hi (s.sup_asid p) i small lt;
      valid = f.lo 1 (omega arith) (omega arith);
      invalid = λ i lt n. f.lo i (omega arith) lt ∙ rw (ne_test n) refl;
      others = λ q i n. (f.other_hi q i n, f.other_lo q i n);
    })
