-- ===== src/Dma/Copy.antt =====
-- The copy loops of phase3/deviceSupportDMA.c.
use pandos.Prelude.{
  ℕ, zero, suc, ◌+◌, ◌<◌, ◌≤◌, ◌≡◌, ◌⊎◌, refl, ◌∙◌, arith, ◌==◌, ==_iff, Bool-cases, inl, inr,
}
use native.Mathlib.Nat.{mod-eq_of_lt}
use pandos.Prelude.Word.{word_mod, add32}
use pandos.Run.{Returns, returns, Returns-mono}
use pandos.Pcb.Access.{upd_self, upd-ne}
use pandos.Support.{Support}
use pandos.Dma.{copy_bytes}

-- `n` bytes from `i` on have been copied; nothing but memory has changed, and of memory nothing else.
pub record Copied (n i from to : ℕ) (s t : Support) : Type 0 where
  pub after : ℕ → ℕ
  pub state : t ≡ record s { mem = after }
  pub bytes : (j : ℕ) → i ≤ j → j < i + n → after (to + j) ≡ s.mem (from + j)
  pub others : (a : ℕ) → (a < to + i) ⊎ (to + i + n ≤ a) → after a ≡ s.mem a

-- Copying `n` bytes between areas that do not overlap and do not wrap around returns with the bytes of
-- the one in the other, and everything else as before.
pub copy_bytes-Copied :
    (n i from to : ℕ) (s : Support)
    → from + i + n ≤ word_mod
    → to + i + n ≤ word_mod
    → (from + i + n ≤ to + i) ⊎ (to + i + n ≤ from + i)
    → Returns (λ _ t. Copied n i from to s t) (copy_bytes n i from to s)
unfolding copy_bytes
copy_bytes-Copied zero i from to s lf lt apart = returns (record {
  after = s.mem;
  state = refl;
  bytes = λ j a b. absurd (omega arith);
  others = λ a o. refl;
})
copy_bytes-Copied (suc n) i from to s lf lt apart =
    let ef : add32 from i ≡ from + i = mod-eq_of_lt (omega arith) in
    let et : add32 to i ≡ to + i = mod-eq_of_lt (omega arith) in
    rw (ef, et)
      (Returns-mono
        (copy_bytes-Copied n (i + 1) from to _ (omega arith) (omega arith) (omega (arith, apart)))
        λ _ t c. record {
          after = c.after;
          state = c.state;
          bytes = λ j a b. elim (Bool-cases (j == i)) [
            | inl x ↦ rw ((==_iff j i).0 x) (c.others (to + i) (inl (omega arith)) ∙ upd_self _ _ _)
            | inr y ↦
                c.bytes j (ground arith) (omega arith)
                ∙ upd-ne _ _ (λ e. absurd (omega (arith, apart)))
          ];
          others =
              λ a o. c.others a (omega (arith, o)) ∙ upd-ne _ _ (λ e. absurd (omega (arith, o)));
        })
