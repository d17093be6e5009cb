-- ===== src/Interrupts/Lines.antt =====
-- Which line and which device an interrupt is taken from.
use pandos.Prelude.{
  ℕ, zero, suc, ◌+◌, ◌-◌, ◌*◌, ◌/◌, ◌^◌, ◌≤◌, ◌<◌, ◌≡◌, refl, sym, ◌⊎◌, inl, inr, ap, ◌∙◌, true,
  false, some, arith, ◌==◌, ==_iff, Bool-cases,
}
use native.Mathlib.Nat.{pow-suc, mul_assoc, mul_comm}
use pandos.Prelude.Word.{word_mod, low_bits, test_bit}
use pandos.Interrupts.{
  line_loop, pending_interrupts, get_highest_priority_interrupt, bit_loop, lowest_device,
}

-- `r` is the first line from `i` on, below `e`, that is pending.
pub record IsFirst (pending i e r : ℕ) : Type 0 where
  pub inside : (i ≤ r) × (r < e)
  pub set : test_bit pending r ≡ true
  pub lowest : (j : ℕ) → i ≤ j → j < r → test_bit pending j ≡ false

-- No line from `i` on, below `e`, is pending, and the answer is -1.
pub record NoneSet (pending i e r : ℕ) : Type 0 where
  pub minus_one : r ≡ word_mod - 1
  pub clear : (j : ℕ) → i ≤ j → j < e → test_bit pending j ≡ false

line_loop-IsFirst :
    (n i pending : ℕ)
    → IsFirst pending i (i + n) (line_loop n i pending)
      ⊎ NoneSet pending i (i + n) (line_loop n i pending)
unfolding line_loop
line_loop-IsFirst zero i pending =
    inr (record { minus_one = refl; clear = λ j a b. absurd (omega arith) })
line_loop-IsFirst (suc n) i pending = elim (Bool-cases (test_bit pending i)) [
  | inl e ↦
      inl (rw e (record { inside = omega arith; set = e; lowest = λ j a b. absurd (omega arith) }))
  | inr ne ↦ rw ne (elim (line_loop-IsFirst n (i + 1) pending) [
    | inl f ↦ inl (record {
      inside = omega (arith, f.inside);
      set = f.set;
      lowest = λ j a b. elim (Bool-cases (j == i)) [
        | inl x ↦ rw ((==_iff j i).0 x) ne
        | inr y ↦ f.lowest j (ground arith) b
      ];
    })
    | inr z ↦ inr (record {
      minus_one = z.minus_one;
      clear = λ j a b. elim (Bool-cases (j == i)) [
        | inl x ↦ rw ((==_iff j i).0 x) ne
        | inr y ↦ z.clear j (ground arith) (omega arith)
      ];
    })
  ])
]

-- Of the interrupt lines 1 to 7 the lowest pending one is taken; the answer is -1 exactly where none
-- is pending.
pub get_highest_priority_interrupt-IsFirst :
    (cause : ℕ)
    → IsFirst (pending_interrupts cause) 1 8 (get_highest_priority_interrupt cause)
      ⊎ NoneSet (pending_interrupts cause) 1 8 (get_highest_priority_interrupt cause)
unfolding get_highest_priority_interrupt
get_highest_priority_interrupt-IsFirst cause = line_loop-IsFirst 7 1 (pending_interrupts cause)

the_suc : (d : ℕ) → d + 1 ≡ suc d
the_suc d = omega arith

double_pow : (a d : ℕ) → a * 2 ^ (d + 1) ≡ 2 * (a * 2 ^ d)
double_pow a d =
    let e : 2 ^ (d + 1) ≡ 2 ^ d * 2 = rw (the_suc d) (pow-suc 2 d) in
    ap (λ x. a * x) e ∙ sym (mul_assoc a (2 ^ d) 2) ∙ mul_comm (a * 2 ^ d) 2

bit_loop-lowest :
    (n bitmap dev_num : ℕ)
    → 0 < bitmap
    → bitmap < 2 ^ n
    → (d : ℕ) × (q : ℕ) × (bit_loop n bitmap dev_num ≡ some (dev_num + d))
      × (d < n)
      × (bitmap ≡ (2 * q + 1) * 2 ^ d)
unfolding bit_loop
bit_loop-lowest zero bitmap dev_num lo hi = absurd (omega arith)
bit_loop-lowest (suc n) bitmap dev_num lo hi = elim (Bool-cases (low_bits bitmap 1 == 0)) [
  | inl even ↦
      let half : bitmap / 2 < 2 ^ n = omega (arith, pow-suc 2 n) in
      let two : bitmap ≡ 2 * (bitmap / 2) = ground arith in
      let (d, q, e, b, m) = bit_loop-lowest n (bitmap / 2) (dev_num + 1) (omega arith) half in
      (
        d + 1,
        q,
        rw even (e ∙ ap some (omega arith)),
        omega arith,
        two ∙ ap (λ x. 2 * x) m ∙ sym (double_pow (2 * q + 1) d),
      )
  | inr odd ↦ (0, bitmap / 2, rw odd (ap some (omega arith)), omega arith, ground arith)
]

nonzero : {n : ℕ} → 0 < n → (n == 0) ≡ false
nonzero lo = ground arith

-- For a device bit map that is a word other than 0 the loop ends, with the number of the lowest
-- bit that is set.
pub lowest_device-lowest :
    (bitmap : ℕ)
    → 0 < bitmap
    → bitmap < 2 ^ 32
    → (d : ℕ) × (q : ℕ) × (lowest_device bitmap ≡ some d)
      × (d < 32)
      × (bitmap ≡ (2 * q + 1) * 2 ^ d)
unfolding lowest_device
lowest_device-lowest bitmap lo hi =
    let (d, q, e, b, m) = bit_loop-lowest 32 bitmap 0 lo hi in
    (d, q, rw (nonzero lo, e) (ap some (omega arith)), b, m)
