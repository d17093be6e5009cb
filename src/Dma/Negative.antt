-- ===== src/Dma/Negative.antt =====
-- Negative block numbers in phase3/deviceSupportDMA.c.
use pandos.Prelude.{
  ℕ, ◌*◌, ◌/◌, ◌%◌, ◌^◌, ◌<◌, ◌≤◌, ◌≡◌, refl, arith, ◌==◌, ==_iff, true, false, Bool-cases, inl,
  inr,
}
use mathlib.Core.Bool.{xor}
use native.Mathlib.Nat.{div-le_self, mod-le, zero-div, zero-mod}
use pandos.Prelude.Word.{sub32, is_neg, abs32, sdiv32, srem32, slt32}
use pandos.Dma.{Geometry, place_of, is_outside}
use pandos.Dma.Blocks.{IsGeometry, mul32_exact, per_cyl}

-- The number `-k`.
abbrev pub negative : (k : ℕ) → ℕ
negative k = sub32 0 k

abs32-negative : (k : ℕ) → k ≤ 2 ^ 31 → abs32 (negative k) ≡ k
abs32-negative k le = elim (Bool-cases (k == 0)) [
  | inl e ↦ rw ((==_iff k 0).0 e) refl
  | inr ne ↦ let n : is_neg (negative k) ≡ true = ground arith in rw n (ground arith)
]

sdiv32-negative : (k b : ℕ) → k ≤ 2 ^ 31 → b < 2 ^ 31 → sdiv32 (negative k) b ≡ negative (k / b)
unfolding sdiv32 xor
sdiv32-negative k b le lb =
    let nb : is_neg b ≡ false = ground arith in
    elim (Bool-cases (k == 0)) [
      | inl e ↦ rw ((==_iff k 0).0 e) (rw (nb, zero-div b) refl)
      | inr ne ↦
          let n : is_neg (negative k) ≡ true = ground arith in rw (abs32-negative k le, n, nb) refl
    ]

srem32-negative : (k b : ℕ) → k ≤ 2 ^ 31 → b < 2 ^ 31 → srem32 (negative k) b ≡ negative (k % b)
unfolding srem32
srem32-negative k b le lb =
    let nb : is_neg b ≡ false = ground arith in
    elim (Bool-cases (k == 0)) [
      | inl e ↦ rw ((==_iff k 0).0 e) (rw (nb, zero-mod b) refl)
      | inr ne ↦
          let n : is_neg (negative k) ≡ true = ground arith in rw (abs32-negative k le, n, nb) refl
    ]

slt32-negative : (k b : ℕ) → k ≤ 2 ^ 31 → 0 < b → b < 2 ^ 31 → slt32 (negative k) b ≡ true
slt32-negative k b le pos lt = ground arith

-- A negative block number passes the check on every disk that has a cylinder.
pub is_outside-negative :
    {g : Geometry}
    → IsGeometry g
    → 0 < g.max_cyl
    → (k : ℕ) → k ≤ 2 ^ 31
    → is_outside g (place_of g (negative k)) ≡ false
unfolding is_outside place_of
is_outside-negative {g} is pos k le =
    let per = g.max_head * g.max_sect in
    let small : per < 2 ^ 31 = omega (arith, per_cyl is) in
    let r : k % per ≤ 2 ^ 31 = omega (arith, mod-le k per) in
    let sect : g.max_sect < 2 ^ 31 = omega (arith, is.sects) in
    rw
      (
        mul32_exact is,
        sdiv32-negative k per le small,
        srem32-negative k per le small,
        sdiv32-negative (k % per) g.max_sect r sect,
        srem32-negative (k % per) g.max_sect r sect,
        slt32-negative (k / per) g.max_cyl (omega (arith, div-le_self k per)) pos
            (omega (arith, is.cyls)),
        slt32-negative (k % per / g.max_sect) g.max_head
            (omega (arith, div-le_self (k % per) g.max_sect)) is.heads.0 (omega (arith, is.heads)),
        slt32-negative (k % per % g.max_sect) g.max_sect
            (omega (arith, mod-le (k % per) g.max_sect)) is.sects.0 sect,
      )
      refl
