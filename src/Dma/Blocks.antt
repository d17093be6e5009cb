-- ===== src/Dma/Blocks.antt =====
-- Block numbers and places on a disk in phase3/deviceSupportDMA.c.
use pandos.Prelude.{
  ℕ, ◌+◌, ◌*◌, ◌/◌, ◌%◌, ◌^◌, ◌<◌, ◌≤◌, ◌≡◌, refl, arith, leb, false, not, ◌||◌, ◌↔◌,
}
use mathlib.Core.Bool.{xor}
use native.Mathlib.Nat.{
  mod-eq_of_lt, mod-lt, div-add-mod, div-lt_iff_lt-mul, div-le_self, mul-le-mul,
}
use pandos.Prelude.Word.{mul32, is_neg, sdiv32, srem32, slt32}
use pandos.Dma.{Geometry, place_of, is_outside}

-- A disk with at least one head and one sector, of the sizes that DATA1 has room for.
pub record IsGeometry (g : Geometry) : Type 0 where
  pub cyls : g.max_cyl < 2 ^ 16
  pub heads : (0 < g.max_head) × (g.max_head < 2 ^ 8)
  pub sects : (0 < g.max_sect) × (g.max_sect < 2 ^ 8)

sdiv32_nonneg : (a b : ℕ) → a < 2 ^ 31 → b < 2 ^ 31 → sdiv32 a b ≡ a / b
unfolding sdiv32 xor
sdiv32_nonneg a b la lb =
    let na : is_neg a ≡ false = ground arith in
    let nb : is_neg b ≡ false = ground arith in rw (na, nb) refl

srem32_nonneg : (a b : ℕ) → a < 2 ^ 31 → b < 2 ^ 31 → srem32 a b ≡ a % b
unfolding srem32
srem32_nonneg a b la lb =
    let na : is_neg a ≡ false = ground arith in
    let nb : is_neg b ≡ false = ground arith in rw (na, nb) refl

slt32_nonneg : (a b : ℕ) → a < 2 ^ 31 → b < 2 ^ 31 → slt32 a b ≡ not (leb b a)
slt32_nonneg a b la lb = ground arith

size_test :
    {cyls heads sects size block : ℕ} (c h t : ℕ)
    → (c < cyls) ↔ (block < size)
    → h < heads
    → t < sects
    → (not (not (leb cyls c)) || not (not (leb heads h)) || not (not (leb sects t)))
      ≡ leb size block
size_test c h t (f, g) lh lt = ground arith

rejoin :
    (c heads h sects t r block : ℕ)
    → sects * h + t ≡ r
    → heads * sects * c + r ≡ block
    → (c * heads + h) * sects + t ≡ block
rejoin c heads h sects t r block e f = omega arith

module _ {g : Geometry} (is : IsGeometry g) where
  pub per_cyl : g.max_head * g.max_sect ≤ 65025
  per_cyl = mul-le-mul {n₂ = 255} {m₂ = 255} (omega (arith, is.heads)) (omega (arith, is.sects))

  per_cyl_pos : 0 < g.max_head * g.max_sect
  per_cyl_pos = mul-le-mul is.heads.0 is.sects.0

  pub mul32_exact : mul32 g.max_head g.max_sect ≡ g.max_head * g.max_sect
  mul32_exact = mod-eq_of_lt (omega (arith, per_cyl))

  -- The place in terms of division of numbers.
  place_of-div :
      (block : ℕ)
      → block < 2 ^ 31
      → place_of g block ≡ (record {
        cyl = block / (g.max_head * g.max_sect);
        head = block % (g.max_head * g.max_sect) / g.max_sect;
        sect = block % (g.max_head * g.max_sect) % g.max_sect;
      })
  unfolding place_of
  place_of-div block lt =
      let per = g.max_head * g.max_sect in
      let small : per < 2 ^ 31 = omega (arith, per_cyl) in
      let rem : block % per < 2 ^ 31 = omega (arith, mod-lt block per_cyl_pos, per_cyl) in
      let sect : g.max_sect < 2 ^ 31 = omega (arith, is.sects) in
      rw
        (
          mul32_exact,
          sdiv32_nonneg block per lt small,
          srem32_nonneg block per lt small,
          sdiv32_nonneg (block % per) g.max_sect rem sect,
          srem32_nonneg (block % per) g.max_sect rem sect,
        )
        refl

  cyl_lt : (block : ℕ) → block < 2 ^ 31 → block / (g.max_head * g.max_sect) < 2 ^ 31
  cyl_lt block lt = omega (arith, div-le_self block (g.max_head * g.max_sect))

  -- For a block number that is not negative the place has a head and a sector of the disk, and the
  -- number is the cylinder times the heads plus the head, times the sectors, plus the sector; so
  -- different blocks have different places.
  pub place_of-block :
      (block : ℕ)
      → block < 2 ^ 31
      → let p = place_of g block in
        (((p.cyl * g.max_head + p.head) * g.max_sect + p.sect) ≡ block)
        × (p.head < g.max_head)
        × (p.sect < g.max_sect)
  place_of-block block lt =
      let per = g.max_head * g.max_sect in
      let r = block % per in
      rw (place_of-div block lt) (
        rejoin (block / per) g.max_head (r / g.max_sect) g.max_sect (r % g.max_sect) r block
            (div-add-mod r g.max_sect) (div-add-mod block per),
        (div-lt_iff_lt-mul is.sects.0).1 (mod-lt block per_cyl_pos),
        mod-lt r is.sects.0,
      )

  -- For a block number that is not negative the check of the place rejects the block exactly if the
  -- disk has no more blocks than that.
  pub is_outside-size :
      (block : ℕ)
      → block < 2 ^ 31
      → is_outside g (place_of g block) ≡ leb (g.max_cyl * (g.max_head * g.max_sect)) block
  unfolding is_outside
  is_outside-size block lt =
      let per = g.max_head * g.max_sect in
      let r = block % per in
      let small : r < 2 ^ 31 = omega (arith, mod-lt block per_cyl_pos, per_cyl) in
      let h : r / g.max_sect < g.max_head =
        (div-lt_iff_lt-mul is.sects.0).1 (mod-lt block per_cyl_pos) in
      let t = mod-lt r is.sects.0 in
      rw
        (
          place_of-div block lt,
          slt32_nonneg (block / per) g.max_cyl (cyl_lt block lt) (omega (arith, is.cyls)),
          slt32_nonneg (r / g.max_sect) g.max_head (omega (arith, is.heads))
              (omega (arith, is.heads)),
          slt32_nonneg (r % g.max_sect) g.max_sect (omega (arith, is.sects))
              (omega (arith, is.sects)),
        )
        (size_test (block / per) (r / g.max_sect) (r % g.max_sect) (div-lt_iff_lt-mul per_cyl_pos) h
          t)
