-- ===== src/Prelude/Lists.antt =====
-- Lists of pointers: membership as a test, and lists without repetition.
use Prim.Native.Nat.{ℕ, suc, ◌+◌, ◌≤◌}
use mathlib.Core.Path.{◌≡◌, refl, ap, sym}
use mathlib.Core.Logic.{◌≢◌, inl, inr}
use mathlib.Core.Bool.{Bool, true, false, ◌||◌, or_assoc}
use mathlib.Core.List.{List, [], ◌∷◌, ◌++◌}
use native.Mathlib.Omega.{arith}
use pandos.Prelude.Tests.{◌==◌, if◌then◌else◌, ==_iff, Bool-cases}

module _ {ℓ} {A : Type ℓ} where
  abbrev pub length : List A → ℕ
  length [] = 0
  length (x ∷ xs) = suc (length xs)

  pub length-append : (xs ys : List A) → length (xs ++ ys) ≡ length xs + length ys
  length-append [] ys = omega arith
  length-append (x ∷ xs) ys = omega (arith, length-append xs ys)

abbrev pub has : ℕ → List ℕ → Bool
has a [] = false
has a (x ∷ xs) = (a == x) || has a xs

infix 40 ◌∈◌ ◌∉◌
abbrev pub ◌∈◌ : ℕ → List ℕ → Type 0
a ∈ xs = has a xs ≡ true

abbrev pub ◌∉◌ : ℕ → List ℕ → Type 0
a ∉ xs = has a xs ≡ false

abbrev pub Distinct : List ℕ → Type 0
Distinct [] = Unit
Distinct (x ∷ xs) = (x ∉ xs) × Distinct xs

-- The list less its first occurrence of the value.
abbrev pub erase : ℕ → List ℕ → List ℕ
erase a [] = []
erase a (x ∷ xs) = if a == x then xs else x ∷ erase a xs

pub has-append : (a : ℕ) (xs ys : List ℕ) → has a (xs ++ ys) ≡ (has a xs || has a ys)
has-append a [] ys = refl
has-append a (x ∷ xs) ys = rw (has-append a xs ys, or_assoc)

pub Distinct-snoc : (xs : List ℕ) (p : ℕ) → Distinct xs → p ∉ xs → Distinct (xs ++ (p ∷ []))
Distinct-snoc [] p d o = ground arith
Distinct-snoc (x ∷ xs) p d o = ground (arith, Distinct-snoc xs p, has-append x xs (p ∷ []))

pub mem_snoc : (xs : List ℕ) (a : ℕ) → a ∈ (xs ++ (a ∷ []))
mem_snoc xs a = ground (arith, has-append a xs (a ∷ []))

pub mem_cons : (a c : ℕ) (xs : List ℕ) → c ∈ xs → c ∈ (a ∷ xs)
mem_cons a c xs i = ground arith

pub ne_of_mem : {a b : ℕ} (xs : List ℕ) → a ∈ xs → b ∉ xs → a ≢ b
ne_of_mem xs i o = ground arith

pub Distinct-append : (xs ys : List ℕ) → Distinct (xs ++ ys) → Distinct xs × Distinct ys
Distinct-append [] ys d = (tt, d)
Distinct-append (x ∷ xs) ys d = ground (arith, Distinct-append xs ys, has-append x xs ys)

pub not-mem_of_Distinct-snoc : (xs : List ℕ) (a : ℕ) → Distinct (xs ++ (a ∷ [])) → a ∉ xs
not-mem_of_Distinct-snoc [] a d = refl
not-mem_of_Distinct-snoc (x ∷ xs) a d =
    ground (arith, not-mem_of_Distinct-snoc xs a, has-append x xs (a ∷ []))

pub not-mem-erase : (a b : ℕ) (xs : List ℕ) → a ∉ xs → a ∉ erase b xs
not-mem-erase a b [] o = refl
not-mem-erase a b (x ∷ xs) o = ground (arith, not-mem-erase a b xs)

pub Distinct-erase : (a : ℕ) (xs : List ℕ) → Distinct xs → Distinct (erase a xs)
Distinct-erase a [] d = tt
Distinct-erase a (x ∷ xs) d = ground (arith, Distinct-erase a xs, not-mem-erase x a xs)

pub erase-append : (a : ℕ) (us vs : List ℕ) → a ∉ us → erase a (us ++ (a ∷ vs)) ≡ us ++ vs
erase-append a [] vs o = ground arith
erase-append a (u ∷ us) vs o = ground (arith, erase-append a us vs)

pub length-erase : (a : ℕ) (xs : List ℕ) → a ∈ xs → length (erase a xs) + 1 ≡ length xs
length-erase a [] i = cc
length-erase a (x ∷ xs) i = ground (arith, length-erase a xs)

-- A member splits the list where it first stands.
pub mem_split :
    (a : ℕ) (xs : List ℕ)
    → a ∈ xs
    → (us : List ℕ) × (vs : List ℕ) × (xs ≡ us ++ (a ∷ vs)) × (a ∉ us)
mem_split a [] i = cc
mem_split a (x ∷ xs) i = elim (Bool-cases (a == x)) [
  | inl e ↦ ([], xs, ap (λ y. y ∷ xs) (sym ((==_iff a x).0 e)), refl)
  | inr ne ↦
      let (us, vs, e, o) = mem_split a xs (rw ne at i) in
      (x ∷ us, vs, ap (λ ys. x ∷ ys) e, rw (ne, o))
]

-- The last element of a list that is not empty.
pub snoc_split : (x : ℕ) (xs : List ℕ) → (zs : List ℕ) × (l : ℕ) × (x ∷ xs ≡ zs ++ (l ∷ []))
snoc_split x [] = ([], x, refl)
snoc_split x (y ∷ ys) = let (zs, l, e) = snoc_split y ys in (x ∷ zs, l, ap (λ ws. x ∷ ws) e)

pub Distinct_middle :
    (us : List ℕ) (p : ℕ) (vs : List ℕ) → Distinct (us ++ (p ∷ vs)) → (p ∉ us) × (p ∉ vs)
Distinct_middle [] p vs d = (refl, d.0)
Distinct_middle (u ∷ us) p vs d = ground (arith, Distinct_middle us p vs, has-append u us (p ∷ vs))

pub not-mem-erase_self : (a : ℕ) (xs : List ℕ) → Distinct xs → a ∉ erase a xs
not-mem-erase_self a [] d = refl
not-mem-erase_self a (x ∷ xs) d = ground (arith, not-mem-erase_self a xs)

pub erase_head : (x : ℕ) (xs : List ℕ) → erase x (x ∷ xs) ≡ xs
erase_head x xs = ground arith

pub erase_not-mem : (a : ℕ) (xs : List ℕ) → a ∉ xs → erase a xs ≡ xs
erase_not-mem a [] o = refl
erase_not-mem a (x ∷ xs) o = ground (arith, erase_not-mem a xs)

pub length-erase-le : (a : ℕ) (xs : List ℕ) → length (erase a xs) ≤ length xs
length-erase-le a [] = omega arith
length-erase-le a (x ∷ xs) = ground (arith, length-erase-le a xs)

pub mem_of_mem-erase : (a b : ℕ) (xs : List ℕ) → a ∈ erase b xs → a ∈ xs
mem_of_mem-erase a b [] i = cc
mem_of_mem-erase a b (x ∷ xs) i = ground (arith, mem_of_mem-erase a b xs)

-- The two parts of a list without repetition share nothing.
pub Distinct-apart : (xs ys : List ℕ) (b : ℕ) → Distinct (xs ++ ys) → b ∈ xs → b ∉ ys
Distinct-apart [] ys b d i = cc
Distinct-apart (x ∷ xs) ys b d i =
    ground (arith, Distinct-apart xs ys b, has-append x xs ys, Bool-cases (has b ys), ==_iff b x)

pub apart_sym : (xs ys : List ℕ) → ((b : ℕ) → b ∈ xs → b ∉ ys) → (b : ℕ) → b ∈ ys → b ∉ xs
apart_sym xs ys apart b i = elim (Bool-cases (has b xs)) [
  | inl j ↦ let o = apart b j in cc
  | inr o ↦ o
]

-- The list less each of the values.
abbrev pub without : List ℕ → List ℕ → List ℕ
without [] ys = ys
without (x ∷ xs) ys = without xs (erase x ys)

-- The values in front of the list, the last one first.
abbrev pub push : List ℕ → List ℕ → List ℕ
push [] ys = ys
push (x ∷ xs) ys = push xs (x ∷ ys)

pub without-append : (xs ys zs : List ℕ) → without (xs ++ ys) zs ≡ without ys (without xs zs)
without-append [] ys zs = refl
without-append (x ∷ xs) ys zs = without-append xs ys (erase x zs)

pub push-append : (xs ys zs : List ℕ) → push (xs ++ ys) zs ≡ push ys (push xs zs)
push-append [] ys zs = refl
push-append (x ∷ xs) ys zs = push-append xs ys (x ∷ zs)

pub not-mem-push : (a : ℕ) (xs ys : List ℕ) → a ∉ xs → a ∉ ys → a ∉ push xs ys
not-mem-push a [] ys o p = p
not-mem-push a (x ∷ xs) ys o p = not-mem-push a xs (x ∷ ys) (ground arith) (ground arith)

-- How many members pass the test.
abbrev pub tally : (ℕ → Bool) → List ℕ → ℕ
tally test [] = 0
tally test (x ∷ xs) = (if test x then 1 else 0) + tally test xs

pub tally-append :
    (test : ℕ → Bool) (xs ys : List ℕ) → tally test (xs ++ ys) ≡ tally test xs + tally test ys
tally-append test [] ys = omega arith
tally-append test (x ∷ xs) ys = omega (arith, tally-append test xs ys)
