-- ===== src/Delay/Due.antt =====
-- The descriptors of the active delay list whose time has come, and the links without the list head.
use pandos.Prelude.{
  ℕ, ◌≤◌, ◌≡◌, ◌≢◌, refl, sym, ap, arith, ◌==◌, ==_iff, if◌then◌else◌, Bool, true, false, not,
  Bool-cases, inl, inr, List, [], ◌∷◌, ◌++◌, length, ◌∈◌, has-append,
}
use pandos.Prelude.Word.{slt32}
use pandos.Types.{Ptr, null}
use pandos.Pcb.Access.{ne_test}
use pandos.Pcb.Pool.{FreeChain}
use pandos.Support.{Support}
use pandos.Delay.Insertion.{IsSorted, wake_key, links, FreeChain-start}

later_above :
    (now : ℕ) (s : Support) (x y : Ptr)
    → slt32 now (s.d_wake_time x) ≡ true
    → wake_key s x ≤ wake_key s y
    → slt32 now (s.d_wake_time y) ≡ true
later_above now s x y b le = ground arith

-- The descriptors of the list with the property.
abbrev pub select : (Ptr → Bool) → List Ptr → List Ptr
select p [] = []
select p (x ∷ xs) = if p x then x ∷ select p xs else select p xs

-- Whether a descriptor's time has not come.
abbrev pub is_later : (now : ℕ) → Support → Ptr → Bool
is_later now s x = slt32 now (s.d_wake_time x)

select_none :
    (p : Ptr → Bool) (xs : List Ptr)
    → ((x : Ptr) → x ∈ xs → p x ≡ true)
    → (select p xs ≡ xs) × (select (λ x. not (p x)) xs ≡ [])
select_none p [] all = (refl, refl)
select_none p (x ∷ xs) all =
    let (e, f) = select_none p xs (λ b i. all b (ground arith)) in
    rw (all x (ground arith)) (rw e refl, f)

-- In a sorted list those whose time has come are in front.
pub select_split :
    (now : ℕ) (s : Support) (xs : List Ptr)
    → IsSorted (wake_key s) xs
    → xs ≡ select (λ x. not (is_later now s x)) xs ++ select (is_later now s) xs
select_split now s [] o = refl
select_split now s (x ∷ xs) (le, o) = elim (Bool-cases (is_later now s x)) [
  | inl b ↦
      let (e, f) = select_none (is_later now s) xs (λ y i. later_above now s x y b (le y i)) in
      rw b (rw (e, f) refl)
  | inr b ↦ rw b (ap (λ ys. x ∷ ys) (select_split now s xs o))
]

pub IsSorted-append_right :
    (key : Ptr → ℕ) (xs ys : List Ptr) → IsSorted key (xs ++ ys) → IsSorted key ys
IsSorted-append_right key [] ys o = o
IsSorted-append_right key (x ∷ xs) ys o = IsSorted-append_right key xs ys o.1

pub IsSorted-append_left :
    (key : Ptr → ℕ) (xs ys : List Ptr) → IsSorted key (xs ++ ys) → IsSorted key xs
IsSorted-append_left key [] ys o = tt
IsSorted-append_left key (x ∷ xs) ys (le, o) =
    (λ y i. le y (rw (has-append y xs ys, i) refl), IsSorted-append_left key xs ys o)

pub mem_cons : (x y : Ptr) (ys : List Ptr) → x ∈ ys → x ∈ (y ∷ ys)
mem_cons x y ys i = ground arith

pub false_of_not : {b : Bool} → not b ≡ true → b ≡ false
false_of_not h = ground arith

links_real : (s : Support) (x : Ptr) → x ≢ null → links s x ≡ s.d_next x
links_real s x n = rw (ne_test n) refl

pub select-holds :
    (p : Ptr → Bool) (x : Ptr) (xs : List Ptr) → x ∈ select p xs → (p x ≡ true) × (x ∈ xs)
select-holds p x [] i = ground arith
select-holds p x (y ∷ ys) i = elim (Bool-cases (p y)) [
  | inl b ↦ elim (Bool-cases (x == y)) [
    | inl e ↦ rw ((==_iff x y).0 e) (b, ground arith)
    | inr ne ↦
        let j : x ∈ (y ∷ select p ys) = rw b at i in
        let (h, m) = select-holds p x ys (ground arith) in (h, rw (ne, m) refl)
  ]
  | inr b ↦ let (h, m) = select-holds p x ys (rw b at i) in (h, mem_cons x y ys m)
]

pub length-select : (p : Ptr → Bool) (xs : List Ptr) → length (select p xs) ≤ length xs
length-select p [] = omega arith
length-select p (x ∷ xs) = elim (Bool-cases (p x)) [
  | inl b ↦ rw b (omega (arith, length-select p xs))
  | inr b ↦ rw b (omega (arith, length-select p xs))
]

pub FreeChain-links :
    (s : Support) (a : Ptr) (xs : List Ptr) → FreeChain (links s) a xs → FreeChain s.d_next a xs
FreeChain-links s a [] c = c
FreeChain-links s a (x ∷ xs) (e, n, c) =
    (e, n, FreeChain-links s _ xs (FreeChain-start _ _ (sym (links_real s x n)) c))

pub links-FreeChain :
    (s : Support) (a : Ptr) (xs : List Ptr) → FreeChain s.d_next a xs → FreeChain (links s) a xs
links-FreeChain s a [] c = c
links-FreeChain s a (x ∷ xs) (e, n, c) =
    (e, n, FreeChain-start _ _ (links_real s x n) (links-FreeChain s _ xs c))
