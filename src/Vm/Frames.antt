-- ===== src/Vm/Frames.antt =====
-- The choice of a frame in phase3/vmSupport.c: getFreeFrame and pickVictimFrame.
use pandos.Prelude.{
  ℕ, zero, suc, ◌+◌, ◌-◌, ◌%◌, ◌≤◌, ◌<◌, ◌≡◌, ◌≢◌, ◌⊎◌, inl, inr, refl, ◌∙◌, arith, ◌==◌, ==_iff,
  Bool-cases,
}
use pandos.Prelude.Word.{word_mod}
use pandos.Run.{ok, ◌>>◌, Returns, returns}
use pandos.Support.{SwapEntry, Support, S}
use pandos.Vm.{swap_pool_size, free_frame_loop, get_free_frame, pick_victim_frame}

-- `frame` is the first free one from `i` on, below `e`.
pub record IsFirstFree (pool : ℕ → SwapEntry) (i e frame : ℕ) : Type 0 where
  pub inside : (i ≤ frame) × (frame < e)
  pub free : (pool frame).occupied ≡ 0
  pub first : (j : ℕ) → i ≤ j → j < frame → (pool j).occupied ≢ 0

-- Every frame from `i` on, below `e`, is occupied, and the answer is -1.
pub record AllOccupied (pool : ℕ → SwapEntry) (i e frame : ℕ) : Type 0 where
  pub minus_one : frame ≡ word_mod - 1
  pub occupied : (j : ℕ) → i ≤ j → j < e → (pool j).occupied ≢ 0

free_frame_loop-IsFirstFree :
    (n i : ℕ) (pool : ℕ → SwapEntry)
    → IsFirstFree pool i (i + n) (free_frame_loop n i pool)
      ⊎ AllOccupied pool i (i + n) (free_frame_loop n i pool)
unfolding free_frame_loop
free_frame_loop-IsFirstFree zero i pool =
    inr (record { minus_one = refl; occupied = λ j a b. absurd (omega arith) })
free_frame_loop-IsFirstFree (suc n) i pool = elim (Bool-cases ((pool i).occupied == 0)) [
  | inl e ↦ inl (
      rw e (record {
        inside = omega arith;
        free = (==_iff _ 0).0 e;
        first = λ j a b. absurd (omega arith);
      }))
  | inr ne ↦ rw ne (elim (free_frame_loop-IsFirstFree n (i + 1) pool) [
    | inl f ↦ inl (record {
      inside = omega (arith, f.inside);
      free = f.free;
      first = λ j a b. elim (Bool-cases (j == i)) [
        | inl x ↦ rw ((==_iff j i).0 x) (ground (arith, ne))
        | inr y ↦ f.first j (ground arith) b
      ];
    })
    | inr z ↦ inr (record {
      minus_one = z.minus_one;
      occupied = λ j a b. elim (Bool-cases (j == i)) [
        | inl x ↦ rw ((==_iff j i).0 x) (ground (arith, ne))
        | inr y ↦ z.occupied j (ground arith) (omega arith)
      ];
    })
  ])
]

-- `getFreeFrame` returns the first of the 16 frames that is not occupied; if all are, it returns -1.
pub get_free_frame-IsFirstFree :
    (s : Support)
    → IsFirstFree s.swap_pool 0 swap_pool_size (get_free_frame s)
      ⊎ AllOccupied s.swap_pool 0 swap_pool_size (get_free_frame s)
unfolding get_free_frame
get_free_frame-IsFirstFree s = free_frame_loop-IsFirstFree swap_pool_size 0 s.swap_pool

-- The victim after `k` others.
pub pick_after : (k : ℕ) → S ℕ
pick_after zero = pick_victim_frame
pick_after (suc k) = do pick_victim_frame; pick_after k

pick_after-mod :
    (k : ℕ) (s : Support)
    → s.swap_index < swap_pool_size
    → pick_after k s
      ≡ ok
          ((s.swap_index + k) % swap_pool_size)
          (record s { swap_index = (s.swap_index + k + 1) % swap_pool_size })
unfolding pick_after pick_victim_frame
pick_after-mod zero s lt =
    let e : (s.swap_index + 0) % swap_pool_size ≡ s.swap_index = omega arith in
    let e' : (s.swap_index + 0 + 1) % swap_pool_size ≡ (s.swap_index + 1) % swap_pool_size =
      omega arith in
    rw (e, e') refl
pick_after-mod (suc k) s lt =
    let t = record s { swap_index = (s.swap_index + 1) % swap_pool_size } in
    let e : ((s.swap_index + 1) % swap_pool_size + k) % swap_pool_size
        ≡ (s.swap_index + suc k) % swap_pool_size =
      omega arith in
    let e' : ((s.swap_index + 1) % swap_pool_size + k + 1) % swap_pool_size
        ≡ (s.swap_index + suc k + 1) % swap_pool_size =
      omega arith in
    pick_after-mod k t (omega arith) ∙ rw (e, e') refl

-- Round robin: with a victim index below 16, every frame below 16 is the victim after fewer than 16
-- others, and the victim index is below 16 again.
pub pick_victim_frame-round :
    (s : Support) (frame : ℕ)
    → s.swap_index < swap_pool_size
    → frame < swap_pool_size
    → (k : ℕ) × (k < swap_pool_size)
      × Returns (λ victim t. (victim ≡ frame) × (t.swap_index < swap_pool_size)) (pick_after k s)
pick_victim_frame-round s frame lt lf =
    let k = (frame + swap_pool_size - s.swap_index) % swap_pool_size in
    (k, omega arith, rw (pick_after-mod k s lt) (returns (omega arith, omega arith)))
