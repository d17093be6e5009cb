-- ===== src/Asl/Search.antt =====
-- The active semaphore list, and `findSemd` on it.
use pandos.Prelude.{
  ℕ, zero, suc, ◌+◌, ◌<◌, ◌≤◌, ◌≡◌, refl, ◌≢◌, false, List, [], ◌∷◌, arith, ◌==◌, ltb,
  if◌then◌else◌, length, Bool-cases, inl, inr,
}
use pandos.Types.{Ptr, null}
use pandos.Run.{Run, ok, pure, ◌>>=◌}
use pandos.Pcb.Access.{ne_test}
use pandos.Pcb.Pool.{FreeChain}
use pandos.Asl.{Asl, read, at, max_semd, asl_fuel, find_loop, find_semd, get_sem_add}

pub read_ok : {A : Type 0} {d : Ptr} → d ≢ null → (f : Asl → A) (a : Asl) → read d f a ≡ ok (f a) a
unfolding read
read_ok nd f a = rw (ne_test nd)

pub at_ok : {d : Ptr} → d ≢ null → (f : Asl → Asl) (a : Asl) → at d f a ≡ ok tt (f a)
unfolding at
at_ok nd f a = rw (ne_test nd)

-- The keys ascend, from above `low`.
abbrev pub Ascends : (Ptr → Ptr) → Ptr → List Ptr → Type 0
Ascends key low [] = Unit {0}
Ascends key low (d ∷ ds) = (low < key d) × Ascends key (key d) ds

-- Behind its dummy head the ASL holds the descriptors `ds`, the dummy tail last, sorted by the
-- semaphore.
pub record IsActive (a : Asl) (ds : List Ptr) : Type 0 where
  pub head : a.semd_h ≢ null
  pub chain : FreeChain a.s_next (a.s_next a.semd_h) ds
  pub sorted : Ascends a.s_sem_add 0 ds
  pub short : length ds ≤ max_semd + 1

-- The descriptor of a semaphore, looked for in the whole list; NULL if there is none.
abbrev pub lookup : (Ptr → Ptr) → Ptr → List Ptr → Ptr
lookup key s [] = null
lookup key s (d ∷ ds) = if key d == s then d else lookup key s ds

pub lookup-above :
    (key : Ptr → Ptr) (s low : Ptr) (ds : List Ptr)
    → Ascends key low ds
    → s ≤ low
    → lookup key s ds ≡ null
lookup-above key s low [] c le = refl
lookup-above key s low (d ∷ ds) c le =
    let ne : key d ≢ s = λ e. omega (arith, c.0) in
    rw (ne_test ne) (lookup-above key s (key d) ds c.1 (omega (arith, c.0)))

-- Where the search of `findSemd` stops.
abbrev stop_at : (Ptr → Ptr) → Ptr → List Ptr → Ptr
stop_at key s [] = null
stop_at key s (d ∷ ds) = if ltb (key d) s then stop_at key s ds else d

find_loop-stop_at :
    (k : ℕ) (a : Asl) (current s : Ptr) (ds : List Ptr)
    → FreeChain a.s_next current ds
    → length ds < k
    → find_loop k current s a ≡ ok (stop_at a.s_sem_add s ds) a
unfolding find_loop
find_loop-stop_at zero a current s ds c lt = absurd (omega arith)
find_loop-stop_at (suc k) a current s [] c lt = rw c
find_loop-stop_at (suc k) a current s (d ∷ ds) (e, n, c) lt =
    rw (e, ne_test n, read_ok n, read_ok n)
      (elim (Bool-cases (ltb (a.s_sem_add d) s)) [
        | inl b ↦ rw b (find_loop-stop_at k a (a.s_next d) s ds c (omega arith))
        | inr b ↦ rw b
      ])

-- What `findSemd` does where its search has stopped.
abbrev match_key : (s current : Ptr) (a : Asl) → Run Asl Ptr
match_key s current a =
    (if current == null
        then pure null
        else do key ← get_sem_add current; pure (if key == s then current else null))
      a

stop_at-lookup :
    (a : Asl) (s low current : Ptr) (ds : List Ptr)
    → FreeChain a.s_next current ds
    → Ascends a.s_sem_add low ds
    → match_key s (stop_at a.s_sem_add s ds) a ≡ ok (lookup a.s_sem_add s ds) a
stop_at-lookup a s low current [] c u = refl
stop_at-lookup a s low current (d ∷ ds) (e, n, c) u = elim (Bool-cases (ltb (a.s_sem_add d) s)) [
  | inl b ↦
      let ne : (a.s_sem_add d == s) ≡ false = ground arith in
      rw (b, ne) (stop_at-lookup a s (a.s_sem_add d) (a.s_next d) ds c u.1)
  | inr b ↦
      rw (b, ne_test n, read_ok n)
        (elim (Bool-cases (a.s_sem_add d == s)) [
          | inl f ↦ rw f
          | inr f ↦
              let le : s ≤ a.s_sem_add d = ground arith in
              rw (f, lookup-above a.s_sem_add s (a.s_sem_add d) ds u.1 le)
        ])
]

-- On a sorted ASL `findSemd`, which stops at the first semaphore that is not below the one sought,
-- finds what a search through the whole list finds, NULL included, and changes nothing.
pub find_semd-lookup :
    {a : Asl} {ds : List Ptr} (s : Ptr)
    → IsActive a ds
    → find_semd s a ≡ ok (lookup a.s_sem_add s ds) a
unfolding find_semd
find_semd-lookup {a} {ds} s v =
    rw
      (
        read_ok v.head,
        find_loop-stop_at asl_fuel a (a.s_next a.semd_h) s ds v.chain (omega (arith, v.short)),
      )
      (stop_at-lookup a s 0 (a.s_next a.semd_h) ds v.chain v.sorted)
