-- ===== src/Asl/Place.antt =====
-- Where `insertBlocked` puts a new descriptor in the active semaphore list.
use pandos.Prelude.{
  ℕ, zero, suc, ◌+◌, ◌<◌, ◌≡◌, refl, ap, ◌∙◌, ◌≢◌, false, ◌||◌, List, [], ◌∷◌, arith, ◌==◌, ltb,
  if◌then◌else◌, length, Bool-cases, inl, inr, ◌∈◌, ◌∉◌, has, Distinct, ==_refl,
}
use pandos.Types.{Ptr, null}
use pandos.Run.{ok}
use pandos.Pcb.{upd}
use pandos.Pcb.Access.{ne_test}
use pandos.Pcb.Pool.{FreeChain, FreeChain-frame}
use pandos.Asl.{Asl, place_loop}
use pandos.Asl.Search.{read_ok, Ascends, lookup}

-- The last descriptor from `prev` on with a semaphore below `s`.
abbrev pub place_at : (Ptr → Ptr) → Ptr → Ptr → List Ptr → Ptr
place_at key s prev [] = prev
place_at key s prev (d ∷ ds) = if ltb (key d) s then place_at key s d ds else prev

-- The descriptor `f` of the semaphore `s` among the descriptors `ds`.
abbrev pub insert : (Ptr → Ptr) → (s f : Ptr) → List Ptr → List Ptr
insert key s f [] = f ∷ []
insert key s f (d ∷ ds) = if ltb (key d) s then d ∷ insert key s f ds else f ∷ d ∷ ds

pub place_loop-place_at :
    (k : ℕ) (a : Asl) (prev s : Ptr) (ds : List Ptr)
    → prev ≢ null
    → FreeChain a.s_next (a.s_next prev) ds
    → length ds < k
    → place_loop k prev s a ≡ ok (place_at a.s_sem_add s prev ds) a
unfolding place_loop
place_loop-place_at zero a prev s ds n c lt = absurd (omega arith)
place_loop-place_at (suc k) a prev s [] n c lt = rw (read_ok n, c)
place_loop-place_at (suc k) a prev s (d ∷ ds) n (e, nd, c) lt =
    rw (read_ok n, e, ne_test nd, read_ok nd)
      (elim (Bool-cases (ltb (a.s_sem_add d) s)) [
        | inl b ↦ rw b (place_loop-place_at k a d s ds nd c (omega arith))
        | inr b ↦ rw b
      ])

mem_later : (a b c : Ptr) (xs : List Ptr) → c ∈ (b ∷ xs) → c ∈ (a ∷ b ∷ xs)
mem_later a b c xs i = ground arith

pub place_at-mem :
    (key : Ptr → Ptr) (s prev : Ptr) (ds : List Ptr) → place_at key s prev ds ∈ (prev ∷ ds)
place_at-mem key s prev [] = ground arith
place_at-mem key s prev (d ∷ ds) = elim (Bool-cases (ltb (key d) s)) [
  | inl b ↦
      let e : place_at key s prev (d ∷ ds) ≡ place_at key s d ds = rw b in
      ap (λ c. has c (prev ∷ d ∷ ds)) e
      ∙ mem_later prev d (place_at key s d ds) ds (place_at-mem key s d ds)
  | inr b ↦
      let e : place_at key s prev (d ∷ ds) ≡ prev = rw b in
      ap (λ c. has c (prev ∷ d ∷ ds)) e ∙ rw ==_refl
]

pub place_at-frame :
    (key key' : Ptr → Ptr) (s prev : Ptr) (ds : List Ptr)
    → ((b : Ptr) → b ∈ ds → key' b ≡ key b)
    → place_at key' s prev ds ≡ place_at key s prev ds
place_at-frame key key' s prev [] same = refl
place_at-frame key key' s prev (d ∷ ds) same =
    rw (same d (ground arith), place_at-frame key key' s d ds (λ b i. same b (ground arith)))

pub has-insert :
    (b : Ptr) (key : Ptr → Ptr) (s f : Ptr) (ds : List Ptr)
    → has b (insert key s f ds) ≡ ((b == f) || has b ds)
has-insert b key s f [] = refl
has-insert b key s f (d ∷ ds) = elim (Bool-cases (ltb (key d) s)) [
  | inl e ↦ let i = has-insert b key s f ds in rw (e, i) (ground arith)
  | inr e ↦ rw e
]

pub length-insert :
    (key : Ptr → Ptr) (s f : Ptr) (ds : List Ptr) → length (insert key s f ds) ≡ length ds + 1
length-insert key s f [] = omega arith
length-insert key s f (d ∷ ds) = elim (Bool-cases (ltb (key d) s)) [
  | inl e ↦ let i = length-insert key s f ds in rw e (omega arith)
  | inr e ↦ rw e (omega arith)
]

pub insert-Distinct :
    (key : Ptr → Ptr) (s f : Ptr) (ds : List Ptr)
    → Distinct ds
    → f ∉ ds
    → Distinct (insert key s f ds)
insert-Distinct key s f [] d o = (refl, tt)
insert-Distinct key s f (x ∷ ds) d o = elim (Bool-cases (ltb (key x) s)) [
  | inl e ↦
      rw e
        (rw (has-insert x key s f ds) (ground arith), insert-Distinct key s f ds d.1 (ground arith))
  | inr e ↦ rw e (o, d)
]

Ascends-frame :
    (key key' : Ptr → Ptr) (low : Ptr) (ds : List Ptr)
    → ((b : Ptr) → b ∈ ds → key' b ≡ key b)
    → Ascends key low ds
    → Ascends key' low ds
Ascends-frame key key' low [] same u = tt
Ascends-frame key key' low (d ∷ ds) same u =
    rw (same d (ground arith))
      (u.0, Ascends-frame key key' (key d) ds (λ b i. same b (ground arith)) u.1)

lookup-frame :
    (key key' : Ptr → Ptr) (t : Ptr) (ds : List Ptr)
    → ((b : Ptr) → b ∈ ds → key' b ≡ key b)
    → lookup key' t ds ≡ lookup key t ds
lookup-frame key key' t [] same = refl
lookup-frame key key' t (d ∷ ds) same =
    rw (same d (ground arith), lookup-frame key key' t ds (λ b i. same b (ground arith)))

-- `f` linked in behind `q`.
abbrev pub linked : (Ptr → Ptr) → (f q : Ptr) → Ptr → Ptr
linked n f q = upd (upd n f (n q)) q f

pub insert-FreeChain :
    (n key : Ptr → Ptr) (s f prev : Ptr) (ds : List Ptr)
    → f ≢ null
    → Distinct (prev ∷ ds)
    → f ∉ (prev ∷ ds)
    → FreeChain n (n prev) ds
    → FreeChain
        (linked n f (place_at key s prev ds))
        (linked n f (place_at key s prev ds) prev)
        (insert key s f ds)
unfolding upd
insert-FreeChain n key s f prev [] nf d o c = (ground arith, nf, ground arith)
insert-FreeChain n key s f prev (x ∷ ds) nf d o (e, nx, c) = elim (Bool-cases (ltb (key x) s)) [
  | inl b ↦
      let m = place_at-mem key s x ds in
      rw b (ground arith, nx, insert-FreeChain n key s f x ds nf d.1 (ground arith) c)
  | inr b ↦
      let apart : linked n f prev x ≡ n x = ground arith in
      rw (b, apart)
        (
          ground arith,
          nf,
          (ground arith, nx, FreeChain-frame n (linked n f prev) _ ds (λ y i. ground arith) c),
        )
]

-- The descriptors stay sorted.
pub insert-Ascends :
    (key : Ptr → Ptr) (s f low : Ptr) (ds : List Ptr)
    → f ∉ ds
    → low < s
    → null ∉ ds
    → lookup key s ds ≡ null
    → Ascends key low ds
    → Ascends (upd key f s) low (insert key s f ds)
unfolding upd
insert-Ascends key s f low [] o lo nn miss u = (ground arith, tt)
insert-Ascends key s f low (x ∷ ds) o lo nn miss u = elim (Bool-cases (ltb (key x) s)) [
  | inl b ↦
      let ne : (key x == s) ≡ false = ground arith in
      let same : upd key f s x ≡ key x = ground arith in
      rw (b, same)
        (
          u.0,
          insert-Ascends key s f (key x) ds (ground arith) (ground arith) (ground arith)
              (rw ne at miss) u.1,
        )
  | inr b ↦
      let ne : (key x == s) ≡ false = ground arith in
      let same : upd key f s x ≡ key x = ground arith in
      let new : upd key f s f ≡ s = ground arith in
      rw (b, same, new)
        (lo, (ground arith, Ascends-frame key (upd key f s) (key x) ds (λ y i. ground arith) u.1))
]

-- The new descriptor is found, and every other one as before.
pub lookup-insert :
    (key : Ptr → Ptr) (s f t : Ptr) (ds : List Ptr)
    → f ∉ ds
    → lookup key s ds ≡ null
    → null ∉ ds
    → lookup (upd key f s) t (insert key s f ds) ≡ (if s == t then f else lookup key t ds)
unfolding upd
lookup-insert key s f t [] o miss nn = ground arith
lookup-insert key s f t (x ∷ ds) o miss nn = elim (Bool-cases (ltb (key x) s)) [
  | inl b ↦
      let ne : (key x == s) ≡ false = ground arith in
      let same : upd key f s x ≡ key x = ground arith in
      rw (b, same, lookup-insert key s f t ds (ground arith) (rw ne at miss) (ground arith))
        (ground arith)
  | inr b ↦
      let same : upd key f s x ≡ key x = ground arith in
      let new : upd key f s f ≡ s = ground arith in
      rw (b, same, new, lookup-frame key (upd key f s) t ds (λ y i. ground arith)) refl
]
