-- ===== src/Asl/Release.antt =====
-- A descriptor that leaves the active semaphore list.
use pandos.Prelude.{
  ℕ, zero, suc, ◌<◌, ◌≤◌, ◌≡◌, refl, sym, ap, ◌∙◌, ◌≢◌, true, false, List, [], ◌∷◌, arith, ◌==◌,
  if◌then◌else◌, length, Bool-cases, inl, inr, ◌∈◌, ◌∉◌, has, Distinct, ==_refl, ==_iff, ne_of_mem,
  mem_cons, erase, not-mem-erase, Distinct-erase, length-erase, not-mem-erase_self,
}
use pandos.Types.{Ptr, null}
use pandos.Run.{ok}
use pandos.Pcb.{upd}
use pandos.Pcb.Access.{ne_test}
use pandos.Pcb.Pool.{FreeChain, FreeChain-frame}
use pandos.Asl.{Asl, asl_fuel, before_loop, release_if_empty}
use pandos.Asl.Search.{read_ok, at_ok, Ascends, lookup, lookup-above}
use pandos.Asl.Activate.{IsAsl, null-not-mem-FreeChain}

-- The descriptor before `d`.
abbrev pub pred : Ptr → Ptr → List Ptr → Ptr
pred d prev [] = prev
pred d prev (x ∷ xs) = if x == d then prev else pred d x xs

before_loop-pred :
    (k : ℕ) (a : Asl) (prev d : Ptr) (xs : List Ptr)
    → prev ≢ null
    → FreeChain a.s_next (a.s_next prev) xs
    → length xs < k
    → before_loop k prev d a ≡ ok (pred d prev xs) a
unfolding before_loop
before_loop-pred zero a prev d xs n c lt = absurd (omega arith)
before_loop-pred (suc k) a prev d [] n c lt = rw (read_ok n, c)
before_loop-pred (suc k) a prev d (x ∷ xs) n (e, nx, c) lt =
    rw (read_ok n, e, ne_test nx)
      (elim (Bool-cases (x == d)) [
        | inl b ↦ rw b
        | inr b ↦ rw b (before_loop-pred k a x d xs nx c (omega arith))
      ])

mem_later : (a b c : Ptr) (xs : List Ptr) → c ∈ (b ∷ xs) → c ∈ (a ∷ b ∷ xs)
mem_later a b c xs i = ground arith

pred-mem : (d prev : Ptr) (xs : List Ptr) → pred d prev xs ∈ (prev ∷ xs)
pred-mem d prev [] = ground arith
pred-mem d prev (x ∷ xs) = elim (Bool-cases (x == d)) [
  | inl b ↦
      let e : pred d prev (x ∷ xs) ≡ prev = rw b in ap (λ c. has c (prev ∷ x ∷ xs)) e ∙ rw ==_refl
  | inr b ↦
      let e : pred d prev (x ∷ xs) ≡ pred d x xs = rw b in
      ap (λ c. has c (prev ∷ x ∷ xs)) e ∙ mem_later prev x (pred d x xs) xs (pred-mem d x xs)
]

next-pred :
    (n : Ptr → Ptr) (d prev : Ptr) (xs : List Ptr)
    → FreeChain n (n prev) xs
    → d ∈ xs
    → n (pred d prev xs) ≡ d
next-pred n d prev [] c i = cc
next-pred n d prev (x ∷ xs) (e, nx, c) i = elim (Bool-cases (x == d)) [
  | inl b ↦ rw b (e ∙ (==_iff x d).0 b)
  | inr b ↦ rw b (next-pred n d x xs c (ground arith))
]

-- `d` unlinked from behind `q`, and put before `z`.
abbrev pub unlinked : (Ptr → Ptr) → (d q z : Ptr) → Ptr → Ptr
unlinked n d q z = upd (upd n q (n d)) d z

erase-FreeChain :
    (n : Ptr → Ptr) (d z prev : Ptr) (xs : List Ptr)
    → Distinct (prev ∷ xs)
    → d ∈ xs
    → FreeChain n (n prev) xs
    → FreeChain
        (unlinked n d (pred d prev xs) z)
        (unlinked n d (pred d prev xs) z prev)
        (erase d xs)
unfolding upd
erase-FreeChain n d z prev [] u i c = cc
erase-FreeChain n d z prev (x ∷ xs) u i (e, nx, c) = elim (Bool-cases (x == d)) [
  | inl b ↦
      let b' : (d == x) ≡ true = ground arith in
      let start : unlinked n d prev z prev ≡ n x = ground arith in
      rw (b, b', start) (FreeChain-frame n (unlinked n d prev z) (n x) xs (λ y j. ground arith) c)
  | inr b ↦
      let b' : (d == x) ≡ false = ground arith in
      let later : d ∈ xs = ground arith in
      let m = pred-mem d x xs in
      let apart : prev ≢ pred d x xs = λ f. ne_of_mem (x ∷ xs) m u.0 (sym f) in
      let start : unlinked n d (pred d x xs) z prev ≡ x = ground arith in
      rw (b, b') (start, nx, erase-FreeChain n d z x xs u.1 later c)
]

Ascends-weaken :
    (key : Ptr → Ptr) (low low' : Ptr) (xs : List Ptr)
    → low' ≤ low
    → Ascends key low xs
    → Ascends key low' xs
Ascends-weaken key low low' [] le u = tt
Ascends-weaken key low low' (x ∷ xs) le u = (omega (arith, u.0), u.1)

erase-Ascends :
    (key : Ptr → Ptr) (d low : Ptr) (xs : List Ptr)
    → Ascends key low xs
    → Ascends key low (erase d xs)
erase-Ascends key d low [] u = tt
erase-Ascends key d low (x ∷ xs) u = elim (Bool-cases (d == x)) [
  | inl b ↦ rw b (Ascends-weaken key (key x) low xs (omega (arith, u.0)) u.1)
  | inr b ↦ rw b (u.0, erase-Ascends key d (key x) xs u.1)
]

above-mem :
    (key : Ptr → Ptr) (d low : Ptr) (xs : List Ptr) → Ascends key low xs → d ∈ xs → low < key d
above-mem key d low [] u i = cc
above-mem key d low (x ∷ xs) u i = elim (Bool-cases (d == x)) [
  | inl b ↦ rw ((==_iff d x).0 b) u.0
  | inr b ↦ omega (arith, above-mem key d (key x) xs u.1 (rw b at i), u.0)
]

-- Without the descriptor of `s` the other semaphores are found as before, and `s` is not.
pub lookup-erase :
    (key : Ptr → Ptr) (d t low : Ptr) (xs : List Ptr)
    → Ascends key low xs
    → d ∈ xs
    → lookup key t (erase d xs) ≡ (if key d == t then null else lookup key t xs)
lookup-erase key d t low [] u i = cc
lookup-erase key d t low (x ∷ xs) u i = elim (Bool-cases (d == x)) [
  | inl b ↦
      let e = (==_iff d x).0 b in
      rw (b, e)
        (elim (Bool-cases (key x == t)) [
          | inl f ↦ rw f (lookup-above key t (key x) xs u.1 (ground arith))
          | inr f ↦ rw f
        ])
  | inr b ↦
      let later : d ∈ xs = rw b at i in
      let above = above-mem key d (key x) xs u.1 later in
      rw (b, lookup-erase key d t (key x) xs u.1 later) (ground arith)
]

-- The ASL without the descriptor `d`, which stood behind `q`.
abbrev pub released : Asl → (d q : Ptr) → Asl
released a d q = record a { s_next = unlinked a.s_next d q a.semd_free_h; semd_free_h = d }

module _ {a : Asl} {ds fs : List Ptr} (d : Ptr) (v : IsAsl a ds fs) (i : d ∈ ds) where
  abbrev pub before : Ptr
  before = pred d a.semd_h ds

  d_real : d ≢ null
  d_real = ne_of_mem ds i (null-not-mem-FreeChain a.s_next (a.s_next a.semd_h) ds v.active.chain)

  before_real : before ≢ null
  before_real =
      let o : null ∉ (a.semd_h ∷ ds) = ground (
        arith,
        v.active.head,
        null-not-mem-FreeChain a.s_next (a.s_next a.semd_h) ds v.active.chain,
      ) in
      ne_of_mem (a.semd_h ∷ ds) (pred-mem d a.semd_h ds) o

  before_next : a.s_next before ≡ d
  before_next = next-pred a.s_next d a.semd_h ds v.active.chain i

  pub release_if_empty-ok : a.s_proc_q d ≡ null → release_if_empty d a ≡ ok tt (released a d before)
  unfolding release_if_empty
  release_if_empty-ok e = rw (
    read_ok d_real,
    e,
    before_loop-pred asl_fuel a a.semd_h d ds v.active.head v.active.chain
        (omega (arith, v.active.short)),
    read_ok before_real,
    read_ok d_real,
    before_next,
    ==_refl,
    at_ok before_real,
    at_ok d_real,
  )

  pub release_if_empty-kept : a.s_proc_q d ≢ null → release_if_empty d a ≡ ok tt a
  unfolding release_if_empty
  release_if_empty-kept n = rw (read_ok d_real, ne_test n)

  free_kept : (b : Ptr) → b ∈ fs → unlinked a.s_next d before a.semd_free_h b ≡ a.s_next b
  unfolding upd
  free_kept b j =
      let q = before in
      let o = v.apart b j in
      let nq : b ≢ q = λ e. ne_of_mem (a.semd_h ∷ ds) (pred-mem d a.semd_h ds) o (sym e) in
      let nd : b ≢ d = λ e. ne_of_mem (a.semd_h ∷ ds) (mem_cons a.semd_h d ds i) o (sym e) in
      ground arith

  not_free : d ∉ fs
  not_free = elim (Bool-cases (has d fs)) [
    | inl j ↦ absurd (ne_of_mem (a.semd_h ∷ ds) (mem_cons a.semd_h d ds i) (v.apart d j) refl)
    | inr j ↦ j
  ]

  apart_from : (b : Ptr) → b ∈ (d ∷ fs) → b ∉ (a.semd_h ∷ erase d ds)
  apart_from b j = elim (Bool-cases (b == d)) [
    | inl e ↦
        let gone = not-mem-erase_self d ds v.distinct.1 in
        let nh : d ≢ a.semd_h = ne_of_mem ds i v.distinct.0 in
        ap (λ c. has c (a.semd_h ∷ erase d ds)) ((==_iff b d).0 e) ∙ rw (ne_test nh) gone
    | inr e ↦
        let o = v.apart b (rw e at j) in let k = not-mem-erase b d ds (ground arith) in ground arith
  ]

  pub released-IsAsl : IsAsl (released a d before) (erase d ds) (d ∷ fs)
  unfolding upd
  released-IsAsl =
      let l = length-erase d ds i in
      let q = before in
      record {
        active = record {
          head = v.active.head;
          chain = erase-FreeChain a.s_next d a.semd_free_h a.semd_h ds v.distinct i v.active.chain;
          sorted = erase-Ascends a.s_sem_add d 0 ds v.active.sorted;
          short = omega (arith, v.active.short);
        };
        distinct = (not-mem-erase a.semd_h d ds v.distinct.0, Distinct-erase d ds v.distinct.1);
        free = (
          refl,
          d_real,
          rw ==_refl (
              FreeChain-frame a.s_next (unlinked a.s_next d q a.semd_free_h) a.semd_free_h fs
                (λ b j. free_kept b j) v.free),
        );
        distinct_free = (not_free, v.distinct_free);
        apart = λ b j. apart_from b j;
        total = omega (arith, v.total);
      }
