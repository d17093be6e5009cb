-- ===== src/Pcb/Pool.antt =====
-- The free list of phase3/pcb.c: `allocPcb`, `freePcb` and `initPcbs`.
use pandos.Prelude.{
  ℕ, zero, suc, ◌+◌, ◌-◌, ◌≤◌, ◌<◌, ◌≡◌, refl, ◌≢◌, List, [], ◌∷◌, arith, ◌==◌, ◌∈◌, ◌∉◌, Distinct,
  ==_refl, ==_iff, Bool-cases, inl, inr, ◌∙◌, ap,
}
use native.Mathlib.Nat.{add-zero}
use pandos.Types.{Ptr, null, max_proc}
use pandos.Run.{ok, Returns, returns, Returns-bind, Returns-mono}
use pandos.Pcb.{Store, upd, zero_state, free_pcb, alloc_pcb, reset, init_loop, init_pcbs}
use pandos.Pcb.Access.{ne_test, read-ok, at-ok, upd_self, upd-ne}

-- From `a` the links `n` lead through `xs` to NULL.
abbrev pub FreeChain : (Ptr → Ptr) → Ptr → List Ptr → Type 0
FreeChain n a [] = a ≡ null
FreeChain n a (x ∷ xs) = (a ≡ x) × (x ≢ null) × FreeChain n (n x) xs

-- The free list holds the pcbs `xs`, each once.
pub record IsFree (h : Store) (xs : List Ptr) : Type 0 where
  pub chain : FreeChain h.p_next h.free_h xs
  pub distinct : Distinct xs

pub FreeChain-frame :
    (n m : Ptr → Ptr) (a : Ptr) (xs : List Ptr)
    → ((b : Ptr) → b ∈ xs → m b ≡ n b)
    → FreeChain n a xs
    → FreeChain m a xs
FreeChain-frame n m a [] same c = c
FreeChain-frame n m a (x ∷ xs) same (e, r, c) = (
  e,
  r,
  rw (same x (ground arith)) (FreeChain-frame n m (n x) xs (λ b i. same b (ground arith)) c),
)

-- `freePcb` puts a pcb that is not NULL and not free at the front of the free list.
pub free_pcb-cons :
    {h : Store} {xs : List Ptr} (p : Ptr)
    → IsFree h xs
    → p ≢ null
    → p ∉ xs
    → Returns (λ _ g. IsFree g (p ∷ xs)) (free_pcb p h)
unfolding free_pcb upd
free_pcb-cons {h} {xs} p f np o =
    rw (ne_test np, at-ok np)
      (returns (record {
        chain = (
          refl,
          np,
          rw ==_refl (FreeChain-frame h.p_next _ h.free_h xs (λ b i. ground arith) f.chain),
        );
        distinct = (o, f.distinct);
      }))

-- The fields of a pcb as `allocPcb` leaves them.
pub record IsReset (g : Store) (p : Ptr) : Type 0 where
  pub links : (g.p_next p ≡ null) × (g.p_prev p ≡ null)
  pub tree :
      (g.p_prnt p ≡ null)
      × (g.p_child p ≡ null)
      × (g.p_sib_left p ≡ null)
      × (g.p_sib_right p ≡ null)
  pub time : g.p_time p ≡ 0
  pub sem_add : g.p_sem_add p ≡ null
  pub support : g.p_support_struct p ≡ null
  pub state : g.p_s p ≡ zero_state

-- `allocPcb` takes the first pcb of the free list and resets it; the queue links and the semaphore
-- address of every other pcb stay.
pub alloc_pcb-head :
    {h : Store} {x : Ptr} {xs : List Ptr}
    → IsFree h (x ∷ xs)
    → Returns
        (λ p g.
          (p ≡ x)
          × IsFree g xs
          × IsReset g x
          × ((b : Ptr)
              → b ≢ x
              → (g.p_next b ≡ h.p_next b)
                × (g.p_prev b ≡ h.p_prev b)
                × (g.p_sem_add b ≡ h.p_sem_add b)))
        (alloc_pcb h)
unfolding alloc_pcb reset upd
alloc_pcb-head {h} {x} {xs} f =
    rw (f.chain.0, ne_test f.chain.1, read-ok f.chain.1, at-ok f.chain.1)
      (returns (
        refl,
        record {
          chain = FreeChain-frame h.p_next _ (h.p_next x) xs (λ b i. ground arith) f.chain.2;
          distinct = f.distinct.1;
        },
        record {
          links = ground arith;
          tree = ground arith;
          time = ground arith;
          sem_add = ground arith;
          support = ground arith;
          state = rw ==_refl;
        },
        λ b n. ground arith,
      ))

-- The store after `allocPcb`.
abbrev pub allocated : Store → Ptr → Store
allocated h x = reset x (record h { free_h = h.p_next x })

pub alloc_pcb-allocated :
    {h : Store} {x : Ptr} {xs : List Ptr} → IsFree h (x ∷ xs) → alloc_pcb h ≡ ok x (allocated h x)
unfolding alloc_pcb
alloc_pcb-allocated f = rw (f.chain.0, ne_test f.chain.1, read-ok f.chain.1, at-ok f.chain.1)

-- With no free pcb `allocPcb` returns NULL and changes nothing.
pub alloc_pcb-nil : {h : Store} → IsFree h [] → alloc_pcb h ≡ ok null h
unfolding alloc_pcb
alloc_pcb-nil f = rw f.chain

-- `pcbTable` from index `i`, `n` slots.
abbrev pub slots : (ℕ → Ptr) → ℕ → ℕ → List Ptr
slots table zero i = []
slots table (suc n) i = table i ∷ slots table n (i + 1)

-- The addresses of the `max_proc` slots of `pcbTable`: real, and all different.
pub record IsTable (table : ℕ → Ptr) : Type 0 where
  pub real : (i : ℕ) → i < max_proc → table i ≢ null
  pub apart : (i j : ℕ) → i < max_proc → j < max_proc → table i ≡ table j → i ≡ j

module _ (table : ℕ → Ptr) (is : IsTable table) where
  pub not-mem-slots : (n i j : ℕ) → j < i → i + n ≤ max_proc → table j ∉ slots table n i
  not-mem-slots zero i j lt le = refl
  not-mem-slots (suc n) i j lt le =
      let ne : table j ≢ table i = λ e. omega (arith, is.apart j i (omega arith) (omega arith) e) in
      rw (ne_test ne) (not-mem-slots n (i + 1) j (omega arith) (omega arith))

  pub Distinct-slots : (n i : ℕ) → i + n ≤ max_proc → Distinct (slots table n i)
  Distinct-slots zero i le = tt
  Distinct-slots (suc n) i le = (
    not-mem-slots n (i + 1) i (omega arith) (omega arith),
    Distinct-slots n (i + 1) (omega arith),
  )

  -- What the loop of `initPcbs` has linked.
  record Linked (n i : ℕ) (h g : Store) : Type 0 where
    linked : (j : ℕ) → i ≤ j → j < i + n → g.p_next (table j) ≡ table (j + 1)
    before : (j : ℕ) → j < i → g.p_next (table j) ≡ h.p_next (table j)

  init_loop-Linked :
      (n i : ℕ) (h : Store)
      → i + n < max_proc
      → Returns (λ _ g. Linked n i h g) (init_loop table n i h)
  unfolding init_loop
  init_loop-Linked zero i h le =
      returns (record { linked = λ j a b. absurd (omega arith); before = λ j a. refl })
  init_loop-Linked (suc n) i h le = rw (at-ok (is.real i (omega arith))) (
      Returns-mono (init_loop-Linked n (i + 1) _ (omega arith)) λ _ g l. record {
        linked = λ j a b. elim (Bool-cases (j == i)) [
          | inl e ↦ let e' = (==_iff j i).0 e in rw e' (l.before i (omega arith) ∙ upd_self _ _ _)
          | inr ne ↦ l.linked j (ground arith) (omega arith)
        ];
        before = λ j a.
            l.before j (omega arith)
            ∙ upd-ne h.p_next (table (i + 1))
                (λ e. omega (arith, is.apart j i (omega arith) (omega arith) e));
      })

  pub slots-FreeChain :
      (g : Ptr → Ptr) (n i : ℕ)
      → i + n < max_proc
      → ((j : ℕ) → i ≤ j → j < i + n → g (table j) ≡ table (j + 1))
      → g (table (i + n)) ≡ null
      → FreeChain g (table i) (slots table (suc n) i)
  slots-FreeChain g zero i le l e = (refl, is.real i (omega arith), rw add-zero at e)
  slots-FreeChain g (suc n) i le l e = (
    refl,
    is.real i (omega arith),
    rw (l i (omega arith) (omega arith)) (
        slots-FreeChain g n (i + 1) (omega arith) (λ j a b. l j (omega arith) (omega arith))
          (ap (λ k. g (table k)) (omega arith) ∙ e)),
  )

  -- After `initPcbs` all pcbs of `pcbTable` are free, in the order of the table, provided that
  -- the addresses of its slots differ from each other and from NULL.
  pub init_pcbs-slots :
      (h : Store) → Returns (λ _ g. IsFree g (slots table max_proc 0)) (init_pcbs table h)
  unfolding init_pcbs
  init_pcbs-slots h = Returns-bind (init_loop-Linked 19 0 h (omega arith)) λ _ g l.
      rw (at-ok (is.real 19 (omega arith))) (
        returns (record {
          chain =
              slots-FreeChain (upd g.p_next (table (max_proc - 1)) null) 19 0 (omega arith)
                (λ j a b.
                  upd-ne g.p_next null
                    (λ e. omega (arith, is.apart j 19 (omega arith) (omega arith) e))
                  ∙ l.linked j a b)
                (upd_self g.p_next (table 19) null);
          distinct = Distinct-slots 20 0 (omega arith);
        }))
