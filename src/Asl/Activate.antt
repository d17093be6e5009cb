-- ===== src/Asl/Activate.antt =====
-- A descriptor that `insertBlocked` takes from the free list.
use pandos.Prelude.{
  ◌+◌, ◌<◌, ◌≤◌, ◌≡◌, refl, sym, ◌≢◌, List, [], ◌∷◌, arith, length, ◌∈◌, ◌∉◌, Distinct, ne_of_mem,
}
use pandos.Types.{Ptr, null}
use pandos.Run.{ok}
use pandos.Pcb.{upd}
use pandos.Pcb.Access.{ne_test}
use pandos.Pcb.Pool.{FreeChain, FreeChain-frame}
use pandos.Asl.{Asl, max_semd, asl_fuel, activate}
use pandos.Asl.Search.{read_ok, at_ok, IsActive, lookup}
use pandos.Asl.Place.{
  place_at, insert, linked, place_loop-place_at, place_at-mem, place_at-frame, has-insert,
  length-insert, insert-Distinct, insert-FreeChain, insert-Ascends,
}

-- The descriptors `ds` are in the ASL and `fs` are free, each of them once.
pub record IsAsl (a : Asl) (ds fs : List Ptr) : Type 0 where
  pub active : IsActive a ds
  pub distinct : Distinct (a.semd_h ∷ ds)
  pub free : FreeChain a.s_next a.semd_free_h fs
  pub distinct_free : Distinct fs
  pub apart : (b : Ptr) → b ∈ fs → b ∉ (a.semd_h ∷ ds)
  pub total : length ds + length fs ≤ max_semd + 1

pub null-not-mem-FreeChain :
    (n : Ptr → Ptr) (x : Ptr) (xs : List Ptr) → FreeChain n x xs → null ∉ xs
null-not-mem-FreeChain n x [] c = refl
null-not-mem-FreeChain n x (y ∷ xs) (e, m, c) = ground (arith, null-not-mem-FreeChain n (n y) xs c)

pub ne_mem : (xs : List Ptr) (b p : Ptr) → p ∈ xs → b ∉ xs → b ≢ p
ne_mem xs b p m o e = ne_of_mem xs m o (sym e)

-- The ASL with the descriptor `f` for `s`, behind `q`.
abbrev pub activated : Asl → (s f q : Ptr) → Asl
activated a s f q = record a {
  semd_free_h = a.s_next f;
  s_sem_add = upd a.s_sem_add f s;
  s_proc_q = upd a.s_proc_q f null;
  s_next = linked a.s_next f q;
}

-- The same before `f` is linked in.
abbrev taken : Asl → (s f : Ptr) → Asl
taken a s f = record a {
  semd_free_h = a.s_next f;
  s_sem_add = upd a.s_sem_add f s;
  s_proc_q = upd a.s_proc_q f null;
}

module _ {a : Asl} {ds : List Ptr} {f : Ptr} {fs : List Ptr} (s : Ptr)
    (v : IsAsl a ds (f ∷ fs)) where
  abbrev pub place : Ptr
  place = place_at a.s_sem_add s a.semd_h ds

  pub f_apart : f ∉ (a.semd_h ∷ ds)
  f_apart = v.apart f (ground arith)

  place_real : place ≢ null
  place_real =
      let m = place_at-mem a.s_sem_add s a.semd_h ds in
      let o : null ∉ (a.semd_h ∷ ds) = ground (
        arith,
        v.active.head,
        null-not-mem-FreeChain a.s_next (a.s_next a.semd_h) ds v.active.chain,
      ) in
      ne_of_mem (a.semd_h ∷ ds) m o

  keys_same : (b : Ptr) → b ∈ ds → upd a.s_sem_add f s b ≡ a.s_sem_add b
  unfolding upd
  keys_same b i = let o = f_apart in ground arith

  pub activate-ok : activate s a ≡ ok f (activated a s f place)
  unfolding activate
  activate-ok =
      rw (v.free.0, ne_test v.free.1, read_ok v.free.1, at_ok v.free.1, at_ok v.free.1)
        (rw
          (place_loop-place_at asl_fuel (taken a s f) a.semd_h s ds v.active.head v.active.chain
            (omega (arith, v.active.short)))
          (rw (
            place_at-frame a.s_sem_add (upd a.s_sem_add f s) s a.semd_h ds keys_same,
            read_ok place_real,
            at_ok v.free.1,
            at_ok place_real,
          )))

  place-not-free : (b : Ptr) → b ∈ fs → linked a.s_next f place b ≡ a.s_next b
  unfolding upd
  place-not-free b i =
      let p = place in
      let m : p ∈ (a.semd_h ∷ ds) = place_at-mem a.s_sem_add s a.semd_h ds in
      let o = v.apart b (ground arith) in
      let ne : b ≢ p = ne_mem (a.semd_h ∷ ds) b p m o in ground (arith, v.distinct_free)

  -- The list of descriptors is again one, sorted, and holds `f`.
  pub activated-IsAsl :
      0 < s
      → lookup a.s_sem_add s ds ≡ null
      → IsAsl (activated a s f place) (insert a.s_sem_add s f ds) fs
  activated-IsAsl lo miss =
      let o = f_apart in
      let nn = null-not-mem-FreeChain a.s_next (a.s_next a.semd_h) ds v.active.chain in
      record {
        active = record {
          head = v.active.head;
          chain =
              insert-FreeChain a.s_next a.s_sem_add s f a.semd_h ds v.free.1 v.distinct o
                v.active.chain;
          sorted = insert-Ascends a.s_sem_add s f 0 ds (ground arith) lo nn miss v.active.sorted;
          short = omega (arith, length-insert a.s_sem_add s f ds, v.total);
        };
        distinct = (
          rw (has-insert a.semd_h a.s_sem_add s f ds) (ground (arith, v.distinct)),
          insert-Distinct a.s_sem_add s f ds v.distinct.1 (ground arith),
        );
        free =
            FreeChain-frame a.s_next (linked a.s_next f place) (a.s_next f) fs
              (λ b i. place-not-free b i) v.free.2;
        distinct_free = v.distinct_free.1;
        apart = λ b i. ground (arith, has-insert b a.s_sem_add s f ds, v.apart b, v.distinct_free);
        total = omega (arith, length-insert a.s_sem_add s f ds, v.total);
      }
