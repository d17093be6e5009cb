-- ===== src/Delay/Init.antt =====
-- The delay lists that `initADL` builds.
use pandos.Prelude.{
  ℕ, zero, suc, ◌+◌, ◌<◌, ◌≤◌, ◌≡◌, ◌≢◌, refl, arith, List, [], ◌∷◌, ◌∉◌, Distinct, ne_of_mem,
}
use pandos.Types.{Ptr, null}
use pandos.Run.{Returns, returns, Returns-bind}
use pandos.Pcb.{upd}
use pandos.Pcb.Access.{ne_test, upd_self, upd-ne}
use pandos.Pcb.Pool.{FreeChain, FreeChain-frame}
use pandos.Support.{Support, through}
use pandos.Delay.{delay_list_size, free_list_loop, init_delay_lists}
use pandos.Delay.Insertion.{IsAdl, FreeChain-start}

-- The addresses of the descriptors of `delaydTable`: real, and all different.
pub record IsDelayTable (table : ℕ → Ptr) : Type 0 where
  pub real : (i : ℕ) → i < delay_list_size → table i ≢ null
  pub apart : (i j : ℕ) → i < delay_list_size → j < delay_list_size → table i ≡ table j → i ≡ j

-- The first `n` descriptors, the last one first.
abbrev pub pushed : (ℕ → Ptr) → (n : ℕ) → List Ptr
pushed table zero = []
pushed table (suc n) = table n ∷ pushed table n

-- The descriptors `fs` are free, each once, and the tail is not among them.
pub record IsFreeList (s : Support) (fs : List Ptr) (dummy : Ptr) : Type 0 where
  pub chain : FreeChain s.d_next s.delayd_free_h fs
  pub distinct : Distinct fs
  pub apart : dummy ∉ fs

add_zero : (i : ℕ) → i + 0 ≡ i
add_zero i = omega arith

add_suc : (i n : ℕ) → i + suc n ≡ i + 1 + n
add_suc i n = omega arith

one_more : (i : ℕ) → i + 1 ≡ suc i
one_more i = omega arith

module _ (table : ℕ → Ptr) (is : IsDelayTable table) where
  not-mem-pushed : (n j : ℕ) → n ≤ j → j < delay_list_size → table j ∉ pushed table n
  not-mem-pushed zero j le lt = refl
  not-mem-pushed (suc n) j le lt =
      let ne : table j ≢ table n = λ e. omega (arith, is.apart j n lt (omega arith) e) in
      rw (ne_test ne) (not-mem-pushed n j (omega arith) lt)

  Distinct-pushed : (n : ℕ) → n ≤ delay_list_size → Distinct (pushed table n)
  Distinct-pushed zero le = tt
  Distinct-pushed (suc n) le =
      (not-mem-pushed n n (omega arith) (omega arith), Distinct-pushed n (omega arith))

  free_list_loop-pushed :
      (n i : ℕ) (s : Support)
      → i + n < delay_list_size
      → FreeChain s.d_next s.delayd_free_h (pushed table i)
      → Returns
          (λ _ t. FreeChain t.d_next t.delayd_free_h (pushed table (i + n)))
          (free_list_loop table n i s)
  unfolding free_list_loop through
  free_list_loop-pushed zero i s lt c = returns (rw (add_zero i) c)
  free_list_loop-pushed (suc n) i s lt c =
      let real = is.real i (omega arith) in
      let next : FreeChain (upd s.d_next (table i) s.delayd_free_h) (table i)
          (pushed table (suc i)) =
        (
          refl,
          real,
          FreeChain-start _ _ (upd_self s.d_next (table i) s.delayd_free_h) (
              FreeChain-frame s.d_next _ _ _
                (λ b m.
                  upd-ne _ _
                    (ne_of_mem (pushed table i) m (not-mem-pushed i i (omega arith) (omega arith))))
                c),
        ) in
      rw (ne_test real, add_suc i n)
        (free_list_loop-pushed n (i + 1) _ (omega arith) (rw (one_more i) next))

  -- `initADL` leaves an active delay list with the dummy tail only, and the other 8 descriptors of
  -- `delaydTable` free, provided that their addresses differ from each other and from NULL.
  pub init_delay_lists-IsAdl :
      (s : Support)
      → Returns
          (λ _ t. IsAdl t [] (table 8) × IsFreeList t (pushed table 8) (table 8))
          (init_delay_lists table s)
  unfolding init_delay_lists through
  init_delay_lists-IsAdl s =
      let real = is.real 8 (omega arith) in
      Returns-bind (free_list_loop-pushed 8 0 _ (omega arith) refl) λ _ t c.
        rw (ne_test real, ne_test real, ne_test real)
          (returns (
            record {
              chain = (refl, real, rw (ne_test real) (upd_self t.d_next (table 8) null));
              distinct = (ground (arith, real), (refl, tt));
              sorted = (λ y i. ground arith, tt);
              last = upd_self _ _ _;
              tail = upd_self _ _ _;
              owners = λ x i. ground arith;
            },
            record {
              chain =
                  FreeChain-frame t.d_next (upd t.d_next (table 8) null) t.delayd_free_h
                    (pushed table 8)
                    (λ b m. upd-ne t.d_next null (
                      ne_of_mem (pushed table 8) m
                        (not-mem-pushed 8 8 (omega arith) (omega arith))))
                    c;
              distinct = Distinct-pushed 8 (omega arith);
              apart = not-mem-pushed 8 8 (omega arith) (omega arith);
            },
          ))
