-- ===== src/Asl/Init.antt =====
-- `initASL`.
use pandos.Prelude.{
  ℕ, zero, suc, ◌+◌, ◌<◌, ◌≤◌, ◌≡◌, refl, ap, ◌∙◌, ◌≢◌, [], ◌∷◌, arith, ◌==◌, Bool-cases, ◌⊎◌, inl,
  inr, ==_iff, ◌∈◌, ◌∉◌, ne_of_mem,
}
use pandos.Types.{Ptr, null}
use pandos.Run.{Returns, returns, Returns-bind, Returns-mono}
use pandos.Pcb.{upd}
use pandos.Pcb.Access.{ne_test, upd_self, upd-ne}
use pandos.Pcb.Pool.{FreeChain, IsTable, slots, Distinct-slots, slots-FreeChain}
use pandos.Asl.{Asl, max_semd, max_int, init_loop, init_asl}
use pandos.Asl.Search.{at_ok}
use pandos.Asl.Activate.{IsAsl}

-- The addresses of the slots of `semdTable`: real, and all different.
pub record IsSemdTable (table : ℕ → Ptr) : Type 0 where
  pub real : (i : ℕ) → i < max_semd + 2 → table i ≢ null
  pub apart : (i j : ℕ) → i < max_semd + 2 → j < max_semd + 2 → table i ≡ table j → i ≡ j

-- The slots from 1 on, which start free.
abbrev pub free_slot : (ℕ → Ptr) → ℕ → Ptr
free_slot table i = table (i + 1)

module _ (table : ℕ → Ptr) (is : IsSemdTable table) where
  free_slot-IsTable : IsTable (free_slot table)
  free_slot-IsTable = record {
    real = λ i lt. is.real (i + 1) (omega arith);
    apart = λ i j li lj e. omega (arith, is.apart (i + 1) (j + 1) (omega arith) (omega arith) e);
  }

  slot_ne : (i j : ℕ) → i < max_semd + 2 → j < max_semd + 2 → i ≢ j → table i ≢ table j
  slot_ne i j li lj n e = n (is.apart i j li lj e)

  record Linked (n i : ℕ) (a g : Asl) : Type 0 where
    linked : (j : ℕ) → i ≤ j → j < i + n → g.s_next (table j) ≡ table (j + 1)
    outside :
        (j : ℕ) → j < max_semd + 2 → (j < i) ⊎ (i + n ≤ j) → g.s_next (table j) ≡ a.s_next (table j)
    rest : g ≡ record a { s_next = g.s_next }

  init_loop-Linked :
      (n i : ℕ) (a : Asl)
      → i + n < max_semd + 2
      → Returns (λ _ g. Linked n i a g) (init_loop table n i a)
  unfolding init_loop
  init_loop-Linked zero i a le =
      returns
        (record { linked = λ j x y. absurd (omega arith); outside = λ j x y. refl; rest = refl })
  init_loop-Linked (suc n) i a le = rw (at_ok (is.real i (omega arith))) (
      Returns-mono (init_loop-Linked n (i + 1) _ (omega arith)) λ _ g l. record {
        linked = λ j x y. elim (Bool-cases (j == i)) [
          | inl e ↦
              let e' = (==_iff j i).0 e in
              rw e' (l.outside i (omega arith) (inl (omega arith)) ∙ upd_self _ _ _)
          | inr ne ↦ l.linked j (ground arith) (omega arith)
        ];
        outside = λ j x y.
            l.outside j x (elim y [ inl b ↦ inl (omega arith) | inr b ↦ inr (omega arith) ])
            ∙ upd-ne a.s_next (table (i + 1)) (
                slot_ne j i x (omega arith) (elim y [ inl b ↦ omega arith | inr b ↦ omega arith ]));
        rest = l.rest;
      })

  not-mem-free_slots :
      (n i j : ℕ)
      → i + n ≤ max_semd
      → (j ≡ 0) ⊎ (j ≡ max_semd + 1)
      → table j ∉ slots (free_slot table) n i
  not-mem-free_slots zero i j le end = refl
  not-mem-free_slots (suc n) i j le end =
      let ne : table j ≢ table (i + 1) =
        slot_ne j (i + 1) (elim end [ inl e ↦ omega arith | inr e ↦ omega arith ]) (omega arith)
          (elim end [ inl e ↦ omega arith | inr e ↦ omega arith ]) in
      rw (ne_test ne) (not-mem-free_slots n (i + 1) j (omega arith) end)

  apart_ends :
      (b : Ptr) → b ∈ slots (free_slot table) max_semd 0 → b ∉ (table 0 ∷ table (max_semd + 1) ∷ [])
  apart_ends b i =
      let first : b ≢ table 0 =
        ne_of_mem (slots (free_slot table) max_semd 0) i
          (not-mem-free_slots max_semd 0 0 (omega arith) (inl refl)) in
      let last : b ≢ table 21 =
        ne_of_mem (slots (free_slot table) max_semd 0) i
          (not-mem-free_slots max_semd 0 21 (omega arith) (inr refl)) in
      rw (ne_test first, ne_test last)

  -- The state before the loop.
  abbrev ends : Asl → Asl
  ends a = record a {
    semd_h = table 0;
    s_sem_add = upd (upd a.s_sem_add (table 0) 0) (table 21) max_int;
    s_next = upd (upd a.s_next (table 0) (table 21)) (table 21) null;
    semd_free_h = table 1;
  }

  module _ (a g : Asl) (l : Linked 19 1 (ends a) g) where
    abbrev closed : Ptr → Ptr
    closed = upd g.s_next (table 20) null

    closed_head : closed (table 0) ≡ table 21
    closed_head =
        upd-ne g.s_next null (slot_ne 0 20 (omega arith) (omega arith) (omega arith))
        ∙ l.outside 0 (omega arith) (inl (omega arith))
        ∙ upd-ne (upd a.s_next (table 0) (table 21)) null
            (slot_ne 0 21 (omega arith) (omega arith) (omega arith))
        ∙ upd_self a.s_next (table 0) (table 21)

    closed_tail : closed (table 21) ≡ null
    closed_tail =
        upd-ne g.s_next null (slot_ne 21 20 (omega arith) (omega arith) (omega arith))
        ∙ l.outside 21 (omega arith) (inr (omega arith))
        ∙ upd_self (upd a.s_next (table 0) (table 21)) (table 21) null

    closed_free : FreeChain closed (table 1) (slots (free_slot table) max_semd 0)
    closed_free =
        slots-FreeChain (free_slot table) free_slot-IsTable closed 19 0 (omega arith)
          (λ j x y.
            upd-ne g.s_next null (slot_ne (j + 1) 20 (omega arith) (omega arith) (omega arith))
            ∙ l.linked (j + 1) (omega arith) (omega arith))
          (upd_self g.s_next (table 20) null)

    closed-IsAsl :
        IsAsl (record g { s_next = closed }) (table 21 ∷ []) (slots (free_slot table) max_semd 0)
    closed-IsAsl =
        let head : g.semd_h ≡ table 0 = ap (λ (x : Asl). x.semd_h) l.rest in
        let free : g.semd_free_h ≡ table 1 = ap (λ (x : Asl). x.semd_free_h) l.rest in
        let keys : g.s_sem_add (table 21) ≡ max_int =
          ap (λ (x : Asl). x.s_sem_add (table 21)) l.rest
          ∙ upd_self (upd a.s_sem_add (table 0) 0) (table 21) max_int in
        record {
          active = record {
            head = rw head (is.real 0 (omega arith));
            chain = (ap closed head ∙ closed_head, is.real 21 (omega arith), closed_tail);
            sorted = (rw keys (omega arith), tt);
            short = omega arith;
          };
          distinct = (
            rw (head, ne_test (slot_ne 0 21 (omega arith) (omega arith) (omega arith))),
            (refl, tt),
          );
          free = rw free closed_free;
          distinct_free = Distinct-slots (free_slot table) free_slot-IsTable 20 0 (omega arith);
          apart = λ b i. rw head (apart_ends b i);
          total = omega arith;
        }

  -- `initASL` makes a well-formed ASL with the dummy tail alone in it and the descriptors from 1 to
  -- `max_semd` free, provided that the addresses of the slots of `semdTable` differ from each other
  -- and from NULL.
  pub init_asl-IsAsl :
      (a : Asl)
      → Returns
          (λ _ g. IsAsl g (table (max_semd + 1) ∷ []) (slots (free_slot table) max_semd 0))
          (init_asl table a)
  unfolding init_asl
  init_asl-IsAsl a =
      rw
        (
          at_ok (is.real 0 (omega arith)),
          at_ok (is.real 21 (omega arith)),
          at_ok (is.real 0 (omega arith)),
          at_ok (is.real 21 (omega arith)),
        )
        (Returns-bind (init_loop-Linked 19 1 (ends a) (omega arith))
          λ _ g l. rw (at_ok (is.real 20 (omega arith))) (returns (closed-IsAsl a g l)))
