-- ===== src/Exceptions/Progeny.antt =====
-- One round of the loop of `sysTerminate` over the children of a process.
use pandos.Prelude.{
  ◌+◌, ◌<◌, ◌≡◌, refl, sym, ◌∙◌, ◌≢◌, false, List, ◌∷◌, arith, ◌==◌, if◌then◌else◌, ◌∈◌, ◌∉◌, has,
  has-append, erase, length, length-append, Bool-cases, inl, inr, ne_of_mem, Distinct-append,
  Distinct-apart, Distinct_middle, without, push, without-append, push-append, not-mem-push,
  mem_cons, ap,
}
use mathlib.Core.Path.{subst, fun_ext}
use pandos.Types.{Ptr, null}
use pandos.Run.{ok}
use pandos.Pcb.Access.{ne_test}
use pandos.Pcb.Forest.{Forest, tree, nodes, Spares, IsForest-frame, null-not-mem-nodes}
use pandos.Pcb.Family.{detached}
use pandos.Pcb.Detach.{removed-Spares, removed_prnt, below-IsForest, rest-IsForest}
use pandos.Kernel.{Kernel, Layout}
use pandos.Exceptions.{terminate_one}
use pandos.Prelude.{tally, tally-append}
use pandos.Exceptions.Lists.{HasLists, HasLists-links}
use pandos.Exceptions.Vacate.{is_blocked_on, is_soft_blocked}
use pandos.Exceptions.Depart.{Departed, terminate_one_orphan}
use pandos.Exceptions.Standing.{
  Standing, Cleared, Spares-trans, Departed-Spares, current_after, word_after, soft_after, sem_sum,
  soft_sum,
}

-- The state when `removeChild` has taken out the first child.
abbrev pub orphaned : Kernel → (prnt x : Ptr) → Kernel
orphaned k prnt x = record k { asl = record (k.asl) { pcbs = detached k.asl.pcbs prnt x } }

module _ (k : Kernel) (prnt x : Ptr) (below rest : Forest) (w : Ptr → List Ptr) (rs fs : List Ptr)
    (st : Standing k prnt (tree x below rest) w rs fs) where
  x_real : x ≢ null
  x_real = st.links.1

  in_below : (b : Ptr) → b ∈ nodes below → b ∈ nodes (tree x below rest)
  in_below b i = ground (arith, has-append b (nodes below) (x ∷ nodes rest))

  in_rest : (b : Ptr) → b ∈ (x ∷ nodes rest) → b ∈ nodes (tree x below rest)
  in_rest b i = ground (arith, has-append b (nodes below) (x ∷ nodes rest))

  out_below : (b : Ptr) → b ∉ nodes (tree x below rest) → b ∉ nodes below
  out_below b o = ground (arith, has-append b (nodes below) (x ∷ nodes rest))

  out_rest : (b : Ptr) → b ∉ nodes (tree x below rest) → b ∉ (x ∷ nodes rest)
  out_rest b o = ground (arith, has-append b (nodes below) (x ∷ nodes rest))

  in_later : (b : Ptr) → b ∈ nodes rest → b ∈ (x ∷ nodes rest)
  in_later b i = mem_cons x b (nodes rest) i

  middle : (x ∉ nodes below) × (x ∉ nodes rest)
  middle = Distinct_middle (nodes below) x (nodes rest) st.distinct

  pub below-Standing : Standing (orphaned k prnt x) x below w rs fs
  below-Standing = record {
    lists = HasLists-links (detached k.asl.pcbs prnt x) refl refl refl refl st.lists;
    links = below-IsForest k.asl.pcbs prnt x below rest st.links st.real st.distinct st.outside;
    real = x_real;
    distinct = (Distinct-append (nodes below) (x ∷ nodes rest) st.distinct).0;
    outside = middle.0;
    fresh = λ b i. st.fresh b (in_below b i);
    named = λ b i. st.named b (in_below b i);
    many = omega (arith, st.many, length-append (nodes below) (x ∷ nodes rest));
    small = st.small;
    words = st.words;
    soft = st.soft;
  }

  module _ (l : Layout) (k2 : Kernel) (c : Cleared l (orphaned k prnt x) x below w rs fs k2) where
    -- The lists when the processes below are gone, and when the child is.
    abbrev w2 : Ptr → List Ptr
    w2 s = without (nodes below) (w s)

    abbrev w3 : Ptr → List Ptr
    w3 s = erase x (w2 s)

    abbrev rs2 : List Ptr
    rs2 = without (nodes below) rs

    abbrev fs2 : List Ptr
    fs2 = push (nodes below) fs

    alive : length (nodes rest) + 1 < k2.process_count
    alive = omega (arith, st.many, c.count, length-append (nodes below) (x ∷ nodes rest))

    -- The child itself.
    pub child-Departed :
        (k3 : Kernel) × (terminate_one l x k2 ≡ ok tt k3)
        × Departed l k2 x w2 rs2 fs2 k2.asl.pcbs k3
    child-Departed =
        let up =
          removed_prnt k.asl.pcbs prnt x below rest st.links st.real st.distinct st.outside in
        let xm : x ∈ (x ∷ nodes rest) = ground arith in
        let (k3, e, d) =
          terminate_one_orphan l x k2 x_real (omega (arith, alive))
            (omega (arith, c.count, st.small)) c.lists
            (not-mem-push x (nodes below) fs middle.0 (st.fresh x (in_rest x xm)))
            (λ z. st.named x (in_rest x xm) (ap (λ f. f x) (sym c.sem_add) ∙ z))
            (c.own_prnt ∙ up.4) in
        let on : (k3.process_count == 0) ≡ false = ne_test (omega (arith, alive, d.count)) in
        (k3, e ∙ rw on, d)

    module _ (k3 : Kernel) (d : Departed l k2 x w2 rs2 fs2 k2.asl.pcbs k3) where
      -- What the loop has done to a pcb that is not below the child.
      gone_below :
          (b : Ptr) → b ∉ nodes below → b ≢ x → Spares (detached k.asl.pcbs prnt x) k3.asl.pcbs b
      gone_below b o n = Spares-trans (c.spared b o n) (Departed-Spares b d)

      rest_apart : (b : Ptr) → b ∈ nodes rest → (b ∉ nodes below) × (b ≢ x)
      rest_apart b i = (
        elim (Bool-cases (has b (nodes below))) [
          | inl j ↦
              let o = Distinct-apart (nodes below) (x ∷ nodes rest) b st.distinct j in
              let later = in_later b i in cc
          | inr o ↦ o
        ],
        ne_of_mem (nodes rest) i middle.1,
      )

      prnt_apart : (prnt ∉ nodes below) × (prnt ≢ x)
      prnt_apart = (out_below prnt st.outside, ground (arith, out_rest prnt st.outside))

      pub rest-Standing : Standing k3 prnt rest w3 (erase x rs2) (x ∷ fs2)
      rest-Standing =
          let later = Distinct-append (nodes below) (x ∷ nodes rest) st.distinct in
          let kept = gone_below prnt prnt_apart.0 prnt_apart.1 in
          record {
            lists = d.lists;
            links =
                IsForest-frame (detached k.asl.pcbs prnt x) k3.asl.pcbs prnt null _ _ rest
                  kept.child (λ b i. gone_below b (rest_apart b i).0 (rest_apart b i).1)
                  (rest-IsForest k.asl.pcbs prnt x below rest st.links st.real st.distinct
                    st.outside);
            real = st.real;
            distinct = later.1.1;
            outside = ground (arith, out_rest prnt st.outside);
            fresh = λ b i.
                let o =
                  not-mem-push b (nodes below) fs (rest_apart b i).0
                    (st.fresh b (in_rest b (in_later b i))) in
                rw (ne_test (rest_apart b i).1) o;
            named = λ b i z.
                st.named b (in_rest b (in_later b i))
                  (ap (λ f. f b) (sym (d.sem_add ∙ c.sem_add)) ∙ z);
            many = omega (arith, alive, d.count);
            small = omega (arith, c.count, d.count, st.small);
            words = λ t. word_after _ _ _ _ _ (c.sems t) (d.sems t);
            soft = soft_after _ _ _ c.soft_word d.soft;
          }

      module _ (k4 : Kernel) (e : Cleared l k3 prnt rest w3 (erase x rs2) (x ∷ fs2) k4) where
        current_gone : k4.current_process ≡ (
            if has k.current_process (nodes (tree x below rest)) then null else k.current_process)
        current_gone =
            let none = null-not-mem-nodes k3.asl.pcbs prnt null _ rest rest-Standing.links in
            e.current
            ∙ current_after (nodes below) (nodes rest) x k.current_process k2.current_process
                k3.current_process x_real none c.current d.current

        pub all-Cleared : Cleared l k prnt (tree x below rest) w rs fs k4
        all-Cleared =
            let up =
              removed_prnt k.asl.pcbs prnt x below rest st.links st.real st.distinct st.outside in
            let kept = gone_below prnt prnt_apart.0 prnt_apart.1 in
            let key = k.asl.pcbs.p_sem_add in
            let keys : k3.asl.pcbs.p_sem_add ≡ key = d.sem_add ∙ c.sem_add in
            record {
              lists = rw (without-append (nodes below) (x ∷ nodes rest) rs) (
                  rw (push-append (nodes below) (x ∷ nodes rest) fs) (
                    subst
                      (λ q.
                        HasLists k4 q (without (nodes rest) (erase x rs2))
                          (push (nodes rest) (x ∷ fs2)))
                      (fun_ext λ s. sym (without-append (nodes below) (x ∷ nodes rest) (w s)))
                      e.lists));
              current = current_gone;
              count = omega (
                arith,
                e.count,
                d.count,
                c.count,
                alive,
                length-append (nodes below) (x ∷ nodes rest),
              );
              sems = λ t. rw (tally-append (is_blocked_on l key t) (nodes below) (x ∷ nodes rest)) (
                  sem_sum (is_blocked_on l key t x) (k.sem t) (k2.sem t) (k3.sem t) (k4.sem t)
                    (tally (is_blocked_on l key t) (nodes below))
                    (tally (is_blocked_on l key t) (nodes rest)) (c.sems t)
                    (rw c.sem_add at (d.sems t)) (rw keys at (e.sems t)));
              soft = rw (tally-append (is_soft_blocked l key) (nodes below) (x ∷ nodes rest)) (
                  soft_sum (is_soft_blocked l key x) k.soft_block_count k2.soft_block_count
                    k3.soft_block_count k4.soft_block_count
                    (tally (is_soft_blocked l key) (nodes below))
                    (tally (is_soft_blocked l key) (nodes rest)) c.soft_word c.soft
                    (rw c.sem_add at d.soft) (rw keys at e.soft));
              soft_word = e.soft_word;
              childless = e.childless;
              sem_add = e.sem_add ∙ d.sem_add ∙ c.sem_add;
              spared = λ b o n.
                  let far : b ≢ x = ground (arith, out_rest b o) in
                  Spares-trans
                    (removed-Spares k.asl.pcbs prnt x below rest st.links st.real st.distinct
                      st.outside b n (out_rest b o))
                    (Spares-trans (gone_below b (out_below b o) far)
                      (e.spared b (ground (arith, out_rest b o)) n));
              own_prnt = e.own_prnt ∙ kept.prnt ∙ up.0;
              own_left = e.own_left ∙ kept.left ∙ up.1;
              own_right = e.own_right ∙ kept.right ∙ up.2;
            }
