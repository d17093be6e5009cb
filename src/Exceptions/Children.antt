-- ===== src/Exceptions/Children.antt =====
-- The loop of `sysTerminate` over all children.
use pandos.Prelude.{
  ℕ, zero, suc, ◌+◌, ◌*◌, ◌≤◌, ◌≡◌, refl, ◌≢◌, List, ◌∷◌, arith, length, length-append,
}
use pandos.Types.{Ptr, null}
use pandos.Run.{ok, Returns, returns, Returns-mono, Returns-ok}
use pandos.Pcb.{empty_child}
use pandos.Pcb.Access.{ne_test, read-ok}
use pandos.Pcb.Forest.{Forest, no_trees, tree, nodes}
use pandos.Pcb.Detach.{remove_child-first}
use pandos.Kernel.{Kernel, Layout}
use pandos.Exceptions.{terminate_children, terminate_one}
use pandos.Exceptions.Standing.{Standing, Cleared}
use pandos.Exceptions.Progeny.{orphaned, below-Standing, child-Departed, rest-Standing, all-Cleared}

no_trees-Cleared :
    (l : Layout) (k : Kernel) (prnt : Ptr) (w : Ptr → List Ptr) (rs fs : List Ptr)
    → Standing k prnt no_trees w rs fs
    → Cleared l k prnt no_trees w rs fs k
no_trees-Cleared l k prnt w rs fs st = record {
  lists = st.lists;
  current = refl;
  count = omega arith;
  sems = λ t. omega (arith, st.words t);
  soft = omega (arith, st.soft);
  soft_word = st.soft;
  childless = st.links;
  sem_add = refl;
  spared = λ b o n. record { prnt = refl; left = refl; right = refl; child = refl };
  own_prnt = refl;
  own_left = refl;
  own_right = refl;
}

no_child :
    (l : Layout) (n : ℕ) (k : Kernel) (prnt : Ptr)
    → prnt ≢ null
    → k.asl.pcbs.p_child prnt ≡ null
    → terminate_children l (suc n) prnt k ≡ ok tt k
unfolding terminate_children empty_child
no_child l n k prnt real e = rw (read-ok real, e)

-- One round, with what the two recursive calls do.
one_child :
    (l : Layout) (m : ℕ) (k k2 k3 : Kernel) (prnt x : Ptr) (below rest : Forest)
    (w : Ptr → List Ptr) (rs fs : List Ptr)
    → Standing k prnt (tree x below rest) w rs fs
    → terminate_children l m x (orphaned k prnt x) ≡ ok tt k2
    → terminate_one l x k2 ≡ ok tt k3
    → terminate_children l (suc (suc m)) prnt k ≡ terminate_children l (suc m) prnt k3
unfolding terminate_children empty_child
one_child l m k k2 k3 prnt x below rest w rs fs st inner own =
    let removed =
      remove_child-first k.asl.pcbs prnt x below rest st.links st.real st.distinct st.outside in
    rw (read-ok st.real, st.links.0, ne_test st.links.1, removed, ne_test st.links.1, inner, own)

pub terminate_children-Cleared :
    (l : Layout) (f : Forest) (n : ℕ) (k : Kernel) (prnt : Ptr) (w : Ptr → List Ptr)
    (rs fs : List Ptr)
    → 2 * length (nodes f) + 1 ≤ n
    → Standing k prnt f w rs fs
    → Returns (λ _ g. Cleared l k prnt f w rs fs g) (terminate_children l n prnt k)
terminate_children-Cleared l f zero k prnt w rs fs fuel st = absurd (omega arith)
terminate_children-Cleared l no_trees (suc n) k prnt w rs fs fuel st =
    rw (no_child l n k prnt st.real st.links) (returns (no_trees-Cleared l k prnt w rs fs st))
terminate_children-Cleared l (tree x below rest) (suc zero) k prnt w rs fs fuel st =
    absurd (omega (arith, length-append (nodes below) (x ∷ nodes rest)))
terminate_children-Cleared l (tree x below rest) (suc (suc m)) k prnt w rs fs fuel st =
    let sizes = length-append (nodes below) (x ∷ nodes rest) in
    let (done, k2, inner, c) = Returns-ok (
      terminate_children-Cleared l below m (orphaned k prnt x) x w rs fs (omega (arith, sizes))
        (below-Standing k prnt x below rest w rs fs st)) in
    let (k3, own, d) = child-Departed k prnt x below rest w rs fs st l k2 c in
    rw (one_child l m k k2 k3 prnt x below rest w rs fs st inner own) (
      Returns-mono
        (terminate_children-Cleared l rest (suc m) k3 prnt _ _ _ (omega (arith, sizes))
          (rest-Standing k prnt x below rest w rs fs st l k2 c k3 d))
        λ done k4 e. all-Cleared k prnt x below rest w rs fs st l k2 c k3 d k4 e)
