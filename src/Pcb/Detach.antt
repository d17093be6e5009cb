-- ===== src/Pcb/Detach.antt =====
-- `removeChild` on the first tree of a forest.
use pandos.Prelude.{
  ◌≡◌, sym, ◌≢◌, inl, inr, ◌∷◌, ◌++◌, arith, ◌∈◌, ◌∉◌, has, has-append, Distinct, Distinct-append,
  Distinct_middle, mem_cons, ◌⊎◌, Distinct-apart, ne_of_mem, ◌∙◌, ap,
}
use pandos.Types.{Ptr, null}
use pandos.Run.{ok}
use pandos.Pcb.{Store, upd, empty_child, out_child, remove_child}
use pandos.Pcb.Access.{ne_test, read-ok, upd_self, upd-ne}
use pandos.Pcb.Family.{detached, detach-ok}
use pandos.Pcb.Forest.{Forest, no_trees, tree, nodes, IsForest, Spares, IsForest-frame, first-mem}

module _ (h : Store) (prnt x : Ptr) (below rest : Forest)
    (t : IsForest h prnt null (h.p_child prnt) (tree x below rest)) (real : prnt ≢ null)
    (distinct : Distinct (nodes (tree x below rest)))
    (outside : prnt ∉ nodes (tree x below rest)) where
  prnt_ne : prnt ≢ x
  prnt_ne = ground (arith, has-append prnt (nodes below) (x ∷ nodes rest))

  out_child-first : out_child x h ≡ ok x (detached h prnt x)
  unfolding out_child
  out_child-first =
      let unlike : h.p_sib_left x ≢ x = λ e. t.1 (sym e ∙ t.3) in
      rw (ne_test t.1, read-ok t.1, t.2, ne_test real) (detach-ok h prnt x real t.1 unlike)

  to_first : remove_child prnt h ≡ out_child x h
  unfolding remove_child empty_child
  to_first = rw (read-ok real, t.0, ne_test t.1, read-ok real, t.0)

  -- `removeChild` takes out the first child.
  pub remove_child-first : remove_child prnt h ≡ ok x (detached h prnt x)
  remove_child-first = to_first ∙ out_child-first

  -- The links that it leaves alone.
  pub removed-Spares : (b : Ptr) → b ≢ prnt → b ∉ (x ∷ nodes rest) → Spares h (detached h prnt x) b
  unfolding upd
  removed-Spares b np o =
      let far = first-mem h prnt x (h.p_sib_right x) rest t.5 in
      record {
        prnt = ground arith;
        left = ground (arith, ap (λ c. has c (nodes rest)));
        right = ground arith;
        child = ground arith;
      }

  pub removed_prnt :
      ((detached h prnt x).p_prnt prnt ≡ h.p_prnt prnt)
      × ((detached h prnt x).p_sib_left prnt ≡ h.p_sib_left prnt)
      × ((detached h prnt x).p_sib_right prnt ≡ h.p_sib_right prnt)
      × ((detached h prnt x).p_child prnt ≡ h.p_sib_right x)
      × ((detached h prnt x).p_prnt x ≡ null)
  unfolding upd
  removed_prnt =
      let far = first-mem h prnt x (h.p_sib_right x) rest t.5 in
      let o : prnt ∉ nodes rest = ground (arith, has-append prnt (nodes below) (x ∷ nodes rest)) in
      let np = prnt_ne in
      (
        upd-ne h.p_prnt null np,
        ground (arith, ap (λ c. has c (nodes rest))),
        ground arith,
        ground arith,
        upd_self h.p_prnt x null,
      )

  mem_below : (b : Ptr) → b ∈ nodes below → b ∈ nodes (tree x below rest)
  mem_below b i = ground (arith, has-append b (nodes below) (x ∷ nodes rest))

  -- The forest below the first child is as it was.
  pub below-IsForest : IsForest (detached h prnt x) x null ((detached h prnt x).p_child x) below
  unfolding upd
  below-IsForest =
      let np = prnt_ne in
      IsForest-frame h (detached h prnt x) x null (h.p_child x) _ below (ground arith)
        (λ b i.
          removed-Spares b (ne_of_mem (nodes (tree x below rest)) (mem_below b i) outside)
            (Distinct-apart (nodes below) (x ∷ nodes rest) b distinct i))
        t.4

-- The second child, `y`, has become the first.
module _ (h : Store) (prnt x y : Ptr) (below under rest : Forest)
    (t : IsForest h prnt null (h.p_child prnt) (tree x below (tree y under rest)))
    (distinct : Distinct (nodes (tree x below (tree y under rest))))
    (outside : prnt ∉ nodes (tree x below (tree y under rest))) where
  later : Distinct (x ∷ nodes (tree y under rest))
  later = (Distinct-append (nodes below) _ distinct).1

  outside_later : prnt ∉ (x ∷ nodes (tree y under rest))
  outside_later =
      ground (arith, has-append prnt (nodes below) (x ∷ (nodes under ++ (y ∷ nodes rest))))

  rest-Spares : (b : Ptr) → b ∈ nodes (tree y under rest) → b ≢ y → Spares h (detached h prnt x) b
  unfolding upd
  rest-Spares b i ny =
      let nx = ne_of_mem (nodes (tree y under rest)) i later.0 in
      let np = ne_of_mem (x ∷ nodes (tree y under rest)) (mem_cons x b _ i) outside_later in
      record {
        prnt = ground arith;
        left = ground arith;
        right = ground arith;
        child = ground arith;
      }

  second : Distinct (nodes under ++ (y ∷ nodes rest))
  second = later.1

  kept : (b : Ptr) → b ∈ nodes under ⊎ b ∈ nodes rest → Spares h (detached h prnt x) b
  kept b (inl i) =
      rest-Spares b (ground (arith, has-append b (nodes under) (y ∷ nodes rest)))
        (ne_of_mem (nodes under) i (Distinct_middle (nodes under) y (nodes rest) second).0)
  kept b (inr i) =
      rest-Spares b (ground (arith, has-append b (nodes under) (y ∷ nodes rest)))
        (ne_of_mem (nodes rest) i (Distinct_middle (nodes under) y (nodes rest) second).1)

  y_mem : y ∈ nodes (tree y under rest)
  y_mem = ground (arith, has-append y (nodes under) (y ∷ nodes rest))

  next-IsForest :
      IsForest (detached h prnt x) prnt null ((detached h prnt x).p_child prnt) (tree y under rest)
  unfolding upd
  next-IsForest =
      let (xy, yn, yp, yl, yu, yr) = t.5 in
      let nx = ne_of_mem (nodes (tree y under rest)) y_mem later.0 in
      let np = ne_of_mem (x ∷ nodes (tree y under rest)) (mem_cons x y _ y_mem) outside_later in
      (
        ground arith,
        yn,
        ground arith,
        ground arith,
        IsForest-frame h (detached h prnt x) y null (h.p_child y) _ under (ground arith)
            (λ b i. kept b (inl i)) yu,
        IsForest-frame h (detached h prnt x) prnt y (h.p_sib_right y) _ rest (ground arith)
            (λ b i. kept b (inr i)) yr,
      )

-- The other children are the children now.
pub rest-IsForest :
    (h : Store) (prnt x : Ptr) (below rest : Forest)
    → IsForest h prnt null (h.p_child prnt) (tree x below rest)
    → prnt ≢ null
    → Distinct (nodes (tree x below rest))
    → prnt ∉ nodes (tree x below rest)
    → IsForest (detached h prnt x) prnt null ((detached h prnt x).p_child prnt) rest
rest-IsForest h prnt x below no_trees t real distinct outside =
    (removed_prnt h prnt x below no_trees t real distinct outside).3 ∙ t.5
rest-IsForest h prnt x below (tree y under rest) t real distinct outside =
    next-IsForest h prnt x y below under rest t distinct outside
