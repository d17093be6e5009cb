-- ===== src/Pcb/Family.antt =====
-- `outChild` and `removeChild` of phase3/pcb.c.
use pandos.Prelude.{
  ◌≡◌, refl, sym, ◌≢◌, inl, inr, List, [], ◌∷◌, arith, ◌==◌, if◌then◌else◌, ◌∈◌, erase, Bool-cases,
  ne_of_mem, Distinct-erase, not-mem-erase_self, erase_head,
}
use pandos.Types.{Ptr, null}
use pandos.Run.{ok, Returns, returns, Returns-mono}
use pandos.Pcb.{Store, upd, empty_child, detach_links, detach, out_child, remove_child}
use pandos.Pcb.Access.{ne_test, ne_of_test, read-ok, at-ok, upd_self, upd-ne}
use pandos.Pcb.Tree.{
  HasChildren, Detaches, null-not-mem, parent-eq, left-ne, Siblings-frame, Detaches-Siblings,
}

-- The store after `detach_links`.
abbrev pub delinked : Store → Ptr → Store
delinked h p = record h {
  p_prnt = upd h.p_prnt p null;
  p_sib_left =
      upd
        (if h.p_sib_right p == null
          then h.p_sib_left
          else upd h.p_sib_left (h.p_sib_right p) (h.p_sib_left p))
        p null;
  p_sib_right =
      upd
        (if h.p_sib_left p == null
          then h.p_sib_right
          else upd h.p_sib_right (h.p_sib_left p) (h.p_sib_right p))
        p null;
}

detach_links-ok :
    (h : Store) (p : Ptr) → p ≢ null → h.p_sib_left p ≢ p → detach_links p h ≡ ok p (delinked h p)
unfolding detach_links
detach_links-ok h p np nl = elim (Bool-cases (h.p_sib_left p == null)) [
  | inl a ↦ elim (Bool-cases (h.p_sib_right p == null)) [
    | inl b ↦ rw (read-ok np, read-ok np, a, read-ok np, b, at-ok np, at-ok np, at-ok np)
    | inr b ↦ rw (
      read-ok np,
      read-ok np,
      a,
      read-ok np,
      b,
      at-ok (ne_of_test b),
      at-ok np,
      at-ok np,
      at-ok np,
    )
  ]
  | inr a ↦
      let nl' : p ≢ h.p_sib_left p = λ e. nl (sym e) in
      elim (Bool-cases (h.p_sib_right p == null)) [
        | inl b ↦ rw (
          read-ok np,
          read-ok np,
          a,
          at-ok (ne_of_test a),
          read-ok np,
          upd-ne _ _ nl',
          b,
          at-ok np,
          at-ok np,
          at-ok np,
        )
        | inr b ↦ rw (
          read-ok np,
          read-ok np,
          a,
          at-ok (ne_of_test a),
          read-ok np,
          upd-ne _ _ nl',
          b,
          at-ok (ne_of_test b),
          at-ok np,
          at-ok np,
          at-ok np,
        )
      ]
]

-- The store after `detach`.
abbrev pub detached : Store → Ptr → Ptr → Store
detached h prnt p =
    delinked
      (record h {
        p_child = if h.p_child prnt == p then upd h.p_child prnt (h.p_sib_right p) else h.p_child;
      })
      p

pub detach-ok :
    (h : Store) (prnt p : Ptr)
    → prnt ≢ null
    → p ≢ null
    → h.p_sib_left p ≢ p
    → detach prnt p h ≡ ok p (detached h prnt p)
unfolding detach
detach-ok h prnt p nr np nl = elim (Bool-cases (h.p_child prnt == p)) [
  | inl e ↦
      rw (read-ok nr, read-ok np, e, at-ok nr)
        (detach_links-ok (record h { p_child = upd h.p_child prnt (h.p_sib_right p) }) p np nl)
  | inr e ↦ rw (read-ok nr, read-ok np, e) (detach_links-ok h p np nl)
]

-- The child has left the tree: its links are NULL, and its parent has the other children in order.
pub record Leaves (prnt p : Ptr) (xs : List Ptr) (out : Ptr) (g : Store) : Type 0 where
  pub found : out ≡ p
  pub children : HasChildren g prnt (erase p xs)
  pub cleared : (g.p_prnt p ≡ null) × (g.p_sib_left p ≡ null) × (g.p_sib_right p ≡ null)

module _ {h : Store} {prnt : Ptr} {xs : List Ptr} (p : Ptr) (c : HasChildren h prnt xs)
    (i : p ∈ xs) where
  pub real : p ≢ null
  real = ne_of_mem xs i (null-not-mem h.p_prnt h.p_sib_left h.p_sib_right prnt null _ xs c.chain)

  pub parent : h.p_prnt p ≡ prnt
  parent = parent-eq h.p_prnt h.p_sib_left h.p_sib_right prnt null _ p xs c.chain i

  pub left_ne : h.p_sib_left p ≢ p
  left_ne =
      left-ne h.p_prnt h.p_sib_left h.p_sib_right prnt null _ p xs c.chain c.distinct
        (null-not-mem _ _ _ prnt null _ xs c.chain) i

  detached-Detaches :
      Detaches p h.p_sib_left h.p_sib_right
        (detached h prnt p).p_sib_left
        (detached h prnt p).p_sib_right
  unfolding upd
  detached-Detaches = record { lefts = λ b n m. ground arith; rights = λ b n m. ground arith }

  pub left_children : HasChildren (detached h prnt p) prnt (erase p xs)
  unfolding upd
  left_children =
      let gone = not-mem-erase_self p xs c.distinct in
      record {
        chain =
            Siblings-frame h.p_prnt (detached h prnt p).p_sib_left (detached h prnt p).p_sib_right _
              _ _ prnt null _ _ (erase p xs) (ground arith) (λ b j. (ground arith, refl, refl))
              (Detaches-Siblings h.p_prnt h.p_sib_left h.p_sib_right prnt _ _ null (h.p_child prnt)
                p xs detached-Detaches c.distinct (null-not-mem _ _ _ prnt null _ xs c.chain) i
                c.chain);
        distinct = Distinct-erase p xs c.distinct;
      }

  -- `outChild` takes a child of a pcb that is not NULL out of the list of children, wherever it
  -- stands, clears its links to parent and siblings, and returns it; the other children keep
  -- their order.
  pub out_child-Leaves : prnt ≢ null → Returns (Leaves prnt p xs) (out_child p h)
  unfolding out_child
  out_child-Leaves nr =
      rw (ne_test real, read-ok real, parent, ne_test nr, detach-ok h prnt p nr real left_ne)
        (returns (record {
          found = refl;
          children = left_children;
          cleared = (upd_self _ p null, upd_self _ p null, upd_self _ p null);
        }))

-- `outChild` returns NULL for a pcb that has no parent, and changes nothing.
pub out_child_orphan :
    (h : Store) (p : Ptr) → (p ≢ null → h.p_prnt p ≡ null) → out_child p h ≡ ok null h
unfolding out_child
out_child_orphan h p o = elim (Bool-cases (p == null)) [
  | inl e ↦ rw e
  | inr ne ↦ rw (ne, read-ok (ne_of_test ne), o (ne_of_test ne))
]

-- `removeChild` takes the first child of a pcb that is not NULL out of the list of children and
-- returns it, without a parent.
pub remove_child-head :
    {h : Store} {prnt x : Ptr} {xs : List Ptr}
    → HasChildren h prnt (x ∷ xs)
    → prnt ≢ null
    → Returns
        (λ out g. (out ≡ x) × HasChildren g prnt xs × (g.p_prnt x ≡ null))
        (remove_child prnt h)
unfolding remove_child empty_child
remove_child-head {h} {prnt} {x} {xs} c nr =
    let first : h.p_child prnt ≡ x = c.chain.0 in
    rw (read-ok nr, first, ne_test c.chain.1, read-ok nr, first)
      (Returns-mono (out_child-Leaves x c (ground arith) nr)
        λ out g m. (m.found, rw (erase_head x xs) at m.children, m.cleared.0))

-- `removeChild` returns NULL for a pcb, not NULL itself, that has no child, and changes nothing.
pub remove_child-nil :
    {h : Store} {prnt : Ptr} → HasChildren h prnt [] → prnt ≢ null → remove_child prnt h ≡ ok null h
unfolding remove_child empty_child
remove_child-nil c nr = rw (read-ok nr, c.chain)
