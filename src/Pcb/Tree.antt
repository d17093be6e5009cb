-- ===== src/Pcb/Tree.antt =====
-- The process tree of phase3/pcb.c: the children of a pcb as a list, the last inserted first.
use pandos.Prelude.{
  ◌≡◌, refl, ◌∙◌, ◌≢◌, ◌⊎◌, inl, inr, true, false, List, [], ◌∷◌, arith, ◌==◌, if◌then◌else◌, ◌∈◌,
  ◌∉◌, Distinct, erase, Bool-cases, ==_iff,
}
use pandos.Types.{Ptr, null}
use pandos.Run.{ok, Returns, returns}
use pandos.Pcb.{Store, upd, insert_child}
use pandos.Pcb.Access.{ne_test, ne_of_test, read-ok, at-ok}

-- From `a`, whose left sibling is `left`, the links `r` to the right lead through the children `xs` of
-- `prnt`; `u` are the links to the parent and `l` those to the left.
module _ (u l r : Ptr → Ptr) (prnt : Ptr) where
  abbrev pub Siblings : Ptr → Ptr → List Ptr → Type 0
  Siblings left a [] = a ≡ null
  Siblings left a (x ∷ xs) =
      (a ≡ x) × (x ≢ null) × (u x ≡ prnt) × (l x ≡ left) × Siblings x (r x) xs

-- The children of `prnt` are `xs`, each once.
pub record HasChildren (h : Store) (prnt : Ptr) (xs : List Ptr) : Type 0 where
  pub chain : Siblings h.p_prnt h.p_sib_left h.p_sib_right prnt null (h.p_child prnt) xs
  pub distinct : Distinct xs

pub Siblings-frame :
    (u l r u' l' r' : Ptr → Ptr) (prnt left a a' : Ptr) (xs : List Ptr)
    → a' ≡ a
    → ((b : Ptr) → b ∈ xs → (u' b ≡ u b) × (l' b ≡ l b) × (r' b ≡ r b))
    → Siblings u l r prnt left a xs
    → Siblings u' l' r' prnt left a' xs
Siblings-frame u l r u' l' r' prnt left a a' [] ea same c = ea ∙ c
Siblings-frame u l r u' l' r' prnt left a a' (x ∷ xs) ea same (e, n, p, k, c) =
    let (su, sl, sr) = same x (ground arith) in
    (
      ea ∙ e,
      n,
      su ∙ p,
      sl ∙ k,
      Siblings-frame u l r u' l' r' prnt x (r x) (r' x) xs sr (λ b i. same b (ground arith)) c,
    )

-- `insertChild` makes a pcb the first child of another, in front of its other children. Neither
-- is NULL, and the pcb is not yet a child there.
pub insert_child-cons :
    {h : Store} {prnt : Ptr} {xs : List Ptr} (p : Ptr)
    → HasChildren h prnt xs
    → prnt ≢ null
    → p ≢ null
    → p ∉ xs
    → Returns (λ _ g. HasChildren g prnt (p ∷ xs)) (insert_child prnt p h)
unfolding insert_child upd
insert_child-cons {h} {prnt} {xs = []} p c nr np o =
    rw (ne_test nr, ne_test np, read-ok nr, at-ok nr, at-ok np, at-ok np, at-ok np, c.chain)
      (returns (record { chain = ground arith; distinct = ground arith }))
insert_child-cons {h} {prnt} {xs = x ∷ xs} p c nr np o =
    let (first, real, up, none_left, rest) = c.chain in
    rw
      (
        ne_test nr,
        ne_test np,
        read-ok nr,
        at-ok nr,
        at-ok np,
        at-ok np,
        at-ok np,
        first,
        ne_test real,
        at-ok real,
      )
      (returns (record {
        chain = (
          ground arith,
          np,
          ground arith,
          ground arith,
          (
            ground arith,
            real,
            ground arith,
            ground arith,
            Siblings-frame h.p_prnt h.p_sib_left h.p_sib_right _ _ _ prnt x (h.p_sib_right x) _ xs
                (ground arith) (λ b i. ground arith) rest,
          ),
        );
        distinct = ground arith;
      }))

-- The store after `insertChild`.
abbrev pub adopted : Store → (prnt p : Ptr) → Store
adopted h prnt p = record h {
  p_child = upd h.p_child prnt p;
  p_prnt = upd h.p_prnt p prnt;
  p_sib_right = upd h.p_sib_right p (h.p_child prnt);
  p_sib_left =
      if h.p_child prnt == null
      then upd h.p_sib_left p null
      else upd (upd h.p_sib_left p null) (h.p_child prnt) p;
}

pub insert_child-adopted :
    (h : Store) {prnt p : Ptr}
    → prnt ≢ null
    → p ≢ null
    → insert_child prnt p h ≡ ok tt (adopted h prnt p)
unfolding insert_child
insert_child-adopted h {prnt} {p} nr np = elim (Bool-cases (h.p_child prnt == null)) [
  | inl e ↦ rw (ne_test nr, ne_test np, read-ok nr, at-ok nr, at-ok np, at-ok np, at-ok np, e)
  | inr n ↦ rw (
    ne_test nr,
    ne_test np,
    read-ok nr,
    at-ok nr,
    at-ok np,
    at-ok np,
    at-ok np,
    n,
    at-ok (ne_of_test n),
  )
]

-- The maps after `detach`: `p` is taken from between `left` and `right`, NULL on either side included.
pub record Detaches (p : Ptr) (l r l' r' : Ptr → Ptr) : Type 0 where
  pub lefts : (b : Ptr) → b ≢ p → b ≢ null → l' b ≡ (if b == r p then l p else l b)
  pub rights : (b : Ptr) → b ≢ p → b ≢ null → r' b ≡ (if b == l p then r p else r b)

module _ (u l r : Ptr → Ptr) (prnt : Ptr) where
  -- The right neighbour of a child comes later, the left neighbour of a later one earlier.
  pub right-mem :
      (left a p : Ptr) (xs : List Ptr)
      → Siblings u l r prnt left a xs
      → p ∈ xs
      → (r p ≡ null) ⊎ (r p ∈ xs)
  right-mem left a p [] c i = cc
  right-mem left a p (x ∷ []) c i = ground arith
  right-mem left a p (x ∷ y ∷ ys) (e, n, k, m, c) i = ground (arith, right-mem x (r x) p (y ∷ ys) c)

  pub left-mem :
      (left a p x : Ptr) (xs : List Ptr)
      → Siblings u l r prnt left a (x ∷ xs)
      → p ∈ xs
      → l p ∈ (x ∷ xs)
  left-mem left a p x [] c i = cc
  left-mem left a p x (y ∷ ys) (e, n, k, m, c) i = ground (arith, left-mem x (r x) p y ys c)

  pub null-not-mem : (left a : Ptr) (xs : List Ptr) → Siblings u l r prnt left a xs → null ∉ xs
  null-not-mem left a [] c = refl
  null-not-mem left a (x ∷ xs) (e, n, k, m, c) = ground (arith, null-not-mem x (r x) xs c)

  pub parent-eq :
      (left a p : Ptr) (xs : List Ptr) → Siblings u l r prnt left a xs → p ∈ xs → u p ≡ prnt
  parent-eq left a p [] c i = cc
  parent-eq left a p (x ∷ xs) (e, n, k, m, c) i = ground (arith, parent-eq x (r x) p xs c)

  pub left-ne :
      (left a p : Ptr) (xs : List Ptr)
      → Siblings u l r prnt left a xs
      → Distinct xs
      → left ∉ xs
      → p ∈ xs
      → l p ≢ p
  left-ne left a p [] c d o i = cc
  left-ne left a p (x ∷ xs) (e, n, k, m, c) d o i = ground (arith, left-ne x (r x) p xs c d.1 d.0)

  Detaches-first :
      (l' r' : Ptr → Ptr) (left p : Ptr) (xs : List Ptr)
      → Detaches p l r l' r'
      → Distinct xs
      → left ∉ xs
      → p ∉ xs
      → l p ≡ left
      → Siblings u l r prnt p (r p) xs
      → Siblings u l' r' prnt left (r p) xs
  Detaches-first l' r' left p [] w d o i lp c = c
  Detaches-first l' r' left p (y ∷ ys) w d o i lp (e, n, k, m, c) =
      let real = null-not-mem y (r y) ys c in
      (
        e,
        n,
        k,
        ground (arith, w.lefts y),
        Siblings-frame u l r u l' r' prnt y (r y) (r' y) ys (ground (arith, w.rights y))
            (λ b j. (refl, ground (arith, w.lefts b), ground (arith, w.rights b))) c,
      )

  -- The link out of `x` into what is left, for a `p` among the later children.
  start_after-eq :
      (l' r' : Ptr → Ptr) (p x : Ptr) (xs : List Ptr)
      → Detaches p l r l' r'
      → x ≢ null
      → x ∉ xs
      → x ≢ p
      → p ∈ xs
      → Siblings u l r prnt x (r x) xs
      → r' x ≡ (if r x == p then r p else r x)
  start_after-eq l' r' p x [] w n o ne i c = cc
  start_after-eq l' r' p x (y ∷ ys) w n o ne i c = elim (Bool-cases (p == y)) [
    | inl e ↦ ground (arith, w.rights x)
    | inr np ↦ ground (arith, w.rights x, left-mem x (r x) p y ys c)
  ]

  pub Detaches-Siblings :
      (l' r' : Ptr → Ptr) (left a p : Ptr) (xs : List Ptr)
      → Detaches p l r l' r'
      → Distinct xs
      → left ∉ xs
      → p ∈ xs
      → Siblings u l r prnt left a xs
      → Siblings u l' r' prnt left (if a == p then r p else a) (erase p xs)
  Detaches-Siblings l' r' left a p [] w d o i c = cc
  Detaches-Siblings l' r' left a p (x ∷ xs) w d o i (e, n, k, m, c) = elim (Bool-cases (p == x)) [
    | inl px ↦
        let q : p ≡ x = (==_iff p x).0 px in
        let pa : (a == p) ≡ true = ground arith in
        rw (px, pa)
          (Detaches-first l' r' left p xs w d.1 (ground arith) (rw q d.0) (rw q m) (rw q c))
    | inr np ↦
        let pa : (a == p) ≡ false = ground arith in
        let later : p ∈ xs = rw np at i in
        rw (np, pa)
          (
            e,
            n,
            k,
            ground (arith, w.lefts x, right-mem x (r x) p xs c),
            rw (start_after-eq l' r' p x xs w n d.0 (ground arith) later c)
                (Detaches-Siblings l' r' x (r x) p xs w d.1 d.0 later c),
          )
  ]
