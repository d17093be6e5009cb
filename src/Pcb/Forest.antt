-- ===== src/Pcb/Forest.antt =====
-- The processes below a pcb, as a tree: the children in order, each with the processes below it.
use pandos.Prelude.{
  ◌≡◌, refl, ◌∙◌, ◌≢◌, ◌⊎◌, inl, inr, List, [], ◌∷◌, ◌++◌, arith, ◌∈◌, ◌∉◌, has-append,
}
use pandos.Types.{Ptr, null}
use pandos.Pcb.{Store}

-- A process with those below it, and its later siblings.
pub data Forest : Type 0 where
  no_trees : Forest
  tree : (x : Ptr) (below rest : Forest) → Forest

-- The pcbs, in the order in which `sysTerminate` frees them.
abbrev pub nodes : Forest → List Ptr
nodes no_trees = []
nodes (tree x below rest) = nodes below ++ (x ∷ nodes rest)

-- The links of the store lead through the forest: from `a`, whose left sibling is `left`, the siblings
-- are children of `prnt`.
abbrev pub IsForest : Store → (prnt left a : Ptr) → Forest → Type 0
IsForest h prnt left a no_trees = a ≡ null
IsForest h prnt left a (tree x below rest) =
    (a ≡ x)
    × (x ≢ null)
    × (h.p_prnt x ≡ prnt)
    × (h.p_sib_left x ≡ left)
    × IsForest h x null (h.p_child x) below
    × IsForest h prnt x (h.p_sib_right x) rest

-- A pcb has the same place in the tree in both stores.
pub record Spares (h g : Store) (b : Ptr) : Type 0 where
  pub prnt : g.p_prnt b ≡ h.p_prnt b
  pub left : g.p_sib_left b ≡ h.p_sib_left b
  pub right : g.p_sib_right b ≡ h.p_sib_right b
  pub child : g.p_child b ≡ h.p_child b

module _ (h g : Store) where
  pub IsForest-frame :
      (prnt left a a' : Ptr) (f : Forest)
      → a' ≡ a
      → ((b : Ptr) → b ∈ nodes f → Spares h g b)
      → IsForest h prnt left a f
      → IsForest g prnt left a' f
  IsForest-frame prnt left a a' no_trees e same t = e ∙ t
  IsForest-frame prnt left a a' (tree x below rest) e same (ax, n, p, l, b, r) =
      let s = same x (rw (has-append x (nodes below) (x ∷ nodes rest)) (ground arith)) in
      (
        e ∙ ax,
        n,
        s.prnt ∙ p,
        s.left ∙ l,
        IsForest-frame x null (h.p_child x) (g.p_child x) below s.child
            (λ c i. same c (ground (arith, has-append c (nodes below) (x ∷ nodes rest)))) b,
        IsForest-frame prnt x (h.p_sib_right x) (g.p_sib_right x) rest s.right
            (λ c i. same c (ground (arith, has-append c (nodes below) (x ∷ nodes rest)))) r,
      )

-- The first sibling.
pub first-mem :
    (h : Store) (prnt left a : Ptr) (f : Forest)
    → IsForest h prnt left a f
    → (a ≡ null) ⊎ (a ∈ nodes f)
first-mem h prnt left a no_trees t = inl t
first-mem h prnt left a (tree x below rest) t =
    inr (ground (arith, has-append a (nodes below) (x ∷ nodes rest)))

pub null-not-mem-nodes :
    (h : Store) (prnt left a : Ptr) (f : Forest) → IsForest h prnt left a f → null ∉ nodes f
null-not-mem-nodes h prnt left a no_trees t = refl
null-not-mem-nodes h prnt left a (tree x below rest) (ax, n, p, l, b, r) = ground (
  arith,
  has-append null (nodes below) (x ∷ nodes rest),
  null-not-mem-nodes h x null (h.p_child x) below b,
  null-not-mem-nodes h prnt x (h.p_sib_right x) rest r,
)
