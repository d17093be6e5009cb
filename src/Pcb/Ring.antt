-- ===== src/Pcb/Ring.antt =====
-- A process queue as a circular doubly linked list: its pcbs in order, the tail last.
use pandos.Prelude.{
  ◌≡◌, ap, ◌≢◌, ◌⊎◌, List, [], ◌∷◌, ◌++◌, arith, ◌==◌, if◌then◌else◌, ◌∈◌, ◌∉◌, Distinct,
  has-append, not-mem_of_Distinct-snoc,
}
use pandos.Types.{Ptr, null}
use pandos.Pcb.{Store}

abbrev pub next : Store → Ptr → Ptr
next h a = h.p_next a

abbrev pub prev : Store → Ptr → Ptr
prev h a = h.p_prev a

-- `b` stands behind `a`.
abbrev pub Link : Store → Ptr → Ptr → Type 0
Link h a b = (next h a ≡ b) × (prev h b ≡ a)

-- From `a` the links lead through `xs` to `z`.
abbrev pub Chain : Store → Ptr → List Ptr → Ptr → Type 0
Chain h a [] z = Link h a z
Chain h a (x ∷ xs) z = Link h a x × Chain h x xs z

pub data IsProcQ (h : Store) : Ptr → List Ptr → Type 0 where
  none_queued : IsProcQ h null []
  ring :
      {t : Ptr} {xs : List Ptr} (ys : List Ptr)
      → xs ≡ ys ++ (t ∷ [])
      → Distinct xs
      → null ∉ xs
      → Chain h t ys t
      → IsProcQ h t xs

pub IsProcQ-Distinct : {h : Store} {t : Ptr} {xs : List Ptr} → IsProcQ h t xs → Distinct xs
IsProcQ-Distinct none_queued = tt
IsProcQ-Distinct (ring ys e d nn c) = d

module _ (h g : Store) where
  -- A chain survives a change that spares its `p_next` and `p_prev` fields.
  pub Chain-frame :
      (a : Ptr) (xs : List Ptr) (z : Ptr)
      → ((b : Ptr) → b ∈ (a ∷ xs) → next g b ≡ next h b)
      → ((b : Ptr) → b ∈ (xs ++ (z ∷ [])) → prev g b ≡ prev h b)
      → Chain h a xs z
      → Chain g a xs z
  Chain-frame a [] z sn sp c = ground (arith, sn a, sp z)
  Chain-frame a (x ∷ xs) z sn sp (l, c) = (
    ground (arith, sn a, sp x),
    Chain-frame x xs z (λ b i. sn b (ground arith)) (λ b i. sp b (ground arith)) c,
  )

module _ (h : Store) where
  pub Chain-snoc :
      (a : Ptr) (xs : List Ptr) {t z : Ptr}
      → Chain h a xs t
      → Link h t z
      → Chain h a (xs ++ (t ∷ [])) z
  Chain-snoc a [] c l = (c, l)
  Chain-snoc a (x ∷ xs) (k, c) l = (k, Chain-snoc x xs c l)

  pub Chain-unsnoc :
      (a : Ptr) (xs : List Ptr) {t z : Ptr}
      → Chain h a (xs ++ (t ∷ [])) z
      → Chain h a xs t × Link h t z
  Chain-unsnoc a [] (c, l) = (c, l)
  Chain-unsnoc a (x ∷ xs) (k, c) = let (d, l) = Chain-unsnoc x xs c in ((k, d), l)

  -- The neighbours of a pcb inside a chain.
  pub prev-mem :
      (a : Ptr) (us : List Ptr) (p : Ptr) (vs : List Ptr) (z : Ptr)
      → Chain h a (us ++ (p ∷ vs)) z
      → prev h p ∈ (a ∷ us)
  prev-mem a [] p vs z c = ground arith
  prev-mem a (u ∷ us) p vs z (l, c) = ground (arith, prev-mem u us p vs z c)

  pub next-mem :
      (a : Ptr) (us : List Ptr) (p : Ptr) (vs : List Ptr) (z : Ptr)
      → Chain h a (us ++ (p ∷ vs)) z
      → next h p ∈ (vs ++ (z ∷ []))
  next-mem a [] p [] z c = ground arith
  next-mem a [] p (v ∷ vs) z c = ground arith
  next-mem a (u ∷ us) p vs z (l, c) = next-mem u us p vs z c

next-mem_or_eq :
    (h : Store) (p : Ptr) (vs : List Ptr) (z : Ptr)
    → next h p ∈ (vs ++ (z ∷ []))
    → (next h p ∈ vs) ⊎ (next h p ≡ z)
next-mem_or_eq h p vs z i = ground (arith, has-append (next h p) vs (z ∷ []))

module _ (h g : Store) (p : Ptr) where
  -- `g` is `h` with the neighbours of `p` linked to each other.
  pub record Bypasses : Type 0 where
    pub nexts : (b : Ptr) → b ≢ p → next g b ≡ (if b == prev h p then next h p else next h b)
    pub prevs : (b : Ptr) → b ≢ p → prev g b ≡ (if b == next h p then prev h p else prev h b)

  pub Bypasses-Chain :
      (a : Ptr) (us vs : List Ptr) (z : Ptr)
      → Bypasses
      → Distinct (us ++ (p ∷ vs))
      → a ∉ (us ++ (p ∷ vs))
      → z ∉ (us ++ (p ∷ vs))
      → Chain h a (us ++ (p ∷ vs)) z
      → Chain g a (us ++ vs) z
  Bypasses-Chain a [] [] z w d na nz (k, l) = ground (arith, w.nexts a, w.prevs z)
  Bypasses-Chain a [] (v ∷ vs) z w d na nz (k, (l, c)) = (
    ground (arith, w.nexts a, w.prevs v),
    Chain-frame h g v vs z (λ b i. ground (arith, w.nexts b))
        (λ b i. ground (arith, w.prevs b, has-append b vs (z ∷ []))) c,
  )
  Bypasses-Chain a (u ∷ us) vs z w d na nz (k, c) = (
    ground (
      arith,
      w.nexts a,
      w.prevs u,
      prev-mem h u us p vs z c,
      next-mem h u us p vs z c,
      has-append a us (p ∷ vs),
      has-append u us (p ∷ vs),
      has-append z us (p ∷ vs),
      next-mem_or_eq h p vs z,
    ),
    Bypasses-Chain u us vs z w d.1 d.0 (ground arith) c,
  )

module _ (h : Store) where
  pub next-mem_snoc :
      (a : Ptr) (xs : List Ptr) (z : Ptr) → Chain h a xs z → next h a ∈ (xs ++ (z ∷ []))
  next-mem_snoc a [] z c = ground arith
  next-mem_snoc a (x ∷ xs) z c = ground arith

-- `g` is `h` with `p` linked in between `t` and the pcb behind it.
pub record LinksBehind (t p : Ptr) (h g : Store) : Type 0 where
  pub nexts : (b : Ptr) → next g b ≡ (if b == t then p else if b == p then next h t else next h b)
  pub prevs : (b : Ptr) → prev g b ≡ (if b == next h t then p else if b == p then t else prev h b)

-- Round the ring from `p`, once it stands behind the tail.
pub LinksBehind-Chain :
    (h g : Store) (t p : Ptr) (ys : List Ptr)
    → LinksBehind t p h g
    → Distinct (ys ++ (t ∷ []))
    → p ∉ (ys ++ (t ∷ []))
    → Chain h t ys t
    → Chain g p (ys ++ (t ∷ [])) p
LinksBehind-Chain h g t p [] w d o c = ground (arith, w.nexts t, w.nexts p, w.prevs t, w.prevs p)
LinksBehind-Chain h g t p (y ∷ ys) w d o (l, c) =
    let pt : p ≢ t = ground (arith, has-append p ys (t ∷ [])) in
    let yt : y ≢ t = ground (arith, has-append y ys (t ∷ [])) in
    let po : p ∉ ys = ground (arith, has-append p ys (t ∷ [])) in
    let to : t ∉ ys = not-mem_of_Distinct-snoc ys t d.1 in
    (
      ground (arith, w.nexts p, w.prevs y),
      Chain-snoc g y ys
          (Chain-frame h g y ys t (λ b i. ground (arith, w.nexts b))
            (λ b i. ground (arith, w.prevs b)) c)
          (ground (arith, w.nexts t, w.prevs p)),
    )

-- A queue is a matter of the two links alone.
pub IsProcQ-links :
    {h : Store} {t : Ptr} {xs : List Ptr} (g : Store)
    → g.p_next ≡ h.p_next
    → g.p_prev ≡ h.p_prev
    → IsProcQ h t xs
    → IsProcQ g t xs
IsProcQ-links g en ep none_queued = none_queued
IsProcQ-links {h} g en ep (ring {t} ys e d nn c) =
    ring ys e d nn (Chain-frame h g t ys t (λ b i. ap (λ f. f b) en) (λ b i. ap (λ f. f b) ep) c)
