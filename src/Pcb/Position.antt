-- ===== src/Pcb/Position.antt =====
-- A pcb at its place in a ring, and the ring that `unlink` leaves.
use pandos.Prelude.{
  ◌≡◌, refl, sym, ap, ◌∙◌, ◌≢◌, false, List, [], ◌∷◌, ◌++◌, arith, ◌==◌, if◌then◌else◌, has, ◌∈◌,
  ◌∉◌, Distinct, has-append, erase, mem_snoc, not-mem_of_Distinct-snoc, Distinct-append,
  Distinct_middle, ne_of_mem, ==_refl, mem_split, erase-append, Distinct-erase, not-mem-erase,
}
use mathlib.Core.List.{append-nil, append_assoc}
use pandos.Types.{Ptr, null}
use pandos.Run.{Returns, returns}
use pandos.Pcb.{Store, upd, unlink}
use pandos.Pcb.Access.{ne_test}
use pandos.Pcb.Queue.{Requeues}
use pandos.Pcb.Unlink.{unlink-ok, unlinked, unlinked-Bypasses}
use pandos.Pcb.Ring.{
  next, prev, Chain, IsProcQ, ring, Chain-unsnoc, Bypasses-Chain, prev-mem, next-mem,
}

-- The pcb leaves the queue, and its links are NULL.
pub record Removes (p : Ptr) (xs : List Ptr) (h : Store) (out : Ptr × Ptr) (g : Store)
    : Type 0 where
  pub found : out.0 ≡ p
  pub queue : IsProcQ g out.1 (erase p xs)
  pub unlinked : (next g p ≡ null) × (prev g p ≡ null)
  pub frame : Requeues xs h g

-- The ring read from the pcb `a` on, with `p` between `us` and `vs`.
record IsAt (h : Store) (xs : List Ptr) (a : Ptr) (us : List Ptr) (p : Ptr) (vs : List Ptr)
    : Type 0 where
  pub chain : Chain h a (us ++ (p ∷ vs)) a
  pub distinct : Distinct (us ++ (p ∷ vs))
  apart : a ∉ (us ++ (p ∷ vs))
  start : a ∈ xs
  inside : (b : Ptr) → b ∈ (us ++ (p ∷ vs)) → b ∈ xs
  pub real : null ∉ xs

module _ {h : Store} {xs : List Ptr} {a : Ptr} {us : List Ptr} {p : Ptr} {vs : List Ptr}
    (at : IsAt h xs a us p vs) where
  p-mem : p ∈ xs
  p-mem = at.inside p (ground (arith, has-append p us (p ∷ vs)))

  p-apart : (p ∉ us) × (p ∉ vs) × (p ≢ a)
  p-apart = ground (arith, Distinct_middle us p vs at.distinct, has-append a us (p ∷ vs))

  prev-ok : (prev h p ∈ xs) × (prev h p ≢ p)
  prev-ok = ground (
    arith,
    prev-mem h a us p vs a at.chain,
    p-apart,
    at.start,
    at.inside (prev h p),
    has-append (prev h p) us (p ∷ vs),
  )

  next-ok : (next h p ∈ xs) × (next h p ≢ p)
  next-ok = ground (
    arith,
    next-mem h a us p vs a at.chain,
    p-apart,
    at.start,
    at.inside (next h p),
    has-append (next h p) us (p ∷ vs),
    has-append (next h p) vs (a ∷ []),
  )

  -- What is left is a ring.
  ring_left : Chain (unlinked h p) a (us ++ vs) a
  ring_left =
      Bypasses-Chain h (unlinked h p) p a us vs a (unlinked-Bypasses h p) at.distinct at.apart
        at.apart at.chain

  requeued : Requeues xs h (unlinked h p)
  unfolding upd
  requeued =
      let q = prev-ok.0 in
      let r = next-ok.0 in
      let m = p-mem in
      record { nexts = λ b o. ground arith; prevs = λ b o. ground arith; rest = refl }

  unlink-Removes :
      (t t' : Ptr)
      → IsProcQ (unlinked h p) t' (erase p xs)
      → t' ≡ (if t == p then prev h p else t)
      → Returns (Removes p xs h) (unlink t p h)
  unfolding upd
  unlink-Removes t t' is e =
      rw
        (
          unlink-ok h t p (ne_of_mem xs p-mem at.real) (ne_of_mem xs prev-ok.0 at.real)
              (ne_of_mem xs next-ok.0 at.real) prev-ok.1 next-ok.1,
          ← e,
        )
        (returns (record { found = refl; queue = is; unlinked = ground arith; frame = requeued }))

-- What `ring` of `IsProcQ` holds.
pub record IsRing (h : Store) (t : Ptr) (ys xs : List Ptr) : Type 0 where
  pub listed : xs ≡ ys ++ (t ∷ [])
  pub distinct : Distinct xs
  pub real : null ∉ xs
  pub chain : Chain h t ys t

module _ {h : Store} {t : Ptr} {ys xs : List Ptr} (r : IsRing h t ys xs) where
  pub tail-mem : t ∈ xs
  tail-mem = rw r.listed (mem_snoc ys t)

  pub tail-ne-null : t ≢ null
  tail-ne-null = ne_of_mem xs tail-mem r.real

  pub tail-apart : t ∉ ys
  tail-apart = not-mem_of_Distinct-snoc ys t (rw r.listed at r.distinct)

  pub erase-tail : erase t xs ≡ ys
  erase-tail = rw r.listed (erase-append t ys [] tail-apart ∙ append-nil ys)

  erase-inner :
      (p : Ptr) (us vs : List Ptr)
      → ys ≡ us ++ (p ∷ vs)
      → p ∉ us
      → erase p xs ≡ (us ++ vs) ++ (t ∷ [])
  erase-inner p us vs eu o =
      rw (r.listed, eu, append_assoc, erase-append p us (vs ++ (t ∷ [])) o, append_assoc)

  inside-mem : (us : List Ptr) → ys ≡ us → (b : Ptr) → b ∈ us → b ∈ xs
  inside-mem us eu b i = rw (r.listed, has-append b ys (t ∷ [])) (ground (arith, ap (has b) eu))

  pub unlink-inner : (p : Ptr) → p ∈ ys → Returns (Removes p xs h) (unlink t p h)
  unlink-inner p i =
      let (us, vs, eu, o) = mem_split p ys i in
      let at : IsAt h xs t us p vs = record {
        chain = rw eu at r.chain;
        distinct = rw eu at (Distinct-append ys (t ∷ []) (rw r.listed at r.distinct)).0;
        apart = rw eu at tail-apart;
        start = tail-mem;
        inside = inside-mem (us ++ (p ∷ vs)) eu;
        real = r.real;
      } in
      let tp : (t == p) ≡ false = ne_test (λ e. ne_of_mem ys i tail-apart (sym e)) in
      unlink-Removes at t t
        (ring (us ++ vs) (erase-inner p us vs eu o) (Distinct-erase p xs r.distinct)
          (not-mem-erase null p xs r.real) (ring_left at))
        (rw tp)

  pub unlink-last :
      (zs : List Ptr) (l : Ptr) → ys ≡ zs ++ (l ∷ []) → Returns (Removes t xs h) (unlink t t h)
  unlink-last zs l ez =
      let (cz, lt) = Chain-unsnoc h t zs (rw ez at r.chain) in
      let lm : l ∈ ys = rw ez (mem_snoc zs l) in
      let dz = (Distinct-append ys (t ∷ []) (rw r.listed at r.distinct)).0 in
      let to : t ∉ zs = ground (arith, tail-apart, ap (has t) ez, has-append t zs (l ∷ [])) in
      let lz : l ∉ zs = not-mem_of_Distinct-snoc zs l (rw ez at dz) in
      let tl : l ≢ t = ne_of_mem ys lm tail-apart in
      let at : IsAt h xs l [] t zs = record {
        chain = (lt, cz);
        distinct = (to, (Distinct-append zs (l ∷ []) (rw ez at dz)).0);
        apart = ground arith;
        start = inside-mem ys refl l lm;
        inside = λ b j.
            ground (arith, tail-mem, inside-mem ys refl b, ap (has b) ez, has-append b zs (l ∷ []));
        real = r.real;
      } in
      unlink-Removes at t l
        (ring zs (erase-tail ∙ ez) (Distinct-erase t xs r.distinct) (not-mem-erase null t xs r.real)
          (ring_left at))
        (rw ==_refl (sym lt.1))
