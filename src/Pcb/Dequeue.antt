-- ===== src/Pcb/Dequeue.antt =====
-- `outProcQ`, `removeProcQ` and `headProcQ` on a queue.
use pandos.Prelude.{
  ◌<◌, ◌≡◌, refl, ap, ◌∙◌, inl, inr, List, [], ◌∷◌, ◌++◌, arith, ◌==◌, if◌then◌else◌, has, ◌∈◌, ◌∉◌,
  Distinct, erase, erase_head, erase_not-mem, length, length-append, has-append, Bool-cases,
  mem_snoc, ne_of_mem, ==_iff, snoc_split, ◌≤◌,
}
use pandos.Types.{Ptr, null, max_proc}
use pandos.Run.{ok, Returns, returns, Returns-mono}
use pandos.Pcb.{Store, upd, out_loop, unlink, out_proc_q, remove_proc_q, head_proc_q, walk_fuel}
use pandos.Pcb.Access.{ne_test, read-ok}
use pandos.Pcb.Queue.{Requeues}
use pandos.Pcb.Unlink.{tail_test, out_loop-tail, out_loop-walk, unlink-single}
use pandos.Pcb.Position.{Removes, IsRing, tail-ne-null, erase-tail, unlink-inner, unlink-last}
use pandos.Pcb.Ring.{next, prev, IsProcQ, none_queued, ring}

unlink-single-Removes :
    {h : Store} {t : Ptr} {xs : List Ptr}
    → IsRing h t [] xs
    → Returns (Removes t xs h) (unlink t t h)
unfolding upd
unlink-single-Removes {h} {t} {xs} r =
    let em : xs ≡ t ∷ [] = r.listed in
    rw (unlink-single h t (tail-ne-null r) r.chain.0) (
      returns (record {
        found = refl;
        queue = rw (erase-tail r) none_queued;
        unlinked = ground arith;
        frame = record {
          nexts = λ b o. ground (arith, ap (has b) em);
          prevs = λ b o. ground (arith, ap (has b) em);
          rest = refl;
        };
      }))

abbrev pub head_or_null : List Ptr → Ptr
head_or_null [] = null
head_or_null (x ∷ xs) = x

-- `unlink` on any member of a ring.
unlink_ring :
    {h : Store} {t : Ptr} {xs : List Ptr} (ys : List Ptr) (p : Ptr)
    → IsRing h t ys xs
    → p ∈ xs
    → Returns (Removes p xs h) (unlink t p h)
unlink_ring {h} {t} {xs} [] p r i =
    let e : p ≡ t = ground (arith, ap (has p) r.listed) in rw e (unlink-single-Removes r)
unlink_ring {h} {t} {xs} (y ∷ ys) p r i = elim (Bool-cases (p == t)) [
  | inl e ↦ let (zs, l, ez) = snoc_split y ys in rw ((==_iff p t).0 e) (unlink-last r zs l ez)
  | inr ne ↦ unlink-inner r p (ground (arith, ap (has p) r.listed, has-append p (y ∷ ys) (t ∷ [])))
]

out_loop-ring :
    {h : Store} {t : Ptr} {xs : List Ptr} (ys : List Ptr) (p : Ptr)
    → IsRing h t ys xs
    → length xs ≤ walk_fuel
    → out_loop walk_fuel t p (next h t) h ≡ (if has p xs then unlink t p h else ok (null, t) h)
out_loop-ring {h} {t} {xs} [] p r short =
    rw (r.listed, r.chain.0) (out_loop-tail 19 h t p (tail-ne-null r) ∙ tail_test h t p)
out_loop-ring {h} {t} {xs} (y ∷ ys) p r short =
    let d : Distinct (y ∷ (ys ++ (t ∷ []))) = rw r.listed at r.distinct in
    let l = ap length r.listed in
    rw (r.listed, r.chain.0.0)
      (out_loop-walk walk_fuel h t p y ys r.chain.1 (rw r.listed at r.real) (rw r.chain.0.0 d.0)
        (omega (arith, l, length-append ys (t ∷ []))))

-- In a queue of at most `max_proc` pcbs `outProcQ` takes a pcb of the queue out of it, wherever
-- it stands, and returns it with its links cleared; the others keep their order. It writes only
-- the links of the pcbs in the queue.
pub out_proc_q-Removes :
    {h : Store} {tp p : Ptr} {xs : List Ptr}
    → IsProcQ h tp xs
    → length xs ≤ max_proc
    → p ∈ xs
    → Returns (Removes p xs h) (out_proc_q tp p h)
unfolding out_proc_q
out_proc_q-Removes none_queued short i = cc
out_proc_q-Removes {h} {p} {xs} (ring {t} ys e d nn c) short i =
    let r : IsRing h t ys xs = record { listed = e; distinct = d; real = nn; chain = c } in
    rw
      (
        ne_test (tail-ne-null r),
        ne_test (ne_of_mem xs i nn),
        read-ok (tail-ne-null r),
        out_loop-ring ys p r short,
        i,
      )
      (unlink_ring ys p r i)

-- For a queue of at most `max_proc` pcbs `outProcQ` returns NULL for a pcb that is not in it,
-- NULL itself included, and changes nothing.
pub out_proc_q-not-mem :
    {h : Store} {tp : Ptr} {xs : List Ptr} (p : Ptr)
    → IsProcQ h tp xs
    → length xs ≤ max_proc
    → p ∉ xs
    → out_proc_q tp p h ≡ ok (null, tp) h
unfolding out_proc_q
out_proc_q-not-mem p none_queued short o = refl
out_proc_q-not-mem {h} {xs} p (ring {t} ys e d nn c) short o =
    let r : IsRing h t ys xs = record { listed = e; distinct = d; real = nn; chain = c } in
    rw (ne_test (tail-ne-null r)) (elim (Bool-cases (p == null)) [
      | inl z ↦ rw z
      | inr nz ↦ rw (nz, read-ok (tail-ne-null r), out_loop-ring ys p r short, o)
    ])

-- `outProcQ` on any pcb, in the queue or not.
pub out_proc_q-erase :
    {h : Store} {tp : Ptr} {xs : List Ptr} (p : Ptr)
    → IsProcQ h tp xs
    → length xs ≤ max_proc
    → Returns
        (λ out g.
          (out.0 ≡ (if has p xs then p else null)) × IsProcQ g out.1 (erase p xs) × Requeues xs h g)
        (out_proc_q tp p h)
out_proc_q-erase {h} {tp} {xs} p q short = elim (Bool-cases (has p xs)) [
  | inl i ↦
      rw i (Returns-mono (out_proc_q-Removes q short i) λ out g m. (m.found, m.queue, m.frame))
  | inr o ↦
      rw (out_proc_q-not-mem p q short o, o, erase_not-mem p xs o)
        (returns (refl, q, record { nexts = λ b n. refl; prevs = λ b n. refl; rest = refl }))
]

first_of_ring :
    {h : Store} {t : Ptr} {x : Ptr} {xs : List Ptr} (ys : List Ptr)
    → IsRing h t ys (x ∷ xs)
    → next h t ≡ x
first_of_ring [] r = ground (arith, ap head_or_null r.listed)
first_of_ring (y ∷ ys) r = ground (arith, ap head_or_null r.listed)

-- `removeProcQ` takes the first pcb out of a queue of at most `max_proc`, clears its links and
-- leaves the rest in order. It writes only the links of the pcbs in the queue.
pub remove_proc_q-head :
    {h : Store} {tp x : Ptr} {xs : List Ptr}
    → IsProcQ h tp (x ∷ xs)
    → length xs < max_proc
    → Returns
        (λ out g.
          (out.0 ≡ x)
          × IsProcQ g out.1 xs
          × (next g x ≡ null)
          × (prev g x ≡ null)
          × Requeues (x ∷ xs) h g)
        (remove_proc_q tp h)
unfolding remove_proc_q
remove_proc_q-head {h} {x} {xs} (ring {t} ys e d nn c) short =
    let r : IsRing h t ys (x ∷ xs) = record { listed = e; distinct = d; real = nn; chain = c } in
    rw (ne_test (tail-ne-null r), read-ok (tail-ne-null r), first_of_ring ys r)
      (Returns-mono (out_proc_q-Removes {p = x} (ring ys e d nn c) (omega arith) (ground arith))
        λ out g m. (m.found, rw (erase_head x xs) at m.queue, m.unlinked.0, m.unlinked.1, m.frame))

-- `headProcQ` returns the first pcb of a queue, NULL for an empty one, and changes nothing.
pub head_proc_q-head :
    {h : Store} {tp : Ptr} {xs : List Ptr}
    → IsProcQ h tp xs
    → head_proc_q tp h ≡ ok (head_or_null xs) h
unfolding head_proc_q
head_proc_q-head none_queued = refl
head_proc_q-head {h} {xs = []} (ring {t} ys e d nn c) = cc (mem_snoc ys t)
head_proc_q-head {h} {xs = x ∷ xs} (ring {t} ys e d nn c) =
    let r : IsRing h t ys (x ∷ xs) = record { listed = e; distinct = d; real = nn; chain = c } in
    rw (ne_test (tail-ne-null r), read-ok (tail-ne-null r), first_of_ring ys r)
