-- ===== src/Pcb/Unlink.antt =====
-- The loop of `outProcQ`: the walk, and what it does at the pcb that it looks for.
use pandos.Prelude.{
  ℕ, zero, suc, ◌+◌, ◌≡◌, sym, ◌≢◌, inl, inr, true, false, ◌||◌, ◌&&◌, List, [], ◌∷◌, ◌++◌, arith,
  ◌==◌, if◌then◌else◌, has, ◌∉◌, length, has-append, Bool-cases, ==_refl, ◌≤◌,
}
use pandos.Types.{Ptr, null}
use pandos.Run.{ok}
use pandos.Pcb.{Store, upd, out_loop, unlink, bypass}
use pandos.Pcb.Access.{ne_test, read-ok, at-ok, upd-ne}
use pandos.Pcb.Ring.{next, prev, Chain, Bypasses}

pub tail_test :
    (h : Store) (t p : Ptr)
    → (if t == p then unlink t p h else ok (null, t) h)
      ≡ (if (p == t) || false then unlink t p h else ok (null, t) h)
tail_test h t p = elim (Bool-cases (t == p)) [
  | inl e ↦ let e' : (p == t) ≡ true = ground arith in rw (e, e')
  | inr ne ↦ let ne' : (p == t) ≡ false = ground arith in rw (ne, ne')
]

-- The walk from `current`, with `ws` between it and the tail.
pub out_loop-tail :
    (k : ℕ) (h : Store) (t p : Ptr)
    → t ≢ null
    → out_loop (suc k) t p t h ≡ (if t == p then unlink t p h else ok (null, t) h)
unfolding out_loop
out_loop-tail k h t p nt = elim (Bool-cases (t == p)) [
  | inl e ↦ rw e
  | inr ne ↦ rw (ne, read-ok nt, read-ok nt, ==_refl)
]

pub out_loop-walk :
    (k : ℕ) (h : Store) (t p current : Ptr) (ws : List Ptr)
    → Chain h current ws t
    → null ∉ (current ∷ (ws ++ (t ∷ [])))
    → next h t ∉ (ws ++ (t ∷ []))
    → length ws + 2 ≤ k
    → out_loop k t p current h
      ≡ (if has p (current ∷ (ws ++ (t ∷ []))) then unlink t p h else ok (null, t) h)
unfolding out_loop
out_loop-walk zero h t p current ws c nn nf fuel = absurd (omega arith)
out_loop-walk (suc zero) h t p current ws c nn nf fuel = absurd (omega arith)
out_loop-walk (suc (suc k)) h t p current [] c nn nf fuel = elim (Bool-cases (current == p)) [
  | inl e ↦ let e' : (p == current) ≡ true = ground arith in rw (e, e')
  | inr ne ↦
      let ne' : (p == current) ≡ false = ground arith in
      let nc : current ≢ null = ground arith in
      let nt : t ≢ null = ground arith in
      let nl : (t == next h t) ≡ false = ground arith in
      rw (ne, ne', read-ok nc, read-ok nt, c.0, nl, out_loop-tail k h t p nt) (tail_test h t p)
]
out_loop-walk (suc (suc k)) h t p current (w ∷ ws) (l, c) nn nf fuel =
    elim (Bool-cases (current == p)) [
      | inl e ↦ let e' : (p == current) ≡ true = ground arith in rw (e, e')
      | inr ne ↦
          let ne' : (p == current) ≡ false = ground arith in
          let nc : current ≢ null = ground arith in
          let nt : t ≢ null = ground (arith, has-append null ws (t ∷ [])) in
          let nl : (w == next h t) ≡ false = ground arith in
          rw (ne, ne', read-ok nc, read-ok nt, l.0, nl)
            (out_loop-walk (suc k) h t p w ws c (ground arith) (ground arith) (omega arith))
    ]

abbrev pub bypassed : Store → Ptr → Store
bypassed h p = record h {
  p_next = upd h.p_next (prev h p) (next h p);
  p_prev = upd h.p_prev (next h p) (prev h p);
}

abbrev pub unlinked : Store → Ptr → Store
unlinked h p = record h {
  p_next = upd (upd h.p_next (prev h p) (next h p)) p null;
  p_prev = upd (upd h.p_prev (next h p) (prev h p)) p null;
}

-- Removing a pcb that has other neighbours than itself.
module _ (h : Store) (t p : Ptr) (np : p ≢ null) (nq : prev h p ≢ null) (nr : next h p ≢ null)
    (q : prev h p ≢ p) (r : next h p ≢ p) where
  pub bypass-ok : bypass t p h ≡ ok (if t == p then prev h p else t) (bypassed h p)
  unfolding bypass
  bypass-ok =
      let q' : p ≢ prev h p = λ e. q (sym e) in
      let r' : p ≢ next h p = λ e. r (sym e) in
      rw (read-ok np, read-ok np, at-ok nq, read-ok np, read-ok np, upd-ne _ _ q', at-ok nr)
        (elim (Bool-cases (t == p)) [ inl e ↦ rw (e, read-ok np, upd-ne _ _ r') | inr ne ↦ rw ne ])

  pub unlink-ok : unlink t p h ≡ ok (p, if t == p then prev h p else t) (unlinked h p)
  unfolding unlink
  unlink-ok =
      let single : ((p == t) && false) ≡ false = ground arith in
      rw (read-ok np, ne_test r, single, bypass-ok, at-ok np, at-ok np)

pub unlinked-Bypasses : (h : Store) (p : Ptr) → Bypasses h (unlinked h p) p
unfolding upd
unlinked-Bypasses h p = record { nexts = λ b n. ground arith; prevs = λ b n. ground arith }

-- Removing the only pcb.
pub unlink-single :
    (h : Store) (p : Ptr)
    → p ≢ null
    → next h p ≡ p
    → unlink p p h
      ≡ ok (p, null) (record h { p_next = upd h.p_next p null; p_prev = upd h.p_prev p null })
unfolding unlink
unlink-single h p np e = rw (read-ok np, e, ==_refl, at-ok np, at-ok np)
