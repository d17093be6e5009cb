-- ===== src/Pcb/Access.antt =====
-- Accesses through a pointer that is not NULL, and maps that are changed at one pointer.
use pandos.Prelude.{ℕ, ◌≡◌, ◌≢◌, false, ◌==◌, arith}
use pandos.Types.{Ptr, null}
use pandos.Run.{ok}
use pandos.Pcb.{Store, upd, read, at}

pub ne_test : {a b : ℕ} → a ≢ b → (a == b) ≡ false
ne_test h = ground arith

pub ne_of_test : {a b : ℕ} → (a == b) ≡ false → a ≢ b
ne_of_test h = ground arith

pub read-ok :
    {A : Type 0} {p : Ptr} → p ≢ null → (f : Store → A) (h : Store) → read p f h ≡ ok (f h) h
unfolding read
read-ok np f h = rw (ne_test np)

pub at-ok : {p : Ptr} → p ≢ null → (f : Store → Store) (h : Store) → at p f h ≡ ok tt (f h)
unfolding at
at-ok np f h = rw (ne_test np)

pub upd_self {ℓ} : {A : Type ℓ} (f : Ptr → A) (p : Ptr) (v : A) → upd f p v p ≡ v
unfolding upd
upd_self f p v = ground arith

pub upd-ne {ℓ} : {A : Type ℓ} (f : Ptr → A) {a p : Ptr} (v : A) → a ≢ p → upd f p v a ≡ f a
unfolding upd
upd-ne f v h = ground arith
