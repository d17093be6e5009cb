-- ===== src/Exceptions/Standing.antt =====
-- The processes below one, before and after `sysTerminate` has walked them, and the sums over them.
use pandos.Prelude.{
  ℕ, ◌+◌, ◌<◌, ◌^◌, ◌≡◌, ap, ◌∙◌, ◌≢◌, Bool, true, false, List, ◌∷◌, ◌++◌, arith, ◌==◌,
  if◌then◌else◌, ◌∈◌, ◌∉◌, has, has-append, length, Bool-cases, inl, inr, Distinct, without, push,
}
use pandos.Types.{Ptr, null}
use pandos.Pcb.{Store}
use pandos.Pcb.Access.{ne_test}
use pandos.Pcb.Forest.{Forest, nodes, IsForest, Spares}
use pandos.Asl.{max_int}
use pandos.Kernel.{Kernel, Layout}
use pandos.Prelude.{◌%◌, tally}
use pandos.Prelude.Word.{word_mod, add32, sub32}
use pandos.Exceptions.Lists.{HasLists}
use pandos.Exceptions.Vacate.{is_blocked_on, is_soft_blocked}
use pandos.Exceptions.Depart.{Departed}

-- The processes `f` are those below `prnt`, in none but the ready queue or one of the queues `w` of the
-- semaphores, and there are others besides. None of them names MAXINT as its semaphore. Counters and semaphores are words.
pub record Standing (k : Kernel) (prnt : Ptr) (f : Forest) (w : Ptr → List Ptr) (rs fs : List Ptr)
    : Type 0 where
  pub lists : HasLists k w rs fs
  pub links : IsForest k.asl.pcbs prnt null (k.asl.pcbs.p_child prnt) f
  pub real : prnt ≢ null
  pub distinct : Distinct (nodes f)
  pub outside : prnt ∉ nodes f
  pub fresh : (b : Ptr) → b ∈ nodes f → b ∉ fs
  pub named : (b : Ptr) → b ∈ nodes f → k.asl.pcbs.p_sem_add b ≢ max_int
  pub many : length (nodes f) < k.process_count
  pub small : k.process_count < 2 ^ 31
  pub words : (t : Ptr) → k.sem t < word_mod
  pub soft : k.soft_block_count < word_mod

-- The processes `f` below `prnt` are gone.
pub record Cleared (l : Layout) (k : Kernel) (prnt : Ptr) (f : Forest) (w : Ptr → List Ptr)
    (rs fs : List Ptr) (g : Kernel) : Type 0 where
  pub lists : HasLists g (λ s. without (nodes f) (w s)) (without (nodes f) rs) (push (nodes f) fs)
  pub current :
      g.current_process ≡ (if has k.current_process (nodes f) then null else k.current_process)
  pub count : g.process_count + length (nodes f) ≡ k.process_count
  pub sems :
      (t : Ptr)
      → g.sem t ≡ (k.sem t + tally (is_blocked_on l k.asl.pcbs.p_sem_add t) (nodes f)) % word_mod
  pub soft :
      (g.soft_block_count + tally (is_soft_blocked l k.asl.pcbs.p_sem_add) (nodes f)) % word_mod
      ≡ k.soft_block_count
  pub soft_word : g.soft_block_count < word_mod
  pub childless : g.asl.pcbs.p_child prnt ≡ null
  pub sem_add : g.asl.pcbs.p_sem_add ≡ k.asl.pcbs.p_sem_add
  pub spared : (b : Ptr) → b ∉ nodes f → b ≢ prnt → Spares k.asl.pcbs g.asl.pcbs b
  pub own_prnt : g.asl.pcbs.p_prnt prnt ≡ k.asl.pcbs.p_prnt prnt
  pub own_left : g.asl.pcbs.p_sib_left prnt ≡ k.asl.pcbs.p_sib_left prnt
  pub own_right : g.asl.pcbs.p_sib_right prnt ≡ k.asl.pcbs.p_sib_right prnt

pub Spares-trans : {h i j : Store} {b : Ptr} → Spares h i b → Spares i j b → Spares h j b
Spares-trans s t = record {
  prnt = t.prnt ∙ s.prnt;
  left = t.left ∙ s.left;
  right = t.right ∙ s.right;
  child = t.child ∙ s.child;
}

pub Departed-Spares :
    {l : Layout} {k : Kernel} {p : Ptr} {w : Ptr → List Ptr} {rs fs : List Ptr} {h : Store}
    {g : Kernel} (b : Ptr)
    → Departed l k p w rs fs h g
    → Spares h g.asl.pcbs b
Departed-Spares b d = record {
  prnt = ap (λ f. f b) d.prnt;
  left = ap (λ f. f b) d.left;
  right = ap (λ f. f b) d.right;
  child = ap (λ f. f b) d.child;
}

-- The current process after the processes `below`, then `x`, then `rest` are gone.
pub current_after :
    (below rest : List Ptr) (x c c2 c3 : Ptr)
    → x ≢ null
    → null ∉ rest
    → c2 ≡ (if has c below then null else c)
    → c3 ≡ (if x == c2 then null else c2)
    → (if has c3 rest then null else c3) ≡ (if has c (below ++ (x ∷ rest)) then null else c)
current_after below rest x c c2 c3 real none e2 e3 =
    rw (e3, e2, has-append c below (x ∷ rest))
      (elim (Bool-cases (has c below)) [
        | inl i ↦ rw (i, ne_test real, none)
        | inr o ↦ elim (Bool-cases (x == c)) [
          | inl e ↦ let f : (c == x) ≡ true = ground arith in rw (o, e, f, none)
          | inr n ↦ let f : (c == x) ≡ false = ground arith in rw (o, n, f)
        ]
      ])

-- The words after a process.
pub word_after :
    (b : Bool) (a a2 a3 n : ℕ)
    → a2 ≡ (a + n) % word_mod
    → a3 ≡ (if b then add32 a2 1 else a2)
    → a3 < word_mod
word_after true a a2 a3 n e f = omega arith
word_after false a a2 a3 n e f = omega arith

pub soft_after :
    (b : Bool) (a2 a3 : ℕ) → a2 < word_mod → a3 ≡ (if b then sub32 a2 1 else a2) → a3 < word_mod
soft_after true a2 a3 h e = omega arith
soft_after false a2 a3 h e = omega arith

pub sem_sum :
    (b : Bool) (a a2 a3 a4 n m : ℕ)
    → a2 ≡ (a + n) % word_mod
    → a3 ≡ (if b then add32 a2 1 else a2)
    → a4 ≡ (a3 + m) % word_mod
    → a4 ≡ (a + (n + ((if b then 1 else 0) + m))) % word_mod
sem_sum true a a2 a3 a4 n m e f g = omega arith
sem_sum false a a2 a3 a4 n m e f g = omega arith

pub soft_sum :
    (b : Bool) (a a2 a3 a4 n m : ℕ)
    → a2 < word_mod
    → (a2 + n) % word_mod ≡ a
    → a3 ≡ (if b then sub32 a2 1 else a2)
    → (a4 + m) % word_mod ≡ a3
    → (a4 + (n + ((if b then 1 else 0) + m))) % word_mod ≡ a
soft_sum true a a2 a3 a4 n m h e f g = omega arith
soft_sum false a a2 a3 a4 n m h e f g = omega arith
