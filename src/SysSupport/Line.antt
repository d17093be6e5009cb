-- ===== src/SysSupport/Line.antt =====
-- `supReadTerminal` on a terminal that delivers characters.
use pandos.Prelude.{
  ℕ, zero, suc, ◌+◌, ◌<◌, ◌≤◌, ◌≡◌, ◌≢◌, ◌⊎◌, inl, inr, refl, sym, ap, ◌∙◌, arith, ◌==◌, ==_iff,
  List, [], ◌∷◌, ◌++◌, length, length-append, false, ltb, Bool-cases,
}
use native.Mathlib.Nat.{mod-eq_of_lt}
use pandos.Prelude.Word.{word_mod, add32, sub32, low_bits, shr}
use pandos.Types.{Ptr, null, set_reg, v0, a1}
use pandos.Run.{
  Stop, ldst, Returns, returns, Returns-bind, Returns-mono, Stops, Stops-mono, Returns-Stops,
}
use pandos.Pcb.Access.{ne_test, upd_self, upd-ne}
use pandos.Exceptions.{general_except}
use pandos.Support.{Support, Places, System, through}
use pandos.Support.Quiet.{syscall-Called, syscall_-Called}
use pandos.SysSupport.{max_len, kuseg, newline, read_loop, store_chars, sup_read_terminal}
use pandos.SysSupport.Characters.{Same, Same-trans, Called-Same}
use pandos.SysSupport.Typing.{commands, Types, line_from, receive_char-typed}
use pandos.SysSupport.Write.{IsServed, finish-Wrote}

abbrev pub AllBytes : List ℕ → Type 0
AllBytes [] = Unit
AllBytes (c ∷ cs) = (c < 256) × AllBytes cs

-- A line of at most `n` characters: a newline is its last character, and without one it has `n`.
pub record IsLine (n : ℕ) (cs : List ℕ) : Type 0 where
  pub short : length cs ≤ n
  pub inner : (us vs : List ℕ) → cs ≡ us ++ (newline ∷ vs) → vs ≡ []
  pub complete : (length cs ≡ n) ⊎ ((us : List ℕ) × (cs ≡ us ++ (newline ∷ [])))
  pub bytes : AllBytes cs

abbrev tail : List ℕ → List ℕ
tail [] = []
tail (x ∷ xs) = xs

abbrev head : List ℕ → ℕ
head [] = 0
head (x ∷ xs) = x

nil-append : (us vs : List ℕ) (c : ℕ) → [] ≢ us ++ (c ∷ vs)
nil-append us vs c e =
    let n : 0 ≡ length (us ++ (c ∷ vs)) = ap length e in omega (arith, n, length-append us (c ∷ vs))

one_newline : (us vs : List ℕ) → (newline ∷ []) ≡ us ++ (newline ∷ vs) → vs ≡ []
one_newline [] vs e = sym (ap tail e)
one_newline (u ∷ us) vs e = absurd (nil-append us vs newline (ap tail e))

cons_newline :
    (c : ℕ) (cs us vs : List ℕ)
    → c ≢ newline
    → ((us vs : List ℕ) → cs ≡ us ++ (newline ∷ vs) → vs ≡ [])
    → (c ∷ cs) ≡ us ++ (newline ∷ vs)
    → vs ≡ []
cons_newline c cs [] vs n inner e = absurd (n (ap head e))
cons_newline c cs (u ∷ us) vs n inner e = inner us vs (ap tail e)

IsLine-nil : IsLine 0 []
IsLine-nil = record {
  short = omega arith;
  inner = λ us vs e. absurd (nil-append us vs newline e);
  complete = inl refl;
  bytes = tt;
}

IsLine-newline : (n : ℕ) → IsLine (suc n) (newline ∷ [])
IsLine-newline n = record {
  short = omega arith;
  inner = one_newline;
  complete = inr ([], refl);
  bytes = (omega arith, tt);
}

IsLine-cons :
    {n : ℕ} {cs : List ℕ} (c : ℕ) → c < 256 → c ≢ newline → IsLine n cs → IsLine (suc n) (c ∷ cs)
IsLine-cons {n} {cs} c lt ne is = record {
  short = omega (arith, is.short);
  inner = λ us vs. cons_newline c cs us vs ne is.inner;
  complete = elim is.complete [
    | inl e ↦ inl (omega (arith, e))
    | inr (us, e) ↦ inr (c ∷ us, ap (λ ds. c ∷ ds) e)
  ];
  bytes = (lt, is.bytes);
}

line_from-IsLine :
    (typed : ℕ → ℕ) (n i : ℕ) → ((j : ℕ) → typed j < 256) → IsLine n (line_from typed n i)
line_from-IsLine typed zero i bytes = IsLine-nil
line_from-IsLine typed (suc n) i bytes = elim (Bool-cases (typed i == newline)) [
  | inl e ↦ rw e (IsLine-newline n)
  | inr ne ↦
      rw ne
        (IsLine-cons (typed i) (bytes i) (ground arith) (line_from-IsLine typed n (suc i) bytes))
]

read_loop-line :
    (y : System) (typed : ℕ → ℕ) (fuel number support device_sem : ℕ) (s : Support)
    → Types y number typed
    → Returns
        (λ cs t. (cs ≡ line_from typed fuel (suc (commands number s.trace))) × Same s t)
        (read_loop y fuel number support device_sem s)
unfolding read_loop
read_loop-line y typed zero number support device_sem s types =
    returns (refl, record { mem = refl; except_state = refl; sup_asid = refl })
read_loop-line y typed (suc fuel) number support device_sem s types =
    Returns-bind (receive_char-typed y number typed types s) λ status t (answer, same, count).
      let key = typed (suc (commands number s.trace)) in
      let ready : low_bits status 8 ≡ 5 = omega (arith, answer) in
      let ch : low_bits (shr status 8) 8 ≡ key = omega (arith, answer) in
      rw (ready, ch)
        (elim (Bool-cases (key == newline)) [
          | inl e ↦ rw e (returns (ap (λ c. c ∷ []) ((==_iff key newline).0 e), same))
          | inr ne ↦ rw ne (
              Returns-bind (read_loop-line y typed fuel number support device_sem t types)
                λ cs u (is, m). returns (
                  ap (λ ds. key ∷ ds) (is ∙ ap (λ n. line_from typed fuel (suc n)) count),
                  Same-trans same m,
                ))
        ])

-- The characters are in memory from the address on.
abbrev pub Stored : (ℕ → ℕ) → (address : ℕ) → List ℕ → Type 0
Stored mem address [] = Unit
Stored mem address (c ∷ cs) = (mem address ≡ c) × Stored mem (address + 1) cs

record Storing (address : ℕ) (cs : List ℕ) (s t : Support) : Type 0 where
  stored : Stored t.mem address cs
  below : (a : ℕ) → a < address → t.mem a ≡ s.mem a
  except_state : t.kernel.except_state ≡ s.kernel.except_state

store_chars-Storing :
    (address : ℕ) (cs : List ℕ) (s : Support)
    → address + length cs < word_mod
    → Returns (λ _ t. Storing address cs s t) (store_chars address cs s)
unfolding store_chars
store_chars-Storing address [] s lt =
    returns (record { stored = tt; below = λ a b. refl; except_state = refl })
store_chars-Storing address (c ∷ cs) s lt =
    let e : add32 address 1 ≡ address + 1 = mod-eq_of_lt (omega arith) in
    rw e (
      Returns-mono (store_chars-Storing (address + 1) cs _ (omega arith)) λ _ t f. record {
        stored = (f.below address (omega arith) ∙ upd_self _ _ _, f.stored);
        below = λ a b. f.below a (omega arith) ∙ upd-ne _ _ (λ x. absurd (omega arith));
        except_state = f.except_state;
      })

-- The process goes on with the number of characters of `line` in v0, and the line is in memory.
pub record Read (support address : ℕ) (line : List ℕ) (s : Support) (x : Stop) (t : Support)
    : Type 0 where
  pub is_line : IsLine max_len line
  pub stored : Stored t.mem address line
  pub resumed : x ≡ ldst (set_reg v0 (length line) (s.kernel.except_state support general_except))

-- With a buffer in the user segment that has room for 128 characters, a terminal whose n-th receive
-- command gives the byte `typed n` in the bits 8 to 15 of the status, with the code 5, and SYSCALLs
-- that return quietly, `supReadTerminal` ends, after at most 128 characters: the process goes on with
-- the characters that the terminal gives from its next command on in the buffer, to the first newline
-- or else 128 of them, and their number in v0.
pub sup_read_terminal-Read :
    (y : System) (l : Places) (s : Support) (support : Ptr) (typed : ℕ → ℕ)
    → support ≢ null
    → Types y (sub32 (s.sup_asid support) 1) typed
    → ((n : ℕ) → typed n < 256)
    → IsServed y support (l.term_read_sem (sub32 (s.sup_asid support) 1))
    → kuseg ≤ (s.kernel.except_state support general_except).s_reg a1
    → (s.kernel.except_state support general_except).s_reg a1 + max_len < word_mod
    → {A : Type 0}
    → Stops
        (Read support
          ((s.kernel.except_state support general_except).s_reg a1)
          (line_from typed max_len (suc (commands (sub32 (s.sup_asid support) 1) s.trace)))
          s)
        (sup_read_terminal y l {A = A} s)
unfolding sup_read_terminal through
sup_read_terminal-Read y l s support typed real types bytes served low room {A} =
    let number = sub32 (s.sup_asid support) 1 in
    let address = (s.kernel.except_state support general_except).s_reg a1 in
    let next = suc (commands number s.trace) in
    Returns-Stops (syscall-Called y _ _ _ _ _ served.support_ptr s) λ p t (e, q).
      let m = Called-Same q in
      let ea : (t.kernel.except_state support general_except).s_reg a1 ≡ address =
        ap (λ f. (f support general_except).s_reg a1) m.except_state in
      let user : ltb address kuseg ≡ false = ground (arith, low) in
      let asid : t.sup_asid support ≡ s.sup_asid support = ap (λ f. f support) m.sup_asid in
      rw (e, ne_test real, ea, user, asid)
        (Returns-Stops (syscall_-Called y _ _ _ _ _ served.lock t) λ _ u q'.
          let count : commands number u.trace ≡ commands number s.trace =
            ap (λ (x : Support). commands number x.trace) q'.state
            ∙ ap (λ (x : Support). commands number x.trace) q.state in
          Returns-Stops
            (read_loop-line y typed max_len number support (l.term_read_sem number) u types)
            λ cs v (read, b).
              let ec : cs ≡ line_from typed max_len next =
                read ∙ ap (λ n. line_from typed max_len (suc n)) count in
              let is = line_from-IsLine typed max_len next bytes in
              rw ec (
                Returns-Stops
                  (store_chars-Storing address (line_from typed max_len next) v
                    (omega (arith, is.short, room)))
                  λ _ w st.
                    Stops-mono
                      (finish-Wrote y support (l.term_read_sem number)
                        (length (line_from typed max_len next)) w served.unlock)
                      λ x z wr.
                        let same = Same-trans m (Same-trans (Called-Same q') b) in
                        record {
                          is_line = is;
                          stored = rw wr.memory st.stored;
                          resumed = wr.resumed ∙ rw (st.except_state, same.except_state) refl;
                        }))
