-- ===== src/SysSupport/Write.antt =====
-- `supWriteToPrinter` and `supWriteToTerminal` on a device that accepts the characters.
use pandos.Prelude.{
  ℕ, zero, suc, ◌^◌, ◌<◌, ◌≤◌, ◌≡◌, ◌≢◌, ◌↔◌, refl, ap, ◌∙◌, arith, ◌==◌, ==_refl, List, ◌∷◌,
  length, true, false, leb,
}
use pandos.Prelude.Word.{sub32}
use pandos.Types.{Ptr, null, set_reg, v0, a1, a2}
use pandos.Run.{Stop, ldst, Stops, stops, Stops-mono, Returns-Stops}
use pandos.Pcb.Access.{ne_test}
use pandos.Exceptions.{general_except}
use pandos.Support.{Support, Places, Event, called, S, System, through}
use pandos.Support.Number
use pandos.Support.Quiet.{IsQuiet, syscall-Called, syscall_-Called}
use pandos.SysSupport.{
  max_len, kuseg, load_chars, read_buffer, is_bad_string, sup_write, sup_write_to_printer,
  sup_write_to_terminal, print_char, transmit_char, finish,
}
use pandos.SysSupport.Characters.{
  Same-trans, Called-Same, Answers, Writes, printed, transmitted, print_char-Writes,
  transmit_char-Writes, written, write_loop-written,
}

-- A string is accepted exactly if it has 1 to 128 characters and lies in the user segment.
is_bad_string_iff :
    (len address : ℕ)
    → len < 2 ^ 32
    → (is_bad_string len address ≡ false) ↔ ((0 < len) × (len ≤ max_len) × (kuseg ≤ address))
unfolding is_bad_string
is_bad_string_iff len address lt = ground arith

load_chars-mem :
    (n address : ℕ) (s t : Support)
    → t.mem ≡ s.mem
    → load_chars n address t ≡ load_chars n address s
unfolding load_chars
load_chars-mem zero address s t e = refl
load_chars-mem (suc n) address s t e = rw (load_chars-mem n _ s t e, e) refl

length-load_chars : (n address : ℕ) (s : Support) → length (load_chars n address s) ≡ n
unfolding load_chars
length-load_chars zero address s = refl
length-load_chars (suc n) address s = omega (arith, length-load_chars n _ s)

-- The SYSCALLs around the transfer return quietly, SYS8 with the support structure.
pub record IsServed (y : System) (support sem : Ptr) : Type 0 where
  pub support_ptr : IsQuiet y Number.get_support_ptr 0 0 0 (λ r. r ≡ support)
  pub lock : IsQuiet y Number.passeren sem 0 0 (λ _. Unit)
  pub unlock : IsQuiet y Number.verhogen sem 0 0 (λ _. Unit)

-- The process goes on with the length in v0, and these were the events.
pub record Wrote (support : Ptr) (len : ℕ) (trace : List Event) (s : Support) (x : Stop)
    (t : Support) : Type 0 where
  pub resumed : x ≡ ldst (set_reg v0 len (s.kernel.except_state support general_except))
  pub events : t.trace ≡ trace
  pub memory : t.mem ≡ s.mem

pub finish-Wrote :
    (y : System) (support sem result : ℕ) (s : Support)
    → IsQuiet y Number.verhogen sem 0 0 (λ _. Unit)
    → {A : Type 0}
    → Stops
        (Wrote support result (called Number.verhogen sem 0 0 ∷ s.trace) s)
        (finish y {A = A} support sem result s)
unfolding finish
finish-Wrote y support sem result s v {A} = Returns-Stops (syscall_-Called y _ _ _ _ _ v s) λ r t q.
    rw (q.state, q.except_state, ==_refl)
      (stops (record { resumed = refl; events = refl; memory = refl }))

-- The events of a write of the string that a1 and a2 of the exception state give, the last one first.
abbrev pub write_events :
    (s : Support) (support : Ptr) (events : (c : ℕ) → List Event → List Event) (sem : Ptr)
    → List Event
write_events s support events sem =
    let state = s.kernel.except_state support general_except in
    called Number.verhogen sem 0 0
    ∷ written events (load_chars (state.s_reg a2) (state.s_reg a1) s)
        (called Number.passeren sem 0 0 ∷ called Number.get_support_ptr 0 0 0 ∷ s.trace)

module _ (y : System) (l : Places) (s : Support) (support : Ptr) (real : support ≢ null) where
  abbrev number : ℕ
  number = sub32 (s.sup_asid support) 1

  abbrev len : ℕ
  len = (s.kernel.except_state support general_except).s_reg a2

  abbrev address : ℕ
  address = (s.kernel.except_state support general_except).s_reg a1

  sup_write-Wrote :
      (write_char : (number c : ℕ) → S ℕ) (ready : ℕ) (device_sem : (number : ℕ) → Ptr)
      (events : (c : ℕ) → List Event → List Event)
      → Writes (write_char number) ready events
      → IsServed y support (device_sem number)
      → (0 < len) × (len ≤ max_len) × (kuseg ≤ address)
      → {A : Type 0}
      → Stops
          (Wrote support len (write_events s support events (device_sem number)) s)
          (sup_write y l {A = A} write_char ready device_sem s)
  unfolding sup_write through read_buffer
  sup_write-Wrote write_char ready device_sem events w served good {A} =
      Returns-Stops (syscall-Called y _ _ _ _ _ served.support_ptr s) λ p t (e, q).
        let m = Called-Same q in
        let el : (t.kernel.except_state support general_except).s_reg a2 ≡ len =
          ap (λ f. (f support general_except).s_reg a2) m.except_state in
        let ea : (t.kernel.except_state support general_except).s_reg a1 ≡ address =
          ap (λ f. (f support general_except).s_reg a1) m.except_state in
        let accepted : is_bad_string len address ≡ false =
          (is_bad_string_iff len address (omega (arith, good))).1 good in
        let short : leb len max_len ≡ true = ground (arith, good) in
        let positive : (len == 0) ≡ false = ground (arith, good) in
        let asid : t.sup_asid support ≡ s.sup_asid support = ap (λ f. f support) m.sup_asid in
        rw
          (
            e,
            ne_test real,
            el,
            ea,
            accepted,
            positive,
            short,
            asid,
            load_chars-mem len address s t m.mem,
          )
          (Returns-Stops (syscall_-Called y _ _ _ _ _ served.lock t) λ _ u q'.
            Returns-Stops
              (write_loop-written y (write_char number) ready events w support (device_sem number) 0
                (load_chars len address s) u)
              λ n v (a, b, f).
                Stops-mono (finish-Wrote y support (device_sem number) n v served.unlock) λ x z wr.
                  let same = Same-trans m (Same-trans (Called-Same q') b) in
                  let count : n ≡ len = omega (arith, a, length-load_chars len address s) in
                  record {
                    resumed = wr.resumed ∙ rw (count, same.except_state) refl;
                    memory = wr.memory ∙ same.mem;
                    events =
                        wr.events
                        ∙ ap (λ es. called Number.verhogen (device_sem number) 0 0 ∷ es)
                            (f
                              ∙ ap (written events (load_chars len address s))
                                  (rw (q'.state, q.state) refl));
                  })

  -- With a string of 1 to 128 characters in the user segment, a printer that answers each character
  -- with "ready" and SYSCALLs that return quietly, `supWriteToPrinter` resumes the process with the
  -- length in v0; in between it has locked the printer of the process, put the characters into DATA0,
  -- sign extended, each followed by the print command and the wait for it, in order, and unlocked
  -- the printer.
  pub sup_write_to_printer-Wrote :
      Answers y 6 number 0 1
      → IsServed y support (l.printer_sem number)
      → (0 < len) × (len ≤ max_len) × (kuseg ≤ address)
      → {A : Type 0}
      → Stops
          (Wrote support len (write_events s support (printed number) (l.printer_sem number)) s)
          (sup_write_to_printer y l {A = A} s)
  unfolding sup_write_to_printer
  sup_write_to_printer-Wrote answers served good =
      sup_write-Wrote (print_char y) 1 l.printer_sem (printed number)
        (print_char-Writes y number answers) served good

  -- The same for `supWriteToTerminal`, with the transmitter of the process' terminal, one register for
  -- the character and the command, and the status "character transmitted".
  pub sup_write_to_terminal-Wrote :
      Answers y 7 number 1 5
      → IsServed y support (l.term_write_sem number)
      → (0 < len) × (len ≤ max_len) × (kuseg ≤ address)
      → {A : Type 0}
      → Stops
          (Wrote support len
            (write_events s support (transmitted number) (l.term_write_sem number))
            s)
          (sup_write_to_terminal y l {A = A} s)
  unfolding sup_write_to_terminal
  sup_write_to_terminal-Wrote answers served good =
      sup_write-Wrote (transmit_char y) 5 l.term_write_sem (transmitted number)
        (transmit_char-Writes y number answers) served good
