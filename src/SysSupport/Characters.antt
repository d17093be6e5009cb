-- ===== src/SysSupport/Characters.antt =====
-- One character to or from a device, and the loop that writes a string.
use pandos.Prelude.{ℕ, ◌+◌, ◌≡◌, refl, ap, ◌∙◌, arith, ==_refl, List, [], ◌∷◌, length}
use Prim.Native.Nat.{bit_or}
use pandos.Prelude.Word.{add32, low_bits, shl}
use pandos.Run.{Returns, returns, Returns-bind, Returns-mono}
use pandos.Exceptions.{dev_reg_addr}
use pandos.Support.{Support, Event, wrote, called, S, System, put_dev}
use pandos.Support.Number
use pandos.Support.Quiet.{IsQuiet, Called, syscall-Called}
use pandos.SysSupport.{sign_extend, wait_for, print_char, transmit_char, write_loop}

-- What a transfer leaves alone: memory, the exception states and the ASIDs.
pub record Same (s t : Support) : Type 0 where
  pub mem : t.mem ≡ s.mem
  pub except_state : t.kernel.except_state ≡ s.kernel.except_state
  pub sup_asid : t.sup_asid ≡ s.sup_asid

pub Same-trans : {s t u : Support} → Same s t → Same t u → Same s u
Same-trans p q = record {
  mem = q.mem ∙ p.mem;
  except_state = q.except_state ∙ p.except_state;
  sup_asid = q.sup_asid ∙ p.sup_asid;
}

pub Called-Same : {e : Event} {s t : Support} → Called e s t → Same s t
Called-Same q = rw q.state (record { mem = refl; except_state = q.except_state; sup_asid = refl })

-- The device answers the wait with a status whose low byte is `ready`.
abbrev pub Answers : System → (line number which ready : ℕ) → Type 0
Answers y line number which ready =
    IsQuiet y Number.wait_io line number which (λ status. low_bits status 8 ≡ ready)

-- A character is written: a success, and these events.
abbrev pub Writes :
    (write_char : (c : ℕ) → S ℕ) (ready : ℕ) (events : (c : ℕ) → List Event → List Event) → Type 0
Writes write_char ready events =
    (c : ℕ) (s : Support)
    → Returns (λ status t. (low_bits status 8 ≡ ready) × Same s t × (t.trace ≡ events c s.trace))
        (write_char c s)

abbrev pub printed : (number c : ℕ) → List Event → List Event
printed number c es =
    called Number.wait_io 6 number 0
    ∷ wrote (add32 (dev_reg_addr 6 number) 4) 2
    ∷ wrote (add32 (dev_reg_addr 6 number) 8) (sign_extend c)
    ∷ es

abbrev pub transmitted : (number c : ℕ) → List Event → List Event
transmitted number c es =
    called Number.wait_io 7 number 1
    ∷ wrote (add32 (dev_reg_addr 7 number) 12) (bit_or (shl (sign_extend c) 8) 2)
    ∷ es

module _ (y : System) (number : ℕ) where
  pub print_char-Writes : Answers y 6 number 0 1 → Writes (print_char y number) 1 (printed number)
  unfolding print_char put_dev
  print_char-Writes quiet c s = Returns-bind (syscall-Called y _ _ _ _ _ quiet _) λ r t (p, q).
      let w = Called-Same q in
      returns (
        p,
        record { mem = w.mem; except_state = w.except_state; sup_asid = w.sup_asid },
        rw q.state refl,
      )

  pub transmit_char-Writes :
      Answers y 7 number 1 5 → Writes (transmit_char y number) 5 (transmitted number)
  unfolding transmit_char wait_for put_dev
  transmit_char-Writes quiet c s = Returns-bind (syscall-Called y _ _ _ _ _ quiet _) λ r t (p, q).
      let w = Called-Same q in
      returns (
        p,
        record { mem = w.mem; except_state = w.except_state; sup_asid = w.sup_asid },
        rw q.state refl,
      )

-- The events of the characters in order, the last one first.
abbrev pub written : (events : (c : ℕ) → List Event → List Event) → List ℕ → List Event → List Event
written events [] es = es
written events (c ∷ cs) es = written events cs (events c es)

pub write_loop-written :
    (y : System) (write_char : (c : ℕ) → S ℕ) (ready : ℕ)
    (events : (c : ℕ) → List Event → List Event)
    → Writes write_char ready events
    → (support device_sem sent : ℕ) (cs : List ℕ) (s : Support)
    → Returns
        (λ n t. (n ≡ sent + length cs) × Same s t × (t.trace ≡ written events cs s.trace))
        (write_loop y write_char ready support device_sem sent cs s)
unfolding write_loop
write_loop-written y write_char ready events w support device_sem sent [] s =
    returns (omega arith, record { mem = refl; except_state = refl; sup_asid = refl }, refl)
write_loop-written y write_char ready events w support device_sem sent (c ∷ cs) s =
    Returns-bind (w c s) λ r t (p, q, e).
      rw (p, ==_refl ready)
        (Returns-mono
          (write_loop-written y write_char ready events w support device_sem (sent + 1) cs t)
          λ n u (a, b, f). (omega (arith, a), Same-trans q b, f ∙ ap (written events cs) e))
