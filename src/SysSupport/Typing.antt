-- ===== src/SysSupport/Typing.antt =====
-- A terminal that is typed on: the characters that its receive commands give.
use pandos.Prelude.{
  ℕ, zero, suc, ◌+◌, ◌*◌, ◌≡◌, refl, ◌==◌, ==_refl, ◌&&◌, if◌then◌else◌, List, [], ◌∷◌,
}
use pandos.Prelude.Word.{add32, low_bits}
use pandos.Run.{Returns, returns, Returns-bind}
use pandos.Exceptions.{dev_reg_addr}
use pandos.Support.{Support, Event, wrote, called, System}
use pandos.Support.Number
use pandos.Support.Quiet.{Quiet}
use pandos.SysSupport.{newline, receive_char}
use pandos.SysSupport.Characters.{Same}

-- How many receive commands the terminal has been given.
abbrev pub commands : (number : ℕ) → List Event → ℕ
commands number [] = 0
commands number (wrote a v ∷ es) =
    if (a == add32 (dev_reg_addr 7 number) 4) && (v == 2)
    then suc (commands number es)
    else commands number es
commands number (called n x1 x2 x3 ∷ es) = commands number es

-- The wait for the terminal gives, in the lower half of its status, the character that belongs to the
-- last of the receive commands and the code 5 for a received character. The SYSCALL is quiet.
abbrev pub Types : System → (number : ℕ) → (typed : ℕ → ℕ) → Type 0
Types y number typed =
    (s : Support)
    → Returns
        (λ status t. (low_bits status 16 ≡ typed (commands number s.trace) * 256 + 5) × Quiet s t)
        (y.call Number.wait_io 7 number 1 s)

-- The characters from the one of the command `i` on, to the first newline but at most `n`.
abbrev pub line_from : (typed : ℕ → ℕ) → (n i : ℕ) → List ℕ
line_from typed zero i = []
line_from typed (suc n) i =
    if typed i == newline then newline ∷ [] else typed i ∷ line_from typed n (suc i)

pub receive_char-typed :
    (y : System) (number : ℕ) (typed : ℕ → ℕ)
    → Types y number typed
    → (s : Support)
    → Returns
        (λ status t.
          (low_bits status 16 ≡ typed (suc (commands number s.trace)) * 256 + 5)
          × Same s t
          × (commands number t.trace ≡ suc (commands number s.trace)))
        (receive_char y number s)
unfolding receive_char pandos.SysSupport.wait_for pandos.Support.put_dev pandos.Support.syscall
receive_char-typed y number typed types s =
    let same = ==_refl (add32 (dev_reg_addr 7 number) 4) in
    Returns-bind (types _) λ r t (p, q). returns (
      rw same at p,
      rw q.state (record { mem = refl; except_state = q.except_state; sup_asid = refl }),
      rw (q.state, same) refl,
    )
