-- ===== src/Run.antt =====
-- Kernel code as commands over a state. A command returns, hands the processor over for good
-- (`LDST`, `LDCXT`, `HALT`, `PANIC`, `WAIT` never return), dereferences NULL, or has no fuel left.
use pandos.Prelude.{ℕ, ◌≡◌, refl}
use pandos.Types.{State}

pub data Stop : Type 0 where
  halt panic terminated : Stop
  wait : ℕ → Stop
  ldst : State → Stop
  ldcxt : (stack status pc : ℕ) → Stop

pub data Run (S A : Type 0) : Type 0 where
  ok : A → S → Run S A
  stop : Stop → S → Run S A
  fault : Run S A
  out_of_fuel : Run S A

abbrev pub Cmd : Type 0 → Type 0 → Type 0
Cmd S A = S → Run S A

abbrev pub pure : {S A : Type 0} → A → Cmd S A
pure = ok

module _ {S A B : Type 0} where
  abbrev pub and_then : Run S A → (A → Cmd S B) → Run S B
  and_then (ok a s) k = k a s
  and_then (stop x s) k = stop x s
  and_then fault k = fault
  and_then out_of_fuel k = out_of_fuel

  infixl 5 ◌>>=◌ ◌>>◌
  abbrev pub ◌>>=◌ : Cmd S A → (A → Cmd S B) → Cmd S B
  m >>= k = λ s. and_then (m s) k

  abbrev pub ◌>>◌ : Cmd S A → Cmd S B → Cmd S B
  m >> n = m >>= λ _. n

-- The processor is given away.
abbrev pub leave : {S A : Type 0} → Stop → Cmd S A
leave x s = stop x s

-- A command on a part of the state, as a command on the whole.
abbrev pub zoom_run : {S T A : Type 0} → (T → S) → Run T A → Run S A
zoom_run put (ok a t) = ok a (put t)
zoom_run put (stop x t) = stop x (put t)
zoom_run put fault = fault
zoom_run put out_of_fuel = out_of_fuel

abbrev pub zoom : {S T A : Type 0} → (S → T) → (T → S → S) → Cmd T A → Cmd S A
zoom get put m s = zoom_run (λ t. put t s) (m (get s))

-- The command returns, with a result and a state that satisfy the postcondition.
pub data Returns {S A : Type 0} (P : A → S → Type 0) : Run S A → Type 0 where
  returns : {a : A} {s : S} → P a s → Returns P (ok a s)

module _ {S A : Type 0} {P : A → S → Type 0} where
  pub Returns-bind :
      {B : Type 0} {Q : B → S → Type 0} {r : Run S A} {k : A → Cmd S B}
      → Returns P r
      → ((a : A) (s : S) → P a s → Returns Q (k a s))
      → Returns Q (and_then r k)
  Returns-bind (returns p) next = next _ _ p

  pub Returns-mono :
      {Q : A → S → Type 0} {r : Run S A}
      → Returns P r
      → ((a : A) (s : S) → P a s → Q a s)
      → Returns Q r
  Returns-mono (returns p) weaken = returns (weaken _ _ p)

  -- The result and the state by name.
  pub Returns-ok : {r : Run S A} → Returns P r → (a : A) × (s : S) × (r ≡ ok a s) × P a s
  Returns-ok (returns {a} {s} p) = (a, s, refl, p)

-- The postcondition with the run itself.
pub Returns-eq :
    {S A : Type 0} {P : A → S → Type 0} {r : Run S A}
    → Returns P r
    → Returns (λ a s. (r ≡ ok a s) × P a s) r
Returns-eq (returns p) = returns (refl, p)

pub Returns-of : {S A : Type 0} {P : A → S → Type 0} {a : A} {s : S} → Returns P (ok a s) → P a s
Returns-of (returns p) = p

-- The command hands the processor over, in a way and a state that satisfy the postcondition.
pub data Stops {S A : Type 0} (P : Stop → S → Type 0) : Run S A → Type 0 where
  stops : {x : Stop} {s : S} → P x s → Stops P (stop x s)

module _ {S A : Type 0} {P : Stop → S → Type 0} where
  -- What follows is not reached.
  pub Stops-bind : {B : Type 0} {r : Run S A} (k : A → Cmd S B) → Stops P r → Stops P (and_then r k)
  Stops-bind k (stops p) = stops p

  pub Stops-mono :
      {Q : Stop → S → Type 0} {r : Run S A}
      → Stops P r
      → ((x : Stop) (s : S) → P x s → Q x s)
      → Stops Q r
  Stops-mono (stops p) weaken = stops (weaken _ _ p)

-- A command that returns, and then one that hands the processor over.
pub Returns-Stops :
    {S A B : Type 0} {P : A → S → Type 0} {Q : Stop → S → Type 0} {r : Run S A} {k : A → Cmd S B}
    → Returns P r
    → ((a : A) (s : S) → P a s → Stops Q (k a s))
    → Stops Q (and_then r k)
Returns-Stops (returns p) next = next _ _ p
