-- ===== src/Support/Quiet.antt =====
-- SYSCALLs that return with nothing changed but the nucleus' own state, as when no other process takes
-- what the caller has locked.
use pandos.Prelude.{ℕ, ◌≡◌, ◌∷◌}
use pandos.Run.{Returns, returns, Returns-bind, Returns-ok}
use pandos.Kernel.{Kernel}
use pandos.Exceptions.PassUp.{support_of}
use pandos.Support.{Support, Event, called, System, syscall, syscall_}

-- The running process is the same, with its support structure and its exception states.
pub record Quiet (s t : Support) : Type 0 where
  pub kernel' : Kernel
  pub state : t ≡ record s { kernel = kernel' }
  pub current : kernel'.current_process ≡ s.kernel.current_process
  pub support : support_of kernel' ≡ support_of s.kernel
  pub except_state : kernel'.except_state ≡ s.kernel.except_state

-- The SYSCALL returns quietly, with a result of the predicate.
abbrev pub IsQuiet : System → (number x1 x2 x3 : ℕ) → (ℕ → Type 0) → Type 0
IsQuiet y number x1 x2 x3 P =
    (s : Support) → Returns (λ r t. P r × Quiet s t) (y.call number x1 x2 x3 s)

-- The state after a quiet SYSCALL of a process that had the state `s`.
abbrev pub after_call : Event → Kernel → Support → Support
after_call e k s = record s { kernel = k; trace = e ∷ s.trace }

pub record Called (e : Event) (s t : Support) : Type 0 where
  pub kernel' : Kernel
  pub state : t ≡ after_call e kernel' s
  pub current : kernel'.current_process ≡ s.kernel.current_process
  pub support : support_of kernel' ≡ support_of s.kernel
  pub except_state : kernel'.except_state ≡ s.kernel.except_state

module _ (y : System) (number x1 x2 x3 : ℕ) (P : ℕ → Type 0)
    (quiet : IsQuiet y number x1 x2 x3 P) where
  pub syscall-Called :
      (s : Support)
      → Returns (λ r t. P r × Called (called number x1 x2 x3) s t) (syscall y number x1 x2 x3 s)
  unfolding syscall
  syscall-Called s =
      let (r, t, e, (p, q)) =
        Returns-ok (quiet (record s { trace = called number x1 x2 x3 ∷ s.trace })) in
      rw e (
        returns (
          p,
          record {
            kernel' = q.kernel';
            state = q.state;
            current = q.current;
            support = q.support;
            except_state = q.except_state;
          },
        ))

  pub syscall_-Called :
      (s : Support)
      → Returns (λ _ t. Called (called number x1 x2 x3) s t) (syscall_ y number x1 x2 x3 s)
  syscall_-Called s = Returns-bind (syscall-Called s) λ r t q. returns q.1
