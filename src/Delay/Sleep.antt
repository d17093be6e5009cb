-- ===== src/Delay/Sleep.antt =====
-- `supDelay` as a whole.
use pandos.Prelude.{ℕ, ◌≡◌, List}
use pandos.Prelude.Word.{add32, mul32}
use pandos.Types.{Ptr}
use pandos.Run.{Stop, ldst, ok, ◌>>◌}
use pandos.Pcb.Pool.{FreeChain}
use pandos.Exceptions.{general_except}
use pandos.Support.{Support, Places, System, syscall_}
use pandos.Exceptions.Time.{now}
use pandos.Support.Number
use pandos.Delay.{second}
use pandos.Delay.Insertion.{IsAdl, inserted}

-- The process is on the active delay list, with the descriptor `node`, and goes on where it was. Its
-- wake time is what the clock shows in `locked`, the state that the P on the list's semaphore returns
-- in, and the seconds asked for.
pub record Delayed (y : System) (l : Places) (support node sec_cnt : ℕ) (xs fs : List Ptr)
    (dummy : Ptr) (s : Support) (x : Stop) (t : Support) : Type 0 where
  pub locked : Support
  pub reached :
      (syscall_ y Number.get_support_ptr 0 0 0 >> syscall_ y Number.passeren l.adl_sem 0 0) s
      ≡ ok tt locked
  pub wake_time : t.d_wake_time node ≡ add32 (now locked.kernel) (mul32 sec_cnt second)
  pub owner : t.d_sup_struct node ≡ support
  pub active : IsAdl t (inserted t node xs) dummy
  pub free : FreeChain t.d_next t.delayd_free_h fs
  pub resumed : x ≡ ldst (s.kernel.except_state support general_except)
