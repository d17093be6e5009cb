-- ===== src/Pcb.antt =====
-- phase3/pcb.c. A function that updates `*tp` returns the new tail pointer. Every address but NULL
-- is taken to hold a `pcb_t`; a NULL pointer that is dereferenced is a fault.
pub mod Access
pub mod Ring
pub mod Pool
pub mod Tree
pub mod Family
pub mod Forest
pub mod Detach
pub mod Queue
pub mod Unlink
pub mod Position
pub mod Dequeue
use pandos.Prelude.{
  ℕ, zero, suc, ◌+◌, ◌-◌, ◌≡◌, ◌≢◌, arith, Bool, true, false, not, ◌&&◌, ◌==◌, if◌then◌else◌,
}
use pandos.Types.{Ptr, null, max_proc, State}
use pandos.Run.{Run, ok, fault, out_of_fuel, Cmd, pure, ◌>>=◌, ◌>>◌}

-- `pcb_t` in memory, one map for each field, and `pcbFree_h`.
pub record Store : Type 0 where
  pub p_next : Ptr → Ptr
  pub p_prev : Ptr → Ptr
  pub p_prnt : Ptr → Ptr
  pub p_child : Ptr → Ptr
  pub p_sib_right : Ptr → Ptr
  pub p_sib_left : Ptr → Ptr
  pub p_s : Ptr → State
  pub p_time : Ptr → ℕ
  pub p_start_tod : Ptr → ℕ
  pub p_sem_add : Ptr → Ptr
  pub p_support_struct : Ptr → Ptr
  pub free_h : Ptr

unfoldable pub upd {ℓ} : {A : Type ℓ} → (Ptr → A) → Ptr → A → Ptr → A
upd f p v a = if a == p then v else f a

-- An access through `p`: a fault at NULL.
unfoldable pub read : {A : Type 0} → Ptr → (Store → A) → Cmd Store A
read p f h = if p == null then fault else ok (f h) h

unfoldable pub at : Ptr → (Store → Store) → Cmd Store (Unit {0})
at p f h = if p == null then fault else ok tt (f h)

abbrev pub get_next : Ptr → Cmd Store Ptr
get_next p = read p λ h. h.p_next p

abbrev pub get_prev : Ptr → Cmd Store Ptr
get_prev p = read p λ h. h.p_prev p

abbrev pub get_prnt : Ptr → Cmd Store Ptr
get_prnt p = read p λ h. h.p_prnt p

abbrev pub get_child : Ptr → Cmd Store Ptr
get_child p = read p λ h. h.p_child p

abbrev pub get_sib_right : Ptr → Cmd Store Ptr
get_sib_right p = read p λ h. h.p_sib_right p

abbrev pub get_sib_left : Ptr → Cmd Store Ptr
get_sib_left p = read p λ h. h.p_sib_left p

abbrev pub set_next : Ptr → Ptr → Cmd Store (Unit {0})
set_next p q = at p λ h. record h { p_next = upd h.p_next p q }

abbrev pub set_prev : Ptr → Ptr → Cmd Store (Unit {0})
set_prev p q = at p λ h. record h { p_prev = upd h.p_prev p q }

abbrev pub set_prnt : Ptr → Ptr → Cmd Store (Unit {0})
set_prnt p q = at p λ h. record h { p_prnt = upd h.p_prnt p q }

abbrev pub set_child : Ptr → Ptr → Cmd Store (Unit {0})
set_child p q = at p λ h. record h { p_child = upd h.p_child p q }

abbrev pub set_sib_right : Ptr → Ptr → Cmd Store (Unit {0})
set_sib_right p q = at p λ h. record h { p_sib_right = upd h.p_sib_right p q }

abbrev pub set_sib_left : Ptr → Ptr → Cmd Store (Unit {0})
set_sib_left p q = at p λ h. record h { p_sib_left = upd h.p_sib_left p q }

abbrev pub set_free_h : Ptr → Cmd Store (Unit {0})
set_free_h p h = ok tt (record h { free_h = p })

unfoldable pub free_pcb : Ptr → Cmd Store (Unit {0})
free_pcb p =
    if p == null then pure tt else do head ← (λ h. ok h.free_h h); set_next p head; set_free_h p

abbrev pub zero_state : State
zero_state = record { s_entry_hi = 0; s_cause = 0; s_status = 0; s_pc = 0; s_reg = λ _. 0 }

-- The fields that `allocPcb` resets; it leaves `p_startTOD` as it was.
unfoldable pub reset : Ptr → Store → Store
reset p h = record h {
  p_next = upd h.p_next p null;
  p_prev = upd h.p_prev p null;
  p_prnt = upd h.p_prnt p null;
  p_child = upd h.p_child p null;
  p_sib_left = upd h.p_sib_left p null;
  p_sib_right = upd h.p_sib_right p null;
  p_time = upd h.p_time p 0;
  p_sem_add = upd h.p_sem_add p null;
  p_support_struct = upd h.p_support_struct p null;
  p_s = upd h.p_s p zero_state;
}

unfoldable pub alloc_pcb : Cmd Store Ptr
alloc_pcb = do
  allocated ← λ h. ok h.free_h h
  if allocated == null
      then pure null
      else do n ← get_next allocated; set_free_h n; at allocated (reset allocated); pure allocated

-- `table i` is the address of `pcbTable[i]`. The loop of `initPcbs` has `n` rounds left.
pub init_loop : (table : ℕ → Ptr) (n i : ℕ) → Cmd Store (Unit {0})
init_loop table zero i = pure tt
init_loop table (suc n) i = do set_next (table i) (table (i + 1)); init_loop table n (i + 1)

unfoldable pub init_pcbs : (table : ℕ → Ptr) → Cmd Store (Unit {0})
unfolding init_loop
init_pcbs table = do
  init_loop table (max_proc - 1) 0
  set_next (table (max_proc - 1)) null
  set_free_h (table 0)

abbrev pub mk_empty_proc_q : Ptr
mk_empty_proc_q = null

abbrev pub empty_proc_q : Ptr → Bool
empty_proc_q tp = tp == null

unfoldable pub insert_proc_q : (tp p : Ptr) → Cmd Store Ptr
insert_proc_q tp p =
    if p == null
    then pure tp
    else if tp == null
    then (do set_next p p; set_prev p p; pure p)
    else do
      first ← get_next tp
      set_next p first
      set_prev p tp
      first ← get_next tp
      set_prev first p
      set_next tp p
      pure p

-- What `outProcQ` does at the pcb that it has found: out of the list, and the new tail.
pub bypass : (tp p : Ptr) → Cmd Store Ptr
bypass tp p = do
  before ← get_prev p
  after ← get_next p
  set_next before after
  after ← get_next p
  before ← get_prev p
  set_prev after before
  if tp == p then get_prev p else pure tp

pub unlink : (tp p : Ptr) → Cmd Store (Ptr × Ptr)
unfolding bypass
unlink tp p = do
  after ← get_next p
  tail ← if (p == tp) && (after == p) then pure null else bypass tp p
  set_next p null
  set_prev p null
  pure (p, tail)

-- The walk from `current`; NULL if `p` is not met before the head comes round again.
pub out_loop : ℕ → (tp p current : Ptr) → Cmd Store (Ptr × Ptr)
out_loop zero tp p current = λ _. out_of_fuel
out_loop (suc k) tp p current = if current == p then unlink tp p else do
  after ← get_next current
  first ← get_next tp
  if after == first then pure (null, tp) else out_loop k tp p after

-- The rounds given to the walk: a queue holds at most `max_proc` pcbs.
abbrev pub walk_fuel : ℕ
walk_fuel = max_proc

unfoldable pub out_proc_q : (tp p : Ptr) → Cmd Store (Ptr × Ptr)
unfolding out_loop unlink
out_proc_q tp p =
    if tp == null
    then pure (null, tp)
    else if p == null
    then pure (null, tp)
    else do first ← get_next tp; out_loop walk_fuel tp p first

unfoldable pub remove_proc_q : (tp : Ptr) → Cmd Store (Ptr × Ptr)
remove_proc_q tp =
    if tp == null then pure (null, tp) else do first ← get_next tp; out_proc_q tp first

unfoldable pub head_proc_q : (tp : Ptr) → Cmd Store Ptr
head_proc_q tp = if tp == null then pure null else get_next tp

unfoldable pub empty_child : Ptr → Cmd Store Bool
empty_child p = do child ← get_child p; pure (child == null)

unfoldable pub insert_child : (prnt p : Ptr) → Cmd Store (Unit {0})
insert_child prnt p = if prnt == null then pure tt else if p == null then pure tt else do
  first_sib ← get_child prnt
  set_child prnt p
  set_prnt p prnt
  set_sib_right p first_sib
  set_sib_left p null
  if first_sib == null then pure tt else set_sib_left first_sib p

-- The updates of `outChild`, for a `p` whose parent is `prnt`: the siblings, and the parent first.
pub detach_links : (p : Ptr) → Cmd Store Ptr
detach_links p = do
  left ← get_sib_left p
  right ← get_sib_right p
  if left == null then pure tt else set_sib_right left right
  right ← get_sib_right p
  if right == null then pure tt else set_sib_left right left
  set_prnt p null
  set_sib_left p null
  set_sib_right p null
  pure p

pub detach : (prnt p : Ptr) → Cmd Store Ptr
detach prnt p = do
  first_sib ← get_child prnt
  right ← get_sib_right p
  if first_sib == p then set_child prnt right else pure tt
  detach_links p

unfoldable pub out_child : Ptr → Cmd Store Ptr
unfolding detach detach_links
out_child p =
    if p == null
    then pure null
    else do prnt ← get_prnt p; if prnt == null then pure null else detach prnt p

unfoldable pub remove_child : Ptr → Cmd Store Ptr
remove_child p = do
  childless ← empty_child p
  if childless then pure null else do removed ← get_child p; out_child removed
