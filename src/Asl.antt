-- ===== src/Asl.antt =====
-- phase3/asl.c. The state is the semaphore descriptors, one map for each field of `semd_t`, the two
-- list heads, and the pcbs, whose queues hang on the descriptors. A `semd_t` pointer is an address;
-- NULL dereferenced is a fault. The loops run on fuel, one round for each of the MAXSEMD + 2
-- descriptors and one more.
pub mod Search
pub mod Place
pub mod Activate
pub mod Waiting
pub mod Block
pub mod Head
pub mod Release
pub mod Unblock
pub mod Leave
pub mod Init
use pandos.Prelude.{ℕ, zero, suc, ◌+◌, ◌-◌, Bool, true, false, ◌==◌, ltb, if◌then◌else◌}
use pandos.Types.{Ptr, null, max_proc}
use pandos.Run.{ok, fault, out_of_fuel, Cmd, pure, ◌>>=◌, ◌>>◌, zoom}
use pandos.Pcb.{
  Store, upd, mk_empty_proc_q, empty_proc_q, insert_proc_q, remove_proc_q, out_proc_q, head_proc_q,
}
use pandos.Pcb

abbrev pub max_semd : ℕ
max_semd = max_proc

-- `MAXINT` of h/const.h, the key of the dummy tail.
abbrev pub max_int : ℕ
max_int = 0x7fff_ffff

pub record Asl : Type 0 where
  pub s_next : Ptr → Ptr
  pub s_sem_add : Ptr → Ptr
  pub s_proc_q : Ptr → Ptr
  pub semd_h : Ptr
  pub semd_free_h : Ptr
  pub pcbs : Store

unfoldable pub read : {A : Type 0} → Ptr → (Asl → A) → Cmd Asl A
read p f a = if p == null then fault else ok (f a) a

unfoldable pub at : Ptr → (Asl → Asl) → Cmd Asl (Unit {0})
at p f a = if p == null then fault else ok tt (f a)

abbrev pub get_next : Ptr → Cmd Asl Ptr
get_next d = read d λ a. a.s_next d

abbrev pub get_sem_add : Ptr → Cmd Asl Ptr
get_sem_add d = read d λ a. a.s_sem_add d

abbrev pub get_proc_q : Ptr → Cmd Asl Ptr
get_proc_q d = read d λ a. a.s_proc_q d

abbrev pub set_next : Ptr → Ptr → Cmd Asl (Unit {0})
set_next d v = at d λ a. record a { s_next = upd a.s_next d v }

abbrev pub set_sem_add : Ptr → Ptr → Cmd Asl (Unit {0})
set_sem_add d v = at d λ a. record a { s_sem_add = upd a.s_sem_add d v }

abbrev pub set_proc_q : Ptr → Ptr → Cmd Asl (Unit {0})
set_proc_q d v = at d λ a. record a { s_proc_q = upd a.s_proc_q d v }

abbrev pub set_semd_h : Ptr → Cmd Asl (Unit {0})
set_semd_h d a = ok tt (record a { semd_h = d })

abbrev pub set_semd_free_h : Ptr → Cmd Asl (Unit {0})
set_semd_free_h d a = ok tt (record a { semd_free_h = d })

abbrev pub on_pcbs : {A : Type 0} → Cmd Store A → Cmd Asl A
on_pcbs m = zoom (λ a. a.pcbs) (λ h a. record a { pcbs = h }) m

-- `p->p_semAdd = v`.
abbrev pub set_p_sem_add : Ptr → Ptr → Cmd Asl (Unit {0})
set_p_sem_add p v = on_pcbs (Pcb.at p λ h. record h { p_sem_add = upd h.p_sem_add p v })

-- `table i` is the address of `semdTable[i]`. The loop has `n` rounds left.
pub init_loop : (table : ℕ → Ptr) (n i : ℕ) → Cmd Asl (Unit {0})
init_loop table zero i = pure tt
init_loop table (suc n) i = do set_next (table i) (table (i + 1)); init_loop table n (i + 1)

unfoldable pub init_asl : (table : ℕ → Ptr) → Cmd Asl (Unit {0})
init_asl table = do
  set_semd_h (table 0)
  set_sem_add (table 0) 0
  set_sem_add (table (max_semd + 1)) max_int
  set_next (table 0) (table (max_semd + 1))
  set_next (table (max_semd + 1)) null
  set_semd_free_h (table 1)
  init_loop table (max_semd - 1) 1
  set_next (table max_semd) null

abbrev pub asl_fuel : ℕ
asl_fuel = max_semd + 3

pub find_loop : ℕ → (current sem_add : Ptr) → Cmd Asl Ptr
find_loop zero current sem_add = λ _. out_of_fuel
find_loop (suc k) current sem_add = if current == null then pure null else do
  key ← get_sem_add current
  after ← get_next current
  if ltb key sem_add then find_loop k after sem_add else pure current

unfoldable pub find_semd : (sem_add : Ptr) → Cmd Asl Ptr
unfolding find_loop
find_semd sem_add = do
  head ← λ a. ok a.semd_h a
  first ← get_next head
  current ← find_loop asl_fuel first sem_add
  if current == null
      then pure null
      else do key ← get_sem_add current; pure (if key == sem_add then current else null)

-- The descriptor behind which `sem_add` belongs.
pub place_loop : ℕ → (prev sem_add : Ptr) → Cmd Asl Ptr
place_loop zero prev sem_add = λ _. out_of_fuel
place_loop (suc k) prev sem_add = do
  after ← get_next prev
  if after == null then pure prev else do
    key ← get_sem_add after
    if ltb key sem_add then place_loop k after sem_add else pure prev

-- A descriptor from the free list, put into the ASL with an empty queue; NULL if none is free.
pub activate : (sem_add : Ptr) → Cmd Asl Ptr
activate sem_add = do
  semd ← λ a. ok a.semd_free_h a
  if semd == null then pure null else do
    after ← get_next semd
    set_semd_free_h after
    set_sem_add semd sem_add
    set_proc_q semd mk_empty_proc_q
    head ← λ a. ok a.semd_h a
    prev ← place_loop asl_fuel head sem_add
    after ← get_next prev
    set_next semd after
    set_next prev semd
    pure semd

-- The pcb goes to the queue of the descriptor.
pub enqueue : (semd sem_add p : Ptr) → Cmd Asl Bool
enqueue semd sem_add p = do
  tail ← get_proc_q semd
  tail ← on_pcbs (insert_proc_q tail p)
  set_proc_q semd tail
  set_p_sem_add p sem_add
  pure false

unfoldable pub insert_blocked : (sem_add p : Ptr) → Cmd Asl Bool
insert_blocked sem_add p = if p == null then pure true else do
  semd ← find_semd sem_add
  if semd == null
      then (do semd ← activate sem_add; if semd == null then pure true else enqueue semd sem_add p)
      else enqueue semd sem_add p

-- The descriptor before `semd`, or the last one.
pub before_loop : ℕ → (prev semd : Ptr) → Cmd Asl Ptr
before_loop zero prev semd = λ _. out_of_fuel
before_loop (suc k) prev semd = do
  after ← get_next prev
  if after == null then pure prev else if after == semd then pure prev else before_loop k after semd

-- The end of `removeBlocked` and of `outBlocked`: a descriptor whose queue is empty leaves the ASL.
pub release_if_empty : (semd : Ptr) → Cmd Asl (Unit {0})
release_if_empty semd = do
  tail ← get_proc_q semd
  if empty_proc_q tail
      then (do
        head ← (λ a. ok a.semd_h a)
        prev ← before_loop asl_fuel head semd
        after ← get_next prev
        next ← get_next semd
        if after == semd then set_next prev next else pure tt
        free ← (λ a. ok a.semd_free_h a)
        set_next semd free
        set_semd_free_h semd)
      else pure tt

unfoldable pub remove_blocked : (sem_add : Ptr) → Cmd Asl Ptr
remove_blocked sem_add = do
  semd ← find_semd sem_add
  if semd == null then pure null else do
    tail ← get_proc_q semd
    (removed, tail) ← on_pcbs (remove_proc_q tail)
    set_proc_q semd tail
    if removed == null
        then pure null
        else do set_p_sem_add removed null; release_if_empty semd; pure removed

unfoldable pub out_blocked : (p : Ptr) → Cmd Asl Ptr
out_blocked p = if p == null then pure null else do
  sem_add ← on_pcbs (Pcb.read p λ h. h.p_sem_add p)
  if sem_add == null then pure null else do
    semd ← find_semd sem_add
    if semd == null then pure null else do
      tail ← get_proc_q semd
      (removed, tail) ← on_pcbs (out_proc_q tail p)
      set_proc_q semd tail
      if removed == null then pure null else do release_if_empty semd; pure p

unfoldable pub head_blocked : (sem_add : Ptr) → Cmd Asl Ptr
head_blocked sem_add = do
  semd ← find_semd sem_add
  if semd == null then pure null else do
    tail ← get_proc_q semd
    if empty_proc_q tail then pure null else on_pcbs (head_proc_q tail)
