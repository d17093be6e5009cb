-- ===== src/Tests/Family.antt =====
-- Five processes in a tree: 500 has the children 600 and 700, these the children 100 and 200. 500 runs,
-- 600 and 700 are ready, 100 and 200 wait for the semaphore at 5000; 300 and 400 are free.
use pandos.Prelude.{
  ◌≢◌, ◌≡◌, refl, List, [], ◌∷◌, arith, ◌==◌, if◌then◌else◌, Bool-cases, inl, inr, ==_iff, ◌∈◌,
}
use pandos.Types.{Ptr, null}
use pandos.Run.{halt, Returns, Stops}
use pandos.Pcb.{Store}
use pandos.Pcb.Ring.{none_queued, ring}
use pandos.Pcb.Tree.{HasChildren}
use pandos.Pcb.Forest.{Forest, no_trees, tree}
use pandos.Asl.Waiting.{queue_of, Waits, IsAsl-lists}
use pandos.Asl.{max_int, out_blocked}
use pandos.Asl.Leave.{HasWaiters, Leaves, out_blocked-Leaves}
use pandos.Kernel.{Kernel}
use pandos.Exceptions.{sys_terminate, terminate_fuel}
use pandos.Exceptions.Lists.{HasLists}
use pandos.Exceptions.Asleep.{HasRoom}
use pandos.Exceptions.Terminate.{
  IsRoot, Terminated, family, sys_terminate-Terminated, sys_terminate-halts,
}
use pandos.Tests.{layout, store, kernel}
use pandos.Tests.Blocking.{semaphores, semaphores-IsAsl}

abbrev pub relatives : Store
relatives = record store {
  p_next = λ a.
      if a == 100
      then 200
      else if a == 200
      then 100
      else if a == 300
      then 400
      else if a == 600
      then 700
      else if a == 700
      then 600
      else null;
  p_prev = λ a.
      if a == 100
      then 200
      else if a == 200
      then 100
      else if a == 600
      then 700
      else if a == 700
      then 600
      else null;
  p_prnt = λ a.
      if a == 600
      then 500
      else if a == 700
      then 500
      else if a == 100
      then 600
      else if a == 200
      then 700
      else null;
  p_child = λ a. if a == 500 then 600 else if a == 600 then 100 else if a == 700 then 200 else null;
  p_sem_add = λ a. if a == 100 then 5000 else if a == 200 then 5000 else null;
}

abbrev pub tribe : Kernel
tribe = record kernel {
  asl = record semaphores { pcbs = relatives };
  ready_queue = 700;
  current_process = 500;
  process_count = 5;
  soft_block_count = 0;
  sem = λ a. if a == 5000 then 0xffff_fffe else 0;
}

abbrev pub waiters : Ptr → List Ptr
waiters s = if s == 5000 then 100 ∷ 200 ∷ [] else []

waiters_at : (s : Ptr) → s ≢ max_int → Waits tribe.asl (8010 ∷ 8100 ∷ []) s (waiters s)
waiters_at s named = elim (Bool-cases (s == 5000)) [
  | inl e ↦
      rw ((==_iff s 5000).0 e)
        (ring (100 ∷ []) refl (refl, (refl, tt)) refl ((refl, refl), (refl, refl)))
  | inr n ↦
      let none : queue_of tribe.asl (8010 ∷ 8100 ∷ []) s ≡ null = ground arith in
      rw (n, none) none_queued
]

tribe-HasWaiters : HasWaiters tribe.asl waiters
tribe-HasWaiters = record {
  active = 8010 ∷ 8100 ∷ [];
  free = 8020 ∷ [];
  asl = IsAsl-lists semaphores.s_proc_q relatives semaphores-IsAsl;
  waits = waiters_at;
  unnamed = refl;
}

waiters_owner : (s b : Ptr) → b ∈ waiters s → relatives.p_sem_add b ≡ s
waiters_owner s b i = ground arith

pub tribe-HasLists : HasLists tribe waiters (600 ∷ 700 ∷ []) (300 ∷ 400 ∷ [])
tribe-HasLists = record {
  ready = ring (600 ∷ []) refl (refl, (refl, tt)) refl ((refl, refl), (refl, refl));
  short = ground arith;
  waiters = tribe-HasWaiters;
  few = λ s. ground arith;
  owner = waiters_owner;
  real = λ s b i. ground arith;
  free = record {
    chain = (refl, ground arith, (refl, ground arith, refl));
    distinct = (refl, (refl, tt));
  };
  apart = λ b i. ground arith;
  unready = λ s b i. ground arith;
  used = λ s b i. ground arith;
}

-- A descriptor is free for the semaphore at 5200.
pub tribe-HasRoom : HasRoom tribe-HasLists 5200
unfolding tribe-HasLists tribe-HasWaiters
tribe-HasRoom = inr (ground arith)

-- The same with nobody ready.
abbrev pub lonely : Kernel
lonely = record tribe { ready_queue = null }

pub lonely-HasLists : HasLists lonely waiters [] (300 ∷ 400 ∷ [])
lonely-HasLists = record {
  ready = none_queued;
  short = ground arith;
  waiters = tribe-HasWaiters;
  few = tribe-HasLists.few;
  owner = waiters_owner;
  real = tribe-HasLists.real;
  free = tribe-HasLists.free;
  apart = λ b i. refl;
  unready = λ s b i. refl;
  used = tribe-HasLists.used;
}

pub lonely-HasRoom : HasRoom lonely-HasLists 5200
unfolding lonely-HasLists tribe-HasWaiters
lonely-HasRoom = inr (ground arith)

-- The processes below 600, and those below 500.
abbrev below_600 : Forest
below_600 = tree 100 no_trees no_trees

abbrev below_500 : Forest
below_500 = tree 600 below_600 (tree 700 (tree 200 no_trees no_trees) no_trees)

IsRoot-600 : IsRoot tribe 600 below_600 waiters (600 ∷ 700 ∷ []) (300 ∷ 400 ∷ [])
IsRoot-600 = record {
  standing = record {
    lists = tribe-HasLists;
    links = ground arith;
    real = ground arith;
    distinct = ground arith;
    outside = refl;
    fresh = λ b i. ground arith;
    named = λ b i. ground arith;
    many = ground arith;
    small = ground arith;
    words = λ t. ground arith;
    soft = ground arith;
  };
  fresh = refl;
  named = ground arith;
}

IsRoot-500 : IsRoot tribe 500 below_500 waiters (600 ∷ 700 ∷ []) (300 ∷ 400 ∷ [])
IsRoot-500 = record {
  standing = record {
    lists = tribe-HasLists;
    links = ground arith;
    real = ground arith;
    distinct = ground arith;
    outside = refl;
    fresh = λ b i. ground arith;
    named = λ b i. ground arith;
    many = ground arith;
    small = ground arith;
    words = λ t. ground arith;
    soft = ground arith;
  };
  fresh = refl;
  named = ground arith;
}

pub siblings : HasChildren relatives 500 (600 ∷ 700 ∷ [])
siblings = record {
  chain = (refl, ground arith, refl, refl, (refl, ground arith, refl, refl, refl));
  distinct = (refl, (refl, tt));
}

out_blocked-Leaves_example :
    Returns (λ _ g. Leaves tribe.asl waiters 100 g) (out_blocked 100 tribe.asl)
out_blocked-Leaves_example =
    out_blocked-Leaves tribe.asl waiters 100 tribe-HasWaiters waiters_owner (ground arith)
      (ground arith) (ground arith) (ground arith)

sys_terminate-Terminated_example :
    Returns
      (λ _ g.
        Terminated layout tribe (family 600 below_600) waiters (600 ∷ 700 ∷ []) (300 ∷ 400 ∷ []) g
        × HasChildren g.asl.pcbs 500 (700 ∷ []))
      (sys_terminate layout terminate_fuel 600 tribe)
sys_terminate-Terminated_example =
    sys_terminate-Terminated layout tribe IsRoot-600 (ground arith) (ground arith) siblings refl
      (ground arith) refl (λ b i. ground arith)

sys_terminate-halts_example :
    Stops
      (λ x g.
        (x ≡ halt)
        × Terminated layout tribe (family 500 below_500) waiters (600 ∷ 700 ∷ []) (300 ∷ 400 ∷ []) g
        × (g.process_count ≡ 0))
      (sys_terminate layout terminate_fuel 500 tribe)
sys_terminate-halts_example = sys_terminate-halts layout tribe IsRoot-500 (ground arith) refl refl
