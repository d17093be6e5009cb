-- ===== src/Tests/Level.antt =====
-- A state of the support level written out, a system whose SYSCALLs return at once, and the theorems on
-- paging, termination and delays at them. Pcb 500 runs with the support structure 3000.
use pandos.Prelude.{
  ℕ, ◌+◌, ◌*◌, ◌^◌, ◌<◌, ◌≡◌, ◌≢◌, false, refl, [], ◌∷◌, arith, ◌==◌, if◌then◌else◌, ◌∉◌,
}
use pandos.Types.{Ptr, null, State, set_reg, a1, a2}
use pandos.Run.{ok, terminated, ldst, leave, Returns, returns, Stops}
use pandos.Pcb.{zero_state}
use pandos.Asl.{max_int}
use pandos.Support.{Support, Places, System}
use pandos.Support.Number
use pandos.Support.Quiet.{IsQuiet}
use pandos.Vm.{swap_pool_size, get_free_frame, pager_handler}
use pandos.Vm.Frames.{pick_after, pick_victim_frame-round}
use pandos.Vm.Install.{Steady, Installed, missing_vpn, pager_handler-Installed}
use pandos.InitProc.{init_page_table}
use pandos.InitProc.Pages.{Mapped, init_page_table-Mapped}
use pandos.Exceptions.{page_of_vpn}
use pandos.Terminate.{sup_terminate}
use pandos.Terminate.Release.{Gone, sup_terminate-Gone}
use pandos.Delay.{insert_delay, wake_loop, delay_list_size}
use pandos.Delay.Insertion.{IsAdl, insert_delay-IsAdl}
use pandos.Delay.Daemon.{Round, wake_loop-Round}
use pandos.Tests.{kernel}

-- The answer of a SYSCALL: SYS8 gives the support structure, SYS5 "ready" from a flash or a printer and
-- a received letter from a terminal. The devices are ready then.
abbrev answer : (number x1 : ℕ) → ℕ
answer number x1 =
    if number == 8 then 3000 else if number == 5 then (if x1 == 7 then 0x4105 else 1) else 0

abbrev pub prompt : System
prompt = record {
  call = λ number x1 x2 x3. if number == 2 then leave terminated else λ s.
      ok (answer number x1) (record s { kernel = record (s.kernel) { dev = λ _. 1 } });
  probe = λ _ _. 2 ^ 31;
}

abbrev pub places : Places
places = record {
  swap_pool_sem = 30000;
  master_semaphore = 30004;
  printer_sem = λ i. 30100 + 4 * i;
  term_read_sem = λ i. 30200 + 4 * i;
  term_write_sem = λ i. 30300 + 4 * i;
  adl_sem = 30008;
  private_sem = λ s. s + 600;
  state_of_pcb = λ p. p + 24;
  pager_handler = 40000;
  support_gen_exception_handler = 41000;
  delay_daemon = 42000;
}

-- The exception of the process: a fault on page 3, a write of 5 characters, a buffer in page 0.
abbrev exception : State
exception =
    set_reg a1 0x8000_0100
      (set_reg a2 5 (record zero_state { s_entry_hi = 0x8000_3080; s_cause = 8 }))

-- Frame 0 belongs to the process with ASID 2, frame 1 to another, the rest are free. Descriptors 8000
-- and 8010 wait for the times 1000 and 5000; 8080 is the dummy tail, 8020 and 8030 are free.
abbrev pub level : Support
level = record {
  kernel = record kernel { except_state = λ _ _. exception; dev = λ _. 1 };
  swap_pool = λ i. record {
    asid = if i == 0 then 2 else 5;
    vpn = 0x80001;
    occupied = if i == 0 then 1 else if i == 1 then 1 else 0;
  };
  swap_index = 7;
  asid_process_table = λ _. 500;
  support_free_list = 3700;
  sup_asid = λ _. 2;
  sup_next = λ _. null;
  d_next =
      λ d. if d == 8000 then 8010 else if d == 8010 then 8080 else if d == 8020 then 8030 else null;
  d_wake_time = λ d.
      if d == 8000 then 1000 else if d == 8010 then 5000 else if d == 8080 then max_int else 3000;
  d_sup_struct = λ d. if d == 8080 then null else 3000;
  delayd_h = 8000;
  delayd_free_h = 8020;
  mem = λ a. a + 1;
  status = 1;
  entry_hi = 0;
  tlb_at = λ _. (0, 0);
  trace = [];
}

pub prompt-IsQuiet : (sem : Ptr) → IsQuiet prompt Number.verhogen sem 0 0 (λ _. Unit)
prompt-IsQuiet sem s = returns (
  tt,
  record {
    kernel' = record (s.kernel) { dev = λ _. 1 };
    state = refl;
    current = refl;
    support = refl;
    except_state = refl;
  },
)

prompt-Steady : (number sem : ℕ) → (number == 2) ≡ false → Steady prompt number sem 0 0
prompt-Steady number sem ne s =
    rw ne (returns (record { swap_pool = refl; entry_lo = refl; except_state = refl }))

get_free_frame-2 : get_free_frame level ≡ 2
unfolding get_free_frame
get_free_frame-2 = refl

page_3 : page_of_vpn (missing_vpn 3000 level) ≡ 3
unfolding page_of_vpn
page_3 = refl

pub level-IsAdl : IsAdl level (8000 ∷ 8010 ∷ []) 8080
level-IsAdl = record {
  chain = (refl, ground arith, (refl, ground arith, (refl, ground arith, refl)));
  distinct = (refl, (refl, (refl, (refl, tt))));
  sorted = (λ y i. ground arith, (λ y i. ground arith, (λ y i. ground arith, tt)));
  last = refl;
  tail = refl;
  owners = λ x i. ground arith;
}

pick_victim_frame-round_example :
    (k : ℕ) × (k < swap_pool_size)
    × Returns (λ victim t. (victim ≡ 3) × (t.swap_index < swap_pool_size)) (pick_after k level)
pick_victim_frame-round_example = pick_victim_frame-round level 3 (ground arith) (ground arith)

pager_handler-Installed_example :
    Stops
      (λ x t. (x ≡ ldst exception) × Installed 3000 2 (missing_vpn 3000 level) 2 level t)
      (pager_handler prompt {A = ℕ} places level)
pager_handler-Installed_example =
    pager_handler-Installed prompt 3000 2 level (ground arith) get_free_frame-2 (ground arith)
      (λ s. returns (record { swap_pool = refl; entry_lo = refl; except_state = refl }, refl))
      places (ground arith) refl (ground arith) (omega (arith, page_3)) (prompt-Steady 3 30000 refl)
      (prompt-Steady 4 30000 refl)

init_page_table-Mapped_example : Returns (λ _ t. Mapped 3000 level t) (init_page_table 3000 level)
init_page_table-Mapped_example = init_page_table-Mapped 3000 level (ground arith) (ground arith)

sup_terminate-Gone_example :
    Stops (λ x t. (x ≡ terminated) × Gone places 3000 level t) (sup_terminate prompt places level)
sup_terminate-Gone_example =
    sup_terminate-Gone prompt places level (ground arith) (ground arith) (prompt-IsQuiet 30004)
      (λ t. refl)

insert_delay-IsAdl_example :
    Returns
      (λ _ t.
        IsAdl t (8000 ∷ 8020 ∷ 8010 ∷ []) 8080
        × (t ≡ record level { d_next = t.d_next; delayd_h = t.delayd_h })
        × ((b : Ptr) → b ≢ 8020 → b ∉ (8000 ∷ 8010 ∷ 8080 ∷ []) → t.d_next b ≡ level.d_next b))
      (insert_delay 8020 level)
insert_delay-IsAdl_example =
    insert_delay-IsAdl level-IsAdl (ground arith) refl (ground arith) (ground arith)

wake_loop-Round_example :
    Returns
      (λ _ t. Round places 2000 (8000 ∷ 8010 ∷ []) (8020 ∷ 8030 ∷ []) 8080 level t)
      (wake_loop prompt places (delay_list_size + 1) 2000 null 8000 level)
wake_loop-Round_example =
    wake_loop-Round prompt places prompt-IsQuiet 2000 level-IsAdl (ground arith)
      (refl, ground arith, (refl, ground arith, refl)) (λ x i. ground arith)
