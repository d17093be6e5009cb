-- ===== src/Types.antt =====
-- The structures of h/types.h that the kernel keeps in memory, and the constants of h/const.h that
-- the models share. A pointer is an address; a word is a number below 2 ^ 32.
use pandos.Prelude.{ℕ, ◌==◌, if◌then◌else◌}

abbrev pub Ptr : Type 0
Ptr = ℕ

-- `NULL` of h/const.h is ((void *)0xFFFFFFFF).
abbrev pub null : Ptr
null = 0xffff_ffff

abbrev pub max_proc : ℕ
max_proc = 20

-- `state_t`. `s_reg i` is `s_reg[i]`; the kernel uses the indices 0 to 30 only.
pub record State : Type 0 where
  pub s_entry_hi : ℕ
  pub s_cause : ℕ
  pub s_status : ℕ
  pub s_pc : ℕ
  pub s_reg : ℕ → ℕ

abbrev pub set_reg : ℕ → ℕ → State → State
set_reg i v s = record s { s_reg = λ j. if j == i then v else s.s_reg j }

-- The registers that h/types.h names `s_v0`, `s_a0` to `s_a3`, `s_t9` and `s_sp`.
abbrev pub v0 : ℕ
v0 = 1

abbrev pub a0 : ℕ
a0 = 3

abbrev pub a1 : ℕ
a1 = 4

abbrev pub a2 : ℕ
a2 = 5

abbrev pub a3 : ℕ
a3 = 6

abbrev pub t9 : ℕ
t9 = 24

abbrev pub sp : ℕ
sp = 26
