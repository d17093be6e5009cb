-- ===== src/Support/Number.antt =====
-- The numbers of the nucleus' services and of the support level's, of h/const.h.
use pandos.Prelude.{ℕ}

abbrev pub create_process : ℕ
create_process = 1

abbrev pub terminate_process : ℕ
terminate_process = 2

abbrev pub passeren : ℕ
passeren = 3

abbrev pub verhogen : ℕ
verhogen = 4

abbrev pub wait_io : ℕ
wait_io = 5

abbrev pub wait_clock : ℕ
wait_clock = 7

abbrev pub get_support_ptr : ℕ
get_support_ptr = 8

abbrev pub terminate : ℕ
terminate = 9

abbrev pub get_tod : ℕ
get_tod = 10

abbrev pub write_printer : ℕ
write_printer = 11

abbrev pub write_terminal : ℕ
write_terminal = 12

abbrev pub read_terminal : ℕ
read_terminal = 13

abbrev pub disk_get : ℕ
disk_get = 14

abbrev pub disk_put : ℕ
disk_put = 15

abbrev pub flash_get : ℕ
flash_get = 16

abbrev pub flash_put : ℕ
flash_put = 17

abbrev pub delay : ℕ
delay = 18
