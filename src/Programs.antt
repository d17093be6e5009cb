-- ===== src/Programs.antt =====
-- The user programs of testers/ that print literals only: their calls, for a kernel that is a parameter.
pub mod Fibonacci
pub mod Clock
use pandos.Prelude.{
  ℕ, zero, suc, Bool, ◌==◌, ◌||◌, Option, none, some, List, [], ◌∷◌, ◌++◌, if◌then◌else◌, ltb,
}
use Prim.Native.Char.{code}
use Prim.Native.String.{String}
use pandos.Support.Number.{terminate, get_tod, write_printer, write_terminal, delay}
use pandos.Delay.{second}
use pandos.Prelude.Word.{add32, sub32, is_neg}
use pandos.Run.{ok, stop, out_of_fuel, terminated, Cmd, pure, ◌>>=◌, ◌>>◌}

-- A SYSCALL: one that writes `leng` characters from a string, or one whose arguments are numbers.
pub data Call : Type 0 where
  write : (device : ℕ) (str : String) (leng : ℕ) → Call
  ask : (number a1 a2 a3 : ℕ) → Call

-- What the kernel answers to a call after the calls before it, or `none` where it ends the process.
abbrev pub Answers : Type 0
Answers = List Call → Call → Option ℕ

-- A program, with its calls so far as the state.
abbrev pub U : Type 0 → Type 0
U A = Cmd (List Call) A

abbrev pub answered : Option ℕ → U ℕ
answered none cs = stop terminated cs
answered (some v) cs = ok v cs

-- `SYSCALL`.
unfoldable pub invoke : Answers → Call → U ℕ
invoke kernel c cs = answered (kernel cs c) (cs ++ (c ∷ []))

abbrev pub gettime : ℕ
gettime = 6

-- The loop of `print`: the characters before the first '\0', which ends the literal at the latest.
unfoldable pub string_length : String → ℕ
string_length String.[] = 0
string_length (String.◌∷◌ c s) = if code c == 0 then 0 else suc (string_length s)

-- `SYSCALL(TERMINATE, 0, 0, 0);`
pub end_process : Answers → U (Unit {0})
end_process kernel = do _ ← invoke kernel (ask terminate 0 0 0); pure tt

unfoldable pub print : Answers → (device : ℕ) (str : String) → U (Unit {0})
unfolding end_process
print kernel device str = do
  status ← invoke kernel (write device str (string_length str))
  if is_neg status
      then (do _ ← invoke kernel (write device "Bad device write status\n" 26); end_process kernel)
      else pure tt

abbrev pub plus : Option ℕ → Option ℕ → Option ℕ
plus none y = none
plus (some a) none = none
plus (some a) (some b) = some (add32 a b)

-- The recursion runs on fuel.
unfoldable pub fib : ℕ → (i : ℕ) → Option ℕ
fib zero i = none
fib (suc n) i =
    let x = fib n (sub32 i 1) in
    let y = fib n (sub32 i 2) in if (i == 1) || (i == 2) then some 1 else plus x y

abbrev pub returned : Option ℕ → U ℕ
returned none cs = out_of_fuel
returned (some v) cs = ok v cs

-- `fib(i)` takes at most `i` nested calls.
abbrev pub call_fib : (i : ℕ) → U ℕ
call_fib i = returned (fib i i)

-- The body of the five tests: `fib(i)` is to be `expected`.
pub fib_test : Answers → (title : String) (i expected : ℕ) → U (Unit {0})
unfolding end_process
fib_test kernel title i expected = do
  print kernel write_terminal title
  v ← call_fib i
  print kernel write_terminal "Recursion Concluded\n"
  if v == expected
      then print kernel write_terminal "Recursion Concluded Successfully\n"
      else print kernel write_terminal "ERROR: Recursion problems\n"
  end_process kernel

unfoldable pub fib_seven : Answers → U (Unit {0})
unfolding fib_test
fib_seven kernel = fib_test kernel "Recursive Fibanaci (7) Test starts\n" 7 13

unfoldable pub fib_eight : Answers → U (Unit {0})
unfolding fib_test
fib_eight kernel = fib_test kernel "Recursive Fibanaci (8) Test starts\n" 8 21

unfoldable pub fib_nine : Answers → U (Unit {0})
unfolding fib_test
fib_nine kernel = fib_test kernel "Recursive Fibanaci (9) Test starts\n" 9 34

unfoldable pub fib_ten : Answers → U (Unit {0})
unfolding fib_test
fib_ten kernel = fib_test kernel "Recursive Fibanaci (10) Test starts\n" 10 55

unfoldable pub fib_eleven : Answers → U (Unit {0})
unfolding fib_test
fib_eleven kernel = fib_test kernel "Recursive Fibanaci (11) Test starts\n" 11 89

-- The body of the tests that print two lines.
pub two_lines : Answers → (device : ℕ) (first last : String) → U (Unit {0})
unfolding end_process
two_lines kernel device first last = do
  print kernel write_terminal first
  print kernel device last
  end_process kernel

unfoldable pub printer_test : Answers → U (Unit {0})
unfolding two_lines
printer_test kernel = two_lines kernel write_printer "printTest is ok\n" "printTest is ok\n"

unfoldable pub terminal_test1 : Answers → U (Unit {0})
unfolding two_lines
terminal_test1 kernel = two_lines kernel write_terminal "printTest is ok\n" "Test Number 1\n"

unfoldable pub terminal_test2 : Answers → U (Unit {0})
unfolding two_lines
terminal_test2 kernel = two_lines kernel write_terminal "printTest is ok\n" "Test Number 2 is ok\n"

unfoldable pub terminal_test3 : Answers → U (Unit {0})
unfolding two_lines
terminal_test3 kernel = two_lines kernel write_terminal "printTest is ok\n" "Test number 3 is ok\n"

unfoldable pub terminal_test4 : Answers → U (Unit {0})
unfolding two_lines
terminal_test4 kernel = two_lines kernel write_terminal "printTest is ok\n" "Test number 4 is ok\n"

unfoldable pub terminal_test5 : Answers → U (Unit {0})
unfolding two_lines
terminal_test5 kernel = two_lines kernel write_terminal "printTest is ok\n" "Test number 5 is ok\n"

unfoldable pub terminal_test6 : Answers → U (Unit {0})
unfolding two_lines
terminal_test6 kernel = two_lines kernel write_terminal "printTest is ok\n" "Test number 6 is ok\n"

unfoldable pub terminal_test7 : Answers → U (Unit {0})
unfolding two_lines
terminal_test7 kernel = two_lines kernel write_terminal "printTest is ok\n" "Test number 7 is ok\n"

unfoldable pub terminal_test8 : Answers → U (Unit {0})
unfolding two_lines
terminal_test8 kernel = two_lines kernel write_terminal "printTest is ok\n" "Test number 8 is ok\n"

-- The loop of timeOfDay.c that only counts to 10000 changes nothing.
unfoldable pub time_of_day : Answers → U (Unit {0})
unfolding end_process
time_of_day kernel = do
  _ ← invoke kernel (ask get_tod 0 0 0)
  print kernel write_terminal "todTest starts\n"
  now1 ← invoke kernel (ask get_tod 0 0 0)
  now2 ← invoke kernel (ask get_tod 0 0 0)
  if ltb now2 now1
      then print kernel write_terminal "todTest error: time decreasing\n"
      else print kernel write_terminal "todTest ok: time increasing\n"
  now1 ← invoke kernel (ask get_tod 0 0 0)
  if ltb (sub32 now1 now2) second
      then print kernel write_terminal "todTest error: did not delay one second\n"
      else print kernel write_terminal "todTest ok: one second delay\n"
  print kernel write_terminal "todTest completed\n"
  _ ← invoke kernel (ask gettime 0 0 0)
  print kernel write_terminal "todTest error: SYS6 did not terminate\n"
  end_process kernel

unfoldable pub delay_test : Answers → U (Unit {0})
unfolding end_process
delay_test kernel = do
  _ ← invoke kernel (ask get_tod 0 0 0)
  print kernel write_terminal "Delay test starts\n"
  now1 ← invoke kernel (ask get_tod 0 0 0)
  now2 ← invoke kernel (ask get_tod 0 0 0)
  if ltb now2 now1
      then print kernel write_terminal "Delay Test error: time decreasing\n"
      else print kernel write_terminal "Delay Test ok: time increasing\n"
  _ ← invoke kernel (ask delay 2 0 0)
  now1 ← invoke kernel (ask get_tod 0 0 0)
  if ltb (sub32 now1 now2) second
      then print kernel write_terminal "Delay Test error: did not delay one second\n"
      else print kernel write_terminal "Delay Test ok: two second delay\n"
  print kernel write_terminal "Delay Test completed\n"
  _ ← invoke kernel (ask gettime 0 0 0)
  print kernel write_terminal "todTest error: SYS6 did not terminate\n"
  end_process kernel
