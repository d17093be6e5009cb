-- ===== src/Tests/Programs.antt =====
-- A kernel for the user programs, which writes whole strings.
use pandos.Prelude.{ℕ, refl, ◌≡◌, none, some, [], arith, ltb, ◌==◌, ◌^◌, if◌then◌else◌}
use pandos.Run.{stop, terminated}
use pandos.Support.Number.{terminate}
use pandos.Programs.{Call, write, ask, Answers, fib_test}
use pandos.Programs.Fibonacci.{IsServing, succeeded, fib_test-succeeded}

-- The number of characters, for a string that an `int` can count.
abbrev count_of : Call → ℕ
count_of (write device str leng) = if ltb leng (2 ^ 31) then leng else 0
count_of (ask number a1 a2 a3) = 0

abbrev console : Answers
console cs (write device str leng) = some (count_of (write device str leng))
console cs (ask number a1 a2 a3) = if number == terminate then none else some 0

console-IsServing : IsServing console
console-IsServing = record {
  status = λ cs. count_of;
  good =
      λ cs c. elim c [ write device str leng ↦ ground arith | ask number a1 a2 a3 ↦ ground arith ];
  writes = λ cs device str leng. refl;
  ends = λ cs. refl;
}

fib_test-succeeded_example :
    fib_test console "Recursive Fibanaci (8) Test starts\n" 8 21 []
    ≡ stop terminated (succeeded "Recursive Fibanaci (8) Test starts\n")
fib_test-succeeded_example =
    fib_test-succeeded "Recursive Fibanaci (8) Test starts\n" 8 console-IsServing (ground arith)
      (ground arith)
