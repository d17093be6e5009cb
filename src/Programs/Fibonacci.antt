-- ===== src/Programs/Fibonacci.antt =====
-- The tests of the recursive `fib`, for a kernel that does what they ask.
use pandos.Prelude.{
  ℕ, zero, suc, ◌+◌, ◌<◌, ◌≤◌, ◌≡◌, refl, false, ◌==◌, ==_refl, none, some, List, [], ◌∷◌, ◌++◌,
  arith, ◌%◌,
}
use Prim.Native.String.{String}
use pandos.Prelude.Word.{word_mod, add32, sub32, is_neg}
use pandos.Run.{ok, stop, terminated}
use pandos.Support.Number.{terminate, write_terminal}
use pandos.Programs.{
  Call, write, ask, Answers, invoke, string_length, print, end_process, fib, fib_test, fib_seven,
  fib_eight, fib_nine, fib_ten, fib_eleven,
}

-- The numbers of Fibonacci.
abbrev pub fibonacci : ℕ → ℕ
fibonacci zero = 0
fibonacci (suc zero) = 1
fibonacci (suc (suc n)) = fibonacci (suc n) + fibonacci n

-- `fib(i)`, for an `i` from 1 on that is a word, returns the Fibonacci number modulo 2 ^ 32 where `i`
-- nested calls are allowed.
pub fib-fibonacci :
    (n i : ℕ) → 0 < i → i ≤ n → i < word_mod → fib n i ≡ some (fibonacci i % word_mod)
unfolding fib
fib-fibonacci zero i lo hi w = absurd (omega arith)
fib-fibonacci (suc n) zero lo hi w = absurd (omega arith)
fib-fibonacci (suc n) (suc zero) lo hi w = refl
fib-fibonacci (suc n) (suc (suc zero)) lo hi w = refl
fib-fibonacci (suc n) (suc (suc (suc j))) lo hi w =
    let one : sub32 (suc (suc (suc j))) 1 ≡ suc (suc j) = omega arith in
    let two : sub32 (suc (suc (suc j))) 2 ≡ suc j = omega arith in
    let x = fib-fibonacci n (suc (suc j)) (omega arith) (omega arith) (omega arith) in
    let y = fib-fibonacci n (suc j) (omega arith) (omega arith) (omega arith) in
    let sum : add32 (fibonacci (suc (suc j)) % word_mod) (fibonacci (suc j) % word_mod)
        ≡ (fibonacci (suc (suc j)) + fibonacci (suc j)) % word_mod =
      omega arith in
    let n1 : (suc (suc (suc j)) == 1) ≡ false = ground arith in
    let n2 : (suc (suc (suc j)) == 2) ≡ false = ground arith in
    rw (n1, n2, one, two, x, y, sum) refl

-- The kernel answers each write with a status that is no error, and ends the process on TERMINATE.
pub record IsServing (kernel : Answers) : Type 0 where
  pub status : List Call → Call → ℕ
  pub good : (cs : List Call) (c : Call) → is_neg (status cs c) ≡ false
  pub writes :
      (cs : List Call) (device : ℕ) (str : String) (leng : ℕ)
      → kernel cs (write device str leng) ≡ some (status cs (write device str leng))
  pub ends : (cs : List Call) → kernel cs (ask terminate 0 0 0) ≡ none

-- The call that writes a literal.
abbrev pub written : (device : ℕ) (str : String) → Call
written device str = write device str (string_length str)

pub print-written :
    {kernel : Answers} (device : ℕ) (str : String) (cs : List Call)
    → IsServing kernel
    → print kernel device str cs ≡ ok tt (cs ++ (written device str ∷ []))
unfolding print invoke
print-written device str cs s = rw (s.writes cs device str (string_length str), s.good) refl

-- The calls of a test that succeeds.
abbrev pub succeeded : String → List Call
succeeded title =
    written write_terminal title
    ∷ written write_terminal "Recursion Concluded\n"
    ∷ written write_terminal "Recursion Concluded Successfully\n"
    ∷ ask terminate 0 0 0
    ∷ []

-- The body of the tests of `fib`, for an `i` from 1 on that is a word, when the number that is expected
-- is the Fibonacci number of `i` modulo 2 ^ 32, on a kernel that accepts each write and ends the
-- process on TERMINATE: the recursion returns that number, and the test writes its title, that the
-- recursion is concluded, and that it is so successfully, and is ended by its call of TERMINATE.
pub fib_test-succeeded :
    {kernel : Answers} (title : String) (i : ℕ)
    → IsServing kernel
    → 0 < i
    → i < word_mod
    → fib_test kernel title i (fibonacci i % word_mod) [] ≡ stop terminated (succeeded title)
unfolding fib_test end_process invoke
fib_test-succeeded title i s lo w =
    let line = λ (str : String) (cs : List Call). print-written write_terminal str cs s in
    rw
      (
        line title [],
        fib-fibonacci i i lo (omega arith) w,
        line "Recursion Concluded\n",
        ==_refl,
        line "Recursion Concluded Successfully\n",
        s.ends,
      )
      refl

-- The five tests of `fib`, of 7 to 11, on a kernel that accepts each write and ends the process on
-- TERMINATE: each writes its title, that the recursion is concluded, and that it is so successfully,
-- and is then ended by its call of TERMINATE.
pub fib_tests-succeeded :
    (kernel : Answers)
    → IsServing kernel
    → (fib_seven kernel [] ≡ stop terminated (succeeded "Recursive Fibanaci (7) Test starts\n"))
      × (fib_eight kernel [] ≡ stop terminated (succeeded "Recursive Fibanaci (8) Test starts\n"))
      × (fib_nine kernel [] ≡ stop terminated (succeeded "Recursive Fibanaci (9) Test starts\n"))
      × (fib_ten kernel [] ≡ stop terminated (succeeded "Recursive Fibanaci (10) Test starts\n"))
      × (fib_eleven kernel [] ≡ stop terminated (succeeded "Recursive Fibanaci (11) Test starts\n"))
unfolding fib_seven fib_eight fib_nine fib_ten fib_eleven
fib_tests-succeeded kernel s =
    let done = λ (title : String) (i : ℕ). fib_test-succeeded title i s in
    (
      done _ 7 (ground arith) (ground arith),
      done _ 8 (ground arith) (ground arith),
      done _ 9 (ground arith) (ground arith),
      done _ 10 (ground arith) (ground arith),
      done _ 11 (ground arith) (ground arith),
    )
