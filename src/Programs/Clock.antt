-- ===== src/Programs/Clock.antt =====
-- The test of SYS10 and SYS18, for a kernel that does what it asks.
use pandos.Prelude.{
  ℕ, ◌+◌, ◌<◌, ◌≤◌, ◌≡◌, refl, false, none, some, List, [], ◌∷◌, length, arith, ltb,
}
use pandos.Prelude.Word.{word_mod, sub32}
use Prim.Native.String.{String}
use pandos.Run.{stop, terminated}
use pandos.Support.Number.{get_tod, delay, write_terminal}
use pandos.Delay.{second}
use pandos.Programs.{Call, ask, Answers, invoke, gettime, delay_test}
use pandos.Programs.Fibonacci.{IsServing, written, print-written}

-- The clock of the kernel shows `tod n` at the call after `n` others; a delay returns, and the system
-- call 6 of the nucleus ends the process.
pub record IsTiming (kernel : Answers) (tod : ℕ → ℕ) : Type 0 where
  pub serving : IsServing kernel
  pub shows : (cs : List Call) → kernel cs (ask get_tod 0 0 0) ≡ some (tod (length cs))
  pub delays : (cs : List Call) (n : ℕ) → kernel cs (ask delay n 0 0) ≡ some 0
  pub refuses : (cs : List Call) → kernel cs (ask gettime 0 0 0) ≡ none

-- The test of the delay, on a kernel that accepts each write, returns from a delay and ends the
-- process on the nucleus' call 6, when its clock is a word that does not go back between the third
-- and the fourth call and goes on by a second at least from there to the seventh: it finds the time
-- increasing and the delay long enough, and is ended at its call 6, before it reports that it was not.
pub delay_test-passed :
    (kernel : Answers) (tod : ℕ → ℕ)
    → IsTiming kernel tod
    → tod 2 ≤ tod 3
    → tod 3 + second ≤ tod 6
    → tod 6 < word_mod
    → delay_test kernel []
      ≡ stop terminated (
          ask get_tod 0 0 0
          ∷ written write_terminal "Delay test starts\n"
          ∷ ask get_tod 0 0 0
          ∷ ask get_tod 0 0 0
          ∷ written write_terminal "Delay Test ok: time increasing\n"
          ∷ ask delay 2 0 0
          ∷ ask get_tod 0 0 0
          ∷ written write_terminal "Delay Test ok: two second delay\n"
          ∷ written write_terminal "Delay Test completed\n"
          ∷ ask gettime 0 0 0
          ∷ [])
unfolding delay_test invoke
delay_test-passed kernel tod t order later word =
    let line = λ (str : String) (cs : List Call). print-written write_terminal str cs t.serving in
    let increasing : ltb (tod 3) (tod 2) ≡ false = ground arith in
    let long : ltb (sub32 (tod 6) (tod 3)) second ≡ false = ground arith in
    rw
      (
        t.shows [],
        line "Delay test starts\n",
        t.shows,
        t.shows,
        increasing,
        line "Delay Test ok: time increasing\n",
        t.delays,
        t.shows,
        long,
        line "Delay Test ok: two second delay\n",
        line "Delay Test completed\n",
        t.refuses,
      )
      refl
