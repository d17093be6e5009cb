-- ===== src/Tests/Transfers.antt =====
-- The theorems on strings, blocks and copies at concrete inputs.
use pandos.Prelude.{ℕ, ◌+◌, ◌*◌, ◌<◌, ◌≡◌, refl, arith, leb, false}
use pandos.Types.{Ptr}
use pandos.Run.{returns, Stops}
use pandos.SysSupport.{newline, sup_write_to_printer, sup_read_terminal}
use pandos.SysSupport.Typing.{commands, Types}
use pandos.Support.{System}
use pandos.Prelude.{◌==◌, if◌then◌else◌, [], ◌∷◌}
use pandos.Run.{ok}
use pandos.SysSupport.Characters.{printed}
use pandos.SysSupport.Write.{IsServed, Wrote, write_events, sup_write_to_printer-Wrote}
use pandos.SysSupport.Line.{Read, sup_read_terminal-Read}
use pandos.Dma.{Geometry, place_of, is_outside}
use pandos.Dma.Blocks.{IsGeometry, place_of-block, is_outside-size}
use pandos.Dma.Negative.{negative, is_outside-negative}
use pandos.Tests.Level.{prompt, places, level}

prompt-IsServed : (sem : Ptr) → IsServed prompt 3000 sem
prompt-IsServed sem = record {
  support_ptr = λ s. returns (
    refl,
    record { kernel' = _; state = refl; current = refl; support = refl; except_state = refl },
  );
  lock = λ s. returns (
    tt,
    record { kernel' = _; state = refl; current = refl; support = refl; except_state = refl },
  );
  unlock = λ s. returns (
    tt,
    record { kernel' = _; state = refl; current = refl; support = refl; except_state = refl },
  );
}

sup_write_to_printer-Wrote_example :
    Stops
      (Wrote 3000 5 (write_events level 3000 (printed 1) 30104) level)
      (sup_write_to_printer prompt places {A = ℕ} level)
sup_write_to_printer-Wrote_example =
    sup_write_to_printer-Wrote prompt places level 3000 (ground arith)
      (λ s. returns (
        refl,
        record { kernel' = _; state = refl; current = refl; support = refl; except_state = refl },
      ))
      (prompt-IsServed 30104) (ground arith)

-- A terminal on which a line of two letters is typed first.
abbrev key : ℕ → ℕ
key n = if n == 3 then newline else 0x41

abbrev typist : System
typist = record prompt {
  call = λ number x1 x2 x3.
      if number == 5
      then (λ s.
          ok (key (commands 1 s.trace) * 256 + 5)
            (record s { kernel = record (s.kernel) { dev = λ _. 1 } }))
      else prompt.call number x1 x2 x3;
}

typist-Types : Types typist 1 key
typist-Types s = returns (
  ground arith,
  record { kernel' = _; state = refl; current = refl; support = refl; except_state = refl },
)

typist-IsServed : (sem : Ptr) → IsServed typist 3000 sem
typist-IsServed sem = record {
  support_ptr = λ s. returns (
    refl,
    record { kernel' = _; state = refl; current = refl; support = refl; except_state = refl },
  );
  lock = λ s. returns (
    tt,
    record { kernel' = _; state = refl; current = refl; support = refl; except_state = refl },
  );
  unlock = λ s. returns (
    tt,
    record { kernel' = _; state = refl; current = refl; support = refl; except_state = refl },
  );
}

sup_read_terminal-Read_example :
    Stops
      (Read 3000 0x8000_0100 (0x41 ∷ 0x41 ∷ newline ∷ []) level)
      (sup_read_terminal typist places {A = ℕ} level)
sup_read_terminal-Read_example =
    sup_read_terminal-Read typist places level 3000 key (ground arith) typist-Types
      (λ n. ground arith) (typist-IsServed 30204) (ground arith) (ground arith)

-- A disk of 100 cylinders, 2 heads and 8 sectors.
abbrev disk : Geometry
disk = record { max_cyl = 100; max_head = 2; max_sect = 8 }

disk-IsGeometry : IsGeometry disk
disk-IsGeometry = record {
  cyls = ground arith;
  heads = (ground arith, ground arith);
  sects = (ground arith, ground arith);
}

place_of-block_example :
    let p = place_of disk 61 in
    (((p.cyl * 2 + p.head) * 8 + p.sect) ≡ 61) × (p.head < 2) × (p.sect < 8)
place_of-block_example = place_of-block disk-IsGeometry 61 (ground arith)

is_outside-size_example : is_outside disk (place_of disk 1600) ≡ leb 1600 1600
is_outside-size_example = is_outside-size disk-IsGeometry 1600 (ground arith)

is_outside-negative_example : is_outside disk (place_of disk (negative 5)) ≡ false
is_outside-negative_example = is_outside-negative disk-IsGeometry (ground arith) 5 (ground arith)
