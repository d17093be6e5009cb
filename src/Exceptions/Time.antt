-- ===== src/Exceptions/Time.antt =====
-- `updateCPUTime`.
use pandos.Prelude.{ℕ, ◌+◌, ◌≡◌, ◌≢◌}
use pandos.Prelude.Word.{add32, sub32, sdiv32}
use pandos.Types.{Ptr, null}
use pandos.Run.{ok}
use pandos.Pcb.{Store, upd}
use pandos.Pcb.Access.{read-ok, at-ok}
use pandos.Kernel.{Kernel, stck}
use pandos.Exceptions.{update_cpu_time}

abbrev pub now : Kernel → ℕ
now k = sdiv32 (k.tod k.tod_reads) k.timescale

-- The time that the process `p` has used is brought up to date, and counted on from now.
abbrev pub timed_pcbs : Kernel → Ptr → Store
timed_pcbs k p = record (k.asl.pcbs) {
  p_time =
      upd k.asl.pcbs.p_time p
        (add32 (k.asl.pcbs.p_time p) (sub32 (now k) (k.asl.pcbs.p_start_tod p)));
  p_start_tod = upd k.asl.pcbs.p_start_tod p (now k);
}

abbrev pub timed : Kernel → Kernel
timed k = record k {
  tod_reads = k.tod_reads + 1;
  asl = record (k.asl) { pcbs = timed_pcbs k k.current_process };
}

pub update_cpu_time-ok :
    (k : Kernel) → k.current_process ≢ null → update_cpu_time k ≡ ok tt (timed k)
unfolding update_cpu_time stck
update_cpu_time-ok k n = rw (read-ok n, read-ok n, at-ok n, at-ok n)
