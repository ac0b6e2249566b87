-- ===== src/Release/Tests.antt =====
-- The theorem on the timer interrupt at a concrete kernel: at the next interrupt a cyclic handler is
-- to start, and the wait of task 3 is over.
use tkernel.Base.{ℕ, ◌+◌, arith, [], ◌∷◌}
use tkernel.Kernel.{Kernel, cb_distribute_cychdr, cb_wait_release_tmout}
use tkernel.Sample.{sample}
use tkernel.Release.{timer_handler}
use tkernel.Release.Expiry.{Expired, timer_handler-Expired}

abbrev at_forty : Kernel
at_forty = record sample {
  current_time = 40;
  timer_queue =
      record { time = 30; callback = cb_distribute_cychdr 0 }
      ∷ (record { time = 40; callback = cb_wait_release_tmout 3 } ∷ []);
}

-- A handler that does nothing.
abbrev no_work : ℕ → ℕ → Kernel → Kernel
no_work hdr exinf k = k

timer_handler-Expired_example :
    (fuel : ℕ) × ((extra : ℕ)
      → Expired (40 + at_forty.timer_period) (timer_handler no_work (fuel + extra) 0 at_forty))
timer_handler-Expired_example =
    timer_handler-Expired no_work (λ k. 0) 0 at_forty ((omega arith, tt), (tt, tt))
      (λ i. omega arith)
      (record {
        limited = record {
          runs = λ hdr exinf k. omega arith;
          takes = λ k l. omega arith;
          cyc_starts = λ k i. omega arith;
          alm_starts = λ k i. omega arith;
          cyc_ends = λ k i. omega arith;
          alm_ends = λ k i. omega arith;
        };
        keeps = λ hdr exinf k c. c;
      })
