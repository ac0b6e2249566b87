-- ===== src/Alarm/Tests.antt =====
-- The theorem on alarm handlers at a concrete kernel, in which the alarm is set for 30.
use tkernel.Base.{ℕ, ◌≡◌, refl, arith, true, [], ◌∷◌}
use tkernel.Kernel.{Kernel, e_ok, cb_distribute_almhdr, set_almcb}
use tkernel.Sample.{sample, sample_semid}
use tkernel.Domain.{mp_check_domain_and_protection, check_exception_condition}
use tkernel.Alarm.{alm_access, tk_sta_alm}
use tkernel.Alarm.Set.{Accepted, tk_sta_alm-Accepted}

abbrev at_thirty : Kernel
at_thirty =
    record (set_almcb sample 0 (record (sample.obj.almcb 0) { sta = true; almtmeb_time = 30 })) {
      timer_queue = record { time = 30; callback = cb_distribute_almhdr 0 } ∷ [];
    }

at_thirty_access : alm_access at_thirty 0 sample_semid ≡ e_ok
unfolding alm_access mp_check_domain_and_protection check_exception_condition
at_thirty_access = refl

-- A handler that does nothing.
abbrev no_work : ℕ → ℕ → Kernel → Kernel
no_work hdr exinf k = k

tk_sta_alm-Accepted_example :
    Accepted at_thirty 0 500 (tk_sta_alm no_work 1 at_thirty 0 sample_semid 500)
tk_sta_alm-Accepted_example =
    tk_sta_alm-Accepted no_work 1 at_thirty 0 sample_semid 500 refl at_thirty_access refl
      (omega arith) (omega arith) (λ e. absurd cc)
