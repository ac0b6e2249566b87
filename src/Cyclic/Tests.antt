-- ===== src/Cyclic/Tests.antt =====
-- The theorems on cyclic handlers at concrete kernels. The handler of the sample has a cycle of 100.
use tkernel.Base.{◌≡◌, refl, arith, true, [], ◌∷◌}
use tkernel.Kernel.{Kernel, e_ok, cb_distribute_cychdr, set_cyccb}
use tkernel.Sample.{sample, sample_semid}
use tkernel.Domain.{mp_check_domain_and_protection, check_exception_condition}
use tkernel.Timer.{unlink, unlink_block}
use tkernel.Cyclic.{cyc_access, tk_sta_cyc, tk_stp_cyc, stop_cyclic}
use tkernel.Cyclic.Armed.{StartOk, tk_sta_cyc-StartOk}
use tkernel.Cyclic.Phase.{Resumed, tk_sta_cyc-tk_stp_cyc}

-- The handler is stopped, and the time is 250.
abbrev late : Kernel
late = record sample { current_time = 250 }

late_access : cyc_access late 0 sample_semid ≡ e_ok
unfolding cyc_access mp_check_domain_and_protection check_exception_condition
late_access = refl

tk_sta_cyc-StartOk_example : StartOk late 0 (tk_sta_cyc late 0 sample_semid)
tk_sta_cyc-StartOk_example =
    tk_sta_cyc-StartOk late 0 sample_semid refl late_access (omega arith)
      (λ e. record { timer = refl; handed = λ p. refl }) (λ e. refl)

-- A handler with TA_PHS, which is started: its event is due at 330.
abbrev phased : Kernel
phased =
    record (set_cyccb late 0
      (record (late.obj.cyccb 0) { cycatr = 4; sta = true; cyctmeb_time = 330 })) {
        timer_queue = record { time = 330; callback = cb_distribute_cychdr 0 } ∷ [];
      }

phased_access : cyc_access phased 0 sample_semid ≡ e_ok
unfolding cyc_access mp_check_domain_and_protection check_exception_condition
phased_access = refl

stopped_access : cyc_access (tk_stp_cyc phased 0 sample_semid).0 0 sample_semid ≡ e_ok
unfolding tk_stp_cyc stop_cyclic unlink_block unlink cyc_access mp_check_domain_and_protection
    check_exception_condition
stopped_access = refl

tk_sta_cyc-tk_stp_cyc_example :
    Resumed phased 0 (tk_sta_cyc (tk_stp_cyc phased 0 sample_semid).0 0 sample_semid)
tk_sta_cyc-tk_stp_cyc_example =
    tk_sta_cyc-tk_stp_cyc phased 0 sample_semid refl phased_access stopped_access (omega arith)
      (λ e. cc) refl
