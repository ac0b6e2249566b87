-- ===== src/EventFlag/Tests.antt =====
-- The theorems on event flags at a concrete kernel, in which the tasks 5 and 6 wait for an event flag.
use tkernel.Base.{◌≡◌, refl, [], ◌∷◌, arith}
use tkernel.Kernel.{e_ok}
use tkernel.Kernel.Lists.{Distinct}
use tkernel.Sample.{sample, sample_semid}
use tkernel.Domain.{mp_check_domain_and_protection, check_exception_condition}
use tkernel.EventFlag.{flg_access, tk_set_flg}
use tkernel.EventFlag.Answer.{Answered}
use tkernel.EventFlag.Calls.{answered, tk_set_flg-Answered}

flag_access : flg_access sample 0 sample_semid ≡ e_ok
unfolding flg_access mp_check_domain_and_protection check_exception_condition
flag_access = refl

flag-Distinct : Distinct (5 ∷ 6 ∷ [])
flag-Distinct = ((λ h. omega arith, tt), (tt, tt))

tk_set_flg-Answered_example :
    ((tk_set_flg sample 0 sample_semid 5).1 ≡ e_ok)
    × Answered sample (tk_set_flg sample 0 sample_semid 5).0 0 [] (answered sample 0 5)
tk_set_flg-Answered_example =
    tk_set_flg-Answered sample 0 sample_semid 5 refl flag_access flag-Distinct
