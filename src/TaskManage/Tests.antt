-- ===== src/TaskManage/Tests.antt =====
-- The theorems on waits at a concrete kernel: task 3 waits for a semaphore.
use tkernel.Base.{ℕ, ◌≡◌, refl, false, ◌+◌, ◌^◌}
use tkernel.Kernel.{Kernel, e_ok, e_rlwai, wspec_sem_tfifo, set_tcb}
use tkernel.Priority.Stays.{trim}
use tkernel.Wait.Frame.{released_tcb}
use tkernel.Domain.{index_of, mp_check_domain_and_protection, check_exception_condition}
use tkernel.Domain.Names.{mp_check_domain_and_protection_tsk}
use tkernel.Sample.{sample}
use tkernel.TaskSync.{get_tcb_self, tsk_access}
use tkernel.TaskManage.{self_access, tk_dis_wai, tk_rel_wai}
use tkernel.TaskManage.Waits.{waits_for, tk_dis_wai-Ended, tk_rel_wai-Ended}

abbrev sem_wait : Kernel
sem_wait = set_tcb sample 3 (record (sample.tcb 3) { wspec = wspec_sem_tfifo })

abbrev waiting_tskid : ℕ
waiting_tskid = 2 ^ 24 + 4

sem_wait-self_access :
    self_access sem_wait 0 (get_tcb_self sem_wait 0 waiting_tskid) waiting_tskid ≡ e_ok
unfolding self_access mp_check_domain_and_protection_tsk mp_check_domain_and_protection
    check_exception_condition
sem_wait-self_access = refl

sem_wait-tsk_access : tsk_access sem_wait 0 (index_of waiting_tskid) waiting_tskid ≡ e_ok
unfolding tsk_access mp_check_domain_and_protection check_exception_condition
sem_wait-tsk_access = refl

tk_dis_wai-Ended_example :
    waits_for
      ((tk_dis_wai sem_wait 0 waiting_tskid 4).0.tcb (get_tcb_self sem_wait 0 waiting_tskid))
      4
    ≡ false
tk_dis_wai-Ended_example =
    tk_dis_wai-Ended sem_wait 0 waiting_tskid 4 refl refl sem_wait-self_access

tk_rel_wai-Ended_example :
    ((tk_rel_wai sem_wait 0 waiting_tskid).1 ≡ e_ok)
    × (trim ((tk_rel_wai sem_wait 0 waiting_tskid).0.tcb (index_of waiting_tskid))
        ≡ trim (released_tcb (sem_wait.tcb (index_of waiting_tskid)) e_rlwai))
tk_rel_wai-Ended_example = tk_rel_wai-Ended sem_wait 0 waiting_tskid refl sem_wait-tsk_access refl
