-- ===== src/TaskSync/Tests.antt =====
-- The theorems on suspension at a concrete kernel.
use tkernel.Base.{◌≡◌, refl, arith, Bool-cases, inl, inr, ◌==◌}
use tkernel.Kernel.{e_ok, q_rdy, q_sem, q_flg, q_smbf, q_rmbf, q_mpf, q_mtx, q_mbx}
use tkernel.Kernel.Frame.{Frame}
use tkernel.Task.Unready.{Unqueued}
use tkernel.Sample.{sample}
use tkernel.TaskSync.Resume.{suspended, resumed}
use tkernel.TaskSync.Requeue.{Rescheduled}
use tkernel.TaskSync.Nest.{resume-suspend}

sample-Unqueued : Unqueued sample 7
sample-Unqueued (q_rdy i) h = absurd cc
sample-Unqueued (q_sem i) h = elim (Bool-cases (i == 0)) [
  | inl e ↦ rw e (λ z. omega arith, (λ z. omega arith, tt))
  | inr e ↦ rw e tt
]
sample-Unqueued (q_flg i) h = elim (Bool-cases (i == 0)) [
  | inl e ↦ rw e (λ z. omega arith, (λ z. omega arith, tt))
  | inr e ↦ rw e tt
]
sample-Unqueued (q_smbf i) h = tt
sample-Unqueued (q_rmbf i) h = tt
sample-Unqueued (q_mpf i) h = tt
sample-Unqueued (q_mtx i) h = tt
sample-Unqueued (q_mbx i) h = tt

resume-suspend_example :
    ((resumed (suspended sample 7) 7).1 ≡ e_ok)
    × Frame sample (resumed (suspended sample 7) 7).0
    × Rescheduled
        (sample.tcb 7).state
        sample
        (suspended sample 7)
        (resumed (suspended sample 7) 7).0
        7
resume-suspend_example = resume-suspend sample 7 refl (λ e. sample-Unqueued)
