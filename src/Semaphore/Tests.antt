-- ===== src/Semaphore/Tests.antt =====
-- The theorems on semaphores at a concrete kernel.
use tkernel.Base.{ℕ, true, inl, inr, false, ◌≡◌, ◌+◌, refl, [], ◌∷◌, pos, arith}
use tkernel.Kernel.{Kernel, is_waiting, e_ok, e_qovr, q_sem, has, ta_cnt}
use tkernel.Kernel.Frame.{Frame}
use tkernel.Kernel.Lists.{Distinct, Among}
use tkernel.Sample.{sample, sample_semid}
use tkernel.Domain.{mp_check_domain_and_protection, check_exception_condition}
use tkernel.Semaphore.{sem_access, tk_sig_sem, tk_wai_sem, tk_del_sem, sig_sem_body}
use tkernel.Semaphore.Frame.{Served, grant}
use tkernel.Semaphore.Hooks.{sem_rel_wai}
use tkernel.Semaphore.Release.{sem_rel_wai-Served}
use tkernel.Semaphore.Signal.{total, Settled}
use tkernel.Semaphore.Calls.{Accepted, signalled, need_in, tk_sig_sem-Served}
use tkernel.Semaphore.Wake.{
  after_sig, woken_by, Bounded, tk_sig_sem_conserves, tk_sig_sem-Settled, tk_sig_sem_rejected,
  tk_sig_sem-Bounded,
}
use tkernel.Semaphore.Poll.{Polled, tk_wai_sem-Polled}
use tkernel.Semaphore.Delete.{Deleted, tk_del_sem-Deleted}

sample_access : sem_access sample 0 sample_semid ≡ e_ok
unfolding sem_access mp_check_domain_and_protection check_exception_condition
sample_access = refl

sample-Accepted : Accepted sample 0 sample_semid 4
sample-Accepted = record {
  id_ok = refl;
  access = sample_access;
  positive = omega arith;
  fits = omega arith;
}

sample-Distinct : Distinct (3 ∷ 4 ∷ [])
sample-Distinct = ((λ h. omega arith, tt), (tt, tt))

tk_sig_sem-Served_example :
    ((tk_sig_sem sample 0 sample_semid (pos 4)).1 ≡ e_ok)
    × Served sample (tk_sig_sem sample 0 sample_semid (pos 4)).0 0 [] (signalled sample 0 4)
tk_sig_sem-Served_example =
    tk_sig_sem-Served sample 0 sample_semid 4 sample-Accepted sample-Distinct

sample_waiting : (u : ℕ) → Among u (3 ∷ 4 ∷ []) → is_waiting (sample.tcb u).state ≡ true
sample_waiting u (inl e) = rw (← e) refl
sample_waiting u (inr a) = elim a [ inl e ↦ rw (← e) refl | inr n ↦ absurd n ]

tk_sig_sem_conserves_example :
    ((after_sig sample 0 sample_semid 4).semcb 0).semcnt
      + total (need_in sample) (woken_by sample 0 sample_semid 4)
    ≡ 5
tk_sig_sem_conserves_example =
    tk_sig_sem_conserves sample 0 sample_semid 4 sample-Accepted sample-Distinct sample_waiting

tk_sig_sem-Settled_example :
    Settled
      (has (sample.semcb 0).sematr ta_cnt)
      (need_in (after_sig sample 0 sample_semid 4))
      ((after_sig sample 0 sample_semid 4).semcb 0).semcnt
      ((after_sig sample 0 sample_semid 4).que (q_sem 0))
tk_sig_sem-Settled_example =
    tk_sig_sem-Settled sample 0 sample_semid 4 sample-Accepted sample-Distinct
      (omega arith, (omega arith, tt))

sample_overflow : (tk_sig_sem sample 0 sample_semid (pos 20)).1 ≡ e_qovr
unfolding tk_sig_sem sig_sem_body sem_access mp_check_domain_and_protection
    check_exception_condition
sample_overflow = refl

tk_sig_sem_rejected_example : Frame sample (tk_sig_sem sample 0 sample_semid (pos 20)).0
tk_sig_sem_rejected_example =
    tk_sig_sem_rejected sample 0 sample_semid (pos 20) (rw sample_overflow (λ h. cc))

tk_sig_sem-Bounded_example : Bounded (tk_sig_sem sample 0 sample_semid (pos 4)).0
tk_sig_sem-Bounded_example =
    tk_sig_sem-Bounded sample 0 sample_semid (pos 4) sample-Distinct (λ j. omega arith)

tk_wai_sem-Polled_example : Polled sample 0 1 (tk_wai_sem sample 0 sample_semid (pos 1) (pos 0))
tk_wai_sem-Polled_example = tk_wai_sem-Polled sample 0 sample_semid 1

tk_del_sem-Deleted_example :
    ((tk_del_sem sample 0 sample_semid).1 ≡ e_ok)
    × Deleted sample (tk_del_sem sample 0 sample_semid).0 0 (3 ∷ 4 ∷ [])
tk_del_sem-Deleted_example =
    tk_del_sem-Deleted sample 0 sample_semid refl sample_access sample-Distinct

-- The same kernel with a count that is enough for one of the two waiting tasks.
abbrev sample_rich : Kernel
sample_rich = record sample {
  semcb = λ i. record { semid = sample_semid; sematr = 0; semcnt = 3; maxsem = 10 };
}

sem_rel_wai-Served_example :
    Served sample_rich
      (sem_rel_wai sample_rich 9)
      0
      []
      (grant false (need_in sample_rich) 3 (3 ∷ 4 ∷ []))
    × Settled false
        (need_in (sem_rel_wai sample_rich 9))
        ((sem_rel_wai sample_rich 9).semcb 0).semcnt
        ((sem_rel_wai sample_rich 9).que (q_sem 0))
sem_rel_wai-Served_example =
    sem_rel_wai-Served sample_rich 9 refl sample-Distinct (omega arith, (omega arith, tt))
