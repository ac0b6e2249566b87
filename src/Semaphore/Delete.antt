-- ===== src/Semaphore/Delete.antt =====
-- kernel/tkernel/smp_src/semaphore.c, `_tk_del_sem`.
use tkernel.Base.{ℕ, ◌≡◌, ◌≢◌, refl, ap, ◌∙◌, true, List, [], ==-refl, ==-ne}
use tkernel.Kernel.{Kernel, Semcb, e_ok, e_dlt, q_sem}
use tkernel.Kernel.Frame.{core}
use tkernel.Kernel.Lists.{NotIn, Distinct, Among}
use tkernel.Task.Frame.{update_schedtsk-Frame}
use tkernel.Domain.{chk_id, index_of, mp_unregister_object_in_domain}
use tkernel.Wait.Frame.{released_tcb}
use tkernel.Wait.Delete.{wait_delete-Emptied}
use tkernel.Semaphore.{sem_access, del_sem_body, tk_del_sem}

-- `k'` is `k` after the deletion of semaphore `i`, for which the tasks `l` waited.
pub record Deleted (k k' : Kernel) (i : ℕ) (l : List ℕ) : Type 0 where
  pub gone : (k'.semcb i).semid ≡ 0
  pub queue : k'.que (q_sem i) ≡ []
  pub others : (j : ℕ) → i ≢ j → k'.semcb j ≡ k.semcb j
  pub woken : (u : ℕ) → Among u l → core (k'.tcb u) ≡ core (released_tcb (k.tcb u) e_dlt)
  pub asleep : (u : ℕ) → NotIn u l → core (k'.tcb u) ≡ core (k.tcb u)

body-Deleted :
    (k : Kernel) (prid semid : ℕ)
    → sem_access k prid semid ≡ e_ok
    → Distinct (k.que (q_sem (index_of semid)))
    → ((del_sem_body k prid semid).1 ≡ e_ok)
      × Deleted k (del_sem_body k prid semid).0 (index_of semid) (k.que (q_sem (index_of semid)))
unfolding del_sem_body mp_unregister_object_in_domain
body-Deleted k prid semid a d =
    let i = index_of semid in
    let s = wait_delete-Emptied k (q_sem i) refl d in
    rw a (
      refl,
      record {
        gone = rw (==-refl i) refl;
        queue = s.queue;
        others = λ j ne. rw (==-ne i j ne) (ap (λ f. f j) s.semcb_same);
        woken = s.woken;
        asleep = s.asleep;
      },
    )

-- The deletion of a semaphore that exists and may be used, and in whose wait queue no task stands
-- twice, returns E_OK: the semaphore is gone, its
-- wait queue is empty, each task that waited is released with E_DLT, and no other task or
-- semaphore changes, up to the two fields of a task that scheduling writes.
pub tk_del_sem-Deleted :
    (k : Kernel) (prid semid : ℕ)
    → chk_id k k.max_semid semid ≡ true
    → sem_access k prid semid ≡ e_ok
    → Distinct (k.que (q_sem (index_of semid)))
    → ((tk_del_sem k prid semid).1 ≡ e_ok)
      × Deleted k (tk_del_sem k prid semid).0 (index_of semid) (k.que (q_sem (index_of semid)))
unfolding tk_del_sem
tk_del_sem-Deleted k prid semid id_ok a d =
    let b = body-Deleted k prid semid a d in
    let f = update_schedtsk-Frame (del_sem_body k prid semid).0 in
    let same = λ (j : ℕ). ap (λ g. g j) f.semcb_same in
    rw id_ok (
      b.0,
      record {
        gone = ap (λ (c : Semcb). c.semid) (same (index_of semid)) ∙ b.1.gone;
        queue = f.waits (q_sem (index_of semid)) refl ∙ b.1.queue;
        others = λ j ne. same j ∙ b.1.others j ne;
        woken = λ u m. f.tcb_same u ∙ b.1.woken u m;
        asleep = λ u h. f.tcb_same u ∙ b.1.asleep u h;
      },
    )
