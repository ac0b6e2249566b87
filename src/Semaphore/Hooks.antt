-- ===== src/Semaphore/Hooks.antt =====
-- kernel/tkernel/smp_src/semaphore.c: what is done when the priority of a waiting task changes or
-- it is released otherwise than by a signal.
use tkernel.Base.{ℕ, ◌-◌, Option, none, some, List, [], ◌∷◌, if◌then◌else◌, ltb}
use tkernel.Kernel.{Kernel, q_sem, set_semcb, has, ta_cnt}
use tkernel.Domain.{index_of}
use tkernel.Wait.{wait_release_ok, gcb_change_priority}

-- `semcb->semcnt -= cnt`, which runs at cnt <= semcnt only.
unfoldable pub sub_semcnt : Kernel → ℕ → ℕ → Kernel
sub_semcnt k i cnt = set_semcb k i (record (k.semcb i) { semcnt = (k.semcb i).semcnt - cnt })

-- From the head of the wait queue, as long as the count lasts.
unfoldable pub serve_while : Kernel → ℕ → List ℕ → Kernel
serve_while k i [] = k
serve_while k i (t ∷ l) =
    let next = serve_while (sub_semcnt (wait_release_ok k t) i (k.tcb t).sem_cnt) i l in
    if ltb (k.semcb i).semcnt (k.tcb t).sem_cnt then k else next

-- `sem_chg_pri`. `oldpri` is none for the -1 of `sem_rel_wai`.
unfoldable pub sem_chg_pri : Kernel → ℕ → Option ℕ → Kernel
sem_chg_pri k t oldpri =
    let i = index_of (k.tcb t).wid in
    let k1 : Kernel = elim oldpri [ none ↦ k | some p ↦ gcb_change_priority k (q_sem i) t ] in
    if has (k1.semcb i).sematr ta_cnt then k1 else serve_while k1 i (k1.que (q_sem i))

unfoldable pub sem_rel_wai : Kernel → ℕ → Kernel
sem_rel_wai k t = sem_chg_pri k t none
