-- ===== src/Semaphore/Calls.antt =====
-- The system calls on semaphores as a whole, from the checks of their arguments to the end of the
-- critical section.
use tkernel.Base.{
  ℕ, ◌-◌, ◌+◌, ◌≤◌, ◌<◌, ◌≡◌, refl, ap, ◌∙◌, true, false, List, [], arith, ltb, ◌==◌, pos, ==-refl,
  ==-ne,
}
use tkernel.Kernel.{Kernel, Tcb, Semcb, e_ok, q_sem, has, ta_cnt}
use tkernel.Kernel.Frame.{Frame}
use tkernel.Kernel.Lists.{Distinct}
use tkernel.Task.Frame.{update_schedtsk-Frame}
use tkernel.Domain.{chk_id, index_of}
use tkernel.Semaphore.Frame.{Outcome, grant, Served, sig_loop-Served}
use tkernel.Semaphore.{sem_access, sig_loop, sig_sem_body, add_semcnt, tk_sig_sem}

-- What the tasks ask for, and the specification at a state.
abbrev pub need_in : Kernel → ℕ → ℕ
need_in k u = (k.tcb u).sem_cnt

abbrev pub signalled : Kernel → ℕ → ℕ → Outcome
signalled k i cnt =
    grant (has (k.semcb i).sematr ta_cnt) (need_in k) ((k.semcb i).semcnt + cnt) (k.que (q_sem i))

-- A signal that is accepted: the ID is in range, the semaphore exists and may be used, and the
-- count stays within its maximum.
pub record Accepted (k : Kernel) (prid semid cnt : ℕ) : Type 0 where
  pub id_ok : chk_id k k.max_semid semid ≡ true
  pub access : sem_access k prid semid ≡ e_ok
  pub positive : 0 < cnt
  pub fits : cnt ≤ (k.semcb (index_of semid)).maxsem - (k.semcb (index_of semid)).semcnt

Served-Frame :
    {k k1 k2 : Kernel} {i : ℕ} {w : List ℕ} {o : Outcome}
    → Served k k1 i w o
    → Frame k1 k2
    → Served k k2 i w o
Served-Frame {k} {k1} {k2} {i} s f =
    let same = λ (j : ℕ). ap (λ g. g j) f.semcb_same in
    record {
      count = ap (λ (c : Semcb). c.semcnt) (same i) ∙ s.count;
      maxsem_same = ap (λ (c : Semcb). c.maxsem) (same i) ∙ s.maxsem_same;
      sematr_same = ap (λ (c : Semcb). c.sematr) (same i) ∙ s.sematr_same;
      semid_same = ap (λ (c : Semcb). c.semid) (same i) ∙ s.semid_same;
      queue = f.waits (q_sem i) refl ∙ s.queue;
      others = λ j ne. same j ∙ s.others j ne;
      woken = λ u m. f.tcb_same u ∙ s.woken u m;
      asleep = λ u h. f.tcb_same u ∙ s.asleep u h;
    }

Served-add :
    (k k' : Kernel) (i cnt : ℕ) (w : List ℕ) (o : Outcome)
    → Served (add_semcnt k i cnt) k' i w o
    → Served k k' i w o
unfolding add_semcnt
Served-add k k' i cnt w o s = record {
  count = s.count;
  maxsem_same = s.maxsem_same ∙ rw (==-refl i) refl;
  sematr_same = s.sematr_same ∙ rw (==-refl i) refl;
  semid_same = s.semid_same ∙ rw (==-refl i) refl;
  queue = s.queue;
  others = λ j ne. s.others j ne ∙ rw (==-ne i j ne) refl;
  woken = s.woken;
  asleep = s.asleep;
}

add-sematr : (k : Kernel) (i cnt : ℕ) → ((add_semcnt k i cnt).semcb i).sematr ≡ (k.semcb i).sematr
unfolding add_semcnt
add-sematr k i cnt = rw (==-refl i) refl

add-semcnt :
    (k : Kernel) (i cnt : ℕ) → ((add_semcnt k i cnt).semcb i).semcnt ≡ (k.semcb i).semcnt + cnt
unfolding add_semcnt
add-semcnt k i cnt = rw (==-refl i) refl

add-que : (k : Kernel) (i cnt : ℕ) → (add_semcnt k i cnt).que ≡ k.que
unfolding add_semcnt
add-que k i cnt = refl

add-tcb : (k : Kernel) (i cnt : ℕ) → (add_semcnt k i cnt).tcb ≡ k.tcb
unfolding add_semcnt
add-tcb k i cnt = refl

body-Served :
    (k : Kernel) (i cnt : ℕ)
    → Distinct (k.que (q_sem i))
    → Served k (sig_loop (add_semcnt k i cnt) i (k.que (q_sem i))) i [] (signalled k i cnt)
body-Served k i cnt d = Served-add k _ i cnt [] _ (
    rw (← add-sematr k i cnt) (
      sig_loop-Served i (need_in k) (k.que (q_sem i)) (add_semcnt k i cnt)
        ((k.semcb i).semcnt + cnt) [] (ap (λ f. f (q_sem i)) (add-que k i cnt)) d
        (add-semcnt k i cnt) (λ u. ap (λ f. need_of (f u)) (add-tcb k i cnt))))
  where
    need_of : Tcb → ℕ
    need_of c = c.sem_cnt

pub sig_body_taken :
    (k : Kernel) (prid semid cnt : ℕ)
    → Accepted k prid semid cnt
    → sig_sem_body k prid semid cnt ≡ (
      sig_loop
          (add_semcnt k (index_of semid) cnt)
          (index_of semid)
          (k.que (q_sem (index_of semid))),
      e_ok,
    )
unfolding sig_sem_body
sig_body_taken k prid semid cnt a =
    rw
      (
        a.access,
        let t : ltb ((k.semcb (index_of semid)).maxsem - (k.semcb (index_of semid)).semcnt) cnt
                ≡ false =
              ground (arith, a.fits) in
            t,
      )
      refl

-- A signal that is accepted, on a wait queue in which no task stands twice, returns E_OK and serves
-- the wait queue as the specification `grant` says: the count, the wait queue, the tasks that are
-- woken with E_OK and those that are left as they were, up to the two fields that scheduling
-- writes, are the specification's, and every other semaphore is untouched.
pub tk_sig_sem-Served :
    (k : Kernel) (prid semid cnt : ℕ)
    → Accepted k prid semid cnt
    → Distinct (k.que (q_sem (index_of semid)))
    → ((tk_sig_sem k prid semid (pos cnt)).1 ≡ e_ok)
      × Served k
          (tk_sig_sem k prid semid (pos cnt)).0
          (index_of semid)
          []
          (signalled k (index_of semid) cnt)
unfolding tk_sig_sem
tk_sig_sem-Served k prid semid cnt a d =
    rw
      (
        a.id_ok,
        let z : (cnt == 0) ≡ false = ground (arith, a.positive) in z,
        sig_body_taken k prid semid cnt a,
      )
      (refl, Served-Frame (body-Served k (index_of semid) cnt d) (update_schedtsk-Frame _))
