-- ===== src/TaskSync/Nest.antt =====
-- kernel/tkernel/smp_src/task_sync.c: a suspension and its end.
use tkernel.Base.{
  ℕ, ◌+◌, ◌<◌, ◌≡◌, ◌≢◌, refl, ap, ◌∙◌, inl, inr, Bool-cases, ==-refl, ==-ne, eq_of_==, ne_of_==,
  ◌==◌,
}
use tkernel.Kernel.{
  Kernel, Tcb, Tstat, ts_nonexist, ts_ready, ts_wait, ts_suspend, ts_waitsus, ts_dormant, e_ok,
}
use tkernel.Kernel.Frame.{Frame, Frame-refl, Frame-trans, core}
use tkernel.Task.{make_ready, make_non_ready, set_state}
use tkernel.Task.Frame.{ready_queue_insert-Frame}
use tkernel.Task.Unready.{Unqueued, make_non_ready-Frame}
use tkernel.TaskSync.{int_max, set_suscnt, suspend}
use tkernel.TaskSync.Requeue.{Untouched, Rescheduled, make_ready-Requeued}
use tkernel.TaskSync.Resume.{
  Counted, suspended, resumed, resume_wait, resume_ready, resume_waitsus, resume_suspend,
}

-- A change of one task that is taken back.
Frame-back :
    (k k2 : Kernel) (t : ℕ) (tcb1 tcb' : ℕ → Tcb)
    → Frame (record k { tcb = tcb1 }) k2
    → ((u : ℕ) → t ≢ u → tcb1 u ≡ k.tcb u)
    → core (tcb' t) ≡ core (k.tcb t)
    → ((u : ℕ) → t ≢ u → tcb' u ≡ k2.tcb u)
    → Frame k (record k2 { tcb = tcb' })
Frame-back k k2 t tcb1 tcb' f apart self others = record {
  waits = f.waits;
  semcb_same = f.semcb_same;
  flgcb_same = f.flgcb_same;
  domcb_same = f.domcb_same;
  mem_same = f.mem_same;
  obj_same = f.obj_same;
  hash_same = f.hash_same;
  timer_same = f.timer_same;
  time_same = f.time_same;
  period_same = f.period_same;
  ctxtsk_same = f.ctxtsk_same;
  num_proc_same = f.num_proc_same;
  tcb_same = λ u. elim (Bool-cases (t == u)) [
    | inl e ↦ rw (← eq_of_== t u e) self
    | inr e ↦ let ne = ne_of_== t u e in ap core (others u ne) ∙ f.tcb_same u ∙ ap core (apart u ne)
  ];
}

tcb_back :
    (c : Tcb) (s : Tstat) (n : ℕ)
    → c.state ≡ s
    → c.suscnt ≡ n
    → record c { state = s; suscnt = n } ≡ c
tcb_back c s n e z = rw (← e, ← z) refl

-- The result of a suspension and a resumption, of a task that is in state `s` before.
abbrev Undone : Kernel → ℕ → Tstat → Type 0
Undone k t s =
    ((resumed (suspended k t) t).1 ≡ e_ok)
    × Frame k (resumed (suspended k t) t).0
    × Rescheduled s k (suspended k t) (resumed (suspended k t) t).0 t

suspended_in :
    (k : Kernel) (t : ℕ) (s : Tstat)
    → (k.tcb t).state ≡ s
    → suspended k t ≡ suspend (set_suscnt k t ((k.tcb t).suscnt + 1)) t s
suspended_in k t s e = ap (suspend (set_suscnt k t ((k.tcb t).suscnt + 1)) t) e

wait_again :
    (k : Kernel) (t : ℕ) → (k.tcb t).state ≡ ts_wait → (k.tcb t).suscnt ≡ 0 → Undone k t ts_wait
unfolding suspend
wait_again k t e z =
    let w = set_state (set_suscnt k t ((k.tcb t).suscnt + 1)) t ts_waitsus in
    let r : resumed w t ≡ (set_state (set_suscnt w t 0) t ts_wait, e_ok) =
      resume_wait w t (rw (==-refl t) refl) (rw (==-refl t) (ap (λ n. n + 1) z)) in
    rw (suspended_in k t ts_wait e, r)
      (
        refl,
        Frame-back k k t k.tcb _ (Frame-refl k) (λ u ne. refl)
            (rw (==-refl t) (ap core (tcb_back (k.tcb t) ts_wait 0 e z)))
            (λ u ne. rw (==-ne t u ne) refl),
        record {
          unqueued = refl;
          queued = refl;
          bitmap_same = refl;
          top_same = refl;
          klocktsk_same = refl;
          schedtsk_same = refl;
          chg_same = refl;
        },
      )

deeper :
    (k : Kernel) (t : ℕ)
    → suspended k t ≡ set_suscnt k t ((k.tcb t).suscnt + 1)
    → resumed (set_suscnt k t ((k.tcb t).suscnt + 1)) t
      ≡ (set_suscnt (set_suscnt k t ((k.tcb t).suscnt + 1)) t (k.tcb t).suscnt, e_ok)
    → ((resumed (suspended k t) t).1 ≡ e_ok)
      × Frame k (resumed (suspended k t) t).0
      × Untouched k (suspended k t) (resumed (suspended k t) t).0
deeper k t s r =
    rw (s, r)
      (
        refl,
        Frame-back k k t k.tcb _ (Frame-refl k) (λ u ne. refl) (rw (==-refl t) refl)
            (λ u ne. rw (==-ne t u ne) refl),
        record {
          unqueued = refl;
          queued = refl;
          bitmap_same = refl;
          top_same = refl;
          klocktsk_same = refl;
          schedtsk_same = refl;
          chg_same = refl;
        },
      )

suspend_again :
    (k : Kernel) (t : ℕ)
    → (k.tcb t).state ≡ ts_suspend
    → 0 < (k.tcb t).suscnt
    → (k.tcb t).suscnt < int_max
    → Undone k t ts_suspend
unfolding suspend
suspend_again k t e lo hi =
    deeper k t (suspended_in k t ts_suspend e)
      (resume_suspend _ t (k.tcb t).suscnt (rw (==-refl t) e) (rw (==-refl t) refl) lo hi)

waitsus_again :
    (k : Kernel) (t : ℕ)
    → (k.tcb t).state ≡ ts_waitsus
    → 0 < (k.tcb t).suscnt
    → (k.tcb t).suscnt < int_max
    → Undone k t ts_waitsus
unfolding suspend
waitsus_again k t e lo hi =
    deeper k t (suspended_in k t ts_waitsus e)
      (resume_waitsus _ t (k.tcb t).suscnt (rw (==-refl t) e) (rw (==-refl t) refl) lo hi)

ready_again :
    (k : Kernel) (t : ℕ)
    → (k.tcb t).state ≡ ts_ready
    → (k.tcb t).suscnt ≡ 0
    → Unqueued k t
    → Undone k t ts_ready
unfolding suspend make_ready
ready_again k t e z h =
    let k1 = set_suscnt k t ((k.tcb t).suscnt + 1) in
    let f : Frame k1 (make_non_ready k1 t) = make_non_ready-Frame k1 t h in
    let w = set_state (make_non_ready k1 t) t ts_suspend in
    let r : resumed w t ≡ (make_ready (set_suscnt w t 0) t, e_ok) =
      resume_ready w t (rw (==-refl t) refl) (
        rw (==-refl t)
          (ap (λ (c : Tcb). c.suscnt) (f.tcb_same t) ∙ rw (==-refl t) (ap (λ n. n + 1) z))) in
    rw (suspended_in k t ts_ready e, r)
      (
        refl,
        Frame-trans
            (Frame-back k (make_non_ready k1 t) t k1.tcb _ f (λ u ne. rw (==-ne t u ne) refl)
              (rw (==-refl t) (
                ap (λ (c : Tcb). record c { state = ts_ready; suscnt = 0 }) (f.tcb_same t)
                ∙ rw (==-refl t) (ap core (tcb_back (k.tcb t) ts_ready 0 e z))))
              (λ u ne. rw (==-ne t u ne) refl))
            (ready_queue_insert-Frame _ t),
        make_ready-Requeued k t ((k.tcb t).suscnt + 1) 0 h,
      )

-- For a task that exists and is not dormant, whose count of suspensions goes with its state and is
-- below INT_MAX, and that stands in no wait queue if it is READY: what `_tk_sus_tsk` does
-- to the task is undone by what `_tk_rsm_tsk` then does, which returns E_OK. The task, every
-- other task, the wait queues, the objects and the timer are as before, up to the two fields of a
-- task that scheduling writes. A READY task is suspended in between and in no ring, and afterwards
-- it is once in the ring of its priority, behind the others, which all keep their places, and the
-- tasks to execute are to be chosen again. In any other state the ready queue and the schedule do
-- not change.
pub resume-suspend :
    (k : Kernel) (t : ℕ)
    → Counted (k.tcb t).state (k.tcb t).suscnt
    → (((k.tcb t).state ≡ ts_ready) → Unqueued k t)
    → ((resumed (suspended k t) t).1 ≡ e_ok)
      × Frame k (resumed (suspended k t) t).0
      × Rescheduled (k.tcb t).state k (suspended k t) (resumed (suspended k t) t).0 t
resume-suspend k t c h = by_state (k.tcb t).state refl c
  where
    by_state : (s : Tstat) → (k.tcb t).state ≡ s → Counted s (k.tcb t).suscnt → Undone k t s
    by_state ts_ready e n = ready_again k t e n (h e)
    by_state ts_wait e n = wait_again k t e n
    by_state ts_suspend e n = suspend_again k t e n.0 n.1
    by_state ts_waitsus e n = waitsus_again k t e n.0 n.1
    by_state ts_nonexist e n = absurd n
    by_state ts_dormant e n = absurd n
