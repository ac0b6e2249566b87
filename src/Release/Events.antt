-- ===== src/Release/Events.antt =====
-- kernel/tkernel/smp_src/timer.c: what the callbacks and the loop on the events do to the timer queue.
use tkernel.Base.{
  none, ℕ, zero, suc, ◌+◌, ◌≤◌, ◌<◌, ◌≡◌, refl, Bool, false, Option, some, List, [], ◌∷◌, arith,
  ltb, Bool-cases, Option-cases, inl, inr, ltb→lt, length, subst, ap,
}
use tkernel.Kernel.{
  Kernel, Wspec, Tmeb, Callback, wspec_none, wspec_slp, wspec_sem_tfifo, wspec_sem_tpri,
  wspec_flg_tfifo, wspec_flg_tpri, wspec_smbf_tfifo, wspec_smbf_tpri, wspec_rmbf, wspec_mpf_tfifo,
  wspec_mpf_tpri, wspec_mtx_tfifo, wspec_mtx_tpri, wspec_mtx_inherit, wspec_mbx_tfifo,
  wspec_mbx_tpri, wspec_dly, wspec_tev, cb_null, cb_wait_release_tmout, cb_distribute_cychdr,
  cb_call_cychdr, cb_distribute_almhdr, cb_call_almhdr, Cyccb, Objects,
}
use tkernel.Timer.Shrunk.{Shrunk, Shrinks, Shrinks-same, Shrunk-trans}
use tkernel.Priority.Settle.{sem_chg_pri-Shrinks, mbf_chg_pri-Shrinks, mtx_rel_wai-Shrinks}
use tkernel.Timer.Order.{IsSorted, AllFrom, AllFrom-le}
use tkernel.Wait.{make_non_wait}
use tkernel.Kernel.Queue.{que_remove}
use tkernel.Wait.Frame.{make_non_wait-Frame}
use tkernel.Semaphore.Hooks.{sem_rel_wai}
use tkernel.MessageBuffer.{mbf_rel_wai}
use tkernel.Task.{time_slice_schedule, is_schedtsk, choose_schedtsk, top_fuel}
use tkernel.Schedule.{ready_queue_top}
use tkernel.Task.Frame.{time_slice_schedule-Frame}
use tkernel.Handler.{distribute_cychdr, distribute_almhdr, enqueue_handler}
use tkernel.Release.{
  rel_wai_hook, wait_release_tmout, call_back, run_events, count_time, tick_task, tick_processors,
  tick,
}

rel_wai_hook-Shrinks : (w : Wspec) (k : Kernel) (t : ℕ) → Shrinks k (rel_wai_hook w k t)
unfolding rel_wai_hook sem_rel_wai mbf_rel_wai
rel_wai_hook-Shrinks wspec_none k t = Shrinks-same k k refl refl refl
rel_wai_hook-Shrinks wspec_slp k t = Shrinks-same k k refl refl refl
rel_wai_hook-Shrinks wspec_sem_tfifo k t = sem_chg_pri-Shrinks k t none
rel_wai_hook-Shrinks wspec_sem_tpri k t = sem_chg_pri-Shrinks k t none
rel_wai_hook-Shrinks wspec_flg_tfifo k t = Shrinks-same k k refl refl refl
rel_wai_hook-Shrinks wspec_flg_tpri k t = Shrinks-same k k refl refl refl
rel_wai_hook-Shrinks wspec_smbf_tfifo k t = mbf_chg_pri-Shrinks k t none
rel_wai_hook-Shrinks wspec_smbf_tpri k t = mbf_chg_pri-Shrinks k t none
rel_wai_hook-Shrinks wspec_rmbf k t = Shrinks-same k k refl refl refl
rel_wai_hook-Shrinks wspec_mpf_tfifo k t = Shrinks-same k k refl refl refl
rel_wai_hook-Shrinks wspec_mpf_tpri k t = Shrinks-same k k refl refl refl
rel_wai_hook-Shrinks wspec_mtx_tfifo k t = Shrinks-same k k refl refl refl
rel_wai_hook-Shrinks wspec_mtx_tpri k t = Shrinks-same k k refl refl refl
rel_wai_hook-Shrinks wspec_mtx_inherit k t = mtx_rel_wai-Shrinks k t
rel_wai_hook-Shrinks wspec_mbx_tfifo k t = Shrinks-same k k refl refl refl
rel_wai_hook-Shrinks wspec_mbx_tpri k t = Shrinks-same k k refl refl refl
rel_wai_hook-Shrinks wspec_dly k t = Shrinks-same k k refl refl refl
rel_wai_hook-Shrinks (wspec_tev n) k t = Shrinks-same k k refl refl refl

wait_release_tmout-Shrinks : (k : Kernel) (t : ℕ) → Shrinks k (wait_release_tmout k t)
unfolding wait_release_tmout que_remove
wait_release_tmout-Shrinks k t =
    let u = que_remove k t in
    let f = make_non_wait-Frame u t in
    Shrunk-trans
      (Shrinks-same k (make_non_wait u t) f.time_same f.timer_same
        (ap (λ (o : Objects). o.cyccb) f.obj_same))
      (rel_wai_hook-Shrinks (k.tcb t).wspec (make_non_wait u t) t)

call_back-Shrinks : (prid : ℕ) (c : Callback) (k : Kernel) → Shrinks k (call_back prid c k)
unfolding call_back distribute_cychdr distribute_almhdr enqueue_handler
call_back-Shrinks prid cb_null k = Shrinks-same k k refl refl refl
call_back-Shrinks prid (cb_wait_release_tmout t) k = wait_release_tmout-Shrinks k t
call_back-Shrinks prid (cb_distribute_cychdr i) k =
    Shrinks-same k (distribute_cychdr k prid i) refl refl refl
call_back-Shrinks prid (cb_distribute_almhdr i) k =
    Shrinks-same k (distribute_almhdr k prid i) refl refl refl
call_back-Shrinks prid (cb_call_cychdr i) k = Shrinks-same k k refl refl refl
call_back-Shrinks prid (cb_call_almhdr i) k = Shrinks-same k k refl refl refl

-- The result `r` of the loop on the events: a state at the same time in which no event is due.
pub record Fired (now : ℕ) (c : ℕ → Cyccb) (r : Option Kernel) : Type 0 where
  pub end : Kernel
  pub returns : r ≡ some end
  pub cyc : end.obj.cyccb ≡ c
  pub time : end.current_time ≡ now
  pub sorted : IsSorted end.timer_queue
  pub not_due : AllFrom (now + 1) end.timer_queue

pub run_events-Fired :
    (prid n : ℕ) (k : Kernel) (l : List Tmeb)
    → k.timer_queue ≡ l
    → length l < n
    → IsSorted l
    → Fired k.current_time k.obj.cyccb (run_events prid n k)
unfolding run_events
run_events-Fired prid zero k l q f s = absurd (omega arith)
run_events-Fired prid (suc n) k [] q f s = record {
  end = k;
  returns = rw q refl;
  cyc = refl;
  time = refl;
  sorted = rw q tt;
  not_due = rw q tt;
}
run_events-Fired prid (suc n) k (e ∷ l) q f s = elim (Bool-cases (ltb k.current_time e.time)) [
  | inl later ↦
      let lt = ltb→lt k.current_time e.time later in
      let le : k.current_time + 1 ≤ e.time = omega arith in
      record {
        end = k;
        returns = rw (q, later) refl;
        cyc = refl;
        time = refl;
        sorted = rw q s;
        not_due = rw q (le, AllFrom-le (k.current_time + 1) e.time l le s.0);
      }
  | inr due ↦
      let k1 = call_back prid e.callback (record k { timer_queue = l }) in
      let c = call_back-Shrinks prid e.callback (record k { timer_queue = l }) in
      let r = run_events-Fired prid n k1 k1.timer_queue refl (omega arith) (c.sorted s.1) in
      rw (q, due)
        (subst (λ t. Fired t k.obj.cyccb (run_events prid n k1)) c.time
          (subst (λ y. Fired k1.current_time y (run_events prid n k1)) c.cyc r))
]

count_time-Shrinks : (k : Kernel) (t : ℕ) → Shrinks k (count_time k t)
unfolding count_time
count_time-Shrinks k t = elim (Bool-cases (ltb 0 (k.tcb t).sysmode)) [
  | inl e ↦ rw e (Shrinks-same k k refl refl refl)
  | inr e ↦ rw e (Shrinks-same k k refl refl refl)
]

tick_task-Shrinks : (k : Kernel) (b : Bool) (t : ℕ) → Shrinks k (tick_task k b t).0
unfolding tick_task
tick_task-Shrinks k b t =
    let k1 = count_time k t in
    let f = time_slice_schedule-Frame k1 (some t) in
    elim (Bool-cases (is_schedtsk k1 t)) [
      | inl e ↦ rw e (
          Shrunk-trans (count_time-Shrinks k t) (
            Shrinks-same k1 (time_slice_schedule k1 (some t)).0 f.time_same f.timer_same
              (ap (λ (o : Objects). o.cyccb) f.obj_same)))
      | inr e ↦ rw e (count_time-Shrinks k t)
    ]

tick_processors-Shrinks : (n i : ℕ) (k : Kernel) (b : Bool) → Shrinks k (tick_processors k b n i).0
unfolding tick_processors
tick_processors-Shrinks zero i k b = Shrinks-same k k refl refl refl
tick_processors-Shrinks (suc n) i k b = elim (Option-cases (k.ctxtsk i)) [
  | inl e ↦ rw (tick_processors, e) (tick_processors-Shrinks n (i + 1) k b)
  | inr (t, e) ↦
      let r = tick_task k b t in
      rw (tick_processors, e)
        (Shrunk-trans (tick_task-Shrinks k b t) (tick_processors-Shrinks n (i + 1) r.0 r.1))
]

choose_schedtsk-Shrinks : (k : Kernel) → Shrinks k (choose_schedtsk k)
unfolding choose_schedtsk
choose_schedtsk-Shrinks k = elim (Option-cases (ready_queue_top (top_fuel k) k)) [
  | inl e ↦ rw (choose_schedtsk, e) (Shrinks-same k k refl refl refl)
  | inr (f, e) ↦ rw (choose_schedtsk, e) (Shrinks-same k k refl refl refl)
]

pub tick-Shrinks :
    (k : Kernel)
    → Shrunk
        (k.current_time + k.timer_period)
        k.timer_queue
        k.obj.cyccb
        (tick k).current_time
        (tick k).timer_queue
        (tick k).obj.cyccb
unfolding tick
tick-Shrinks k =
    let k1 : Kernel = record k { current_time = k.current_time + k.timer_period } in
    let r = tick_processors k1 false k1.num_proc 0 in
    let s = tick_processors-Shrinks k1.num_proc 0 k1 false in
    elim (Bool-cases r.1) [
      | inl e ↦ rw e (Shrunk-trans s (choose_schedtsk-Shrinks r.0))
      | inr e ↦ rw e s
    ]
