-- ===== src/Release.antt =====
-- The functions that are called by way of `rel_wai_hook` (the WSPECs of semaphore.c, messagebuf.c and
-- mutex.c in kernel/tkernel/smp_src), and the code that calls them: `wait_release_ng` and
-- `wait_release_tmout` of wait.c, and `timer_handler` of timer.c.
pub mod Events
pub mod Expiry
pub mod Ended
pub mod Tests
use mathlib.Core.Option
use tkernel.Base.{
  ℕ, zero, suc, ◌+◌, ◌%◌, ◌^◌, Bool, true, false, ◌&&◌, ◌||◌, Option, none, some, List, [], ◌∷◌,
  if◌then◌else◌, ltb, leb, length,
}
use tkernel.Kernel.{
  Kernel, Tcb, Tstat, ts_ready, is_waiting, Er, set_tcb, Wspec, wspec_mtx_inherit, wspec_sem_tfifo,
  wspec_sem_tpri, wspec_flg_tpri, wspec_smbf_tfifo, wspec_smbf_tpri, wspec_mpf_tpri, Callback,
  cb_wait_release_tmout, cb_distribute_cychdr, cb_distribute_almhdr,
}
use tkernel.Kernel.Queue.{que_remove}
use tkernel.ReadyQueue.{ready_queue_insert, ready_queue_delete}
use tkernel.Task.{time_slice_schedule, is_schedtsk, choose_schedtsk, update_schedtsk}
use tkernel.Wait.{wait_release_ok_ercd, make_non_wait}
use tkernel.Semaphore.Hooks.{sem_rel_wai}
use tkernel.Priority.{mtx_rel_wai}
use tkernel.MessageBuffer.{mbf_rel_wai}
use tkernel.Handler.{distribute_cychdr, distribute_almhdr, check_handler_queue, handler_update}

-- `rel_wai_hook`, where it is not NULL.
unfoldable pub rel_wai_hook : Wspec → Kernel → ℕ → Kernel
rel_wai_hook wspec_sem_tfifo k t = sem_rel_wai k t
rel_wai_hook wspec_sem_tpri k t = sem_rel_wai k t
rel_wai_hook wspec_smbf_tfifo k t = mbf_rel_wai k t
rel_wai_hook wspec_smbf_tpri k t = mbf_rel_wai k t
rel_wai_hook wspec_mtx_inherit k t = mtx_rel_wai k t
rel_wai_hook _ k t = k

-- `wait_release_ng` begins with the two statements of `wait_release_ok_ercd`.
unfoldable pub wait_release_ng : Kernel → ℕ → Er → Kernel
wait_release_ng k t ercd = rel_wai_hook (k.tcb t).wspec (wait_release_ok_ercd k t ercd) t

unfoldable pub wait_release_tmout : Kernel → ℕ → Kernel
wait_release_tmout k t = rel_wai_hook (k.tcb t).wspec (make_non_wait (que_remove k t) t) t

-- The time of a running task: `stime` in the quasi task part, `utime` else. They are UINTs.
unfoldable pub count_time : Kernel → ℕ → Kernel
count_time k t =
    if ltb 0 (k.tcb t).sysmode
    then set_tcb k t (record (k.tcb t) { stime = ((k.tcb t).stime + k.timer_period) % 2 ^ 32 })
    else set_tcb k t (record (k.tcb t) { utime = ((k.tcb t).utime + k.timer_period) % 2 ^ 32 })

-- The body of the loop on the processors, with `sched_change`.
unfoldable pub tick_task : Kernel → Bool → ℕ → Kernel × Bool
tick_task k sched_change t =
    let k1 = count_time k t in
    let (k2, moved) = time_slice_schedule k1 (some t) in
    if is_schedtsk k1 t then (k2, moved || sched_change) else (k1, sched_change)

unfoldable pub tick_processors : Kernel → Bool → ℕ → ℕ → Kernel × Bool
tick_processors k sched_change zero i = (k, sched_change)
tick_processors k sched_change (suc n) i = elim (k.ctxtsk i) [
  | none ↦ tick_processors k sched_change n (i + 1)
  | some t ↦ let (k1, changed) = tick_task k sched_change t in tick_processors k1 changed n (i + 1)
]

-- `(*event->callback)(event->arg)` of an event of the timer queue, on processor `prid`.
unfoldable pub call_back : ℕ → Callback → Kernel → Kernel
call_back prid (cb_wait_release_tmout t) k = wait_release_tmout k t
call_back prid (cb_distribute_cychdr i) k = distribute_cychdr k prid i
call_back prid (cb_distribute_almhdr i) k = distribute_almhdr k prid i
call_back prid _ k = k

-- The loop on the events, on fuel: `none` when it is used up.
unfoldable pub run_events : ℕ → ℕ → Kernel → Option Kernel
run_events prid zero k = none
run_events prid (suc n) k = elim k.timer_queue [
  | [] ↦ some k
  | event ∷ l ↦
      let next = run_events prid n (call_back prid event.callback (record k { timer_queue = l })) in
      if ltb k.current_time event.time then some k else next
]

-- `timer_handler` before the events.
unfoldable pub tick : Kernel → Kernel
tick k =
    let k1 = record k { current_time = k.current_time + k.timer_period } in
    let (k2, sched_change) = tick_processors k1 false k1.num_proc 0 in
    if sched_change then choose_schedtsk k2 else k2

-- `Handler queue update processing` and END_CRITICAL_SECTION.
unfoldable pub after_events : (ℕ → ℕ → Kernel → Kernel) → ℕ → ℕ → Kernel → Option Kernel
after_events user fuel prid k =
    let (k1, assprc) = check_handler_queue k in
    Option.map update_schedtsk (handler_update user fuel k1 prid assprc)

unfoldable pub timer_handler : (ℕ → ℕ → Kernel → Kernel) → ℕ → ℕ → Kernel → Option Kernel
timer_handler user fuel prid k = elim (run_events prid (length k.timer_queue + 1) (tick k)) [
  | none ↦ none
  | some k1 ↦ after_events user fuel prid k1
]
