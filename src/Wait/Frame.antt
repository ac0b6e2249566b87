-- ===== src/Wait/Frame.antt =====
-- What the release of a waiting task does, and all that it leaves alone.
use tkernel.Base.{
  ℕ, ◌≡◌, ◌≢◌, refl, ◌∙◌, false, if◌then◌else◌, Bool-cases, inl, inr, ==-refl, ==-ne,
}
use tkernel.Kernel.{Kernel, Tcb, Er, e_ok, Tstat, ts_ready, ts_suspend, Que}
use tkernel.Kernel.Queue.{que_remove, remove}
use tkernel.Kernel.Frame.{Frame, Frame-refl, is_rdy, core}
use tkernel.Task.{make_ready, set_state}
use tkernel.Task.Frame.{ready_queue_insert-Frame}
use tkernel.Timer.{timer_delete, drop_events}
use tkernel.Wait.{
  wait_release, wait_release_ok, wait_release_ok_ercd, make_non_wait, set_wercd, is_ts_wait,
}

-- The state of a task after its release.
abbrev pub after_release : Tstat → Tstat
after_release s = if is_ts_wait s then ts_ready else ts_suspend

abbrev pub released_tcb : Tcb → Er → Tcb
released_tcb c e = record c { wercd = e; state = after_release c.state }

-- `k'` is `k` after the release of `t` with the result `e`.
pub record Released (k k' : Kernel) (t : ℕ) (e : Er) : Type 0 where
  pub waits : (q : Que) → is_rdy q ≡ false → k'.que q ≡ remove t (k.que q)
  pub semcb_same : k'.semcb ≡ k.semcb
  pub flgcb_same : k'.flgcb ≡ k.flgcb
  pub domcb_same : k'.domcb ≡ k.domcb
  pub mem_same : k'.mem ≡ k.mem
  pub obj_same : k'.obj ≡ k.obj
  pub timer_drop : k'.timer_queue ≡ drop_events t k.timer_queue
  pub time_same : k'.current_time ≡ k.current_time
  pub tcb_self : core (k'.tcb t) ≡ core (released_tcb (k.tcb t) e)
  pub tcb_other : (u : ℕ) → t ≢ u → core (k'.tcb u) ≡ core (k.tcb u)

-- The state before the task is made ready or suspended.
abbrev unlinked : Kernel → ℕ → Er → Kernel
unlinked k t e = record (set_wercd k t e) {
  timer_queue = drop_events t k.timer_queue;
  que = λ q. remove t (k.que q);
}

Released-Frame :
    (k : Kernel) (t : ℕ) (e : Er) (s : Tstat) (k' : Kernel)
    → after_release (k.tcb t).state ≡ s
    → Frame (set_state (unlinked k t e) t s) k'
    → Released k k' t e
Released-Frame k t e s k' st f = record {
  waits = f.waits;
  semcb_same = f.semcb_same;
  flgcb_same = f.flgcb_same;
  domcb_same = f.domcb_same;
  mem_same = f.mem_same;
  obj_same = f.obj_same;
  timer_drop = f.timer_same;
  time_same = f.time_same;
  tcb_self = f.tcb_same t ∙ rw (==-refl t, st) refl;
  tcb_other = λ u ne. f.tcb_same u ∙ rw (==-ne t u ne) refl;
}

pub make_non_wait-Frame :
    (u : Kernel) (t : ℕ) → Frame (set_state u t (after_release (u.tcb t).state)) (make_non_wait u t)
unfolding make_non_wait make_ready
make_non_wait-Frame u t = elim (Bool-cases (is_ts_wait (u.tcb t).state)) [
  | inl w ↦ rw w (ready_queue_insert-Frame (set_state u t ts_ready) t)
  | inr s ↦ rw s (Frame-refl (set_state u t ts_suspend))
]

pub wait_release-Released :
    (k : Kernel) (t : ℕ) (e : Er) → Released k (wait_release (set_wercd k t e) t) t e
unfolding wait_release timer_delete que_remove
wait_release-Released k t e =
    Released-Frame k t e (after_release ((unlinked k t e).tcb t).state) _ (rw (==-refl t) refl)
      (make_non_wait-Frame (unlinked k t e) t)

pub wait_release_ok-Released : (k : Kernel) (t : ℕ) → Released k (wait_release_ok k t) t e_ok
unfolding wait_release_ok
wait_release_ok-Released k t = wait_release-Released k t e_ok

pub wait_release_ok_ercd-Released :
    (k : Kernel) (t : ℕ) (e : Er) → Released k (wait_release_ok_ercd k t e) t e
unfolding wait_release_ok_ercd
wait_release_ok_ercd-Released k t e = wait_release-Released k t e
