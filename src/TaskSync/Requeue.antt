-- ===== src/TaskSync/Requeue.antt =====
-- kernel/tkernel/smp_src/task_sync.c: the ready queue over a suspension and its end.
use tkernel.Base.{ℕ, ◌≡◌, refl, ap, ◌∙◌, true, ==-refl, List, [], ◌∷◌, ◌++◌, update}
use tkernel.Kernel.{Kernel, Tcb, Que, q_rdy, Tstat, ts_ready, ts_suspend}
use tkernel.Kernel.Frame.{Frame}
use tkernel.Kernel.Queue.{remove}
use tkernel.ReadyQueue.{rdy_que, priority_of, ready_queue_insert}
use tkernel.ReadyQueue.Levels.{ready_queue_insert-Inserted}
use tkernel.Task.{make_ready, make_non_ready, set_state}
use tkernel.Task.Unready.{Unqueued, make_non_ready-Frame, make_non_ready-que}
use tkernel.TaskSync.{set_suscnt}

-- A READY task of `k` that is suspended in `s` and READY again in `k'`: in `s` it is in no ring, and
-- in `k'` it is once in the ring of its priority, behind the others, with the choice of the tasks to
-- execute to be made again. No other task moves.
pub record Requeued (k s k' : Kernel) (t : ℕ) : Type 0 where
  pub held : (s.tcb t).state ≡ ts_suspend
  pub unqueued : s.que ≡ (λ q. remove t (k.que q))
  pub queued :
      rdy_que k'
      ≡ update
          (λ p. remove t (rdy_que k p))
          (priority_of k t)
          (remove t (rdy_que k (priority_of k t)) ++ (t ∷ []))
  pub changed : k'.chg ≡ true

-- A suspension to `s` and its end in `k'` that leave the ready queue and the schedule alone.
pub record Untouched (k s k' : Kernel) : Type 0 where
  pub unqueued : s.que ≡ k.que
  pub queued : k'.que ≡ k.que
  pub bitmap_same : k'.bitmap ≡ k.bitmap
  pub top_same : k'.top ≡ k.top
  pub klocktsk_same : k'.klocktsk ≡ k.klocktsk
  pub schedtsk_same : k'.schedtsk ≡ k.schedtsk
  pub chg_same : k'.chg ≡ k.chg

abbrev pub Rescheduled : Tstat → Kernel → Kernel → Kernel → ℕ → Type 0
Rescheduled ts_ready k s k' t = Requeued k s k' t
Rescheduled _ k s k' t = Untouched k s k'

set_state-priority :
    (k : Kernel) (t : ℕ) (s : Tstat) → priority_of (set_state k t s) t ≡ priority_of k t
set_state-priority k t s = rw (priority_of, ==-refl t) refl

set_suscnt-priority : (k : Kernel) (t n : ℕ) → priority_of (set_suscnt k t n) t ≡ priority_of k t
set_suscnt-priority k t n = rw (priority_of, ==-refl t) refl

Frame-priority : (k k' : Kernel) (t : ℕ) → Frame k k' → priority_of k' t ≡ priority_of k t
Frame-priority k k' t f = ap (λ (c : Tcb). c.priority) (f.tcb_same t)

-- `make_ready` of a task that has left its ring, with the ring of its priority.
make_ready-rings :
    (k w : Kernel) (t : ℕ)
    → w.que ≡ (λ q. remove t (k.que q))
    → priority_of w t ≡ priority_of k t
    → rdy_que (make_ready w t)
      ≡ update
          (λ p. remove t (rdy_que k p))
          (priority_of k t)
          (remove t (rdy_que k (priority_of k t)) ++ (t ∷ []))
unfolding make_ready
make_ready-rings k w t gone level =
    (ready_queue_insert-Inserted (set_state w t ts_ready) t).rings
    ∙ ap (λ p. update (rdy_que w) p (rdy_que w p ++ (t ∷ [])))
        (set_state-priority w t ts_ready ∙ level)
    ∙ ap
        (λ (g : Que → List ℕ).
          update (λ p. g (q_rdy p)) (priority_of k t) (g (q_rdy (priority_of k t)) ++ (t ∷ [])))
        gone

make_ready-chg : (k : Kernel) (t : ℕ) → (make_ready k t).chg ≡ true
unfolding make_ready ready_queue_insert
make_ready-chg k t = refl

held_state : (k : Kernel) (t : ℕ) (s : Tstat) → ((set_state k t s).tcb t).state ≡ s
held_state k t s = rw (==-refl t) refl

Requeued-from :
    (k k2 : Kernel) (t m : ℕ)
    → k2.que ≡ (λ q. remove t (k.que q))
    → priority_of k2 t ≡ priority_of k t
    → Requeued k
        (set_state k2 t ts_suspend)
        (make_ready (set_suscnt (set_state k2 t ts_suspend) t m) t)
        t
Requeued-from k k2 t m gone level = record {
  held = held_state k2 t ts_suspend;
  unqueued = gone;
  queued = make_ready-rings k (set_suscnt (set_state k2 t ts_suspend) t m) t gone (
      set_suscnt-priority (set_state k2 t ts_suspend) t m
      ∙ set_state-priority k2 t ts_suspend
      ∙ level);
  changed = make_ready-chg _ t;
}

pub make_ready-Requeued :
    (k : Kernel) (t n m : ℕ)
    → Unqueued k t
    → Requeued k
        (set_state (make_non_ready (set_suscnt k t n) t) t ts_suspend)
        (make_ready
          (set_suscnt (set_state (make_non_ready (set_suscnt k t n) t) t ts_suspend) t m)
          t)
        t
make_ready-Requeued k t n m h =
    let k1 = set_suscnt k t n in
    Requeued-from k (make_non_ready k1 t) t m (make_non_ready-que k1 t) (
      Frame-priority k1 (make_non_ready k1 t) t (make_non_ready-Frame k1 t h)
      ∙ set_suscnt-priority k t n)
