-- ===== src/Handler/Quiet.antt =====
-- kernel/tkernel/smp_src/time_calls.c: the handlers and the timer queue.
use tkernel.Base.{
  ℕ, zero, suc, ◌+◌, ◌<◌, ◌≡◌, refl, arith, false, Bool-cases, inl, inr, update, update_self,
  update_ne, ◌==◌, eq_of_==, ne_of_==, sym,
}
use tkernel.Kernel.{Kernel, Tmeb, Cyccb, cb_distribute_cychdr}
use tkernel.Timer.{timer_insert_abs}
use tkernel.Timer.Order.{IsSorted, AllFrom, AllFrom-enqueue, enqueue_tmeb-Placed}
use tkernel.Handler.{
  cyc_next_time, cyc_timer_insert, check_loop, check_handler_queue, handler_execution,
}
use tkernel.Handler.Next.{cyc_next_time-Next}
use tkernel.Handler.Calls.{
  InEnd, Lasting, start_cyc, taken, call_handler-Lasting, run_handlers-InEnd,
}

-- The cycles are above 0: `_tk_cre_cyc` makes no others.
abbrev pub Cycling : Kernel → Type 0
Cycling k = (i : ℕ) → 0 < (k.obj.cyccb i).cyctim

-- The time is `now`, and the timer queue is sorted and holds no event that is due.
pub record Quiet (now : ℕ) (k : Kernel) : Type 0 where
  pub time : k.current_time ≡ now
  pub sorted : IsSorted k.timer_queue
  pub not_due : AllFrom (now + 1) k.timer_queue
  pub cycling : Cycling k

-- A control block is replaced by one of the same cycle.
same_cycle :
    (f : ℕ → Cyccb) (i : ℕ) (v : Cyccb)
    → v.cyctim ≡ (f i).cyctim
    → ((j : ℕ) → 0 < (f j).cyctim)
    → (j : ℕ) → 0 < (update f i v j).cyctim
same_cycle f i v e h j = elim (Bool-cases (j == i)) [
  | inl s ↦ rw (eq_of_== j i s, update_self f i v, e) (h i)
  | inr s ↦ rw (update_ne f i j v (λ p. ne_of_== j i s (sym p))) (h j)
]

start_cyc-Quiet : (now : ℕ) (k : Kernel) (i : ℕ) → Quiet now k → Quiet now (start_cyc k i)
unfolding cyc_timer_insert timer_insert_abs
start_cyc-Quiet now k i c =
    let cb = k.obj.cyccb i in
    let next = cyc_next_time cb.cyctmeb_time cb.cyctim k.current_time in
    let after = (cyc_next_time-Next cb.cyctmeb_time cb.cyctim k.current_time (c.cycling i)).after in
    let now_is = c.time in
    let event : Tmeb = record { time = next; callback = cb_distribute_cychdr i } in
    record {
      time = c.time;
      sorted = (enqueue_tmeb-Placed event k.timer_queue c.sorted).sorted;
      not_due = AllFrom-enqueue (now + 1) event k.timer_queue (omega arith) c.not_due;
      cycling =
          same_cycle (update k.obj.cyccb i (record cb { cyctmeb_time = next })) i _ refl
            (same_cycle k.obj.cyccb i (record cb { cyctmeb_time = next }) refl c.cycling);
    }

check_loop-Quiet :
    (now n : ℕ) (k : Kernel) (i a : ℕ) → Quiet now k → Quiet now (check_loop n k i a).0
unfolding check_loop
check_loop-Quiet now zero k i a c = c
check_loop-Quiet now (suc n) k i a c =
    check_loop-Quiet now n _ (i + 1) _
      (record { time = c.time; sorted = c.sorted; not_due = c.not_due; cycling = c.cycling })

pub check_handler_queue-Quiet :
    (now : ℕ) (k : Kernel) → Quiet now k → Quiet now (check_handler_queue k).0
unfolding check_handler_queue
check_handler_queue-Quiet now k c = check_loop-Quiet now k.num_proc k 0 0 c

module _ (user : ℕ → ℕ → Kernel → Kernel) (now p : ℕ)
    (keeps : (hdr exinf : ℕ) (k : Kernel) → Quiet now k → Quiet now (user hdr exinf k)) where
  Quiet_Lasting : Lasting user (Quiet now)
  Quiet_Lasting = record {
    cyc_starts = start_cyc-Quiet now;
    alm_starts = λ k i c. record {
      time = c.time;
      sorted = c.sorted;
      not_due = c.not_due;
      cycling = c.cycling;
    };
    runs = keeps;
    cyc_ends = λ k i c. record {
      time = c.time;
      sorted = c.sorted;
      not_due = c.not_due;
      cycling = same_cycle k.obj.cyccb i (record (k.obj.cyccb i) { run = false }) refl c.cycling;
    };
    alm_ends = λ k i c. record {
      time = c.time;
      sorted = c.sorted;
      not_due = c.not_due;
      cycling = c.cycling;
    };
  }

  pub handler_execution-Quiet :
      (fuel : ℕ) (k : Kernel) → Quiet now k → InEnd (Quiet now) (handler_execution user fuel k p)
  unfolding handler_execution
  handler_execution-Quiet fuel k c =
      run_handlers-InEnd user (Quiet now) (Quiet now) p
        (λ u e l q n.
          call_handler-Lasting user (Quiet now) e.callback (taken u p l) Quiet_Lasting
            (record { time = n.time; sorted = n.sorted; not_due = n.not_due; cycling = n.cycling }))
        (λ u q n. record {
          time = n.time;
          sorted = n.sorted;
          not_due = n.not_due;
          cycling = n.cycling;
        })
        _ k c
