-- ===== src/ReadyQueue/Tests.antt =====
-- The theorems on the ready queue at a concrete kernel.
use tkernel.Base.{refl, inl, inr, arith, ◌==◌, Bool-cases, eq_of_==, sym}
use tkernel.Sample.{sample}
use tkernel.ReadyQueue.{ready_queue_insert}
use tkernel.ReadyQueue.Levels.{flatten, IsReadyQueue, ready_queue_insert-IsReadyQueue}

sample-IsReadyQueue : IsReadyQueue sample
unfolding flatten
sample-IsReadyQueue = record {
  ranked =
      λ p. elim (Bool-cases (p == 5)) [ inl e ↦ rw e (sym (eq_of_== p 5 e), tt) | inr e ↦ rw e tt ];
  top_first = refl;
}

ready_queue_insert-IsReadyQueue_example : IsReadyQueue (ready_queue_insert sample 8)
ready_queue_insert-IsReadyQueue_example =
    ready_queue_insert-IsReadyQueue sample 8 (omega arith) sample-IsReadyQueue
