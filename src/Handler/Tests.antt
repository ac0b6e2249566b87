-- ===== src/Handler/Tests.antt =====
-- The theorems on handlers at a concrete kernel, in which an alarm is due.
use tkernel.Base.{
  true, ℕ, ◌+◌, ◌-◌, ◌≤◌, ◌≡◌, refl, arith, ap, Bool-cases, inl, inr, if◌then◌else◌, List, [], ◌∷◌,
  ◌++◌, length, Option, none, some, leb, leb→le, update_self,
}
use tkernel.Kernel.{Kernel, Tmeb, Hdrque, cb_call_almhdr}
use tkernel.Sample.{sample}
use tkernel.Timer.{timer_insert_abs}
use tkernel.Handler.{
  cyc_timer_insert, enqueue_handler, check_handler_queue, handler_request, handler_execution,
  handler_interrupt, cyc_next_time,
}
use tkernel.Handler.Next.{Next, cyc_next_time-Next}
use tkernel.Handler.Live.{Live}
use tkernel.Handler.Calls.{Drained, Limited, queue_of, handler_execution-Drained}

abbrev alarm : Tmeb
alarm = record { time = 0; callback = cb_call_almhdr 0 }

-- A handler that does nothing.
abbrev no_work : ℕ → ℕ → Kernel → Kernel
no_work hdr exinf k = k

abbrev due : Kernel
due = enqueue_handler sample 1 alarm

-- Processor 0 has checked the queues and asked processor 1.
abbrev sent : Kernel
sent = (handler_request (check_handler_queue due).0 0 (check_handler_queue due).1).0

abbrev state_of : Option Kernel → Kernel
state_of none = sample
state_of (some k) = k

abbrev ended : Kernel
ended = state_of (handler_interrupt no_work 2 sent 1)

-- Two periods of 100 have passed since 30, and 330 is the next start.
cyc_next_time-Next_example : Next 30 100 250 (cyc_next_time 30 100 250)
cyc_next_time-Next_example = cyc_next_time-Next 30 100 250 (omega arith)

-- A handler that queues the alarm on processor 1 once more for each count left of semaphore 0.
abbrev spare : Kernel → ℕ
spare k = (k.semcb 0).semcnt

abbrev requeue : ℕ → ℕ → Kernel → Kernel
requeue hdr exinf k =
    let k1 = enqueue_handler k 1 alarm in
    if leb 1 (spare k)
    then record k1 { semcb = λ i. record (k.semcb i) { semcnt = (k.semcb i).semcnt - 1 } }
    else k

length-snoc : (l : List Tmeb) (e : Tmeb) → length (l ++ (e ∷ [])) ≡ length l + 1
length-snoc [] e = refl
length-snoc (x ∷ l) e = ap (λ n. n + 1) (length-snoc l e)

requeue-Limited : Limited requeue 1 spare
unfolding enqueue_handler cyc_timer_insert timer_insert_abs
requeue-Limited = record {
  runs = λ hdr exinf k. elim (Bool-cases (leb 1 (spare k))) [
    | inl e ↦
        let some_left = leb→le 1 (spare k) e in
        let longer : length (queue_of 1 (enqueue_handler k 1 alarm))
            ≡ length (queue_of 1 k ++ (alarm ∷ [])) =
          ap (λ (hq : Hdrque). length hq.hdrque)
            (update_self k.obj.handler_queue 1 (record (k.obj.handler_queue 1) {
              hdrque = queue_of 1 k ++ (alarm ∷ []);
              upd = true;
            })) in
        let grown = length-snoc (queue_of 1 k) alarm in
        rw e (
          let z : length (queue_of 1 (enqueue_handler k 1 alarm)) + (spare k - 1)
              ≤ length (queue_of 1 k) + spare k =
            omega (arith, some_left, longer, grown) in
          z)
    | inr e ↦ rw e (omega arith)
  ];
  takes = λ k l. omega arith;
  cyc_starts = λ k i. omega arith;
  alm_starts = λ k i. omega arith;
  cyc_ends = λ k i. omega arith;
  alm_ends = λ k i. omega arith;
}

handler_execution-Drained_example : Drained requeue 1 due (handler_execution requeue 9 due 1)
unfolding enqueue_handler
handler_execution-Drained_example =
    handler_execution-Drained requeue 1 spare requeue-Limited 9 due (omega arith)
