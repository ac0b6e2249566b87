-- ===== src/Release/Expiry.antt =====
-- kernel/tkernel/smp_src/timer.c: what the callbacks, the handlers and `timer_handler` do to the timer
-- queue.
use mathlib.Core.Option
use tkernel.Base.{
  ℕ, ◌+◌, ◌<◌, ◌≡◌, refl, ◌∙◌, Option, some, arith, Bool-cases, inl, inr, length, subst, ap, ◌==◌,
}
use tkernel.Kernel.{Kernel}
use tkernel.Timer.Order.{IsSorted}
use tkernel.Task.{update_schedtsk}
use tkernel.Task.Frame.{update_schedtsk-Frame}
use tkernel.Handler.{check_handler_queue, handler_request, handler_update}
use tkernel.Handler.Calls.{InEnd, Limited, queue_of, handler_execution-Drained}
use tkernel.Handler.Quiet.{Quiet, Cycling, check_handler_queue-Quiet, handler_execution-Quiet}
use tkernel.Release.{tick, after_events, timer_handler}
use tkernel.Release.Events.{run_events-Fired, tick-Shrinks}

-- Handlers that, whatever calls they make, leave the time alone, and a timer queue without a due event
-- as such, and that queue a limited number of handlers on processor `p`.
pub record Orderly (user : ℕ → ℕ → Kernel → Kernel) (p now : ℕ) (more : Kernel → ℕ) : Type 0 where
  pub limited : Limited user p more
  pub keeps : (hdr exinf : ℕ) (k : Kernel) → Quiet now k → Quiet now (user hdr exinf k)

-- A call that returns a state in which no event is due.
pub record Expired (now : ℕ) (r : Option Kernel) : Type 0 where
  pub end : Kernel
  pub returns : r ≡ some end
  pub quiet : Quiet now end

update_schedtsk-Expired :
    (now : ℕ) (r : Option Kernel) → Expired now r → Expired now (Option.map update_schedtsk r)
update_schedtsk-Expired now r x =
    let f = update_schedtsk-Frame x.end in
    record {
      end = update_schedtsk x.end;
      returns = ap (Option.map update_schedtsk) x.returns;
      quiet = record {
        time = f.time_same ∙ x.quiet.time;
        sorted = rw f.timer_same x.quiet.sorted;
        not_due = rw f.timer_same x.quiet.not_due;
        cycling = rw f.obj_same x.quiet.cycling;
      };
    }

handler_request-Quiet :
    (now : ℕ) (k : Kernel) (prid assprc : ℕ)
    → Quiet now k
    → Quiet now (handler_request k prid assprc).0
unfolding handler_request
handler_request-Quiet now k prid assprc c = record {
  time = c.time;
  sorted = c.sorted;
  not_due = c.not_due;
  cycling = c.cycling;
}

-- The state in which a processor begins to call handlers after the events.
abbrev begun : ℕ → Kernel → Kernel
begun prid k = let (k1, assprc) = check_handler_queue k in (handler_request k1 prid assprc).0

after_events-Expired :
    (user : ℕ → ℕ → Kernel → Kernel) (more : Kernel → ℕ) (fuel prid now : ℕ) (k : Kernel)
    → Orderly user prid now more
    → Quiet now k
    → length (queue_of prid (begun prid k)) + more (begun prid k) < fuel
    → Expired now (after_events user fuel prid k)
unfolding after_events handler_update
after_events-Expired user more fuel prid now k o c f =
    let (k1, assprc) = check_handler_queue k in
    let k2 = (handler_request k1 prid assprc).0 in
    let quiet = check_handler_queue-Quiet now k c in
    let ready = handler_request-Quiet now k1 prid assprc quiet in
    let run = handler_execution-Drained user prid more o.limited fuel k2 f in
    let kept = handler_execution-Quiet user now prid o.keeps fuel k2 ready in
    update_schedtsk-Expired now _ (elim (Bool-cases (assprc == 0)) [
      | inl nobody ↦ rw nobody (record { end = k1; returns = refl; quiet = quiet })
      | inr asked ↦ elim (Bool-cases (handler_request k1 prid assprc).1) [
        | inl own ↦
            rw (asked, own)
              (record {
                end = run.end;
                returns = run.returns;
                quiet = subst (InEnd (Quiet now)) run.returns kept;
              })
        | inr other ↦ rw (asked, other) (record { end = k2; returns = refl; quiet = ready })
      ]
    ])

-- The timer interrupt, with the handlers that it calls, returns, with some fuel and with all that is
-- more: one period later, with a timer queue that is sorted and holds no event that is due by then,
-- provided that this queue was sorted by time, that the cycles of the cyclic handlers are above 0, and
-- that the handlers, while they run, leave the time alone, keep the timer queue sorted and free of due
-- events and the cycles above 0, and queue a limited number of handlers on this processor.
pub timer_handler-Expired :
    (user : ℕ → ℕ → Kernel → Kernel) (more : Kernel → ℕ) (prid : ℕ) (k : Kernel)
    → IsSorted k.timer_queue
    → Cycling k
    → Orderly user prid (k.current_time + k.timer_period) more
    → (fuel : ℕ) × ((extra : ℕ)
        → Expired (k.current_time + k.timer_period) (timer_handler user (fuel + extra) prid k))
unfolding timer_handler
timer_handler-Expired user more prid k s cycling o =
    let c = tick-Shrinks k in
    let f = c.fewer in
    let n = length k.timer_queue + 1 in
    let x = run_events-Fired prid n (tick k) (tick k).timer_queue refl (omega arith) (c.sorted s) in
    let quiet : Quiet (k.current_time + k.timer_period) x.end = record {
      time = x.time ∙ c.time;
      sorted = x.sorted;
      not_due = rw (← c.time) x.not_due;
      cycling = rw (x.cyc, c.cyc) cycling;
    } in
    let due = length (queue_of prid (begun prid x.end)) + more (begun prid x.end) in
    (
      due + 1,
      λ extra.
          rw (timer_handler, x.returns)
            (after_events-Expired user more (due + 1 + extra) prid _ x.end o quiet (omega arith)),
    )
