-- ===== src/Timer.antt =====
-- kernel/tkernel/smp_src/timer.c and timer.h: the queue of timer events, in the order of their
-- times. A time is a plain number of milliseconds since the start; `longlong` holds some 290
-- million years of them, and the sums below do not wrap.
pub mod Tests
pub mod Order
pub mod Shrunk
pub mod Blocks
use tkernel.Base.{
  ℕ, zero, suc, ◌+◌, ◌-◌, Bool, true, false, Option, none, some, List, [], ◌∷◌, if◌then◌else◌, ◌==◌,
  ltb, ℤ, pos, negsuc,
}
use tkernel.Kernel.{Kernel, Tmeb, Callback, cb_wait_release_tmout}

-- `enqueue_tmeb`: in front of the first event of a later time.
unfoldable pub enqueue_tmeb : Tmeb → List Tmeb → List Tmeb
enqueue_tmeb event [] = event ∷ []
enqueue_tmeb event (q ∷ l) =
    let rest = enqueue_tmeb event l in if ltb event.time q.time then event ∷ q ∷ l else q ∷ rest

-- `timer_insert(&tcb->wtmeb, tmout, wait_release_tmout, tcb)`. -1 is TMO_FEVR; CHECK_TMOUT keeps
-- out what is below.
unfoldable pub timer_insert : Kernel → ℕ → ℤ → Kernel
timer_insert k t (negsuc n) = k
timer_insert k t (pos tmout) = record k {
  timer_queue =
      enqueue_tmeb
        (record {
          time = k.current_time + tmout + k.timer_period;
          callback = cb_wait_release_tmout t;
        })
        k.timer_queue;
}

-- `timer_insert_reltim`.
unfoldable pub timer_insert_reltim : Kernel → ℕ → ℕ → Kernel
timer_insert_reltim k t tmout = record k {
  timer_queue =
      enqueue_tmeb
        (record {
          time = k.current_time + tmout + k.timer_period;
          callback = cb_wait_release_tmout t;
        })
        k.timer_queue;
}

-- `timer_insert_abs`.
unfoldable pub timer_insert_abs : Kernel → ℕ → Callback → Kernel
timer_insert_abs k time callback = record k {
  timer_queue = enqueue_tmeb (record { time = time; callback = callback }) k.timer_queue;
}

abbrev pub is_event_of : ℕ → Callback → Bool
is_event_of t (cb_wait_release_tmout u) = u == t
is_event_of t _ = false

unfoldable pub drop_events : ℕ → List Tmeb → List Tmeb
drop_events t [] = []
drop_events t (e ∷ l) =
    let rest = drop_events t l in if is_event_of t e.callback then rest else e ∷ rest

-- `timer_delete(&tcb->wtmeb)`: a task has one event block.
unfoldable pub timer_delete : Kernel → ℕ → Kernel
timer_delete k t = record k { timer_queue = drop_events t k.timer_queue }

-- `timer_delete` of the event block of a handler, in the ring that holds it: the events with a
-- callback of which `own` is true are those of the block.
unfoldable pub unlink : (Callback → Bool) → List Tmeb → List Tmeb
unlink own [] = []
unlink own (e ∷ l) = let rest = unlink own l in if own e.callback then rest else e ∷ rest

unfoldable pub unlink_block : Kernel → (Callback → Bool) → Kernel
unlink_block k own = record k {
  timer_queue = unlink own k.timer_queue;
  obj = record k.obj {
    handler_queue =
        λ p. let hq = k.obj.handler_queue p in record hq { hdrque = unlink own hq.hdrque };
  };
}
