-- ===== src/Handler/Moves.antt =====
-- kernel/tkernel/smp_src/time_calls.c and kernel/sysdepend/cpu/smp_naviengine/cpu_status.h: the work of
-- the processors on the handler queues, with the interrupts between them.
use tkernel.Base.{ℕ, ◌<◌, ◌≡◌, Bool, true, some}
use tkernel.Kernel.{Kernel, Tmeb}
use tkernel.Handler.{enqueue_handler, check_handler_queue, handler_interrupt, handler_update}
use tkernel.Handler.Live.{Live}

-- The processors' work on the handler queues, in any order: a handler is queued; processor `prid`
-- checks the queues, sends the interrupts and calls its own handlers; or it takes the interrupt that
-- is pending for it. A run of handlers is one that returns, with any fuel.
pub data Moves (user : ℕ → ℕ → Kernel → Kernel) (n : ℕ) : Kernel → Kernel → Type 0 where
  rest : {k : Kernel} → Moves user n k k
  queued :
      {k k' : Kernel} (p : ℕ) (event : Tmeb)
      → Moves user n (enqueue_handler k p event) k'
      → Moves user n k k'
  updated :
      {k k1 k' : Kernel} (prid fuel : ℕ)
      → prid < n
      → handler_update user fuel (check_handler_queue k).0 prid (check_handler_queue k).1 ≡ some k1
      → Moves user n k1 k'
      → Moves user n k k'
  interrupted :
      {k k1 k' : Kernel} (prid fuel : ℕ)
      → prid < n
      → k.obj.ipi_hdr prid ≡ true
      → handler_interrupt user fuel k prid ≡ some k1
      → Moves user n k1 k'
      → Moves user n k k'

-- Handlers that keep the marks in step, whichever processors run: they may queue handlers, check the
-- queues and send interrupts themselves.
abbrev pub KeepsLive : (ℕ → ℕ → Kernel → Kernel) → ℕ → Type 0
KeepsLive user n =
    (r : ℕ → Bool) (hdr exinf : ℕ) (k : Kernel) → Live n r k → Live n r (user hdr exinf k)
