-- ===== src/Handler/Queues.antt =====
-- kernel/tkernel/smp_src/time_calls.c: the handler queues of the processors.
use tkernel.Base.{
  ℕ, zero, suc, ◌+◌, ◌≤◌, ◌<◌, ◌≡◌, refl, sym, arith, Bool, true, false, Bool-cases, inl, inr,
  update_self, update_ne, ◌==◌, eq_of_==, ne_of_==, if◌then◌else◌, not, ◌&&◌,
}
use tkernel.Kernel.{Kernel, Hdrque}
use tkernel.Handler.{check_loop}

-- A queue as the check leaves it.
abbrev pub checked : Hdrque → Hdrque
checked hq = record hq { upd = false; act = if hq.upd && not hq.act then true else hq.act }

-- The check asks the processor to call the handlers.
abbrev pub raised : Hdrque → Bool
raised hq = hq.upd && not hq.act

-- The check of processors from `i` on leaves the queues below `i` alone.
check_loop_below :
    (n : ℕ) (k : Kernel) (i a p : ℕ)
    → p < i
    → (check_loop n k i a).0.obj.handler_queue p ≡ k.obj.handler_queue p
unfolding check_loop
check_loop_below zero k i a p h = refl
check_loop_below (suc n) k i a p h =
    rw (check_loop_below n _ (i + 1) _ p (omega arith))
      (update_ne k.obj.handler_queue i p _ (λ e. absurd (omega arith)))

pub check_loop-checked :
    (n : ℕ) (k : Kernel) (i a p : ℕ)
    → i ≤ p
    → p < i + n
    → (check_loop n k i a).0.obj.handler_queue p ≡ checked (k.obj.handler_queue p)
unfolding check_loop
check_loop-checked zero k i a p h l = absurd (omega arith)
check_loop-checked (suc n) k i a p h l = elim (Bool-cases (p == i)) [
  | inl e ↦
      let same = eq_of_== p i e in
      rw (same, check_loop_below n _ (i + 1) _ i (omega arith))
        (update_self k.obj.handler_queue i _)
  | inr e ↦
      let other = ne_of_== p i e in
      rw
        (
          check_loop-checked n _ (i + 1) _ p (ground arith) (omega arith),
          update_ne k.obj.handler_queue i p (checked (k.obj.handler_queue i)) (λ s. other (sym s)),
        )
        refl
]

-- The check leaves the processors and the pending interrupts alone.
pub check_loop-elsewhere :
    (n : ℕ) (k : Kernel) (i a : ℕ)
    → ((check_loop n k i a).0.num_proc ≡ k.num_proc)
      × ((check_loop n k i a).0.obj.ipi_hdr ≡ k.obj.ipi_hdr)
unfolding check_loop
check_loop-elsewhere zero k i a = (refl, refl)
check_loop-elsewhere (suc n) k i a = check_loop-elsewhere n _ (i + 1) _
