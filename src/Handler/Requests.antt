-- ===== src/Handler/Requests.antt =====
-- kernel/tkernel/smp_src/time_calls.c and kernel/sysdepend/cpu/smp_naviengine/cpu_status.h: a check of
-- the handler queues with the requests that follow from it.
use tkernel.Base.{
  ℕ, ◌+◌, ◌^◌, ◌≤◌, ◌<◌, ◌≡◌, ◌≢◌, refl, sym, ap, ◌∙◌, subst, arith, Bool, true, false, ◌&&◌, ◌||◌,
  Bool-cases, inl, inr, if◌then◌else◌, ◌==◌, eq_of_==, ne_of_==, update, update_self, update_ne,
}
use tkernel.Kernel.{Kernel, has}
use tkernel.Handler.{check_handler_queue, handler_request}
use tkernel.Handler.Queues.{checked, raised, check_loop-checked, check_loop-elsewhere}
use tkernel.Handler.Asked.{check_handler_queue-asked, no_request}
use tkernel.Handler.Live.{LiveAt, Live, keeps_live, starts_live, raised-idle}

-- The processors that run after processor `prid` was asked with `assprc`.
abbrev pub runs_after : (ℕ → Bool) → ℕ → ℕ → ℕ → Bool
runs_after r prid assprc = if has assprc (2 ^ prid) then update r prid true else r

-- A check, with the requests that follow from it.
module _ (n : ℕ) (small : n ≤ 4) (r : ℕ → Bool) (k : Kernel) (h : Live n r k) where
  abbrev assprc : ℕ
  assprc = (check_handler_queue k).1

  asked : (p : ℕ) → p < n → has assprc (2 ^ p) ≡ raised (k.obj.handler_queue p)
  asked p l =
      check_handler_queue-asked k p (subst (λ m. m ≤ 4) (sym h.procs) small)
        (subst (λ m. p < m) (sym h.procs) l)

  checked_at :
      (p : ℕ)
      → p < n
      → (check_handler_queue k).0.obj.handler_queue p ≡ checked (k.obj.handler_queue p)
  unfolding check_handler_queue
  checked_at p l =
      check_loop-checked k.num_proc k 0 0 p (omega arith)
        (subst (λ m. p < 0 + m) (sym h.procs) (omega arith))

  still_procs : (check_handler_queue k).0.num_proc ≡ n
  unfolding check_handler_queue
  still_procs = (check_loop-elsewhere k.num_proc k 0 0).0 ∙ h.procs

  still_pending : (check_handler_queue k).0.obj.ipi_hdr ≡ k.obj.ipi_hdr
  unfolding check_handler_queue
  still_pending = (check_loop-elsewhere k.num_proc k 0 0).1

  -- Where nobody is asked, nothing changes but the marks for the check.
  unasked_at :
      (p : ℕ)
      → p < n
      → has assprc (2 ^ p) ≡ false
      → LiveAt
          ((check_handler_queue k).0.obj.handler_queue p)
          ((check_handler_queue k).0.obj.ipi_hdr p)
          (r p)
  unasked_at p l e =
      rw (checked_at p l, still_pending)
        (keeps_live (k.obj.handler_queue p) (k.obj.ipi_hdr p) (r p) (sym (asked p l) ∙ e)
          (h.at p l))

  pub unasked-Live : assprc ≡ 0 → Live n r (check_handler_queue k).0
  unasked-Live e = record {
    procs = still_procs;
    at = λ p l. unasked_at p l (ap (λ a. has a (2 ^ p)) e ∙ no_request p (omega arith));
  }

  pub idle_at :
      (p : ℕ)
      → p < n
      → has assprc (2 ^ p) ≡ true
      → ((check_handler_queue k).0.obj.ipi_hdr p ≡ false) × (r p ≡ false)
  idle_at p l e =
      let i =
        raised-idle (k.obj.handler_queue p) (k.obj.ipi_hdr p) (r p) (sym (asked p l) ∙ e)
          (h.at p l) in
      (ap (λ f. f p) still_pending ∙ i.0, i.1)

  -- The processor that is asked starts to run, with its interrupt or at once.
  asked_at :
      (p : ℕ) (pending running : Bool)
      → p < n
      → has assprc (2 ^ p) ≡ true
      → (pending || running) ≡ true
      → (pending && running) ≡ false
      → LiveAt ((check_handler_queue k).0.obj.handler_queue p) pending running
  asked_at p pending running l e w o =
      rw (checked_at p l)
        (starts_live (k.obj.handler_queue p) pending running (sym (asked p l) ∙ e) w o)

  requested_own :
      (prid : ℕ)
      → prid < n
      → LiveAt
          ((check_handler_queue k).0.obj.handler_queue prid)
          ((check_handler_queue k).0.obj.ipi_hdr prid)
          (runs_after r prid assprc prid)
  requested_own prid l = elim (Bool-cases (has assprc (2 ^ prid))) [
    | inl e ↦
        rw (e, update_self r prid true, (idle_at prid l e).0)
          (asked_at prid false true l e refl refl)
    | inr e ↦ rw e (unasked_at prid l e)
  ]

  requested_other :
      (prid p : ℕ)
      → p < n
      → p ≢ prid
      → LiveAt
          ((check_handler_queue k).0.obj.handler_queue p)
          (if has assprc (2 ^ p) then true else (check_handler_queue k).0.obj.ipi_hdr p)
          (r p)
  requested_other prid p l ne = elim (Bool-cases (has assprc (2 ^ p))) [
    | inl e ↦ rw (e, (idle_at p l e).1) (asked_at p true false l e refl refl)
    | inr e ↦ rw e (unasked_at p l e)
  ]

  pub requested-Live :
      (prid : ℕ)
      → prid < n
      → Live n (runs_after r prid assprc) (handler_request (check_handler_queue k).0 prid assprc).0
  unfolding handler_request
  requested-Live prid l = record {
    procs = still_procs;
    at = λ p lt. elim (Bool-cases (p == prid)) [
      | inl e ↦ let s = eq_of_== p prid e in rw (e, s) (requested_own prid l)
      | inr e ↦ let ne = ne_of_== p prid e in rw (e, others p ne) (requested_other prid p lt ne)
    ];
  }
    where
      others : (p : ℕ) → p ≢ prid → runs_after r prid assprc p ≡ r p
      others p ne = elim (Bool-cases (has assprc (2 ^ prid))) [
        | inl e ↦ rw e (update_ne r prid p true (λ s. ne (sym s)))
        | inr e ↦ rw e refl
      ]
