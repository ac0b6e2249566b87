-- ===== src/TaskSync/Resume.antt =====
-- kernel/tkernel/smp_src/task_sync.c: what a suspension and a resumption do in each state.
use tkernel.Base.{ℕ, ◌+◌, ◌<◌, ◌≡◌, ap, ◌∙◌, false, arith, ◌==◌, if◌then◌else◌}
use tkernel.Kernel.{Kernel, Tstat, ts_ready, ts_wait, ts_suspend, ts_waitsus, Er, e_ok}
use tkernel.Task.{make_ready, set_state}
use tkernel.TaskSync.{int_max, dec_suscnt, set_suscnt, suspend, resume}

-- The count of suspensions that goes with a state of a task that exists and is not dormant.
abbrev pub Counted : Tstat → ℕ → Type 0
Counted ts_ready n = n ≡ 0
Counted ts_wait n = n ≡ 0
Counted ts_suspend n = (0 < n) × (n < int_max)
Counted ts_waitsus n = (0 < n) × (n < int_max)
Counted _ n = ⊥

-- The task after a suspension and its end.
abbrev pub suspended : Kernel → ℕ → Kernel
suspended k t = suspend (set_suscnt k t ((k.tcb t).suscnt + 1)) t (k.tcb t).state

abbrev pub resumed : Kernel → ℕ → Kernel × Er
resumed k t = resume k t (k.tcb t).state

-- What a resumption does to a task whose count is one, and above.
pub dec_one : (n : ℕ) → n ≡ 1 → dec_suscnt n ≡ 0
dec_one n h = omega arith

pub dec_more : (n m : ℕ) → n ≡ m + 1 → m < int_max → dec_suscnt n ≡ m
dec_more n m h lt = omega arith

pub resume_wait :
    (w : Kernel) (t : ℕ)
    → (w.tcb t).state ≡ ts_waitsus
    → (w.tcb t).suscnt ≡ 1
    → resumed w t ≡ (set_state (set_suscnt w t 0) t ts_wait, e_ok)
unfolding resume
resume_wait w t e z =
    ap (resume w t) e
    ∙ ap
        (λ d. ((if d == 0 then set_state (set_suscnt w t d) t ts_wait else set_suscnt w t d), e_ok))
        (dec_one _ z)

pub resume_ready :
    (w : Kernel) (t : ℕ)
    → (w.tcb t).state ≡ ts_suspend
    → (w.tcb t).suscnt ≡ 1
    → resumed w t ≡ (make_ready (set_suscnt w t 0) t, e_ok)
unfolding resume
resume_ready w t e z =
    ap (resume w t) e
    ∙ ap (λ d. ((if d == 0 then make_ready (set_suscnt w t d) t else set_suscnt w t d), e_ok))
        (dec_one _ z)

pub still_up : (n : ℕ) → 0 < n → (n == 0) ≡ false
still_up n h = ground arith

pub resume_waitsus :
    (w : Kernel) (t n : ℕ)
    → (w.tcb t).state ≡ ts_waitsus
    → (w.tcb t).suscnt ≡ n + 1
    → 0 < n
    → n < int_max
    → resumed w t ≡ (set_suscnt w t n, e_ok)
unfolding resume
resume_waitsus w t n e z lo hi =
    ap (resume w t) e
    ∙ ap
        (λ d. ((if d == 0 then set_state (set_suscnt w t d) t ts_wait else set_suscnt w t d), e_ok))
        (dec_more _ n z hi)
    ∙ ap (λ b. ((if b then set_state (set_suscnt w t n) t ts_wait else set_suscnt w t n), e_ok))
        (still_up n lo)

pub resume_suspend :
    (w : Kernel) (t n : ℕ)
    → (w.tcb t).state ≡ ts_suspend
    → (w.tcb t).suscnt ≡ n + 1
    → 0 < n
    → n < int_max
    → resumed w t ≡ (set_suscnt w t n, e_ok)
unfolding resume
resume_suspend w t n e z lo hi =
    ap (resume w t) e
    ∙ ap (λ d. ((if d == 0 then make_ready (set_suscnt w t d) t else set_suscnt w t d), e_ok))
        (dec_more _ n z hi)
    ∙ ap (λ b. ((if b then make_ready (set_suscnt w t n) t else set_suscnt w t n), e_ok))
        (still_up n lo)
