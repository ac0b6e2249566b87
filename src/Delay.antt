-- ===== src/Delay.antt =====
-- kernel/tkernel/smp_src/time_calls.c: the delay of a task.
use tkernel.Base.{ℕ, none, some, if◌then◌else◌, ◌==◌}
use tkernel.Kernel.{Kernel, Er, e_ok, e_ctx, e_diswai, wspec_dly, ttw_dly, set_tcb, has}
use tkernel.Domain.{in_ddsp}
use tkernel.Wait.{make_wait_reltim}
use tkernel.Semaphore.{end_critical}

-- The wait of the running task `t`. `QueInit` makes `tskque` a ring of its own.
unfoldable pub delay : Kernel → ℕ → ℕ → Kernel × Er
delay k t dlytim =
    let k1 = set_tcb k t (record (k.tcb t) { wspec = wspec_dly; wid = 0; wercd = e_ok }) in
    let k2 = make_wait_reltim k1 t dlytim 0 in
    if has (k.tcb t).waitmask ttw_dly then (k, e_diswai) else (k2, (k2.tcb t).wercd)

-- `_tk_dly_tsk`.
unfoldable pub tk_dly_tsk : Kernel → ℕ → ℕ → Kernel × Er
tk_dly_tsk k prid dlytim =
    if in_ddsp k prid
    then (k, e_ctx)
    else if dlytim == 0
    then (k, e_ok)
    else elim (k.ctxtsk prid) [ none ↦ (k, e_ctx) | some t ↦ end_critical (delay k t dlytim) ]
