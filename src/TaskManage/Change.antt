-- ===== src/TaskManage/Change.antt =====
-- kernel/tkernel/smp_src/task_manage.c: `_tk_chg_pri`, for which mutexes set limits.
use tkernel.Base.{ℕ, ◌%◌, ◌^◌, not, ◌||◌, if◌then◌else◌, ◌==◌}
use tkernel.Kernel.{Kernel, Er, done, e_ok, e_id, e_par, set_tcb}
use tkernel.Domain.{if_ok}
use tkernel.Semaphore.{end_critical}
use tkernel.TaskSync.{check_tskid_self, get_tcb_self}
use tkernel.Priority.{change_task_priority}
use tkernel.Mutex.{chg_pri_mutex}
use tkernel.TaskManage.{self_access, chk_pri, int_priority}

-- The new base priority, and with it the priority.
unfoldable pub set_base : Kernel → ℕ → ℕ → Er → Kernel × Er
set_base k t priority (done p) = (
  change_task_priority (set_tcb k t (record (k.tcb t) { bpriority = priority % 2 ^ 8 })) t p,
  e_ok,
)
set_base k t priority e = (k, e)

-- 0 is TPRI_INI.
abbrev pub new_priority : Kernel → ℕ → ℕ → ℕ
new_priority k t tskpri = if tskpri == 0 then (k.tcb t).ipriority else int_priority tskpri

unfoldable pub chg_pri_body : Kernel → ℕ → ℕ → ℕ → Kernel × Er
chg_pri_body k prid tskid tskpri =
    let t = get_tcb_self k prid tskid in
    let priority = new_priority k t tskpri in
    if_ok (self_access k prid t tskid) (λ e. (k, e))
      (set_base k t priority (chg_pri_mutex k t priority))

unfoldable pub tk_chg_pri : Kernel → ℕ → ℕ → ℕ → Kernel × Er
tk_chg_pri k prid tskid tskpri =
    if not (check_tskid_self k prid tskid)
    then (k, e_id)
    else if not (tskpri == 0 || chk_pri tskpri)
    then (k, e_par)
    else end_critical (chg_pri_body k prid tskid tskpri)
