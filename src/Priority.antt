-- ===== src/Priority.antt =====
-- The change of a task's priority: `change_task_priority` of kernel/tkernel/smp_src/task.c, the
-- functions that it calls by way of `chg_pri_hook` (the WSPECs of semaphore.c, eventflag.c,
-- messagebuf.c, mempfix.c, mailbox.c and mutex.c), and `release_mutex`, `mtx_chg_pri` and
-- `mtx_rel_wai` of mutex.c, through which the change goes on to the task that has locked a mutex.
-- A number is a priority in the kernel's form: 0 is the highest.
pub mod Highest
pub mod Settle
pub mod Stays
pub mod Bystander
use tkernel.Base.{
  ℕ, zero, suc, ◌+◌, ◌*◌, ◌%◌, ◌^◌, Bool, true, false, not, ◌&&◌, Option, none, some, List, [], ◌∷◌,
  if◌then◌else◌, ◌==◌, ltb, bit_and,
}
use tkernel.Kernel.{
  Kernel, Tcb, Mtxcb, Tstat, ts_ready, is_waiting, set_tcb, Wspec, wspec_sem_tpri, wspec_flg_tpri,
  wspec_smbf_tpri, wspec_mpf_tpri, wspec_mbx_tpri, wspec_mtx_tpri, wspec_mtx_inherit, q_mtx, q_mbx,
}
use tkernel.Kernel.Queue.{remove}
use tkernel.ReadyQueue.{ready_queue_insert, ready_queue_delete}
use tkernel.Domain.{index_of}
use tkernel.Wait.{gcb_change_priority}
use tkernel.Semaphore.Hooks.{sem_chg_pri}
use tkernel.EventFlag.{flg_chg_pri}
use tkernel.MessageBuffer.{mbf_chg_pri}
use tkernel.FixedPool.{mpf_chg_pri}

-- `mtxatr & TA_CEILING`, which is 3, compared with TA_CEILING and with TA_INHERIT.
abbrev pub is_ceiling : Mtxcb → Bool
is_ceiling cb = bit_and cb.mtxatr 3 == 3

abbrev pub is_inherit : Mtxcb → Bool
is_inherit cb = bit_and cb.mtxatr 3 == 2

-- The `switch` of `release_mutex` and of `chg_pri_mutex`: the new value of `pri`. `mtx_waited` and
-- `mtx_head_pri` are the two cases of the wait queue.
unfoldable pub mutex_pri : Kernel → ℕ → ℕ → ℕ
mutex_pri k pri i =
    let waited : ℕ = elim (k.que (q_mtx i)) [ [] ↦ pri | t ∷ l ↦ (k.tcb t).priority ] in
    if is_ceiling (k.obj.mtxcb i)
    then (k.obj.mtxcb i).ceilpri
    else if is_inherit (k.obj.mtxcb i)
    then waited
    else pri

-- The loop of `release_mutex` on the mutexes that stay in the list.
unfoldable pub newpri_loop : Kernel → ℕ → ℕ → List ℕ → ℕ
newpri_loop k newpri pri [] = newpri
newpri_loop k newpri pri (i ∷ l) =
    let p = mutex_pri k pri i in newpri_loop k (if ltb p newpri then p else newpri) p l

-- `relmtxcb` leaves the list; none is NULL.
abbrev pub unlist : Kernel → ℕ → Option ℕ → Kernel
unlist k t none = k
unlist k t (some i) = set_tcb k t (record (k.tcb t) { mtxlist = remove i (k.tcb t).mtxlist })

abbrev pub highest : Kernel → ℕ → ℕ
highest k t = newpri_loop k (k.tcb t).bpriority (k.tcb t).bpriority (k.tcb t).mtxlist

-- `release_mutex`, where `change` is `change_task_priority`.
unfoldable pub release_with : (Kernel → ℕ → ℕ → Kernel) → Kernel → ℕ → Option ℕ → Kernel
release_with change k t relmtx =
    let k1 = unlist k t relmtx in
    if highest k1 t == (k1.tcb t).priority then k1 else change k1 t (highest k1 t)

-- `mtx_chg_pri`. A mutex for which a task waits is locked: in the case of none, which C does not test,
-- it reads through NULL.
unfoldable pub mtx_chg_pri_with : (Kernel → ℕ → ℕ → Kernel) → Kernel → ℕ → ℕ → Kernel
mtx_chg_pri_with change k t oldpri =
    let i = index_of (k.tcb t).wid in
    let k1 = gcb_change_priority k (q_mtx i) t in
    let inherited : Kernel = elim (k1.obj.mtxcb i).mtxtsk [
      | none ↦ k1
      | some mtxtsk ↦
          if ltb (k1.tcb t).priority (k1.tcb mtxtsk).priority
          then change k1 mtxtsk (k1.tcb t).priority
          else if (k1.tcb mtxtsk).priority == oldpri
          then release_with change k1 mtxtsk none
          else k1
    ] in
    if is_inherit (k1.obj.mtxcb i) then inherited else k1

-- `mbx_chg_pri`.
unfoldable pub mbx_chg_pri : Kernel → ℕ → Kernel
mbx_chg_pri k t = gcb_change_priority k (q_mbx (index_of (k.tcb t).wid)) t

-- `chg_pri_hook`, where it is not NULL.
unfoldable pub chg_pri_hook : (Kernel → ℕ → ℕ → Kernel) → Wspec → Kernel → ℕ → ℕ → Kernel
chg_pri_hook change wspec_sem_tpri k t oldpri = sem_chg_pri k t (some oldpri)
chg_pri_hook change wspec_flg_tpri k t oldpri = flg_chg_pri k t
chg_pri_hook change wspec_smbf_tpri k t oldpri = mbf_chg_pri k t (some oldpri)
chg_pri_hook change wspec_mpf_tpri k t oldpri = mpf_chg_pri k t
chg_pri_hook change wspec_mbx_tpri k t oldpri = mbx_chg_pri k t
chg_pri_hook change wspec_mtx_tpri k t oldpri = mtx_chg_pri_with change k t oldpri
chg_pri_hook change wspec_mtx_inherit k t oldpri = mtx_chg_pri_with change k t oldpri
chg_pri_hook change _ k t oldpri = k

abbrev pub is_ts_ready : Tstat → Bool
is_ts_ready ts_ready = true
is_ts_ready _ = false

-- `tcb->priority = (UB)priority`.
abbrev pub set_priority : Kernel → ℕ → ℕ → Kernel
set_priority k t p = set_tcb k t (record (k.tcb t) { priority = p % 2 ^ 8 })

-- `change_task_priority`, on fuel for the chain of mutexes; the change ends when it is used up.
unfoldable pub change_on : ℕ → Kernel → ℕ → ℕ → Kernel
change_on zero k t priority = k
change_on (suc n) k t priority =
    if is_ts_ready (k.tcb t).state
    then ready_queue_insert (set_priority (ready_queue_delete k t) t priority) t
    else if is_waiting (k.tcb t).state
    then chg_pri_hook (change_on n) (k.tcb t).wspec (set_priority k t priority) t (k.tcb t).priority
    else set_priority k t priority

-- The fuel: a chain goes up and down once through all tasks.
abbrev pub chain_fuel : Kernel → ℕ
chain_fuel k = suc (2 * k.max_tskid + 1)

unfoldable pub change_task_priority : Kernel → ℕ → ℕ → Kernel
change_task_priority k t priority = change_on (chain_fuel k) k t priority

unfoldable pub release_mutex : Kernel → ℕ → Option ℕ → Kernel
release_mutex k t relmtx = release_with change_task_priority k t relmtx

-- `mtx_rel_wai`. As in `mtx_chg_pri`, the mutex is locked.
unfoldable pub mtx_rel_wai : Kernel → ℕ → Kernel
mtx_rel_wai k t = elim (k.obj.mtxcb (index_of (k.tcb t).wid)).mtxtsk [
  | none ↦ k
  | some mtxtsk ↦
      if (k.tcb mtxtsk).priority == (k.tcb t).priority then release_mutex k mtxtsk none else k
]
