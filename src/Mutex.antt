-- ===== src/Mutex.antt =====
-- kernel/tkernel/smp_src/mutex.c: mutexes. What a lock does to the priority of the task that holds it
-- is in Priority.
pub mod Names
pub mod Create
pub mod Lock
pub mod Limits
pub mod Tests
use tkernel.Base.{
  ℕ, zero, suc, ◌+◌, ◌-◌, Bool, true, false, not, ◌&&◌, Option, none, some, List, [], ◌∷◌, ◌++◌,
  if◌then◌else◌, ◌==◌, ltb, ℤ, bit_and,
}
use tkernel.Kernel.{
  Kernel, Tcb, Mtxcb, Er, done, e_ok, e_id, e_noexs, e_par, e_ctx, e_diswai, e_tmout, e_iluse,
  Wspec, wspec_mtx_tfifo, wspec_mtx_tpri, wspec_mtx_inherit, q_mtx, set_tcb, set_mtxcb, is_waiting,
  has, tskwait, ttw_mtx, type_mtx,
}
use tkernel.Kernel.Queue.{que_insert}
use tkernel.Domain.{
  if_ok, chk_id, index_of, mp_check_domain_and_protection, mp_unregister_object_in_domain, in_ddsp,
  in_indp,
}
use tkernel.Wait.{
  wait_release_ok, wait_delete, wait_tskid, is_diswai, make_wait, queue_insert_tpri, is_polling,
}
use tkernel.Semaphore.{end_critical, chk_tmout}
use tkernel.Schedule.Assign.{same_task}
use tkernel.Priority.{is_ceiling, is_inherit, mutex_pri, change_task_priority, release_mutex}

-- `if ( mtxcb->mtxid == 0 ) E_NOEXS else mp_check_domain_and_protection(...)`.
unfoldable pub mtx_access : Kernel → ℕ → ℕ → Er
mtx_access k prid mtxid =
    let cb = k.obj.mtxcb (index_of mtxid) in
    if cb.mtxid == 0
    then e_noexs
    else mp_check_domain_and_protection k prid mtxid cb.mtxid cb.mtxatr

-- The loop of `chg_pri_mutex`: `hi_pri` and `low_pri`.
unfoldable pub limits_loop : Kernel → ℕ → ℕ → ℕ → List ℕ → ℕ × ℕ
limits_loop k hi_pri low_pri pri [] = (hi_pri, low_pri)
limits_loop k hi_pri low_pri pri (i ∷ l) =
    let cb = k.obj.mtxcb i in
    let p = mutex_pri k pri i in
    let low = if is_ceiling cb && ltb low_pri p then p else low_pri in
    limits_loop k (if ltb p hi_pri then p else hi_pri) low p l

-- The limit by the mutex for which the task waits; `int_priority(MIN_PRI)` is 0.
unfoldable pub waited_limit : Kernel → ℕ → ℕ
waited_limit k t =
    let cb = k.obj.mtxcb (index_of (k.tcb t).wid) in
    if is_waiting (k.tcb t).state && has (tskwait (k.tcb t).wspec) ttw_mtx
    then (if is_ceiling cb then cb.ceilpri else 0)
    else 0

-- `chg_pri_mutex`: the priority that the task then gets, or E_ILUSE.
unfoldable pub chg_pri_mutex : Kernel → ℕ → ℕ → Er
chg_pri_mutex k t priority =
    let (hi_pri, low_pri) = limits_loop k priority (waited_limit k t) priority (k.tcb t).mtxlist in
    if ltb priority low_pri then e_iluse else done hi_pri

-- The last part of `_tk_unl_mtx`, and the body of the loop of `signal_all_mutex`: the first task that
-- waits gets the lock.
unfoldable pub raise_to_ceiling : Kernel → ℕ → ℕ → Kernel
raise_to_ceiling k t i =
    let cb = k.obj.mtxcb i in
    if is_ceiling cb && ltb cb.ceilpri (k.tcb t).priority
    then change_task_priority k t cb.ceilpri
    else k

abbrev pub set_mtxtsk : Kernel → ℕ → Option ℕ → Kernel
set_mtxtsk k i o = set_mtxcb k i (record (k.obj.mtxcb i) { mtxtsk = o })

-- The task becomes the one that has locked the mutex.
abbrev pub take_mutex : Kernel → ℕ → ℕ → Kernel
take_mutex k t i =
    let k1 = set_mtxtsk k i (some t) in
    set_tcb k1 t (record (k1.tcb t) { mtxlist = i ∷ (k1.tcb t).mtxlist })

unfoldable pub hand_over : Kernel → ℕ → Kernel
hand_over k i = elim (k.que (q_mtx i)) [
  | [] ↦ set_mtxtsk k i none
  | t ∷ l ↦ raise_to_ceiling (take_mutex (wait_release_ok k t) t i) t i
]

unfoldable pub signal_mutexes : Kernel → List ℕ → Kernel
signal_mutexes k [] = k
signal_mutexes k (i ∷ l) = signal_mutexes (hand_over k i) l

unfoldable pub signal_all_mutex : Kernel → ℕ → Kernel
signal_all_mutex k t = signal_mutexes k (k.tcb t).mtxlist

-- `_tk_del_mtx`.
unfoldable pub del_mtx_body : Kernel → ℕ → ℕ → Kernel × Er
del_mtx_body k prid mtxid =
    let i = index_of mtxid in
    let k1 : Kernel = elim (k.obj.mtxcb i).mtxtsk [
      | none ↦ k
      | some t ↦ release_mutex k t (some i)
    ] in
    if_ok (mtx_access k prid mtxid) (λ e. (k, e))
      (let k2 = mp_unregister_object_in_domain (wait_delete k1 (q_mtx i)) mtxid type_mtx i in
        let k3 = set_mtxcb k2 i (record (k2.obj.mtxcb i) { mtxid = 0 }) in
        (record k3 { obj = record k3.obj { free_mtxcb = k3.obj.free_mtxcb ++ (i ∷ []) } }, e_ok))

unfoldable pub tk_del_mtx : Kernel → ℕ → ℕ → Kernel × Er
tk_del_mtx k prid mtxid =
    if not (chk_id k k.obj.max_mtxid mtxid)
    then (k, e_id)
    else end_critical (del_mtx_body k prid mtxid)

-- The wait of `_tk_loc_mtx`, for the running task `t`; `mtxtsk` is the task that has the lock.
unfoldable pub inherit_priority : Kernel → ℕ → ℕ → ℕ → Kernel
inherit_priority k t i mtxtsk =
    if is_inherit (k.obj.mtxcb i) && ltb (k.tcb t).priority (k.tcb mtxtsk).priority
    then change_task_priority k mtxtsk (k.tcb t).priority
    else k

abbrev pub mtx_wspec : Mtxcb → Wspec
mtx_wspec cb =
    if bit_and cb.mtxatr 3 == 0
    then wspec_mtx_tfifo
    else if is_inherit cb
    then wspec_mtx_inherit
    else wspec_mtx_tpri

unfoldable pub wait_for_mutex : Kernel → ℕ → ℕ → ℕ → ℤ → Kernel × Er
wait_for_mutex k t i mtxtsk tmout =
    let cb = k.obj.mtxcb i in
    let k1 = inherit_priority k t i mtxtsk in
    let c1 = record (k1.tcb t) { wspec = mtx_wspec cb; wercd = e_tmout; wid = cb.mtxid } in
    let k2 = make_wait (set_tcb k1 t c1) t tmout cb.mtxatr in
    let k3 =
      if bit_and cb.mtxatr 3 == 0
      then que_insert k2 (q_mtx i) t
      else queue_insert_tpri k2 t (q_mtx i) in
    if is_polling tmout then (k, e_tmout) else (k3, (k3.tcb t).wercd)

-- `_tk_loc_mtx` from the test for the second lock on.
unfoldable pub lock_or_wait : Kernel → ℕ → ℕ → ℤ → Kernel × Er
lock_or_wait k t i tmout =
    let cb = k.obj.mtxcb i in
    if same_task cb.mtxtsk (some t)
    then (k, e_iluse)
    else if is_ceiling cb && ltb (k.tcb t).bpriority cb.ceilpri
    then (k, e_iluse)
    else if is_diswai k cb.mtxatr t ttw_mtx
    then (k, e_diswai)
    else elim cb.mtxtsk [
      | none ↦ (raise_to_ceiling (take_mutex k t i) t i, e_ok)
      | some mtxtsk ↦ wait_for_mutex k t i mtxtsk tmout
    ]

unfoldable pub loc_mtx_body : Kernel → ℕ → ℕ → ℕ → ℤ → Kernel × Er
loc_mtx_body k prid t mtxid tmout =
    if_ok (mtx_access k prid mtxid) (λ e. (k, e)) (lock_or_wait k t (index_of mtxid) tmout)

unfoldable pub tk_loc_mtx : Kernel → ℕ → ℕ → ℤ → Kernel × Er
tk_loc_mtx k prid mtxid tmout =
    if not (chk_id k k.obj.max_mtxid mtxid)
    then (k, e_id)
    else if not (chk_tmout tmout)
    then (k, e_par)
    else if in_ddsp k prid
    then (k, e_ctx)
    else elim (k.ctxtsk prid) [
      | none ↦ (k, e_ctx)
      | some t ↦ end_critical (loc_mtx_body k prid t mtxid tmout)
    ]

-- `_tk_unl_mtx`.
unfoldable pub unlock : Kernel → ℕ → ℕ → Kernel × Er
unlock k t i =
    if same_task (k.obj.mtxcb i).mtxtsk (some t)
    then (hand_over (release_mutex k t (some i)) i, e_ok)
    else (k, e_iluse)

unfoldable pub unl_mtx_body : Kernel → ℕ → ℕ → ℕ → Kernel × Er
unl_mtx_body k prid t mtxid =
    if_ok (mtx_access k prid mtxid) (λ e. (k, e)) (unlock k t (index_of mtxid))

unfoldable pub tk_unl_mtx : Kernel → ℕ → ℕ → Kernel × Er
tk_unl_mtx k prid mtxid =
    if not (chk_id k k.obj.max_mtxid mtxid)
    then (k, e_id)
    else if in_indp k prid
    then (k, e_ctx)
    else elim (k.ctxtsk prid) [
      | none ↦ (k, e_ctx)
      | some t ↦ end_critical (unl_mtx_body k prid t mtxid)
    ]

-- `_tk_ref_mtx`: the task that has the lock, and the first that waits.
abbrev pub refer_mtx : Kernel → ℕ → ℕ × ℕ
refer_mtx k i =
    (elim (k.obj.mtxcb i).mtxtsk [ none ↦ 0 | some t ↦ (k.tcb t).tskid ], wait_tskid k (q_mtx i))

unfoldable pub tk_ref_mtx : Kernel → ℕ → ℕ → Er × Option (ℕ × ℕ)
tk_ref_mtx k prid mtxid =
    if not (chk_id k k.obj.max_mtxid mtxid)
    then (e_id, none)
    else if_ok (mtx_access k prid mtxid) (λ e. (e, none))
        (e_ok, some (refer_mtx k (index_of mtxid)))
