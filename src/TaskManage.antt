-- ===== src/TaskManage.antt =====
-- kernel/tkernel/smp_src/task_manage.c: the calls on the time slice, the waits, the statistics and
-- the state of a task, and the rotation of the ready queue; `_td_rdy_que` of task.c. Creation, start,
-- end and resources of tasks are not modelled.
pub mod Names
pub mod Change
pub mod Waits
pub mod Tests
use tkernel.Base.{
  ℕ, zero, suc, ◌+◌, ◌-◌, ◌*◌, ◌^◌, Bool, true, false, not, ◌&&◌, ◌||◌, Option, none, some, List,
  [], ◌∷◌, if◌then◌else◌, ◌==◌, ltb, leb, bit_and, bit_or, length,
}
use tkernel.Kernel.{
  Kernel, Tcb, Tstat, ts_nonexist, ts_ready, ts_wait, ts_suspend, ts_waitsus, ts_dormant,
  is_waiting, Er, done, e_ok, e_id, e_noexs, e_obj, e_par, e_rlwai, e_diswai, q_rdy, set_tcb, has,
  tskwait,
}
use tkernel.Task.{
  is_ctxtsk, rotate_ready_queue, rotate_ready_queue_run, rotate_ready_queue_ctx, update_schedtsk,
}
use tkernel.Domain.{
  if_ok, chk_id, index_of, in_indp, mp_cmp_domidpart, mp_check_domain_and_protection,
}
use tkernel.Domain.Names.{mp_check_domain_and_protection_tsk}
use tkernel.Semaphore.{end_critical}
use tkernel.TaskSync.{tsk_self, check_tskid_self, is_nonexist, tsk_access, get_tcb_self}
use tkernel.Release.{wait_release_ng}
use tkernel.Priority.{is_ts_ready}

-- `if ( state == TS_NONEXIST ) E_NOEXS else mp_check_domain_and_protection_tsk(...)`.
unfoldable pub self_access : Kernel → ℕ → ℕ → ℕ → Er
self_access k prid t tskid =
    if is_nonexist (k.tcb t).state
    then e_noexs
    else mp_check_domain_and_protection_tsk k prid tskid (k.tcb t).tskid (k.tcb t).tskatr

-- The calls that check TSK_SELF and the access, and then do `act` to the task.
abbrev pub on_task : Kernel → ℕ → ℕ → (ℕ → Kernel × Er) → Kernel × Er
on_task k prid tskid act =
    let t = get_tcb_self k prid tskid in
    if not (check_tskid_self k prid tskid)
    then (k, e_id)
    else if_ok (self_access k prid t tskid) (λ e. (k, e)) (act t)

unfoldable pub tk_chg_slt : Kernel → ℕ → ℕ → ℕ → Kernel × Er
tk_chg_slt k prid tskid slicetime =
    on_task k prid tskid (λ t. (set_tcb k t (record (k.tcb t) { slicetime = slicetime }), e_ok))

unfoldable pub tk_ena_wai : Kernel → ℕ → ℕ → Kernel × Er
tk_ena_wai k prid tskid =
    on_task k prid tskid (λ t. (set_tcb k t (record (k.tcb t) { waitmask = 0 }), e_ok))

unfoldable pub tk_get_tid : Kernel → ℕ → ℕ
tk_get_tid k prid = elim (k.ctxtsk prid) [ none ↦ 0 | some t ↦ (k.tcb t).tskid ]

-- CHECK_TSKID.
abbrev pub check_given_tskid : Kernel → ℕ → ℕ → Er
check_given_tskid k prid tskid =
    if not (in_indp k prid) && tskid == tsk_self
    then e_obj
    else if chk_id k k.max_tskid tskid
    then e_ok
    else e_id

unfoldable pub rel_wai_body : Kernel → ℕ → ℕ → Kernel × Er
rel_wai_body k prid tskid =
    let t = index_of tskid in
    if_ok (tsk_access k prid t tskid) (λ e. (k, e))
      (if is_waiting (k.tcb t).state then (wait_release_ng k t e_rlwai, e_ok) else (k, e_obj))

unfoldable pub tk_rel_wai : Kernel → ℕ → ℕ → Kernel × Er
tk_rel_wai k prid tskid =
    if_ok (check_given_tskid k prid tskid) (λ e. (k, e)) (end_critical (rel_wai_body k prid tskid))

-- WAIT_PATTERN: all TTW_ and TTX_SVC.
abbrev pub wait_pattern : ℕ
wait_pattern = 0x80ff7fcf

-- `_tk_dis_wai`, from the update of the mask on. The result is the wait factor of a task that goes on
-- waiting.
unfoldable pub disable_wait : Kernel → ℕ → ℕ → Kernel × Er
disable_wait k t waitmask =
    let k1 = set_tcb k t (record (k.tcb t) { waitmask = waitmask }) in
    if not (is_waiting (k.tcb t).state)
    then (k1, e_ok)
    else if has (tskwait (k.tcb t).wspec) waitmask && not (k.tcb t).nodiswai
    then (wait_release_ng k1 t e_diswai, e_ok)
    else (k1, done (tskwait (k.tcb t).wspec))

unfoldable pub dis_wai_body : Kernel → ℕ → ℕ → ℕ → Kernel × Er
dis_wai_body k prid tskid waitmask =
    let t = get_tcb_self k prid tskid in
    if_ok (self_access k prid t tskid) (λ e. (k, e)) (disable_wait k t waitmask)

unfoldable pub tk_dis_wai : Kernel → ℕ → ℕ → ℕ → Kernel × Er
tk_dis_wai k prid tskid waitmask =
    if not (check_tskid_self k prid tskid)
    then (k, e_id)
    else if not (bit_and waitmask wait_pattern == waitmask && not (waitmask == 0))
    then (k, e_par)
    else end_critical (dis_wai_body k prid tskid waitmask)

-- CHK_PRI with MIN_PRI 1 and MAX_PRI 140, and `int_priority`.
abbrev pub chk_pri : ℕ → Bool
chk_pri pri = leb 1 pri && leb pri 140

abbrev pub int_priority : ℕ → ℕ
int_priority pri = pri - 1

-- `_tk_rot_rdq`; 0 is TPRI_RUN. `none`: the C code reads through a NULL pointer.
unfoldable pub rot_rdq_body : Kernel → ℕ → ℕ → Option Kernel
rot_rdq_body k prid tskpri =
    if not (tskpri == 0)
    then some (rotate_ready_queue k (int_priority tskpri))
    else if in_indp k prid
    then rotate_ready_queue_run k
    else elim (k.ctxtsk prid) [ none ↦ none | some t ↦ some (rotate_ready_queue_ctx k t) ]

unfoldable pub tk_rot_rdq : Kernel → ℕ → ℕ → Option (Kernel × Er)
tk_rot_rdq k prid tskpri =
    if not (tskpri == 0 || chk_pri tskpri)
    then some (k, e_par)
    else elim (rot_rdq_body k prid tskpri) [
      | none ↦ none
      | some k1 ↦ some (update_schedtsk k1, e_ok)
    ]

-- T_ITSK, what `_tk_inf_tsk` and `_td_inf_tsk` do to a task, and the two calls.
pub record Itsk : Type 0 where
  pub stime : ℕ
  pub utime : ℕ

unfoldable pub statistics : Kernel → ℕ → Bool → Kernel × Option Itsk
statistics k t clr =
    let info : Itsk = record { stime = (k.tcb t).stime; utime = (k.tcb t).utime } in
    if clr
    then (set_tcb k t (record (k.tcb t) { stime = 0; utime = 0 }), some info)
    else (k, some info)

unfoldable pub tk_inf_tsk : Kernel → ℕ → ℕ → Bool → Er × (Kernel × Option Itsk)
tk_inf_tsk k prid tskid clr =
    let t = get_tcb_self k prid tskid in
    if not (check_tskid_self k prid tskid)
    then (e_id, (k, none))
    else if_ok (self_access k prid t tskid) (λ e. (e, (k, none))) (e_ok, statistics k t clr)

-- The access of the calls of a debugger.
abbrev pub td_tsk_access : Kernel → ℕ → ℕ → Bool
td_tsk_access k t tskid =
    not (is_nonexist (k.tcb t).state)
    && (tskid == tsk_self || mp_cmp_domidpart tskid (k.tcb t).tskid)

unfoldable pub td_inf_tsk : Kernel → ℕ → ℕ → Bool → Er × (Kernel × Option Itsk)
td_inf_tsk k prid tskid clr =
    let t = get_tcb_self k prid tskid in
    if not (check_tskid_self k prid tskid)
    then (e_id, (k, none))
    else if td_tsk_access k t tskid
    then (e_ok, statistics k t clr)
    else (e_noexs, (k, none))

-- T_RTSK without `exinf`, `tskbpri` and `texmask`, which the model has not.
pub record Rtsk : Type 0 where
  pub tskpri : ℕ
  pub tskstat : ℕ
  pub tskwait : ℕ
  pub wid : ℕ
  pub wupcnt : ℕ
  pub suscnt : ℕ
  pub slicetime : ℕ
  pub waitmask : ℕ
  pub tskevent : ℕ

-- `state << 1`, that is TTS_RDY, TTS_WAI and so on, and TTS_RUN.
abbrev pub tts : Tstat → ℕ
tts ts_nonexist = 0
tts ts_ready = 2
tts ts_wait = 4
tts ts_suspend = 8
tts ts_waitsus = 12
tts ts_dormant = 16

unfoldable pub tskstat_of : Kernel → ℕ → ℕ
tskstat_of k t =
    let c = k.tcb t in
    let shown = if is_ts_ready c.state && is_ctxtsk k t then 1 else tts c.state in
    if is_waiting c.state && c.nodiswai then bit_or shown 0x80 else shown

unfoldable pub refer_tsk : Kernel → ℕ → Rtsk
refer_tsk k t =
    let c = k.tcb t in
    record {
      tskpri = c.priority + 1;
      tskstat = tskstat_of k t;
      tskwait = if is_waiting c.state then tskwait c.wspec else 0;
      wid = if is_waiting c.state then c.wid else 0;
      wupcnt = c.wupcnt;
      suscnt = c.suscnt;
      slicetime = c.slicetime;
      waitmask = c.waitmask;
      tskevent = c.tskevt;
    }

unfoldable pub tk_ref_tsk : Kernel → ℕ → ℕ → Er × Option Rtsk
tk_ref_tsk k prid tskid =
    let t = get_tcb_self k prid tskid in
    if not (check_tskid_self k prid tskid)
    then (e_id, none)
    else if_ok (self_access k prid t tskid) (λ e. (e, none)) (e_ok, some (refer_tsk k t))

-- `_td_ref_tsk`, without the same fields and those of the stacks and of the start.
unfoldable pub td_ref_tsk : Kernel → ℕ → ℕ → Er × Option Rtsk
td_ref_tsk k prid tskid =
    let t = get_tcb_self k prid tskid in
    if not (check_tskid_self k prid tskid)
    then (e_id, none)
    else if td_tsk_access k t tskid
    then (e_ok, some (refer_tsk k t))
    else (e_noexs, none)

-- `_td_rdy_que`: the IDs that it writes, and the number of tasks of the priority.
abbrev list_some : Kernel → ℕ → List ℕ → List ℕ
list_some k zero l = []
list_some k (suc n) [] = []
list_some k (suc n) (t ∷ l) = (k.tcb t).tskid ∷ list_some k n l

unfoldable pub td_rdy_que : Kernel → ℕ → ℕ → Option (List ℕ × ℕ)
td_rdy_que k pri nent =
    let l = k.que (q_rdy (int_priority pri)) in
    if chk_pri pri then some (list_some k nent l, length l) else none
