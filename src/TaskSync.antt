-- ===== src/TaskSync.antt =====
-- kernel/tkernel/smp_src/task_sync.c: suspend and resume, sleep and wakeup, task events. A call takes
-- the processor on which it is made. `suscnt` and `wupcnt` are INTs, numbers below 2^32.
pub mod Resume
pub mod Requeue
pub mod Nest
pub mod Tests
use tkernel.Base.{
  ℕ, zero, suc, ◌+◌, ◌-◌, ◌*◌, ◌/◌, ◌%◌, ◌^◌, Bool, true, false, not, ◌&&◌, ◌||◌, Option, none,
  some, if◌then◌else◌, ◌==◌, ltb, leb, ℤ, pos, negsuc, bit_and, bit_or,
}
use tkernel.Kernel.{
  Kernel, Tcb, Tstat, ts_nonexist, ts_ready, ts_wait, ts_suspend, ts_waitsus, ts_dormant,
  is_waiting, Er, done, e_ok, e_id, e_noexs, e_obj, e_par, e_ctx, e_sys, e_qovr, e_diswai, e_tmout,
  Wspec, wspec_slp, wspec_tev, tskwait, has, set_tcb, ttw_slp,
}
use tkernel.Task.{make_ready, make_non_ready, set_state, is_ctxtsk, get_prid_from_ctx}
use tkernel.Domain.{if_ok, chk_id, index_of, in_indp, in_ddsp, mp_check_domain_and_protection}
use tkernel.Wait.{wait_release_ok, wait_release_ok_ercd, make_wait, is_polling}
use tkernel.Semaphore.{end_critical, chk_tmout}

abbrev pub int_max : ℕ
int_max = 2 ^ 31 - 1

-- TSK_SELF, and the ID of the task that calls (`get_ctxid`).
abbrev pub tsk_self : ℕ
tsk_self = 0

abbrev pub get_ctxid : Kernel → ℕ → ℕ
get_ctxid k prid = elim (k.ctxtsk prid) [ none ↦ 0 | some t ↦ (k.tcb t).tskid ]

-- CHECK_TSKID and CHECK_NONSELF together, E_OK if both pass.
abbrev pub check_tskid : Kernel → ℕ → ℕ → Er
check_tskid k prid tskid =
    if not (in_indp k prid) && tskid == tsk_self
    then e_obj
    else if not (chk_id k k.max_tskid tskid)
    then e_id
    else if not (in_indp k prid) && tskid == get_ctxid k prid
    then e_obj
    else e_ok

-- CHECK_TSKID_SELF.
abbrev pub check_tskid_self : Kernel → ℕ → ℕ → Bool
check_tskid_self k prid tskid =
    (not (in_indp k prid) && tskid == tsk_self) || chk_id k k.max_tskid tskid

abbrev pub is_nonexist : Tstat → Bool
is_nonexist ts_nonexist = true
is_nonexist _ = false

abbrev pub is_dormant : Tstat → Bool
is_dormant ts_dormant = true
is_dormant _ = false

-- `if ( state == TS_NONEXIST ) E_NOEXS else mp_check_domain_and_protection(...)`.
unfoldable pub tsk_access : Kernel → ℕ → ℕ → ℕ → Er
tsk_access k prid t tskid =
    if is_nonexist (k.tcb t).state
    then e_noexs
    else mp_check_domain_and_protection k prid tskid (k.tcb t).tskid (k.tcb t).tskatr

abbrev pub set_suscnt : Kernel → ℕ → ℕ → Kernel
set_suscnt k t n = set_tcb k t (record (k.tcb t) { suscnt = n })

-- `_tk_sus_tsk`: the change of the state.
unfoldable pub suspend : Kernel → ℕ → Tstat → Kernel
suspend k t ts_ready = set_state (make_non_ready k t) t ts_suspend
suspend k t ts_wait = set_state k t ts_waitsus
suspend k t _ = k

-- DDS_DISABLE; 1 is DDS_DISABLE_IMPLICIT.
abbrev pub dds_disable : ℕ
dds_disable = 2

unfoldable pub sus_tsk_body : Kernel → ℕ → ℕ → Kernel × Er
sus_tsk_body k prid tskid =
    let t = index_of tskid in
    if_ok (tsk_access k prid t tskid) (λ e. (k, e))
      (if is_dormant (k.tcb t).state
        then (k, e_obj)
        else if is_ctxtsk k t && leb dds_disable (k.dispatch_disabled (get_prid_from_ctx k t))
        then (k, e_ctx)
        else if (k.tcb t).suscnt == int_max
        then (k, e_qovr)
        else (suspend (set_suscnt k t ((k.tcb t).suscnt + 1)) t (k.tcb t).state, e_ok))

unfoldable pub tk_sus_tsk : Kernel → ℕ → ℕ → Kernel × Er
tk_sus_tsk k prid tskid =
    if_ok (check_tskid k prid tskid) (λ e. (k, e)) (end_critical (sus_tsk_body k prid tskid))

-- `--suscnt`, and the end of a suspension.
abbrev pub dec_suscnt : ℕ → ℕ
dec_suscnt n = (n + 2 ^ 32 - 1) % 2 ^ 32

-- `_tk_rsm_tsk`: the `switch`.
unfoldable pub resume : Kernel → ℕ → Tstat → Kernel × Er
resume k t ts_suspend =
    let k1 = set_suscnt k t (dec_suscnt (k.tcb t).suscnt) in
    (if dec_suscnt (k.tcb t).suscnt == 0 then make_ready k1 t else k1, e_ok)
resume k t ts_waitsus =
    let k1 = set_suscnt k t (dec_suscnt (k.tcb t).suscnt) in
    (if dec_suscnt (k.tcb t).suscnt == 0 then set_state k1 t ts_wait else k1, e_ok)
resume k t ts_nonexist = (k, e_sys)
resume k t _ = (k, e_obj)

unfoldable pub rsm_tsk_body : Kernel → ℕ → ℕ → Kernel × Er
rsm_tsk_body k prid tskid =
    let t = index_of tskid in
    if_ok (tsk_access k prid t tskid) (λ e. (k, e)) (resume k t (k.tcb t).state)

unfoldable pub tk_rsm_tsk : Kernel → ℕ → ℕ → Kernel × Er
tk_rsm_tsk k prid tskid =
    if_ok (check_tskid k prid tskid) (λ e. (k, e)) (end_critical (rsm_tsk_body k prid tskid))

-- `_tk_frsm_tsk`.
unfoldable pub force_resume : Kernel → ℕ → Tstat → Kernel × Er
force_resume k t ts_suspend = (make_ready (set_suscnt k t 0) t, e_ok)
force_resume k t ts_waitsus = (set_state (set_suscnt k t 0) t ts_wait, e_ok)
force_resume k t ts_nonexist = (k, e_sys)
force_resume k t _ = (k, e_obj)

unfoldable pub frsm_tsk_body : Kernel → ℕ → ℕ → Kernel × Er
frsm_tsk_body k prid tskid =
    let t = index_of tskid in
    if_ok (tsk_access k prid t tskid) (λ e. (k, e)) (force_resume k t (k.tcb t).state)

unfoldable pub tk_frsm_tsk : Kernel → ℕ → ℕ → Kernel × Er
tk_frsm_tsk k prid tskid =
    if_ok (check_tskid k prid tskid) (λ e. (k, e)) (end_critical (frsm_tsk_body k prid tskid))

abbrev pub set_wupcnt : Kernel → ℕ → ℕ → Kernel
set_wupcnt k t n = set_tcb k t (record (k.tcb t) { wupcnt = n })

-- A wait for which no object has a queue: `make_wait` and `QueInit(&ctxtsk[prid]->tskque)`. The
-- result of a call that waits is left in the task's `wercd`.
unfoldable pub wait_alone : Kernel → ℕ → Wspec → ℤ → Kernel × Er
wait_alone k t spec tmout =
    let k1 = set_tcb k t (record (k.tcb t) { wspec = spec; wid = 0; wercd = e_tmout }) in
    let k2 = make_wait k1 t tmout 0 in
    if is_polling tmout then (k, e_tmout) else (k2, (k2.tcb t).wercd)

-- `_tk_slp_tsk`, for the running task `t`.
unfoldable pub slp_tsk_body : Kernel → ℕ → ℤ → Kernel × Er
slp_tsk_body k t tmout =
    if has (k.tcb t).waitmask ttw_slp
    then (k, e_diswai)
    else if ltb 0 (k.tcb t).wupcnt
    then (set_wupcnt k t ((k.tcb t).wupcnt - 1), e_ok)
    else wait_alone k t wspec_slp tmout

unfoldable pub tk_slp_tsk : Kernel → ℕ → ℤ → Kernel × Er
tk_slp_tsk k prid tmout =
    if not (chk_tmout tmout)
    then (k, e_par)
    else if in_ddsp k prid
    then (k, e_ctx)
    else elim (k.ctxtsk prid) [ none ↦ (k, e_ctx) | some t ↦ end_critical (slp_tsk_body k t tmout) ]

-- `tcb->wspec == &wspec_slp`.
abbrev pub is_wspec_slp : Wspec → Bool
is_wspec_slp wspec_slp = true
is_wspec_slp _ = false

-- `_tk_wup_tsk`.
unfoldable pub wakeup : Kernel → ℕ → Kernel × Er
wakeup k t =
    if is_dormant (k.tcb t).state
    then (k, e_obj)
    else if is_waiting (k.tcb t).state && is_wspec_slp (k.tcb t).wspec
    then (wait_release_ok k t, e_ok)
    else if (k.tcb t).wupcnt == int_max
    then (k, e_qovr)
    else (set_wupcnt k t ((k.tcb t).wupcnt + 1), e_ok)

unfoldable pub wup_tsk_body : Kernel → ℕ → ℕ → Kernel × Er
wup_tsk_body k prid tskid =
    let t = index_of tskid in if_ok (tsk_access k prid t tskid) (λ e. (k, e)) (wakeup k t)

unfoldable pub tk_wup_tsk : Kernel → ℕ → ℕ → Kernel × Er
tk_wup_tsk k prid tskid =
    if_ok (check_tskid k prid tskid) (λ e. (k, e)) (end_critical (wup_tsk_body k prid tskid))

-- `get_tcb_self`. Task 0 stands for the NULL that it gives where no task runs, which
-- CHECK_TSKID_SELF keeps out.
abbrev pub get_tcb_self : Kernel → ℕ → ℕ → ℕ
get_tcb_self k prid tskid =
    if tskid == tsk_self then (elim (k.ctxtsk prid) [ none ↦ 0 | some t ↦ t ]) else index_of tskid

-- `_tk_can_wup`. It checks the domain of the ID as it is given, TSK_SELF too.
unfoldable pub can_wup_body : Kernel → ℕ → ℕ → Kernel × Er
can_wup_body k prid tskid =
    let t = get_tcb_self k prid tskid in
    if_ok (tsk_access k prid t tskid) (λ e. (k, e))
      (if is_dormant (k.tcb t).state then (k, e_obj) else (set_wupcnt k t 0, done (k.tcb t).wupcnt))

unfoldable pub tk_can_wup : Kernel → ℕ → ℕ → Kernel × Er
tk_can_wup k prid tskid =
    if not (check_tskid_self k prid tskid)
    then (k, e_id)
    else end_critical (can_wup_body k prid tskid)

-- toTTW.
abbrev pub to_ttw : ℕ → ℕ
to_ttw evtmask = evtmask * 2 ^ 16 % 2 ^ 32

-- `word & ~mask` on 32 bits.
abbrev pub clear_events : ℕ → ℕ → ℕ
clear_events word mask = bit_and word (2 ^ 32 - 1 - mask)

-- `_tk_wai_tev`.
unfoldable pub wai_tev_body : Kernel → ℕ → ℕ → ℤ → Kernel × Er
wai_tev_body k t waiptn tmout =
    if has (k.tcb t).waitmask (to_ttw waiptn)
    then (k, e_diswai)
    else if has (k.tcb t).tskevt waiptn
    then (
      set_tcb k t (record (k.tcb t) { tskevt = clear_events (k.tcb t).tskevt waiptn }),
      done (k.tcb t).tskevt,
    )
    else wait_alone k t (wspec_tev (to_ttw waiptn)) tmout

unfoldable pub tk_wai_tev : Kernel → ℕ → ℕ → ℤ → Kernel × Er
tk_wai_tev k prid waiptn tmout =
    if not (chk_tmout tmout)
    then (k, e_par)
    else if not (ltb waiptn 256 && not (waiptn == 0))
    then (k, e_par)
    else if in_ddsp k prid
    then (k, e_ctx)
    else elim (k.ctxtsk prid) [
      | none ↦ (k, e_ctx)
      | some t ↦ end_critical (wai_tev_body k t waiptn tmout)
    ]

-- `_tk_sig_tev`: a task that waits for the event gets all its events, with the new one.
unfoldable pub signal_event : Kernel → ℕ → ℕ → Kernel × Er
signal_event k t evtmsk =
    if is_dormant (k.tcb t).state
    then (k, e_obj)
    else if is_waiting (k.tcb t).state && has (tskwait (k.tcb t).wspec) (to_ttw evtmsk)
    then (wait_release_ok_ercd k t (done (bit_or (k.tcb t).tskevt evtmsk)), e_ok)
    else (set_tcb k t (record (k.tcb t) { tskevt = bit_or (k.tcb t).tskevt evtmsk }), e_ok)

unfoldable pub sig_tev_body : Kernel → ℕ → ℕ → ℕ → Kernel × Er
sig_tev_body k prid tskid evtmsk =
    let t = get_tcb_self k prid tskid in
    if is_nonexist (k.tcb t).state
    then (k, e_noexs)
    else if tskid == tsk_self
    then signal_event k t evtmsk
    else if_ok (mp_check_domain_and_protection k prid tskid (k.tcb t).tskid (k.tcb t).tskatr)
        (λ e. (k, e)) (signal_event k t evtmsk)

unfoldable pub tk_sig_tev : Kernel → ℕ → ℕ → ℕ → Kernel × Er
tk_sig_tev k prid tskid tskevt =
    if not (check_tskid_self k prid tskid)
    then (k, e_id)
    else if not (leb 1 tskevt && leb tskevt 8)
    then (k, e_par)
    else end_critical (sig_tev_body k prid tskid (2 ^ (tskevt - 1)))
