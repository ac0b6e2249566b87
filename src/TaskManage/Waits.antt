-- ===== src/TaskManage/Waits.antt =====
-- kernel/tkernel/smp_src/task_manage.c: `_tk_dis_wai` ends the waits that it disables, and
-- `_tk_rel_wai` ends every wait.
use tkernel.Base.{
  ℕ, ◌≡◌, refl, ap, ◌∙◌, Bool, true, false, not, ◌&&◌, Bool-cases, inl, inr, bit_and, ◌==◌, ==-refl,
}
use tkernel.Kernel.{Kernel, Tcb, e_ok, e_rlwai, e_diswai, is_waiting, has, tskwait, set_tcb}
use tkernel.Priority.Stays.{trim}
use tkernel.Task.Frame.{update_schedtsk-Frame}
use tkernel.Wait.Frame.{released_tcb}
use tkernel.Domain.{index_of}
use tkernel.TaskSync.{check_tskid_self, get_tcb_self, tsk_access}
use tkernel.Release.{wait_release_ng}
use tkernel.Release.Ended.{wait_release_ng_lem, after_release_wakes}
use tkernel.TaskManage.{
  self_access, wait_pattern, disable_wait, dis_wai_body, tk_dis_wai, check_given_tskid,
  rel_wai_body, tk_rel_wai,
}

-- The task waits for something that `mask` disables, in a wait that may be disabled.
abbrev pub waits_for : Tcb → ℕ → Bool
waits_for c mask = is_waiting c.state && (has (tskwait c.wspec) mask && not c.nodiswai)

disable_wait-Ended :
    (k : Kernel) (t mask : ℕ) → waits_for ((disable_wait k t mask).0.tcb t) mask ≡ false
unfolding disable_wait
disable_wait-Ended k t mask =
    let c = k.tcb t in
    let k1 = set_tcb k t (record (k.tcb t) { waitmask = mask }) in
    elim (Bool-cases (is_waiting c.state)) [
      | inr idle ↦ rw (idle, ==-refl t, idle) refl
      | inl waiting ↦ elim (Bool-cases (has (tskwait c.wspec) mask && not c.nodiswai)) [
        | inr stays ↦ rw (waiting, stays, ==-refl t, waiting, stays) refl
        | inl ends ↦
            rw (waiting, ends)
              (ap (λ d. waits_for d mask) (wait_release_ng_lem k1 t e_diswai)
                ∙ rw (after_release_wakes (k1.tcb t).state) refl)
      ]
    ]

-- When `_tk_dis_wai` accepts the ID and the mask and the task may be accessed, the task is not in a
-- wait that the mask disables afterwards, unless the wait must not be disabled (TA_NODISWAI).
pub tk_dis_wai-Ended :
    (k : Kernel) (prid tskid mask : ℕ)
    → check_tskid_self k prid tskid ≡ true
    → (bit_and mask wait_pattern == mask && not (mask == 0)) ≡ true
    → self_access k prid (get_tcb_self k prid tskid) tskid ≡ e_ok
    → waits_for ((tk_dis_wai k prid tskid mask).0.tcb (get_tcb_self k prid tskid)) mask ≡ false
unfolding tk_dis_wai dis_wai_body
tk_dis_wai-Ended k prid tskid mask id par access =
    let t = get_tcb_self k prid tskid in
    rw (id, par, access)
      (ap (λ d. waits_for d mask) ((update_schedtsk-Frame (disable_wait k t mask).0).tcb_same t)
        ∙ disable_wait-Ended k t mask)

rel_wai_body_lem :
    (k : Kernel) (prid tskid : ℕ)
    → tsk_access k prid (index_of tskid) tskid ≡ e_ok
    → is_waiting (k.tcb (index_of tskid)).state ≡ true
    → rel_wai_body k prid tskid ≡ (wait_release_ng k (index_of tskid) e_rlwai, e_ok)
unfolding rel_wai_body
rel_wai_body_lem k prid tskid access waiting = rw (access, waiting) refl

-- When `_tk_rel_wai` accepts the ID and the task may be accessed and is waiting, the call returns
-- E_OK, and the task is READY or only suspended, with E_RLWAI as the result of its wait; nothing else
-- of it has changed but its priority and what scheduling writes.
pub tk_rel_wai-Ended :
    (k : Kernel) (prid tskid : ℕ)
    → check_given_tskid k prid tskid ≡ e_ok
    → tsk_access k prid (index_of tskid) tskid ≡ e_ok
    → is_waiting (k.tcb (index_of tskid)).state ≡ true
    → ((tk_rel_wai k prid tskid).1 ≡ e_ok)
      × (trim ((tk_rel_wai k prid tskid).0.tcb (index_of tskid))
          ≡ trim (released_tcb (k.tcb (index_of tskid)) e_rlwai))
unfolding tk_rel_wai
tk_rel_wai-Ended k prid tskid id access waiting =
    let t = index_of tskid in
    rw (id, rel_wai_body_lem k prid tskid access waiting)
      (
        refl,
        ap (λ c. trim c) ((update_schedtsk-Frame (wait_release_ng k t e_rlwai)).tcb_same t)
            ∙ wait_release_ng_lem k t e_rlwai,
      )
