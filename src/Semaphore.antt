-- ===== src/Semaphore.antt =====
-- kernel/tkernel/smp_src/semaphore.c: the system calls on semaphores. A call takes the processor
-- on which it is made, and returns the kernel's state and the result. `semcnt` and `maxsem` are
-- INTs that are never negative: creation checks 0 <= isemcnt <= maxsem.
pub mod Hooks
pub mod Frame
pub mod Signal
pub mod Wake
pub mod Poll
pub mod Release
pub mod Delete
pub mod Calls
pub mod Create
pub mod Named
pub mod NamedTests
pub mod Tests
use tkernel.Base.{
  ℕ, zero, suc, ◌+◌, ◌-◌, ◌^◌, Bool, true, false, not, ◌&&◌, ◌||◌, Option, none, some, List, [],
  ◌∷◌, ◌++◌, if◌then◌else◌, ◌==◌, ltb, leb, ℤ, pos, negsuc,
}
use tkernel.Kernel.{
  Kernel, Tcb, Semcb, Er, done, e_ok, e_id, e_noexs, e_par, e_ctx, e_qovr, e_diswai, Wspec,
  wspec_sem_tfifo, wspec_sem_tpri, Que, q_sem, set_tcb, set_semcb, has, ta_tpri, ta_cnt, ttw_sem,
  ObjectType, type_sem,
}
use tkernel.Task.{update_schedtsk}
pub use tkernel.Domain.{if_ok}
use tkernel.Domain.{
  chk_id, index_of, mp_check_domain_and_protection, mp_unregister_object_in_domain,
  mp_cmp_domidpart, in_ddsp,
}
use tkernel.Wait.{
  wait_release_ok, wait_delete, wait_tskid, is_diswai, gcb_top_of_wait_queue,
  gcb_make_wait_with_diswai, gcb_change_priority,
}
use Hooks.{sub_semcnt, serve_while, sem_chg_pri}

-- `if ( semcb->semid == 0 ) E_NOEXS else mp_check_domain_and_protection(...)`.
unfoldable pub sem_access : Kernel → ℕ → ℕ → Er
sem_access k prid semid =
    let cb = k.semcb (index_of semid) in
    if cb.semid == 0
    then e_noexs
    else mp_check_domain_and_protection k prid semid cb.semid cb.sematr

-- The loop of `_tk_sig_sem`, over the tasks of the wait queue.
unfoldable pub sig_loop : Kernel → ℕ → List ℕ → Kernel
sig_loop k i [] = k
sig_loop k i (t ∷ l) =
    let skip = sig_loop k i l in
    let k1 = sub_semcnt (wait_release_ok k t) i (k.tcb t).sem_cnt in
    let next = sig_loop k1 i l in
    if ltb (k.semcb i).semcnt (k.tcb t).sem_cnt
    then if has (k.semcb i).sematr ta_cnt then skip else k
    else if leb (k1.semcb i).semcnt 0
    then k1
    else next

unfoldable pub add_semcnt : Kernel → ℕ → ℕ → Kernel
add_semcnt k i cnt = set_semcb k i (record (k.semcb i) { semcnt = (k.semcb i).semcnt + cnt })

-- The critical section of `_tk_sig_sem`, up to its end.
unfoldable pub sig_sem_body : Kernel → ℕ → ℕ → ℕ → Kernel × Er
sig_sem_body k prid semid cnt =
    let i = index_of semid in
    if_ok (sem_access k prid semid) (λ e. (k, e))
      (if ltb ((k.semcb i).maxsem - (k.semcb i).semcnt) cnt
        then (k, e_qovr)
        else (sig_loop (add_semcnt k i cnt) i (k.que (q_sem i)), e_ok))

-- END_CRITICAL_SECTION.
abbrev pub end_critical : Kernel × Er → Kernel × Er
end_critical (k, e) = (update_schedtsk k, e)

-- `_tk_sig_sem`.
unfoldable pub tk_sig_sem : Kernel → ℕ → ℕ → ℤ → Kernel × Er
tk_sig_sem k prid semid (negsuc n) = (k, if chk_id k k.max_semid semid then e_par else e_id)
tk_sig_sem k prid semid (pos cnt) =
    if not (chk_id k k.max_semid semid)
    then (k, e_id)
    else if cnt == 0
    then (k, e_par)
    else end_critical (sig_sem_body k prid semid cnt)

-- The last part of `_tk_wai_sem`, for the running task `t`: take the count, or wait. The result of
-- a call that waits is left in the task's `wercd`; E_TMOUT here is what that holds at first.
unfoldable pub acquire_or_wait : Kernel → ℕ → ℕ → ℕ → ℤ → Kernel × Er
acquire_or_wait k t semid cnt tmout =
    let i = index_of semid in
    let cb = k.semcb i in
    if (has cb.sematr ta_cnt || gcb_top_of_wait_queue k (q_sem i) cb.sematr t == t)
      && leb cnt cb.semcnt
    then (sub_semcnt k i cnt, e_ok)
    else let spec = if has cb.sematr ta_tpri then wspec_sem_tpri else wspec_sem_tfifo in
      let k1 = set_tcb k t (record (k.tcb t) { wspec = spec; wercd = e_ok; sem_cnt = cnt }) in
      let k2 = gcb_make_wait_with_diswai k1 t (q_sem i) cb.semid cb.sematr tmout in
      (k2, (k2.tcb t).wercd)

unfoldable pub wai_sem_body : Kernel → ℕ → ℕ → ℕ → ℕ → ℤ → Kernel × Er
wai_sem_body k prid t semid cnt tmout =
    let i = index_of semid in
    if_ok (sem_access k prid semid) (λ e. (k, e))
      (if ltb (k.semcb i).maxsem cnt
        then (k, e_par)
        else if is_diswai k (k.semcb i).sematr t ttw_sem
        then (k, e_diswai)
        else acquire_or_wait k t semid cnt tmout)

-- CHECK_TMOUT.
abbrev pub chk_tmout : ℤ → Bool
chk_tmout (pos n) = true
chk_tmout (negsuc n) = n == 0

-- `_tk_wai_sem`. CHECK_DISPATCH refuses the call where no task is running, so the case of none is
-- not reached.
unfoldable pub tk_wai_sem : Kernel → ℕ → ℕ → ℤ → ℤ → Kernel × Er
tk_wai_sem k prid semid (negsuc n) tmout = (k, if chk_id k k.max_semid semid then e_par else e_id)
tk_wai_sem k prid semid (pos cnt) tmout =
    if not (chk_id k k.max_semid semid)
    then (k, e_id)
    else if cnt == 0
    then (k, e_par)
    else if not (chk_tmout tmout)
    then (k, e_par)
    else if in_ddsp k prid
    then (k, e_ctx)
    else elim (k.ctxtsk prid) [
      | none ↦ (k, e_ctx)
      | some t ↦ end_critical (wai_sem_body k prid t semid cnt tmout)
    ]

-- `_tk_del_sem`.
unfoldable pub del_sem_body : Kernel → ℕ → ℕ → Kernel × Er
del_sem_body k prid semid =
    let i = index_of semid in
    if_ok (sem_access k prid semid) (λ e. (k, e))
      (let k1 = mp_unregister_object_in_domain (wait_delete k (q_sem i)) semid type_sem i in
        (
          record (set_semcb k1 i (record (k1.semcb i) { semid = 0 })) {
            free_semcb = k1.free_semcb ++ (i ∷ []);
          },
          e_ok,
        ))

unfoldable pub tk_del_sem : Kernel → ℕ → ℕ → Kernel × Er
tk_del_sem k prid semid =
    if not (chk_id k k.max_semid semid) then (k, e_id) else end_critical (del_sem_body k prid semid)

-- `_tk_ref_sem`, without `exinf`: the result, and the waiting task and the count that it writes.
unfoldable pub tk_ref_sem : Kernel → ℕ → ℕ → Er × Option (ℕ × ℕ)
tk_ref_sem k prid semid =
    let i = index_of semid in
    if not (chk_id k k.max_semid semid)
    then (e_id, none)
    else if_ok (sem_access k prid semid) (λ e. (e, none))
        (e_ok, some (wait_tskid k (q_sem i), (k.semcb i).semcnt))

-- `_td_ref_sem`: no check of the protection.
unfoldable pub td_ref_sem : Kernel → ℕ → Er × Option (ℕ × ℕ)
td_ref_sem k semid =
    let i = index_of semid in
    if not (chk_id k k.max_semid semid)
    then (e_id, none)
    else if (k.semcb i).semid == 0
    then (e_noexs, none)
    else if not (mp_cmp_domidpart semid (k.semcb i).semid)
    then (e_noexs, none)
    else (e_ok, some (wait_tskid k (q_sem i), (k.semcb i).semcnt))

-- `_td_lst_sem`: the IDs of the semaphores with an index from `i` on, `n` of them left to look at;
-- at most `room` are written, and all are counted.
unfoldable pub lst_sem : Kernel → ℕ → ℕ → ℕ → List ℕ × ℕ
lst_sem k zero i room = ([], 0)
lst_sem k (suc n) i room =
    let skip = lst_sem k n (i + 1) room in
    let (ids, count) = lst_sem k n (i + 1) (room - 1) in
    if (k.semcb i).semid == 0
    then skip
    else if room == 0
    then (ids, count + 1)
    else ((k.semcb i).semid ∷ ids, count + 1)

unfoldable pub td_lst_sem : Kernel → ℕ → List ℕ × ℕ
td_lst_sem k nent = lst_sem k k.max_semid 0 nent

-- `_td_sem_que`: the IDs of the waiting tasks, `room` of them at most, and their number.
unfoldable pub que_ids : Kernel → List ℕ → ℕ → List ℕ × ℕ
que_ids k [] room = ([], 0)
que_ids k (t ∷ l) room =
    let (ids, count) = que_ids k l (room - 1) in
    if room == 0 then (ids, count + 1) else ((k.tcb t).tskid ∷ ids, count + 1)

unfoldable pub td_sem_que : Kernel → ℕ → ℕ → Er × List ℕ
td_sem_que k semid nent =
    let i = index_of semid in
    if not (chk_id k k.max_semid semid)
    then (e_id, [])
    else if (k.semcb i).semid == 0
    then (e_noexs, [])
    else if not (mp_cmp_domidpart semid (k.semcb i).semid)
    then (e_noexs, [])
    else let (ids, count) = que_ids k (k.que (q_sem i)) nent in (done count, ids)
