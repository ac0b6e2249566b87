-- ===== src/EventFlag.antt =====
-- kernel/tkernel/smp_src/eventflag.c: the system calls on event flags. A pattern is a number below
-- 2^32, and `p_flgptn` an address in the memory of the caller.
pub mod Answer
pub mod Set
pub mod Calls
pub mod Names
pub mod Create
pub mod Tests
use tkernel.Base.{
  ℕ, zero, suc, ◌+◌, ◌-◌, ◌^◌, Bool, true, false, not, ◌&&◌, Option, none, some, List, [], ◌∷◌,
  ◌++◌, if◌then◌else◌, ◌==◌, bit_and, bit_or, bit_xor, ℤ,
}
use tkernel.Kernel.{
  Kernel, Tcb, Flgcb, Er, done, e_ok, e_id, e_noexs, e_par, e_ctx, e_obj, e_diswai, Wspec,
  wspec_flg_tfifo, wspec_flg_tpri, Que, q_flg, set_tcb, set_flgcb, has, ta_tpri, ta_wmul, ttw_flg,
  type_flg,
}
use tkernel.Kernel.Queue.{is_que_empty}
use tkernel.Str.{store_word}
use tkernel.Domain.{
  if_ok, chk_id, index_of, mp_check_domain_and_protection, mp_unregister_object_in_domain, in_ddsp,
}
use tkernel.Wait.{
  wait_release_ok, wait_delete, wait_tskid, is_diswai, gcb_make_wait_with_diswai,
  gcb_change_priority,
}
use tkernel.Semaphore.{end_critical, chk_tmout}

abbrev pub twf_orw : ℕ
twf_orw = 0x1

abbrev pub twf_clr : ℕ
twf_clr = 0x10

abbrev pub twf_bitclr : ℕ
twf_bitclr = 0x20

-- `a & ~b` on words of 32 bits.
abbrev pub and_not : ℕ → ℕ → ℕ
and_not a b = bit_and a (bit_xor b (2 ^ 32 - 1))

-- `eventflag_cond`.
unfoldable pub eventflag_cond : ℕ → ℕ → ℕ → Bool
eventflag_cond flgptn waiptn wfmode =
    if has wfmode twf_orw then has flgptn waiptn else bit_and flgptn waiptn == waiptn

-- `flg_chg_pri`. The old priority is not used.
unfoldable pub flg_chg_pri : Kernel → ℕ → Kernel
flg_chg_pri k t = gcb_change_priority k (q_flg (index_of (k.tcb t).wid)) t

-- `if ( flgcb->flgid == 0 ) E_NOEXS else mp_check_domain_and_protection(...)`.
unfoldable pub flg_access : Kernel → ℕ → ℕ → Er
flg_access k prid flgid =
    let cb = k.flgcb (index_of flgid) in
    if cb.flgid == 0
    then e_noexs
    else mp_check_domain_and_protection k prid flgid cb.flgid cb.flgatr

abbrev pub set_flgptn : Kernel → ℕ → ℕ → Kernel
set_flgptn k i ptn = set_flgcb k i (record (k.flgcb i) { flgptn = ptn })

-- `*p_flgptn = flgcb->flgptn;`
abbrev pub put_flgptn : Kernel → ℕ → ℕ → Kernel
put_flgptn k p ptn = record k { mem = store_word k.mem p ptn }

-- The loop of `_tk_set_flg`, over the tasks of the wait queue.
unfoldable pub set_loop : Kernel → ℕ → List ℕ → Kernel
set_loop k i [] = k
set_loop k i (t ∷ l) =
    let ptn = (k.flgcb i).flgptn in
    let waiptn = (k.tcb t).flg_waiptn in
    let wfmode = (k.tcb t).flg_wfmode in
    let skip = set_loop k i l in
    let k1 = wait_release_ok (put_flgptn k (k.tcb t).flg_p_flgptn ptn) t in
    let k2 = set_flgptn k1 i (and_not ptn waiptn) in
    let next1 = set_loop k1 i l in
    let next2 = set_loop k2 i l in
    if not (eventflag_cond ptn waiptn wfmode)
    then skip
    else if has wfmode twf_bitclr
    then if and_not ptn waiptn == 0
      then k2
      else if has wfmode twf_clr
      then set_flgptn k2 i 0
      else next2
    else if has wfmode twf_clr
    then set_flgptn k1 i 0
    else next1

-- `_tk_set_flg`.
unfoldable pub set_flg_body : Kernel → ℕ → ℕ → ℕ → Kernel × Er
set_flg_body k prid flgid setptn =
    let i = index_of flgid in
    if_ok (flg_access k prid flgid) (λ e. (k, e))
      (set_loop (set_flgptn k i (bit_or (k.flgcb i).flgptn setptn)) i (k.que (q_flg i)), e_ok)

unfoldable pub tk_set_flg : Kernel → ℕ → ℕ → ℕ → Kernel × Er
tk_set_flg k prid flgid setptn =
    if not (chk_id k k.max_flgid flgid)
    then (k, e_id)
    else end_critical (set_flg_body k prid flgid setptn)

-- `_tk_clr_flg`, which ends with END_CRITICAL_NO_DISPATCH.
unfoldable pub tk_clr_flg : Kernel → ℕ → ℕ → ℕ → Kernel × Er
tk_clr_flg k prid flgid clrptn =
    let i = index_of flgid in
    if not (chk_id k k.max_flgid flgid)
    then (k, e_id)
    else if_ok (flg_access k prid flgid) (λ e. (k, e))
        (set_flgptn k i (bit_and (k.flgcb i).flgptn clrptn), e_ok)

-- The clearing of the pattern in `_tk_wai_flg`.
unfoldable pub clear_flg : ℕ → ℕ → ℕ → ℕ
clear_flg ptn waiptn wfmode =
    if has wfmode twf_clr then 0 else if has wfmode twf_bitclr then and_not ptn waiptn else ptn

-- The last part of `_tk_wai_flg`, for the running task `t`. As for a semaphore, the result of a call
-- that waits is left in the task's `wercd`.
unfoldable pub meet_or_wait : Kernel → ℕ → ℕ → ℕ → ℕ → ℕ → ℤ → Kernel × Er
meet_or_wait k t flgid waiptn wfmode p_flgptn tmout =
    let i = index_of flgid in
    let cb = k.flgcb i in
    if eventflag_cond cb.flgptn waiptn wfmode
    then (set_flgptn (put_flgptn k p_flgptn cb.flgptn) i (clear_flg cb.flgptn waiptn wfmode), e_ok)
    else let spec = if has cb.flgatr ta_tpri then wspec_flg_tpri else wspec_flg_tfifo in
      let k1 = set_tcb k t (record (k.tcb t) {
        wspec = spec;
        wercd = e_ok;
        flg_waiptn = waiptn;
        flg_wfmode = wfmode;
        flg_p_flgptn = p_flgptn;
      }) in
      let k2 = gcb_make_wait_with_diswai k1 t (q_flg i) cb.flgid cb.flgatr tmout in
      (k2, (k2.tcb t).wercd)

unfoldable pub wai_flg_body : Kernel → ℕ → ℕ → ℕ → ℕ → ℕ → ℕ → ℤ → Kernel × Er
wai_flg_body k prid t flgid waiptn wfmode p_flgptn tmout =
    let i = index_of flgid in
    if_ok (flg_access k prid flgid) (λ e. (k, e))
      (if not (has (k.flgcb i).flgatr ta_wmul) && not (is_que_empty (k.que (q_flg i)))
        then (k, e_obj)
        else if is_diswai k (k.flgcb i).flgatr t ttw_flg
        then (k, e_diswai)
        else meet_or_wait k t flgid waiptn wfmode p_flgptn tmout)

-- `_tk_wai_flg`, with CHECK_DISPATCH as in `tk_wai_sem`.
unfoldable pub tk_wai_flg : Kernel → ℕ → ℕ → ℕ → ℕ → ℕ → ℤ → Kernel × Er
tk_wai_flg k prid flgid waiptn wfmode p_flgptn tmout =
    if not (chk_id k k.max_flgid flgid)
    then (k, e_id)
    else if waiptn == 0
    then (k, e_par)
    else if not (and_not wfmode (twf_orw + twf_clr + twf_bitclr) == 0)
    then (k, e_par)
    else if not (chk_tmout tmout)
    then (k, e_par)
    else if in_ddsp k prid
    then (k, e_ctx)
    else elim (k.ctxtsk prid) [
      | none ↦ (k, e_ctx)
      | some t ↦ end_critical (wai_flg_body k prid t flgid waiptn wfmode p_flgptn tmout)
    ]

-- `_tk_del_flg`.
unfoldable pub del_flg_body : Kernel → ℕ → ℕ → Kernel × Er
del_flg_body k prid flgid =
    let i = index_of flgid in
    if_ok (flg_access k prid flgid) (λ e. (k, e))
      (let k1 = mp_unregister_object_in_domain (wait_delete k (q_flg i)) flgid type_flg i in
        (
          record (set_flgcb k1 i (record (k1.flgcb i) { flgid = 0 })) {
            free_flgcb = k1.free_flgcb ++ (i ∷ []);
          },
          e_ok,
        ))

unfoldable pub tk_del_flg : Kernel → ℕ → ℕ → Kernel × Er
tk_del_flg k prid flgid =
    if not (chk_id k k.max_flgid flgid) then (k, e_id) else end_critical (del_flg_body k prid flgid)

-- `_tk_ref_flg`, without `exinf`: the result, and the waiting task and the pattern that it writes.
unfoldable pub tk_ref_flg : Kernel → ℕ → ℕ → Er × Option (ℕ × ℕ)
tk_ref_flg k prid flgid =
    let i = index_of flgid in
    if not (chk_id k k.max_flgid flgid)
    then (e_id, none)
    else if_ok (flg_access k prid flgid) (λ e. (e, none))
        (e_ok, some (wait_tskid k (q_flg i), (k.flgcb i).flgptn))
