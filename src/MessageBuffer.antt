-- ===== src/MessageBuffer.antt =====
-- kernel/tkernel/smp_src/messagebuf.c: the system calls on message buffers, and the hooks.
pub mod Buffer
pub mod Ring
pub mod Messages
pub mod Store
pub mod Fetch
pub mod Pending
pub mod Wakeup
pub mod Calls
pub mod Tests
pub mod Names
pub mod Create
use tkernel.Base.{
  ℕ, zero, suc, ◌+◌, ◌-◌, ◌*◌, ◌/◌, Bool, true, false, not, ◌&&◌, ◌||◌, Option, none, some, List,
  [], ◌∷◌, ◌++◌, if◌then◌else◌, ◌==◌, ltb, leb, ℤ, pos, negsuc,
}
use tkernel.Kernel.{
  Kernel, Tcb, Mbfcb, Er, done, e_ok, e_id, e_noexs, e_par, e_ctx, e_diswai, e_tmout, Wspec,
  wspec_smbf_tfifo, wspec_smbf_tpri, wspec_rmbf, Que, q_smbf, q_rmbf, set_tcb, set_mbfcb, has,
  ta_tpri, ttw_smbf, ttw_rmbf, type_mbf,
}
use tkernel.Kernel.Queue.{is_que_empty, que_insert, first_of_que}
use tkernel.Str.{Mem, memcpy, store_word}
use tkernel.Domain.{
  if_ok, chk_id, index_of, mp_check_domain_and_protection, mp_unregister_object_in_domain, in_indp,
  in_ddsp,
}
use tkernel.Task.{update_schedtsk}
use tkernel.Wait.{
  wait_release_ok, wait_delete, wait_tskid, is_diswai, gcb_make_wait_with_diswai,
  gcb_change_priority, gcb_top_of_wait_queue, make_wait, is_polling,
}
use tkernel.Semaphore.{end_critical, chk_tmout}
use tkernel.MessageBuffer.Buffer.{
  headersz, roundsz, mbf_free, mbf_empty, load_word, next_pos, skip_bytes, copy_in, copy_out,
  msg_to_mbf, mbf_to_msg,
}

-- `mbf_wakeup`, over the tasks of the send queue. Each release takes the head out of it.
unfoldable pub wakeup_loop : Kernel → ℕ → List ℕ → Kernel
wakeup_loop k i [] = k
wakeup_loop k i (t ∷ l) =
    let (m, cb) = msg_to_mbf k.mem (k.obj.mbfcb i) (k.tcb t).smbf_msg (k.tcb t).smbf_msgsz in
    let next = wakeup_loop (wait_release_ok (record (set_mbfcb k i cb) { mem = m }) t) i l in
    if mbf_free (k.obj.mbfcb i) (k.tcb t).smbf_msgsz then next else k

unfoldable pub mbf_wakeup : Kernel → ℕ → Kernel
mbf_wakeup k i = wakeup_loop k i (k.que (q_smbf i))

-- `mbf_chg_pri`. `oldpri` is none for the -1 of `mbf_rel_wai`.
unfoldable pub mbf_chg_pri : Kernel → ℕ → Option ℕ → Kernel
mbf_chg_pri k t oldpri =
    let i = index_of (k.tcb t).wid in
    let k1 : Kernel = elim oldpri [ none ↦ k | some p ↦ gcb_change_priority k (q_smbf i) t ] in
    mbf_wakeup k1 i

unfoldable pub mbf_rel_wai : Kernel → ℕ → Kernel
mbf_rel_wai k t = mbf_chg_pri k t none

-- `if ( mbfcb->mbfid == 0 ) E_NOEXS else mp_check_domain_and_protection(...)`.
unfoldable pub mbf_access : Kernel → ℕ → ℕ → Er
mbf_access k prid mbfid =
    let cb = k.obj.mbfcb (index_of mbfid) in
    if cb.mbfid == 0
    then e_noexs
    else mp_check_domain_and_protection k prid mbfid cb.mbfid cb.mbfatr

-- `_tk_del_mbf`. The buffer goes back to the allocator (`Ifree`), which is not modelled.
unfoldable pub del_mbf_body : Kernel → ℕ → ℕ → Kernel × Er
del_mbf_body k prid mbfid =
    let i = index_of mbfid in
    if_ok (mbf_access k prid mbfid) (λ e. (k, e))
      (let k1 = wait_delete (wait_delete k (q_rmbf i)) (q_smbf i) in
        let k2 = mp_unregister_object_in_domain k1 mbfid type_mbf i in
        let k3 = set_mbfcb k2 i (record (k2.obj.mbfcb i) { mbfid = 0 }) in
        (record k3 { obj = record k3.obj { free_mbfcb = k3.obj.free_mbfcb ++ (i ∷ []) } }, e_ok))

unfoldable pub tk_del_mbf : Kernel → ℕ → ℕ → Kernel × Er
tk_del_mbf k prid mbfid =
    if not (chk_id k k.obj.max_mbfid mbfid)
    then (k, e_id)
    else end_critical (del_mbf_body k prid mbfid)

-- The three ways of `_tk_snd_mbf`: to a task that waits for a message,
unfoldable pub send_directly : Kernel → ℕ → ℕ → ℕ → Kernel
send_directly k t msg msgsz =
    let k1 = record k { mem = memcpy k.mem (k.tcb t).rmbf_msg msg msgsz } in
    wait_release_ok (set_tcb k1 t (record (k1.tcb t) { rmbf_msgsz = msgsz })) t

-- to the buffer,
unfoldable pub store_msg : Kernel → ℕ → ℕ → ℕ → Kernel
store_msg k i msg msgsz =
    let (m, cb) = msg_to_mbf k.mem (k.obj.mbfcb i) msg msgsz in
    record (set_mbfcb k i cb) { mem = m }

-- and to wait. The result of a call that waits is left in the task's `wercd`.
unfoldable pub wait_to_send : Kernel → ℕ → ℕ → ℕ → ℕ → ℤ → Kernel × Er
wait_to_send k t i msg msgsz tmout =
    let cb = k.obj.mbfcb i in
    let spec = if has cb.mbfatr ta_tpri then wspec_smbf_tpri else wspec_smbf_tfifo in
    let k1 =
      set_tcb k t
        (record (k.tcb t) { wspec = spec; wercd = e_tmout; smbf_msg = msg; smbf_msgsz = msgsz }) in
    let k2 = gcb_make_wait_with_diswai k1 t (q_smbf i) cb.mbfid cb.mbfatr tmout in
    if is_polling tmout then (k, e_tmout) else (k2, (k2.tcb t).wercd)

-- `_tk_snd_mbf`. The calling task is none in a task-independent part, where the call never waits.
abbrev pub caller : Kernel → ℕ → Option ℕ
caller k prid = if in_indp k prid then none else k.ctxtsk prid

abbrev pub send_disabled : Kernel → Option ℕ → ℕ → Bool
send_disabled k none i = false
send_disabled k (some t) i = is_diswai k (k.obj.mbfcb i).mbfatr t ttw_smbf

abbrev pub first_to_send : Kernel → Option ℕ → ℕ → Bool
first_to_send k none i = true
first_to_send k (some t) i = gcb_top_of_wait_queue k (q_smbf i) (k.obj.mbfcb i).mbfatr t == t

unfoldable pub send_or_wait : Kernel → Option ℕ → ℕ → ℕ → ℕ → ℤ → Kernel × Er
send_or_wait k run i msg msgsz tmout = elim (k.que (q_rmbf i)) [
  | t ∷ l ↦ (send_directly k t msg msgsz, e_ok)
  | [] ↦
      if first_to_send k run i && mbf_free (k.obj.mbfcb i) msgsz
      then (store_msg k i msg msgsz, e_ok)
      else elim run [ none ↦ (k, e_tmout) | some t ↦ wait_to_send k t i msg msgsz tmout ]
]

unfoldable pub snd_mbf_body : Kernel → ℕ → ℕ → ℕ → ℕ → ℤ → Kernel × Er
snd_mbf_body k prid mbfid msg msgsz tmout =
    let i = index_of mbfid in
    if_ok (mbf_access k prid mbfid) (λ e. (k, e))
      (if ltb (k.obj.mbfcb i).maxmsz msgsz
        then (k, e_par)
        else if send_disabled k (caller k prid) i
        then (k, e_diswai)
        else send_or_wait k (caller k prid) i msg msgsz tmout)

unfoldable pub tk_snd_mbf : Kernel → ℕ → ℕ → ℕ → ℕ → ℤ → Kernel × Er
tk_snd_mbf k prid mbfid msg msgsz tmout =
    if not (chk_id k k.obj.max_mbfid mbfid)
    then (k, e_id)
    else if msgsz == 0
    then (k, e_par)
    else if not (chk_tmout tmout)
    then (k, e_par)
    else if not (is_polling tmout) && in_ddsp k prid
    then (k, e_ctx)
    else end_critical (snd_mbf_body k prid mbfid msg msgsz tmout)

-- The three ways of `_tk_rcv_mbf`: from the buffer, whose room then goes to the tasks that wait to
-- send,
unfoldable pub fetch_msg : Kernel → ℕ → ℕ → Kernel × Er
fetch_msg k i msg =
    let (m, cb, rcvsz) = mbf_to_msg k.mem (k.obj.mbfcb i) msg in
    (mbf_wakeup (record (set_mbfcb k i cb) { mem = m }) i, done rcvsz)

-- from a task that waits to send,
unfoldable pub receive_directly : Kernel → ℕ → ℕ → ℕ → Kernel × Er
receive_directly k t i msg =
    let rcvsz = (k.tcb t).smbf_msgsz in
    let k1 = record k { mem = memcpy k.mem msg (k.tcb t).smbf_msg rcvsz } in
    (mbf_wakeup (wait_release_ok k1 t) i, done rcvsz)

-- and to wait.
unfoldable pub wait_to_receive : Kernel → ℕ → ℕ → ℕ → ℕ → ℤ → Kernel × Er
wait_to_receive k t i mbfid msg tmout =
    let k1 =
      set_tcb k t
        (record (k.tcb t) { wspec = wspec_rmbf; wid = mbfid; wercd = e_tmout; rmbf_msg = msg }) in
    let k2 = que_insert (make_wait k1 t tmout (k.obj.mbfcb i).mbfatr) (q_rmbf i) t in
    if is_polling tmout then (k, e_tmout) else (k2, (k2.tcb t).wercd)

unfoldable pub receive_or_wait : Kernel → ℕ → ℕ → ℕ → ℕ → ℤ → Kernel × Er
receive_or_wait k t i mbfid msg tmout =
    if not (mbf_empty (k.obj.mbfcb i)) then fetch_msg k i msg else elim (k.que (q_smbf i)) [
      | s ∷ l ↦ receive_directly k s i msg
      | [] ↦ wait_to_receive k t i mbfid msg tmout
    ]

unfoldable pub rcv_mbf_body : Kernel → ℕ → ℕ → ℕ → ℕ → ℤ → Kernel × Er
rcv_mbf_body k prid t mbfid msg tmout =
    let i = index_of mbfid in
    if_ok (mbf_access k prid mbfid) (λ e. (k, e))
      (if is_diswai k (k.obj.mbfcb i).mbfatr t ttw_rmbf
        then (k, e_diswai)
        else receive_or_wait k t i mbfid msg tmout)

-- `_tk_rcv_mbf`, with CHECK_DISPATCH as in `tk_wai_sem`.
unfoldable pub tk_rcv_mbf : Kernel → ℕ → ℕ → ℕ → ℤ → Kernel × Er
tk_rcv_mbf k prid mbfid msg tmout =
    if not (chk_id k k.obj.max_mbfid mbfid)
    then (k, e_id)
    else if not (chk_tmout tmout)
    then (k, e_par)
    else if in_ddsp k prid
    then (k, e_ctx)
    else elim (k.ctxtsk prid) [
      | none ↦ (k, e_ctx)
      | some t ↦ end_critical (rcv_mbf_body k prid t mbfid msg tmout)
    ]

-- T_RMBF, without `exinf`, and what `_tk_ref_mbf` writes to it.
pub record Rmbf : Type 0 where
  pub wtsk : ℕ
  pub stsk : ℕ
  pub msgsz : ℕ
  pub frbufsz : ℕ
  pub maxmsz : ℕ

unfoldable pub refer_mbf : Kernel → ℕ → Rmbf
refer_mbf k i =
    let cb = k.obj.mbfcb i in
    record {
      wtsk = wait_tskid k (q_rmbf i);
      stsk = wait_tskid k (q_smbf i);
      msgsz =
          if not (mbf_empty cb)
          then load_word k.mem (cb.buffer + cb.head)
          else elim (k.que (q_smbf i)) [ [] ↦ 0 | t ∷ l ↦ (k.tcb t).smbf_msgsz ];
      frbufsz = cb.frbufsz;
      maxmsz = cb.maxmsz;
    }

unfoldable pub tk_ref_mbf : Kernel → ℕ → ℕ → Er × Option Rmbf
tk_ref_mbf k prid mbfid =
    if not (chk_id k k.obj.max_mbfid mbfid)
    then (e_id, none)
    else if_ok (mbf_access k prid mbfid) (λ e. (e, none))
        (e_ok, some (refer_mbf k (index_of mbfid)))
