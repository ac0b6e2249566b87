-- ===== src/Mailbox.antt =====
-- kernel/tkernel/smp_src/mailbox.c: mailboxes. A message is an area of the memory of the callers, named
-- by its address; its first word is the address of the next message, NULL (0) for the last, and its
-- second word the priority of the message. `m` is the memory.
pub mod Names
pub mod Create
pub mod Chain
pub mod Fifo
pub mod Order
pub mod Tests
use tkernel.Base.{
  ℕ, zero, suc, ◌+◌, ◌-◌, ◌%◌, ◌^◌, Bool, true, false, not, ◌&&◌, Option, none, some, List, [], ◌∷◌,
  ◌++◌, if◌then◌else◌, ◌==◌, ltb, ℤ,
}
use tkernel.Str.{Mem, store_word}
use tkernel.Kernel.{
  Kernel, Tcb, Mbxcb, Er, e_ok, e_id, e_noexs, e_par, e_ctx, e_diswai, no_result, Wspec,
  wspec_mbx_tfifo, wspec_mbx_tpri, q_mbx, set_tcb, set_mbxcb, has, ta_tpri, ttw_mbx, type_mbx,
}
use tkernel.Domain.{
  if_ok, chk_id, index_of, mp_check_domain_and_protection, mp_unregister_object_in_domain, in_ddsp,
}
use tkernel.Wait.{wait_release_ok, wait_delete, wait_tskid, is_diswai, gcb_make_wait_with_diswai}
use tkernel.Semaphore.{end_critical, chk_tmout}
use tkernel.MessageBuffer.Buffer.{load_word}

abbrev pub ta_mpri : ℕ
ta_mpri = 0x2

-- `nextmsg(msg)` and `msg->msgpri`, an INT.
abbrev pub nextmsg : Mem → ℕ → ℕ
nextmsg m msg = load_word m msg

abbrev pub msgpri : Mem → ℕ → ℕ
msgpri m msg = load_word m (msg + 4)

-- `a < b` for words that are INTs.
abbrev pub int_ltb : ℕ → ℕ → Bool
int_ltb a b = ltb ((a + 2 ^ 31) % 2 ^ 32) ((b + 2 ^ 31) % 2 ^ 32)

-- An assignment to `nextmsg(prevmsg)`, where none stands for `mq_head`.
abbrev pub link : Mem → Mbxcb → Option ℕ → ℕ → Mem × Mbxcb
link m cb none msg = (m, record cb { mq_head = msg })
link m cb (some prev) msg = (store_word m prev msg, cb)

-- `queue_insert_mpri`: the loop, from the message `msg` behind `prevmsg` on. The model runs on fuel,
-- and none is a list that is longer.
unfoldable pub insert_from : ℕ → Mem → Mbxcb → ℕ → Option ℕ → ℕ → Option (Mem × Mbxcb)
insert_from zero m cb pk_msg prevmsg msg = none
insert_from (suc f) m cb pk_msg prevmsg msg =
    let rest = insert_from f m cb pk_msg (some msg) (nextmsg m msg) in
    if msg == 0
    then some (link (store_word m pk_msg msg) cb prevmsg pk_msg)
    else if int_ltb (msgpri m pk_msg) (msgpri m msg)
    then some (link (store_word m pk_msg msg) cb prevmsg pk_msg)
    else rest

unfoldable pub queue_insert_mpri : ℕ → Mem → Mbxcb → ℕ → Option (Mem × Mbxcb)
queue_insert_mpri f m cb pk_msg = insert_from f m cb pk_msg none cb.mq_head

-- `Connect to end of queue`.
unfoldable pub append_msg : Mem → Mbxcb → ℕ → Mem × Mbxcb
append_msg m cb pk_msg =
    let m1 = store_word m pk_msg 0 in
    if cb.mq_head == 0
    then (m1, record cb { mq_head = pk_msg; mq_tail = pk_msg })
    else (store_word m1 cb.mq_tail pk_msg, record cb { mq_tail = pk_msg })

-- `if ( mbxcb->mbxid == 0 ) E_NOEXS else mp_check_domain_and_protection(...)`.
unfoldable pub mbx_access : Kernel → ℕ → ℕ → Er
mbx_access k prid mbxid =
    let cb = k.obj.mbxcb (index_of mbxid) in
    if cb.mbxid == 0
    then e_noexs
    else mp_check_domain_and_protection k prid mbxid cb.mbxid cb.mbxatr

-- `_tk_del_mbx`. The messages stay where they are.
unfoldable pub del_mbx_body : Kernel → ℕ → ℕ → Kernel × Er
del_mbx_body k prid mbxid =
    let i = index_of mbxid in
    if_ok (mbx_access k prid mbxid) (λ e. (k, e))
      (let k1 = mp_unregister_object_in_domain (wait_delete k (q_mbx i)) mbxid type_mbx i in
        let k2 = set_mbxcb k1 i (record (k1.obj.mbxcb i) { mbxid = 0 }) in
        (record k2 { obj = record k2.obj { free_mbxcb = k2.obj.free_mbxcb ++ (i ∷ []) } }, e_ok))

unfoldable pub tk_del_mbx : Kernel → ℕ → ℕ → Kernel × Er
tk_del_mbx k prid mbxid =
    if not (chk_id k k.obj.max_mbxid mbxid)
    then (k, e_id)
    else end_critical (del_mbx_body k prid mbxid)

abbrev pub put_msgs : Kernel → ℕ → Mem × Mbxcb → Kernel
put_msgs k i (m, cb) = record (set_mbxcb k i cb) { mem = m }

-- `Connect message to queue` of `_tk_snd_mbx`.
unfoldable pub enqueue_msg : ℕ → Kernel → ℕ → ℕ → Kernel × Er
enqueue_msg f k i pk_msg =
    let cb = k.obj.mbxcb i in
    let by_priority : Kernel × Er = elim (queue_insert_mpri f k.mem cb pk_msg) [
      | none ↦ (k, no_result)
      | some r ↦ (put_msgs k i r, e_ok)
    ] in
    if has cb.mbxatr ta_mpri then by_priority else (put_msgs k i (append_msg k.mem cb pk_msg), e_ok)

-- `_tk_snd_mbx`: to the first task that waits, or to the queue.
unfoldable pub send_msg : ℕ → Kernel → ℕ → ℕ → Kernel × Er
send_msg f k i pk_msg = elim (k.que (q_mbx i)) [
  | t ∷ l ↦
      (wait_release_ok (record k { mem = store_word k.mem (k.tcb t).mbx_ppk_msg pk_msg }) t, e_ok)
  | [] ↦ enqueue_msg f k i pk_msg
]

unfoldable pub snd_mbx_body : ℕ → Kernel → ℕ → ℕ → ℕ → Kernel × Er
snd_mbx_body f k prid mbxid pk_msg =
    let i = index_of mbxid in
    if_ok (mbx_access k prid mbxid) (λ e. (k, e))
      (if has (k.obj.mbxcb i).mbxatr ta_mpri && not (int_ltb 0 (msgpri k.mem pk_msg))
        then (k, e_par)
        else send_msg f k i pk_msg)

unfoldable pub tk_snd_mbx : ℕ → Kernel → ℕ → ℕ → ℕ → Kernel × Er
tk_snd_mbx f k prid mbxid pk_msg =
    if not (chk_id k k.obj.max_mbxid mbxid)
    then (k, e_id)
    else end_critical (snd_mbx_body f k prid mbxid pk_msg)

-- `Get message from head of queue` of `_tk_rcv_mbx`: the address goes to the word at `ppk_msg`, from
-- which it is read again.
unfoldable pub take_msg : Mem → Mbxcb → ℕ → Mem × Mbxcb
take_msg m cb ppk_msg =
    let m1 = store_word m ppk_msg cb.mq_head in
    (m1, record cb { mq_head = nextmsg m1 (load_word m1 ppk_msg) })

unfoldable pub wait_for_msg : Kernel → ℕ → ℕ → ℕ → ℤ → Kernel × Er
wait_for_msg k t i ppk_msg tmout =
    let cb = k.obj.mbxcb i in
    let spec = if has cb.mbxatr ta_tpri then wspec_mbx_tpri else wspec_mbx_tfifo in
    let k1 = set_tcb k t (record (k.tcb t) { wspec = spec; wercd = e_ok; mbx_ppk_msg = ppk_msg }) in
    let k2 = gcb_make_wait_with_diswai k1 t (q_mbx i) cb.mbxid cb.mbxatr tmout in
    (k2, (k2.tcb t).wercd)

unfoldable pub rcv_mbx_body : Kernel → ℕ → ℕ → ℕ → ℕ → ℤ → Kernel × Er
rcv_mbx_body k prid t mbxid ppk_msg tmout =
    let i = index_of mbxid in
    let cb = k.obj.mbxcb i in
    if_ok (mbx_access k prid mbxid) (λ e. (k, e))
      (if is_diswai k cb.mbxatr t ttw_mbx
        then (k, e_diswai)
        else if not (cb.mq_head == 0)
        then (put_msgs k i (take_msg k.mem cb ppk_msg), e_ok)
        else wait_for_msg k t i ppk_msg tmout)

unfoldable pub tk_rcv_mbx : Kernel → ℕ → ℕ → ℕ → ℤ → Kernel × Er
tk_rcv_mbx k prid mbxid ppk_msg tmout =
    if not (chk_id k k.obj.max_mbxid mbxid)
    then (k, e_id)
    else if not (chk_tmout tmout)
    then (k, e_par)
    else if in_ddsp k prid
    then (k, e_ctx)
    else elim (k.ctxtsk prid) [
      | none ↦ (k, e_ctx)
      | some t ↦ end_critical (rcv_mbx_body k prid t mbxid ppk_msg tmout)
    ]

-- `_tk_ref_mbx`: the first task that waits, and the first message.
unfoldable pub tk_ref_mbx : Kernel → ℕ → ℕ → Er × Option (ℕ × ℕ)
tk_ref_mbx k prid mbxid =
    let i = index_of mbxid in
    if not (chk_id k k.obj.max_mbxid mbxid)
    then (e_id, none)
    else if_ok (mbx_access k prid mbxid) (λ e. (e, none))
        (e_ok, some (wait_tskid k (q_mbx i), (k.obj.mbxcb i).mq_head))
