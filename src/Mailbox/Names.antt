-- ===== src/Mailbox/Names.antt =====
-- kernel/tkernel/smp_src/mailbox.c: the names of mailboxes, and the calls for the debugger.
use tkernel.Base.{ℕ, not, Option, none, some, List, [], if◌then◌else◌, ◌==◌}
use tkernel.Kernel.{Kernel, Er, done, e_id, e_noexs, e_obj, e_ok, type_mbx, q_mbx, has}
use tkernel.Domain.{if_ok, chk_id, index_of, mp_cmp_domidpart}
use tkernel.Domain.Names.{chk_domid, mp_search_oname, mp_change_oname}
use tkernel.Domain.Objects.{find_object, ta_oname, Dmi, domain_information, lst_ids}
use tkernel.Wait.{wait_tskid}
use tkernel.Semaphore.{que_ids}
use tkernel.Mailbox.{mbx_access}

abbrev pub mbxid_at : Kernel → ℕ → ℕ
mbxid_at k i = (k.obj.mbxcb i).mbxid

-- `_tk_fnd_mbx` and `_td_fnd_mbx`.
unfoldable pub tk_fnd_mbx : Kernel → ℕ → ℕ → ℕ → Er
tk_fnd_mbx k prid domid oname =
    if not (chk_domid k domid)
    then e_id
    else find_object k prid type_mbx (mbxid_at k) (λ i. (k.obj.mbxcb i).mbxatr) domid oname

unfoldable pub td_fnd_mbx : Kernel → ℕ → ℕ → Er
td_fnd_mbx k domid oname =
    if not (chk_domid k domid) then e_id else mp_search_oname k type_mbx (mbxid_at k) domid oname

-- `_tk_dmi_mbx` and `_td_dmi_mbx`.
abbrev pub mbx_information : Kernel → ℕ → ℕ → Kernel × Option Dmi × Er
mbx_information k i oname =
    let (k1, dmi) =
      domain_information k type_mbx (k.obj.mbxcb i).mbxid (k.obj.mbxcb i).mbxatr i oname in
    (k1, some dmi, e_ok)

unfoldable pub tk_dmi_mbx : Kernel → ℕ → ℕ → ℕ → Kernel × Option Dmi × Er
tk_dmi_mbx k prid mbxid oname =
    if not (chk_id k k.obj.max_mbxid mbxid)
    then (k, none, e_id)
    else if_ok (mbx_access k prid mbxid) (λ e. (k, none, e))
        (mbx_information k (index_of mbxid) oname)

-- What the calls for the debugger check: the ID and the domain, and no protection.
abbrev pub td_mbx_access : Kernel → ℕ → Er
td_mbx_access k mbxid =
    let cb = k.obj.mbxcb (index_of mbxid) in
    if not (chk_id k k.obj.max_mbxid mbxid)
    then e_id
    else if cb.mbxid == 0
    then e_noexs
    else if not (mp_cmp_domidpart mbxid cb.mbxid)
    then e_noexs
    else e_ok

unfoldable pub td_dmi_mbx : Kernel → ℕ → ℕ → Kernel × Option Dmi × Er
td_dmi_mbx k mbxid oname =
    if_ok (td_mbx_access k mbxid) (λ e. (k, none, e)) (mbx_information k (index_of mbxid) oname)

-- `mailbox_getname` and `mailbox_setname`.
unfoldable pub mbx_name_access : Kernel → ℕ → Er
mbx_name_access k id =
    if_ok (td_mbx_access k id) (λ e. e)
      (if not (has (k.obj.mbxcb (index_of id)).mbxatr ta_oname) then e_obj else e_ok)

unfoldable pub mailbox_getname : Kernel → ℕ → Er × Option ℕ
mailbox_getname k id =
    if_ok (mbx_name_access k id) (λ e. (e, none))
      (e_ok, some (k.obj.oname_at type_mbx (index_of id)))

unfoldable pub mailbox_setname : Kernel → ℕ → ℕ → Kernel × Er
mailbox_setname k id name =
    if_ok (mbx_name_access k id) (λ e. (k, e)) (mp_change_oname k type_mbx id name (index_of id))

-- `_td_lst_mbx`.
unfoldable pub td_lst_mbx : Kernel → ℕ → List ℕ × ℕ
td_lst_mbx k nent = lst_ids (mbxid_at k) k.obj.max_mbxid 0 nent

-- `_td_ref_mbx`: the first task that waits, and the first message.
unfoldable pub td_ref_mbx : Kernel → ℕ → Er × Option (ℕ × ℕ)
td_ref_mbx k mbxid =
    let i = index_of mbxid in
    if_ok (td_mbx_access k mbxid) (λ e. (e, none))
      (e_ok, some (wait_tskid k (q_mbx i), (k.obj.mbxcb i).mq_head))

-- `_td_mbx_que`.
unfoldable pub td_mbx_que : Kernel → ℕ → ℕ → Er × List ℕ
td_mbx_que k mbxid nent =
    if_ok (td_mbx_access k mbxid) (λ e. (e, []))
      (let (ids, count) = que_ids k (k.que (q_mbx (index_of mbxid))) nent in (done count, ids))
