-- ===== src/MessageBuffer/Names.antt =====
-- kernel/tkernel/smp_src/messagebuf.c: the names of message buffers, and the calls for the debugger.
use tkernel.Base.{ℕ, not, Option, none, some, List, [], if◌then◌else◌, ◌==◌}
use tkernel.Kernel.{Kernel, Er, done, e_id, e_noexs, e_obj, e_ok, type_mbf, q_smbf, q_rmbf, has}
use tkernel.Domain.{if_ok, chk_id, index_of, mp_cmp_domidpart}
use tkernel.Domain.Names.{chk_domid, mp_search_oname, mp_change_oname}
use tkernel.Domain.Objects.{find_object, ta_oname, Dmi, domain_information, lst_ids}
use tkernel.Semaphore.{que_ids}
use tkernel.MessageBuffer.{mbf_access, Rmbf, refer_mbf}

abbrev pub mbfid_at : Kernel → ℕ → ℕ
mbfid_at k i = (k.obj.mbfcb i).mbfid

-- `_tk_fnd_mbf` and `_td_fnd_mbf`.
unfoldable pub tk_fnd_mbf : Kernel → ℕ → ℕ → ℕ → Er
tk_fnd_mbf k prid domid oname =
    if not (chk_domid k domid)
    then e_id
    else find_object k prid type_mbf (mbfid_at k) (λ i. (k.obj.mbfcb i).mbfatr) domid oname

unfoldable pub td_fnd_mbf : Kernel → ℕ → ℕ → Er
td_fnd_mbf k domid oname =
    if not (chk_domid k domid) then e_id else mp_search_oname k type_mbf (mbfid_at k) domid oname

-- `_tk_dmi_mbf` and `_td_dmi_mbf`.
abbrev pub mbf_information : Kernel → ℕ → ℕ → Kernel × Option Dmi × Er
mbf_information k i oname =
    let (k1, dmi) =
      domain_information k type_mbf (k.obj.mbfcb i).mbfid (k.obj.mbfcb i).mbfatr i oname in
    (k1, some dmi, e_ok)

unfoldable pub tk_dmi_mbf : Kernel → ℕ → ℕ → ℕ → Kernel × Option Dmi × Er
tk_dmi_mbf k prid mbfid oname =
    if not (chk_id k k.obj.max_mbfid mbfid)
    then (k, none, e_id)
    else if_ok (mbf_access k prid mbfid) (λ e. (k, none, e))
        (mbf_information k (index_of mbfid) oname)

-- What the calls for the debugger check: the ID and the domain, and no protection.
abbrev pub td_mbf_access : Kernel → ℕ → Er
td_mbf_access k mbfid =
    let cb = k.obj.mbfcb (index_of mbfid) in
    if not (chk_id k k.obj.max_mbfid mbfid)
    then e_id
    else if cb.mbfid == 0
    then e_noexs
    else if not (mp_cmp_domidpart mbfid cb.mbfid)
    then e_noexs
    else e_ok

unfoldable pub td_dmi_mbf : Kernel → ℕ → ℕ → Kernel × Option Dmi × Er
td_dmi_mbf k mbfid oname =
    if_ok (td_mbf_access k mbfid) (λ e. (k, none, e)) (mbf_information k (index_of mbfid) oname)

-- `messagebuffer_getname` and `messagebuffer_setname`.
unfoldable pub mbf_name_access : Kernel → ℕ → Er
mbf_name_access k id =
    if_ok (td_mbf_access k id) (λ e. e)
      (if not (has (k.obj.mbfcb (index_of id)).mbfatr ta_oname) then e_obj else e_ok)

unfoldable pub messagebuffer_getname : Kernel → ℕ → Er × Option ℕ
messagebuffer_getname k id =
    if_ok (mbf_name_access k id) (λ e. (e, none))
      (e_ok, some (k.obj.oname_at type_mbf (index_of id)))

unfoldable pub messagebuffer_setname : Kernel → ℕ → ℕ → Kernel × Er
messagebuffer_setname k id name =
    if_ok (mbf_name_access k id) (λ e. (k, e)) (mp_change_oname k type_mbf id name (index_of id))

-- `_td_lst_mbf`.
unfoldable pub td_lst_mbf : Kernel → ℕ → List ℕ × ℕ
td_lst_mbf k nent = lst_ids (mbfid_at k) k.obj.max_mbfid 0 nent

-- `_td_ref_mbf`.
unfoldable pub td_ref_mbf : Kernel → ℕ → Er × Option Rmbf
td_ref_mbf k mbfid =
    if_ok (td_mbf_access k mbfid) (λ e. (e, none)) (e_ok, some (refer_mbf k (index_of mbfid)))

-- `_td_smbf_que` and `_td_rmbf_que`.
unfoldable pub td_smbf_que : Kernel → ℕ → ℕ → Er × List ℕ
td_smbf_que k mbfid nent =
    if_ok (td_mbf_access k mbfid) (λ e. (e, []))
      (let (ids, count) = que_ids k (k.que (q_smbf (index_of mbfid))) nent in (done count, ids))

unfoldable pub td_rmbf_que : Kernel → ℕ → ℕ → Er × List ℕ
td_rmbf_que k mbfid nent =
    if_ok (td_mbf_access k mbfid) (λ e. (e, []))
      (let (ids, count) = que_ids k (k.que (q_rmbf (index_of mbfid))) nent in (done count, ids))
