-- ===== src/Mutex/Names.antt =====
-- kernel/tkernel/smp_src/mutex.c: the names of mutexes, and the calls for the debugger.
use tkernel.Base.{ℕ, not, Option, none, some, List, [], if◌then◌else◌, ◌==◌}
use tkernel.Kernel.{Kernel, Er, done, e_id, e_noexs, e_obj, e_ok, type_mtx, q_mtx, has}
use tkernel.Domain.{if_ok, chk_id, index_of, mp_cmp_domidpart}
use tkernel.Domain.Names.{chk_domid, mp_search_oname, mp_change_oname}
use tkernel.Domain.Objects.{find_object, ta_oname, Dmi, domain_information, lst_ids}
use tkernel.Semaphore.{que_ids}
use tkernel.Mutex.{mtx_access, refer_mtx}

abbrev pub mtxid_at : Kernel → ℕ → ℕ
mtxid_at k i = (k.obj.mtxcb i).mtxid

-- `_tk_fnd_mtx` and `_td_fnd_mtx`.
unfoldable pub tk_fnd_mtx : Kernel → ℕ → ℕ → ℕ → Er
tk_fnd_mtx k prid domid oname =
    if not (chk_domid k domid)
    then e_id
    else find_object k prid type_mtx (mtxid_at k) (λ i. (k.obj.mtxcb i).mtxatr) domid oname

unfoldable pub td_fnd_mtx : Kernel → ℕ → ℕ → Er
td_fnd_mtx k domid oname =
    if not (chk_domid k domid) then e_id else mp_search_oname k type_mtx (mtxid_at k) domid oname

-- `_tk_dmi_mtx` and `_td_dmi_mtx`.
abbrev pub mtx_information : Kernel → ℕ → ℕ → Kernel × Option Dmi × Er
mtx_information k i oname =
    let (k1, dmi) =
      domain_information k type_mtx (k.obj.mtxcb i).mtxid (k.obj.mtxcb i).mtxatr i oname in
    (k1, some dmi, e_ok)

unfoldable pub tk_dmi_mtx : Kernel → ℕ → ℕ → ℕ → Kernel × Option Dmi × Er
tk_dmi_mtx k prid mtxid oname =
    if not (chk_id k k.obj.max_mtxid mtxid)
    then (k, none, e_id)
    else if_ok (mtx_access k prid mtxid) (λ e. (k, none, e))
        (mtx_information k (index_of mtxid) oname)

-- What the calls for the debugger check: the ID and the domain, and no protection.
abbrev pub td_mtx_access : Kernel → ℕ → Er
td_mtx_access k mtxid =
    let cb = k.obj.mtxcb (index_of mtxid) in
    if not (chk_id k k.obj.max_mtxid mtxid)
    then e_id
    else if cb.mtxid == 0
    then e_noexs
    else if not (mp_cmp_domidpart mtxid cb.mtxid)
    then e_noexs
    else e_ok

unfoldable pub td_dmi_mtx : Kernel → ℕ → ℕ → Kernel × Option Dmi × Er
td_dmi_mtx k mtxid oname =
    if_ok (td_mtx_access k mtxid) (λ e. (k, none, e)) (mtx_information k (index_of mtxid) oname)

-- `mutex_getname` and `mutex_setname`.
unfoldable pub mtx_name_access : Kernel → ℕ → Er
mtx_name_access k id =
    if_ok (td_mtx_access k id) (λ e. e)
      (if not (has (k.obj.mtxcb (index_of id)).mtxatr ta_oname) then e_obj else e_ok)

unfoldable pub mutex_getname : Kernel → ℕ → Er × Option ℕ
mutex_getname k id =
    if_ok (mtx_name_access k id) (λ e. (e, none))
      (e_ok, some (k.obj.oname_at type_mtx (index_of id)))

unfoldable pub mutex_setname : Kernel → ℕ → ℕ → Kernel × Er
mutex_setname k id name =
    if_ok (mtx_name_access k id) (λ e. (k, e)) (mp_change_oname k type_mtx id name (index_of id))

-- `_td_lst_mtx`.
unfoldable pub td_lst_mtx : Kernel → ℕ → List ℕ × ℕ
td_lst_mtx k nent = lst_ids (mtxid_at k) k.obj.max_mtxid 0 nent

-- `_td_ref_mtx`.
unfoldable pub td_ref_mtx : Kernel → ℕ → Er × Option (ℕ × ℕ)
td_ref_mtx k mtxid =
    if_ok (td_mtx_access k mtxid) (λ e. (e, none)) (e_ok, some (refer_mtx k (index_of mtxid)))

-- `_td_mtx_que`.
unfoldable pub td_mtx_que : Kernel → ℕ → ℕ → Er × List ℕ
td_mtx_que k mtxid nent =
    if_ok (td_mtx_access k mtxid) (λ e. (e, []))
      (let (ids, count) = que_ids k (k.que (q_mtx (index_of mtxid))) nent in (done count, ids))
