-- ===== src/Alarm/Names.antt =====
-- kernel/tkernel/smp_src/time_calls.c: the names of alarm handlers, and the calls for the
-- debugger.
use tkernel.Base.{ℕ, not, Option, none, some, List, if◌then◌else◌, ◌==◌}
use tkernel.Kernel.{Kernel, Er, e_id, e_noexs, e_obj, e_ok, type_alm, has}
use tkernel.Domain.{if_ok, chk_id, index_of, mp_cmp_domidpart}
use tkernel.Domain.Names.{chk_domid, mp_search_oname, mp_change_oname}
use tkernel.Domain.Objects.{find_object, ta_oname, Dmi, domain_information, lst_used}
use tkernel.Alarm.{alm_access, Ralm, alm_state}

abbrev pub almid_at : Kernel → ℕ → ℕ
almid_at k i = (k.obj.almcb i).almid

-- `_tk_fnd_alm` and `_td_fnd_alm`.
unfoldable pub tk_fnd_alm : Kernel → ℕ → ℕ → ℕ → Er
tk_fnd_alm k prid domid oname =
    if not (chk_domid k domid)
    then e_id
    else find_object k prid type_alm (almid_at k) (λ i. (k.obj.almcb i).almatr) domid oname

unfoldable pub td_fnd_alm : Kernel → ℕ → ℕ → Er
td_fnd_alm k domid oname =
    if not (chk_domid k domid) then e_id else mp_search_oname k type_alm (almid_at k) domid oname

-- `_tk_dmi_alm` and `_td_dmi_alm`.
abbrev pub alm_information : Kernel → ℕ → ℕ → Kernel × Option Dmi × Er
alm_information k i oname =
    let (k1, dmi) =
      domain_information k type_alm (k.obj.almcb i).almid (k.obj.almcb i).almatr i oname in
    (k1, some dmi, e_ok)

unfoldable pub tk_dmi_alm : Kernel → ℕ → ℕ → ℕ → Kernel × Option Dmi × Er
tk_dmi_alm k prid almid oname =
    if not (chk_id k k.obj.max_almid almid)
    then (k, none, e_id)
    else if_ok (alm_access k prid almid) (λ e. (k, none, e))
        (alm_information k (index_of almid) oname)

-- What the calls for the debugger check: the ID and the domain, and no protection.
abbrev pub td_alm_access : Kernel → ℕ → Er
td_alm_access k almid =
    let cb = k.obj.almcb (index_of almid) in
    if not (chk_id k k.obj.max_almid almid)
    then e_id
    else if cb.almhdr == 0
    then e_noexs
    else if not (mp_cmp_domidpart almid cb.almid)
    then e_noexs
    else e_ok

unfoldable pub td_dmi_alm : Kernel → ℕ → ℕ → Kernel × Option Dmi × Er
td_dmi_alm k almid oname =
    if_ok (td_alm_access k almid) (λ e. (k, none, e)) (alm_information k (index_of almid) oname)

-- `alarmhandler_getname` and `alarmhandler_setname`.
unfoldable pub alm_name_access : Kernel → ℕ → Er
alm_name_access k id =
    if_ok (td_alm_access k id) (λ e. e)
      (if not (has (k.obj.almcb (index_of id)).almatr ta_oname) then e_obj else e_ok)

unfoldable pub alarmhandler_getname : Kernel → ℕ → Er × Option ℕ
alarmhandler_getname k id =
    if_ok (alm_name_access k id) (λ e. (e, none))
      (e_ok, some (k.obj.oname_at type_alm (index_of id)))

unfoldable pub alarmhandler_setname : Kernel → ℕ → ℕ → Kernel × Er
alarmhandler_setname k id name =
    if_ok (alm_name_access k id) (λ e. (k, e)) (mp_change_oname k type_alm id name (index_of id))

-- `_td_lst_alm`.
unfoldable pub td_lst_alm : Kernel → ℕ → List ℕ × ℕ
td_lst_alm k nent =
    lst_used (λ i. not ((k.obj.almcb i).almhdr == 0)) (almid_at k) k.obj.max_almid 0 nent

-- `_td_ref_alm`.
unfoldable pub td_ref_alm : Kernel → ℕ → Er × Option Ralm
td_ref_alm k almid =
    if_ok (td_alm_access k almid) (λ e. (e, none)) (e_ok, some (alm_state k (index_of almid)))
