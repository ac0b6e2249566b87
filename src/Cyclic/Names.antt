-- ===== src/Cyclic/Names.antt =====
-- kernel/tkernel/smp_src/time_calls.c: the names of cyclic handlers, and the calls for the
-- debugger.
use tkernel.Base.{ℕ, not, Option, none, some, List, if◌then◌else◌, ◌==◌}
use tkernel.Kernel.{Kernel, Er, e_id, e_noexs, e_obj, e_ok, type_cyc, has}
use tkernel.Domain.{if_ok, chk_id, index_of, mp_cmp_domidpart}
use tkernel.Domain.Names.{chk_domid, mp_search_oname, mp_change_oname}
use tkernel.Domain.Objects.{find_object, ta_oname, Dmi, domain_information, lst_used}
use tkernel.Cyclic.{cyc_access, Rcyc, cyc_state}

abbrev pub cycid_at : Kernel → ℕ → ℕ
cycid_at k i = (k.obj.cyccb i).cycid

-- `_tk_fnd_cyc` and `_td_fnd_cyc`.
unfoldable pub tk_fnd_cyc : Kernel → ℕ → ℕ → ℕ → Er
tk_fnd_cyc k prid domid oname =
    if not (chk_domid k domid)
    then e_id
    else find_object k prid type_cyc (cycid_at k) (λ i. (k.obj.cyccb i).cycatr) domid oname

unfoldable pub td_fnd_cyc : Kernel → ℕ → ℕ → Er
td_fnd_cyc k domid oname =
    if not (chk_domid k domid) then e_id else mp_search_oname k type_cyc (cycid_at k) domid oname

-- `_tk_dmi_cyc` and `_td_dmi_cyc`.
abbrev pub cyc_information : Kernel → ℕ → ℕ → Kernel × Option Dmi × Er
cyc_information k i oname =
    let (k1, dmi) =
      domain_information k type_cyc (k.obj.cyccb i).cycid (k.obj.cyccb i).cycatr i oname in
    (k1, some dmi, e_ok)

unfoldable pub tk_dmi_cyc : Kernel → ℕ → ℕ → ℕ → Kernel × Option Dmi × Er
tk_dmi_cyc k prid cycid oname =
    if not (chk_id k k.obj.max_cycid cycid)
    then (k, none, e_id)
    else if_ok (cyc_access k prid cycid) (λ e. (k, none, e))
        (cyc_information k (index_of cycid) oname)

-- What the calls for the debugger check: the ID and the domain, and no protection.
abbrev pub td_cyc_access : Kernel → ℕ → Er
td_cyc_access k cycid =
    let cb = k.obj.cyccb (index_of cycid) in
    if not (chk_id k k.obj.max_cycid cycid)
    then e_id
    else if cb.cychdr == 0
    then e_noexs
    else if not (mp_cmp_domidpart cycid cb.cycid)
    then e_noexs
    else e_ok

unfoldable pub td_dmi_cyc : Kernel → ℕ → ℕ → Kernel × Option Dmi × Er
td_dmi_cyc k cycid oname =
    if_ok (td_cyc_access k cycid) (λ e. (k, none, e)) (cyc_information k (index_of cycid) oname)

-- `cyclichandler_getname` and `cyclichandler_setname`.
unfoldable pub cyc_name_access : Kernel → ℕ → Er
cyc_name_access k id =
    if_ok (td_cyc_access k id) (λ e. e)
      (if not (has (k.obj.cyccb (index_of id)).cycatr ta_oname) then e_obj else e_ok)

unfoldable pub cyclichandler_getname : Kernel → ℕ → Er × Option ℕ
cyclichandler_getname k id =
    if_ok (cyc_name_access k id) (λ e. (e, none))
      (e_ok, some (k.obj.oname_at type_cyc (index_of id)))

unfoldable pub cyclichandler_setname : Kernel → ℕ → ℕ → Kernel × Er
cyclichandler_setname k id name =
    if_ok (cyc_name_access k id) (λ e. (k, e)) (mp_change_oname k type_cyc id name (index_of id))

-- `_td_lst_cyc`.
unfoldable pub td_lst_cyc : Kernel → ℕ → List ℕ × ℕ
td_lst_cyc k nent =
    lst_used (λ i. not ((k.obj.cyccb i).cychdr == 0)) (cycid_at k) k.obj.max_cycid 0 nent

-- `_td_ref_cyc`.
unfoldable pub td_ref_cyc : Kernel → ℕ → Er × Option Rcyc
td_ref_cyc k cycid =
    if_ok (td_cyc_access k cycid) (λ e. (e, none)) (e_ok, some (cyc_state k (index_of cycid)))
