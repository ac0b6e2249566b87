-- ===== src/EventFlag/Names.antt =====
-- kernel/tkernel/smp_src/eventflag.c: the names of event flags, and the calls for the debugger.
use tkernel.Base.{ℕ, not, Option, none, some, List, [], if◌then◌else◌, ◌==◌}
use tkernel.Kernel.{Kernel, Er, done, e_id, e_noexs, e_obj, e_ok, type_flg, q_flg, has}
use tkernel.Domain.{if_ok, chk_id, index_of, mp_cmp_domidpart}
use tkernel.Domain.Names.{chk_domid, mp_search_oname, mp_change_oname}
use tkernel.Domain.Objects.{find_object, ta_oname, Dmi, domain_information, lst_ids}
use tkernel.Wait.{wait_tskid}
use tkernel.Semaphore.{que_ids}
use tkernel.EventFlag.{flg_access}

abbrev pub flgid_at : Kernel → ℕ → ℕ
flgid_at k i = (k.flgcb i).flgid

-- `_tk_fnd_flg` and `_td_fnd_flg`.
unfoldable pub tk_fnd_flg : Kernel → ℕ → ℕ → ℕ → Er
tk_fnd_flg k prid domid oname =
    if not (chk_domid k domid)
    then e_id
    else find_object k prid type_flg (flgid_at k) (λ i. (k.flgcb i).flgatr) domid oname

unfoldable pub td_fnd_flg : Kernel → ℕ → ℕ → Er
td_fnd_flg k domid oname =
    if not (chk_domid k domid) then e_id else mp_search_oname k type_flg (flgid_at k) domid oname

-- `_tk_dmi_flg` and `_td_dmi_flg`.
abbrev pub flg_information : Kernel → ℕ → ℕ → Kernel × Option Dmi × Er
flg_information k i oname =
    let (k1, dmi) = domain_information k type_flg (k.flgcb i).flgid (k.flgcb i).flgatr i oname in
    (k1, some dmi, e_ok)

unfoldable pub tk_dmi_flg : Kernel → ℕ → ℕ → ℕ → Kernel × Option Dmi × Er
tk_dmi_flg k prid flgid oname =
    if not (chk_id k k.max_flgid flgid)
    then (k, none, e_id)
    else if_ok (flg_access k prid flgid) (λ e. (k, none, e))
        (flg_information k (index_of flgid) oname)

-- What the calls for the debugger check: the ID and the domain, and no protection.
abbrev pub td_flg_access : Kernel → ℕ → Er
td_flg_access k flgid =
    let cb = k.flgcb (index_of flgid) in
    if not (chk_id k k.max_flgid flgid)
    then e_id
    else if cb.flgid == 0
    then e_noexs
    else if not (mp_cmp_domidpart flgid cb.flgid)
    then e_noexs
    else e_ok

unfoldable pub td_dmi_flg : Kernel → ℕ → ℕ → Kernel × Option Dmi × Er
td_dmi_flg k flgid oname =
    if_ok (td_flg_access k flgid) (λ e. (k, none, e)) (flg_information k (index_of flgid) oname)

-- `eventflag_getname` and `eventflag_setname`.
unfoldable pub flg_name_access : Kernel → ℕ → Er
flg_name_access k id =
    if_ok (td_flg_access k id) (λ e. e)
      (if not (has (k.flgcb (index_of id)).flgatr ta_oname) then e_obj else e_ok)

unfoldable pub eventflag_getname : Kernel → ℕ → Er × Option ℕ
eventflag_getname k id =
    if_ok (flg_name_access k id) (λ e. (e, none))
      (e_ok, some (k.obj.oname_at type_flg (index_of id)))

unfoldable pub eventflag_setname : Kernel → ℕ → ℕ → Kernel × Er
eventflag_setname k id name =
    if_ok (flg_name_access k id) (λ e. (k, e)) (mp_change_oname k type_flg id name (index_of id))

-- `_td_lst_flg`.
unfoldable pub td_lst_flg : Kernel → ℕ → List ℕ × ℕ
td_lst_flg k nent = lst_ids (flgid_at k) k.max_flgid 0 nent

-- `_td_ref_flg`: the waiting task and the pattern.
unfoldable pub td_ref_flg : Kernel → ℕ → Er × Option (ℕ × ℕ)
td_ref_flg k flgid =
    let i = index_of flgid in
    if_ok (td_flg_access k flgid) (λ e. (e, none))
      (e_ok, some (wait_tskid k (q_flg i), (k.flgcb i).flgptn))

-- `_td_flg_que`.
unfoldable pub td_flg_que : Kernel → ℕ → ℕ → Er × List ℕ
td_flg_que k flgid nent =
    if_ok (td_flg_access k flgid) (λ e. (e, []))
      (let (ids, count) = que_ids k (k.que (q_flg (index_of flgid))) nent in (done count, ids))
