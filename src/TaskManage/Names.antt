-- ===== src/TaskManage/Names.antt =====
-- kernel/tkernel/smp_src/task_manage.c: the names of tasks, and the list of tasks for the debugger.
use tkernel.Base.{ℕ, not, Option, none, some, List, if◌then◌else◌}
use tkernel.Kernel.{Kernel, Er, e_id, e_noexs, e_obj, e_ok, type_tsk, has}
use tkernel.Domain.{if_ok, index_of}
use tkernel.Domain.Names.{chk_domid, mp_search_oname, mp_change_oname}
use tkernel.Domain.Objects.{find_object, ta_oname, Dmi, domain_information, lst_used}
use tkernel.TaskSync.{check_tskid_self, get_tcb_self, is_nonexist}
use tkernel.TaskManage.{self_access, td_tsk_access}

abbrev pub tskid_at : Kernel → ℕ → ℕ
tskid_at k i = (k.tcb i).tskid

-- `_tk_fnd_tsk` and `_td_fnd_tsk`.
unfoldable pub tk_fnd_tsk : Kernel → ℕ → ℕ → ℕ → Er
tk_fnd_tsk k prid domid oname =
    if not (chk_domid k domid)
    then e_id
    else find_object k prid type_tsk (tskid_at k) (λ i. (k.tcb i).tskatr) domid oname

unfoldable pub td_fnd_tsk : Kernel → ℕ → ℕ → Er
td_fnd_tsk k domid oname =
    if not (chk_domid k domid) then e_id else mp_search_oname k type_tsk (tskid_at k) domid oname

-- `_tk_dmi_tsk` and `_td_dmi_tsk`. The name is in the TCB.
abbrev pub tsk_information : Kernel → ℕ → ℕ → Kernel × Option Dmi × Er
tsk_information k t oname =
    let (k1, dmi) = domain_information k type_tsk (k.tcb t).tskid (k.tcb t).tskatr t oname in
    (k1, some dmi, e_ok)

unfoldable pub tk_dmi_tsk : Kernel → ℕ → ℕ → ℕ → Kernel × Option Dmi × Er
tk_dmi_tsk k prid tskid oname =
    let t = get_tcb_self k prid tskid in
    if not (check_tskid_self k prid tskid)
    then (k, none, e_id)
    else if_ok (self_access k prid t tskid) (λ e. (k, none, e)) (tsk_information k t oname)

-- What the calls for the debugger check: the ID and the domain, and no protection.
abbrev pub td_tsk_check : Kernel → ℕ → ℕ → Er
td_tsk_check k prid tskid =
    if not (check_tskid_self k prid tskid)
    then e_id
    else if td_tsk_access k (get_tcb_self k prid tskid) tskid
    then e_ok
    else e_noexs

unfoldable pub td_dmi_tsk : Kernel → ℕ → ℕ → ℕ → Kernel × Option Dmi × Er
td_dmi_tsk k prid tskid oname =
    if_ok (td_tsk_check k prid tskid) (λ e. (k, none, e))
      (tsk_information k (get_tcb_self k prid tskid) oname)

-- `task_getname` and `task_setname`.
unfoldable pub tsk_name_access : Kernel → ℕ → ℕ → Er
tsk_name_access k prid tskid =
    if_ok (td_tsk_check k prid tskid) (λ e. e)
      (if not (has (k.tcb (get_tcb_self k prid tskid)).tskatr ta_oname) then e_obj else e_ok)

unfoldable pub task_getname : Kernel → ℕ → ℕ → Er × Option ℕ
task_getname k prid tskid =
    if_ok (tsk_name_access k prid tskid) (λ e. (e, none))
      (e_ok, some (k.obj.oname_at type_tsk (get_tcb_self k prid tskid)))

unfoldable pub task_setname : Kernel → ℕ → ℕ → ℕ → Kernel × Er
task_setname k prid tskid name =
    let id = (k.tcb (get_tcb_self k prid tskid)).tskid in
    if_ok (tsk_name_access k prid tskid) (λ e. (k, e))
      (mp_change_oname k type_tsk id name (index_of id))

-- `_td_lst_tsk`.
unfoldable pub td_lst_tsk : Kernel → ℕ → List ℕ × ℕ
td_lst_tsk k nent =
    lst_used (λ i. not (is_nonexist (k.tcb i).state)) (λ i. (k.tcb i).tskid) k.max_tskid 0 nent
