-- ===== src/FixedPool/Names.antt =====
-- kernel/tkernel/smp_src/mempfix.c: the names of fixed memory pools, and the calls for the debugger.
use tkernel.Base.{ℕ, not, Option, none, some, List, [], if◌then◌else◌, ◌==◌}
use tkernel.Kernel.{Kernel, Er, done, e_id, e_noexs, e_obj, e_ok, type_mpf, q_mpf, has}
use tkernel.Domain.{if_ok, chk_id, index_of, mp_cmp_domidpart}
use tkernel.Domain.Names.{chk_domid, mp_search_oname, mp_change_oname}
use tkernel.Domain.Objects.{find_object, ta_oname, Dmi, domain_information, lst_ids}
use tkernel.Wait.{wait_tskid}
use tkernel.Semaphore.{que_ids}
use tkernel.FixedPool.{mpf_access}

abbrev pub mpfid_at : Kernel → ℕ → ℕ
mpfid_at k i = (k.obj.mpfcb i).mpfid

-- `_tk_fnd_mpf` and `_td_fnd_mpf`.
unfoldable pub tk_fnd_mpf : Kernel → ℕ → ℕ → ℕ → Er
tk_fnd_mpf k prid domid oname =
    if not (chk_domid k domid)
    then e_id
    else find_object k prid type_mpf (mpfid_at k) (λ i. (k.obj.mpfcb i).mpfatr) domid oname

unfoldable pub td_fnd_mpf : Kernel → ℕ → ℕ → Er
td_fnd_mpf k domid oname =
    if not (chk_domid k domid) then e_id else mp_search_oname k type_mpf (mpfid_at k) domid oname

-- `_tk_dmi_mpf` and `_td_dmi_mpf`.
abbrev pub mpf_information : Kernel → ℕ → ℕ → Kernel × Option Dmi × Er
mpf_information k i oname =
    let (k1, dmi) =
      domain_information k type_mpf (k.obj.mpfcb i).mpfid (k.obj.mpfcb i).mpfatr i oname in
    (k1, some dmi, e_ok)

unfoldable pub tk_dmi_mpf : Kernel → ℕ → ℕ → ℕ → Kernel × Option Dmi × Er
tk_dmi_mpf k prid mpfid oname =
    if not (chk_id k k.obj.max_mpfid mpfid)
    then (k, none, e_id)
    else if_ok (mpf_access k prid mpfid) (λ e. (k, none, e))
        (mpf_information k (index_of mpfid) oname)

-- What the calls for the debugger check: the ID and the domain, and no protection.
abbrev pub td_mpf_access : Kernel → ℕ → Er
td_mpf_access k mpfid =
    let cb = k.obj.mpfcb (index_of mpfid) in
    if not (chk_id k k.obj.max_mpfid mpfid)
    then e_id
    else if cb.mpfid == 0
    then e_noexs
    else if not (mp_cmp_domidpart mpfid cb.mpfid)
    then e_noexs
    else e_ok

unfoldable pub td_dmi_mpf : Kernel → ℕ → ℕ → Kernel × Option Dmi × Er
td_dmi_mpf k mpfid oname =
    if_ok (td_mpf_access k mpfid) (λ e. (k, none, e)) (mpf_information k (index_of mpfid) oname)

-- `fix_memorypool_getname` and `fix_memorypool_setname`.
unfoldable pub mpf_name_access : Kernel → ℕ → Er
mpf_name_access k id =
    if_ok (td_mpf_access k id) (λ e. e)
      (if not (has (k.obj.mpfcb (index_of id)).mpfatr ta_oname) then e_obj else e_ok)

unfoldable pub fix_memorypool_getname : Kernel → ℕ → Er × Option ℕ
fix_memorypool_getname k id =
    if_ok (mpf_name_access k id) (λ e. (e, none))
      (e_ok, some (k.obj.oname_at type_mpf (index_of id)))

unfoldable pub fix_memorypool_setname : Kernel → ℕ → ℕ → Kernel × Er
fix_memorypool_setname k id name =
    if_ok (mpf_name_access k id) (λ e. (k, e)) (mp_change_oname k type_mpf id name (index_of id))

-- `_td_lst_mpf`.
unfoldable pub td_lst_mpf : Kernel → ℕ → List ℕ × ℕ
td_lst_mpf k nent = lst_ids (mpfid_at k) k.obj.max_mpfid 0 nent

-- `_td_ref_mpf`: the waiting task and the number of free blocks.
unfoldable pub td_ref_mpf : Kernel → ℕ → Er × Option (ℕ × ℕ)
td_ref_mpf k mpfid =
    let i = index_of mpfid in
    if_ok (td_mpf_access k mpfid) (λ e. (e, none))
      (e_ok, some (wait_tskid k (q_mpf i), (k.obj.mpfcb i).frbcnt))

-- `_td_mpf_que`.
unfoldable pub td_mpf_que : Kernel → ℕ → ℕ → Er × List ℕ
td_mpf_que k mpfid nent =
    if_ok (td_mpf_access k mpfid) (λ e. (e, []))
      (let (ids, count) = que_ids k (k.que (q_mpf (index_of mpfid))) nent in (done count, ids))
