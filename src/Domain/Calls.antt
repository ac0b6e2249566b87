-- ===== src/Domain/Calls.antt =====
-- kernel/tkernel/smp_src/mp_domain.c: the system calls on domains. TA_DOMID gives the domain in which
-- the new domain is. END_CRITICAL_NO_DISPATCH ends each of them.
use tkernel.Base.{
  ℕ, ◌+◌, ◌^◌, not, Option, none, some, List, [], ◌∷◌, ◌++◌, if◌then◌else◌, ◌==◌, update,
}
use tkernel.Kernel.{
  Kernel, Domcb, Er, done, e_id, e_noexs, e_obj, e_ok, e_rsatr, e_limit, type_dom, has,
}
use tkernel.Domain.{
  if_ok, get_objid, mp_cmp_domidpart, mp_kdmid_self, mp_get_domid_from_id,
  mp_unregister_object_in_domain,
}
use tkernel.Domain.Names.{
  mp_existence_check_of_domain, mp_existence_check_of_oname, mp_gen_domidpart, chk_domid,
  mp_search_oname, mp_change_oname,
}
use tkernel.Domain.Objects.{
  cre_domid, cre_oname, has_other, bad_domid, ta_domid, ta_oname, name_object, Dmi,
  domain_information, lst_ids,
}

-- T_CDOM, without `exinf`. `oname` is the address of the name.
pub record Cdom : Type 0 where
  pub domatr : ℕ
  pub domid : ℕ
  pub oname : ℕ

-- VALID_DOMATR.
abbrev pub valid_domatr : ℕ
valid_domatr = 0x10040

abbrev pub set_domcb : Kernel → ℕ → Domcb → Kernel
set_domcb k i cb = record k { domcb = update k.domcb i cb }

-- `MP_GEN_DOMIDPART(bdomid) | ID_DOM(index)`.
abbrev pub new_domid : ℕ → ℕ → ℕ
new_domid bdomid idx = mp_gen_domidpart bdomid + (2 ^ 24 + idx)

unfoldable pub cre_dom_at : Kernel → Cdom → ℕ → List ℕ → Kernel × Er
cre_dom_at k pk i free =
    let bdomid = cre_domid pk.domatr pk.domid in
    let k1 = record k { obj = record k.obj { free_domcb = free } } in
    let k2 =
      set_domcb k1 i (record (k1.domcb i) { domid = new_domid bdomid i; domatr = pk.domatr }) in
    let k3 = name_object k2 type_dom bdomid i (cre_oname k pk.domatr pk.oname) in
    (set_domcb k3 i (record (k3.domcb i) { objcnt = 0 }), done (new_domid bdomid i))

-- `_tk_cre_dom`.
unfoldable pub cre_dom_body : Kernel → Cdom → Kernel × Er
cre_dom_body k pk =
    if_ok (if has pk.domatr ta_domid then mp_existence_check_of_domain k pk.domid else e_ok)
      (λ e. (k, e))
      (if_ok
        (if has pk.domatr ta_oname
          then mp_existence_check_of_oname k type_dom (cre_domid pk.domatr pk.domid) pk.oname
          else e_ok)
        (λ e. (k, e))
        (elim k.obj.free_domcb [ [] ↦ (k, e_limit) | i ∷ free ↦ cre_dom_at k pk i free ]))

unfoldable pub tk_cre_dom : Kernel → Cdom → Kernel × Er
tk_cre_dom k pk =
    if has_other pk.domatr valid_domatr
    then (k, e_rsatr)
    else if bad_domid k pk.domatr pk.domid
    then (k, e_id)
    else cre_dom_body k pk

-- What most calls check of the domain.
unfoldable pub dom_access : Kernel → ℕ → Er
dom_access k domid =
    let cb = k.domcb (get_objid domid) in
    if cb.domid == 0
    then e_noexs
    else if not (mp_cmp_domidpart cb.domid domid)
    then e_noexs
    else e_ok

-- The end of a domain.
unfoldable pub remove_domain : Kernel → ℕ → Kernel
remove_domain k domid =
    let i = get_objid domid in
    let k1 = mp_unregister_object_in_domain k domid type_dom i in
    let k2 = record k1 { obj = record k1.obj { free_domcb = k1.obj.free_domcb ++ (i ∷ []) } } in
    set_domcb k2 i (record (k2.domcb i) { domid = 0 })

-- `_tk_del_dom`: only an empty domain.
unfoldable pub tk_del_dom : Kernel → ℕ → Kernel × Er
tk_del_dom k domid =
    if not (chk_domid k domid)
    then (k, e_id)
    else if domid == mp_kdmid_self
    then (k, e_obj)
    else if_ok (dom_access k domid) (λ e. (k, e))
        (if not ((k.domcb (get_objid domid)).objcnt == 0)
          then (k, e_obj)
          else (remove_domain k domid, e_ok))

-- `_tk_fdel_dom`.
unfoldable pub tk_fdel_dom : Kernel → ℕ → Kernel × Er
tk_fdel_dom k domid =
    if not (chk_domid k domid)
    then (k, e_id)
    else if domid == mp_kdmid_self
    then (k, e_obj)
    else if_ok (dom_access k domid) (λ e. (k, e)) (remove_domain k domid, e_ok)

-- `_tk_ref_dom` and `_td_ref_dom`, without `exinf`: the domain and the number of objects.
unfoldable pub tk_ref_dom : Kernel → ℕ → Er × Option (ℕ × ℕ)
tk_ref_dom k domid =
    let cb = k.domcb (get_objid domid) in
    if not (chk_domid k domid)
    then (e_id, none)
    else if_ok (dom_access k domid) (λ e. (e, none))
        (e_ok, some (mp_get_domid_from_id k cb.domid, cb.objcnt))

unfoldable pub td_ref_dom : Kernel → ℕ → Er × Option (ℕ × ℕ)
td_ref_dom k domid = tk_ref_dom k domid

-- `_tk_fnd_dom` and `_td_fnd_dom`.
unfoldable pub tk_fnd_dom : Kernel → ℕ → ℕ → Er
tk_fnd_dom k domid oname =
    if not (chk_domid k domid)
    then e_id
    else mp_search_oname k type_dom (λ i. (k.domcb i).domid) domid oname

unfoldable pub td_fnd_dom : Kernel → ℕ → ℕ → Er
td_fnd_dom k domid oname = tk_fnd_dom k domid oname

-- `_tk_dmi_dom` and `_td_dmi_dom`.
unfoldable pub tk_dmi_dom : Kernel → ℕ → ℕ → Kernel × Option Dmi × Er
tk_dmi_dom k domid oname =
    let cb = k.domcb (get_objid domid) in
    let (k1, dmi) = domain_information k type_dom cb.domid cb.domatr (get_objid domid) oname in
    if not (chk_domid k domid)
    then (k, none, e_id)
    else if_ok (dom_access k domid) (λ e. (k, none, e)) (k1, some dmi, e_ok)

unfoldable pub td_dmi_dom : Kernel → ℕ → ℕ → Kernel × Option Dmi × Er
td_dmi_dom k domid oname = tk_dmi_dom k domid oname

-- `domain_getname` and `domain_setname`.
unfoldable pub dom_name_access : Kernel → ℕ → Er
dom_name_access k id =
    if not (chk_domid k id)
    then e_id
    else if_ok (dom_access k id) (λ e. e)
        (if not (has (k.domcb (get_objid id)).domatr ta_oname) then e_obj else e_ok)

unfoldable pub domain_getname : Kernel → ℕ → Er × Option ℕ
domain_getname k id =
    if_ok (dom_name_access k id) (λ e. (e, none))
      (e_ok, some (k.obj.oname_at type_dom (get_objid id)))

unfoldable pub domain_setname : Kernel → ℕ → ℕ → Kernel × Er
domain_setname k id name =
    if_ok (dom_name_access k id) (λ e. (k, e)) (mp_change_oname k type_dom id name (get_objid id))

-- `_td_lst_dom`: all but the kernel domain.
unfoldable pub td_lst_dom : Kernel → ℕ → List ℕ × ℕ
td_lst_dom k nent = lst_ids (λ i. (k.domcb i).domid) k.max_domid 1 nent
