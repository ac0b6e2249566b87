-- ===== src/Semaphore/Create.antt =====
-- kernel/tkernel/smp_src/semaphore.c: creation of a semaphore, and its name.
use tkernel.Base.{ℕ, not, Option, none, some, List, [], ◌∷◌, if◌then◌else◌, ◌==◌, ltb, ℤ, pos}
use tkernel.Kernel.{
  Kernel, Er, done, e_id, e_noexs, e_obj, e_ok, e_par, e_rsatr, e_limit, type_sem, q_sem, set_semcb,
  has,
}
use tkernel.Kernel.Queue.{set_que}
use tkernel.Domain.{if_ok, chk_id, index_of, mp_cmp_domidpart}
use tkernel.Domain.Names.{chk_domid, mp_search_oname, mp_change_oname}
use tkernel.Domain.Objects.{
  cre_check, cre_domid, cre_oname, has_other, chk_patr, bad_domid, new_id, name_object, find_object,
  ta_oname, Dmi, domain_information,
}
use tkernel.Semaphore.{sem_access, end_critical}

-- T_CSEM, without `exinf`. `oname` is the address of the name.
pub record Csem : Type 0 where
  pub sematr : ℕ
  pub isemcnt : ℤ
  pub maxsem : ℤ
  pub domid : ℕ
  pub oname : ℕ

-- VALID_SEMATR.
abbrev pub valid_sematr : ℕ
valid_sematr = 0xd00c3

-- The new control block, for the first entry of the free list.
unfoldable pub cre_sem_at : Kernel → Csem → ℕ → ℕ → ℕ → List ℕ → Kernel × Er
cre_sem_at k pk isemcnt maxsem i free =
    let domid = cre_domid pk.sematr pk.domid in
    let k1 = set_que (record k { free_semcb = free }) (q_sem i) [] in
    let k2 =
      set_semcb k1 i (record {
        semid = new_id domid i;
        sematr = pk.sematr;
        semcnt = isemcnt;
        maxsem = maxsem;
      }) in
    (name_object k2 type_sem domid i (cre_oname k pk.sematr pk.oname), done (new_id domid i))

unfoldable pub cre_sem_body : Kernel → ℕ → Csem → ℕ → ℕ → Kernel × Er
cre_sem_body k prid pk isemcnt maxsem =
    if_ok (cre_check k prid type_sem pk.sematr pk.domid pk.oname) (λ e. (k, e))
      (elim k.free_semcb [ [] ↦ (k, e_limit) | i ∷ free ↦ cre_sem_at k pk isemcnt maxsem i free ])

-- `_tk_cre_sem`, with the counts that pass CHECK_PAR.
unfoldable pub cre_sem_counts : Kernel → ℕ → Csem → ℤ → ℤ → Kernel × Er
cre_sem_counts k prid pk (pos isemcnt) (pos maxsem) =
    if not (ltb 0 maxsem)
    then (k, e_par)
    else if ltb maxsem isemcnt
    then (k, e_par)
    else if not (chk_patr pk.sematr)
    then (k, e_rsatr)
    else if bad_domid k pk.sematr pk.domid
    then (k, e_id)
    else cre_sem_body k prid pk isemcnt maxsem
cre_sem_counts k prid pk isemcnt maxsem = (k, e_par)

unfoldable pub tk_cre_sem : Kernel → ℕ → Csem → Kernel × Er
tk_cre_sem k prid pk =
    if has_other pk.sematr valid_sematr
    then (k, e_rsatr)
    else cre_sem_counts k prid pk pk.isemcnt pk.maxsem

abbrev pub semid_at : Kernel → ℕ → ℕ
semid_at k i = (k.semcb i).semid

-- `_tk_fnd_sem`, with END_CRITICAL_SECTION, and `_td_fnd_sem`.
unfoldable pub tk_fnd_sem : Kernel → ℕ → ℕ → ℕ → Kernel × Er
tk_fnd_sem k prid domid oname =
    if not (chk_domid k domid)
    then (k, e_id)
    else end_critical
        (k, find_object k prid type_sem (semid_at k) (λ i. (k.semcb i).sematr) domid oname)

unfoldable pub td_fnd_sem : Kernel → ℕ → ℕ → Er
td_fnd_sem k domid oname =
    if not (chk_domid k domid) then e_id else mp_search_oname k type_sem (semid_at k) domid oname

-- `_tk_dmi_sem` and `_td_dmi_sem`.
unfoldable pub dmi_sem_body : Kernel → ℕ → ℕ → ℕ → Kernel × Option Dmi × Er
dmi_sem_body k prid semid oname =
    let i = index_of semid in
    if_ok (sem_access k prid semid) (λ e. (k, none, e))
      (let (k1, dmi) = domain_information k type_sem (k.semcb i).semid (k.semcb i).sematr i oname in
        (k1, some dmi, e_ok))

unfoldable pub tk_dmi_sem : Kernel → ℕ → ℕ → ℕ → Kernel × Option Dmi × Er
tk_dmi_sem k prid semid oname =
    if not (chk_id k k.max_semid semid)
    then (k, none, e_id)
    else (let (k1, dmi, e) = dmi_sem_body k prid semid oname in ((end_critical (k1, e)).0, dmi, e))

unfoldable pub td_dmi_sem : Kernel → ℕ → ℕ → Kernel × Option Dmi × Er
td_dmi_sem k semid oname =
    let i = index_of semid in
    if not (chk_id k k.max_semid semid)
    then (k, none, e_id)
    else if (k.semcb i).semid == 0
    then (k, none, e_noexs)
    else if not (mp_cmp_domidpart semid (k.semcb i).semid)
    then (k, none, e_noexs)
    else (let (k1, dmi) =
          domain_information k type_sem (k.semcb i).semid (k.semcb i).sematr i oname in
        (k1, some dmi, e_ok))

-- `semaphore_getname` and `semaphore_setname`.
unfoldable pub sem_name_access : Kernel → ℕ → Er
sem_name_access k id =
    let cb = k.semcb (index_of id) in
    if not (chk_id k k.max_semid id)
    then e_id
    else if cb.semid == 0
    then e_noexs
    else if not (mp_cmp_domidpart id cb.semid)
    then e_noexs
    else if not (has cb.sematr ta_oname)
    then e_obj
    else e_ok

unfoldable pub semaphore_getname : Kernel → ℕ → Er × Option ℕ
semaphore_getname k id =
    if_ok (sem_name_access k id) (λ e. (e, none))
      (e_ok, some (k.obj.oname_at type_sem (index_of id)))

unfoldable pub semaphore_setname : Kernel → ℕ → ℕ → Kernel × Er
semaphore_setname k id name =
    if_ok (sem_name_access k id) (λ e. (k, e)) (mp_change_oname k type_sem id name (index_of id))
