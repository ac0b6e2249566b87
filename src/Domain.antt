-- ===== src/Domain.antt =====
-- kernel/tkernel/smp_src/mp_domain.c: the checks of an object's domain and protection, with the
-- fields of an ID (config.h, mp_domain.h) and the range checks of check.h. An ID is its bit pattern,
-- a number below 2^32.
pub mod Tests
pub mod Trace
pub mod Names
pub mod Objects
pub mod Search
pub mod Compare
pub mod Calls
pub mod Register
use tkernel.Base.{
  ℕ, zero, suc, ◌+◌, ◌-◌, ◌/◌, ◌%◌, ◌^◌, Bool, true, false, not, ◌&&◌, ◌||◌, Option, none, some,
  if◌then◌else◌, ◌==◌, leb, update, bit_and,
}
use tkernel.Kernel.{
  Kernel, Er, done, e_ok, e_noexs, e_dacv, no_result, ObjectType, type_tsk, type_sem, type_flg,
  type_mbx, type_mtx, type_mbf, type_por, type_mpf, type_mpl, type_cyc, type_alm, type_dom,
}

-- GET_OBJID, GET_DOMID and GET_PRID.
abbrev pub get_objid : ℕ → ℕ
get_objid id = id % 2 ^ 16

abbrev pub get_domid : ℕ → ℕ
get_domid id = id / 2 ^ 16 % 2 ^ 8

abbrev pub get_prid : ℕ → ℕ
get_prid id = id / 2 ^ 24 % 2 ^ 4

-- MP_KDMID_SELF.
abbrev pub mp_kdmid_self : ℕ
mp_kdmid_self = 2 ^ 24

-- CHK_SEMID(id) and the like for an object table of `max` entries, with CHK_ID_DOM and CHK_ID_PRC.
abbrev pub chk_id : Kernel → ℕ → ℕ → Bool
chk_id k max id =
    (leb 1 (get_objid id) && leb (get_objid id) max)
    && (leb (get_domid id) k.max_domid && get_prid id == 1)

-- INDEX_SEM(id), INDEX_FLG(id), INDEX_TSK(id).
abbrev pub index_of : ℕ → ℕ
index_of id = get_objid id - 1

-- MP_CMP_DOMIDPART.
abbrev pub mp_cmp_domidpart : ℕ → ℕ → Bool
mp_cmp_domidpart id1 id2 = get_domid id1 == get_domid id2

abbrev pub ta_protected : ℕ
ta_protected = 0x80000

abbrev pub ta_public : ℕ
ta_public = 0

-- MP_GET_PATR: TA_PRIVATE, TA_PROTECTED and TA_PUBLIC.
abbrev pub mp_get_patr : ℕ → ℕ
mp_get_patr atr = bit_and atr 0xc0000

-- `mp_get_plevel`: TA_RNG3 are bits 8 and 9.
abbrev pub mp_get_plevel : ℕ → ℕ
mp_get_plevel tskatr = tskatr / 2 ^ 8 % 4

-- The processor on which the call is made is an argument, `prid`.
abbrev pub in_indp : Kernel → ℕ → Bool
in_indp k prid = k.task_indp prid || (elim (k.ctxtsk prid) [ none ↦ true | some t ↦ false ])

abbrev pub in_ddsp : Kernel → ℕ → Bool
in_ddsp k prid = not (k.dispatch_disabled prid == 0) || (in_indp k prid || k.int_disabled prid)

-- `mp_get_calinf_tskid` and `mp_get_calinf_plevel`; both are called where there is a task.
abbrev pub mp_get_calinf_tskid : Kernel → ℕ → ℕ
mp_get_calinf_tskid k prid = elim (k.ctxtsk prid) [ none ↦ 0 | some t ↦ (k.tcb t).tskid ]

abbrev pub mp_get_calinf_plevel : Kernel → ℕ → ℕ
mp_get_calinf_plevel k prid = elim (k.ctxtsk prid) [
  | none ↦ 0
  | some t ↦ mp_get_plevel (k.tcb t).tskatr
]

unfoldable pub check_exception_condition : Kernel → ℕ → ℕ → Bool
check_exception_condition k prid atr =
    if mp_get_patr atr == ta_public
    then true
    else if in_indp k prid
    then true
    else leb (mp_get_calinf_plevel k prid) k.oaplimit

-- `mp_get_domid_from_id`.
abbrev pub mp_get_domid_from_id : Kernel → ℕ → ℕ
mp_get_domid_from_id k id = (k.domcb (get_domid id)).domid

-- `trace_domain_for_pchk`, from the ID of a task up the domains that hold it. A round for each of
-- the 256 domain numbers is enough fuel where no domain holds itself.
unfoldable pub trace_domain : ℕ → Kernel → ℕ → ℕ → ℕ → Option Bool
trace_domain zero k domid patr id = none
trace_domain (suc f) k domid patr id =
    let up = mp_get_domid_from_id k id in
    let rest = trace_domain f k domid patr up in
    if up == domid
    then some true
    else if patr == ta_protected && not (up == mp_kdmid_self)
    then rest
    else some false

unfoldable pub trace_domain_for_pchk : Kernel → ℕ → ℕ → ℕ → Option Bool
trace_domain_for_pchk k domid atr tskid = trace_domain 257 k domid (mp_get_patr atr) tskid

unfoldable pub protection_result : Er → Option Bool → Er
protection_result refused none = no_result
protection_result refused (some true) = e_ok
protection_result refused (some false) = refused

-- `mp_check_domain_and_protection`.
unfoldable pub mp_check_domain_and_protection : Kernel → ℕ → ℕ → ℕ → ℕ → Er
mp_check_domain_and_protection k prid argid objid objatr =
    if not (mp_cmp_domidpart argid objid)
    then e_noexs
    else if check_exception_condition k prid objatr
    then e_ok
    else protection_result e_dacv
        (trace_domain_for_pchk k (mp_get_domid_from_id k objid) objatr (mp_get_calinf_tskid k prid))

-- `mp_check_protection_fnd`.
unfoldable pub mp_check_protection_fnd : Kernel → ℕ → ℕ → ℕ → Er
mp_check_protection_fnd k prid objid objatr =
    if check_exception_condition k prid objatr
    then e_ok
    else protection_result e_noexs
        (trace_domain_for_pchk k (mp_get_domid_from_id k objid) objatr (mp_get_calinf_tskid k prid))

abbrev pub type_no : ObjectType → ℕ
type_no type_tsk = 0
type_no type_sem = 1
type_no type_flg = 2
type_no type_mbx = 3
type_no type_mtx = 4
type_no type_mbf = 5
type_no type_por = 6
type_no type_mpf = 7
type_no type_mpl = 8
type_no type_cyc = 9
type_no type_alm = 10
type_no type_dom = 11

abbrev pub type_eq : ObjectType → ObjectType → Bool
type_eq a b = type_no a == type_no b

-- `mp_unregister_object_in_domain`. The count has 32 bits.
unfoldable pub mp_unregister_object_in_domain : Kernel → ℕ → ObjectType → ℕ → Kernel
mp_unregister_object_in_domain k objid type objidx =
    let index = get_objid (mp_get_domid_from_id k objid) in
    record k {
      hash_key = λ ty. if type_eq type ty then update (k.hash_key ty) objidx 0 else k.hash_key ty;
      domcb =
          update k.domcb index
            (record (k.domcb index) { objcnt = ((k.domcb index).objcnt + 2 ^ 32 - 1) % 2 ^ 32 });
    }

-- What a call does after an access check: an error other than E_OK ends it.
abbrev pub if_ok {ℓ} : {A : Type ℓ} → Er → (Er → A) → A → A
if_ok (done zero) failed go = go
if_ok e failed go = failed e
