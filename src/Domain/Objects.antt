-- ===== src/Domain/Objects.antt =====
-- What the creations, the searches and the other calls on objects with a name have in common.
use tkernel.Base.{
  List, [], ◌∷◌, ℕ, zero, suc, ◌+◌, ◌-◌, ◌^◌, Bool, not, ◌&&◌, if◌then◌else◌, ◌==◌, bit_and,
}
use tkernel.Str.{memcpy}
use tkernel.Kernel.{Kernel, Er, done, e_ok, ObjectType, has}
use tkernel.Domain.{
  if_ok, index_of, mp_kdmid_self, mp_check_protection_fnd, mp_get_patr, mp_get_domid_from_id,
}
use tkernel.Domain.Names.{
  object_name_length, chk_domid, mp_gen_domidpart, mp_existence_check_of_domain,
  mp_check_protection_cre, mp_existence_check_of_oname, set_oname, mp_search_oname,
  mp_register_object_in_domain,
}

-- What `_tk_cre_sem` and the other creations check in the critical section, and the domain and the
-- name that the object then has.
abbrev pub ta_domid : ℕ
ta_domid = 0x10000

abbrev pub ta_oname : ℕ
ta_oname = 0x40

abbrev pub cre_domid : ℕ → ℕ → ℕ
cre_domid atr domid = if has atr ta_domid then domid else 0

abbrev pub cre_oname : Kernel → ℕ → ℕ → ℕ
cre_oname k atr oname = if has atr ta_oname then oname else k.obj.default_object_name

unfoldable pub cre_check : Kernel → ℕ → ObjectType → ℕ → ℕ → ℕ → Er
cre_check k prid type atr domid oname =
    if_ok (if has atr ta_domid then mp_existence_check_of_domain k domid else e_ok) (λ e. e)
      (if_ok
        (if has atr ta_oname
          then mp_existence_check_of_oname k type (cre_domid atr domid) oname
          else e_ok)
        (λ e. e) (mp_check_protection_cre k prid (cre_domid atr domid) atr))

-- CHECK_RSATR and CHECK_PATR.
abbrev pub has_other : ℕ → ℕ → Bool
has_other atr valid = has atr (2 ^ 32 - 1 - valid)

abbrev pub chk_patr : ℕ → Bool
chk_patr atr = not (mp_get_patr atr == 0xc0000)

-- CHECK_DOMID of a creation, where TA_DOMID is given.
abbrev pub bad_domid : Kernel → ℕ → ℕ → Bool
bad_domid k atr domid = has atr ta_domid && not (chk_domid k domid)

-- The ID of a new object: `MP_GEN_DOMIDPART(domid) | ID_SEM(index)`.
abbrev pub new_id : ℕ → ℕ → ℕ
new_id domid idx = mp_gen_domidpart domid + (2 ^ 24 + (idx + 1))

-- The name and the registration of a new object.
unfoldable pub name_object : Kernel → ObjectType → ℕ → ℕ → ℕ → Kernel
name_object k type domid idx oname =
    mp_register_object_in_domain (set_oname k type idx oname) domid type idx oname

-- What `_tk_fnd_sem` and the other searches do with the protection of what they have found.
unfoldable pub find_object : Kernel → ℕ → ObjectType → (ℕ → ℕ) → (ℕ → ℕ) → ℕ → ℕ → Er
find_object k prid type id_at atr_at domid oname =
    after_search (mp_search_oname k type id_at domid oname)
  where
    after_search : Er → Er
    after_search (done (suc n)) =
        if_ok (mp_check_protection_fnd k prid (suc n) (atr_at (index_of (suc n)))) (λ e. e)
          (done (suc n))
    after_search e = e

-- T_DMI, and what `_tk_dmi_sem` and the others write to it; `oname` is the address of the field.
pub record Dmi : Type 0 where
  pub domatr : ℕ
  pub domid : ℕ
  pub kdmid : ℕ

abbrev pub mp_get_domatr : ℕ → ℕ
mp_get_domatr atr = bit_and atr 0xc0040

unfoldable pub domain_information : Kernel → ObjectType → ℕ → ℕ → ℕ → ℕ → Kernel × Dmi
domain_information k type id atr idx oname = (
  record k { mem = memcpy k.mem oname (k.obj.oname_at type idx) object_name_length },
  record { domatr = mp_get_domatr atr; domid = mp_get_domid_from_id k id; kdmid = mp_kdmid_self },
)

-- The loop of `_td_lst_flg` and the others over the control blocks from index `i` on, `n` of them
-- left; at most `room` IDs of those in use are written, and all are counted.
unfoldable pub lst_used : (ℕ → Bool) → (ℕ → ℕ) → ℕ → ℕ → ℕ → List ℕ × ℕ
lst_used used id_at zero i room = ([], 0)
lst_used used id_at (suc n) i room =
    let skip = lst_used used id_at n (i + 1) room in
    let (ids, count) = lst_used used id_at n (i + 1) (room - 1) in
    if not (used i)
    then skip
    else if room == 0
    then (ids, count + 1)
    else (id_at i ∷ ids, count + 1)

-- Most control blocks are in use while they have an ID.
unfoldable pub lst_ids : (ℕ → ℕ) → ℕ → ℕ → ℕ → List ℕ × ℕ
lst_ids id_at = lst_used (λ i. not (id_at i == 0)) id_at
