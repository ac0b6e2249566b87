-- ===== src/Domain/Names.antt =====
-- kernel/tkernel/smp_src/mp_domain.c: the names of objects, with the table of the hash keys. A name
-- is the address of up to OBJECT_NAME_LENGTH bytes; `type`, `onametop` and `cbsz` are the
-- type and the addresses `oname_at`.
use tkernel.Base.{
  ℕ, zero, suc, ◌+◌, ◌*◌, ◌/◌, ◌%◌, ◌^◌, Bool, true, false, not, ◌&&◌, Option, none, some,
  if◌then◌else◌, ◌==◌, leb, update, ℤ, pos, negsuc,
}
use tkernel.Str.{Mem, strncmp, strncpy}
use tkernel.Kernel.{Kernel, Er, done, e_ok, e_noexs, e_par, e_dacv, e_oname, ObjectType}
use tkernel.Domain.{
  get_objid, get_domid, get_prid, mp_cmp_domidpart, mp_get_patr, ta_public, mp_get_plevel,
  check_exception_condition, mp_get_domid_from_id, trace_domain_for_pchk, mp_get_calinf_tskid,
  protection_result, mp_check_domain_and_protection, type_eq,
}

-- OBJECT_NAME_LENGTH.
abbrev pub object_name_length : ℕ
object_name_length = 8

-- CHECK_DOMID: domain numbers begin at 0.
abbrev pub chk_domid : Kernel → ℕ → Bool
chk_domid k id =
    leb (get_objid id) k.max_domid && (leb (get_domid id) k.max_domid && get_prid id == 1)

-- MP_GEN_DOMIDPART and SET_PRID. The parts that `|` joins have no bit in common.
abbrev pub mp_gen_domidpart : ℕ → ℕ
mp_gen_domidpart domid = get_objid domid % 2 ^ 8 * 2 ^ 16

abbrev pub set_prid : ℕ → ℕ
set_prid id = if id / 2 ^ 24 % 2 == 0 then id + 2 ^ 24 else id

-- MAKE_HASH_KEY, for a hash below 2^16.
abbrev pub make_hash_key : ℕ → ℕ → ℕ
make_hash_key domid hash = 2 ^ 31 + mp_gen_domidpart domid + hash

-- `calc_hash`, from the byte at `a` on, with `n` left: the number of bytes and the hash.
unfoldable pub hash_from : ℕ → Mem → ℕ → ℕ → ℕ → ℕ × ℕ
hash_from zero m a i hash = (i, hash)
hash_from (suc n) m a i hash =
    let rest = hash_from n m (a + 1) (i + 1) ((hash * 17 + m a) % 2 ^ 16) in
    if m a == 0 then (i, hash) else rest

abbrev pub calc_hash : Mem → ℕ → ℕ × ℕ
calc_hash m oname = hash_from object_name_length m oname 0 0

abbrev pub is_zero : ℤ → Bool
is_zero (pos n) = n == 0
is_zero (negsuc n) = false

abbrev pub same_name : Mem → ℕ → ℕ → Bool
same_name m at oname = is_zero (strncmp m at oname object_name_length)

-- The loop over the keys, from index `i` on with `n` left.
unfoldable pub find_key : ℕ → Kernel → ObjectType → ℕ → ℕ → ℕ → Option ℕ
find_key zero k type key oname i = none
find_key (suc n) k type key oname i =
    let rest = find_key n k type key oname (i + 1) in
    if k.hash_key type i == key
    then if same_name k.mem (k.obj.oname_at type i) oname then some i else rest
    else rest

-- `search_hashcb`. none is -1.
unfoldable pub search_hashcb : Kernel → ObjectType → ℕ → ℕ → Option ℕ
search_hashcb k type domid oname =
    let (len, hash) = calc_hash k.mem oname in
    if len == 0
    then none
    else find_key (k.obj.hash_size type) k type (make_hash_key domid hash) oname 0

unfoldable pub mp_existence_check_of_domain : Kernel → ℕ → Er
mp_existence_check_of_domain k domid =
    let cb = k.domcb (get_objid domid) in
    if cb.domid == 0
    then e_noexs
    else if not (mp_cmp_domidpart cb.domid domid)
    then e_noexs
    else e_ok

-- `mp_check_protection_cre`.
unfoldable pub mp_check_protection_cre : Kernel → ℕ → ℕ → ℕ → Er
mp_check_protection_cre k prid domid atr =
    if check_exception_condition k prid atr
    then e_ok
    else protection_result e_par
        (trace_domain_for_pchk k (set_prid domid) atr (mp_get_calinf_tskid k prid))

-- `mp_check_protection_fwd`, for the task `t`.
unfoldable pub mp_check_protection_fwd : Kernel → ℕ → ℕ → ℕ → Er
mp_check_protection_fwd k objid objatr t =
    if mp_get_patr objatr == ta_public
    then e_ok
    else if leb (mp_get_plevel (k.tcb t).tskatr) k.oaplimit
    then e_ok
    else protection_result e_dacv
        (trace_domain_for_pchk k (mp_get_domid_from_id k objid) objatr (k.tcb t).tskid)

-- `mp_check_domain_and_protection_tsk`. 0 is TSK_SELF.
unfoldable pub mp_check_domain_and_protection_tsk : Kernel → ℕ → ℕ → ℕ → ℕ → Er
mp_check_domain_and_protection_tsk k prid argid objid objatr =
    if argid == 0 then e_ok else mp_check_domain_and_protection k prid argid objid objatr

abbrev pub is_found : Option ℕ → Bool
is_found none = false
is_found (some i) = true

unfoldable pub mp_existence_check_of_oname : Kernel → ObjectType → ℕ → ℕ → Er
mp_existence_check_of_oname k type domid oname =
    if is_found (search_hashcb k type domid oname) then e_oname else e_ok

-- `hashcb->key[idx] = key`.
abbrev pub set_key : Kernel → ObjectType → ℕ → ℕ → Kernel
set_key k type idx key = record k {
  hash_key = λ ty. if type_eq type ty then update (k.hash_key ty) idx key else k.hash_key ty;
}

-- `strncpy(cb->oname, oname, OBJECT_NAME_LENGTH)`.
abbrev pub set_oname : Kernel → ObjectType → ℕ → ℕ → Kernel
set_oname k type idx oname = record k {
  mem = strncpy k.mem (k.obj.oname_at type idx) oname object_name_length;
}

-- The key of a name: none for the empty one.
abbrev pub name_key : Kernel → ℕ → ℕ → ℕ
name_key k domid oname =
    let (len, hash) = calc_hash k.mem oname in if len == 0 then 0 else make_hash_key domid hash

-- `mp_change_oname`.
unfoldable pub mp_change_oname : Kernel → ObjectType → ℕ → ℕ → ℕ → Kernel × Er
mp_change_oname k type objid oname idx =
    let domid = mp_get_domid_from_id k objid in
    if is_found (search_hashcb k type domid oname)
    then (k, e_oname)
    else (set_key (set_oname k type idx oname) type idx (name_key k domid oname), e_ok)

-- `mp_search_oname`. `id_at` is the ID in the control block of an index.
unfoldable pub mp_search_oname : Kernel → ObjectType → (ℕ → ℕ) → ℕ → ℕ → Er
mp_search_oname k type id_at domid oname =
    let found : Er = elim (search_hashcb k type domid oname) [
      | none ↦ e_noexs
      | some i ↦ done (id_at i)
    ] in
    elim (mp_existence_check_of_domain k domid) [ done zero ↦ found | e ↦ e ]

-- `mp_register_object_in_domain`. The count has 32 bits.
unfoldable pub mp_register_object_in_domain : Kernel → ℕ → ObjectType → ℕ → ℕ → Kernel
mp_register_object_in_domain k domid type objidx oname =
    let index = get_objid domid in
    let k1 = set_key k type objidx (name_key k domid oname) in
    record k1 {
      domcb =
          update k1.domcb index
            (record (k1.domcb index) { objcnt = ((k1.domcb index).objcnt + 1) % 2 ^ 32 });
    }
