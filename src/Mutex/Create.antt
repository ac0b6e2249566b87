-- ===== src/Mutex/Create.antt =====
-- kernel/tkernel/smp_src/mutex.c: creation of a mutex.
use tkernel.Base.{ℕ, Bool, not, ◌&&◌, none, List, [], ◌∷◌, if◌then◌else◌, ◌==◌, bit_and}
use tkernel.Kernel.{Kernel, Er, done, e_id, e_par, e_rsatr, e_limit, type_mtx, q_mtx, set_mtxcb}
use tkernel.Kernel.Queue.{set_que}
use tkernel.Domain.{if_ok}
use tkernel.Domain.Objects.{
  cre_check, cre_domid, cre_oname, has_other, chk_patr, bad_domid, new_id, name_object,
}
use tkernel.TaskManage.{chk_pri, int_priority}

-- T_CMTX, without `exinf`. `oname` is the address of the name.
pub record Cmtx : Type 0 where
  pub mtxatr : ℕ
  pub ceilpri : ℕ
  pub domid : ℕ
  pub oname : ℕ

-- VALID_MTXATR.
abbrev pub valid_mtxatr : ℕ
valid_mtxatr = 0xd00c3

abbrev pub has_ceiling : Cmtx → Bool
has_ceiling pk = bit_and pk.mtxatr 3 == 3

-- The new control block, for the first entry of the free list.
unfoldable pub cre_mtx_at : Kernel → Cmtx → ℕ → List ℕ → Kernel × Er
cre_mtx_at k pk i free =
    let domid = cre_domid pk.mtxatr pk.domid in
    let k1 = set_que (record k { obj = record k.obj { free_mtxcb = free } }) (q_mtx i) [] in
    let k2 = set_mtxcb k1 i (record {
      mtxid = new_id domid i;
      mtxatr = pk.mtxatr;
      ceilpri = if has_ceiling pk then int_priority pk.ceilpri else 0;
      mtxtsk = none;
    }) in
    (name_object k2 type_mtx domid i (cre_oname k pk.mtxatr pk.oname), done (new_id domid i))

unfoldable pub cre_mtx_body : Kernel → ℕ → Cmtx → Kernel × Er
cre_mtx_body k prid pk =
    if_ok (cre_check k prid type_mtx pk.mtxatr pk.domid pk.oname) (λ e. (k, e))
      (elim k.obj.free_mtxcb [ [] ↦ (k, e_limit) | i ∷ free ↦ cre_mtx_at k pk i free ])

-- `_tk_cre_mtx`.
unfoldable pub tk_cre_mtx : Kernel → ℕ → Cmtx → Kernel × Er
tk_cre_mtx k prid pk =
    if has_other pk.mtxatr valid_mtxatr
    then (k, e_rsatr)
    else if not (chk_patr pk.mtxatr)
    then (k, e_rsatr)
    else if bad_domid k pk.mtxatr pk.domid
    then (k, e_id)
    else if has_ceiling pk && not (chk_pri pk.ceilpri)
    then (k, e_par)
    else cre_mtx_body k prid pk
