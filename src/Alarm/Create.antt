-- ===== src/Alarm/Create.antt =====
-- kernel/tkernel/smp_src/time_calls.c: creation of an alarm handler.
use tkernel.Base.{ℕ, false, not, ◌&&◌, List, [], ◌∷◌, if◌then◌else◌, ◌==◌}
use tkernel.Kernel.{
  Kernel, Er, done, e_id, e_par, e_rsatr, e_limit, type_alm, set_almcb, has, ta_assprc,
}
use tkernel.Domain.{if_ok}
use tkernel.Domain.Objects.{
  cre_check, cre_domid, cre_oname, has_other, chk_patr, bad_domid, new_id, name_object,
}
use tkernel.Handler.{chk_assprc}

-- T_CALM. `oname` is the address of the name.
pub record Calm : Type 0 where
  pub exinf : ℕ
  pub almatr : ℕ
  pub almhdr : ℕ
  pub domid : ℕ
  pub assprc : ℕ
  pub oname : ℕ

-- VALID_ALMATR.
abbrev pub valid_almatr : ℕ
valid_almatr = 0xf0041

-- The new control block, for the first entry of the free list, and its registration.
unfoldable pub cre_alm_at : Kernel → Calm → ℕ → List ℕ → Kernel × Er
cre_alm_at k pk i free =
    let domid = cre_domid pk.almatr pk.domid in
    let k1 = record k { obj = record k.obj { free_almcb = free } } in
    let k2 = set_almcb k1 i (record (k1.obj.almcb i) {
      exinf = pk.exinf;
      almatr = pk.almatr;
      almhdr = pk.almhdr;
      sta = false;
      run = false;
      imm = false;
      assprc = if has pk.almatr ta_assprc then pk.assprc else 0;
      almid = new_id domid i;
    }) in
    (name_object k2 type_alm domid i (cre_oname k pk.almatr pk.oname), done (new_id domid i))

unfoldable pub cre_alm_body : Kernel → ℕ → Calm → Kernel × Er
cre_alm_body k prid pk =
    if_ok (cre_check k prid type_alm pk.almatr pk.domid pk.oname) (λ e. (k, e))
      (elim k.obj.free_almcb [ [] ↦ (k, e_limit) | i ∷ free ↦ cre_alm_at k pk i free ])

-- `_tk_cre_alm`.
unfoldable pub tk_cre_alm : Kernel → ℕ → Calm → Kernel × Er
tk_cre_alm k prid pk =
    if has_other pk.almatr valid_almatr
    then (k, e_rsatr)
    else if pk.almhdr == 0
    then (k, e_par)
    else if not (chk_patr pk.almatr)
    then (k, e_rsatr)
    else if has pk.almatr ta_assprc && not (chk_assprc k pk.assprc)
    then (k, e_par)
    else if bad_domid k pk.almatr pk.domid
    then (k, e_id)
    else cre_alm_body k prid pk
