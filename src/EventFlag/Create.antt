-- ===== src/EventFlag/Create.antt =====
-- kernel/tkernel/smp_src/eventflag.c: creation of an event flag.
use tkernel.Base.{ℕ, not, List, [], ◌∷◌, if◌then◌else◌}
use tkernel.Kernel.{Kernel, Er, done, e_id, e_rsatr, e_limit, type_flg, q_flg, set_flgcb}
use tkernel.Kernel.Queue.{set_que}
use tkernel.Domain.{if_ok}
use tkernel.Domain.Objects.{
  cre_check, cre_domid, cre_oname, has_other, chk_patr, bad_domid, new_id, name_object,
}

-- T_CFLG, without `exinf`. `oname` is the address of the name.
pub record Cflg : Type 0 where
  pub flgatr : ℕ
  pub iflgptn : ℕ
  pub domid : ℕ
  pub oname : ℕ

-- VALID_FLGATR.
abbrev pub valid_flgatr : ℕ
valid_flgatr = 0xd00c9

-- The new control block, for the first entry of the free list.
unfoldable pub cre_flg_at : Kernel → Cflg → ℕ → List ℕ → Kernel × Er
cre_flg_at k pk i free =
    let domid = cre_domid pk.flgatr pk.domid in
    let k1 = set_que (record k { free_flgcb = free }) (q_flg i) [] in
    let k2 =
      set_flgcb k1 i (record { flgid = new_id domid i; flgatr = pk.flgatr; flgptn = pk.iflgptn }) in
    (name_object k2 type_flg domid i (cre_oname k pk.flgatr pk.oname), done (new_id domid i))

-- `_tk_cre_flg`.
unfoldable pub cre_flg_body : Kernel → ℕ → Cflg → Kernel × Er
cre_flg_body k prid pk =
    if_ok (cre_check k prid type_flg pk.flgatr pk.domid pk.oname) (λ e. (k, e))
      (elim k.free_flgcb [ [] ↦ (k, e_limit) | i ∷ free ↦ cre_flg_at k pk i free ])

unfoldable pub tk_cre_flg : Kernel → ℕ → Cflg → Kernel × Er
tk_cre_flg k prid pk =
    if has_other pk.flgatr valid_flgatr
    then (k, e_rsatr)
    else if not (chk_patr pk.flgatr)
    then (k, e_rsatr)
    else if bad_domid k pk.flgatr pk.domid
    then (k, e_id)
    else cre_flg_body k prid pk
