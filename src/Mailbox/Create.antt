-- ===== src/Mailbox/Create.antt =====
-- kernel/tkernel/smp_src/mailbox.c: creation of a mailbox.
use tkernel.Base.{ℕ, not, List, [], ◌∷◌, if◌then◌else◌}
use tkernel.Kernel.{Kernel, Er, done, e_id, e_rsatr, e_limit, type_mbx, q_mbx, set_mbxcb}
use tkernel.Kernel.Queue.{set_que}
use tkernel.Domain.{if_ok}
use tkernel.Domain.Objects.{
  cre_check, cre_domid, cre_oname, has_other, chk_patr, bad_domid, new_id, name_object,
}

-- T_CMBX, without `exinf`. `oname` is the address of the name.
pub record Cmbx : Type 0 where
  pub mbxatr : ℕ
  pub domid : ℕ
  pub oname : ℕ

-- VALID_MBXATR.
abbrev pub valid_mbxatr : ℕ
valid_mbxatr = 0xd00c3

-- The new control block, for the first entry of the free list.
unfoldable pub cre_mbx_at : Kernel → Cmbx → ℕ → List ℕ → Kernel × Er
cre_mbx_at k pk i free =
    let domid = cre_domid pk.mbxatr pk.domid in
    let k1 = set_que (record k { obj = record k.obj { free_mbxcb = free } }) (q_mbx i) [] in
    let k2 = set_mbxcb k1 i (record {
      mbxid = new_id domid i;
      mbxatr = pk.mbxatr;
      mq_head = 0;
      mq_tail = (k1.obj.mbxcb i).mq_tail;
    }) in
    (name_object k2 type_mbx domid i (cre_oname k pk.mbxatr pk.oname), done (new_id domid i))

unfoldable pub cre_mbx_body : Kernel → ℕ → Cmbx → Kernel × Er
cre_mbx_body k prid pk =
    if_ok (cre_check k prid type_mbx pk.mbxatr pk.domid pk.oname) (λ e. (k, e))
      (elim k.obj.free_mbxcb [ [] ↦ (k, e_limit) | i ∷ free ↦ cre_mbx_at k pk i free ])

-- `_tk_cre_mbx`.
unfoldable pub tk_cre_mbx : Kernel → ℕ → Cmbx → Kernel × Er
tk_cre_mbx k prid pk =
    if has_other pk.mbxatr valid_mbxatr
    then (k, e_rsatr)
    else if not (chk_patr pk.mbxatr)
    then (k, e_rsatr)
    else if bad_domid k pk.mbxatr pk.domid
    then (k, e_id)
    else cre_mbx_body k prid pk
