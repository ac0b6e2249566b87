-- ===== src/Cyclic/Create.antt =====
-- kernel/tkernel/smp_src/time_calls.c: creation of a cyclic handler.
use tkernel.Base.{
  ℕ, ◌+◌, Bool, true, false, not, ◌&&◌, ◌||◌, Option, none, some, List, [], ◌∷◌, if◌then◌else◌,
  ◌==◌,
}
use tkernel.Kernel.{
  Kernel, Er, done, e_id, e_par, e_rsatr, e_limit, no_result, type_cyc, set_cyccb, has, ta_assprc,
}
use tkernel.Domain.{if_ok}
use tkernel.Domain.Objects.{
  cre_check, cre_domid, cre_oname, has_other, chk_patr, bad_domid, new_id, name_object,
}
use tkernel.Semaphore.{end_critical}
use tkernel.Handler.{chk_assprc, cyc_timer_insert, immediate_call_cychdr}
use tkernel.Cyclic.{ta_sta}

-- T_CCYC. `oname` is the address of the name.
pub record Ccyc : Type 0 where
  pub exinf : ℕ
  pub cycatr : ℕ
  pub cychdr : ℕ
  pub cyctim : ℕ
  pub cycphs : ℕ
  pub domid : ℕ
  pub assprc : ℕ
  pub oname : ℕ

-- VALID_CYCATR.
abbrev pub valid_cycatr : ℕ
valid_cycatr = 0xf0047

-- The new control block, for the first entry of the free list, and its registration.
unfoldable pub new_cyccb : Kernel → Ccyc → ℕ → List ℕ → Kernel
new_cyccb k pk i free =
    let domid = cre_domid pk.cycatr pk.domid in
    let k1 = record k { obj = record k.obj { free_cyccb = free } } in
    let k2 = set_cyccb k1 i (record (k1.obj.cyccb i) {
      exinf = pk.exinf;
      cycatr = pk.cycatr;
      cychdr = pk.cychdr;
      cyctim = pk.cyctim;
      assprc = if has pk.cycatr ta_assprc then pk.assprc else 0;
      cycid = new_id domid i;
    }) in
    name_object k2 type_cyc domid i (cre_oname k pk.cycatr pk.oname)

-- The assignment to `cycstat`, of the state alone.
abbrev pub only_sta : Kernel → ℕ → Bool → Kernel
only_sta k i b = set_cyccb k i (record (k.obj.cyccb i) { sta = b; run = false; imm = false })

module _ (user : ℕ → ℕ → Kernel → Kernel) (fuel : ℕ) where
  -- `First startup time`: none is a run of handlers that the model does not follow to its end.
  unfoldable pub first_start : Kernel → ℕ → Ccyc → ℕ → Option Kernel
  first_start k prid pk i =
      let tm = k.current_time + pk.cycphs + k.timer_period in
      let at = λ (x : Kernel). set_cyccb x i (record (x.obj.cyccb i) { cyctmeb_time = tm }) in
      if not (has pk.cycatr ta_sta)
      then some (at (only_sta k i false))
      else if pk.cycphs == 0
      then immediate_call_cychdr user fuel (at (only_sta k i true)) prid i
      else some (cyc_timer_insert (only_sta k i true) i tm)

  unfoldable pub cre_cyc_at : Kernel → ℕ → Ccyc → ℕ → List ℕ → Kernel × Er
  cre_cyc_at k prid pk i free = elim (first_start (new_cyccb k pk i free) prid pk i) [
    | none ↦ (k, no_result)
    | some k1 ↦ (k1, done (new_id (cre_domid pk.cycatr pk.domid) i))
  ]

  unfoldable pub cre_cyc_body : Kernel → ℕ → Ccyc → Kernel × Er
  cre_cyc_body k prid pk =
      if_ok (cre_check k prid type_cyc pk.cycatr pk.domid pk.oname) (λ e. (k, e))
        (elim k.obj.free_cyccb [ [] ↦ (k, e_limit) | i ∷ free ↦ cre_cyc_at k prid pk i free ])

  -- `_tk_cre_cyc`.
  unfoldable pub tk_cre_cyc : Kernel → ℕ → Ccyc → Kernel × Er
  tk_cre_cyc k prid pk =
      if has_other pk.cycatr valid_cycatr
      then (k, e_rsatr)
      else if (pk.cychdr == 0) || (pk.cyctim == 0)
      then (k, e_par)
      else if not (chk_patr pk.cycatr)
      then (k, e_rsatr)
      else if has pk.cycatr ta_assprc && not (chk_assprc k pk.assprc)
      then (k, e_par)
      else if bad_domid k pk.cycatr pk.domid
      then (k, e_id)
      else end_critical (cre_cyc_body k prid pk)
