-- ===== src/FixedPool/Create.antt =====
-- kernel/tkernel/smp_src/mempfix.c: creation of a fixed memory pool.
use tkernel.Base.{ℕ, ◌*◌, not, Option, none, some, List, [], ◌∷◌, if◌then◌else◌, ltb, ℤ, pos}
use tkernel.Kernel.{
  Kernel, Er, done, e_id, e_par, e_ctx, e_nomem, e_rsatr, e_limit, type_mpf, q_mpf, set_mpfcb,
}
use tkernel.Kernel.Queue.{set_que}
use tkernel.Domain.{if_ok, in_ddsp}
use tkernel.Domain.Objects.{
  cre_check, cre_domid, cre_oname, has_other, chk_patr, bad_domid, new_id, name_object,
}
use tkernel.FixedPool.{minsz}

-- T_CMPF, without `exinf`. `oname` is the address of the name.
pub record Cmpf : Type 0 where
  pub mpfatr : ℕ
  pub mpfcnt : ℤ
  pub blfsz : ℤ
  pub domid : ℕ
  pub oname : ℕ

-- VALID_MPFATR.
abbrev pub valid_mpfatr : ℕ
valid_mpfatr = 0xd03d1

-- The new control block, for the first entry of the free list, with the pool at `mempool`.
unfoldable pub cre_mpf_at : Kernel → Cmpf → ℕ → ℕ → ℕ → ℕ → List ℕ → Kernel × Er
cre_mpf_at k pk mpfcnt blfsz mempool i free =
    let domid = cre_domid pk.mpfatr pk.domid in
    let k1 = set_que (record k { obj = record k.obj { free_mpfcb = free } }) (q_mpf i) [] in
    let k2 = set_mpfcb k1 i (record {
      mpfid = new_id domid i;
      mpfatr = pk.mpfatr;
      mpfcnt = mpfcnt;
      blfsz = blfsz;
      mpfsz = blfsz * mpfcnt;
      frbcnt = mpfcnt;
      mempool = mempool;
      unused = mempool;
      freelist = 0;
    }) in
    (name_object k2 type_mpf domid i (cre_oname k pk.mpfatr pk.oname), done (new_id domid i))

unfoldable pub cre_mpf_body : Kernel → ℕ → Cmpf → ℕ → ℕ → ℕ → Kernel × Er
cre_mpf_body k prid pk mpfcnt blfsz mempool =
    if_ok (cre_check k prid type_mpf pk.mpfatr pk.domid pk.oname) (λ e. (k, e))
      (elim k.obj.free_mpfcb [
        | [] ↦ (k, e_limit)
        | i ∷ free ↦ cre_mpf_at k pk mpfcnt blfsz mempool i free
      ])

-- `_tk_cre_mpf`, with the sizes that pass CHECK_PAR, where the size of the pool does not overflow.
-- The allocator is an argument: the address that `IAmalloc` gives for a size, none for NULL.
unfoldable pub cre_mpf_sizes : (ℕ → Option ℕ) → Kernel → ℕ → Cmpf → ℤ → ℤ → Kernel × Er
cre_mpf_sizes iamalloc k prid pk (pos mpfcnt) (pos sz) =
    let blfsz = minsz sz in
    let with_pool : Kernel × Er = elim (iamalloc (blfsz * mpfcnt)) [
      | none ↦ (k, e_nomem)
      | some mempool ↦ cre_mpf_body k prid pk mpfcnt blfsz mempool
    ] in
    if not (ltb 0 mpfcnt)
    then (k, e_par)
    else if not (ltb 0 sz)
    then (k, e_par)
    else if in_ddsp k prid
    then (k, e_ctx)
    else if not (chk_patr pk.mpfatr)
    then (k, e_rsatr)
    else if bad_domid k pk.mpfatr pk.domid
    then (k, e_id)
    else with_pool
cre_mpf_sizes iamalloc k prid pk mpfcnt sz = (k, e_par)

unfoldable pub tk_cre_mpf : (ℕ → Option ℕ) → Kernel → ℕ → Cmpf → Kernel × Er
tk_cre_mpf iamalloc k prid pk =
    if has_other pk.mpfatr valid_mpfatr
    then (k, e_rsatr)
    else cre_mpf_sizes iamalloc k prid pk pk.mpfcnt pk.blfsz
