-- ===== src/MessageBuffer/Create.antt =====
-- kernel/tkernel/smp_src/messagebuf.c: creation of a message buffer.
use tkernel.Base.{ℕ, not, Option, none, some, List, [], ◌∷◌, if◌then◌else◌, ltb, ℤ, pos}
use tkernel.Kernel.{
  Kernel, Er, done, e_id, e_par, e_nomem, e_rsatr, e_limit, type_mbf, q_smbf, q_rmbf, set_mbfcb,
}
use tkernel.Kernel.Queue.{set_que}
use tkernel.Domain.{if_ok}
use tkernel.Domain.Objects.{
  cre_check, cre_domid, cre_oname, has_other, chk_patr, bad_domid, new_id, name_object,
}
use tkernel.MessageBuffer.Buffer.{roundsz}

-- T_CMBF, without `exinf`. `oname` is the address of the name.
pub record Cmbf : Type 0 where
  pub mbfatr : ℕ
  pub bufsz : ℤ
  pub maxmsz : ℤ
  pub domid : ℕ
  pub oname : ℕ

-- VALID_MBFATR.
abbrev pub valid_mbfatr : ℕ
valid_mbfatr = 0xd00c1

-- The new control block, for the first entry of the free list, with the buffer at `msgbuf`.
unfoldable pub cre_mbf_at : Kernel → Cmbf → ℕ → ℕ → ℕ → ℕ → List ℕ → Kernel × Er
cre_mbf_at k pk bufsz maxmsz msgbuf i free =
    let domid = cre_domid pk.mbfatr pk.domid in
    let k1 = record k { obj = record k.obj { free_mbfcb = free } } in
    let k2 = set_que (set_que k1 (q_smbf i) []) (q_rmbf i) [] in
    let k3 = set_mbfcb k2 i (record {
      mbfid = new_id domid i;
      mbfatr = pk.mbfatr;
      bufsz = bufsz;
      maxmsz = maxmsz;
      frbufsz = bufsz;
      head = 0;
      tail = 0;
      buffer = msgbuf;
    }) in
    (name_object k3 type_mbf domid i (cre_oname k pk.mbfatr pk.oname), done (new_id domid i))

unfoldable pub cre_mbf_body : Kernel → ℕ → Cmbf → ℕ → ℕ → ℕ → Kernel × Er
cre_mbf_body k prid pk bufsz maxmsz msgbuf =
    if_ok (cre_check k prid type_mbf pk.mbfatr pk.domid pk.oname) (λ e. (k, e))
      (elim k.obj.free_mbfcb [
        | [] ↦ (k, e_limit)
        | i ∷ free ↦ cre_mbf_at k pk bufsz maxmsz msgbuf i free
      ])

-- `_tk_cre_mbf`, with the sizes that pass CHECK_PAR. The allocator is an argument: the address that
-- `Imalloc` gives for a size, none for NULL. The buffer goes back to it on an error, which is not
-- modelled.
unfoldable pub cre_mbf_sizes : (ℕ → Option ℕ) → Kernel → ℕ → Cmbf → ℤ → ℤ → Kernel × Er
cre_mbf_sizes imalloc k prid pk (pos sz) (pos maxmsz) =
    let bufsz = roundsz sz in
    let with_buffer : Kernel × Er = elim (imalloc bufsz) [
      | none ↦ (k, e_nomem)
      | some msgbuf ↦ cre_mbf_body k prid pk bufsz maxmsz msgbuf
    ] in
    if not (ltb 0 maxmsz)
    then (k, e_par)
    else if not (chk_patr pk.mbfatr)
    then (k, e_rsatr)
    else if bad_domid k pk.mbfatr pk.domid
    then (k, e_id)
    else if ltb 0 bufsz
    then with_buffer
    else cre_mbf_body k prid pk bufsz maxmsz 0
cre_mbf_sizes imalloc k prid pk sz maxmsz = (k, e_par)

unfoldable pub tk_cre_mbf : (ℕ → Option ℕ) → Kernel → ℕ → Cmbf → Kernel × Er
tk_cre_mbf imalloc k prid pk =
    if has_other pk.mbfatr valid_mbfatr
    then (k, e_rsatr)
    else cre_mbf_sizes imalloc k prid pk pk.bufsz pk.maxmsz
