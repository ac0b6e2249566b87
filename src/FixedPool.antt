-- ===== src/FixedPool.antt =====
-- kernel/tkernel/smp_src/mempfix.c: fixed memory pools. The blocks are areas of `mem`; a free block that
-- was in use holds in its first word the address of the next one. NULL is 0.
pub mod Names
pub mod Create
pub mod Blocks
pub mod Pool
pub mod Tests
use tkernel.Base.{
  ℕ, zero, suc, ◌+◌, ◌-◌, ◌*◌, ◌/◌, ◌%◌, Bool, true, false, not, ◌&&◌, ◌||◌, Option, none, some,
  List, [], ◌∷◌, ◌++◌, if◌then◌else◌, ◌==◌, ltb, leb, ℤ, pos, negsuc,
}
use tkernel.Str.{Mem, store_word}
use tkernel.Kernel.{
  Kernel, Tcb, Mpfcb, Er, e_ok, e_id, e_noexs, e_par, e_ctx, e_diswai, Wspec, wspec_mpf_tfifo,
  wspec_mpf_tpri, q_mpf, set_tcb, set_mpfcb, has, ta_tpri, ttw_mpf, type_mpf,
}
use tkernel.Domain.{
  if_ok, chk_id, index_of, mp_check_domain_and_protection, mp_unregister_object_in_domain, in_ddsp,
}
use tkernel.Wait.{
  wait_release_ok, wait_delete, wait_tskid, is_diswai, gcb_make_wait_with_diswai,
  gcb_change_priority,
}
use tkernel.Semaphore.{end_critical, chk_tmout}
use tkernel.MessageBuffer.Buffer.{load_word}

-- MINSZ.
abbrev pub minsz : ℕ → ℕ
minsz sz = (sz + 3) / 4 * 4

abbrev pub mempool_end : Mpfcb → ℕ
mempool_end cb = cb.mempool + cb.mpfsz

-- `mpf_chg_pri`.
unfoldable pub mpf_chg_pri : Kernel → ℕ → Kernel
mpf_chg_pri k t = gcb_change_priority k (q_mpf (index_of (k.tcb t).wid)) t

-- `if ( mpfcb->mpfid == 0 ) E_NOEXS else mp_check_domain_and_protection(...)`.
unfoldable pub mpf_access : Kernel → ℕ → ℕ → Er
mpf_access k prid mpfid =
    let cb = k.obj.mpfcb (index_of mpfid) in
    if cb.mpfid == 0
    then e_noexs
    else mp_check_domain_and_protection k prid mpfid cb.mpfid cb.mpfatr

-- `_tk_del_mpf`. The pool goes back to the allocator (`IAfree`), which is not modelled.
unfoldable pub del_mpf_body : Kernel → ℕ → ℕ → Kernel × Er
del_mpf_body k prid mpfid =
    let i = index_of mpfid in
    if_ok (mpf_access k prid mpfid) (λ e. (k, e))
      (let k1 = mp_unregister_object_in_domain (wait_delete k (q_mpf i)) mpfid type_mpf i in
        let k2 = set_mpfcb k1 i (record (k1.obj.mpfcb i) { mpfid = 0 }) in
        (record k2 { obj = record k2.obj { free_mpfcb = k2.obj.free_mpfcb ++ (i ∷ []) } }, e_ok))

unfoldable pub tk_del_mpf : Kernel → ℕ → ℕ → Kernel × Er
tk_del_mpf k prid mpfid =
    if not (chk_id k k.obj.max_mpfid mpfid)
    then (k, e_id)
    else if in_ddsp k prid
    then (k, e_ctx)
    else end_critical (del_mpf_body k prid mpfid)

-- The block that `_tk_get_mpf` gives: the first of the free list, or the first that was never used.
-- The address goes to the word at `p_blf`.
unfoldable pub take_block : Mem → Mpfcb → ℕ → Mem × Mpfcb
take_block m cb p_blf =
    if not (cb.freelist == 0)
    then (
      store_word m p_blf cb.freelist,
      record cb { freelist = load_word m cb.freelist; frbcnt = cb.frbcnt - 1 },
    )
    else (
      store_word m p_blf cb.unused,
      record cb { unused = cb.unused + cb.blfsz; frbcnt = cb.frbcnt - 1 },
    )

unfoldable pub get_block : Kernel → ℕ → ℕ → Kernel
get_block k i p_blf =
    let (m, cb) = take_block k.mem (k.obj.mpfcb i) p_blf in record (set_mpfcb k i cb) { mem = m }

-- The wait of `_tk_get_mpf`, for the running task `t`.
unfoldable pub wait_for_block : Kernel → ℕ → ℕ → ℕ → ℤ → Kernel × Er
wait_for_block k t i p_blf tmout =
    let cb = k.obj.mpfcb i in
    let spec = if has cb.mpfatr ta_tpri then wspec_mpf_tpri else wspec_mpf_tfifo in
    let k1 = set_tcb k t (record (k.tcb t) { wspec = spec; wercd = e_ok; mpf_p_blf = p_blf }) in
    let k2 = gcb_make_wait_with_diswai k1 t (q_mpf i) cb.mpfid cb.mpfatr tmout in
    (k2, (k2.tcb t).wercd)

unfoldable pub get_mpf_body : Kernel → ℕ → ℕ → ℕ → ℕ → ℤ → Kernel × Er
get_mpf_body k prid t mpfid p_blf tmout =
    let i = index_of mpfid in
    if_ok (mpf_access k prid mpfid) (λ e. (k, e))
      (if is_diswai k (k.obj.mpfcb i).mpfatr t ttw_mpf
        then (k, e_diswai)
        else if leb (k.obj.mpfcb i).frbcnt 0
        then wait_for_block k t i p_blf tmout
        else (get_block k i p_blf, e_ok))

unfoldable pub tk_get_mpf : Kernel → ℕ → ℕ → ℕ → ℤ → Kernel × Er
tk_get_mpf k prid mpfid p_blf tmout =
    if not (chk_id k k.obj.max_mpfid mpfid)
    then (k, e_id)
    else if not (chk_tmout tmout)
    then (k, e_par)
    else if in_ddsp k prid
    then (k, e_ctx)
    else elim (k.ctxtsk prid) [
      | none ↦ (k, e_ctx)
      | some t ↦ end_critical (get_mpf_body k prid t mpfid p_blf tmout)
    ]

-- The check of CHK_PAR in `_tk_rel_mpf`.
abbrev pub is_block : Mpfcb → ℕ → Bool
is_block cb blf =
    (leb cb.mempool blf && ltb blf (mempool_end cb)) && (blf - cb.mempool) % cb.blfsz == 0

-- The block goes to the free list.
unfoldable pub free_block : Mem → Mpfcb → ℕ → Mem × Mpfcb
free_block m cb blf =
    (store_word m blf cb.freelist, record cb { freelist = blf; frbcnt = cb.frbcnt + 1 })

-- `_tk_rel_mpf`: the block goes to the first task that waits, or to the free list.
unfoldable pub give_block : Kernel → ℕ → ℕ → Kernel
give_block k i blf = elim (k.que (q_mpf i)) [
  | t ∷ l ↦ wait_release_ok (record k { mem = store_word k.mem (k.tcb t).mpf_p_blf blf }) t
  | [] ↦ let (m, cb) = free_block k.mem (k.obj.mpfcb i) blf in record (set_mpfcb k i cb) { mem = m }
]

unfoldable pub rel_mpf_body : Kernel → ℕ → ℕ → ℕ → Kernel × Er
rel_mpf_body k prid mpfid blf =
    let i = index_of mpfid in
    if_ok (mpf_access k prid mpfid) (λ e. (k, e))
      (if not (is_block (k.obj.mpfcb i) blf) then (k, e_par) else (give_block k i blf, e_ok))

unfoldable pub tk_rel_mpf : Kernel → ℕ → ℕ → ℕ → Kernel × Er
tk_rel_mpf k prid mpfid blf =
    if not (chk_id k k.obj.max_mpfid mpfid)
    then (k, e_id)
    else if in_ddsp k prid
    then (k, e_ctx)
    else end_critical (rel_mpf_body k prid mpfid blf)

-- `_tk_ref_mpf`, without `exinf`: the waiting task and the number of free blocks.
unfoldable pub tk_ref_mpf : Kernel → ℕ → ℕ → Er × Option (ℕ × ℕ)
tk_ref_mpf k prid mpfid =
    let i = index_of mpfid in
    if not (chk_id k k.obj.max_mpfid mpfid)
    then (e_id, none)
    else if in_ddsp k prid
    then (e_ctx, none)
    else if_ok (mpf_access k prid mpfid) (λ e. (e, none))
        (e_ok, some (wait_tskid k (q_mpf i), (k.obj.mpfcb i).frbcnt))
