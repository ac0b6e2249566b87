-- ===== src/Alarm.antt =====
-- kernel/tkernel/smp_src/time_calls.c: alarm handlers.
pub mod Names
pub mod Create
pub mod Set
pub mod Tests
use tkernel.Base.{
  ℕ, ◌+◌, ◌-◌, ◌%◌, ◌^◌, Bool, true, false, not, ◌&&◌, ◌||◌, Option, none, some, List, [], ◌∷◌,
  ◌++◌, if◌then◌else◌, ◌==◌,
}
use tkernel.Kernel.{
  Kernel, Er, e_ok, e_id, e_noexs, e_obj, no_result, Almcb, Callback, cb_distribute_almhdr,
  cb_call_almhdr, set_almcb, has, ta_assprc, type_alm,
}
use tkernel.Domain.{
  if_ok, chk_id, index_of, mp_check_domain_and_protection, mp_unregister_object_in_domain,
}
use tkernel.Semaphore.{end_critical}
use tkernel.Timer.{unlink_block}
use tkernel.Handler.{alm_timer_insert, immediate_call_almhdr}

-- The callbacks of `almtmeb` of the control block `i`.
abbrev pub is_alm_event : ℕ → Callback → Bool
is_alm_event i (cb_distribute_almhdr j) = j == i
is_alm_event i (cb_call_almhdr j) = j == i
is_alm_event i _ = false

-- `timer_delete(&almcb->almtmeb)`, where TALM_STA is set.
abbrev pub stop_alm_timer : Kernel → ℕ → Kernel
stop_alm_timer k i = if (k.obj.almcb i).sta then unlink_block k (is_alm_event i) else k

-- `if ( almcb->almhdr == NULL ) E_NOEXS else mp_check_domain_and_protection(...)`.
unfoldable pub alm_access : Kernel → ℕ → ℕ → Er
alm_access k prid almid =
    let cb = k.obj.almcb (index_of almid) in
    if cb.almhdr == 0
    then e_noexs
    else mp_check_domain_and_protection k prid almid cb.almid cb.almatr

unfoldable pub del_alm_body : Kernel → ℕ → ℕ → Kernel × Er
del_alm_body k prid almid =
    let i = index_of almid in
    if_ok (alm_access k prid almid) (λ e. (k, e))
      (let k1 = mp_unregister_object_in_domain (stop_alm_timer k i) almid type_alm i in
        let k2 = record k1 { obj = record k1.obj { free_almcb = k1.obj.free_almcb ++ (i ∷ []) } } in
        let cb = k2.obj.almcb i in
        (
          set_almcb k2 i (record cb { almhdr = 0; almid = 0; almno = (cb.almno + 1) % 2 ^ 32 }),
          e_ok,
        ))

unfoldable pub tk_del_alm : Kernel → ℕ → ℕ → Kernel × Er
tk_del_alm k prid almid =
    if not (chk_id k k.obj.max_almid almid) then (k, e_id) else del_alm_body k prid almid

-- `almstat |= TALM_STA`, and `almstat &= ~TALM_STA`.
abbrev pub set_alm_sta : Kernel → ℕ → Bool → Kernel
set_alm_sta k i b = set_almcb k i (record (k.obj.almcb i) { sta = b })

-- The handler runs, and may not be started now.
abbrev pub is_busy : Almcb → ℕ → Bool
is_busy cb almtim =
    cb.run
    && (((almtim == 0) && cb.imm) || (not (has cb.almatr ta_assprc) && ((almtim == 0) || cb.imm)))

module _ (user : ℕ → ℕ → Kernel → Kernel) (fuel : ℕ) where
  -- `_tk_sta_alm` from `Cancel current settings` on.
  unfoldable pub start_alarm : Kernel → ℕ → ℕ → ℕ → Kernel × Er
  start_alarm k prid i almtim =
      let k1 = stop_alm_timer k i in
      let now : Kernel × Er = elim (immediate_call_almhdr user fuel k1 prid i) [
        | none ↦ (k, no_result)
        | some k2 ↦ (k2, e_ok)
      ] in
      if almtim == 0 then now else (set_alm_sta (alm_timer_insert k1 i almtim) i true, e_ok)

  unfoldable pub sta_alm_body : Kernel → ℕ → ℕ → ℕ → Kernel × Er
  sta_alm_body k prid almid almtim =
      let i = index_of almid in
      if_ok (alm_access k prid almid) (λ e. (k, e))
        (if is_busy (k.obj.almcb i) almtim then (k, e_obj) else start_alarm k prid i almtim)

  unfoldable pub tk_sta_alm : Kernel → ℕ → ℕ → ℕ → Kernel × Er
  tk_sta_alm k prid almid almtim =
      if not (chk_id k k.obj.max_almid almid)
      then (k, e_id)
      else end_critical (sta_alm_body k prid almid almtim)

unfoldable pub stop_alarm : Kernel → ℕ → Kernel
stop_alarm k i = if (k.obj.almcb i).sta then set_alm_sta (stop_alm_timer k i) i false else k

unfoldable pub tk_stp_alm : Kernel → ℕ → ℕ → Kernel × Er
tk_stp_alm k prid almid =
    if not (chk_id k k.obj.max_almid almid)
    then (k, e_id)
    else if_ok (alm_access k prid almid) (λ e. (k, e)) (stop_alarm k (index_of almid), e_ok)

-- T_RALM; `almstat` is that without TALM_RUN and TALM_IMM.
pub record Ralm : Type 0 where
  pub exinf : ℕ
  pub lfttim : ℕ
  pub almstat : ℕ

-- A difference below 0 is set to 0.
unfoldable pub alm_state : Kernel → ℕ → Ralm
alm_state k i =
    let cb = k.obj.almcb i in
    record {
      exinf = cb.exinf;
      lfttim = (if cb.sta then cb.almtmeb_time - k.current_time - k.timer_period else 0) % 2 ^ 32;
      almstat = if cb.sta then 1 else 0;
    }

unfoldable pub tk_ref_alm : Kernel → ℕ → ℕ → Er × Option Ralm
tk_ref_alm k prid almid =
    if not (chk_id k k.obj.max_almid almid)
    then (e_id, none)
    else if_ok (alm_access k prid almid) (λ e. (e, none))
        (e_ok, some (alm_state k (index_of almid)))
