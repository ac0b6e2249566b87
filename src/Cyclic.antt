-- ===== src/Cyclic.antt =====
-- kernel/tkernel/smp_src/time_calls.c: cyclic handlers.
pub mod Names
pub mod Create
pub mod Armed
pub mod Phase
pub mod Tests
use tkernel.Base.{
  ℕ, ◌+◌, ◌-◌, ◌%◌, ◌^◌, Bool, true, false, not, Option, none, some, List, [], ◌∷◌, ◌++◌,
  if◌then◌else◌, ◌==◌, leb,
}
use tkernel.Kernel.{
  Kernel, Er, e_ok, e_id, e_noexs, Callback, cb_distribute_cychdr, cb_call_cychdr, set_cyccb, has,
  type_cyc,
}
use tkernel.Domain.{
  if_ok, chk_id, index_of, mp_check_domain_and_protection, mp_unregister_object_in_domain,
}
use tkernel.Timer.{unlink_block}
use tkernel.Handler.{cyc_next_time, cyc_timer_insert}

abbrev pub ta_sta : ℕ
ta_sta = 0x2

abbrev pub ta_phs : ℕ
ta_phs = 0x4

-- The callbacks of `cyctmeb` of the control block `i`.
abbrev pub is_cyc_event : ℕ → Callback → Bool
is_cyc_event i (cb_distribute_cychdr j) = j == i
is_cyc_event i (cb_call_cychdr j) = j == i
is_cyc_event i _ = false

-- `timer_delete(&cyccb->cyctmeb)`, where TCYC_STA is set.
abbrev pub stop_cyc_timer : Kernel → ℕ → Kernel
stop_cyc_timer k i = if (k.obj.cyccb i).sta then unlink_block k (is_cyc_event i) else k

-- `if ( cyccb->cychdr == NULL ) E_NOEXS else mp_check_domain_and_protection(...)`.
unfoldable pub cyc_access : Kernel → ℕ → ℕ → Er
cyc_access k prid cycid =
    let cb = k.obj.cyccb (index_of cycid) in
    if cb.cychdr == 0
    then e_noexs
    else mp_check_domain_and_protection k prid cycid cb.cycid cb.cycatr

unfoldable pub del_cyc_body : Kernel → ℕ → ℕ → Kernel × Er
del_cyc_body k prid cycid =
    let i = index_of cycid in
    if_ok (cyc_access k prid cycid) (λ e. (k, e))
      (let k1 = mp_unregister_object_in_domain (stop_cyc_timer k i) cycid type_cyc i in
        let k2 = record k1 { obj = record k1.obj { free_cyccb = k1.obj.free_cyccb ++ (i ∷ []) } } in
        let cb = k2.obj.cyccb i in
        (
          set_cyccb k2 i (record cb { cychdr = 0; cycid = 0; cycno = (cb.cycno + 1) % 2 ^ 32 }),
          e_ok,
        ))

unfoldable pub tk_del_cyc : Kernel → ℕ → ℕ → Kernel × Er
tk_del_cyc k prid cycid =
    if not (chk_id k k.obj.max_cycid cycid) then (k, e_id) else del_cyc_body k prid cycid

-- `cycstat |= TCYC_STA`.
abbrev pub set_cyc_sta : Kernel → ℕ → Bool → Kernel
set_cyc_sta k i b = set_cyccb k i (record (k.obj.cyccb i) { sta = b })

-- `Continue cyclic phase`.
unfoldable pub continue_phase : Kernel → ℕ → Kernel
continue_phase k i =
    let cb = k.obj.cyccb i in
    let next = cyc_next_time cb.cyctmeb_time cb.cyctim k.current_time in
    if cb.sta
    then k
    else cyc_timer_insert k i (if leb cb.cyctmeb_time k.current_time then next else cb.cyctmeb_time)

-- `Reset cyclic interval`.
unfoldable pub reset_interval : Kernel → ℕ → Kernel
reset_interval k i =
    let k1 = stop_cyc_timer k i in
    cyc_timer_insert k1 i (k1.current_time + (k1.obj.cyccb i).cyctim + k1.timer_period)

unfoldable pub start_cyclic : Kernel → ℕ → Kernel
start_cyclic k i =
    if has (k.obj.cyccb i).cycatr ta_phs
    then set_cyc_sta (continue_phase k i) i true
    else set_cyc_sta (reset_interval k i) i true

unfoldable pub tk_sta_cyc : Kernel → ℕ → ℕ → Kernel × Er
tk_sta_cyc k prid cycid =
    if not (chk_id k k.obj.max_cycid cycid)
    then (k, e_id)
    else if_ok (cyc_access k prid cycid) (λ e. (k, e)) (start_cyclic k (index_of cycid), e_ok)

unfoldable pub stop_cyclic : Kernel → ℕ → Kernel
stop_cyclic k i = set_cyc_sta (stop_cyc_timer k i) i false

unfoldable pub tk_stp_cyc : Kernel → ℕ → ℕ → Kernel × Er
tk_stp_cyc k prid cycid =
    if not (chk_id k k.obj.max_cycid cycid)
    then (k, e_id)
    else if_ok (cyc_access k prid cycid) (λ e. (k, e)) (stop_cyclic k (index_of cycid), e_ok)

-- T_RCYC; `cycstat` is that without TCYC_RUN and TCYC_IMM.
pub record Rcyc : Type 0 where
  pub exinf : ℕ
  pub lfttim : ℕ
  pub cycstat : ℕ

-- A difference below 0 is set to 0.
unfoldable pub cyc_state : Kernel → ℕ → Rcyc
cyc_state k i =
    let cb = k.obj.cyccb i in
    let next = cyc_next_time cb.cyctmeb_time cb.cyctim k.current_time in
    let tm =
      if cb.sta
      then cb.cyctmeb_time
      else if leb cb.cyctmeb_time k.current_time
      then next
      else cb.cyctmeb_time in
    record {
      exinf = cb.exinf;
      lfttim = (tm - k.current_time - k.timer_period) % 2 ^ 32;
      cycstat = if cb.sta then 1 else 0;
    }

unfoldable pub tk_ref_cyc : Kernel → ℕ → ℕ → Er × Option Rcyc
tk_ref_cyc k prid cycid =
    if not (chk_id k k.obj.max_cycid cycid)
    then (e_id, none)
    else if_ok (cyc_access k prid cycid) (λ e. (e, none))
        (e_ok, some (cyc_state k (index_of cycid)))
