-- ===== src/Cyclic/Phase.antt =====
-- kernel/tkernel/smp_src/time_calls.c: a stop of a cyclic handler, and a start again.
use tkernel.Base.{
  ℕ, ◌+◌, ◌*◌, ◌<◌, ◌≡◌, refl, arith, true, false, ==-refl, Bool-cases, inl, inr, ap, subst, ◌∙◌,
}
use tkernel.Kernel.{Kernel, Er, e_ok, has}
use tkernel.Timer.{unlink_block}
use tkernel.Timer.Blocks.{Unlinked, unlink_block-Unlinked}
use tkernel.Domain.{chk_id, index_of}
use tkernel.Cyclic.{ta_phs, is_cyc_event, cyc_access, tk_sta_cyc, stop_cyclic, tk_stp_cyc}
use tkernel.Cyclic.Armed.{StoppedUnlinked, Started, tk_sta_cyc-StartOk}

-- The handler is stopped, and keeps its time and its cycle.
pub record Stopped (k k' : Kernel) (i : ℕ) : Type 0 where
  pub sta : (k'.obj.cyccb i).sta ≡ false
  pub unlinked : Unlinked (is_cyc_event i) k'
  pub now : k'.current_time ≡ k.current_time
  pub time : (k'.obj.cyccb i).cyctmeb_time ≡ (k.obj.cyccb i).cyctmeb_time
  pub cycle : (k'.obj.cyccb i).cyctim ≡ (k.obj.cyccb i).cyctim
  pub attributes : (k'.obj.cyccb i).cycatr ≡ (k.obj.cyccb i).cycatr

stop_cyclic-Stopped : (k : Kernel) (i : ℕ) → StoppedUnlinked k i → Stopped k (stop_cyclic k i) i
unfolding stop_cyclic unlink_block
stop_cyclic-Stopped k i s = elim (Bool-cases (k.obj.cyccb i).sta) [
  | inl on ↦ rw on (record {
    sta = rw (==-refl i) refl;
    unlinked = record {
      timer = (unlink_block-Unlinked k (is_cyc_event i)).timer;
      handed = (unlink_block-Unlinked k (is_cyc_event i)).handed;
    };
    now = refl;
    time = rw (==-refl i) refl;
    cycle = rw (==-refl i) refl;
    attributes = rw (==-refl i) refl;
  })
  | inr off ↦ rw off (record {
    sta = rw (==-refl i) refl;
    unlinked = record { timer = (s off).timer; handed = (s off).handed };
    now = refl;
    time = rw (==-refl i) refl;
    cycle = rw (==-refl i) refl;
    attributes = rw (==-refl i) refl;
  })
]

-- `_tk_stp_cyc` that passes the checks.
tk_stp_cyc-accepted :
    (k : Kernel) (prid cycid : ℕ)
    → chk_id k k.obj.max_cycid cycid ≡ true
    → cyc_access k prid cycid ≡ e_ok
    → tk_stp_cyc k prid cycid ≡ (stop_cyclic k (index_of cycid), e_ok)
unfolding tk_stp_cyc
tk_stp_cyc-accepted k prid cycid c a = rw (c, a) refl

stop_cyclic-chk_id :
    (k : Kernel) (i cycid : ℕ)
    → chk_id (stop_cyclic k i) (stop_cyclic k i).obj.max_cycid cycid
      ≡ chk_id k k.obj.max_cycid cycid
unfolding stop_cyclic unlink_block
stop_cyclic-chk_id k i cycid = elim (Bool-cases (k.obj.cyccb i).sta) [
  | inl on ↦ rw on refl
  | inr off ↦ rw off refl
]

-- A handler is started again after a stop, on a time of the phase that it had before the stop.
pub record Resumed (k : Kernel) (i : ℕ) (r : Kernel × Er) : Type 0 where
  pub at : ℕ
  pub cycles : ℕ
  pub ok : r.1 ≡ e_ok
  pub started : Started r.0 i at
  pub on_phase : at ≡ (k.obj.cyccb i).cyctmeb_time + cycles * (k.obj.cyccb i).cyctim

-- With TA_PHS, a stop and a start again, both at one time, leave the event of the handler once in the
-- timer queue, at a later time than the current one that is a whole number of cycles after the time
-- it had before. The handler passes the checks of both calls, its cycle is above 0, and the event of a stopped
-- handler is in no queue before.
pub tk_sta_cyc-tk_stp_cyc :
    (k : Kernel) (prid cycid : ℕ)
    → chk_id k k.obj.max_cycid cycid ≡ true
    → cyc_access k prid cycid ≡ e_ok
    → cyc_access (tk_stp_cyc k prid cycid).0 prid cycid ≡ e_ok
    → 0 < (k.obj.cyccb (index_of cycid)).cyctim
    → StoppedUnlinked k (index_of cycid)
    → has (k.obj.cyccb (index_of cycid)).cycatr ta_phs ≡ true
    → Resumed k (index_of cycid) (tk_sta_cyc (tk_stp_cyc k prid cycid).0 prid cycid)
tk_sta_cyc-tk_stp_cyc k prid cycid c a a' h s phs =
    let i = index_of cycid in
    let k1 = stop_cyclic k i in
    let st = stop_cyclic-Stopped k i s in
    let cycle = st.cycle in
    let r =
      tk_sta_cyc-StartOk k1 prid cycid (stop_cyclic-chk_id k i cycid ∙ c)
        (subst (λ x. cyc_access x.0 prid cycid ≡ e_ok) (tk_stp_cyc-accepted k prid cycid c a) a')
        (omega arith) (λ e. st.unlinked) (λ e. st.sta) in
    let (n, on) = r.kept (ap (λ x. has x ta_phs) st.attributes ∙ phs) in
    rw (tk_stp_cyc-accepted k prid cycid c a) (record {
      at = r.at;
      cycles = n;
      ok = r.ok;
      started = r.started;
      on_phase = on ∙ (λ j. st.time j + n * cycle j);
    })
