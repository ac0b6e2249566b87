-- ===== src/Cyclic/Armed.antt =====
-- kernel/tkernel/smp_src/time_calls.c: what the start of a cyclic handler does to its event.
use tkernel.Base.{
  ℕ, ◌+◌, ◌*◌, ◌<◌, ◌≡◌, refl, arith, true, false, [], ◌∷◌, ==-refl, leb, Bool-cases, inl, inr,
}
use tkernel.Kernel.{Kernel, Er, e_ok, Tmeb, cb_distribute_cychdr, has}
use tkernel.Timer.{timer_insert_abs, unlink_block}
use tkernel.Timer.Blocks.{times_of, Unlinked, unlink_block-Unlinked, times_of-enqueue_tmeb}
use tkernel.Domain.{chk_id, index_of}
use tkernel.Handler.{cyc_next_time, cyc_timer_insert}
use tkernel.Handler.Next.{cyc_next_time-Next}
use tkernel.Cyclic.{
  ta_phs, is_cyc_event, stop_cyc_timer, cyc_access, set_cyc_sta, continue_phase, reset_interval,
  start_cyclic, tk_sta_cyc,
}

-- While a handler is stopped its event is in no queue.
abbrev pub StoppedUnlinked : Kernel → ℕ → Type 0
StoppedUnlinked k i = (k.obj.cyccb i).sta ≡ false → Unlinked (is_cyc_event i) k

-- The handler is started: its event is once in the timer queue and in no handler queue, at the time
-- `at`, which is later than the current one.
pub record Started (k : Kernel) (i at : ℕ) : Type 0 where
  pub sta : (k.obj.cyccb i).sta ≡ true
  pub time : (k.obj.cyccb i).cyctmeb_time ≡ at
  pub once : times_of (is_cyc_event i) k.timer_queue ≡ at ∷ []
  pub handed : (p : ℕ) → times_of (is_cyc_event i) (k.obj.handler_queue p).hdrque ≡ []
  pub later : k.current_time < at

stop_cyc_timer-Unlinked :
    (k : Kernel) (i : ℕ) → StoppedUnlinked k i → Unlinked (is_cyc_event i) (stop_cyc_timer k i)
stop_cyc_timer-Unlinked k i h = elim (Bool-cases (k.obj.cyccb i).sta) [
  | inl on ↦ rw on (unlink_block-Unlinked k (is_cyc_event i))
  | inr off ↦ rw off (h off)
]

insert-Started :
    (k : Kernel) (i at : ℕ)
    → Unlinked (is_cyc_event i) k
    → k.current_time < at
    → Started (set_cyc_sta (cyc_timer_insert k i at) i true) i at
unfolding cyc_timer_insert timer_insert_abs
insert-Started k i at u later =
    let event : Tmeb = record { time = at; callback = cb_distribute_cychdr i } in
    record {
      sta = rw (==-refl i) refl;
      time = rw (==-refl i) refl;
      once = times_of-enqueue_tmeb (is_cyc_event i) event k.timer_queue (==-refl i) u.timer;
      handed = u.handed;
      later = later;
    }

-- A start that is accepted: at a time of the phase that the handler had, where TA_PHS asks for it, and
-- else one cycle and one timer period from now.
pub record StartOk (k : Kernel) (i : ℕ) (r : Kernel × Er) : Type 0 where
  pub at : ℕ
  pub ok : r.1 ≡ e_ok
  pub started : Started r.0 i at
  pub kept :
      has (k.obj.cyccb i).cycatr ta_phs ≡ true
      → (n : ℕ) × (at ≡ (k.obj.cyccb i).cyctmeb_time + n * (k.obj.cyccb i).cyctim)
  pub anew :
      has (k.obj.cyccb i).cycatr ta_phs ≡ false
      → at ≡ k.current_time + (k.obj.cyccb i).cyctim + k.timer_period

continue_phase-StartOk :
    (k : Kernel) (i : ℕ)
    → (k.obj.cyccb i).sta ≡ false
    → Unlinked (is_cyc_event i) k
    → 0 < (k.obj.cyccb i).cyctim
    → has (k.obj.cyccb i).cycatr ta_phs ≡ true
    → StartOk k i (set_cyc_sta (continue_phase k i) i true, e_ok)
unfolding continue_phase
continue_phase-StartOk k i off u h phs =
    let cb = k.obj.cyccb i in
    let n = cyc_next_time-Next cb.cyctmeb_time cb.cyctim k.current_time h in
    elim (Bool-cases (leb cb.cyctmeb_time k.current_time)) [
      | inl past ↦
          rw (off, past)
            (record {
              at = cyc_next_time cb.cyctmeb_time cb.cyctim k.current_time;
              ok = refl;
              started = insert-Started k i _ u n.after;
              kept = λ e. (n.periods, n.on_time);
              anew = λ e. absurd cc;
            })
      | inr ahead ↦
          rw (off, ahead)
            (record {
              at = cb.cyctmeb_time;
              ok = refl;
              started = insert-Started k i cb.cyctmeb_time u (ground arith);
              kept = λ e. (0, omega arith);
              anew = λ e. absurd cc;
            })
    ]

reset_interval-StartOk :
    (k : Kernel) (i : ℕ)
    → StoppedUnlinked k i
    → 0 < (k.obj.cyccb i).cyctim
    → has (k.obj.cyccb i).cycatr ta_phs ≡ false
    → StartOk k i (set_cyc_sta (reset_interval k i) i true, e_ok)
unfolding reset_interval unlink_block
reset_interval-StartOk k i s h phs =
    let u = stop_cyc_timer-Unlinked k i s in
    let at = k.current_time + (k.obj.cyccb i).cyctim + k.timer_period in
    elim (Bool-cases (k.obj.cyccb i).sta) [
      | inl on ↦ rw on (record {
        at = at;
        ok = refl;
        started =
            insert-Started (unlink_block k (is_cyc_event i)) i at
              (unlink_block-Unlinked k (is_cyc_event i)) (omega arith);
        kept = λ e. absurd cc;
        anew = λ e. refl;
      })
      | inr off ↦ rw off (record {
        at = at;
        ok = refl;
        started = insert-Started k i at (s off) (omega arith);
        kept = λ e. absurd cc;
        anew = λ e. refl;
      })
    ]

-- A start of a cyclic handler that passes the checks leaves its event once in the timer queue and in
-- no handler queue, at a later time than the current one: with TA_PHS a whole number of cycles after
-- the time it had, and else one cycle and one timer period from now. The cycle is above 0, the event
-- of a stopped handler is in no queue before, and with TA_PHS the handler is stopped.
pub tk_sta_cyc-StartOk :
    (k : Kernel) (prid cycid : ℕ)
    → chk_id k k.obj.max_cycid cycid ≡ true
    → cyc_access k prid cycid ≡ e_ok
    → 0 < (k.obj.cyccb (index_of cycid)).cyctim
    → StoppedUnlinked k (index_of cycid)
    → (has (k.obj.cyccb (index_of cycid)).cycatr ta_phs ≡ true
        → (k.obj.cyccb (index_of cycid)).sta ≡ false)
    → StartOk k (index_of cycid) (tk_sta_cyc k prid cycid)
unfolding tk_sta_cyc start_cyclic
tk_sta_cyc-StartOk k prid cycid c a h s off =
    let i = index_of cycid in
    rw (c, a)
      (elim (Bool-cases (has (k.obj.cyccb i).cycatr ta_phs)) [
        | inl phs ↦ rw phs (continue_phase-StartOk k i (off phs) (s (off phs)) h phs)
        | inr free ↦ rw free (reset_interval-StartOk k i s h free)
      ])
