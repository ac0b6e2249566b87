-- ===== src/Alarm/Set.antt =====
-- kernel/tkernel/smp_src/time_calls.c: what the start of an alarm handler does to its event.
use tkernel.Base.{
  ℕ, ◌+◌, ◌-◌, ◌^◌, ◌<◌, ◌≡◌, refl, arith, true, false, [], ◌∷◌, ==-refl, ==-ne, Bool-cases, inl,
  inr, ◌∙◌,
}
use native.Mathlib.Nat.{mod-eq_of_lt}
use tkernel.Kernel.{Kernel, Er, e_ok, Tmeb, cb_distribute_almhdr}
use tkernel.Task.{update_schedtsk}
use tkernel.Task.Frame.{update_schedtsk-Frame}
use tkernel.Timer.{timer_insert_abs, unlink_block}
use tkernel.Timer.Blocks.{times_of, Unlinked, unlink_block-Unlinked, times_of-enqueue_tmeb}
use tkernel.Domain.{chk_id, index_of}
use tkernel.Handler.{alm_timer_insert}
use tkernel.Alarm.{
  is_alm_event, stop_alm_timer, alm_access, set_alm_sta, is_busy, start_alarm, sta_alm_body,
  tk_sta_alm, alm_state,
}

-- The alarm is set for the time `at`: its event is once in the timer queue and in no handler queue.
pub record AlarmSet (k : Kernel) (i at : ℕ) : Type 0 where
  pub sta : (k.obj.almcb i).sta ≡ true
  pub time : (k.obj.almcb i).almtmeb_time ≡ at
  pub once : times_of (is_alm_event i) k.timer_queue ≡ at ∷ []
  pub handed : (p : ℕ) → times_of (is_alm_event i) (k.obj.handler_queue p).hdrque ≡ []

-- `Register onto timer event queue` after `Cancel current settings`.
abbrev rearm : Kernel → ℕ → ℕ → Kernel
rearm k i almtim = set_alm_sta (alm_timer_insert (stop_alm_timer k i) i almtim) i true

-- A state in which the alarm is set, at the same time as before.
record Rearmed (k : Kernel) (i almtim : ℕ) (k' : Kernel) : Type 0 where
  set : AlarmSet k' i (k.current_time + almtim + k.timer_period)
  now : k'.current_time ≡ k.current_time
  period : k'.timer_period ≡ k.timer_period

rearm-Rearmed :
    (k : Kernel) (i almtim : ℕ)
    → ((k.obj.almcb i).sta ≡ false → Unlinked (is_alm_event i) k)
    → Rearmed k i almtim (rearm k i almtim)
unfolding alm_timer_insert timer_insert_abs unlink_block
rearm-Rearmed k i almtim s =
    let at = k.current_time + almtim + k.timer_period in
    let event : Tmeb = record { time = at; callback = cb_distribute_almhdr i } in
    elim (Bool-cases (k.obj.almcb i).sta) [
      | inl on ↦
          let u = unlink_block-Unlinked k (is_alm_event i) in
          rw on (record {
            set = record {
              sta = rw (==-refl i) refl;
              time = rw (==-refl i) refl;
              once =
                  times_of-enqueue_tmeb (is_alm_event i) event
                    (unlink_block k (is_alm_event i)).timer_queue (==-refl i) u.timer;
              handed = u.handed;
            };
            now = refl;
            period = refl;
          })
      | inr off ↦
          let u = s off in
          rw off (record {
            set = record {
              sta = rw (==-refl i) refl;
              time = rw (==-refl i) refl;
              once = times_of-enqueue_tmeb (is_alm_event i) event k.timer_queue (==-refl i) u.timer;
              handed = u.handed;
            };
            now = refl;
            period = refl;
          })
    ]

-- An alarm that is set, and what `_tk_ref_alm` then says.
pub record Accepted (k : Kernel) (i almtim : ℕ) (r : Kernel × Er) : Type 0 where
  pub ok : r.1 ≡ e_ok
  pub set : AlarmSet r.0 i (k.current_time + almtim + k.timer_period)
  pub left : (alm_state r.0 i).lfttim ≡ almtim
  pub stat : (alm_state r.0 i).almstat ≡ 1

update_schedtsk-Accepted :
    (k k' : Kernel) (i almtim : ℕ)
    → almtim < 2 ^ 32
    → Rearmed k i almtim k'
    → Accepted k i almtim (update_schedtsk k', e_ok)
unfolding alm_state
update_schedtsk-Accepted k k' i almtim h r =
    let f = update_schedtsk-Frame k' in
    let period = f.period_same ∙ r.period in
    let now = f.time_same ∙ r.now in
    let sum : k.current_time + almtim + k.timer_period - k.current_time - k.timer_period ≡ almtim =
      omega arith in
    record {
      ok = refl;
      set = record {
        sta = rw f.obj_same r.set.sta;
        time = rw f.obj_same r.set.time;
        once = rw f.timer_same r.set.once;
        handed = rw f.obj_same r.set.handed;
      };
      left = rw (f.obj_same, r.set.sta, r.set.time, now, period, sum) (mod-eq_of_lt h);
      stat = rw (f.obj_same, r.set.sta) refl;
    }

-- A start of an alarm handler that passes the checks, at a time `almtim` above 0 from now, while the
-- handler does not run in a way that forbids it: the event of the handler is once in the timer queue
-- and in no handler queue, due one timer period after `almtim` has passed, whatever the alarm was set
-- to before, and a look at its state right after tells `almtim` as the time that is left. `almtim`
-- is a 32-bit number, and the event of an alarm that is not set is in no queue before.
pub tk_sta_alm-Accepted :
    (user : ℕ → ℕ → Kernel → Kernel) (fuel : ℕ) (k : Kernel) (prid almid almtim : ℕ)
    → chk_id k k.obj.max_almid almid ≡ true
    → alm_access k prid almid ≡ e_ok
    → is_busy (k.obj.almcb (index_of almid)) almtim ≡ false
    → 0 < almtim
    → almtim < 2 ^ 32
    → ((k.obj.almcb (index_of almid)).sta ≡ false → Unlinked (is_alm_event (index_of almid)) k)
    → Accepted k (index_of almid) almtim (tk_sta_alm user fuel k prid almid almtim)
unfolding tk_sta_alm sta_alm_body start_alarm
tk_sta_alm-Accepted user fuel k prid almid almtim c a idle pos h s =
    let i = index_of almid in
    rw (c, a, idle, ==-ne almtim 0 (λ e. absurd (omega arith)))
      (update_schedtsk-Accepted k (rearm k i almtim) i almtim h (rearm-Rearmed k i almtim s))
