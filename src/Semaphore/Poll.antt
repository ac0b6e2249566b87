-- ===== src/Semaphore/Poll.antt =====
-- kernel/tkernel/smp_src/semaphore.c, `_tk_wai_sem` with TMO_POL: a call that does not wait.
use tkernel.Base.{
  ℕ, ◌+◌, ◌≤◌, ◌≡◌, ◌≢◌, inl, inr, refl, ap, ◌∙◌, Bool, true, false, arith, ltb, leb, ◌==◌, ◌&&◌,
  ◌||◌, pos, Bool-cases, Option-cases, leb→le, ==-refl, ==-ne,
}
use tkernel.Kernel.{
  Kernel, Semcb, Er, e_id, e_par, e_ctx, e_tmout, e_diswai, e_ok, Que, q_sem, has, ta_cnt, ttw_sem,
  tskwait,
}
use tkernel.Kernel.Frame.{is_rdy}
use tkernel.Task.Frame.{update_schedtsk-Frame}
use tkernel.Domain.{chk_id, index_of, in_ddsp}
use tkernel.Wait.{is_diswai, gcb_make_wait_with_diswai, gcb_top_of_wait_queue}
use tkernel.Semaphore.Hooks.{sub_semcnt}
use tkernel.Semaphore.Wake.{if_ok_cases}
use tkernel.Semaphore.{sem_access, end_critical, acquire_or_wait, wai_sem_body, tk_wai_sem}

-- The state and the result after a call that takes `cnt` of semaphore `i` or nothing.
pub record Polled (k : Kernel) (i cnt : ℕ) (after : Kernel × Er) : Type 0 where
  pub waits : (q : Que) → is_rdy q ≡ false → after.0.que q ≡ k.que q
  pub others : (j : ℕ) → i ≢ j → after.0.semcb j ≡ k.semcb j
  pub taken : after.1 ≡ e_ok → (after.0.semcb i).semcnt + cnt ≡ (k.semcb i).semcnt
  pub refused : after.1 ≢ e_ok → after.0.semcb i ≡ k.semcb i

refused-Polled :
    (k k' : Kernel) (i cnt : ℕ) (e : Er)
    → e ≢ e_ok
    → k'.que ≡ k.que
    → k'.semcb ≡ k.semcb
    → Polled k i cnt (k', e)
refused-Polled k k' i cnt e ne q s = record {
  waits = λ r h. ap (λ f. f r) q;
  others = λ j h. ap (λ f. f j) s;
  taken = λ h. absurd (ne h);
  refused = λ h. ap (λ f. f i) s;
}

end-Polled :
    (k : Kernel) (i cnt : ℕ) (after : Kernel × Er)
    → Polled k i cnt after
    → Polled k i cnt (end_critical after)
end-Polled k i cnt (k', e) p =
    let f = update_schedtsk-Frame k' in
    let same = λ (j : ℕ). ap (λ g. g j) f.semcb_same in
    record {
      waits = λ q h. f.waits q h ∙ p.waits q h;
      others = λ j h. same j ∙ p.others j h;
      taken = λ h. ap (λ (c : Semcb). c.semcnt + cnt) (same i) ∙ p.taken h;
      refused = λ h. same i ∙ p.refused h;
    }

taken-Polled :
    (k : Kernel) (i cnt : ℕ) → cnt ≤ (k.semcb i).semcnt → Polled k i cnt (sub_semcnt k i cnt, e_ok)
unfolding sub_semcnt
taken-Polled k i cnt le = record {
  waits = λ q h. refl;
  others = λ j ne. rw (==-ne i j ne) refl;
  taken = λ h. rw (==-refl i) (omega arith);
  refused = λ h. absurd (h refl);
}

and_right : (a b : Bool) → (a && b) ≡ true → b ≡ true
and_right true b h = h
and_right false b h = cc

-- The part of `gcb_make_wait_with_diswai` that a polling call reaches.
poll-Polled :
    (k k1 : Kernel) (t i cnt id atr : ℕ)
    → k1.que ≡ k.que
    → k1.semcb ≡ k.semcb
    → Polled k i cnt
        (let k2 = gcb_make_wait_with_diswai k1 t (q_sem i) id atr (pos 0) in (k2, (k2.tcb t).wercd))
unfolding gcb_make_wait_with_diswai
poll-Polled k k1 t i cnt id atr q s =
    elim (Bool-cases (is_diswai k1 atr t (tskwait (k1.tcb t).wspec))) [
      | inl dis ↦ rw (dis, ==-refl t) (refused-Polled k _ i cnt e_diswai (λ h. cc) q s)
      | inr wait ↦ rw (wait, ==-refl t) (refused-Polled k _ i cnt e_tmout (λ h. cc) q s)
    ]

acquire-Polled :
    (k : Kernel) (t semid cnt : ℕ)
    → Polled k (index_of semid) cnt (acquire_or_wait k t semid cnt (pos 0))
unfolding acquire_or_wait
acquire-Polled k t semid cnt =
    let i = index_of semid in
    let cb = k.semcb i in
    elim (Bool-cases (
      (has cb.sematr ta_cnt || gcb_top_of_wait_queue k (q_sem i) cb.sematr t == t)
      && leb cnt cb.semcnt)) [
        | inl free ↦ rw free (taken-Polled k i cnt (leb→le cnt _ (and_right _ _ free)))
        | inr short ↦ rw short (poll-Polled k _ t i cnt cb.semid cb.sematr refl refl)
      ]

body-Polled :
    (k : Kernel) (prid t semid cnt : ℕ)
    → Polled k (index_of semid) cnt (wai_sem_body k prid t semid cnt (pos 0))
unfolding wai_sem_body
body-Polled k prid t semid cnt =
    let i = index_of semid in
    elim (if_ok_cases (sem_access k prid semid)) [
      | inr (ne, failed) ↦ rw (failed (Kernel × Er)) (refused-Polled k k i cnt _ ne refl refl)
      | inl access ↦ elim (Bool-cases (ltb (k.semcb i).maxsem cnt)) [
        | inl above ↦ rw (access, above) (refused-Polled k k i cnt e_par (λ h. cc) refl refl)
        | inr within ↦ elim (Bool-cases (is_diswai k (k.semcb i).sematr t ttw_sem)) [
          | inl dis ↦
              rw (access, within, dis) (refused-Polled k k i cnt e_diswai (λ h. cc) refl refl)
          | inr go ↦ rw (access, within, go) (acquire-Polled k t semid cnt)
        ]
      ]
    ]

-- A call of `tk_wai_sem` with TMO_POL never waits and is never half done: in every branch all wait
-- queues stay as they were; with E_OK the count has fallen by exactly what was asked for, with any
-- other result the semaphore is untouched; and no other semaphore changes.
pub tk_wai_sem-Polled :
    (k : Kernel) (prid semid cnt : ℕ)
    → Polled k (index_of semid) cnt (tk_wai_sem k prid semid (pos cnt) (pos 0))
unfolding tk_wai_sem
tk_wai_sem-Polled k prid semid cnt =
    let i = index_of semid in
    elim (Bool-cases (chk_id k k.max_semid semid)) [
      | inr bad ↦ rw bad (refused-Polled k k i cnt e_id (λ h. cc) refl refl)
      | inl id_ok ↦ elim (Bool-cases (cnt == 0)) [
        | inl zero_cnt ↦ rw (id_ok, zero_cnt) (refused-Polled k k i cnt e_par (λ h. cc) refl refl)
        | inr positive ↦ elim (Bool-cases (in_ddsp k prid)) [
          | inl disabled ↦
              rw (id_ok, positive, disabled) (refused-Polled k k i cnt e_ctx (λ h. cc) refl refl)
          | inr enabled ↦ elim (Option-cases (k.ctxtsk prid)) [
            | inl e ↦
                rw (id_ok, positive, enabled, e)
                  (refused-Polled k k i cnt e_ctx (λ h. cc) refl refl)
            | inr (t, e) ↦
                rw (id_ok, positive, enabled, e)
                  (end-Polled k i cnt _ (body-Polled k prid t semid cnt))
          ]
        ]
      ]
    ]
