-- ===== src/Semaphore/Wake.antt =====
-- What the calls promise of the counts and of the tasks that wait, over every branch of a signal.
use mathlib.Core.Path.{fun_ext}
use tkernel.Base.{
  ℕ, zero, suc, ◌-◌, ◌+◌, ◌≤◌, ◌≡◌, ◌≢◌, ◌⊎◌, inl, inr, refl, ap, ◌∙◌, false, true, List, [], ◌∷◌,
  arith, ltb, ◌==◌, ℤ, pos, negsuc, Bool-cases, ltb→ge, eq_of_==, ne_of_==,
}
use tkernel.Kernel.{
  Kernel, Tcb, Tstat, is_waiting, Er, done, e_sys, e_nomem, e_id, e_noexs, e_obj, e_par, e_ctx,
  e_dlt, e_tmout, e_rlwai, e_diswai, e_qovr, e_limit, e_dacv, e_rsatr, e_iluse, e_oname, no_result,
  e_ok, q_sem, has, ta_cnt,
}
use tkernel.Kernel.Frame.{Frame, Frame-refl}
use tkernel.Kernel.Lists.{NotIn, Distinct, Among}
use tkernel.Task.Frame.{update_schedtsk-Frame}
use tkernel.Wait.{is_ts_wait}
use tkernel.Wait.Frame.{after_release}
use tkernel.Domain.{chk_id, index_of}
use tkernel.Semaphore.Frame.{Outcome, Served}
use tkernel.Semaphore.Signal.{
  total, not_waiting, not_waiting-grant, grant_conserves, grant-le, Settled, Asking, grant-Settled,
}
use tkernel.Semaphore.Calls.{need_in, signalled, Accepted, sig_body_taken, tk_sig_sem-Served}
use tkernel.Semaphore.{sem_access, sig_sem_body, if_ok, tk_sig_sem}

-- The state after a signal.
abbrev pub after_sig : Kernel → ℕ → ℕ → ℕ → Kernel
after_sig k prid semid cnt = (tk_sig_sem k prid semid (pos cnt)).0

-- The tasks that stood in the wait queue before a signal and that wait no longer after it.
abbrev pub woken_by : Kernel → ℕ → ℕ → ℕ → List ℕ
woken_by k prid semid cnt =
    not_waiting (λ u. is_waiting ((after_sig k prid semid cnt).tcb u).state)
      (k.que (q_sem (index_of semid)))

after_release-running : (s : Tstat) → is_waiting (after_release s) ≡ false
after_release-running s = elim (Bool-cases (is_ts_wait s)) [ inl e ↦ rw e refl | inr e ↦ rw e refl ]

-- An accepted signal, on a wait queue in which no task stands twice and each task waits, neither loses
-- nor makes up resources: the new count of the semaphore and what the tasks of the queue that wait no
-- longer had asked for together are the old count and the signalled one.
pub tk_sig_sem_conserves :
    (k : Kernel) (prid semid cnt : ℕ)
    → Accepted k prid semid cnt
    → Distinct (k.que (q_sem (index_of semid)))
    → ((u : ℕ) → Among u (k.que (q_sem (index_of semid))) → is_waiting (k.tcb u).state ≡ true)
    → ((after_sig k prid semid cnt).semcb (index_of semid)).semcnt
        + total (need_in k) (woken_by k prid semid cnt)
      ≡ (k.semcb (index_of semid)).semcnt + cnt
tk_sig_sem_conserves k prid semid cnt a d w =
    let i = index_of semid in
    let s = (tk_sig_sem-Served k prid semid cnt a d).1 in
    let state = λ (c : Tcb). is_waiting c.state in
    let woken =
      not_waiting-grant _ (need_in k) _ _ (k.que (q_sem i)) d
        (λ u r. ap state (s.woken u r) ∙ after_release-running (k.tcb u).state)
        (λ u q r. ap state (s.asleep u r) ∙ w u q) in
    rw (woken, s.count) (grant_conserves _ (need_in k) _ (k.que (q_sem i)))

Among-or-NotIn : (t : ℕ) (l : List ℕ) → Among t l ⊎ NotIn t l
Among-or-NotIn t [] = inr tt
Among-or-NotIn t (x ∷ l) = elim (Bool-cases (x == t)) [
  | inl e ↦ inl (inl (eq_of_== x t e))
  | inr e ↦ elim (Among-or-NotIn t l) [ inl a ↦ inl (inr a) | inr h ↦ inr (ne_of_== x t e, h) ]
]

-- Serving does not change what a task asks for.
pub Served-need :
    {k k' : Kernel} {i : ℕ} {w : List ℕ} {o : Outcome} → Served k k' i w o → need_in k' ≡ need_in k
Served-need {k} {k'} {i} {w} {o} s = fun_ext (λ u. elim (Among-or-NotIn u o.released) [
  | inl a ↦ ap (λ (x : Tcb). x.sem_cnt) (s.woken u a)
  | inr h ↦ ap (λ (x : Tcb). x.sem_cnt) (s.asleep u h)
])

-- After an accepted signal nobody is left waiting whom the count could serve: the count is too
-- small for the first task that waits, and with TA_CNT for each of them, provided that in the wait
-- queue no task stands twice and each asked for something.
pub tk_sig_sem-Settled :
    (k : Kernel) (prid semid cnt : ℕ)
    → Accepted k prid semid cnt
    → Distinct (k.que (q_sem (index_of semid)))
    → Asking (need_in k) (k.que (q_sem (index_of semid)))
    → Settled
        (has (k.semcb (index_of semid)).sematr ta_cnt)
        (need_in (after_sig k prid semid cnt))
        ((after_sig k prid semid cnt).semcb (index_of semid)).semcnt
        ((after_sig k prid semid cnt).que (q_sem (index_of semid)))
tk_sig_sem-Settled k prid semid cnt a d h =
    let s = (tk_sig_sem-Served k prid semid cnt a d).1 in
    rw (Served-need s, s.count, s.queue)
      (grant-Settled _ (need_in k) _ (k.que (q_sem (index_of semid))) h)

pub if_ok_cases :
    (e : Er)
    → (e ≡ e_ok)
      ⊎ ((e ≢ e_ok) × ((A : Type 0) (failed : Er → A) (go : A) → if_ok e failed go ≡ failed e))
if_ok_cases (done zero) = inl refl
if_ok_cases (done (suc n)) =
    inr ((λ h. let z : suc n ≡ 0 = ap code h in absurd (omega arith)), λ A f g. refl)
  where
    code : Er → ℕ
    code (done n) = n
    code _ = 0
if_ok_cases e_sys = inr ((λ h. cc), λ A f g. refl)
if_ok_cases e_nomem = inr ((λ h. cc), λ A f g. refl)
if_ok_cases e_id = inr ((λ h. cc), λ A f g. refl)
if_ok_cases e_noexs = inr ((λ h. cc), λ A f g. refl)
if_ok_cases e_obj = inr ((λ h. cc), λ A f g. refl)
if_ok_cases e_par = inr ((λ h. cc), λ A f g. refl)
if_ok_cases e_ctx = inr ((λ h. cc), λ A f g. refl)
if_ok_cases e_dlt = inr ((λ h. cc), λ A f g. refl)
if_ok_cases e_tmout = inr ((λ h. cc), λ A f g. refl)
if_ok_cases e_rlwai = inr ((λ h. cc), λ A f g. refl)
if_ok_cases e_diswai = inr ((λ h. cc), λ A f g. refl)
if_ok_cases e_qovr = inr ((λ h. cc), λ A f g. refl)
if_ok_cases e_limit = inr ((λ h. cc), λ A f g. refl)
if_ok_cases e_rsatr = inr ((λ h. cc), λ A f g. refl)
if_ok_cases e_oname = inr ((λ h. cc), λ A f g. refl)
if_ok_cases e_iluse = inr ((λ h. cc), λ A f g. refl)
if_ok_cases e_dacv = inr ((λ h. cc), λ A f g. refl)
if_ok_cases no_result = inr ((λ h. cc), λ A f g. refl)

-- Every signal is either accepted or leaves all but the schedule as it was, with an error.
signal_cases :
    (k : Kernel) (prid semid cnt : ℕ)
    → Accepted k prid semid cnt
      ⊎ (((tk_sig_sem k prid semid (pos cnt)).1 ≢ e_ok)
          × Frame k (tk_sig_sem k prid semid (pos cnt)).0)
unfolding tk_sig_sem sig_sem_body
signal_cases k prid semid cnt =
    let i = index_of semid in
    elim (Bool-cases (chk_id k k.max_semid semid)) [
      | inr bad ↦ inr (rw bad ((λ h. cc), Frame-refl k))
      | inl id_ok ↦ elim (Bool-cases (cnt == 0)) [
        | inl zero_cnt ↦ inr (rw (id_ok, zero_cnt) ((λ h. cc), Frame-refl k))
        | inr positive ↦ elim (if_ok_cases (sem_access k prid semid)) [
          | inr (ne, failed) ↦
              inr (rw (id_ok, positive, failed (Kernel × Er)) (ne, update_schedtsk-Frame k))
          | inl access ↦ elim (Bool-cases (ltb ((k.semcb i).maxsem - (k.semcb i).semcnt) cnt)) [
            | inl over ↦
                inr (rw (id_ok, positive, access, over) ((λ h. cc), update_schedtsk-Frame k))
            | inr fits ↦ inl (record {
              id_ok = id_ok;
              access = access;
              positive = ground (arith, ne_of_== cnt 0 positive);
              fits = ltb→ge _ cnt fits;
            })
          ]
        ]
      ]
    ]

signal_ok :
    (k : Kernel) (prid semid cnt : ℕ)
    → Accepted k prid semid cnt
    → (tk_sig_sem k prid semid (pos cnt)).1 ≡ e_ok
unfolding tk_sig_sem
signal_ok k prid semid cnt a =
    rw
      (
        a.id_ok,
        let z : (cnt == 0) ≡ false = ground (arith, a.positive) in z,
        sig_body_taken k prid semid cnt a,
      )
      refl

-- A signal with an error changes nothing but the schedule: no count, no wait queue, no object, no
-- timer event and nothing of a task but the two fields that scheduling writes.
pub tk_sig_sem_rejected :
    (k : Kernel) (prid semid : ℕ) (cnt : ℤ)
    → (tk_sig_sem k prid semid cnt).1 ≢ e_ok
    → Frame k (tk_sig_sem k prid semid cnt).0
unfolding tk_sig_sem
tk_sig_sem_rejected k prid semid (negsuc n) h = Frame-refl k
tk_sig_sem_rejected k prid semid (pos cnt) h = elim (signal_cases k prid semid cnt) [
  | inl a ↦ absurd (h (signal_ok k prid semid cnt a))
  | inr r ↦ r.1
]

-- No count is above its maximum.
abbrev pub Bounded : Kernel → Type 0
Bounded k = (j : ℕ) → (k.semcb j).semcnt ≤ (k.semcb j).maxsem

Bounded-Frame : {k k' : Kernel} → Frame k k' → Bounded k → Bounded k'
Bounded-Frame f b j = rw (ap (λ g. g j) f.semcb_same) (b j)

within :
    (k : Kernel) (semid cnt : ℕ)
    → cnt ≤ (k.semcb (index_of semid)).maxsem - (k.semcb (index_of semid)).semcnt
    → Bounded k
    → (signalled k (index_of semid) cnt).remaining ≤ (k.semcb (index_of semid)).maxsem
within k semid cnt f b =
    let i = index_of semid in
    let le : (signalled k i cnt).remaining ≤ (k.semcb i).semcnt + cnt =
      grant-le _ (need_in k) _ (k.que (q_sem i)) in
    let bi = b i in omega arith

-- In every branch of a signal, accepted or not, each semaphore's count stays within its maximum,
-- provided that no task stands twice in the wait queue.
pub tk_sig_sem-Bounded :
    (k : Kernel) (prid semid : ℕ) (cnt : ℤ)
    → Distinct (k.que (q_sem (index_of semid)))
    → Bounded k
    → Bounded (tk_sig_sem k prid semid cnt).0
unfolding tk_sig_sem
tk_sig_sem-Bounded k prid semid (negsuc n) d b = b
tk_sig_sem-Bounded k prid semid (pos cnt) d b = elim (signal_cases k prid semid cnt) [
  | inr r ↦ Bounded-Frame r.1 b
  | inl a ↦ λ j.
      let i = index_of semid in
      let s = (tk_sig_sem-Served k prid semid cnt a d).1 in
      elim (Bool-cases (i == j)) [
        | inr ne ↦ rw (s.others j (ne_of_== i j ne)) (b j)
        | inl e ↦ rw (← eq_of_== i j e, s.count, s.maxsem_same) (within k semid cnt a.fits b)
      ]
]
