-- ===== src/Priority/Bystander.antt =====
-- A change of a task's priority, with all that the hooks do, and a task that does not wait.
use tkernel.Base.{
  ℕ, zero, suc, ◌≡◌, ◌≢◌, subst, sym, ◌%◌, ◌^◌, ==-refl, if◌then◌else◌, eq_of_==, refl, false, none,
  some, ltb, ◌==◌, Bool-cases, Option-cases, inl, inr,
}
use tkernel.Kernel.{
  Kernel, is_waiting, Wspec, wspec_none, wspec_slp, wspec_sem_tfifo, wspec_sem_tpri,
  wspec_flg_tfifo, wspec_flg_tpri, wspec_smbf_tfifo, wspec_smbf_tpri, wspec_rmbf, wspec_mpf_tfifo,
  wspec_mpf_tpri, wspec_mtx_tfifo, wspec_mtx_tpri, wspec_mtx_inherit, wspec_mbx_tfifo,
  wspec_mbx_tpri, wspec_dly, wspec_tev, q_sem, q_smbf, q_mtx, has, ta_cnt,
}
use tkernel.Task.Frame.{ready_queue_insert-Frame}
use tkernel.Task.Unready.{drop_klock-Frame, ready_queue_delete-Frame_removed}
use tkernel.ReadyQueue.{ready_queue_delete, drop_klock}
use tkernel.Kernel.Queue.{que_remove}
use tkernel.Wait.{gcb_change_priority}
use tkernel.Domain.{index_of}
use tkernel.Semaphore.Hooks.{sem_chg_pri, sem_rel_wai}
use tkernel.EventFlag.{flg_chg_pri}
use tkernel.MessageBuffer.{mbf_wakeup, mbf_chg_pri, mbf_rel_wai}
use tkernel.FixedPool.{mpf_chg_pri}
use tkernel.Priority.{
  is_inherit, highest, release_with, mtx_chg_pri_with, mbx_chg_pri, chg_pri_hook, is_ts_ready,
  set_priority, change_on, change_task_priority, release_mutex, mtx_rel_wai,
}
use tkernel.Priority.Stays.{
  Out, Stays, Stays-refl, Stays-trans, Stays-if, Stays-Out, Frame-Stays, requeue-Stays,
  remove-NotIn_other, serve_while-Stays, wakeup_loop-Stays, waiting_ne,
}

-- After `t`, which is another task than `u`, has its new place, the loops of the hooks are run.
pub sem_chg_pri-Stays :
    (u : ℕ) (k : Kernel) (t p : ℕ) → (Out u k → t ≢ u) → Stays u k (sem_chg_pri k t (some p))
unfolding sem_chg_pri
sem_chg_pri-Stays u k t p ne =
    let i = index_of (k.tcb t).wid in
    let k1 = gcb_change_priority k (q_sem i) t in
    let s = requeue-Stays u k (q_sem i) t refl ne in
    elim (Bool-cases (has (k1.semcb i).sematr ta_cnt)) [
      | inl c ↦ rw c s
      | inr c ↦ rw c (
          Stays-Out (λ o.
            Stays-trans s
              (serve_while-Stays u i (k1.que (q_sem i)) k1 ((s.still o).1 (q_sem i) refl))))
    ]

pub sem_rel_wai-Stays : (u : ℕ) (k : Kernel) (t : ℕ) → Stays u k (sem_rel_wai k t)
unfolding sem_rel_wai sem_chg_pri
sem_rel_wai-Stays u k t =
    let i = index_of (k.tcb t).wid in
    elim (Bool-cases (has (k.semcb i).sematr ta_cnt)) [
      | inl c ↦ rw c (Stays-refl u k)
      | inr c ↦
          rw c (Stays-Out (λ o. serve_while-Stays u i (k.que (q_sem i)) k (o.1 (q_sem i) refl)))
    ]

pub mbf_chg_pri-Stays :
    (u : ℕ) (k : Kernel) (t p : ℕ) → (Out u k → t ≢ u) → Stays u k (mbf_chg_pri k t (some p))
unfolding mbf_chg_pri mbf_wakeup
mbf_chg_pri-Stays u k t p ne =
    let i = index_of (k.tcb t).wid in
    let k1 = gcb_change_priority k (q_smbf i) t in
    let s = requeue-Stays u k (q_smbf i) t refl ne in
    Stays-Out (λ o.
      Stays-trans s (wakeup_loop-Stays u i (k1.que (q_smbf i)) k1 ((s.still o).1 (q_smbf i) refl)))

pub mbf_rel_wai-Stays : (u : ℕ) (k : Kernel) (t : ℕ) → Stays u k (mbf_rel_wai k t)
unfolding mbf_rel_wai mbf_chg_pri mbf_wakeup
mbf_rel_wai-Stays u k t =
    let i = index_of (k.tcb t).wid in
    Stays-Out (λ o. wakeup_loop-Stays u i (k.que (q_smbf i)) k (o.1 (q_smbf i) refl))

-- What is to be shown of a change of priorities that goes on to other tasks.
abbrev pub ChangeStays : ℕ → (Kernel → ℕ → ℕ → Kernel) → Type 0
ChangeStays u change = (k : Kernel) (t p : ℕ) → Stays u k (change k t p)

release_with-Stays :
    (u : ℕ) (change : Kernel → ℕ → ℕ → Kernel)
    → ChangeStays u change
    → (k : Kernel) (t : ℕ) → Stays u k (release_with change k t none)
unfolding release_with
release_with-Stays u change h k t = elim (Bool-cases (highest k t == (k.tcb t).priority)) [
  | inl e ↦ rw e (Stays-refl u k)
  | inr e ↦ rw e (h k t (highest k t))
]

mtx_chg_pri-Stays :
    (u : ℕ) (change : Kernel → ℕ → ℕ → Kernel)
    → ChangeStays u change
    → (k : Kernel) (t oldpri : ℕ) → (Out u k → t ≢ u)
    → Stays u k (mtx_chg_pri_with change k t oldpri)
unfolding mtx_chg_pri_with
mtx_chg_pri-Stays u change h k t oldpri ne =
    let i = index_of (k.tcb t).wid in
    let k1 = gcb_change_priority k (q_mtx i) t in
    let s = requeue-Stays u k (q_mtx i) t refl ne in
    elim (Bool-cases (is_inherit (k1.obj.mtxcb i))) [
      | inr plain ↦ rw plain s
      | inl inherits ↦ elim (Option-cases (k1.obj.mtxcb i).mtxtsk) [
        | inl e ↦ rw (inherits, e) s
        | inr (o, e) ↦
            rw (inherits, e)
              (elim (Bool-cases (ltb (k1.tcb t).priority (k1.tcb o).priority)) [
                | inl lt ↦ rw lt (Stays-trans s (h k1 o (k1.tcb t).priority))
                | inr ge ↦ rw ge (elim (Bool-cases ((k1.tcb o).priority == oldpri)) [
                  | inl same ↦ rw same (Stays-trans s (release_with-Stays u change h k1 o))
                  | inr other ↦ rw other s
                ])
              ])
      ]
    ]

chg_pri_hook-Stays :
    (u : ℕ) (change : Kernel → ℕ → ℕ → Kernel)
    → ChangeStays u change
    → (w : Wspec) (k : Kernel) (t oldpri : ℕ) → (Out u k → t ≢ u)
    → Stays u k (chg_pri_hook change w k t oldpri)
unfolding chg_pri_hook flg_chg_pri mpf_chg_pri mbx_chg_pri
chg_pri_hook-Stays u change h wspec_none k t oldpri ne = Stays-refl u k
chg_pri_hook-Stays u change h wspec_slp k t oldpri ne = Stays-refl u k
chg_pri_hook-Stays u change h wspec_sem_tfifo k t oldpri ne = Stays-refl u k
chg_pri_hook-Stays u change h wspec_sem_tpri k t oldpri ne = sem_chg_pri-Stays u k t oldpri ne
chg_pri_hook-Stays u change h wspec_flg_tfifo k t oldpri ne = Stays-refl u k
chg_pri_hook-Stays u change h wspec_flg_tpri k t oldpri ne = requeue-Stays u k _ t refl ne
chg_pri_hook-Stays u change h wspec_smbf_tfifo k t oldpri ne = Stays-refl u k
chg_pri_hook-Stays u change h wspec_smbf_tpri k t oldpri ne = mbf_chg_pri-Stays u k t oldpri ne
chg_pri_hook-Stays u change h wspec_rmbf k t oldpri ne = Stays-refl u k
chg_pri_hook-Stays u change h wspec_mpf_tfifo k t oldpri ne = Stays-refl u k
chg_pri_hook-Stays u change h wspec_mpf_tpri k t oldpri ne = requeue-Stays u k _ t refl ne
chg_pri_hook-Stays u change h wspec_mtx_tfifo k t oldpri ne = Stays-refl u k
chg_pri_hook-Stays u change h wspec_mtx_tpri k t oldpri ne =
    mtx_chg_pri-Stays u change h k t oldpri ne
chg_pri_hook-Stays u change h wspec_mtx_inherit k t oldpri ne =
    mtx_chg_pri-Stays u change h k t oldpri ne
chg_pri_hook-Stays u change h wspec_mbx_tfifo k t oldpri ne = Stays-refl u k
chg_pri_hook-Stays u change h wspec_mbx_tpri k t oldpri ne = requeue-Stays u k _ t refl ne
chg_pri_hook-Stays u change h wspec_dly k t oldpri ne = Stays-refl u k
chg_pri_hook-Stays u change h (wspec_tev n) k t oldpri ne = Stays-refl u k

delete-Stays : (u : ℕ) (k : Kernel) (t : ℕ) → Stays u k (ready_queue_delete k t)
unfolding que_remove
delete-Stays u k t =
    let k1 = drop_klock k t in
    Stays-trans (Frame-Stays (drop_klock-Frame k t)) (
      Stays-trans
        (Stays-if u k1 (que_remove k1 t) refl (λ q h n. remove-NotIn_other u t (k1.que q) n))
        (Frame-Stays (ready_queue_delete-Frame_removed k t)))

set_priority-Stays : (u : ℕ) (k : Kernel) (t p : ℕ) → Stays u k (set_priority k t p)
set_priority-Stays u k t p =
    Stays-if u k (set_priority k t p)
      (elim (Bool-cases (t == u)) [ inl e ↦ rw (e, eq_of_== t u e) refl | inr e ↦ rw e refl ])
      (λ q h n. n)

idle_self :
    (k : Kernel) (t p : ℕ)
    → is_waiting ((set_priority k t p).tcb t).state ≡ false
    → is_waiting (k.tcb t).state ≡ false
idle_self k t p h =
    subst
      (λ b.
        is_waiting (if b then record (k.tcb t) { priority = p % 2 ^ 8 } else k.tcb t).state ≡ false)
      (==-refl t) h

is_Out : (u : ℕ) (k : Kernel) (t p : ℕ) → Out u (set_priority k t p) → Out u k
is_Out u k t p o = elim (Bool-cases (t == u)) [
  | inl e ↦ (
    rw (← eq_of_== t u e) (
        idle_self k t p (
          subst (λ v. is_waiting ((set_priority k t p).tcb v).state ≡ false) (sym (eq_of_== t u e))
            o.0)),
    o.1,
  )
  | inr e ↦ (
    subst
        (λ b.
          is_waiting (if b then record (k.tcb t) { priority = p % 2 ^ 8 } else k.tcb u).state
          ≡ false)
        e o.0,
    o.1,
  )
]

change_on-Stays : (u n : ℕ) → ChangeStays u (change_on n)
unfolding change_on
change_on-Stays u zero k t p = Stays-refl u k
change_on-Stays u (suc n) k t p = elim (Bool-cases (is_ts_ready (k.tcb t).state)) [
  | inl ready ↦ rw ready (
      Stays-trans (delete-Stays u k t) (
        Stays-trans (set_priority-Stays u (ready_queue_delete k t) t p)
          (Frame-Stays (ready_queue_insert-Frame (set_priority (ready_queue_delete k t) t p) t))))
  | inr not_ready ↦ rw not_ready (elim (Bool-cases (is_waiting (k.tcb t).state)) [
    | inl w ↦ rw w (
        Stays-trans (set_priority-Stays u k t p) (
          chg_pri_hook-Stays u (change_on n) (change_on-Stays u n) (k.tcb t).wspec
            (set_priority k t p) t (k.tcb t).priority (λ o. waiting_ne u k t (is_Out u k t p o) w)))
    | inr idle ↦ rw idle (set_priority-Stays u k t p)
  ])
]

pub mtx_rel_wai-Stays : (u : ℕ) (k : Kernel) (t : ℕ) → Stays u k (mtx_rel_wai k t)
unfolding mtx_rel_wai release_mutex change_task_priority
mtx_rel_wai-Stays u k t = elim (Option-cases (k.obj.mtxcb (index_of (k.tcb t).wid)).mtxtsk) [
  | inl e ↦ rw (mtx_rel_wai, e) (Stays-refl u k)
  | inr (o, e) ↦
      rw (mtx_rel_wai, e)
        (elim (Bool-cases ((k.tcb o).priority == (k.tcb t).priority)) [
          | inl same ↦
              rw same
                (release_with-Stays u change_task_priority (λ j v p. change_on-Stays u _ j v p) k o)
          | inr other ↦ rw other (Stays-refl u k)
        ])
]
