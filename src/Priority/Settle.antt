-- ===== src/Priority/Settle.antt =====
-- A change of a task's priority, with all that the hooks do, and the timer queue.
use tkernel.Base.{
  ℕ, zero, suc, refl, Option, none, some, List, [], ◌∷◌, ltb, ◌==◌, Bool-cases, Option-cases, inl,
  inr,
}
use tkernel.Kernel.{
  Kernel, is_waiting, Wspec, wspec_none, wspec_slp, wspec_sem_tfifo, wspec_sem_tpri,
  wspec_flg_tfifo, wspec_flg_tpri, wspec_smbf_tfifo, wspec_smbf_tpri, wspec_rmbf, wspec_mpf_tfifo,
  wspec_mpf_tpri, wspec_mtx_tfifo, wspec_mtx_tpri, wspec_mtx_inherit, wspec_mbx_tfifo,
  wspec_mbx_tpri, wspec_dly, wspec_tev, q_sem, q_smbf, q_mtx, Que, has, ta_cnt,
}
use tkernel.Timer.Shrunk.{Shrinks, Shrinks-same, Shrunk-trans, Released-Shrinks, Frame-Shrinks}
use tkernel.Task.Frame.{ready_queue_insert-Frame}
use tkernel.Task.Unready.{drop_klock-Frame, ready_queue_delete-Frame_removed}
use tkernel.ReadyQueue.{ready_queue_delete, drop_klock}
use tkernel.Kernel.Queue.{que_remove}
use tkernel.Wait.{wait_release_ok, gcb_change_priority, queue_insert_tpri}
use tkernel.Wait.Frame.{wait_release_ok-Released}
use tkernel.Domain.{index_of}
use tkernel.Semaphore.Hooks.{sub_semcnt, serve_while, sem_chg_pri}
use tkernel.EventFlag.{flg_chg_pri}
use tkernel.MessageBuffer.{wakeup_loop, mbf_wakeup, mbf_chg_pri}
use tkernel.MessageBuffer.Buffer.{mbf_free}
use tkernel.MessageBuffer.Pending.{sent_first, sent_first-Released}
use tkernel.FixedPool.{mpf_chg_pri}
use tkernel.Priority.{
  is_inherit, highest, release_with, mtx_chg_pri_with, mbx_chg_pri, chg_pri_hook, is_ts_ready,
  set_priority, change_on, change_task_priority, release_mutex, mtx_rel_wai,
}

serve_while-Shrinks : (i : ℕ) (l : List ℕ) (k : Kernel) → Shrinks k (serve_while k i l)
unfolding serve_while sub_semcnt
serve_while-Shrinks i [] k = Shrinks-same k k refl refl refl
serve_while-Shrinks i (t ∷ l) k =
    let k1 = sub_semcnt (wait_release_ok k t) i (k.tcb t).sem_cnt in
    elim (Bool-cases (ltb (k.semcb i).semcnt (k.tcb t).sem_cnt)) [
      | inl short ↦ rw short (Shrinks-same k k refl refl refl)
      | inr enough ↦ rw enough (
          Shrunk-trans (Released-Shrinks (wait_release_ok-Released k t))
            (serve_while-Shrinks i l k1))
    ]

requeue-Shrinks : (k : Kernel) (q : Que) (t : ℕ) → Shrinks k (gcb_change_priority k q t)
unfolding gcb_change_priority queue_insert_tpri que_remove
requeue-Shrinks k q t = Shrinks-same k (gcb_change_priority k q t) refl refl refl

pub sem_chg_pri-Shrinks : (k : Kernel) (t : ℕ) (o : Option ℕ) → Shrinks k (sem_chg_pri k t o)
unfolding sem_chg_pri
sem_chg_pri-Shrinks k t none =
    let i = index_of (k.tcb t).wid in
    elim (Bool-cases (has (k.semcb i).sematr ta_cnt)) [
      | inl c ↦ rw c (Shrinks-same k k refl refl refl)
      | inr c ↦ rw c (serve_while-Shrinks i (k.que (q_sem i)) k)
    ]
sem_chg_pri-Shrinks k t (some p) =
    let i = index_of (k.tcb t).wid in
    let k1 = gcb_change_priority k (q_sem i) t in
    elim (Bool-cases (has (k1.semcb i).sematr ta_cnt)) [
      | inl c ↦ rw c (requeue-Shrinks k (q_sem i) t)
      | inr c ↦ rw c (
          Shrunk-trans (requeue-Shrinks k (q_sem i) t)
            (serve_while-Shrinks i (k1.que (q_sem i)) k1))
    ]

wakeup_loop-Shrinks : (i : ℕ) (l : List ℕ) (k : Kernel) → Shrinks k (wakeup_loop k i l)
unfolding wakeup_loop
wakeup_loop-Shrinks i [] k = Shrinks-same k k refl refl refl
wakeup_loop-Shrinks i (t ∷ l) k =
    elim (Bool-cases (mbf_free (k.obj.mbfcb i) (k.tcb t).smbf_msgsz)) [
      | inl free ↦ rw free (
          Shrunk-trans (Released-Shrinks (sent_first-Released k i t))
            (wakeup_loop-Shrinks i l (sent_first k i t)))
      | inr full ↦ rw full (Shrinks-same k k refl refl refl)
    ]

pub mbf_chg_pri-Shrinks : (k : Kernel) (t : ℕ) (o : Option ℕ) → Shrinks k (mbf_chg_pri k t o)
unfolding mbf_chg_pri mbf_wakeup
mbf_chg_pri-Shrinks k t none = wakeup_loop-Shrinks (index_of (k.tcb t).wid) _ k
mbf_chg_pri-Shrinks k t (some p) =
    let i = index_of (k.tcb t).wid in
    let k1 = gcb_change_priority k (q_smbf i) t in
    Shrunk-trans (requeue-Shrinks k (q_smbf i) t) (wakeup_loop-Shrinks i (k1.que (q_smbf i)) k1)

-- What is to be shown of a change of priorities that goes on to other tasks.
abbrev pub ChangeShrinks : (Kernel → ℕ → ℕ → Kernel) → Type 0
ChangeShrinks change = (k : Kernel) (t p : ℕ) → Shrinks k (change k t p)

release_with-Shrinks :
    (change : Kernel → ℕ → ℕ → Kernel)
    → ChangeShrinks change
    → (k : Kernel) (t : ℕ) → Shrinks k (release_with change k t none)
unfolding release_with
release_with-Shrinks change h k t = elim (Bool-cases (highest k t == (k.tcb t).priority)) [
  | inl e ↦ rw e (Shrinks-same k k refl refl refl)
  | inr e ↦ rw e (h k t (highest k t))
]

mtx_chg_pri-Shrinks :
    (change : Kernel → ℕ → ℕ → Kernel)
    → ChangeShrinks change
    → (k : Kernel) (t oldpri : ℕ) → Shrinks k (mtx_chg_pri_with change k t oldpri)
unfolding mtx_chg_pri_with
mtx_chg_pri-Shrinks change h k t oldpri =
    let i = index_of (k.tcb t).wid in
    let k1 = gcb_change_priority k (q_mtx i) t in
    let s = requeue-Shrinks k (q_mtx i) t in
    elim (Bool-cases (is_inherit (k1.obj.mtxcb i))) [
      | inr plain ↦ rw plain s
      | inl inherits ↦ elim (Option-cases (k1.obj.mtxcb i).mtxtsk) [
        | inl e ↦ rw (inherits, e) s
        | inr (o, e) ↦
            rw (inherits, e)
              (elim (Bool-cases (ltb (k1.tcb t).priority (k1.tcb o).priority)) [
                | inl lt ↦ rw lt (Shrunk-trans s (h k1 o (k1.tcb t).priority))
                | inr ge ↦ rw ge (elim (Bool-cases ((k1.tcb o).priority == oldpri)) [
                  | inl same ↦ rw same (Shrunk-trans s (release_with-Shrinks change h k1 o))
                  | inr other ↦ rw other s
                ])
              ])
      ]
    ]

chg_pri_hook-Shrinks :
    (change : Kernel → ℕ → ℕ → Kernel)
    → ChangeShrinks change
    → (w : Wspec) (k : Kernel) (t oldpri : ℕ) → Shrinks k (chg_pri_hook change w k t oldpri)
unfolding chg_pri_hook flg_chg_pri mpf_chg_pri mbx_chg_pri
chg_pri_hook-Shrinks change h wspec_none k t oldpri = Shrinks-same k k refl refl refl
chg_pri_hook-Shrinks change h wspec_slp k t oldpri = Shrinks-same k k refl refl refl
chg_pri_hook-Shrinks change h wspec_sem_tfifo k t oldpri = Shrinks-same k k refl refl refl
chg_pri_hook-Shrinks change h wspec_sem_tpri k t oldpri = sem_chg_pri-Shrinks k t (some oldpri)
chg_pri_hook-Shrinks change h wspec_flg_tfifo k t oldpri = Shrinks-same k k refl refl refl
chg_pri_hook-Shrinks change h wspec_flg_tpri k t oldpri = requeue-Shrinks k _ t
chg_pri_hook-Shrinks change h wspec_smbf_tfifo k t oldpri = Shrinks-same k k refl refl refl
chg_pri_hook-Shrinks change h wspec_smbf_tpri k t oldpri = mbf_chg_pri-Shrinks k t (some oldpri)
chg_pri_hook-Shrinks change h wspec_rmbf k t oldpri = Shrinks-same k k refl refl refl
chg_pri_hook-Shrinks change h wspec_mpf_tfifo k t oldpri = Shrinks-same k k refl refl refl
chg_pri_hook-Shrinks change h wspec_mpf_tpri k t oldpri = requeue-Shrinks k _ t
chg_pri_hook-Shrinks change h wspec_mtx_tfifo k t oldpri = Shrinks-same k k refl refl refl
chg_pri_hook-Shrinks change h wspec_mtx_tpri k t oldpri = mtx_chg_pri-Shrinks change h k t oldpri
chg_pri_hook-Shrinks change h wspec_mtx_inherit k t oldpri = mtx_chg_pri-Shrinks change h k t oldpri
chg_pri_hook-Shrinks change h wspec_mbx_tfifo k t oldpri = Shrinks-same k k refl refl refl
chg_pri_hook-Shrinks change h wspec_mbx_tpri k t oldpri = requeue-Shrinks k _ t
chg_pri_hook-Shrinks change h wspec_dly k t oldpri = Shrinks-same k k refl refl refl
chg_pri_hook-Shrinks change h (wspec_tev n) k t oldpri = Shrinks-same k k refl refl refl

delete-Shrinks : (k : Kernel) (t : ℕ) → Shrinks k (ready_queue_delete k t)
unfolding que_remove
delete-Shrinks k t =
    let k1 = drop_klock k t in
    Shrunk-trans (Frame-Shrinks (drop_klock-Frame k t)) (
      Shrunk-trans (Shrinks-same k1 (que_remove k1 t) refl refl refl)
        (Frame-Shrinks (ready_queue_delete-Frame_removed k t)))

change_on-Shrinks : (n : ℕ) → ChangeShrinks (change_on n)
unfolding change_on
change_on-Shrinks zero k t p = Shrinks-same k k refl refl refl
change_on-Shrinks (suc n) k t p = elim (Bool-cases (is_ts_ready (k.tcb t).state)) [
  | inl ready ↦ rw ready (
      Shrunk-trans (delete-Shrinks k t)
        (Frame-Shrinks (ready_queue_insert-Frame (set_priority (ready_queue_delete k t) t p) t)))
  | inr not_ready ↦ rw not_ready (elim (Bool-cases (is_waiting (k.tcb t).state)) [
    | inl w ↦ rw w (
        chg_pri_hook-Shrinks (change_on n) (change_on-Shrinks n) (k.tcb t).wspec
          (set_priority k t p) t (k.tcb t).priority)
    | inr idle ↦ rw idle (Shrinks-same k k refl refl refl)
  ])
]

pub mtx_rel_wai-Shrinks : (k : Kernel) (t : ℕ) → Shrinks k (mtx_rel_wai k t)
unfolding mtx_rel_wai release_mutex change_task_priority
mtx_rel_wai-Shrinks k t = elim (Option-cases (k.obj.mtxcb (index_of (k.tcb t).wid)).mtxtsk) [
  | inl e ↦ rw (mtx_rel_wai, e) (Shrinks-same k k refl refl refl)
  | inr (o, e) ↦
      rw (mtx_rel_wai, e)
        (elim (Bool-cases ((k.tcb o).priority == (k.tcb t).priority)) [
          | inl same ↦
              rw same
                (release_with-Shrinks change_task_priority (λ j u p. change_on-Shrinks _ j u p) k o)
          | inr other ↦ rw other (Shrinks-same k k refl refl refl)
        ])
]
