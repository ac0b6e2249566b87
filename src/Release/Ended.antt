-- ===== src/Release/Ended.antt =====
-- kernel/tkernel/smp_src/wait.c, `wait_release_ng`: the hook serves the other tasks of the wait
-- queue, and the released task is not among them.
use tkernel.Base.{ℕ, ◌≡◌, refl, ◌∙◌, ap, false, List, [], ◌∷◌, Bool-cases, inl, inr, ◌==◌, ne_of_==}
use tkernel.Kernel.{
  Kernel, Er, Tstat, is_waiting, Wspec, wspec_none, wspec_slp, wspec_sem_tfifo, wspec_sem_tpri,
  wspec_flg_tfifo, wspec_flg_tpri, wspec_smbf_tfifo, wspec_smbf_tpri, wspec_rmbf, wspec_mpf_tfifo,
  wspec_mpf_tpri, wspec_mtx_tfifo, wspec_mtx_tpri, wspec_mtx_inherit, wspec_mbx_tfifo,
  wspec_mbx_tpri, wspec_dly, wspec_tev,
}
use tkernel.Kernel.Queue.{remove}
use tkernel.Kernel.Lists.{NotIn}
use tkernel.Wait.{wait_release_ok_ercd, is_ts_wait}
use tkernel.Wait.Frame.{Released, released_tcb, after_release, wait_release_ok_ercd-Released}
use tkernel.Priority.Stays.{Out, Stays, Stays-refl, trim}
use tkernel.Priority.Bystander.{sem_rel_wai-Stays, mbf_rel_wai-Stays, mtx_rel_wai-Stays}
use tkernel.Release.{rel_wai_hook, wait_release_ng}

rel_wai_hook-Stays : (u : ℕ) (w : Wspec) (k : Kernel) (t : ℕ) → Stays u k (rel_wai_hook w k t)
unfolding rel_wai_hook
rel_wai_hook-Stays u wspec_none k t = Stays-refl u k
rel_wai_hook-Stays u wspec_slp k t = Stays-refl u k
rel_wai_hook-Stays u wspec_sem_tfifo k t = sem_rel_wai-Stays u k t
rel_wai_hook-Stays u wspec_sem_tpri k t = sem_rel_wai-Stays u k t
rel_wai_hook-Stays u wspec_flg_tfifo k t = Stays-refl u k
rel_wai_hook-Stays u wspec_flg_tpri k t = Stays-refl u k
rel_wai_hook-Stays u wspec_smbf_tfifo k t = mbf_rel_wai-Stays u k t
rel_wai_hook-Stays u wspec_smbf_tpri k t = mbf_rel_wai-Stays u k t
rel_wai_hook-Stays u wspec_rmbf k t = Stays-refl u k
rel_wai_hook-Stays u wspec_mpf_tfifo k t = Stays-refl u k
rel_wai_hook-Stays u wspec_mpf_tpri k t = Stays-refl u k
rel_wai_hook-Stays u wspec_mtx_tfifo k t = Stays-refl u k
rel_wai_hook-Stays u wspec_mtx_tpri k t = Stays-refl u k
rel_wai_hook-Stays u wspec_mtx_inherit k t = mtx_rel_wai-Stays u k t
rel_wai_hook-Stays u wspec_mbx_tfifo k t = Stays-refl u k
rel_wai_hook-Stays u wspec_mbx_tpri k t = Stays-refl u k
rel_wai_hook-Stays u wspec_dly k t = Stays-refl u k
rel_wai_hook-Stays u (wspec_tev n) k t = Stays-refl u k

remove_gone : (t : ℕ) (l : List ℕ) → NotIn t (remove t l)
unfolding remove
remove_gone t [] = tt
remove_gone t (x ∷ l) = elim (Bool-cases (x == t)) [
  | inl e ↦ rw e (remove_gone t l)
  | inr e ↦ rw e (ne_of_== x t e, remove_gone t l)
]

pub after_release_wakes : (s : Tstat) → is_waiting (after_release s) ≡ false
after_release_wakes s = elim (Bool-cases (is_ts_wait s)) [ inl e ↦ rw e refl | inr e ↦ rw e refl ]

-- A task that has just been released does not wait, and is in no wait queue.
pub Released-Out : {k k' : Kernel} {t : ℕ} {e : Er} → Released k k' t e → Out t k'
Released-Out {k} {k'} {t} r = (
  ap (λ c. is_waiting c.state) r.tcb_self ∙ after_release_wakes (k.tcb t).state,
  λ q h. rw (r.waits q h) (remove_gone t (k.que q)),
)

-- After `wait_release_ng` the task has the result that was given and is READY or only suspended, and
-- nothing else of it has changed but its priority and what scheduling writes, also where the hook
-- releases others or changes priorities.
pub wait_release_ng_lem :
    (k : Kernel) (t : ℕ) (e : Er)
    → trim ((wait_release_ng k t e).tcb t) ≡ trim (released_tcb (k.tcb t) e)
unfolding wait_release_ng
wait_release_ng_lem k t e =
    let r = wait_release_ok_ercd-Released k t e in
    (rel_wai_hook-Stays t (k.tcb t).wspec (wait_release_ok_ercd k t e) t).same (Released-Out r)
    ∙ ap (λ c. trim c) r.tcb_self
