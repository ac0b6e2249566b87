-- ===== src/Mutex/Tests.antt =====
-- The theorems on mutexes at a concrete kernel: task 7 has locked mutex 0, for which 3 and 4 wait.
use tkernel.Base.{Bool, ◌≡◌, refl, true, false, some, [], ◌∷◌, arith, if◌then◌else◌, ◌==◌, ltb}
use tkernel.Kernel.{
  Kernel, e_ok, e_iluse, done, Que, q_rdy, q_sem, q_flg, q_smbf, q_rmbf, q_mpf, q_mtx, q_mbx,
  set_tcb, set_mtxcb,
}
use tkernel.Kernel.Queue.{set_que}
use tkernel.Kernel.Frame.{Frame, is_rdy}
use tkernel.Kernel.Lists.{NotIn, Distinct}
use tkernel.Sample.{sample, sample_semid}
use tkernel.Domain.{mp_check_domain_and_protection, check_exception_condition}
use tkernel.Priority.{set_priority, unlist, release_mutex}
use tkernel.Priority.Stays.{Out}
use tkernel.Priority.Highest.{deserved, least, demands, release_mutex-Frame}
use tkernel.Mutex.{mtx_access, tk_unl_mtx, chg_pri_mutex, waited_limit}
use tkernel.Mutex.Lock.{Unlockable, Handed, let_go, tk_unl_mtx-Handed}
use tkernel.Mutex.Limits.{ceilings, greatest, chg_pri_mutex_lem}

abbrev locked : Kernel
locked =
    let k1 = set_tcb sample 7 (record (sample.tcb 7) { mtxlist = 0 ∷ [] }) in
    set_que (set_mtxcb k1 0 (record (k1.obj.mtxcb 0) { mtxtsk = some 7 })) (q_mtx 0) (3 ∷ 4 ∷ [])

two-NotIn : (b : Bool) → NotIn 7 (if b then 3 ∷ 4 ∷ [] else [])
two-NotIn true = ((λ h. omega arith), ((λ h. omega arith), tt))
two-NotIn false = tt

locked-Out : Out 7 locked
locked-Out = (refl, out)
  where
    out : (q : Que) → is_rdy q ≡ false → NotIn 7 (locked.que q)
    out (q_rdy p) h = absurd cc
    out (q_sem i) h = two-NotIn (i == 0)
    out (q_flg i) h = elim (i == 0) as (λ b. NotIn 7 (if b then 5 ∷ 6 ∷ [] else [])) [
      | true ↦ ((λ h. omega arith), ((λ h. omega arith), tt))
      | false ↦ tt
    ]
    out (q_smbf i) h = tt
    out (q_rmbf i) h = tt
    out (q_mpf i) h = tt
    out (q_mtx i) h = two-NotIn (0 == i)
    out (q_mbx i) h = tt

locked-access : mtx_access locked 0 sample_semid ≡ e_ok
unfolding mtx_access mp_check_domain_and_protection check_exception_condition
locked-access = refl

locked-Unlockable : Unlockable locked 0 7 sample_semid
locked-Unlockable = record {
  id_ok = refl;
  in_task = refl;
  running = refl;
  access = locked-access;
  owner = refl;
  active = locked-Out;
  base = omega arith;
}

two-Distinct : Distinct (3 ∷ 4 ∷ [])
two-Distinct = ((λ h. omega arith, tt), (tt, tt))

tk_unl_mtx-Handed_example :
    ((tk_unl_mtx locked 0 sample_semid).1 ≡ e_ok)
    × Handed (let_go locked 7 0) (tk_unl_mtx locked 0 sample_semid).0 0 (3 ∷ 4 ∷ [])
tk_unl_mtx-Handed_example = tk_unl_mtx-Handed locked 0 7 sample_semid locked-Unlockable two-Distinct

release_mutex-Frame_example :
    Frame
      (set_priority (unlist locked 7 (some 0)) 7 (deserved (unlist locked 7 (some 0)) 7))
      (release_mutex locked 7 (some 0))
release_mutex-Frame_example = release_mutex-Frame locked 7 0 locked-Out.0 locked-Out.1 (omega arith)

chg_pri_mutex_lem_example : chg_pri_mutex locked 7 12 ≡ (
    if ltb 12 (greatest (waited_limit locked 7) (ceilings locked (0 ∷ [])))
    then e_iluse
    else done (least 12 (demands locked (0 ∷ []))))
chg_pri_mutex_lem_example = chg_pri_mutex_lem locked 7 12
