-- ===== src/EventFlag/Calls.antt =====
-- kernel/tkernel/smp_src/eventflag.c: setting and deleting an event flag, from the checks of the
-- arguments to the end of the critical section.
use tkernel.Base.{ℕ, ◌≡◌, ◌≢◌, refl, ap, ◌∙◌, true, List, [], ==-refl, ==-ne, bit_or}
use tkernel.Kernel.{Kernel, Flgcb, e_ok, e_dlt, q_flg}
use tkernel.Kernel.Frame.{Frame, core}
use tkernel.Kernel.Lists.{NotIn, Distinct, Among}
use tkernel.Task.Frame.{update_schedtsk-Frame}
use tkernel.Domain.{chk_id, index_of, mp_unregister_object_in_domain}
use tkernel.Wait.Frame.{released_tcb}
use tkernel.Wait.Delete.{wait_delete-Emptied}
use tkernel.EventFlag.Answer.{asked_by, FlagOutcome, answer, Answered}
use tkernel.EventFlag.Set.{set_loop-Answered}
use tkernel.EventFlag.{set_flgptn, flg_access, set_flg_body, tk_set_flg, del_flg_body, tk_del_flg}

-- The specification at a state.
abbrev pub answered : Kernel → ℕ → ℕ → FlagOutcome
answered k i setptn =
    answer (λ u. asked_by (k.tcb u)) k.mem (bit_or (k.flgcb i).flgptn setptn) (k.que (q_flg i))

Answered-set :
    (k k' : Kernel) (i ptn : ℕ) (o : FlagOutcome)
    → Answered (set_flgptn k i ptn) k' i [] o
    → Answered k k' i [] o
Answered-set k k' i ptn o s = record {
  pattern = s.pattern;
  memory = s.memory;
  queue = s.queue;
  others = λ j ne. s.others j ne ∙ rw (==-ne i j ne) refl;
  semcb_same = s.semcb_same;
  woken = s.woken;
  asleep = s.asleep;
}

Answered-Frame :
    {k k1 k2 : Kernel} {i : ℕ} {w : List ℕ} {o : FlagOutcome}
    → Answered k k1 i w o
    → Frame k1 k2
    → Answered k k2 i w o
Answered-Frame {k} {k1} {k2} {i} s f =
    let same = λ (j : ℕ). ap (λ g. g j) f.flgcb_same in
    record {
      pattern = ap (λ (c : Flgcb). c.flgptn) (same i) ∙ s.pattern;
      memory = f.mem_same ∙ s.memory;
      queue = f.waits (q_flg i) refl ∙ s.queue;
      others = λ j ne. same j ∙ s.others j ne;
      semcb_same = f.semcb_same ∙ s.semcb_same;
      woken = λ u m. f.tcb_same u ∙ s.woken u m;
      asleep = λ u h. f.tcb_same u ∙ s.asleep u h;
    }

set_body-Answered :
    (k : Kernel) (prid flgid setptn : ℕ)
    → flg_access k prid flgid ≡ e_ok
    → Distinct (k.que (q_flg (index_of flgid)))
    → ((set_flg_body k prid flgid setptn).1 ≡ e_ok)
      × Answered k
          (set_flg_body k prid flgid setptn).0
          (index_of flgid)
          []
          (answered k (index_of flgid) setptn)
unfolding set_flg_body
set_body-Answered k prid flgid setptn a d =
    let i = index_of flgid in
    let ptn = bit_or (k.flgcb i).flgptn setptn in
    rw a (
      refl,
      Answered-set k _ i ptn _ (
          set_loop-Answered i (λ u. asked_by (k.tcb u)) (k.que (q_flg i)) (set_flgptn k i ptn) k.mem
            ptn [] refl d refl (rw (==-refl i) refl) (λ u. refl)),
    )

-- The setting of an event flag that exists and may be used, and in whose wait queue no task stands
-- twice, returns E_OK and answers the wait queue as the specification `answer` says: the pattern,
-- the patterns written to the memory of the callers, the wait queue, the tasks that are woken with
-- E_OK and those that are left as they were, up to the two fields that scheduling writes, are the
-- specification's, and every other event flag and all semaphores are untouched.
pub tk_set_flg-Answered :
    (k : Kernel) (prid flgid setptn : ℕ)
    → chk_id k k.max_flgid flgid ≡ true
    → flg_access k prid flgid ≡ e_ok
    → Distinct (k.que (q_flg (index_of flgid)))
    → ((tk_set_flg k prid flgid setptn).1 ≡ e_ok)
      × Answered k
          (tk_set_flg k prid flgid setptn).0
          (index_of flgid)
          []
          (answered k (index_of flgid) setptn)
unfolding tk_set_flg
tk_set_flg-Answered k prid flgid setptn id_ok a d =
    let b = set_body-Answered k prid flgid setptn a d in
    rw id_ok (b.0, Answered-Frame b.1 (update_schedtsk-Frame _))

-- `k'` is `k` after the deletion of event flag `i`, for which the tasks `l` waited.
pub record FlagDeleted (k k' : Kernel) (i : ℕ) (l : List ℕ) : Type 0 where
  pub gone : (k'.flgcb i).flgid ≡ 0
  pub queue : k'.que (q_flg i) ≡ []
  pub others : (j : ℕ) → i ≢ j → k'.flgcb j ≡ k.flgcb j
  pub semcb_same : k'.semcb ≡ k.semcb
  pub woken : (u : ℕ) → Among u l → core (k'.tcb u) ≡ core (released_tcb (k.tcb u) e_dlt)
  pub asleep : (u : ℕ) → NotIn u l → core (k'.tcb u) ≡ core (k.tcb u)

del_body-FlagDeleted :
    (k : Kernel) (prid flgid : ℕ)
    → flg_access k prid flgid ≡ e_ok
    → Distinct (k.que (q_flg (index_of flgid)))
    → ((del_flg_body k prid flgid).1 ≡ e_ok)
      × FlagDeleted k
          (del_flg_body k prid flgid).0
          (index_of flgid)
          (k.que (q_flg (index_of flgid)))
unfolding del_flg_body mp_unregister_object_in_domain
del_body-FlagDeleted k prid flgid a d =
    let i = index_of flgid in
    let s = wait_delete-Emptied k (q_flg i) refl d in
    rw a (
      refl,
      record {
        gone = rw (==-refl i) refl;
        queue = s.queue;
        others = λ j ne. rw (==-ne i j ne) (ap (λ f. f j) s.flgcb_same);
        semcb_same = s.semcb_same;
        woken = s.woken;
        asleep = s.asleep;
      },
    )

-- The deletion of an event flag that exists and may be used, and in whose wait queue no task stands
-- twice, returns E_OK: the event flag is gone, its wait queue is empty, each task that waited is
-- released with E_DLT, and no other task, no other event flag and no semaphore changes, up to the
-- two fields of a task that scheduling writes.
tk_del_flg-FlagDeleted :
    (k : Kernel) (prid flgid : ℕ)
    → chk_id k k.max_flgid flgid ≡ true
    → flg_access k prid flgid ≡ e_ok
    → Distinct (k.que (q_flg (index_of flgid)))
    → ((tk_del_flg k prid flgid).1 ≡ e_ok)
      × FlagDeleted k (tk_del_flg k prid flgid).0 (index_of flgid) (k.que (q_flg (index_of flgid)))
unfolding tk_del_flg
tk_del_flg-FlagDeleted k prid flgid id_ok a d =
    let b = del_body-FlagDeleted k prid flgid a d in
    let f = update_schedtsk-Frame (del_flg_body k prid flgid).0 in
    let same = λ (j : ℕ). ap (λ g. g j) f.flgcb_same in
    rw id_ok (
      b.0,
      record {
        gone = ap (λ (c : Flgcb). c.flgid) (same (index_of flgid)) ∙ b.1.gone;
        queue = f.waits (q_flg (index_of flgid)) refl ∙ b.1.queue;
        others = λ j ne. same j ∙ b.1.others j ne;
        semcb_same = f.semcb_same ∙ b.1.semcb_same;
        woken = λ u m. f.tcb_same u ∙ b.1.woken u m;
        asleep = λ u h. f.tcb_same u ∙ b.1.asleep u h;
      },
    )
